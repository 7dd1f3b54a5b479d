-- ===== src/Worker/Tests.antt =====
-- A worker whose queue is new, and requests from another thread.
use musketeer.Prelude.{ℕ, ◌+◌, ◌≡◌, refl, [], ◌∷◌, arith, true, false, ◌>>=◌}
use musketeer.Prelude.Int.{pos}
use musketeer.Errors.{SysResult, done, failed, einprogress}
use musketeer.Buffer.Alloc.{Allocator}
use musketeer.Timers.{init}
use musketeer.TaskQueue.Counter.{counter}
use musketeer.TaskQueue.Steps.{fresh}
use musketeer.TaskQueue.Drain.{Ready}
use musketeer.Worker.{Request, NetWorker, connect_all_upstream, handle_tasks}
use musketeer.Worker.Upstream.{connector_of, connect_upstream_elsewhere}

abbrev exact : Allocator
exact = record { grown = λ s c n. n; shrunk = λ s c. s; fresh = λ i. 0 }

abbrev worker : NetWorker counter
worker = record {
  index = 0;
  thread_id = 7;
  task_queue = fresh counter Request 0;
  connector = record {
    limit = 10;
    pool = record { connections_number = pos 0; connections = []; active = λ i. true };
    ongoing = [];
    cycle = record { all_channels = []; ctl = []; stop = false };
    queue = init 2;
    addresses = 100;
    made = [];
    calls = [];
    closed = [];
  };
  attempts = 0;
}

worker-Ready : Ready worker.task_queue
worker-Ready = record {
  inv = record { paid = omega arith; kept = refl; called = refl; quiet = refl };
  no_sender = refl;
  no_round = refl;
}

-- Each call starts a connection, on one descriptor after the other.
abbrev answer : ℕ → SysResult × SysResult
answer k = (done (k + 5), failed einprogress)

abbrev asked : Request
asked = record { addr = record { s_addr = 1; sin_port = 2 }; callback = 8 }

connect_upstream_elsewhere_example :
    connector_of (
      connect_all_upstream answer exact 20 21 (λ k. k) 22 3 (asked ∷ asked ∷ []) worker
      >>= handle_tasks answer exact 20 21 (λ k. k) 22)
    ≡ connector_of
        (connect_all_upstream answer exact 20 21 (λ k. k) 22 7 (asked ∷ asked ∷ []) worker)
connect_upstream_elsewhere_example =
    connect_upstream_elsewhere answer exact 20 21 (λ k. k) 22 3 (asked ∷ asked ∷ []) worker refl
      worker-Ready refl (omega arith)
