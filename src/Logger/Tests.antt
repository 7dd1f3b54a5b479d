-- ===== src/Logger/Tests.antt =====
-- A logger that was started at the level of debugging, and three lines from another thread.
use musketeer.Prelude.{
  ℕ, ◌+◌, ◌≡◌, refl, true, false, [], ◌∷◌, Option, none, some, arith, ◌>>=◌, Returns,
}
use musketeer.Prelude.Int.{pos, negsuc}
use musketeer.TaskQueue.Counter.{counter}
use musketeer.TaskQueue.Steps.{fresh}
use musketeer.TaskQueue.Drain.{Ready}
use musketeer.Logger.{debug, warn, fatal, rank, Logger, log_all, handle_tasks}
use musketeer.Logger.Order.{log_elsewhere}

abbrev new_logger : Logger counter ℕ
new_logger = record {
  level = debug;
  file_open = false;
  inited = false;
  log_thread = record {
    event_cycle = record { all_channels = []; ctl = []; stop = false };
    thread_index = negsuc 0;
    thread_id = none;
  };
  wakeup = record { event_fd = none; channel = none };
  task_queue = fresh counter ℕ 0;
  lines = [];
}

-- It was started with an eventfd, and its thread has the id 7.
abbrev logger : Logger counter ℕ
logger = record new_logger {
  file_open = true;
  inited = true;
  log_thread = record (new_logger.log_thread) { thread_index = pos 0; thread_id = some 7 };
  wakeup = record { event_fd = some 4; channel = none };
}

logger-Ready : Ready logger.task_queue
logger-Ready = record {
  inv = record { paid = omega arith; kept = refl; called = refl; quiet = refl };
  no_sender = refl;
  no_round = refl;
}

-- What `handleRead` says of the eventfd it read.
abbrev read_line : Option ℕ → ℕ
read_line none = 0
read_line (some n) = 100 + n

log_elsewhere_example :
    Returns
      (λ (l : Logger counter ℕ). l.lines ≡ 103 ∷ 1 ∷ 2 ∷ 3 ∷ [])
      (log_all 3 ((debug, 1) ∷ (warn, 2) ∷ (fatal, 3) ∷ []) logger
        >>= handle_tasks 7 read_line 98 (λ n. 99))
unfolding rank
log_elsewhere_example =
    log_elsewhere 3 7 read_line 98 (λ n. 99) ((debug, 1) ∷ (warn, 2) ∷ (fatal, 3) ∷ []) logger refl
      refl refl refl logger-Ready refl (omega arith) (omega arith)
