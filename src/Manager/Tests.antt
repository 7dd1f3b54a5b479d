-- ===== src/Manager/Tests.antt =====
-- Two processors, of which the kernel serves both or only the first, each time with other descriptors.
use musketeer.Prelude.{
  ℕ, zero, suc, ◌+◌, ◌*◌, ◌<◌, ◌≡◌, refl, true, false, arith, length, Returns, [], none, fault,
  dangling, assertion,
}
use musketeer.Prelude.Int.{negsuc}
use musketeer.Errors.{done, failed, eaddrinuse, emfile}
use musketeer.TaskQueue.Counter.{counter}
use musketeer.TaskQueue.Steps.{fresh}
use musketeer.Logger.{debug}
use musketeer.Logger.Starting.{TakesLines}
use musketeer.Worker.Making.{Kernel}
use musketeer.Worker.Starting.{Willing}
use musketeer.Manager.{Manager, run_main}
use musketeer.Manager.Startup.{
  AllRunning, IsNew, checked, run_main_lem, run_main_refused, run_main_asleep,
}

abbrev generous : ℕ → Kernel
generous i = record {
  epoll_create = done (2 * i + 5);
  socket = done (2 * i + 6);
  reuse_addr = done 0;
  reuse_port = done 0;
  bind = done 0;
  eventfd = done (2 * i + 100);
  timerfd_create = done (2 * i + 101);
  listen = done 0;
  thread_id = 8 + i;
}

abbrev refusing : ℕ → Kernel
refusing zero = generous 0
refusing (suc i) = record (generous (suc i)) { bind = failed eaddrinuse }

-- Two workers are made before the first is started.
generous-Willing : (j : ℕ) → j < 2 → Willing (generous j)
generous-Willing j lt = record {
  listen_fd = 2 * j + 6;
  event_fd = 2 * j + 100;
  timer_fd = 2 * j + 101;
  polls = (2 * j + 5, refl);
  gives = refl;
  wakes = refl;
  times = refl;
  bound = (0, refl);
  heard = (0, refl);
  apart = (λ e. absurd (omega arith), λ e. absurd (omega arith), λ e. absurd (omega arith));
}

refusing-Willing : (j : ℕ) → j < 1 → Willing (refusing j)
refusing-Willing zero lt = generous-Willing 0 (omega arith)
refusing-Willing (suc j) lt = absurd (omega arith)

abbrev manager : Manager counter ℕ
manager = record {
  logger = record {
    level = debug;
    file_open = false;
    inited = false;
    log_thread = record {
      event_cycle = record { all_channels = []; ctl = []; stop = false };
      thread_index = negsuc 0;
      thread_id = none;
    };
    wakeup = record { event_fd = none; channel = none };
    task_queue = fresh counter ℕ 0;
    lines = [];
  };
  net_workers = [];
}

manager-IsNew : (kernel : ℕ → Kernel) → IsNew (λ i. true) 9 kernel manager
manager-IsNew kernel = record {
  no_workers = refl;
  unopened = refl;
  no_channel = refl;
  no_channels = refl;
}

run_main_lem_example :
    Returns
      (λ r.
        (r.0 ≡ 0)
        × AllRunning generous 0 r.1.net_workers
        × (length r.1.net_workers ≡ 2)
        × TakesLines 50 1 (checked (λ i. true) 9 generous manager) r.1.logger)
      (run_main (λ i. true) 9 generous true true (done 50) 1 2 manager)
run_main_lem_example =
    run_main_lem (λ i. true) 9 generous 1 50 2 manager (manager-IsNew generous) generous-Willing

run_main_refused_example :
    (run_main (λ i. true) 9 refusing true true (done 50) 1 (1 + suc 0) manager ≡ fault dangling)
    × Returns
        (λ r. (r.0 ≡ 1) × (r.1.net_workers ≡ []))
        (run_main (λ i. true) 9 refusing false true (done 50) 1 0 manager)
run_main_refused_example =
    run_main_refused (λ i. true) 9 refusing 1 1 0 manager eaddrinuse (done 50) 7 8
      (manager-IsNew refusing) refusing-Willing refl refl refl

run_main_asleep_example :
    run_main (λ i. true) 9 generous true true (failed emfile) 1 2 manager ≡ fault assertion
run_main_asleep_example =
    run_main_asleep (λ i. true) 9 generous 1 1 manager emfile (manager-IsNew generous)
      generous-Willing
