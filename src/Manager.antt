-- ===== src/Manager.antt =====
-- base/Manager.h and base/Manager.cpp, and `main` of musketeer.cpp: how the program's logger and its workers, one
-- for each processor, are made and started.
pub mod Startup
mod Tests
use musketeer.Prelude.{
  ℕ, zero, suc, ◌+◌, Bool, true, false, not, List, [], ◌∷◌, ◌++◌, Outcome, ok, fault, out_of_bounds,
  ◌>>=◌, if◌then◌else◌, ◌>>◌, assert,
}
use musketeer.TaskQueue.EventFd.{Eventfd}
use musketeer.Errors.{SysResult}
use musketeer.Logger.{Logger, debug, is_some}
use musketeer.Logger
use musketeer.Worker.Making.{Kernel, NetWorker, construct, destroy, start_thread}
use musketeer.Worker.Making

-- `Manager`. Nothing reads `netWorkerIndex`.
pub record Manager (fd : Eventfd) (T : Type 0) : Type 0 where
  pub logger : Logger fd T
  pub net_workers : List NetWorker

-- `GetNetWorker`: `*netWorkers[0]`
pub get_net_worker : List NetWorker → Outcome NetWorker
get_net_worker [] = fault out_of_bounds
get_net_worker (w ∷ ws) = ok w

-- What the kernel says to the worker of an index. Which of the connections to come are active, and an address
-- for the objects of a worker, are parameters too.
module _ (active : ℕ → Bool) (address : ℕ) (kernel : ℕ → Kernel) where
  -- The loop of `CheckAndSet`, for the workers that are still to be made. One that cannot be bound is destroyed at the
  -- `return`.
  pub check_workers : ℕ → ℕ → List NetWorker → Outcome (Bool × List NetWorker)
  check_workers zero i ws = ok (true, ws)
  check_workers (suc n) i ws = do
    w ← construct active address (kernel i) i
    bound ← Making.check_and_set (kernel i) w
    let rest = check_workers n (i + 1) (ws ++ w ∷ [])
    if bound then rest else (destroy w >>= λ u. ok (false, ws))

  -- The loop of `InitThreads`.
  pub start_workers : ℕ → List NetWorker → Outcome (List NetWorker)
  start_workers i [] = ok []
  start_workers i (w ∷ ws) = do
    w' ← start_thread (kernel i) w
    ws' ← start_workers (i + 1) ws
    ok (w' ∷ ws')

  module _ {fd : Eventfd} {T : Type 0} where
    -- `CheckAndSet`, with whether the log file is there, on so many processors.
    pub check_and_set : Bool → ℕ → Manager fd T → Outcome (Bool × Manager fd T)
    unfolding check_workers
    check_and_set found n m = do
      (there, l) ← Logger.check_and_set debug false found m.logger
      if not there
          then ok (false, record m { logger = l })
          else (check_workers n 0 m.net_workers >>= λ (all, ws).
              ok (all, record m { logger = l; net_workers = ws }))

    -- What the start of a worker logs is not modelled, but for what it needs: from this thread each line goes
    -- through `SendTask`, whose assertion fails where the logger has no eventfd.
    can_log : List NetWorker → Logger fd T → Outcome Bool
    can_log [] l = ok true
    can_log (w ∷ ws) l = do assert (is_some l.wakeup.event_fd); ok true

    -- `InitThreads`, with whether the log file can be opened, what `::eventfd` returns to the logger and the id of the
    -- logger's thread.
    pub init_threads : Bool → SysResult → ℕ → Manager fd T → Outcome (Manager fd T)
    unfolding start_workers can_log
    init_threads opened res id m = do
      l ← Logger.start_thread opened res address id 0 m.logger
      logs ← can_log m.net_workers l
      ws ← start_workers 0 m.net_workers
      ok (record m { logger = l; net_workers = ws })

    -- `main`: what it returns, and the manager as it leaves it.
    pub run_main : Bool → Bool → SysResult → ℕ → ℕ → Manager fd T → Outcome (ℕ × Manager fd T)
    unfolding check_and_set init_threads
    run_main found opened res id n m = do
      (all, m₁) ← check_and_set found n m
      if not all then ok (1, m₁) else (init_threads opened res id m₁ >>= λ m₂. ok (0, m₂))
