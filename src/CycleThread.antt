-- ===== src/CycleThread.antt =====
-- base/CycleThread.h and base/CycleThread.cpp, with the constructors of event/EventCycle.h and
-- event/poller/EpollPoller.cpp and the factory of event/Poller.cpp: a thread that runs an event cycle.
use musketeer.Prelude.{ℕ, Option, none, some, Outcome, ok, fault, aborted, [], false, ◌>>=◌}
use musketeer.Prelude.Int.{ℤ, negsuc}
use musketeer.Errors.{SysResult, failed, done}
use musketeer.Channel.{Cycle, stop_cycle}

-- `enum PollerType`
pub data PollerType : Type 0 where
  epoll poll : PollerType

-- `EventCycle(PollerType)`, with what `::epoll_create1` returns: `Poller::New` makes an EpollPoller of either
-- type, which aborts where it has no descriptor.
pub new_cycle : PollerType → SysResult → Outcome Cycle
new_cycle type (failed e) = fault aborted
new_cycle type (done n) = ok (record { all_channels = []; ctl = []; stop = false })

-- `CycleThread`, whose cycle others share. The name is for the process list only.
pub record CycleThread : Type 0 where
  pub event_cycle : Cycle
  pub thread_index : ℤ
  pub thread_id : Option ℕ

-- `CycleThread(std::string, PollerType)`
unfoldable pub construct : PollerType → SysResult → Outcome CycleThread
unfolding new_cycle
construct type res = do
  c ← new_cycle type res
  ok (record { event_cycle = c; thread_index = negsuc 0; thread_id = none })

-- `Stop`
abbrev pub stop : CycleThread → CycleThread
stop t = record t { event_cycle = stop_cycle t.event_cycle }

-- `task()`, where there is one, on what it shares with the thread.
pub run_task : {S : Type 0} → Option (S → Outcome S) → S → Outcome S
run_task none s = ok s
run_task (some task) s = task s

-- The rest of `Start`, with the id that the library gives the new thread.
abbrev pub started : ℤ → ℕ → CycleThread → CycleThread
started index id t = record t { thread_index = index; thread_id = some id }

-- `Start`, on a state that holds the thread: the task runs first, in the caller's thread.
module _ {S : Type 0} (put : (CycleThread → CycleThread) → S → S) where
  unfoldable pub start : ℤ → Option (S → Outcome S) → ℕ → S → Outcome S
  unfolding run_task
  start index task id s = do s' ← run_task task s; ok (put (started index id) s')
