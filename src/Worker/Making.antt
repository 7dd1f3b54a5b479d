-- ===== src/Worker/Making.antt =====
-- net/NetWorker.h, the constructor, and net/NetWorker.cpp, `CheckAndSet` and `StartThread`: a worker with all
-- its members, which share one cycle and one queue of timers.
use musketeer.Prelude.{
  ℕ, ◌+◌, ◌/◌, Bool, true, List, [], ◌∷◌, Option, none, some, Outcome, ok, fault, dangling, ◌>>=◌,
}
use musketeer.Prelude.Int.{pos}
use musketeer.Errors.{SysResult}
use musketeer.Channel.{Cycle, Watched}
use musketeer.CycleThread.{CycleThread, epoll, start}
use musketeer.CycleThread
use musketeer.TaskQueue.Starting.{Wakeup, cycle_after, init as init_eventfd}
use musketeer.Timers.{TimerQueue, init, new_timer}
use musketeer.Timers.Starting.{init_channel}
use musketeer.Pool.{empty_pool}
use musketeer.Connector.{Connector}
use musketeer.Listener.{Listener, bind_local_addr, listen}
use musketeer.Listener

-- What the kernel says to a worker, and the id that its thread gets.
pub record Kernel : Type 0 where
  pub epoll_create : SysResult
  pub socket : SysResult
  pub reuse_addr : SysResult
  pub reuse_port : SysResult
  pub bind : SysResult
  pub eventfd : SysResult
  pub timerfd_create : SysResult
  pub listen : SysResult
  pub thread_id : ℕ

-- `NetWorker`. The tasks in its queue are in Worker. `addresses` counts the objects made.
pub record NetWorker : Type 0 where
  pub index : ℕ
  pub worker_thread : CycleThread
  pub task_queue : Wakeup
  pub timer_queue : TimerQueue
  pub timer_channel : Option Watched
  pub listener : Listener
  pub connector : Connector
  pub addresses : ℕ

-- `CInputConnectionLimit`, `COutputConnectionLimit`
abbrev pub c_input_connection_limit : ℕ
c_input_connection_limit = 60000

abbrev pub c_output_connection_limit : ℕ
c_output_connection_limit = 30000

-- `Connector(int, NetWorker*)`
pub new_connector : ℕ → (ℕ → Bool) → Cycle → TimerQueue → ℕ → Connector
new_connector limit active cy q address = record {
  limit = limit;
  pool = empty_pool active;
  ongoing = [];
  cycle = cy;
  queue = q;
  addresses = address;
  made = [];
  calls = [];
  closed = [];
}

-- Which of the connections to come are active, and the address of the first object, are parameters.
module _ (active : ℕ → Bool) (address : ℕ) where
  -- `NetWorker(TcpConnectionCallback, int)`, with a callback that is set.
  unfoldable pub construct : Kernel → ℕ → Outcome NetWorker
  unfolding new_connector
  construct k i = do
    t ← CycleThread.construct epoll k.epoll_create
    l ←
        Listener.construct k.socket true c_input_connection_limit active t.event_cycle (init 0)
          address
    ok (record {
      index = i;
      worker_thread = record t { event_cycle = l.cycle };
      task_queue = record { event_fd = none; channel = none };
      timer_queue = init 0;
      timer_channel = none;
      listener = l;
      connector = new_connector c_output_connection_limit active l.cycle (init 0) l.addresses;
      addresses = l.addresses;
    })

-- `CheckAndSet`
unfoldable pub check_and_set : Kernel → NetWorker → Outcome Bool
check_and_set k w = bind_local_addr k.reuse_addr k.reuse_port k.bind w.listener

-- `~EventCycle`: the map is destroyed with the channels that it alone still holds, none of which is closed; the first
-- one's destructor erases itself from the map, of which there is no more.
unfoldable pub destroy_cycle : List (ℕ × ℕ) → Outcome (Unit {0})
destroy_cycle [] = ok tt
destroy_cycle (c ∷ cs) = fault dangling

-- `~NetWorker` of a worker whose thread was never started: the listener goes, then the thread with its cycle.
unfoldable pub destroy : NetWorker → Outcome (Unit {0})
unfolding destroy_cycle
destroy w = do
  closed ← Listener.destroy w.listener
  destroy_cycle w.worker_thread.event_cycle.all_channels

-- The cycle and the queue of timers, as all members see them.
abbrev pub share : Cycle → NetWorker → NetWorker
share cy w = record w {
  worker_thread = record (w.worker_thread) { event_cycle = cy };
  listener = record (w.listener) { cycle = cy };
  connector = record (w.connector) { cycle = cy };
}

abbrev pub share_queue : TimerQueue → NetWorker → NetWorker
share_queue q w = record w {
  timer_queue = q;
  listener = record (w.listener) { queue = q };
  connector = record (w.connector) { queue = q };
}

-- `taskQueue.Init()`
unfoldable pub init_tasks : Kernel → NetWorker → Outcome NetWorker
init_tasks k w = do
  s ← init_eventfd k.eventfd w.worker_thread.event_cycle w.addresses w.task_queue
  ok (
      share (cycle_after s.channel w.worker_thread.event_cycle)
        (record w { task_queue = s; addresses = w.addresses + 1 }))

-- `timerQueue.Init()`
unfoldable pub init_timers : Kernel → NetWorker → Outcome NetWorker
init_timers k w = do
  (q, v) ←
      init_channel k.timerfd_create w.worker_thread.event_cycle w.addresses
        (c_input_connection_limit / 100)
  ok (
      share v.cycle
        (share_queue q (record w { timer_channel = some v; addresses = w.addresses + 1 })))

-- `listener.Listen()`
unfoldable pub listens : Kernel → NetWorker → Outcome NetWorker
listens k w = do l ← listen k.listen w.listener; ok (share l.cycle (record w { listener = l }))

-- `StartThread`
unfoldable pub start_thread : Kernel → NetWorker → Outcome NetWorker
unfolding init_tasks init_timers listens
start_thread k w = do
  w₁ ← init_tasks k w
  w₂ ← init_timers k w₁
  start (λ f v. record v { worker_thread = f v.worker_thread }) (pos w.index) (some (listens k))
      k.thread_id w₂

-- `GetTimer`
pub get_timer : NetWorker → Outcome (ℕ × NetWorker)
get_timer w = do (i, q) ← new_timer w.timer_queue; ok (i, share_queue q w)

-- `GetEventCycle`, of the worker and of its thread.
abbrev pub get_event_cycle : NetWorker → Cycle
get_event_cycle w = w.worker_thread.event_cycle
