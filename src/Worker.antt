-- ===== src/Worker.antt =====
-- net/NetWorker.cpp, `ConnectUpstream` and the tasks that it sends: how any thread gets a connection from
-- the connector of a worker's thread. The worker's listener is in Listener.
pub mod Upstream
pub mod Making
pub mod Starting
mod Tests
use musketeer.Prelude.{
  ℕ, ◌+◌, List, [], ◌∷◌, length, drop, some, Outcome, ok, ◌>>=◌, ◌==◌, if◌then◌else◌,
}
use musketeer.Errors.{SysResult}
use musketeer.InetAddr.{InetAddr}
use musketeer.Buffer.Alloc.{Allocator}
use musketeer.TaskQueue.{World, send_task, handle_read}
use musketeer.TaskQueue.EventFd.{Eventfd}
use musketeer.Connector.{Connector, connect}

-- The arguments of `ConnectUpstream`, which its task keeps.
pub record Request : Type 0 where
  pub addr : InetAddr
  pub callback : ℕ

-- `NetWorker`, with the id of its thread; `attempts` counts the calls of `Connect`.
pub record NetWorker (fd : Eventfd) : Type 0 where
  pub index : ℕ
  pub thread_id : ℕ
  pub task_queue : World fd Request
  pub connector : Connector
  pub attempts : ℕ

-- What `socket` and `::connect` return in each call of `Connect`, one after the other, and the parameters of
-- the connector.
module _ (answer : ℕ → SysResult × SysResult) (a : Allocator) (on_read on_write : ℕ) (time : ℕ → ℕ)
    (on_timedout : ℕ) where
  module _ {fd : Eventfd} where
    -- `connector.Connect(addr, callback)`
    pub serve : Request → NetWorker fd → Outcome (NetWorker fd)
    serve r w = do
      let (sock, res) = answer w.attempts
      c ← connect a r.addr on_read on_write time on_timedout sock res r.callback w.connector
      ok (record w { connector = c; attempts = w.attempts + 1 })

    -- A list of them.
    pub serve_all : List Request → NetWorker fd → Outcome (NetWorker fd)
    serve_all [] w = ok w
    serve_all (r ∷ rs) w = do w' ← serve r w; serve_all rs w'

    -- `ConnectUpstream`, in the thread `here`.
    pub connect_upstream : ℕ → Request → NetWorker fd → Outcome (NetWorker fd)
    unfolding serve
    connect_upstream here r w =
        if here == w.thread_id
        then serve r w
        else (send_task w.task_queue (some r) >>= λ q. ok (record w { task_queue = q }))

    -- Calls of it one after the other, from one thread.
    pub connect_all_upstream : ℕ → List Request → NetWorker fd → Outcome (NetWorker fd)
    connect_all_upstream here [] w = ok w
    connect_all_upstream here (r ∷ rs) w = do
      w' ← connect_upstream here r w
      connect_all_upstream here rs w'

    -- `handleRead` of the worker's queue, with the calls of the tasks that it takes.
    pub handle_tasks : NetWorker fd → Outcome (NetWorker fd)
    unfolding serve_all
    handle_tasks w = do
      q ← handle_read w.task_queue
      serve_all (drop (length w.task_queue.ran) q.ran) (record w { task_queue = q })
