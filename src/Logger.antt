-- ===== src/Logger.antt =====
-- base/Logger.h, base/Logger.cpp and `logFormat` of base/Utilities.cpp: lines that any thread logs and
-- that the logger's own thread writes.
pub mod Order
pub mod Starting
mod Tests
use musketeer.Prelude.{
  ℕ, zero, suc, Bool, true, false, not, List, [], ◌∷◌, ◌++◌, ltb, Option, none, some, Outcome, ok,
  aborted, ◌>>=◌, ◌>>◌, assert, guard, ◌==◌, if◌then◌else◌,
}
use musketeer.Prelude.Int.{pos}
use musketeer.Errors.{SysResult}
use musketeer.CycleThread.{CycleThread, start}
use musketeer.TaskQueue.{Task, World, send_task, begin_read, pop_task}
use musketeer.TaskQueue.EventFd.{Eventfd}
use musketeer.TaskQueue.Starting.{Wakeup, cycle_after, init as init_eventfd}

-- `enum LogLevel`, in its order.
pub data LogLevel : Type 0 where
  debug notice warn alert fatal : LogLevel

unfoldable pub rank : LogLevel → ℕ
rank debug = 0
rank notice = 1
rank warn = 2
rank alert = 3
rank fatal = 4

-- `Logger`. `file_open` tells whether `logFile` is set, `wakeup` is the eventfd of its queue with the channel,
-- and `lines` are those written to the file.
pub record Logger (fd : Eventfd) (T : Type 0) : Type 0 where
  pub level : LogLevel
  pub file_open : Bool
  pub inited : Bool
  pub log_thread : CycleThread
  pub wakeup : Wakeup
  pub task_queue : World fd T
  pub lines : List T

abbrev pub is_some : Option ℕ → Bool
is_some none = false
is_some (some n) = true

-- `std::this_thread::get_id() == logThread.ThreadId()`
abbrev pub is_thread : ℕ → Option ℕ → Bool
is_thread here none = false
is_thread here (some id) = here == id

module _ {fd : Eventfd} {T : Type 0} where
  -- `CheckAndSet`, with whether the name is empty and whether `::access` finds the file.
  unfoldable pub check_and_set : LogLevel → Bool → Bool → Logger fd T → Outcome (Bool × Logger fd T)
  check_and_set level empty found l = do
    assert (not l.file_open)
    assert (not empty)
    ok (found, record l { level = level })

  -- `taskQueue.Init()`, with what `::eventfd` returns and the address of the channel.
  unfoldable pub init_tasks : SysResult → ℕ → Logger fd T → Outcome (Logger fd T)
  init_tasks res address l = do
    s ← init_eventfd res l.log_thread.event_cycle address l.wakeup
    ok (record l {
      wakeup = s;
      log_thread = record (l.log_thread) {
        event_cycle = cycle_after s.channel l.log_thread.event_cycle;
      };
    })

  -- `StartThread`, with whether the file is opened, and the id of the new thread.
  unfoldable pub start_thread : Bool → SysResult → ℕ → ℕ → ℕ → Logger fd T → Outcome (Logger fd T)
  unfolding init_tasks
  start_thread opened res address id index l = do
    guard opened aborted
    l₁ ← init_tasks res address (record l { file_open = true })
    l₂ ← start (λ f m. record m { log_thread = f m.log_thread }) (pos index) none id l₁
    ok (record l₂ { inited = true })

  -- `log`
  write_line : T → Logger fd T → Logger fd T
  write_line str l = record l { lines = l.lines ++ str ∷ [] }

  -- `Log`, in the thread `here`. Where there is no eventfd the assertion of `SendTask` fails.
  pub log : ℕ → T → Logger fd T → Outcome (Logger fd T)
  unfolding write_line
  log here str l =
      if not l.inited
      then ok l
      else (if is_thread here l.log_thread.thread_id then ok (write_line str l) else (do
        assert (is_some l.wakeup.event_fd)
        q ← send_task l.task_queue (some str)
        ok (record l { task_queue = q })))

  -- `logFormat`, with the line that it makes.
  pub log_format : ℕ → LogLevel → T → Logger fd T → Outcome (Logger fd T)
  unfolding log
  log_format here level str l = if ltb (rank level) (rank l.level) then ok l else log here str l

  -- Calls of it, one after the other, from one thread.
  pub log_all : ℕ → List (LogLevel × T) → Logger fd T → Outcome (Logger fd T)
  log_all here [] l = ok l
  log_all here ((level, str) ∷ ms) l = do l' ← log_format here level str l; log_all here ms l'

  -- A task of the queue, as the thread of the logger runs it.
  write_task : Task T → Logger fd T → Logger fd T
  unfolding write_line
  write_task none l = l
  write_task (some str) l = write_line str l

  -- The lines that `handleRead` itself logs are parameters: what it says of the result of `eventfd_read`, at the
  -- level of debugging and where it fails at that of alerts, and of a queue that is empty too soon.
  module _ (own : ℕ) (read_line : Option ℕ → T) (failed_line : T) (empty_line : ℕ → T) where
    -- One round of its loop, with what the queue holds.
    serve_task : ℕ → List (Task T) → Logger fd T → Outcome (Logger fd T)
    unfolding write_task
    serve_task n [] l =
        log_format own alert (empty_line n) (record l { task_queue = pop_task l.task_queue })
    serve_task n (t ∷ ts) l = ok (write_task t (record l { task_queue = pop_task l.task_queue }))

    pub serve_tasks : ℕ → Logger fd T → Outcome (Logger fd T)
    unfolding serve_task
    serve_tasks zero l = ok l
    serve_tasks (suc n) l = do l' ← serve_task n l.task_queue.queue l; serve_tasks n l'

    -- What follows the reading of the eventfd.
    serve_read : Option (ℕ × fd.State) → Logger fd T → Outcome (Logger fd T)
    unfolding serve_tasks
    serve_read none l = do
      l' ← log_format own debug (read_line none) l
      log_format own alert failed_line l'
    serve_read (some (num, s)) l = do
      l' ← log_format own debug (read_line (some num)) l
      q ← begin_read l'.task_queue
      serve_tasks q.left (record l' { task_queue = q })

    -- `handleRead` of the logger's queue, in the logger's thread, where what it logs is written at once.
    pub handle_tasks : Logger fd T → Outcome (Logger fd T)
    unfolding serve_read
    handle_tasks l = serve_read (fd.read l.task_queue.event) l
