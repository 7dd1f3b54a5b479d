-- ===== src/TaskQueue.antt =====
-- base/TaskQueue.h and base/TaskQueue.cpp: a queue of tasks under a mutex, and an eventfd that counts
-- them. A step is what one thread does between two points where another can run.
-- The lines that `handleRead` logs are left out here; in the logger's own thread they are written at once, which
-- Logger models.
pub mod EventFd
pub mod Steps
pub mod Drain
pub mod Counter
pub mod Batch
pub mod Starting
mod Tests
use musketeer.Prelude.{
  ℕ, zero, suc, ◌+◌, ◌-◌, Bool, true, false, List, [], ◌∷◌, ◌++◌, Option, none, some, Outcome, ok,
  ◌>>=◌, ◌>>◌, assert, ltb,
}
use EventFd.{Eventfd}

-- A task is an `std::function<void()>`; `none` is an empty one, which may be sent.
abbrev pub Task : Type 0 → Type 0
Task T = Option T

module _ (fd : Eventfd) (T : Type 0) where
  -- `writing` counts the threads of `SendTask` between `mtx.unlock()` and `eventfd_write`; `left` is
  -- `num` in the loop of `handleRead`. `ran` lists the calls made, `alerts` counts the warnings of
  -- that loop. `sent` and `popped` are the history.
  pub record World : Type 0 where
    pub event : fd.State
    pub queue : List (Task T)
    pub writing : ℕ
    pub left : ℕ
    pub ran : List T
    pub alerts : ℕ
    pub sent : List (Task T)
    pub popped : List (Task T)

-- `if(task) task();`
abbrev pub call : {T : Type 0} → Task T → List T → List T
call none ran = ran
call (some t) ran = ran ++ t ∷ []

module _ {fd : Eventfd} {T : Type 0} where
  -- The locked part of `SendTask`.
  pub push_task : World fd T → Task T → World fd T
  push_task w t = record w {
    queue = w.queue ++ t ∷ [];
    writing = w.writing + 1;
    sent = w.sent ++ t ∷ [];
  }

  wrote : World fd T → Option (fd.State) → Outcome (World fd T)
  wrote w none = do assert false; ok w
  wrote w (some s) = ok (record w { event = s; writing = w.writing - 1 })

  -- Its end, `eventfd_write` and the assertion on what it returns.
  pub notify : World fd T → Outcome (World fd T)
  unfolding wrote
  notify w = wrote w (fd.write w.event 1)

  pub send_task : World fd T → Task T → Outcome (World fd T)
  send_task w t = notify (push_task w t)

  begun : World fd T → Option (ℕ × fd.State) → Outcome (World fd T)
  begun w none = ok w
  begun w (some (num, s)) = do assert (ltb 0 num); ok (record w { event = s; left = num })

  -- `eventfd_read`, and the start of the loop.
  pub begin_read : World fd T → Outcome (World fd T)
  unfolding begun
  begin_read w = begun w (fd.read w.event)

  pop_from : World fd T → List (Task T) → World fd T
  pop_from w [] = record w { left = w.left - 1; alerts = w.alerts + 1 }
  pop_from w (t ∷ ts) = record w {
    queue = ts;
    left = w.left - 1;
    ran = call t w.ran;
    popped = w.popped ++ t ∷ [];
  }

  -- One round of the loop.
  pub pop_task : World fd T → World fd T
  unfolding pop_from
  pop_task w = pop_from w w.queue

  -- `num` rounds of it.
  pub pop_tasks : ℕ → World fd T → World fd T
  pop_tasks zero w = w
  pop_tasks (suc n) w = pop_tasks n (pop_task w)

  pub handle_read : World fd T → Outcome (World fd T)
  handle_read w = do w' ← begin_read w; ok (pop_tasks w'.left w')
