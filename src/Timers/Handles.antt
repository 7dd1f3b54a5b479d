-- ===== src/Timers/Handles.antt =====
-- base/TimerQueue.cpp, `NewTimer` and `returnTimer`: what the owner of a timer is given.
use musketeer.Prelude.{
  ℕ, ◌+◌, ◌*◌, ◌<◌, ◌≡◌, refl, some, true, false, List, [], ◌∷◌, none, arith, Returns, ==_self,
}
use musketeer.Timers.{
  TimerQueue, ns_per_ms, new_timer, take_index, return_timer, add_timer, add, update_by, reset,
}
use musketeer.Timers.Entries.{Entry, insert, member}

-- A timer that is not set and not repeated; nothing else of the queue that a caller sees changes.
pub record Fresh (q : TimerQueue) (r : ℕ × TimerQueue) : Type 0 where
  pub unset : ((r.1).pool (r.0)).set ≡ false
  pub once : ((r.1).pool (r.0)).repeated ≡ false
  pub set_kept : (r.1).timers_set ≡ q.timers_set
  pub reads_kept : (r.1).reads ≡ q.reads

take_index-Fresh :
    (q : TimerQueue) (i : ℕ) (is : List ℕ) → Returns (Fresh q) (take_index q (i ∷ is))
unfolding take_index
take_index-Fresh q i is = record {
  unset = rw (==_self i);
  once = rw (==_self i);
  set_kept = refl;
  reads_kept = refl;
}

from_stack : (q : TimerQueue) (is : List ℕ) → q.indexes ≡ is → Returns (Fresh q) (new_timer q)
unfolding new_timer
from_stack q [] e = ground (arith, e, ==_self q.pool_size)
from_stack q (i ∷ is) e = ground (arith, e, take_index-Fresh q i is, ==_self i)

-- `NewTimer` always returns.
pub new_timer-Fresh : (q : TimerQueue) → Returns (Fresh q) (new_timer q)
new_timer-Fresh q = from_stack q q.indexes refl

-- The entry of a timer that is set to run out `msec` milliseconds from now.
abbrev pub due_in : (ℕ → ℕ) → ℕ → ℕ → TimerQueue → Entry
due_in time i msec q = record { point = time q.reads + msec * ns_per_ms; timer = i }

-- A timer that was started with a period.
pub record Repeats (time : ℕ → ℕ) (i msec : ℕ) (q q' : TimerQueue) : Type 0 where
  pub entered : q'.timers_set ≡ insert (due_in time i msec q) q.timers_set
  pub again : (q'.pool i).repeated ≡ true
  pub indexes_kept : q'.indexes ≡ q.indexes

-- `Reset`, `Update` and `Add` of a free timer, one after the other, where less than the period has gone by when
-- the clock is read again.
pub start-Repeats :
    (time : ℕ → ℕ) (i msec cb : ℕ) (q : TimerQueue)
    → (q.pool i).set ≡ false
    → member (due_in time i msec q) q.timers_set ≡ false
    → time (q.reads + 1) < time q.reads + msec * ns_per_ms
    → Returns
        (Repeats time i msec q)
        (add time i (update_by time i msec (reset i (some cb) true q)))
unfolding add add_timer update_by reset
start-Repeats time i msec cb q u m h = ground (arith, ==_self i)

-- A timer that goes back loses its callback, and leaves the set as it is.
pub return_timer_lem :
    (i : ℕ) (q : TimerQueue)
    → (((return_timer i q).pool i).callback ≡ none)
      × ((return_timer i q).timers_set ≡ q.timers_set)
      × ((return_timer i q).indexes ≡ i ∷ q.indexes)
unfolding return_timer
return_timer_lem i q = (rw (==_self i), refl, refl)
