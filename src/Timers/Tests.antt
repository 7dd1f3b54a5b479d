-- ===== src/Timers/Tests.antt =====
-- Concrete timer queues, over clocks that are written out.
use musketeer.Prelude.{
  ℕ, ◌+◌, ◌*◌, ◌<◌, ◌≡◌, refl, true, false, [], ◌∷◌, none, some, arith, Outcome, ok, fault,
  empty_call, assertion, out_of_bounds, Returns, leb, ltb, ◌>>=◌, if◌then◌else◌,
}
use musketeer.Timers.{
  Timer, TimerQueue, setting_of, ns_per_ms, init, new_timer, return_timer, add_timer, reset,
  update_by, update, add, cancel, handle_read, tick,
}
use musketeer.Timers.Entries.{Entry, insert, remove, member}
use musketeer.Timers.Arming.{
  Added, add_timer-Added, add_timer_armed, add_timer_first, add_timer_disarms,
}
use musketeer.Timers.Cancelling.{cancel-add, handle_read-cancel}
use musketeer.Timers.Stale.{return_timer_called}
use musketeer.Timers.Repeats.{handle_read_spins, Ticks}

-- The clock stands still at 100 ms, in nanoseconds.
abbrev still : ℕ → ℕ
still k = 100 * ns_per_ms

-- The clock moves a nanosecond at each look.
abbrev moving : ℕ → ℕ
moving k = 100 * ns_per_ms + k

-- Two timers at 50 and 70 ms that are called once, and others at 200 ms.
abbrev pool_of : ℕ → Timer
pool_of i = record {
  index = i;
  repeated = false;
  set = true;
  point = if leb i 1 then (50 + 20 * i) * ns_per_ms else 200 * ns_per_ms;
  duration = 10;
  callback = some (i + 7);
}

abbrev entry_of : ℕ → Entry
entry_of i = record { point = (pool_of i).point; timer = i }

abbrev two_due : TimerQueue
two_due = record {
  armed = true;
  reading = true;
  timers_set = entry_of 0 ∷ entry_of 1 ∷ entry_of 2 ∷ [];
  pool = pool_of;
  pool_size = 4;
  indexes = [];
  settings = [];
  reads = 0;
  fired = [];
}

abbrev run_nothing : ℕ → TimerQueue → Outcome TimerQueue
run_nothing c q = ok q

add_timer-Added_example : Returns (Added still 3 two_due) (add_timer still 3 two_due)
unfolding member
add_timer-Added_example = add_timer-Added still 3 two_due (refl, (refl, tt)) refl

abbrev three_due : TimerQueue
three_due = record (tick still (tick still two_due)) {
  timers_set = entry_of 0 ∷ entry_of 1 ∷ entry_of 2 ∷ entry_of 3 ∷ [];
}

third_added : add_timer still 3 two_due ≡ ok three_due
unfolding add_timer insert member
third_added = refl

add_timer_armed_example : (three_due.settings ≡ []) × (three_due.armed ≡ true)
add_timer_armed_example =
    add_timer_armed still 3 two_due three_due (refl, (refl, tt)) refl third_added

abbrev unarmed : TimerQueue
unarmed = record two_due { armed = false; timers_set = [] }

add_timer_first_example :
    Returns
      (λ q'.
        let s = setting_of false 100 in
        (q'.settings ≡ s ∷ [])
        × (q'.armed ≡ true)
        × (s.tv_nsec < 1000000000)
        × (s.tv_sec * 1000000000 + s.tv_nsec ≡ 100 * ns_per_ms))
      (add_timer still 3 unarmed)
unfolding member
add_timer_first_example =
    add_timer_first still 3 unarmed refl (omega arith) (omega arith) (omega arith) refl

-- The clock half a millisecond before 200 ms.
abbrev late : ℕ → ℕ
late k = 199500000

add_timer_disarms_example :
    Returns
      (λ q'. (q'.settings ≡ setting_of false 0 ∷ []) × (q'.armed ≡ true))
      (add_timer late 3 unarmed)
unfolding member
add_timer_disarms_example =
    add_timer_disarms late 3 unarmed refl (omega arith) (omega arith) (omega arith) refl

return_timer_called_example :
    handle_read still run_nothing 1 (some 1) (return_timer 0 two_due) ≡ some (fault empty_call)
return_timer_called_example =
    return_timer_called still run_nothing 0 0 (entry_of 0) (entry_of 1 ∷ entry_of 2 ∷ []) two_due
      refl refl (omega arith)

abbrev repeated_alone : TimerQueue
repeated_alone = record two_due {
  pool = λ i. record (pool_of i) { repeated = true };
  timers_set = entry_of 0 ∷ [];
}

moving-Ticks : Ticks moving (10 * ns_per_ms)
moving-Ticks = record { moves = λ k. omega arith; slow = λ k. omega arith }

handle_read_spins_example : handle_read moving run_nothing 1000 (some 1) repeated_alone ≡ none
handle_read_spins_example =
    handle_read_spins moving run_nothing 10 (entry_of 0) 7 1000 repeated_alone (λ c r. refl)
      moving-Ticks refl
      (record { last = refl; again = refl; called = refl; period = refl; positive = omega arith })
      (omega arith)

-- A new queue of two timers hands out the one with the greater index, which is set up, put in and
-- taken out again; a returned timer comes first.
takes : Returns (λ r. (r.0 ≡ 1) × (r.1.indexes ≡ 0 ∷ [])) (new_timer (init 2))
unfolding init new_timer
takes = (refl, refl)

grows : Returns (λ r. (r.0 ≡ 0) × (r.1.pool_size ≡ 1)) (new_timer (init 0))
unfolding init new_timer
grows = (refl, refl)

abbrev prepared : TimerQueue
prepared = update_by still 1 30 (reset 1 (some 5) false (init 2))

added_then_cancelled :
    Returns
      (λ q.
        (q.timers_set ≡ record { point = 130 * ns_per_ms; timer = 1 } ∷ [])
        × ((cancel 1 q).timers_set ≡ []))
      (add still 1 prepared)
unfolding init reset update_by add add_timer cancel insert member remove
added_then_cancelled = (refl, refl)

no_period : update still 0 (init 2) ≡ fault assertion
unfolding init update
no_period = refl

-- The same two due, and timer 3, which is not set, for 200 ms.
abbrev idle_third : TimerQueue
idle_third = record two_due { pool = λ i. record (pool_of i) { set = ltb i 3 } }

cancel-add_example :
    Returns
      (λ q'. (q'.timers_set ≡ idle_third.timers_set) × ((q'.pool 3).set ≡ false))
      (add moving 3 idle_third >>= λ q'. ok (cancel 3 q'))
unfolding member
cancel-add_example = cancel-add moving 3 idle_third refl refl

handle_read-cancel_example :
    handle_read still (λ c q. ok (cancel 0 q)) 4 (some 1) two_due ≡ some (fault out_of_bounds)
unfolding member
handle_read-cancel_example =
    handle_read-cancel still (λ c q. ok (cancel 0 q)) 3 0 7 (entry_of 0)
      (entry_of 1 ∷ entry_of 2 ∷ []) two_due refl refl refl (omega arith) refl refl (λ q'. refl)
