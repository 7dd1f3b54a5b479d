-- ===== src/Timers/Stale.antt =====
-- base/TimerQueue.cpp, `returnTimer`: it empties the callback, and leaves the entry in the set.
use musketeer.Prelude.{ℕ, suc, ◌≤◌, ◌≡◌, ap, List, ◌∷◌, some, arith, Outcome, fault, empty_call}
use musketeer.Timers.{TimerQueue, return_timer, handle_read, fire, tick, first_entry}
use musketeer.Timers.Expiry.{up_to_there, up_to_later, fire_all_fault}
use musketeer.Timers.Entries.{Entry, up_to}

fire_returned :
    (time : ℕ → ℕ) (run : ℕ → TimerQueue → Outcome TimerQueue) (e : Entry) (i : ℕ) (q : TimerQueue)
    → e.timer ≡ i
    → fire time run e (tick time (return_timer i q)) ≡ fault empty_call
unfolding fire return_timer
fire_returned time run e i q t = ground arith

-- A timer that goes back to the pool while its entry is the first of the set, and has run out, is
-- called all the same: `handleRead` then calls an empty function.
pub return_timer_called :
    (time : ℕ → ℕ) (run : ℕ → TimerQueue → Outcome TimerQueue) (fuel i : ℕ) (e : Entry)
    (es : List Entry) (q : TimerQueue)
    → q.timers_set ≡ e ∷ es
    → e.timer ≡ i
    → e.point ≤ time q.reads
    → handle_read time run (suc fuel) (some 1) (return_timer i q) ≡ some (fault empty_call)
unfolding handle_read return_timer
return_timer_called time run fuel i e es q s t p =
    let stop = up_to (time q.reads) q.timers_set in
    let round =
      fire_all_fault time run fuel e stop (tick time (return_timer i q)) empty_call
        (up_to_there (time q.reads) q.timers_set) (up_to_later (time q.reads) e q.timers_set p)
        (fire_returned time run e i q t) in
    rw (ap first_entry s, round)
