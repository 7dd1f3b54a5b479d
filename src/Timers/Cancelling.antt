-- ===== src/Timers/Cancelling.antt =====
-- base/Timer.cpp, `Add` and `Cancel`: what they do to the timer's entry, also while `handleRead` walks over it.
use musketeer.Prelude.{
  ℕ, suc, ◌<◌, ◌≤◌, ◌≡◌, refl, ap, ◌∙◌, true, false, List, [], ◌∷◌, some, arith, Outcome, ok, fault,
  out_of_bounds, ◌>>=◌, Returns, Returns-value, ==_self, Bool-cases, inl, inr, leb,
}
use musketeer.Timers.{
  TimerQueue, add, add_timer, reset_timerfd, cancel, cancel_timer, handle_read, fire,
  process_timedout, call_back, tick, first_entry,
}
use musketeer.Timers.Expiry.{up_to_there, up_to_later, fire_all_fault}
use musketeer.Timers.Entries.{Entry, insert, remove, member, up_to}

remove-absent : (e : Entry) (xs : List Entry) → member e xs ≡ false → remove e xs ≡ xs
unfolding member remove
remove-absent e [] h = refl
remove-absent e (x ∷ xs) h = ground (arith, remove-absent e xs)

remove-insert : (e : Entry) (xs : List Entry) → member e xs ≡ false → remove e (insert e xs) ≡ xs
unfolding member remove insert
remove-insert e [] h = ground arith
remove-insert e (x ∷ xs) h = ground (arith, remove-insert e xs)

-- The entry of a timer as it is.
abbrev pub entry_of : ℕ → TimerQueue → Entry
entry_of i q = record { point = (q.pool i).point; timer = i }

-- Set, with its entry where its time is still to come.
pub record SetIn (time : ℕ → ℕ) (i : ℕ) (q q' : TimerQueue) : Type 0 where
  pub flag : (q'.pool i).set ≡ true
  pub point_kept : (q'.pool i).point ≡ (q.pool i).point
  pub later : q.reads ≤ q'.reads
  pub waiting : time q.reads < (q.pool i).point → q'.timers_set ≡ insert (entry_of i q) q.timers_set
  pub passed : leb (q.pool i).point (time q.reads) ≡ true → q'.timers_set ≡ q.timers_set

add-SetIn :
    (time : ℕ → ℕ) (i : ℕ) (q : TimerQueue)
    → (q.pool i).set ≡ false
    → member (entry_of i q) q.timers_set ≡ false
    → Returns (SetIn time i q) (add time i q)
unfolding add add_timer reset_timerfd
add-SetIn time i q u m = ground (arith, ==_self i)

-- `Add` of a timer that is not set and whose entry is not in the set, and then `Cancel`, return;
-- the set is as before, and the timer is not set.
pub cancel-add :
    (time : ℕ → ℕ) (i : ℕ) (q : TimerQueue)
    → (q.pool i).set ≡ false
    → member (entry_of i q) q.timers_set ≡ false
    → Returns
        (λ q'. (q'.timers_set ≡ q.timers_set) × ((q'.pool i).set ≡ false))
        (add time i q >>= λ q'. ok (cancel i q'))
unfolding cancel cancel_timer
cancel-add time i q u m =
    let (q', e, w) = Returns-value _ (add time i q) (add-SetIn time i q u m) in
    rw e (elim (Bool-cases (leb (q.pool i).point (time q.reads))) [
      | inl over ↦ ground (
        arith,
        w.flag,
        w.point_kept,
        w.passed over,
        remove-absent (entry_of i q) q.timers_set m,
        ==_self i,
      )
      | inr to_come ↦ ground (
        arith,
        w.flag,
        w.point_kept,
        w.waiting (ground (arith, to_come)),
        remove-insert (entry_of i q) q.timers_set m,
        ==_self i,
      )
    ])

erased :
    (i c : ℕ) (e : Entry) (es : List Entry) (q : TimerQueue)
    → q.timers_set ≡ e ∷ es
    → e ≡ entry_of i q
    → member e es ≡ false
    → (q.pool i).set ≡ true
    → member e (cancel i (record q { fired = c ∷ q.fired })).timers_set ≡ false
unfolding cancel cancel_timer remove
erased i c e es q s place once on = ground (arith, s, place, once, on)

fire_cancelled :
    (time : ℕ → ℕ) (run : ℕ → TimerQueue → Outcome TimerQueue) (c : ℕ) (e : Entry)
    (q q' : TimerQueue)
    → (q.pool e.timer).callback ≡ some c
    → run c (record q { fired = c ∷ q.fired }) ≡ ok q'
    → member e q'.timers_set ≡ false
    → fire time run e q ≡ fault out_of_bounds
unfolding fire process_timedout call_back
fire_cancelled time run c e q q' cb called gone = rw (cb, called) (rw gone refl)

-- A timer whose entry is the first of the set and has run out, and whose callback cancels it:
-- `handleRead` then goes on from an entry that is gone.
pub handle_read-cancel :
    (time : ℕ → ℕ) (run : ℕ → TimerQueue → Outcome TimerQueue) (fuel i c : ℕ) (e : Entry)
    (es : List Entry) (q : TimerQueue)
    → q.timers_set ≡ e ∷ es
    → e ≡ entry_of i q
    → member e es ≡ false
    → e.point ≤ time q.reads
    → (q.pool i).set ≡ true
    → (q.pool i).callback ≡ some c
    → ((q' : TimerQueue) → run c q' ≡ ok (cancel i q'))
    → handle_read time run (suc fuel) (some 1) q ≡ some (fault out_of_bounds)
unfolding handle_read
handle_read-cancel time run fuel i c e es q s place once due on cb cancels =
    let round =
      fire_all_fault time run fuel e (up_to (time q.reads) q.timers_set) (tick time q) out_of_bounds
        (up_to_there (time q.reads) q.timers_set) (up_to_later (time q.reads) e q.timers_set due)
        (fire_cancelled time run c e (tick time q)
          (cancel i (record (tick time q) { fired = c ∷ q.fired }))
          (ap (λ x. (q.pool x.timer).callback) place ∙ cb)
          (cancels (record (tick time q) { fired = c ∷ q.fired }))
          (erased i c e es (tick time q) s place once on)) in
    rw (ap first_entry s, round)
