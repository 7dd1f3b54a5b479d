-- ===== src/Timers/Arming.antt =====
-- base/TimerQueue.cpp, `AddTimer` and `resetTimerfd`: when the timerfd is set, and to what.
use musketeer.Prelude.{
  ℕ, ◌+◌, ◌-◌, ◌*◌, ◌/◌, ◌%◌, ltb, ◌≤◌, ◌<◌, ◌≡◌, refl, true, false, List, [], ◌∷◌, arith, ok,
  Returns, leb, if◌then◌else◌,
}
use musketeer.Timers.{TimerQueue, setting_of, int_setting, begins_after, add_timer, ns_per_ms}
use musketeer.Timers.Entries.{Entry, insert, member, IsSorted, insert-IsSorted}

abbrev pub entry : TimerQueue → ℕ → Entry
entry q i = record { point = (q.pool i).point; timer = i }

-- The first entry after an insertion is no later than what was inserted.
first_le :
    (tp : ℕ) (e : Entry) (es : List Entry)
    → e.point ≡ tp
    → IsSorted es
    → begins_after tp (insert e es) ≡ false
unfolding insert
first_le tp e [] h s = ground arith
first_le tp e (x ∷ xs) h s = ground arith

-- What `AddTimer` does to a queue.
pub record Added (time : ℕ → ℕ) (i : ℕ) (q q' : TimerQueue) : Type 0 where
  pub ordered : IsSorted q'.timers_set
  pub inserted : q'.timers_set ≡ (
      if leb (q.pool i).point (time q.reads) then q.timers_set else insert (entry q i) q.timers_set)
  pub pool_kept : q'.pool ≡ q.pool
  pub fired_kept : q'.fired ≡ q.fired

-- `AddTimer` of a timer whose entry is not in the sorted set returns; the set stays sorted and has
-- gained exactly that entry, unless the timer's time has passed, and the timers and the calls made
-- are as before.
pub add_timer-Added :
    (time : ℕ → ℕ) (i : ℕ) (q : TimerQueue)
    → IsSorted q.timers_set
    → member (entry q i) q.timers_set ≡ false
    → Returns (Added time i q) (add_timer time i q)
unfolding add_timer
add_timer-Added time i q s m = ground (arith, insert-IsSorted (entry q i) q.timers_set s)

-- Where the timerfd was set before and the set is sorted, an `AddTimer` that returns does not set
-- it again, also not for a timer that is earlier than all others.
pub add_timer_armed :
    (time : ℕ → ℕ) (i : ℕ) (q q' : TimerQueue)
    → IsSorted q.timers_set
    → q.armed ≡ true
    → add_timer time i q ≡ ok q'
    → (q'.settings ≡ q.settings) × (q'.armed ≡ true)
unfolding add_timer
add_timer_armed time i q q' s a e =
    ground (arith, first_le (q.pool i).point (entry q i) q.timers_set refl s)

-- The milliseconds that `AddTimer` finds left, at its third look at the clock.
abbrev pub left_ms : (ℕ → ℕ) → ℕ → TimerQueue → ℕ
left_ms time i q = ((q.pool i).point - time (q.reads + 1 + 1)) / ns_per_ms

-- A count of milliseconds that an `int` holds is set as it is.
fits : (m : ℕ) → m < 2147483648 → int_setting false m ≡ setting_of false m
fits m h =
    let same : m % 4294967296 ≡ m = omega arith in
    let small : ltb m 2147483648 ≡ true = ground arith in rw (same, small) refl

-- The first timer sets the timerfd, to the whole milliseconds that are left, where the clock has not
-- passed its time point meanwhile and an `int` holds them; the nanoseconds stay below a second.
pub add_timer_first :
    (time : ℕ → ℕ) (i : ℕ) (q : TimerQueue)
    → q.armed ≡ false
    → time q.reads < (q.pool i).point
    → time (q.reads + 1 + 1) ≤ (q.pool i).point
    → left_ms time i q < 2147483648
    → member (entry q i) q.timers_set ≡ false
    → Returns
        (λ q'.
          let s = setting_of false (left_ms time i q) in
          (q'.settings ≡ s ∷ q.settings)
          × (q'.armed ≡ true)
          × (s.tv_nsec < 1000000000)
          × (s.tv_sec * 1000000000 + s.tv_nsec ≡ left_ms time i q * ns_per_ms))
        (add_timer time i q)
unfolding add_timer
add_timer_first time i q a h k b m =
    let on_time : (time (q.reads + 1 + 1) - (q.pool i).point) / ns_per_ms ≡ 0 = omega arith in
    let small : int_setting false (left_ms time i q) ≡ setting_of false (left_ms time i q) =
      fits (left_ms time i q) b in
    ground (arith, on_time, small)

-- A first timer that has less than a millisecond left at the third look disarms the timerfd: the setting is 0.
pub add_timer_disarms :
    (time : ℕ → ℕ) (i : ℕ) (q : TimerQueue)
    → q.armed ≡ false
    → time q.reads < (q.pool i).point
    → (q.pool i).point < time (q.reads + 1 + 1) + ns_per_ms
    → time (q.reads + 1 + 1) < (q.pool i).point + ns_per_ms
    → member (entry q i) q.timers_set ≡ false
    → Returns
        (λ q'. (q'.settings ≡ setting_of false 0 ∷ q.settings) × (q'.armed ≡ true))
        (add_timer time i q)
unfolding add_timer
add_timer_disarms time i q a h k l m =
    let on_time : (time (q.reads + 1 + 1) - (q.pool i).point) / ns_per_ms ≡ 0 = omega arith in
    let none_left : left_ms time i q ≡ 0 = omega arith in ground (arith, on_time, none_left)
