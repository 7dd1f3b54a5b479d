-- ===== src/Timers/Repeats.antt =====
-- base/TimerQueue.cpp, `handleRead`: a repeated timer is put back into the set while the loop walks
-- it, before the end that the loop runs to.
use musketeer.Prelude.{
  ℕ, zero, suc, ◌+◌, ◌*◌, ◌≤◌, ◌<◌, ◌≡◌, refl, List, [], ◌∷◌, Option, none, some, arith, Outcome,
  ok, true, false, ap, Returns, Returns-value, ◌∙◌,
}
use musketeer.Timers.{TimerQueue, handle_read, fire_all, fire, tick, ns_per_ms, first_entry}
use musketeer.Timers.Entries.{Entry, up_to, member, insert, next_after, entry_ltb}
use musketeer.Timers.Expiry.{fire_all_ok}

-- `e` is the last entry of the set, and all others lie before it.
abbrev pub IsLast : Entry → List Entry → Type 0
IsLast e [] = ⊥
IsLast e (x ∷ []) = x ≡ e
IsLast e (x ∷ y ∷ ys) = (entry_ltb x e ≡ true) × IsLast e (y ∷ ys)

-- The functions on the set pass an entry that lies before.
insert_past :
    (x e : Entry) (xs : List Entry) → entry_ltb x e ≡ true → insert e (x ∷ xs) ≡ x ∷ insert e xs
unfolding insert
insert_past x e xs h = ground arith

next_after_past :
    (x e : Entry) (xs : List Entry) → entry_ltb x e ≡ true → next_after e (x ∷ xs) ≡ next_after e xs
unfolding next_after
next_after_past x e xs h = ground arith

member_past :
    (x e : Entry) (xs : List Entry) → entry_ltb x e ≡ true → member e (x ∷ xs) ≡ member e xs
unfolding member
member_past x e xs h = ground arith

entry_ltb_trans :
    (a b c : Entry) → entry_ltb a b ≡ true → entry_ltb b c ≡ true → entry_ltb a c ≡ true
entry_ltb_trans a b c h k = ground arith

IsLast-cons :
    (x e : Entry) (xs : List Entry) → entry_ltb x e ≡ true → IsLast e xs → IsLast e (x ∷ xs)
IsLast-cons x e [] h l = absurd l
IsLast-cons x e (y ∷ ys) h l = (h, l)

insert_behind :
    (e e' x : Entry)
    → entry_ltb e e' ≡ true
    → x ≡ e
    → IsLast e' (insert e' (x ∷ []))
      × (next_after e (insert e' (x ∷ [])) ≡ some e')
      × (member e' (x ∷ []) ≡ false)
      × (member e (insert e' (x ∷ [])) ≡ true)
unfolding insert next_after member
insert_behind e e' x h l = ground arith

-- Putting a later entry behind it.
pub IsLast-insert :
    (e e' : Entry) (xs : List Entry)
    → entry_ltb e e' ≡ true
    → IsLast e xs
    → IsLast e' (insert e' xs)
      × (next_after e (insert e' xs) ≡ some e')
      × (member e' xs ≡ false)
      × (member e (insert e' xs) ≡ true)
IsLast-insert e e' [] h l = absurd l
IsLast-insert e e' (x ∷ []) h l = insert_behind e e' x h l
IsLast-insert e e' (x ∷ y ∷ ys) h l =
    let (last, next, fresh, there) = IsLast-insert e e' (y ∷ ys) h l.1 in
    let before = entry_ltb_trans x e e' l.0 h in
    rw (insert_past x e' (y ∷ ys) before) (
      IsLast-cons x e' (insert e' (y ∷ ys)) before last,
      next_after_past x e (insert e' (y ∷ ys)) l.0 ∙ next,
      member_past x e' (y ∷ ys) before ∙ fresh,
      member_past x e (insert e' (y ∷ ys)) l.0 ∙ there,
    )

IsLast-member : (e : Entry) (xs : List Entry) → IsLast e xs → member e xs ≡ true
unfolding member
IsLast-member e [] l = absurd l
IsLast-member e (x ∷ []) l = ground arith
IsLast-member e (x ∷ y ∷ ys) l = ground (arith, IsLast-member e (y ∷ ys) l.1)

-- A clock that moves on at each look, and by less than a period in two looks.
pub record Ticks (time : ℕ → ℕ) (period : ℕ) : Type 0 where
  pub moves : (k : ℕ) → time k < time (k + 1)
  pub slow : (k : ℕ) → time (k + 1) < time k + period

-- A queue whose last entry is that of a repeated timer with a period and a callback.
pub record Repeating (q : TimerQueue) (e : Entry) (c ms : ℕ) : Type 0 where
  pub last : IsLast e q.timers_set
  pub again : (q.pool e.timer).repeated ≡ true
  pub called : (q.pool e.timer).callback ≡ some c
  pub period : (q.pool e.timer).duration ≡ ms
  pub positive : 0 < ms

no_later : (tp : ℕ) (e : Entry) → e.point ≤ tp → up_to tp (e ∷ []) ≡ none
unfolding up_to
no_later tp e h = ground arith

fire_all_zero :
    (time : ℕ → ℕ) (run : ℕ → TimerQueue → Outcome TimerQueue) (it stop : Option Entry)
    (q : TimerQueue)
    → fire_all time run 0 it stop q ≡ none
unfolding fire_all
fire_all_zero time run it stop q = refl

module _ (time : ℕ → ℕ) (run : ℕ → TimerQueue → Outcome TimerQueue)
    (leaves : (c : ℕ) (q : TimerQueue) → run c q ≡ ok q) (ms : ℕ)
    (ticks : Ticks time (ms * ns_per_ms)) where
  -- The entry that the body of the loop puts in.
  abbrev renewed : Entry → TimerQueue → Entry
  renewed e q = record { point = time q.reads + ms * ns_per_ms; timer = e.timer }

  -- After the body of the loop.
  abbrev Fired : Entry → TimerQueue → ℕ → TimerQueue → Type 0
  Fired e q c q' =
      Repeating q' (renewed e q) c ms
      × (next_after e q'.timers_set ≡ some (renewed e q))
      × (time q.reads < time q'.reads)

  fire_again :
      (e : Entry) (c : ℕ) (q : TimerQueue)
      → Repeating q e c ms
      → e.point < time q.reads + ms * ns_per_ms
      → Returns (Fired e q c) (fire time run e q)
  unfolding fire
  fire_again e c q r h =
      let later : entry_ltb e (renewed e q) ≡ true = ground arith in
      let (last, next, fresh, there) = IsLast-insert e (renewed e q) q.timers_set later r.last in
      let q₁ = record q { fired = c ∷ q.fired } in
      ground (
        arith,
        last,
        next,
        fresh,
        leaves c q₁,
        IsLast-member e q.timers_set r.last,
        ticks.slow q.reads,
        ticks.moves q.reads,
        ticks.moves (q.reads + 1),
        ticks.moves (q.reads + 1 + 1),
        ticks.moves (q.reads + 1 + 1 + 1),
      )

  fire_all_again :
      (f : ℕ) (e : Entry) (c : ℕ) (q : TimerQueue)
      → Repeating q e c ms
      → e.point < time q.reads + ms * ns_per_ms
      → fire_all time run f (some e) none q ≡ none
  fire_all_again zero e c q r h = fire_all_zero time run (some e) none q
  fire_all_again (suc f) e c q r h =
      let (q', eq, (r', next, later)) =
        Returns-value (Fired e q c) (fire time run e q) (fire_again e c q r h) in
      fire_all_ok time run f e none q q' refl refl eq
      ∙ rw next (fire_all_again f (renewed e q) c q' r' (omega arith))

-- With one repeated timer in the set whose time has come, a callback that leaves the queue alone,
-- and a clock that moves on by less than the period at each look, `handleRead` never returns:
-- whatever the fuel, it runs out.
pub handle_read_spins :
    (time : ℕ → ℕ) (run : ℕ → TimerQueue → Outcome TimerQueue) (ms : ℕ) (e : Entry) (c fuel : ℕ)
    (q : TimerQueue)
    → ((c : ℕ) (r : TimerQueue) → run c r ≡ ok r)
    → Ticks time (ms * ns_per_ms)
    → q.timers_set ≡ e ∷ []
    → Repeating q e c ms
    → e.point ≤ time q.reads
    → handle_read time run fuel (some 1) q ≡ none
unfolding handle_read
handle_read_spins time run ms e c fuel q leaves ticks s r h =
    let stop : up_to (time q.reads) q.timers_set ≡ none = rw s (no_later (time q.reads) e h) in
    let loops =
      fire_all_again time run leaves ms ticks fuel e c (tick time q)
        (record {
          last = r.last;
          again = r.again;
          called = r.called;
          period = r.period;
          positive = r.positive;
        })
        (omega (arith, ticks.moves q.reads)) in
    rw (stop, ap first_entry s, loops)
