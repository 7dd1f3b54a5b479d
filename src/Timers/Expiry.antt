-- ===== src/Timers/Expiry.antt =====
-- base/TimerQueue.cpp, `handleRead`: which timers it runs.
use musketeer.Prelude.{
  ℕ, suc, ◌≤◌, ◌≡◌, refl, List, [], ◌∷◌, Option, none, some, arith, Outcome, ok, fault, Fault, Bool,
  true, false, leb, if◌then◌else◌,
}
use mathlib.Core.Option.{get_or}
use musketeer.Timers.{Timer, TimerQueue, fire_all, fire, first_entry, same_position, still_there}
use musketeer.Timers.Entries.{Entry, up_to, member, next_after, entry_ltb}

-- `ys` is what an iterator at its head has still to walk of `set`.
abbrev pub Follows : List Entry → List Entry → Type 0
Follows set [] = Unit
Follows set (x ∷ ys) = (member x set ≡ true) × (next_after x set ≡ first_entry ys) × Follows set ys

-- `a` lies before all of `ys`.
abbrev Before : Entry → List Entry → Type 0
Before a [] = Unit
Before a (x ∷ ys) = (entry_ltb a x ≡ true) × Before a ys

there_cons :
    (x : Entry) (o : Option Entry) (xs : List Entry)
    → still_there o xs ≡ true
    → still_there o (x ∷ xs) ≡ true
unfolding member
there_cons x none xs h = refl
there_cons x (some e) xs h = ground arith

-- `upper_bound` finds an entry of the set, or the end.
pub up_to_there : (tp : ℕ) (xs : List Entry) → still_there (up_to tp xs) xs ≡ true
unfolding up_to member
up_to_there tp [] = refl
up_to_there tp (x ∷ xs) = ground (arith, there_cons x (up_to tp xs) xs, up_to_there tp xs)

-- An entry that has run out is not what `upper_bound` finds.
pub up_to_later :
    (tp : ℕ) (e : Entry) (xs : List Entry)
    → e.point ≤ tp
    → same_position (some e) (up_to tp xs) ≡ false
unfolding up_to
up_to_later tp e [] h = refl
up_to_later tp e (x ∷ xs) h = ground (arith, up_to_later tp e xs h)

module _ (time : ℕ → ℕ) (run : ℕ → TimerQueue → Outcome TimerQueue) where
  -- One round of the loop.
  pub fire_all_ok :
      (f : ℕ) (e : Entry) (stop : Option Entry) (q q' : TimerQueue)
      → still_there stop q.timers_set ≡ true
      → same_position (some e) stop ≡ false
      → fire time run e q ≡ ok q'
      → fire_all time run (suc f) (some e) stop q
        ≡ fire_all time run f (next_after e q'.timers_set) stop q'
  unfolding fire_all
  fire_all_ok f e stop q q' h k r = rw (h, k, r)

  pub fire_all_fault :
      (f : ℕ) (e : Entry) (stop : Option Entry) (q : TimerQueue) (x : Fault)
      → still_there stop q.timers_set ≡ true
      → same_position (some e) stop ≡ false
      → fire time run e q ≡ fault x
      → fire_all time run (suc f) (some e) stop q ≡ some (fault x)
  unfolding fire_all
  fire_all_fault f e stop q x h k r = rw (h, k, r)

  pub fire_all_stop :
      (f : ℕ) (it stop : Option Entry) (q : TimerQueue)
      → still_there stop q.timers_set ≡ true
      → same_position it stop ≡ true
      → fire_all time run (suc f) it stop q ≡ some (ok q)
  unfolding fire_all
  fire_all_stop f it stop q h k = rw (h, k)

-- A timer that is called once, with a callback.
abbrev OneShotIf : Bool → Timer → Type 0
OneShotIf true t = (c : ℕ) × (t.repeated ≡ false) × (t.callback ≡ some c)
OneShotIf false t = Unit

-- Of a walk over `ys`: the timers that have run out are called once each.
abbrev pub AllOneShot : ℕ → (ℕ → Timer) → List Entry → Type 0
AllOneShot tp pool [] = Unit
AllOneShot tp pool (e ∷ es) = OneShotIf (leb e.point tp) (pool e.timer) × AllOneShot tp pool es

-- The callbacks of the entries that have run out, in order.
abbrev pub due : ℕ → (ℕ → Timer) → List Entry → List ℕ
due tp pool [] = []
due tp pool (e ∷ es) =
    if leb e.point tp then get_or (pool e.timer).callback 0 ∷ due tp pool es else []

-- The entries that have not.
abbrev pub later : ℕ → List Entry → List Entry
later tp [] = []
later tp (e ∷ es) = if leb e.point tp then later tp es else e ∷ es
