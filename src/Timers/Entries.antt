-- ===== src/Timers/Entries.antt =====
-- base/TimerQueue.h, `timersSet`: a std::set of time points with timers, as a sorted list.
use musketeer.Prelude.{
  ℕ, ◌≡◌, Bool, true, false, ◌&&◌, ◌||◌, List, [], ◌∷◌, Option, none, some, ltb, ◌==◌,
  if◌then◌else◌, arith,
}

-- `TimerEntry`
pub record Entry : Type 0 where
  pub point : ℕ
  pub timer : ℕ

abbrev pub entry_ltb : Entry → Entry → Bool
entry_ltb a b = ltb a.point b.point || ((a.point == b.point) && ltb a.timer b.timer)

abbrev pub entry_eqb : Entry → Entry → Bool
entry_eqb a b = (a.point == b.point) && (a.timer == b.timer)

unfoldable pub member : Entry → List Entry → Bool
member e [] = false
member e (x ∷ xs) = entry_eqb e x || member e xs

-- `emplace`, which changes nothing if the entry is there.
unfoldable pub insert : Entry → List Entry → List Entry
insert e [] = e ∷ []
insert e (x ∷ xs) =
    if entry_eqb e x then x ∷ xs else (if entry_ltb e x then e ∷ x ∷ xs else x ∷ insert e xs)

-- `erase` of one entry.
unfoldable pub remove : Entry → List Entry → List Entry
remove e [] = []
remove e (x ∷ xs) = if entry_eqb e x then xs else x ∷ remove e xs

-- The entry after `e`: `++it`.
unfoldable pub next_after : Entry → List Entry → Option Entry
next_after e [] = none
next_after e (x ∷ xs) = if entry_ltb e x then some x else next_after e xs

-- The first entry later than `tp`: `upper_bound(TimerEntry(tp, UINTPTR_MAX))`.
unfoldable pub up_to : ℕ → List Entry → Option Entry
up_to tp [] = none
up_to tp (x ∷ xs) = if ltb tp x.point then some x else up_to tp xs

-- `erase(begin(), iter)`, with `none` for `end()`.
unfoldable pub drop_below : Option Entry → List Entry → List Entry
drop_below none xs = []
drop_below (some e) [] = []
drop_below (some e) (x ∷ xs) = if entry_ltb x e then drop_below (some e) xs else x ∷ xs

-- Strictly ascending, above `e`.
abbrev pub Above : Entry → List Entry → Type 0
Above e [] = Unit
Above e (x ∷ xs) = (entry_ltb e x ≡ true) × Above x xs

abbrev pub IsSorted : List Entry → Type 0
IsSorted [] = Unit
IsSorted (x ∷ xs) = Above x xs

Above-insert :
    (a e : Entry) (xs : List Entry) → entry_ltb a e ≡ true → Above a xs → Above a (insert e xs)
unfolding insert
Above-insert a e [] h k = (h, tt)
Above-insert a e (x ∷ xs) h k = ground (arith, Above-insert x e xs)

pub insert-IsSorted : (e : Entry) (xs : List Entry) → IsSorted xs → IsSorted (insert e xs)
unfolding insert
insert-IsSorted e [] h = tt
insert-IsSorted e (x ∷ xs) h = ground (arith, Above-insert x e xs)
