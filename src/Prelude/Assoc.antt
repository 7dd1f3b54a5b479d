-- ===== src/Prelude/Assoc.antt =====
-- An `std::unordered_map` as an association list.
use musketeer.Prelude.{
  ℕ, ◌+◌, ◌≡◌, refl, List, [], ◌∷◌, Option, none, some, ◌==◌, if◌then◌else◌, arith,
}

module _ {V : Type 0} where
  -- `find`
  unfoldable pub lookup : ℕ → List (ℕ × V) → Option V
  lookup k [] = none
  lookup k ((j, v) ∷ m) = if j == k then some v else lookup k m

  -- `erase`
  unfoldable pub erase : ℕ → List (ℕ × V) → List (ℕ × V)
  erase k [] = []
  erase k ((j, v) ∷ m) = if j == k then erase k m else (j, v) ∷ erase k m

  -- `m[k] = v`
  unfoldable pub insert : ℕ → V → List (ℕ × V) → List (ℕ × V)
  insert k v m = (k, v) ∷ erase k m

  pub lookup-erase :
      (k j : ℕ) (m : List (ℕ × V)) → lookup j (erase k m) ≡ (if k == j then none else lookup j m)
  unfolding lookup erase
  lookup-erase k j [] = ground arith
  lookup-erase k j ((i, v) ∷ m) = ground (arith, lookup-erase k j m)

  pub lookup-insert :
      (k j : ℕ) (v : V) (m : List (ℕ × V))
      → lookup j (insert k v m) ≡ (if k == j then some v else lookup j m)
  unfolding lookup insert
  lookup-insert k j v m = ground (arith, lookup-erase k j m)

  -- No key stands twice.
  abbrev pub Distinct : List (ℕ × V) → Type 0
  Distinct [] = Unit
  Distinct ((k, v) ∷ m) = (lookup k m ≡ none) × Distinct m

  pub erase_missing : (k : ℕ) (m : List (ℕ × V)) → lookup k m ≡ none → erase k m ≡ m
  unfolding lookup erase
  erase_missing k [] h = refl
  erase_missing k ((j, v) ∷ m) h = ground (arith, erase_missing k m)

  pub Distinct-erase : (k : ℕ) (m : List (ℕ × V)) → Distinct m → Distinct (erase k m)
  unfolding erase
  Distinct-erase k [] d = tt
  Distinct-erase k ((j, v) ∷ m) d = ground (arith, Distinct-erase k m d.1, lookup-erase k j m)

  pub Distinct-insert : (k : ℕ) (v : V) (m : List (ℕ × V)) → Distinct m → Distinct (insert k v m)
  unfolding insert
  Distinct-insert k v m d = ground (arith, Distinct-erase k m d, lookup-erase k k m)

-- A weight of each value, summed over the map.
abbrev pub weigh : {V : Type 0} → (V → ℕ) → List (ℕ × V) → ℕ
weigh f [] = 0
weigh f ((k, v) ∷ m) = f v + weigh f m

pub weigh-erase :
    {V : Type 0} (f : V → ℕ) (k : ℕ) (v : V) (m : List (ℕ × V))
    → Distinct m
    → lookup k m ≡ some v
    → weigh f m ≡ f v + weigh f (erase k m)
unfolding lookup erase
weigh-erase f k v [] d h = cc
weigh-erase f k v ((j, w) ∷ m) d h = ground (arith, weigh-erase f k v m d.1, erase_missing k m)

pub weigh-insert_new :
    {V : Type 0} (f : V → ℕ) (k : ℕ) (v : V) (m : List (ℕ × V))
    → lookup k m ≡ none
    → weigh f (insert k v m) ≡ f v + weigh f m
unfolding insert
weigh-insert_new f k v m h = ground (arith, erase_missing k m h)

pub weigh-insert_old :
    {V : Type 0} (f : V → ℕ) (k : ℕ) (v w : V) (m : List (ℕ × V))
    → Distinct m
    → lookup k m ≡ some w
    → weigh f (insert k v m) + f w ≡ f v + weigh f m
unfolding insert
weigh-insert_old f k v w m d h = ground (arith, weigh-erase f k w m d h)

abbrev pub one : {V : Type 0} → V → ℕ
one v = 1
