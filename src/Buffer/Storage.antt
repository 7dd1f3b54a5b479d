-- ===== src/Buffer/Storage.antt =====
-- The storage that a buffer's vector owns: a byte at each offset.
use native.Mathlib.Nat.{suc-add}
use musketeer.Prelude.{
  ℕ, zero, suc, ◌+◌, ◌-◌, ◌≤◌, ◌<◌, ◌≡◌, refl, ap, ap₂, List, [], ◌∷◌, ◌++◌, length, take, drop,
  ◌==◌, if◌then◌else◌, arith,
}

abbrev pub Memory : Type 0
Memory = ℕ → ℕ

-- The `n` bytes from offset `i` on.
abbrev pub window : Memory → ℕ → ℕ → List ℕ
window m i zero = []
window m i (suc n) = m i ∷ window m (suc i) n

abbrev pub store : Memory → ℕ → ℕ → Memory
store m i x j = if i == j then x else m j

-- `std::copy` of the bytes to offset `i`.
abbrev pub copy_to : Memory → ℕ → List ℕ → Memory
copy_to m i [] = m
copy_to m i (x ∷ xs) = copy_to (store m i x) (suc i) xs

pub length-window : (m : Memory) (i n : ℕ) → length (window m i n) ≡ n
length-window m i zero = refl
length-window m i (suc n) = ap suc (length-window m (suc i) n)

-- A copy leaves what lies before it.
pub copy_to_before : (m : Memory) (i j : ℕ) (xs : List ℕ) → j < i → copy_to m i xs j ≡ m j
copy_to_before m i j [] h = refl
copy_to_before m i j (x ∷ xs) h =
    ground (arith, copy_to_before (store m i x) (suc i) j xs (omega arith))

pub window-copy_to_before :
    (m : Memory) (i j n : ℕ) (xs : List ℕ) → j + n ≤ i → window (copy_to m i xs) j n ≡ window m j n
window-copy_to_before m i j zero xs h = refl
window-copy_to_before m i j (suc n) xs h =
    ap₂ ◌∷◌ (copy_to_before m i j xs (omega arith))
      (window-copy_to_before m i (suc j) n xs (omega arith))

-- What was copied is read back.
pub window-copy_to : (m : Memory) (i : ℕ) (xs : List ℕ) → window (copy_to m i xs) i (length xs) ≡ xs
window-copy_to m i [] = refl
window-copy_to m i (x ∷ xs) =
    ap₂ ◌∷◌ (ground (arith, copy_to_before (store m i x) (suc i) i xs (omega arith)))
      (window-copy_to (store m i x) (suc i) xs)

pub window-append :
    (m : Memory) (i j n k : ℕ) → j ≡ i + n → window m i (n + k) ≡ window m i n ++ window m j k
window-append m i j zero k e = ground arith
window-append m i j (suc n) k e =
    rw suc-add (ap (λ xs. m i ∷ xs) (window-append m (suc i) j n k (omega arith)))

pub take-window : (m : Memory) (i k n : ℕ) → k ≤ n → take k (window m i n) ≡ window m i k
take-window m i zero n h = refl
take-window m i (suc k) zero h = absurd (omega arith)
take-window m i (suc k) (suc n) h = ap (λ xs. m i ∷ xs) (take-window m (suc i) k n (omega arith))

pub drop-window :
    (m : Memory) (i j k n : ℕ) → k ≤ n → j ≡ i + k → drop k (window m i n) ≡ window m j (n - k)
drop-window m i j zero n h e = ground arith
drop-window m i j (suc k) zero h e = absurd (omega arith)
drop-window m i j (suc k) (suc n) h e =
    ground (arith, drop-window m (suc i) j k n (omega arith) (omega arith))

-- Two memories that agree on a range show the same window of it.
pub window_congr :
    (m m' : Memory) (i n : ℕ)
    → ((j : ℕ) → i ≤ j → j < i + n → m j ≡ m' j)
    → window m i n ≡ window m' i n
window_congr m m' i zero h = refl
window_congr m m' i (suc n) h =
    ap₂ ◌∷◌ (h i (omega arith) (omega arith))
      (window_congr m m' (suc i) n (λ j p q. h j (omega arith) (omega arith)))
