-- ===== src/Buffer/Append.antt =====
-- base/Buffer.cpp, `Append`: what fits, what grows, and where the new size is too small.
use musketeer.Prelude.{
  ℕ, ◌+◌, ◌-◌, ◌*◌, ◌/◌, ◌≤◌, ◌<◌, ◌≡◌, ap, ◌∙◌, List, ◌++◌, length, arith, Outcome, ok, fault,
  ◌>>=◌, out_of_bounds, divide_by_zero, Returns, Returns-mono, Bool-cases, ltb, inl, inr, [],
}
use musketeer.Buffer.{Buffer, grown_size, append, make_room, copy_in, mark_appended, contents}
use native.Mathlib.Nat.{div-add-mod, mod-lt}
use musketeer.Buffer.Alloc.{Allocator, IsStandard, resize, size_limit}
use musketeer.Buffer.Storage.{
  copy_to, window-copy_to_before, window-copy_to, window-append, window_congr,
}
use musketeer.Buffer.Bounds.{IsValid}

abbrev pub room : Buffer → ℕ
room b = b.capacity - b.avail_end

-- The size that `Append` asks for, `(n / room + 1) * room`.
abbrev pub wanted : Buffer → ℕ → ℕ
wanted b n = (n / room b + 1) * room b

-- The bytes `xs` were added behind the contents of `b`.
pub record Appends (b : Buffer) (xs : List ℕ) (b' : Buffer) : Type 0 where
  pub added : contents b' ≡ contents b ++ xs
  pub valid : IsValid b'

-- Once there is room, the copy and `MarkAppended` add the bytes.
unfoldable pub write_back : Buffer → List ℕ → Outcome Buffer
write_back b xs = copy_in b xs >>= λ filled. mark_appended filled (length xs)

pub write_back-Appends :
    (b : Buffer) (xs : List ℕ)
    → IsValid b
    → b.avail_end + length xs ≤ b.capacity
    → Returns (λ b'. Appends b xs b' × (b'.capacity ≡ b.capacity)) (write_back b xs)
unfolding write_back copy_in mark_appended
write_back-Appends b xs v h =
    let m = copy_to b.vec.mem b.avail_end xs in
    let split =
      window-append m b.avail_start b.avail_end (b.avail_end - b.avail_start) (length xs)
        (omega (arith, v.start_le)) in
    let whole : b.avail_end + length xs - b.avail_start ≡ b.avail_end - b.avail_start + length xs =
      omega (arith, v.start_le) in
    let old =
      window-copy_to_before b.vec.mem b.avail_end b.avail_start (b.avail_end - b.avail_start) xs
        (omega (arith, v.start_le)) in
    ground (arith, split, whole, old, window-copy_to b.vec.mem b.avail_end xs)

-- Where the bytes fit behind the window of a valid buffer, `Append` adds them to the contents, and
-- the capacity stays.
pub append_fits :
    (a : Allocator) (b : Buffer) (xs : List ℕ)
    → IsValid b
    → length xs ≤ room b
    → Returns (λ b'. Appends b xs b' × (b'.capacity ≡ b.capacity)) (append a b xs)
unfolding append make_room write_back
append_fits a b xs v h = ground (arith, write_back-Appends b xs v (omega (arith, v.end_le)))

-- The buffer after `Expand`.
abbrev pub expanded : Allocator → Buffer → ℕ → Buffer
expanded a b s = let v = resize a b.vec s in record b { vec = v; capacity = v.cap }

pub expanded-IsValid :
    (a : Allocator) (b : Buffer) (s : ℕ)
    → IsStandard a
    → IsValid b
    → b.capacity < s
    → s < size_limit
    → IsValid (expanded a b s) × (s ≤ (expanded a b s).capacity)
expanded-IsValid a b s st v h k =
    ground (arith, st.grown_fits b.vec.size b.vec.cap s, st.grown_small b.vec.size b.vec.cap s)

-- `Expand` keeps the contents, if they lie in the vector's elements.
pub contents-expanded :
    (a : Allocator) (b : Buffer) (s : ℕ)
    → IsValid b
    → b.avail_end ≤ b.vec.size
    → contents (expanded a b s) ≡ contents b
contents-expanded a b s v h =
    window_congr (expanded a b s).vec.mem b.vec.mem b.avail_start (b.avail_end - b.avail_start)
      λ j p q. ground (arith, v.start_le)

wanted_le : (n r : ℕ) → (n / r + 1) * r ≤ n + r
wanted_le n r = grind (arith, div-add-mod n r)

lt_wanted : (n r : ℕ) → 0 < r → n < (n / r + 1) * r
lt_wanted n r h = grind (arith, div-add-mod n r, mod-lt n h)

grown_size_lem : (n r : ℕ) → 0 < r → n + r < size_limit → grown_size n r ≡ ok ((n / r + 1) * r)
unfolding grown_size
grown_size_lem n r h l = ground (arith, wanted_le n r)

make_room-grows :
    (a : Allocator) (b : Buffer) (n : ℕ)
    → IsValid b
    → 0 < room b
    → room b < n
    → b.capacity < wanted b n
    → n + b.capacity < size_limit
    → make_room a b n ≡ ok (expanded a b (wanted b n))
unfolding make_room
make_room-grows a b n v h k g l = ground (arith, grown_size_lem n (room b), wanted_le n (room b))

-- Where the bytes do not fit, and the size that `Append` asks for is above the capacity and has
-- room for all that is in the storage and for the bytes, within the limit of sizes, `Append`
-- returns: the buffer has grown, and the bytes are behind the contents.
pub append_grows :
    (a : Allocator) (b : Buffer) (xs : List ℕ)
    → IsStandard a
    → IsValid b
    → b.avail_end ≤ b.vec.size
    → 0 < room b
    → room b < length xs
    → b.capacity < wanted b (length xs)
    → b.avail_end + length xs ≤ wanted b (length xs)
    → length xs + b.capacity < size_limit
    → Returns (λ b'. Appends b xs b' × (b.capacity < b'.capacity)) (append a b xs)
unfolding append write_back
append_grows a b xs st v inside h k g fit l =
    let s = wanted b (length xs) in
    let (valid, enough) =
      expanded-IsValid a b s st v g (omega (arith, wanted_le (length xs) (room b))) in
    let written = write_back-Appends (expanded a b s) xs valid (omega (arith, enough)) in
    rw (make_room-grows a b (length xs) v h k g l)
      (ground (arith, written, contents-expanded a b s v inside, enough))

contents_of_drained : (b : Buffer) → IsValid b → b.avail_end ≡ 0 → contents b ≡ []
contents_of_drained b v z =
    let none_left : b.avail_end - b.avail_start ≡ 0 = omega arith in rw none_left

-- An empty buffer of some capacity takes any string that the address space has room for.
pub append_empty :
    (a : Allocator) (b : Buffer) (xs : List ℕ)
    → IsStandard a
    → IsValid b
    → b.avail_end ≡ 0
    → 0 < b.capacity
    → length xs + b.capacity < size_limit
    → Returns (λ b'. (contents b' ≡ xs) × IsValid b') (append a b xs)
append_empty a b xs st v z c l =
    let nothing : contents b ≡ [] = contents_of_drained b v z in
    elim (Bool-cases (ltb (room b) (length xs))) [
      | inl more ↦
          Returns-mono _ _ (append a b xs)
            (λ b' h. (h.0.added ∙ ap (λ ys. ys ++ xs) nothing, h.0.valid))
            (append_grows a b xs st v (omega (arith, z)) (omega arith) (ground arith)
              (ground (arith, lt_wanted (length xs) (room b)))
              (ground (arith, lt_wanted (length xs) (room b))) l)
      | inr fits ↦
          Returns-mono _ _ (append a b xs)
            (λ b' h. (h.0.added ∙ ap (λ ys. ys ++ xs) nothing, h.0.valid))
            (append_fits a b xs v (ground arith))
    ]

-- `Append` of anything to a valid buffer that is full divides by zero.
pub append_full :
    (a : Allocator) (b : Buffer) (xs : List ℕ)
    → IsValid b
    → room b ≡ 0
    → 0 < length xs
    → append a b xs ≡ fault divide_by_zero
unfolding append make_room grown_size
append_full a b xs v h k = ground arith

-- Where the bytes do not fit in a valid buffer that is not full, and the size that `Append` asks
-- for is not above the capacity, within the limit of sizes, `Append` writes past the storage.
pub append_overflows :
    (a : Allocator) (b : Buffer) (xs : List ℕ)
    → IsValid b
    → 0 < room b
    → room b < length xs
    → wanted b (length xs) ≤ b.capacity
    → length xs + b.capacity < size_limit
    → append a b xs ≡ fault out_of_bounds
unfolding append make_room copy_in
append_overflows a b xs v h k g l =
    ground (arith, grown_size_lem (length xs) (room b), wanted_le (length xs) (room b))
