-- ===== src/Buffer.antt =====
-- base/Buffer.h and base/Buffer.cpp: a byte buffer over a std::vector<char>, with a window
-- [avail_start, avail_end) of valid data. Addresses are offsets from `buffer.data()`; a `RawBuf` is
-- such an offset with a length.
pub mod Storage
pub mod Alloc
pub mod Bounds
pub mod Contents
pub mod Append
pub mod Raw
pub mod Queue
pub mod Growth
mod Tests
use musketeer.Prelude.{
  ℕ, ◌+◌, ◌-◌, ◌*◌, ◌/◌, ◌%◌, ◌^◌, Bool, true, false, ◌&&◌, List, [], ◌∷◌, length, leb, ltb, ◌==◌,
  if◌then◌else◌, Outcome, ok, fault, ◌>>=◌, ◌>>◌, guard, assert, out_of_bounds, divide_by_zero,
  length_error,
}
use Storage.{Memory, window, copy_to}
use Alloc.{Vector, Allocator, resize, shrink_to_fit, allocate, size_limit}

pub record Buffer : Type 0 where
  pub vec : Vector
  pub capacity : ℕ
  pub avail_start : ℕ
  pub avail_end : ℕ

-- `RawBuf`: an offset into the storage, and a length.
pub record RawBuf : Type 0 where
  pub first : ℕ
  pub second : ℕ

-- `size_t` sums, differences and products.
abbrev pub size_mod : ℕ
size_mod = 2 ^ 64

abbrev pub add_size : ℕ → ℕ → ℕ
add_size a b = (a + b) % size_mod

abbrev pub sub_size : ℕ → ℕ → ℕ
sub_size a b = (a + size_mod - b) % size_mod

abbrev pub mul_size : ℕ → ℕ → ℕ
mul_size a b = (a * b) % size_mod

-- `Buffer(size_t)`; `Buffer()` is the same at 0.
unfoldable pub new : Allocator → ℕ → Buffer
new a n = record { vec = allocate a n; capacity = n; avail_start = 0; avail_end = 0 }

pub appendable_pos : Buffer → RawBuf
appendable_pos b = record { first = b.avail_end; second = sub_size b.capacity b.avail_end }

pub available_pos : Buffer → RawBuf
available_pos b = record { first = b.avail_start; second = sub_size b.avail_end b.avail_start }

pub capacity_of : Buffer → Outcome ℕ
capacity_of b = do assert (b.capacity == b.vec.cap); ok b.capacity

unfoldable pub appendable_size : Buffer → Outcome ℕ
appendable_size b = do assert (b.capacity == b.vec.cap); ok (sub_size b.capacity b.avail_end)

unfoldable pub available_size : Buffer → Outcome ℕ
available_size b = do assert (b.capacity == b.vec.cap); ok (sub_size b.avail_end b.avail_start)

-- The end of both `MarkProcessed`: two equal indexes go back to the front.
rewind : Buffer → Buffer
rewind b = if b.avail_start == b.avail_end then record b { avail_start = 0; avail_end = 0 } else b

-- `MarkProcessed(RawBuf)`. An offset is never below `buffer.data()`.
pub mark_processed_raw : Buffer → RawBuf → Outcome Buffer
unfolding available_size rewind
mark_processed_raw b raw = do
  avail ← available_size b
  assert (leb 0 raw.first && leb raw.first avail)
  assert (leb raw.second avail)
  ok (rewind (record b { avail_start = raw.first + raw.second }))

-- `MarkProcessed(size_t)`
pub mark_processed : Buffer → ℕ → Outcome Buffer
unfolding available_size rewind
mark_processed b n = do
  avail ← available_size b
  assert (leb n avail)
  ok (rewind (record b { avail_start = add_size b.avail_start n }))

pub mark_appended : Buffer → ℕ → Outcome Buffer
unfolding appendable_size
mark_appended b n = do
  room ← appendable_size b
  assert (leb n room)
  ok (record b { avail_end = add_size b.avail_end n })

pub expand : Allocator → Buffer → ℕ → Outcome Buffer
expand a b s =
    let v = resize a b.vec s in
    if ltb b.capacity s
    then guard (ltb s size_limit) length_error >> ok (record b { vec = v; capacity = v.cap })
    else ok b

pub shrink : Allocator → Buffer → Buffer
shrink a b = let v = shrink_to_fit a b.vec in record b { vec = v; capacity = v.cap }

-- `(n / as + 1) * as`, with the trap of a division by 0.
pub grown_size : ℕ → ℕ → Outcome ℕ
grown_size n room =
    if room == 0 then fault divide_by_zero else ok (mul_size (add_size (n / room) 1) room)

pub make_room : Allocator → Buffer → ℕ → Outcome Buffer
unfolding appendable_size expand
make_room a b n = do
  room ← appendable_size b
  if ltb room n then grown_size n room >>= expand a b else ok b

-- `std::copy` to `&buffer[availEnd]`: a write past the storage is a fault.
pub copy_in : Buffer → List ℕ → Outcome Buffer
copy_in b xs =
    if leb (b.avail_end + length xs) b.vec.cap
    then ok (record b { vec = record (b.vec) { mem = copy_to b.vec.mem b.avail_end xs } })
    else fault out_of_bounds

-- `Append(const std::string&)` and `Append(RawBuf)`: the bytes come as a list in both.
pub append : Allocator → Buffer → List ℕ → Outcome Buffer
append a b xs = do
  grown ← make_room a b (length xs)
  filled ← copy_in grown xs
  mark_appended filled (length xs)

-- `Retrive`: the bytes that the string is made of, and the buffer.
pub retrive : Buffer → ℕ → Outcome (List ℕ × Buffer)
unfolding available_size
retrive b size = do
  avail ← available_size b
  let n = if ltb avail size then avail else size
  rest ← mark_processed b n
  ok (window b.vec.mem b.avail_start n, rest)

-- The valid data, oldest first.
abbrev pub contents : Buffer → List ℕ
contents b = window b.vec.mem b.avail_start (b.avail_end - b.avail_start)
