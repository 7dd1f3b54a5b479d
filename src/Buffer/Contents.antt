-- ===== src/Buffer/Contents.antt =====
-- base/Buffer.cpp, `MarkProcessed(size_t)`, `MarkAppended` and `Retrive`, as operations on the
-- contents of the window.
use musketeer.Prelude.{
  take_all, drop_all, ℕ, ◌+◌, ◌-◌, ◌≤◌, ◌<◌, ◌≡◌, ◌++◌, length, take, drop, arith, fault, assertion,
  Returns, ltb, Bool-cases, inl, inr,
}
use musketeer.Buffer.{Buffer, mark_processed, mark_appended, retrive, contents}
use musketeer.Buffer.Storage.{window, length-window, take-window, drop-window, window-append}
use musketeer.Buffer.Bounds.{IsValid}

pub length-contents : (b : Buffer) → length (contents b) ≡ b.avail_end - b.avail_start
length-contents b = length-window b.vec.mem b.avail_start (b.avail_end - b.avail_start)

-- Dropping `n` bytes of a valid buffer.
abbrev pub Drops : Buffer → ℕ → Buffer → Type 0
Drops b n b' =
    (contents b' ≡ drop n (contents b)) × (b'.vec ≡ b.vec) × (b'.capacity ≡ b.capacity) × IsValid b'

mark_processed_some :
    (b : Buffer) (n : ℕ)
    → IsValid b
    → n ≤ b.avail_end - b.avail_start
    → Returns (Drops b n) (mark_processed b n)
unfolding mark_processed
mark_processed_some b n v h =
    ground (
      arith,
      drop-window b.vec.mem b.avail_start (b.avail_start + n) n (b.avail_end - b.avail_start),
    )

-- `MarkProcessed(size_t)` on a valid buffer that has so many bytes drops them from the front of the
-- contents, leaves the storage alone, and keeps the buffer valid.
pub mark_processed_lem :
    (b : Buffer) (n : ℕ)
    → IsValid b
    → n ≤ length (contents b)
    → Returns (Drops b n) (mark_processed b n)
mark_processed_lem b n v h = mark_processed_some b n v (omega (arith, length-contents b))

pub mark_processed_too_many :
    (b : Buffer) (n : ℕ)
    → IsValid b
    → length (contents b) < n
    → mark_processed b n ≡ fault assertion
unfolding mark_processed
mark_processed_too_many b n v h = ground (arith, length-contents b)

-- `MarkAppended` takes the bytes behind the window into it, as far as the capacity goes.
pub mark_appended_lem :
    (b : Buffer) (n : ℕ)
    → IsValid b
    → n ≤ b.capacity - b.avail_end
    → Returns
        (λ b'.
          (contents b' ≡ contents b ++ window b.vec.mem b.avail_end n)
          × (b'.vec ≡ b.vec)
          × (b'.avail_end ≡ b.avail_end + n)
          × IsValid b')
        (mark_appended b n)
unfolding mark_appended
mark_appended_lem b n v h =
    let split =
      window-append b.vec.mem b.avail_start b.avail_end (b.avail_end - b.avail_start) n
        (omega (arith, v.start_le)) in
    let whole : b.avail_end + n - b.avail_start ≡ b.avail_end - b.avail_start + n =
      omega (arith, v.start_le) in
    ground (arith, split, whole)

-- `Retrive` on a valid buffer returns the first `n` bytes of the contents, all of them if there are
-- fewer, and leaves the others in a valid buffer.
pub retrive_lem :
    (b : Buffer) (n : ℕ)
    → IsValid b
    → Returns
        (λ r. (r.0 ≡ take n (contents b)) × (contents (r.1) ≡ drop n (contents b)) × IsValid (r.1))
        (retrive b n)
unfolding retrive mark_processed
retrive_lem b n v = elim (Bool-cases (ltb (b.avail_end - b.avail_start) n)) [
  | inl e ↦ ground (arith, length-contents b, take_all n (contents b), drop_all n (contents b))
  | inr e ↦ ground (
    arith,
    take-window b.vec.mem b.avail_start n (b.avail_end - b.avail_start),
    drop-window b.vec.mem b.avail_start (b.avail_start + n) n (b.avail_end - b.avail_start),
  )
]
