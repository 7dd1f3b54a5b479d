-- ===== src/Buffer/Growth.antt =====
-- base/Buffer.h, `Expand`: what happens to bytes that stand past the vector's elements, which `Append` may
-- put there, since the capacity of a vector can be more than its size.
use musketeer.Prelude.{
  ℕ, zero, suc, ◌+◌, ◌-◌, ◌≤◌, ◌<◌, ◌≡◌, refl, ap, ◌∙◌, some, get_elem?, arith, Returns, ltb, true,
}
use musketeer.Buffer.{Buffer, expand, contents}
use musketeer.Buffer.Storage.{Memory, window}
use musketeer.Buffer.Alloc.{Allocator, size_limit}
use musketeer.Buffer.Append.{expanded}
use musketeer.Buffer.Bounds.{IsValid}

get_elem?-window : (m : Memory) (i n k : ℕ) → k < n → get_elem? (window m i n) k ≡ some (m (i + k))
get_elem?-window m i zero k h = absurd (omega arith)
get_elem?-window m i (suc n) zero h = ground arith
get_elem?-window m i (suc n) (suc k) h =
    let next : suc i + k ≡ i + suc k = omega arith in
    get_elem?-window m (suc i) n k (omega arith) ∙ rw next refl

-- Where `Expand` allocates, within the limit of sizes, every byte of the contents of a valid buffer
-- that stands past the vector's size is 0 afterwards.
pub expand_forgets :
    (a : Allocator) (b : Buffer) (s j : ℕ)
    → IsValid b
    → b.capacity < s
    → s < size_limit
    → b.vec.size ≤ j
    → b.avail_start ≤ j
    → j < b.avail_end
    → Returns (λ b'. get_elem? (contents b') (j - b.avail_start) ≡ some 0) (expand a b s)
unfolding expand
expand_forgets a b s j v more small past from before =
    let m = (expanded a b s).vec.mem in
    let k = j - b.avail_start in
    let grows : ltb b.capacity s ≡ true = ground (arith, more) in
    let allowed : ltb s size_limit ≡ true = ground (arith, small) in
    let place : b.avail_start + k ≡ j = omega (arith, from) in
    let zeroed : m j ≡ 0 = ground (arith, past, before, more, v.end_le, v.cap_kept) in
    rw (grows, allowed)
      (get_elem?-window m b.avail_start (b.avail_end - b.avail_start) k
          (omega (arith, from, before))
        ∙ ap some (ap m place ∙ zeroed))
