-- ===== src/Utilities/Chain.antt =====
-- base/Utilities.cpp: a chain of buffers seen as the bytes that it holds.
use musketeer.Prelude.{
  ℕ, ◌+◌, ◌≤◌, ◌<◌, ◌≡◌, refl, List, [], ◌∷◌, ◌++◌, length, length-append, ltb, if◌then◌else◌, All,
  arith, ok, Returns,
}
use musketeer.Buffer.{Buffer, contents, available_size}
use musketeer.Buffer.Alloc.{size_limit}
use musketeer.Buffer.Bounds.{IsValid, available_size_lem}
use musketeer.Buffer.Contents.{length-contents}
use musketeer.Utilities.{count_available, gather, uint_mod}

abbrev pub chain_contents : List Buffer → List ℕ
chain_contents [] = []
chain_contents (b ∷ bs) = contents b ++ chain_contents bs

-- How many bytes.
abbrev pub total : List Buffer → ℕ
total bs = length (chain_contents bs)

-- How many buffers hold any.
abbrev pub filled : List Buffer → ℕ
filled [] = 0
filled (b ∷ bs) = (if ltb 0 (length (contents b)) then 1 else 0) + filled bs

pub filled-le-total : (bs : List Buffer) → filled bs ≤ total bs
filled-le-total [] = omega arith
filled-le-total (b ∷ bs) =
    ground (arith, filled-le-total bs, length-append (contents b) (chain_contents bs))

pub available_length : (b : Buffer) → IsValid b → available_size b ≡ ok (length (contents b))
available_length b v = ground (arith, available_size_lem b v, length-contents b)

pub count_available_lem :
    (bs : List Buffer) (num size : ℕ)
    → All IsValid bs
    → num + filled bs < uint_mod
    → size + total bs < size_limit
    → count_available bs num size ≡ ok (num + filled bs, size + total bs)
unfolding count_available
count_available_lem [] num size v h k = ground arith
count_available_lem (b ∷ bs) num size v h k =
    let s = length (contents b) in
    let ih =
      count_available_lem bs (if ltb 0 s then (num + 1) else num)
        (if ltb 0 s then size + s else size) (v.1) in
    rw (available_length b (v.0))
      (ground (arith, ih, length-append (contents b) (chain_contents bs)))

pub gather_lem :
    (bs : List Buffer) → All IsValid bs → Returns (λ iov. length iov ≡ filled bs) (gather bs)
unfolding gather
gather_lem [] v = refl
gather_lem (b ∷ bs) v = rw (available_length b (v.0)) (ground (arith, gather_lem bs (v.1)))
