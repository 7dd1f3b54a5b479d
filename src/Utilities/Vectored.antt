-- ===== src/Utilities/Vectored.antt =====
-- base/Utilities.cpp, `WritevFd`: the accounting of a gathered write over a chain of buffers.
use musketeer.Prelude.{
  ℕ, zero, suc, ◌+◌, ◌-◌, ◌≤◌, ◌<◌, ◌≡◌, refl, List, [], ◌∷◌, length, length-append, drop,
  drop-append_left, drop-append_right, drop_all, ltb, if◌then◌else◌, ◌==◌, true, false, All, arith,
  ok, Returns, Returns-value, Bool-cases, inl, inr,
}
use musketeer.Prelude.Int.{ℤ, pos}
use musketeer.Errors.{
  SysResult, failed, done, Errno, errno_ignorable, error, no_error, success, ignorable_error,
  write_error,
}
use musketeer.Buffer.{Buffer, contents}
use musketeer.Buffer.Alloc.{size_limit}
use musketeer.Buffer.Bounds.{IsValid}
use musketeer.Buffer.Contents.{mark_processed_lem}
use musketeer.Utilities.{
  Io, idle, settle, account, gathered, writev_fd, gather, uint_mod, is_negative,
}
use musketeer.Utilities.Chain.{
  chain_contents, total, filled, filled-le-total, available_length, count_available_lem, gather_lem,
}

-- A buffer that the kernel took whole.
abbrev SettledWhole : Buffer → ℕ → ℕ → ℤ × ℕ × Buffer → Type 0
SettledWhole b k num r =
    (r.0 ≡ pos (k - length (contents b)))
    × (r.1 ≡ num - filled (b ∷ []))
    × (contents (r.2) ≡ [])
    × IsValid (r.2)

settle_whole :
    (b : Buffer) (k num : ℕ)
    → IsValid b
    → length (contents b) ≤ k
    → filled (b ∷ []) ≤ num
    → num < uint_mod
    → Returns (SettledWhole b k num) (settle (pos k) num b)
unfolding settle
settle_whole b k num v h g l = rw (available_length b v) (
    ground (
      arith,
      mark_processed_lem b (length (contents b)) v,
      drop_all (length (contents b)) (contents b),
      drop_all 0 (contents b),
    ))

-- A buffer that the kernel took a part of.
abbrev SettledPart : Buffer → ℕ → ℕ → ℤ × ℕ × Buffer → Type 0
SettledPart b k num r =
    (is_negative (r.0) ≡ true)
    × (r.1 ≡ num)
    × (contents (r.2) ≡ drop k (contents b))
    × IsValid (r.2)

settle_part :
    (b : Buffer) (k num : ℕ)
    → IsValid b
    → 0 < k
    → k < length (contents b)
    → Returns (SettledPart b k num) (settle (pos k) num b)
unfolding settle
settle_part b k num v p h = rw (available_length b v) (ground (arith, mark_processed_lem b k v))

-- When nothing is left to account for, a buffer stays as it is.
settle_none : (b : Buffer) (num : ℕ) → IsValid b → settle (pos 0) num b ≡ ok (pos 0, num, b)
unfolding settle
settle_none b num v = rw (available_length b v) (ground arith)

-- What the third loop has done when it stops.
pub record Accounts (k num : ℕ) (bs : List Buffer) (r : ℕ × List Buffer) : Type 0 where
  pub left : chain_contents (r.1) ≡ drop k (chain_contents bs)
  pub valid : All IsValid (r.1)
  pub counted : k ≡ total bs → r.0 ≡ num - filled bs

-- The loop's body took the first buffer whole, and the loop goes on.
account_whole :
    (b : Buffer) (bs : List Buffer) (k num : ℕ)
    → IsValid b
    → length (contents b) ≤ k
    → filled (b ∷ bs) ≤ num
    → num < uint_mod
    → Returns
        (Accounts (k - length (contents b)) (num - filled (b ∷ [])) bs)
        (account (pos (k - length (contents b))) (num - filled (b ∷ [])) bs)
    → Returns (Accounts k num (b ∷ bs)) (account (pos k) num (b ∷ bs))
unfolding account
account_whole b bs k num v h g l ih =
    let k' = k - length (contents b) in
    let num' = num - filled (b ∷ []) in
    let (r, er, p) = Returns-value (Accounts k' num' bs) (account (pos k') num' bs) ih in
    let ((n'', num'', b'), e, q) =
      Returns-value (SettledWhole b k num) (settle (pos k) num b)
        (settle_whole b k num v h (omega arith) l) in
    rw (e, q.0, q.1, er)
      (record {
        left = ground (arith, p.left, q.2, drop-append_right k (contents b) (chain_contents bs) h);
        valid = (q.3, p.valid);
        counted = λ all. ground (arith, p.counted, length-append (contents b) (chain_contents bs));
      })

-- Nothing is left to account for.
account_none : (bs : List Buffer) (num : ℕ) → All IsValid bs → account (pos 0) num bs ≡ ok (num, bs)
unfolding account
account_none [] num v = refl
account_none (b ∷ bs) num v =
    rw (settle_none b num (v.0)) (ground (arith, account_none bs num (v.1)))

account_ends : (num : ℕ) → Returns (Accounts 0 num []) (account (pos 0) num [])
unfolding account
account_ends num = record { left = refl; valid = tt; counted = λ all. omega arith }

-- The loop's body took a part of the first buffer.
account_part :
    (b : Buffer) (bs : List Buffer) (k num : ℕ)
    → All IsValid (b ∷ bs)
    → 0 < k
    → k < length (contents b)
    → Returns (Accounts k num (b ∷ bs)) (account (pos k) num (b ∷ bs))
unfolding account
account_part b bs k num v p h =
    let ((n', num', b'), e, q) =
      Returns-value (SettledPart b k num) (settle (pos k) num b) (settle_part b k num (v.0) p h) in
    rw (e, q.0)
      (record {
        left = ground (arith, q.2, drop-append_left k (contents b) (chain_contents bs));
        valid = (q.3, v.1);
        counted =
            λ all. absurd (omega (arith, all, length-append (contents b) (chain_contents bs)));
      })

-- What `writev` sent is dropped from the front of the chain, over buffer boundaries.
pub account_lem :
    (bs : List Buffer) (k num : ℕ)
    → All IsValid bs
    → k ≤ total bs
    → filled bs ≤ num
    → num < uint_mod
    → Returns (Accounts k num bs) (account (pos k) num bs)
account_lem [] zero num v h g l = account_ends num
account_lem [] (suc k) num v h g l = absurd (omega arith)
account_lem (b ∷ bs) zero num v h g l =
    rw (account_none (b ∷ bs) num v)
      (record { left = refl; valid = v; counted = λ all. ground (arith, filled-le-total (b ∷ bs)) })
account_lem (b ∷ bs) (suc j) num v h g l =
    let k = suc j in
    elim (Bool-cases (ltb k (length (contents b)))) [
      | inl part ↦ account_part b bs k num v (omega arith) (ground arith)
      | inr whole ↦ account_whole b bs k num (v.0) (ground arith) g l (
          account_lem bs (k - length (contents b)) (num - filled (b ∷ [])) (v.1)
            (omega (arith, length-append (contents b) (chain_contents bs))) (omega arith)
            (omega arith))
    ]

-- The outcome of `WritevFd` after the kernel took `n` bytes of the chain `bs`.
pub record Sent (n : ℕ) (bs : List Buffer) (r : Io (List Buffer)) : Type 0 where
  pub left : chain_contents r.bufs ≡ drop n (chain_contents bs)
  pub valid : All IsValid r.bufs
  pub returned : r.ret ≡ true
  pub no_err : r.err ≡ error no_error success
  pub all : r.all_sent ≡ (n == total bs)

gathered_lem :
    (bs : List Buffer) (n num size : ℕ)
    → All IsValid bs
    → 0 < n
    → n ≤ total bs
    → num ≡ filled bs
    → num < uint_mod
    → size ≡ total bs
    → Returns (Sent n bs) (gathered bs num size (done n))
unfolding gathered
gathered_lem bs n num size v p h e l f =
    let (r, er, q) =
      Returns-value (Accounts n num bs) (account (pos n) num bs)
        (account_lem bs n num v h (omega arith) l) in
    rw er (ground (arith, q.left, q.valid, q.counted))

-- Of a chain of valid buffers, within the limits of `size_t` and `unsigned int`, of which the
-- kernel took `n` bytes, more than none and no more than there are, `WritevFd` returns true without
-- an error; exactly those bytes are gone from the front of the chain, the buffers stay valid, and
-- `allSent` is set exactly if those were all.
pub writev_fd-Sent :
    (bs : List Buffer) (n : ℕ)
    → All IsValid bs
    → filled bs < uint_mod
    → total bs < size_limit
    → 0 < n
    → n ≤ total bs
    → Returns (Sent n bs) (writev_fd bs (done n))
unfolding writev_fd
writev_fd-Sent [] n v k l p h = absurd (omega arith)
writev_fd-Sent (b ∷ bs) n v k l p h =
    let (iov, ei, q) =
      Returns-value (λ iov. length iov ≡ filled (b ∷ bs)) (gather (b ∷ bs))
        (gather_lem (b ∷ bs) v) in
    rw (count_available_lem (b ∷ bs) 0 0 v (omega arith) (omega arith), ei)
      (ground (
        arith,
        q,
        gathered_lem (b ∷ bs) n (0 + filled (b ∷ bs)) (0 + total (b ∷ bs)) v p h (omega arith)
            (omega arith) (omega arith),
      ))

-- Where nothing is sent, `WritevFd` leaves the chain alone: an ignorable errno is reported and the
-- call returns true, any other is a write error.
pub writev_fd_failed :
    (bs : List Buffer) (e : Errno)
    → All IsValid bs
    → filled bs < uint_mod
    → total bs < size_limit
    → 0 < total bs
    → writev_fd bs (failed e)
      ≡ ok (record {
        ret = errno_ignorable e;
        err = error (if errno_ignorable e then ignorable_error else write_error) e;
        all_sent = false;
        bufs = bs;
      })
unfolding writev_fd gathered
writev_fd_failed [] e v k l p = absurd (omega arith)
writev_fd_failed (b ∷ bs) e v k l p =
    let (iov, ei, q) =
      Returns-value (λ iov. length iov ≡ filled (b ∷ bs)) (gather (b ∷ bs))
        (gather_lem (b ∷ bs) v) in
    rw (count_available_lem (b ∷ bs) 0 0 v (omega arith) (omega arith), ei) (ground (arith, q))

-- With nothing to send `WritevFd` makes no call, and does not report that all was sent.
pub writev_fd_drained :
    (bs : List Buffer) (res : SysResult)
    → All IsValid bs
    → filled bs < uint_mod
    → total bs ≡ 0
    → writev_fd bs res ≡ ok (idle bs)
unfolding writev_fd
writev_fd_drained [] res v k z = refl
writev_fd_drained (b ∷ bs) res v k z =
    rw (count_available_lem (b ∷ bs) 0 0 v (omega arith) (omega arith)) (ground arith)
