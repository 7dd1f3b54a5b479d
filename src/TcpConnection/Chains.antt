-- ===== src/TcpConnection/Chains.antt =====
-- net/TcpConnection.cpp, `WriteFd` or `WritevFd` of a connection's chain, as `handleWrite` calls them.
use musketeer.Prelude.{
  ℕ, ◌≤◌, ◌<◌, ◌≡◌, false, List, [], ◌∷◌, length, length-append, All, arith, ok, Returns,
  Returns-value, >>=-eq-ok, length-drop, ap, if◌then◌else◌,
}
use mathlib.Core.List.{append-nil}
use musketeer.Errors.{
  Errno, errno_ignorable, error, write_error, ignorable_error, SysResult, done, failed,
}
use musketeer.Buffer.{Buffer, contents}
use musketeer.Buffer.Alloc.{size_limit}
use musketeer.Buffer.Bounds.{IsValid}
use musketeer.Utilities.{Io, idle, write_fd, uint_mod}
use musketeer.Utilities.Chain.{chain_contents, total, filled}
use musketeer.Utilities.Single.{SentOne, write_fd_sent, write_fd_failed, write_fd_drained}
use musketeer.Utilities.Vectored.{Sent, writev_fd-Sent, writev_fd_failed, writev_fd_drained}
use musketeer.TcpConnection.{write_chain}
use musketeer.Utilities.Lengths.{writev_fd_keeps}

-- A chain within the limits of the machine's integers.
pub record Fits (bs : List Buffer) : Type 0 where
  pub valid : All IsValid bs
  pub few : length bs < uint_mod
  pub small : total bs < size_limit

pub filled-le-length : (bs : List Buffer) → filled bs ≤ length bs
filled-le-length [] = omega arith
filled-le-length (b ∷ bs) = ground (arith, filled-le-length bs)

as_chain :
    (n : ℕ) (b : Buffer) (io : Io Buffer)
    → SentOne n b io
    → Sent n
        (b ∷ [])
        (record { ret = io.ret; err = io.err; all_sent = io.all_sent; bufs = io.bufs ∷ [] })
as_chain n b io s = record {
  left = rw (append-nil (contents b), append-nil (contents io.bufs)) (s.left);
  valid = (s.valid, tt);
  returned = s.returned;
  no_err = s.no_err;
  all = rw (append-nil (contents b)) (s.all);
}

-- Whether one buffer or a chain, what the kernel took is gone from the front.
pub write_chain-Sent :
    (bs : List Buffer) (n : ℕ)
    → Fits bs
    → 0 < n
    → n ≤ total bs
    → Returns (Sent n bs) (write_chain bs (done n))
unfolding write_chain
write_chain-Sent [] n v p h = absurd (omega arith)
write_chain-Sent (b ∷ []) n v p h =
    let same : total (b ∷ []) ≡ length (contents b) =
      omega (arith, length-append (contents b) []) in
    let (io, ei, pi) =
      Returns-value (SentOne n b) (write_fd b (done n))
        (write_fd_sent b n v.valid.0 p (omega (arith, same))) in
    rw ei (as_chain n b io pi)
write_chain-Sent (b ∷ b' ∷ bs) n v p h =
    writev_fd-Sent (b ∷ b' ∷ bs) n v.valid (omega (arith, v.few, filled-le-length (b ∷ b' ∷ bs)))
      v.small p h

pub write_chain_failed :
    (bs : List Buffer) (e : Errno)
    → Fits bs
    → 0 < total bs
    → write_chain bs (failed e)
      ≡ ok (record {
        ret = errno_ignorable e;
        err = error (if errno_ignorable e then ignorable_error else write_error) e;
        all_sent = false;
        bufs = bs;
      })
unfolding write_chain
write_chain_failed [] e v p = absurd (omega arith)
write_chain_failed (b ∷ []) e v p =
    ground (arith, write_fd_failed b e v.valid.0, length-append (contents b) [])
write_chain_failed (b ∷ b' ∷ bs) e v p =
    writev_fd_failed (b ∷ b' ∷ bs) e v.valid (omega (arith, v.few, filled-le-length (b ∷ b' ∷ bs)))
      v.small p

pub write_chain_drained :
    (bs : List Buffer) (res : SysResult)
    → Fits bs
    → total bs ≡ 0
    → write_chain bs res ≡ ok (idle bs)
unfolding write_chain
write_chain_drained [] res v z = ground (arith, writev_fd_drained [] res tt)
write_chain_drained (b ∷ []) res v z =
    ground (arith, write_fd_drained b res v.valid.0, length-append (contents b) [])
write_chain_drained (b ∷ b' ∷ bs) res v z =
    writev_fd_drained (b ∷ b' ∷ bs) res v.valid
      (omega (arith, v.few, filled-le-length (b ∷ b' ∷ bs))) z

pub write_chain_keeps :
    (bs : List Buffer) (res : SysResult) (io : Io (List Buffer))
    → write_chain bs res ≡ ok io
    → length io.bufs ≡ length bs
unfolding write_chain
write_chain_keeps [] res io e = writev_fd_keeps [] res io e
write_chain_keeps (b ∷ []) res io e =
    let (one, ew, rest) = >>=-eq-ok (write_fd b res) _ e in ground (arith, rest)
write_chain_keeps (b ∷ b' ∷ bs) res io e = writev_fd_keeps (b ∷ b' ∷ bs) res io e

-- What is left of a chain is within the limits too.
pub Sent-Fits :
    (bs : List Buffer) (n : ℕ) (io : Io (List Buffer))
    → Fits bs
    → write_chain bs (done n) ≡ ok io
    → Sent n bs io
    → Fits io.bufs
Sent-Fits bs n io f e s = record {
  valid = s.valid;
  few = omega (arith, f.few, write_chain_keeps bs (done n) io e);
  small = omega (arith, f.small, ap length s.left, length-drop n (chain_contents bs));
}
