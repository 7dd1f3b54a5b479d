-- ===== src/Utilities/Single.antt =====
-- base/Utilities.cpp, `WriteFd` and `ReadFd`: one buffer.
use musketeer.Prelude.{
  ℕ, ◌≤◌, ◌<◌, ◌≡◌, List, [], ◌∷◌, length, drop, ◌==◌, if◌then◌else◌, false, true, arith, ok,
  Returns,
}
use musketeer.Errors.{
  SysResult, failed, done, Errno, errno_ignorable, error, no_error, success, ignorable_error,
  write_error, connect_error, read_peer_closed,
}
use musketeer.Buffer.{Buffer, contents}
use musketeer.Buffer.Bounds.{IsValid, appendable_size_lem}
use musketeer.Buffer.Contents.{mark_processed_lem}
use musketeer.Buffer.Append.{Appends, room, write_back, write_back-Appends}
use musketeer.Utilities.{Io, idle, write_fd, read_fd, read_failed, read_bytes}
use musketeer.Utilities.Chain.{available_length}

-- The outcome of `WriteFd` after the kernel took `n` bytes.
pub record SentOne (n : ℕ) (b : Buffer) (r : Io Buffer) : Type 0 where
  pub left : contents r.bufs ≡ drop n (contents b)
  pub valid : IsValid r.bufs
  pub returned : r.ret ≡ true
  pub no_err : r.err ≡ error no_error success
  pub all : r.all_sent ≡ (n == length (contents b))

-- Of a valid buffer of which the kernel took `n` bytes, more than none and no more than there are,
-- `WriteFd` returns true without an error; exactly those are gone from the front, and `allSent` is
-- set exactly if those were all.
pub write_fd_sent :
    (b : Buffer) (n : ℕ)
    → IsValid b
    → 0 < n
    → n ≤ length (contents b)
    → Returns (SentOne n b) (write_fd b (done n))
unfolding write_fd
write_fd_sent b n v p h = rw (available_length b v) (ground (arith, mark_processed_lem b n v))

-- A failed `write` leaves the buffer alone; only an ignorable errno lets `WriteFd` return true.
pub write_fd_failed :
    (b : Buffer) (e : Errno)
    → IsValid b
    → 0 < length (contents b)
    → write_fd b (failed e)
      ≡ ok (record {
        ret = errno_ignorable e;
        err = error (if errno_ignorable e then ignorable_error else write_error) e;
        all_sent = false;
        bufs = b;
      })
unfolding write_fd
write_fd_failed b e v p = rw (available_length b v) (ground arith)

-- An empty buffer is not reported as sent, whatever the kernel would say.
pub write_fd_drained :
    (b : Buffer) (res : SysResult)
    → IsValid b
    → length (contents b) ≡ 0
    → write_fd b res ≡ ok (idle b)
unfolding write_fd
write_fd_drained b res v z = rw (available_length b v) (ground arith)

-- What `read` stored is behind the contents.
pub record Received (xs : List ℕ) (b : Buffer) (r : Io Buffer) : Type 0 where
  pub added : Appends b xs r.bufs
  pub returned : r.ret ≡ true
  pub no_err : r.err ≡ error no_error success

-- `ReadFd` into a valid buffer with room for the bytes, of which there is one at least, returns
-- true without an error, and the bytes are behind the contents of a buffer that is still valid.
pub read_fd-Received :
    (b : Buffer) (x : ℕ) (xs : List ℕ)
    → IsValid b
    → length (x ∷ xs) ≤ room b
    → Returns (Received (x ∷ xs) b) (read_fd b (read_bytes (x ∷ xs)))
unfolding read_fd write_back
read_fd-Received b x xs v h =
    rw (appendable_size_lem b v)
      (ground (arith, write_back-Appends b (x ∷ xs) v (omega (arith, v.end_le))))

-- The other outcomes of `ReadFd` with room in the buffer: the end of the stream, and an errno.
pub read_fd_nothing :
    (b : Buffer) (e : Errno)
    → IsValid b
    → 0 < room b
    → (read_fd b (read_bytes []) ≡ ok (record (idle b) { err = error read_peer_closed success }))
      × (read_fd b (read_failed e)
          ≡ ok (record {
            ret = errno_ignorable e;
            err = error (if errno_ignorable e then ignorable_error else connect_error) e;
            all_sent = false;
            bufs = b;
          }))
unfolding read_fd
read_fd_nothing b e v h = rw (appendable_size_lem b v) (ground arith)
