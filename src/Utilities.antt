-- ===== src/Utilities.antt =====
-- base/Utilities.cpp: `WriteFd`, `WritevFd` and `ReadFd`. What the system call returns is an
-- argument; it is looked at only where the code makes the call.
pub mod Chain
pub mod Single
pub mod Vectored
pub mod Lengths
mod Tests
use musketeer.Prelude.{
  ℕ, ◌+◌, ◌-◌, ◌%◌, ◌^◌, Bool, true, false, ◌&&◌, List, [], ◌∷◌, length, ltb, leb, ◌==◌,
  if◌then◌else◌, Outcome, ok, ◌>>=◌, ◌>>◌, assert,
}
use musketeer.Prelude.Int.{ℤ, pos, negsuc, sub_ℕ}
use musketeer.Errors.{
  Error, Errno, ErrorType, no_error, ignorable_error, write_error, connect_error, read_peer_closed,
  success, error, SysResult, failed, done, errno_ignorable,
}
use musketeer.Buffer.{
  Buffer, RawBuf, available_size, appendable_size, available_pos, appendable_pos, mark_processed,
  mark_appended, add_size, copy_in,
}

-- The return value, the out parameters, and the buffer or chain as the call leaves it.
pub record Io (B : Type 0) : Type 0 where
  pub ret : Bool
  pub err : Error
  pub all_sent : Bool
  pub bufs : B

abbrev pub idle : {B : Type 0} → B → Io B
idle b = record { ret = true; err = error no_error success; all_sent = false; bufs = b }

-- The branch `n < 0`: only an ignorable errno leaves the connection alive.
abbrev pub io_failed : {B : Type 0} → ErrorType → Errno → B → Io B
io_failed t e b =
    if errno_ignorable e
    then record { ret = true; err = error ignorable_error e; all_sent = false; bufs = b }
    else record { ret = false; err = error t e; all_sent = false; bufs = b }

-- After `::write(fd, buf.first, buf.second)` of `avail` bytes.
written : Buffer → ℕ → SysResult → Outcome (Io Buffer)
written b avail (failed e) = ok (io_failed write_error e b)
written b avail (done n) =
    if n == 0
    then ok (idle b)
    else (mark_processed b n >>= λ b'. ok (record (idle b') { all_sent = n == avail }))

pub write_fd : Buffer → SysResult → Outcome (Io Buffer)
unfolding written
write_fd b res = do
  avail ← available_size b
  if avail == 0 then ok (idle b) else written b avail res

-- What `::read` returns: -1 with an errno, or the bytes that the kernel stored.
pub data ReadResult : Type 0 where
  read_failed : Errno → ReadResult
  read_bytes : List ℕ → ReadResult

-- After `::read(fd, buf.first, buf.second)`, which stores from `buf.first` on.
read_done : Buffer → ReadResult → Outcome (Io Buffer)
read_done b (read_failed e) = ok (io_failed connect_error e b)
read_done b (read_bytes []) = ok (record (idle b) { err = error read_peer_closed success })
read_done b (read_bytes (x ∷ xs)) =
    copy_in b (x ∷ xs) >>= λ b'. mark_appended b' (length (x ∷ xs)) >>= λ b''. ok (idle b'')

pub read_fd : Buffer → ReadResult → Outcome (Io Buffer)
unfolding read_done
read_fd b res = do room ← appendable_size b; if room == 0 then ok (idle b) else read_done b res

-- `unsigned int` and `size_t` counters.
abbrev pub uint_mod : ℕ
uint_mod = 2 ^ 32

abbrev pub pred_uint : ℕ → ℕ
pred_uint n = (n + uint_mod - 1) % uint_mod

-- The first loop of `WritevFd`: how many buffers hold data, and how much there is.
pub count_available : List Buffer → ℕ → ℕ → Outcome (ℕ × ℕ)
count_available [] num size = ok (num, size)
count_available (b ∷ bs) num size = do
  s ← available_size b
  count_available bs (if ltb 0 s then (num + 1) % uint_mod else num)
      (if ltb 0 s then add_size size s else size)

-- The second loop: the `iovec`s of those buffers.
pub gather : List Buffer → Outcome (List RawBuf)
gather [] = ok []
gather (b ∷ bs) = do
  s ← available_size b
  rest ← gather bs
  ok (if ltb 0 s then available_pos b ∷ rest else rest)

-- The body of the third loop, with `n` the bytes that are left and `num` the buffers.
pub settle : ℤ → ℕ → Buffer → Outcome (ℤ × ℕ × Buffer)
settle (negsuc k) num b = do avs ← available_size b; ok (negsuc k, num, b)
settle (pos k) num b = do
  avs ← available_size b
  if ltb 0 avs && ltb 0 k
      then (mark_processed b (if ltb avs k then avs else k) >>= λ b'.
          ok (sub_ℕ k avs, (if leb avs k then pred_uint num else num), b'))
      else ok (pos k, num, b)

abbrev pub is_negative : ℤ → Bool
is_negative (pos k) = false
is_negative (negsuc k) = true

-- The third loop, which breaks when `n` is negative.
pub account : ℤ → ℕ → List Buffer → Outcome (ℕ × List Buffer)
account n num [] = ok (num, [])
account n num (b ∷ bs) = do
  (n', num', b') ← settle n num b
  let rest = account n' num' bs
  if is_negative n' then ok (num', b' ∷ bs) else (rest >>= λ (k, bs'). ok (k, b' ∷ bs'))

-- After `::writev`.
gathered : List Buffer → ℕ → ℕ → SysResult → Outcome (Io (List Buffer))
gathered bs num size (failed e) = ok (io_failed write_error e bs)
gathered bs num size (done n) =
    if n == 0
    then ok (idle bs)
    else (account (pos n) num bs >>= λ (left, bs').
        assert (if n == size then left == 0 else true)
        >> ok (record (idle bs') { all_sent = n == size }))

pub writev_fd : List Buffer → SysResult → Outcome (Io (List Buffer))
unfolding gathered
writev_fd [] res = ok (idle [])
writev_fd (b ∷ bs) res = do
  (num, size) ← count_available (b ∷ bs) 0 0
  if size == 0
      then ok (idle (b ∷ bs))
      else (gather (b ∷ bs) >>= λ iov. assert (length iov == num) >> gathered (b ∷ bs) num size res)
