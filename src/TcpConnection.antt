-- ===== src/TcpConnection.antt =====
-- net/TcpConnection.h and net/TcpConnection.cpp: a connection over its socket, channel, buffers and
-- timers, in its creator's pool. Every handler calls the application last, so a call is recorded in
-- `calls`, and what the application does next is a step of its own.
pub mod Reading
pub mod Waiting
pub mod Chains
pub mod Sending
pub mod Draining
pub mod Closing
pub mod Buffers
pub mod Making
pub mod Soundness
pub mod Histories
pub mod Events
pub mod Samples
mod Tests
use musketeer.Prelude.{
  ℕ, ◌+◌, ◌<◌, Bool, true, false, not, ◌&&◌, List, [], ◌∷◌, ◌++◌, length, ltb, ◌==◌, Option, none,
  some, Outcome, ok, fault, ◌>>=◌, ◌>>◌, assert, guard, empty_call, if◌then◌else◌,
}
use musketeer.Errors.{
  Error, Errno, ErrorType, success, error, no_error, read_error, read_peer_closed, read_timedout,
  write_error, write_timedout, is_no_error, is_positive, SysResult,
}
use musketeer.Buffer.{Buffer, appendable_size, capacity_of}
use musketeer.Buffer
use musketeer.Buffer.Alloc.{Allocator}
use musketeer.Utilities.{Io, write_fd, writev_fd, read_fd, ReadResult}
use musketeer.Channel.{
  Watched, register, enable_reading, disable_reading, enable_writing, disable_writing, is_reading,
  is_writing, put_callback, error_handler, read_handler, write_handler, is_new,
}
use musketeer.Channel
use musketeer.Timers.{TimerQueue, update_by, cancel, reset}
use musketeer.Pool.{Pool, Conn, remove_tcp_connection}
use musketeer.Socket.{Socket, valid}
use musketeer.Socket

-- `enum TcpConnectionStatus`
pub data TcpConnectionStatus : Type 0 where
  established peer_closed closed : TcpConnectionStatus

-- `readAvailableCallback` and `writeFinishedCallback`, with the error they are given.
pub data Call : Type 0 where
  read_available write_finished : Error → Call

-- Of the two callbacks only whether they are set. `queue` and `pool` are shared with others.
pub record TcpConnection : Type 0 where
  pub connfd : Socket
  pub channel : Watched
  pub active : Bool
  pub status : TcpConnectionStatus
  pub saved_errno : Errno
  pub read_available_callback : Bool
  pub write_finished_callback : Bool
  pub write_buf_chain : List Buffer
  pub read_buf : Buffer
  pub read_timer : ℕ
  pub write_timer : ℕ
  pub queue : TimerQueue
  pub pool : Pool
  pub self : Conn
  pub calls : List Call

abbrev pub is_established : TcpConnectionStatus → Bool
is_established established = true
is_established _ = false

abbrev pub is_closed : TcpConnectionStatus → Bool
is_closed closed = true
is_closed _ = false

-- `readAvailableCallback(shared_from_this(), error)`
pub call_read : Error → TcpConnection → Outcome TcpConnection
call_read e c =
    guard c.read_available_callback empty_call
    >> ok (record c { calls = c.calls ++ read_available e ∷ [] })

pub call_write : Error → TcpConnection → Outcome TcpConnection
call_write e c =
    guard c.write_finished_callback empty_call
    >> ok (record c { calls = c.calls ++ write_finished e ∷ [] })

-- A call on the channel.
abbrev on_channel : (Watched → Outcome Watched) → TcpConnection → Outcome TcpConnection
on_channel f c = do w ← f c.channel; ok (record c { channel = w })

-- `Init`, with the callbacks of the two timers.
pub initialise : ℕ → ℕ → TcpConnection → Outcome TcpConnection
initialise on_read_timedout on_write_timedout c = do
  w ← if is_new c.channel.chan.status then register c.channel else ok c.channel
  let w' =
      put_callback write_handler true
        (put_callback read_handler true (put_callback error_handler true w))
  let q = reset c.read_timer (some on_read_timedout) false c.queue
  ok (record c { channel = w'; queue = reset c.write_timer (some on_write_timedout) false q })

-- `Close`
pub close_open : TcpConnection → Outcome TcpConnection
close_open c = do
  w ← Channel.close c.channel
  (fd, sock) ← Socket.close c.connfd
  p ← remove_tcp_connection c.pool c.self
  ok (record c {
    channel = w;
    queue = cancel c.write_timer (cancel c.read_timer c.queue);
    connfd = sock;
    write_buf_chain = [];
    pool = p;
    status = closed;
    active = false;
  })

pub close : TcpConnection → Outcome TcpConnection
unfolding close_open
close c = if is_closed c.status then ok c else close_open c

module _ (time : ℕ → ℕ) where
  -- The rest of `SetReadCallback` on an established connection.
  start_reading : ℕ → TcpConnection → Outcome TcpConnection
  start_reading msec c = do
    let w =
        if c.channel.chan.read_callback then c.channel else put_callback read_handler true c.channel
    w' ← enable_reading w
    ok (record c { channel = w'; queue = update_by time c.read_timer msec c.queue })

  -- `SetReadCallback`
  pub set_read_callback : ℕ → TcpConnection → Outcome TcpConnection
  unfolding start_reading call_read
  set_read_callback msec c = do
    room ← appendable_size c.read_buf
    assert (ltb 0 room)
    reading ← is_reading c.channel.chan
    assert (not reading)
    let c' = record c { read_available_callback = true }
    if is_established c.status
        then start_reading msec c'
        else call_read (error read_error c.saved_errno) c'

  -- `Retain`, and `RetainTcpConnection` of the creator.
  pub retain : TcpConnection → Outcome TcpConnection
  unfolding set_read_callback
  retain c = set_read_callback 60000 (record c { active = false })

abbrev is_peer_closed : ErrorType → Bool
is_peer_closed read_peer_closed = true
is_peer_closed _ = false

-- What `handleRead` does after `ReadFd`.
after_read : TcpConnection → Io Buffer → Outcome TcpConnection
unfolding close call_read
after_read c io =
    let c₁ = record c { read_buf = io.bufs; saved_errno = io.err.second } in
    (if is_peer_closed io.err.first
      then assert io.ret >> ok (record c₁ { status = peer_closed })
      else ok c₁)
    >>= λ c₂.
        (if io.ret then on_channel disable_reading c₂ else close c₂) >>= λ c₃. call_read io.err c₃

-- `handleRead`
pub handle_read : ReadResult → TcpConnection → Outcome TcpConnection
unfolding after_read call_read
handle_read res c = do
  let c₁ = record c { queue = cancel c.read_timer c.queue }
  if is_established c.status then (read_fd c.read_buf res >>= after_read c₁) else do
    reading ← is_reading c.channel.chan
    c₂ ← if reading then on_channel disable_reading c₁ else ok c₁
    call_read (error read_error c.saved_errno) c₂

-- A chain of one buffer goes to `WriteFd`, a longer one to `WritevFd`.
pub write_chain : List Buffer → SysResult → Outcome (Io (List Buffer))
write_chain (b ∷ []) res = do
  io ← write_fd b res
  ok (record { ret = io.ret; err = io.err; all_sent = io.all_sent; bufs = io.bufs ∷ [] })
write_chain bs res = writev_fd bs res

stop_writing : TcpConnection → Outcome TcpConnection
stop_writing c = do
  writing ← is_writing c.channel.chan
  if writing then on_channel disable_writing c else ok c

-- The last branch of `handleWrite`: wait until the socket can be written.
wait_writable : TcpConnection → Outcome TcpConnection
wait_writable c = do
  let w =
      if c.channel.chan.write_callback then c.channel else put_callback write_handler true c.channel
  writing ← is_writing w.chan
  if writing
      then ok (record c { channel = w })
      else on_channel enable_writing (record c { channel = w })

abbrev is_write_error : ErrorType → Bool
is_write_error write_error = true
is_write_error _ = false

-- What `handleWrite` does after the system call.
after_write : TcpConnection → Io (List Buffer) → Outcome TcpConnection
unfolding close call_write stop_writing wait_writable
after_write c io =
    let c₁ = record c { write_buf_chain = io.bufs; saved_errno = io.err.second } in
    if not io.ret
    then (assert (is_write_error io.err.first) >> close c₁ >>= λ c₂. call_write io.err c₂)
    else (if io.all_sent
        then (assert (is_no_error io.err.first && not (is_positive io.err.second))
            >> stop_writing c₁
            >>= λ c₂. call_write io.err c₂)
        else wait_writable c₁)

-- `handleWrite`
pub handle_write : SysResult → TcpConnection → Outcome TcpConnection
unfolding after_write call_write stop_writing write_chain
handle_write res c =
    if is_established c.status
    then (assert (ltb 0 (length c.write_buf_chain)) >> write_chain c.write_buf_chain res >>= λ io.
        after_write c io)
    else (stop_writing c >>= λ c'. call_write (error write_error c.saved_errno) c')

module _ (time : ℕ → ℕ) where
  -- `Send`
  pub send : ℕ → SysResult → TcpConnection → Outcome TcpConnection
  unfolding call_write
  send msec res c = do
    writing ← is_writing c.channel.chan
    assert (not writing)
    let c₁ = record c { write_finished_callback = true }
    if is_established c.status
        then (assert (ltb 0 (length c.write_buf_chain))
            >> handle_write res (record c₁ { queue = update_by time c.write_timer msec c.queue }))
        else call_write (error write_error c.saved_errno) c₁

-- `handleError`, with what `GetError` returns.
pub handle_error : Errno → TcpConnection → Outcome TcpConnection
unfolding close
handle_error e c = do assert (valid c.connfd); close (record c { saved_errno = e })

-- `handleReadTimedout`, `handleWriteTimedout`
pub handle_read_timedout : TcpConnection → Outcome TcpConnection
unfolding call_read
handle_read_timedout c = do
  reading ← is_reading c.channel.chan
  assert reading
  c₁ ← on_channel disable_reading c
  call_read (error read_timedout success)
      (record c₁ { channel = put_callback read_handler false c₁.channel })

pub handle_write_timedout : TcpConnection → Outcome TcpConnection
unfolding call_write
handle_write_timedout c = do
  writing ← is_writing c.channel.chan
  assert writing
  c₁ ← on_channel disable_writing c
  call_write (error write_timedout success)
      (record c₁ { channel = put_callback write_handler false c₁.channel })

abbrev pub max_write_buffer_num : ℕ
max_write_buffer_num = 4

-- The loop of `GetWriteBuffer`, from buffer `i` on: the first with room, or the size to allocate.
unfoldable pub find_room : ℕ → ℕ → List Buffer → Outcome (Option ℕ × ℕ)
find_room i bsize [] = ok (none, bsize)
find_room i bsize (b ∷ bs) = do
  cap ← capacity_of b
  room ← appendable_size b
  let rest = find_room (i + 1) (if bsize == 32768 then cap else bsize) bs
  if ltb 0 room then ok (some i, bsize) else rest

-- The end of `GetWriteBuffer`: the buffer's place in the chain, with `none` for `nullptr`.
unfoldable pub use_room :
    Allocator → TcpConnection → Option ℕ × ℕ → Outcome (Option ℕ × TcpConnection)
use_room a c (some i, bsize) = ok (some i, c)
use_room a c (none, bsize) =
    let n = length c.write_buf_chain in
    if ltb n max_write_buffer_num
    then ok (some n, record c { write_buf_chain = c.write_buf_chain ++ Buffer.new a bsize ∷ [] })
    else ok (none, c)

-- `GetWriteBuffer`
unfoldable pub get_write_buffer : Allocator → TcpConnection → Outcome (Option ℕ × TcpConnection)
unfolding find_room use_room
get_write_buffer a c = find_room 0 32768 c.write_buf_chain >>= use_room a c
