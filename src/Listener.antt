-- ===== src/Listener.antt =====
-- net/Listener.h and net/Listener.cpp: a listening socket, and the connections that are accepted on it.
-- The worker's cycle and timer queue are parts of the listener here. An object goes by a number, which
-- stands for its address.
pub mod Starting
pub mod Refusing
pub mod Accepting
pub mod Retained
pub mod Samples
mod Tests
use musketeer.Prelude.{
  ℕ, ◌+◌, ◌^◌, ◌-◌, Bool, true, false, not, List, [], ◌∷◌, ◌++◌, length, ltb, Option, none, some,
  Outcome, ok, fault, aborted, ◌>>=◌, ◌>>◌, assert, guard, empty_call, if◌then◌else◌,
}
use musketeer.Errors.{Error, is_no_error, SysResult}
use musketeer.InetAddr.{InetAddr}
use musketeer.Buffer.{available_size}
use musketeer.Buffer.Alloc.{Allocator}
use musketeer.Channel.{
  Channel, Cycle, Watched, make, register, enable_reading, put_callback, read_handler,
}
use musketeer.Socket.{Socket, valid, new_socket, set_option, call_succeeds, get_addr, accept}
use musketeer.Socket
use musketeer.Timers.{TimerQueue, new_timer}
use musketeer.Pool.{Pool, Conn, get_conn_number, add_tcp_connection, empty_pool}
use musketeer.TcpConnection.{TcpConnection, is_established, close, set_read_callback}
use musketeer.TcpConnection.Making.{make_tcp_connection, set_active}
use musketeer.Connector.{get_fd, closing}

-- `Listener`, a TcpConnectionCreator, over the cycle and the timers of its worker. Of the callback only
-- whether it is set; `calls` are its calls. `addresses` counts the objects made, and `closed` are the
-- descriptors handed to `::close`.
pub record Listener : Type 0 where
  pub listenfd : Socket
  pub chan : Channel
  pub chan_id : ℕ
  pub connected_callback : Bool
  pub limit : ℕ
  pub pool : Pool
  pub cycle : Cycle
  pub queue : TimerQueue
  pub addresses : ℕ
  pub made : List TcpConnection
  pub calls : List Conn
  pub closed : List ℕ

-- `Listener(TcpConnectionCallback, NetWorker*, int)`, with what `socket` returns and which of the
-- connections to come are active.
pub construct : SysResult → Bool → ℕ → (ℕ → Bool) → Cycle → TimerQueue → ℕ → Outcome Listener
construct res cb limit active cycle q address = do
  let sock = new_socket res
  assert cb
  guard (valid sock) aborted
  w ← register (make cycle address (get_fd sock))
  ok (record {
    listenfd = sock;
    chan = w.chan;
    chan_id = w.id;
    connected_callback = cb;
    limit = limit;
    pool = empty_pool active;
    cycle = w.cycle;
    queue = q;
    addresses = address + 1;
    made = [];
    calls = [];
    closed = [];
  })

-- `BindLocalAddr`, with what the two `::setsockopt` and `::bind` return.
pub bind_local_addr : SysResult → SysResult → SysResult → Listener → Outcome Bool
unfolding set_option call_succeeds
bind_local_addr addr port res l = do
  s ← set_option l.listenfd addr
  s' ← set_option s port
  call_succeeds s' res

-- `Listen`, with what `::listen` returns.
pub listen : SysResult → Listener → Outcome Listener
listen res l = do
  s ← Socket.listen l.listenfd res
  w ←
      enable_reading
        (put_callback read_handler true (record { cycle = l.cycle; chan = l.chan; id = l.chan_id }))
  ok (record l { listenfd = s; cycle = w.cycle; chan = w.chan })

-- `~Listener`, before its members go.
pub destroy : Listener → Outcome (Option ℕ)
destroy l = do assert (valid l.listenfd); ok (Socket.destroy l.listenfd)

-- `connectedCallback(conn)`
call : Conn → Listener → Outcome Listener
call conn l =
    guard l.connected_callback empty_call >> ok (record l { calls = l.calls ++ conn ∷ [] })

-- The addresses the kernel gives, and the callbacks of a connection's timers, are parameters.
module _ (a : Allocator) (remote local : InetAddr) (on_read on_write : ℕ) where
  -- The end of `handleAccept`: a new channel, two timers, the last argument first, and the connection,
  -- which goes to the pool and to the application.
  establish : Socket → Listener → Outcome Listener
  unfolding get_addr call
  establish sock l = do
    local_addr ← get_addr sock local
    assert l.connected_callback
    let w = make l.cycle l.addresses (get_fd sock)
    (wt, q₁) ← new_timer l.queue
    (rt, q₂) ← new_timer q₁
    let conn : Conn = record { index = l.addresses + 1; remote_addr = remote }
    t ← make_tcp_connection a on_read on_write (record {
      sock = sock;
      chan = w;
      conn = conn;
      read_timer = rt;
      write_timer = wt;
      queue = q₂;
      pool = l.pool;
    })
    p ← add_tcp_connection l.pool conn
    call conn (record l {
      cycle = t.channel.cycle;
      queue = t.queue;
      pool = p;
      addresses = l.addresses + 2;
      made = l.made ++ t ∷ [];
    })

  -- What `handleAccept` does with what `Accept` gives. The new socket is closed where it is left.
  after_accept : Socket × Error → Listener → Outcome Listener
  unfolding establish
  after_accept (sock, e) l =
      if not (valid sock)
      then ok l
      else (if ltb l.limit (get_conn_number l.pool + 1)
          then ok (record l { closed = closing (Socket.destroy sock) l.closed })
          else establish sock l)

  -- `handleAccept`, with what `::accept4` returns.
  pub handle_accept : SysResult → Listener → Outcome Listener
  unfolding after_accept
  handle_accept res l = do r ← accept l.listenfd res; after_accept r l

-- `handleKeepalivedRead`, for a connection of this listener.
pub handle_keepalived_read : Error → TcpConnection → Listener → Outcome (TcpConnection × Listener)
unfolding call
handle_keepalived_read e t l = do
  assert (not t.active)
  if is_no_error e.first then (call t.self l >>= λ l'. ok (set_active true t, l')) else do
    unexpected ← available_size t.read_buf
    assert (not (is_established t.status))
    t' ← close t
    ok (t', l)

-- `RetainTcpConnection`
pub retain_tcp_connection : (ℕ → ℕ) → TcpConnection → Outcome TcpConnection
retain_tcp_connection time t = do assert (not t.active); set_read_callback time 60000 t
