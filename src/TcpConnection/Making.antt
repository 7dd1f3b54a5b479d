-- ===== src/TcpConnection/Making.antt =====
-- net/TcpConnection.h, the constructor, the destructor and `SetActive`, and `makeTcpConnection` of
-- net/TcpConnectionCreator.cpp.
pub mod OnNewChannel
use musketeer.Prelude.{
  ℕ, ◌≡◌, refl, Bool, true, false, [], ◌∷◌, Outcome, ok, ◌>>=◌, ◌>>◌, assert, Returns,
  Returns-value, fault, aborted, arith, sym, ap, ◌∙◌, if◌then◌else◌,
}
use musketeer.Errors.{success}
use musketeer.Buffer
use musketeer.Buffer.Alloc.{Allocator}
use musketeer.Channel.{Watched, is_new, put_callback}
use musketeer.Timers.{TimerQueue, reset}
use musketeer.Pool.{Pool, Conn}
use musketeer.Socket.{Socket, valid}
use musketeer.Channel
use musketeer.Channel.Lifecycle.{close_lem}
use musketeer.Socket
use musketeer.Socket.Outcomes
use musketeer.TcpConnection.Closing.{Live, Closed, close-Closed}
use musketeer.TcpConnection.{TcpConnection, established, is_closed, initialise, close}

-- What a creator gives to a connection. Whether it connected or accepted is not used.
pub record Parts : Type 0 where
  pub sock : Socket
  pub chan : Watched
  pub conn : Conn
  pub read_timer : ℕ
  pub write_timer : ℕ
  pub queue : TimerQueue
  pub pool : Pool

-- `TcpConnection(Socket, ...)`
pub construct : Allocator → ℕ → ℕ → Parts → Outcome TcpConnection
construct a wbufsize rbufsize p = do
  assert (valid p.sock)
  ok (record {
    connfd = p.sock;
    channel = p.chan;
    active = true;
    status = established;
    saved_errno = success;
    read_available_callback = false;
    write_finished_callback = false;
    write_buf_chain = Buffer.new a wbufsize ∷ [];
    read_buf = Buffer.new a rbufsize;
    read_timer = p.read_timer;
    write_timer = p.write_timer;
    queue = p.queue;
    pool = p.pool;
    self = p.conn;
    calls = [];
  })

-- `~TcpConnection`. `Close` of a connection that is not closed asks for `shared_from_this()` once the socket is
-- closed, of which there is none any more: it throws, and what leaves a destructor ends the program.
pub destroy : TcpConnection → Outcome TcpConnection
destroy c =
    if is_closed c.status
    then ok c
    else (Channel.close c.channel >>= λ w. Socket.close c.connfd >>= λ s. fault aborted)

-- `SetActive`
abbrev pub set_active : Bool → TcpConnection → TcpConnection
set_active on c = record c { active = on }

-- `makeTcpConnection`
pub make_tcp_connection : Allocator → ℕ → ℕ → Parts → Outcome TcpConnection
unfolding construct
make_tcp_connection a on_read on_write p = construct a 32768 32768 p >>= initialise on_read on_write

-- A connection that was just made of some parts.
pub record Made (p : Parts) (c : TcpConnection) : Type 0 where
  pub is_open : c.status ≡ established
  pub active : c.active ≡ true
  pub error_callback : c.channel.chan.error_callback ≡ true
  pub read_callback : c.channel.chan.read_callback ≡ true
  pub write_callback : c.channel.chan.write_callback ≡ true
  pub socket_kept : c.connfd ≡ p.sock
  pub fd_kept : c.channel.chan.fd ≡ p.chan.chan.fd
  pub events_kept : c.channel.chan.events ≡ p.chan.chan.events
  pub cycle_kept : c.channel.cycle ≡ p.chan.cycle
  pub timers_kept : c.queue.timers_set ≡ p.queue.timers_set
  pub pool_kept : c.pool ≡ p.pool
  pub uncalled : c.calls ≡ []

-- From a valid socket and a registered channel `makeTcpConnection` makes a connection that is
-- established and active, with the three callbacks of its channel set; the pool, the cycle and the
-- queue's set of entries are as they were.
pub make_tcp_connection-Made :
    (a : Allocator) (on_read on_write : ℕ) (p : Parts)
    → valid p.sock ≡ true
    → is_new p.chan.chan.status ≡ false
    → Returns (Made p) (make_tcp_connection a on_read on_write p)
unfolding make_tcp_connection initialise put_callback reset
make_tcp_connection-Made a on_read on_write p v n =
    rw (v, n)
      (record {
        is_open = refl;
        active = refl;
        error_callback = refl;
        read_callback = refl;
        write_callback = refl;
        socket_kept = refl;
        fd_kept = refl;
        events_kept = refl;
        cycle_kept = refl;
        timers_kept = refl;
        pool_kept = refl;
        uncalled = refl;
      })

-- After `Close` has returned, the destructor does nothing; that of a live connection that is not closed ends the
-- program.
destroy_lem :
    (c c' : TcpConnection)
    → Live c
    → is_closed c.status ≡ false
    → close c ≡ ok c'
    → (destroy c' ≡ ok c') × (destroy c ≡ fault aborted)
unfolding destroy
destroy_lem c c' live not_closed e =
    let (w, ew, pw) =
      Returns-value _ (Channel.close c.channel)
        (close_lem c.channel live.channel_inv live.registered) in
    let (s, es, ps) =
      Returns-value _ (Socket.close c.connfd) (Socket.Outcomes.close_lem c.connfd live.open_fd) in
    (closed_returns (close-Closed c live not_closed), rw (not_closed, ew, es) refl)
  where
    closed_returns : Returns (Closed c) (close c) → destroy c' ≡ ok c'
    closed_returns r =
        let (d, ed, p) = Returns-value (Closed c) (close c) r in
        let same : d ≡ c' = ground (arith, e, ed) in
        let shut : is_closed c'.status ≡ true =
          ap (λ x. is_closed x.status) (sym same) ∙ ap is_closed p.is_closed in
        rw shut refl
