-- ===== src/Listener/Accepting.antt =====
-- net/Listener.cpp, `handleAccept` where it gives a connection, and what every call of it keeps.
use musketeer.Prelude.{
  ℕ, ◌+◌, ◌<◌, ◌≤◌, ◌≡◌, refl, true, false, none, some, ◌∷◌, [], ◌++◌, arith, ltb, Returns,
  Returns-value, Returns-mono, ◌==◌, Bool-cases, inl, inr, ◌⊎◌,
}
use musketeer.Prelude.Assoc.{lookup}
use musketeer.Errors.{SysResult, done, failed}
use musketeer.InetAddr.{InetAddr}
use musketeer.Buffer
use musketeer.Buffer.Alloc.{Allocator}
use musketeer.Channel.{make}
use musketeer.Timers.{new_timer}
use musketeer.Timers.Handles.{Fresh, new_timer-Fresh}
use musketeer.Pool.{Conn, group_index, get_conn_number, add_tcp_connection}
use musketeer.Pool.View.{find, Updates, add_tcp_connection-Updates}
use musketeer.Socket.{valid, is_valid, accept, get_addr}
use musketeer.TcpConnection.{TcpConnection, established}
use musketeer.TcpConnection.Closing.{Live}
use musketeer.TcpConnection.Making.{Parts, make_tcp_connection}
use musketeer.TcpConnection.Making.OnNewChannel.{MadeNew, make_tcp_connection-MadeNew}
use musketeer.Listener.{Listener, handle_accept, after_accept, establish, call}
use musketeer.Listener.Starting.{Listening}
use musketeer.Listener.Refusing.{handle_accept-Refused}

-- The connection that the next `handleAccept` makes.
abbrev pub conn_of : InetAddr → Listener → Conn
conn_of remote l = record { index = l.addresses + 1; remote_addr = remote }

-- The cycle does not know the descriptor `n`, and the new connection's place in the pool is free.
pub record Room (remote : InetAddr) (n : ℕ) (l : Listener) : Type 0 where
  pub unmapped : lookup n l.cycle.all_channels ≡ none
  pub placeable : find l.pool (group_index (conn_of remote l)) (l.addresses + 1) ≡ none

-- What `handleAccept` leaves where it made the connection `t` on the descriptor `n`.
pub record Accepted (a : Allocator) (remote : InetAddr) (n : ℕ) (l l' : Listener) : Type 0 where
  pub connection : TcpConnection
  pub made : l'.made ≡ l.made ++ connection ∷ []
  pub live : Live (record connection { pool = l'.pool })
  pub is_open : connection.status ≡ established
  pub active : connection.active ≡ true
  pub took : connection.connfd ≡ record { fd = some n }
  pub cycle : connection.channel.cycle ≡ l'.cycle
  pub self : connection.self ≡ conn_of remote l
  pub uncalled : connection.calls ≡ []
  pub idle : connection.channel.chan.events ≡ 0
  pub read_room : connection.read_buf ≡ Buffer.new a 32768
  pub write_room : connection.write_buf_chain ≡ Buffer.new a 32768 ∷ []
  pub told : l'.calls ≡ l.calls ++ conn_of remote l ∷ []
  pub pooled : Updates l.pool (conn_of remote l) (some (conn_of remote l)) l'.pool
  pub timers_kept : l'.queue.timers_set ≡ l.queue.timers_set
  pub closed_kept : l'.closed ≡ l.closed
  pub listening : Listening l'

module _ (a : Allocator) (remote local : InetAddr) (on_read on_write : ℕ) where
  -- A descriptor that is free is not the listener's own.
  not_own :
      (n : ℕ) (l : Listener)
      → Listening l
      → lookup n l.cycle.all_channels ≡ none
      → (l.chan.fd == n) ≡ false
  not_own n l w free = elim (Bool-cases (l.chan.fd == n)) [
    | inl same ↦ ground (arith, w.inv.mapped, w.status)
    | inr other ↦ other
  ]

  establish-Accepted :
      (n : ℕ) (l : Listener)
      → Listening l
      → Room remote n l
      → Returns
          (Accepted a remote n l)
          (establish a remote local on_read on_write (record { fd = some n }) l)
  unfolding establish get_addr valid call
  establish-Accepted n l w free =
      let ((wt, q₁), e₁, p₁) =
        Returns-value (Fresh l.queue) (new_timer l.queue) (new_timer-Fresh l.queue) in
      let ((rt, q₂), e₂, p₂) = Returns-value (Fresh q₁) (new_timer q₁) (new_timer-Fresh q₁) in
      let conn = conn_of remote l in
      let parts : Parts = record {
        sock = record { fd = some n };
        chan = make l.cycle l.addresses n;
        conn = conn;
        read_timer = rt;
        write_timer = wt;
        queue = q₂;
        pool = l.pool;
      } in
      let (t, et, pt) =
        Returns-value (MadeNew a l.cycle l.addresses n parts)
          (make_tcp_connection a on_read on_write parts)
          (make_tcp_connection-MadeNew a on_read on_write l.cycle l.addresses n parts refl refl
            free.unmapped) in
      let (p, ep, pp) =
        Returns-value (Updates l.pool conn (some conn)) (add_tcp_connection l.pool conn)
          (add_tcp_connection-Updates l.pool conn free.placeable) in
      let own = not_own n l w free.unmapped in
      rw (w.answered, e₁, e₂, et, ep)
        (record {
          connection = t;
          made = refl;
          live = record {
            channel_inv = pt.inv;
            registered = λ e. cc (e, pt.registered);
            open_fd = ground (arith, pt.socket_kept);
            pooled = ground (arith, pp.found (group_index conn) conn.index, pt.self_kept);
          };
          is_open = pt.is_open;
          active = pt.active;
          took = pt.socket_kept;
          cycle = refl;
          self = pt.self_kept;
          uncalled = pt.uncalled;
          idle = pt.idle;
          read_room = pt.read_room;
          write_room = pt.write_room;
          told = refl;
          pooled = pp;
          timers_kept = cc (pt.timers_kept, p₂.set_kept, p₁.set_kept);
          closed_kept = refl;
          listening = record {
            inv = record {
              interest = w.inv.interest;
              watched = w.inv.watched;
              mapped = ground (arith, pt.others_kept l.chan.fd own, w.inv.mapped);
            };
            reading = w.reading;
            status = w.status;
            read_callback = w.read_callback;
            open_fd = w.open_fd;
            answered = refl;
          };
        })

  -- A listener that listens and is within its limit makes a connection of a descriptor that its
  -- cycle does not know, where the connection's place in the pool is free: the connection is live,
  -- established and active, on that descriptor and in the pool; the application is told of it once,
  -- last, and of nothing else; no timer is added, no descriptor is closed, and the listener goes on
  -- listening.
  pub handle_accept-Accepted :
      (n : ℕ) (l : Listener)
      → Listening l
      → Room remote n l
      → get_conn_number l.pool + 1 ≤ l.limit
      → Returns (Accepted a remote n l) (handle_accept a remote local on_read on_write (done n) l)
  unfolding handle_accept after_accept accept valid
  handle_accept-Accepted n l w free within =
      let below : ltb l.limit (get_conn_number l.pool + 1) ≡ false = ground arith in
      let listens : is_valid l.listenfd.fd ≡ true = ground (arith, w.open_fd) in
      rw (listens, below) (establish-Accepted n l w free)

-- What the kernel and the pool owe a listener for what `::accept4` returns.
abbrev pub Answer : InetAddr → SysResult → Listener → Type 0
Answer remote (failed e) l = Unit
Answer remote (done n) l = Room remote n l

module _ (a : Allocator) (remote local : InetAddr) (on_read on_write : ℕ) where
  accept_one :
      (n : ℕ) (l : Listener)
      → Listening l
      → Room remote n l
      → (l.limit < get_conn_number l.pool + 1) ⊎ (get_conn_number l.pool + 1 ≤ l.limit)
      → Returns Listening (handle_accept a remote local on_read on_write (done n) l)
  unfolding valid
  accept_one n l w free (inl over) =
      let full =
        handle_accept-Refused a remote local on_read on_write (done n) l (ground (arith, w.open_fd))
          over in
      rw full (record {
        inv = w.inv;
        reading = w.reading;
        status = w.status;
        read_callback = w.read_callback;
        open_fd = w.open_fd;
        answered = w.answered;
      })
  accept_one n l w free (inr within) =
      Returns-mono (Accepted a remote n l) Listening
        (handle_accept a remote local on_read on_write (done n) l) (λ l' p. p.listening)
        (handle_accept-Accepted a remote local on_read on_write n l w free within)

  -- A listener that listens goes on listening after `handleAccept`, whatever `::accept4` returns
  -- and whatever the limit, where a new descriptor is not known to the cycle and its connection's
  -- place in the pool is free.
  pub handle_accept-Listening :
      (res : SysResult) (l : Listener)
      → Listening l
      → Answer remote res l
      → Returns Listening (handle_accept a remote local on_read on_write res l)
  unfolding valid
  handle_accept-Listening (failed e) l w u =
      let same =
        handle_accept-Refused a remote local on_read on_write (failed e) l
          (ground (arith, w.open_fd)) tt in
      rw same w
  handle_accept-Listening (done n) l w free = accept_one n l w free (omega arith)
