-- ===== src/Connector/Finishing.antt =====
-- net/Connector.cpp, `finalise` of a state that waited for its socket.
use musketeer.Prelude.{
  ℕ, ◌≡◌, ◌⊎◌, ◌∙◌, ap, refl, true, Option, none, some, ◌∷◌, [], ◌++◌, arith, Outcome, ok, Returns,
  Returns-value,
}
use mathlib.Core.Path.{subst}
use musketeer.Prelude.Assoc.{erase}
use musketeer.Errors.{Error, error, success, no_error, connect_error, is_positive}
use musketeer.InetAddr.{InetAddr}
use musketeer.Buffer.Alloc.{Allocator}
use musketeer.Channel.{removed, disable_all}
use musketeer.Channel.Calls.{DisablesAll, disable_all_lem}
use musketeer.Timers.{TimerQueue, new_timer, cancel}
use musketeer.Timers.Handles.{Fresh, new_timer-Fresh}
use musketeer.Pool.{Conn, group_index, add_tcp_connection}
use musketeer.Pool.View.{find, Updates, add_tcp_connection-Updates}
use musketeer.Socket.{valid, is_valid, move_from}
use musketeer.TcpConnection.{TcpConnection}
use musketeer.TcpConnection.Making.{Parts, Made, make_tcp_connection, make_tcp_connection-Made}
use musketeer.Connector.{
  Connecting, on_channel, hand_over, conclude, finalise, is_given_up, get_fd, call,
}
use musketeer.Connector.Tracing.{channel_of, Waiting}

-- A state whose channel is registered and waits for nothing, as `finalise` hands it over.
record Quiet (s : Connecting) : Type 0 where
  status : s.state.chan.status ≡ removed
  open_fd : s.state.socket ≡ record { fd = some s.state.chan.fd }

abbrev quiet : Connecting → Outcome Connecting
quiet s = on_channel disable_all (record s {
  connector = record (s.connector) { queue = cancel s.state.timer s.connector.queue };
})

-- What a state is after the first steps of `finalise`.
record Quieted (s s' : Connecting) : Type 0 where
  quiet : Quiet s'
  fd : s'.state.chan.fd ≡ s.state.chan.fd
  callback : s'.state.callback ≡ s.state.callback
  calls_kept : s'.connector.calls ≡ s.connector.calls
  closed_kept : s'.connector.closed ≡ s.connector.closed
  ongoing_kept : s'.connector.ongoing ≡ s.connector.ongoing
  pool_kept : s'.connector.pool ≡ s.connector.pool
  made_kept : s'.connector.made ≡ s.connector.made
  addresses_kept : s'.connector.addresses ≡ s.connector.addresses
  map_kept : s'.connector.cycle.all_channels ≡ s.connector.cycle.all_channels

quiet-Quieted : (s : Connecting) → Waiting s → Returns (Quieted s) (quiet s)
quiet-Quieted s w =
    let (w', ew, pw) =
      Returns-value (DisablesAll (channel_of s)) (disable_all (channel_of s))
        (disable_all_lem (channel_of s) w.inv w.status) in
    rw ew (record {
      quiet = record { status = pw.status; open_fd = ground (arith, w.open_fd, pw.keeps.fd_kept) };
      fd = pw.keeps.fd_kept;
      callback = refl;
      calls_kept = refl;
      closed_kept = refl;
      ongoing_kept = refl;
      pool_kept = refl;
      made_kept = refl;
      addresses_kept = refl;
      map_kept = pw.map_kept;
    })

-- An error with which `finalise` gives no connection.
abbrev pub Failing : Error → Type 0
Failing e =
    (is_given_up e.first ≡ true) ⊎ ((e.first ≡ connect_error) × (is_positive e.second ≡ true))

-- The end of a state that failed.
pub record Failed (s s' : Connecting) : Type 0 where
  pub called : s'.connector.calls ≡ s.connector.calls ++ (s.state.callback, none) ∷ []
  pub forgotten : s'.connector.ongoing ≡ erase s.state.chan.fd s.connector.ongoing
  pub done : s'.state.finalised ≡ true
  pub socket_kept : s'.state.socket ≡ record { fd = some s.state.chan.fd }
  pub fd_kept : s'.state.chan.fd ≡ s.state.chan.fd
  pub pool_kept : s'.connector.pool ≡ s.connector.pool
  pub closed_kept : s'.connector.closed ≡ s.connector.closed
  pub map_kept : s'.connector.cycle.all_channels ≡ s.connector.cycle.all_channels

module _ (a : Allocator) (remote : InetAddr) (on_read on_write : ℕ) where
  conclude-Failing :
      (e : Error) (s : Connecting)
      → valid s.state.socket ≡ true
      → Failing e
      → conclude a remote on_read on_write e s ≡ ok (none, s)
  unfolding conclude
  conclude-Failing e s v h = ground arith

  pub finalise-Failed :
      (e : Error) (s : Connecting)
      → Waiting s
      → Failing e
      → Returns (Failed s) (finalise a remote on_read on_write e s)
  unfolding finalise valid
  finalise-Failed e s w h =
      let (q, eq, pq) = Returns-value (Quieted s) (quiet s) (quiet-Quieted s w) in
      let ends = conclude-Failing e q (ground (arith, pq.quiet.open_fd)) h in
      let fd : get_fd s.state.socket ≡ s.state.chan.fd = ground (arith, w.open_fd) in
      rw (eq, ends, fd)
        (record {
          called = ground (arith, pq.calls_kept, pq.callback);
          forgotten = ground (arith, pq.ongoing_kept);
          done = refl;
          socket_kept = ground (arith, pq.fd, pq.quiet.open_fd);
          fd_kept = pq.fd;
          pool_kept = pq.pool_kept;
          closed_kept = pq.closed_kept;
          map_kept = pq.map_kept;
        })

-- What `makeTcpConnection` is given by `finalise`.
abbrev given : Connecting → ℕ → ℕ → TimerQueue → Conn → Parts
given s r w q conn = record {
  sock = s.state.socket;
  chan = channel_of s;
  conn = conn;
  read_timer = r;
  write_timer = w;
  queue = q;
  pool = s.connector.pool;
}

-- The new connection of a state that succeeded.
abbrev pub conn_of : InetAddr → Connecting → Conn
conn_of remote s = record { index = s.connector.addresses; remote_addr = remote }

-- The state's socket and channel live on in the connection that was made and put into the pool.
pub record HandedOver (remote : InetAddr) (s : Connecting) (r : Conn × Connecting) : Type 0 where
  pub conn : r.0 ≡ conn_of remote s
  pub made :
      (t : TcpConnection) × (r.1.connector.made ≡ s.connector.made ++ t ∷ [])
      × (t.connfd ≡ s.state.socket)
  pub pooled :
      Updates s.connector.pool (conn_of remote s) (some (conn_of remote s)) r.1.connector.pool
  pub emptied : r.1.state.socket ≡ record { fd = none }
  pub fd_kept : r.1.state.chan.fd ≡ s.state.chan.fd
  pub callback_kept : r.1.state.callback ≡ s.state.callback
  pub calls_kept : r.1.connector.calls ≡ s.connector.calls
  pub closed_kept : r.1.connector.closed ≡ s.connector.closed
  pub ongoing_kept : r.1.connector.ongoing ≡ s.connector.ongoing

-- The connection's place in the pool is free.
abbrev pub Placeable : InetAddr → Connecting → Type 0
Placeable remote s =
    find s.connector.pool (group_index (conn_of remote s)) s.connector.addresses ≡ none

module _ (a : Allocator) (remote : InetAddr) (on_read on_write : ℕ) where
  hand_over-HandedOver :
      (s : Connecting)
      → Quiet s
      → Placeable remote s
      → Returns (HandedOver remote s) (hand_over a remote on_read on_write s)
  unfolding hand_over move_from valid
  hand_over-HandedOver s k free =
      let ((w, q₁), e₁, p₁) =
        Returns-value (Fresh s.connector.queue) (new_timer s.connector.queue)
          (new_timer-Fresh s.connector.queue) in
      let ((r, q₂), e₂, p₂) = Returns-value (Fresh q₁) (new_timer q₁) (new_timer-Fresh q₁) in
      let conn = conn_of remote s in
      let parts = given s r w q₂ conn in
      let (t, et, pt) = Returns-value (Made parts) (make_tcp_connection a on_read on_write parts) (
        make_tcp_connection-Made a on_read on_write parts (ground (arith, k.open_fd))
          (ground (arith, k.status))) in
      let (p, ep, pp) =
        Returns-value (Updates s.connector.pool conn (some conn))
          (add_tcp_connection s.connector.pool conn)
          (add_tcp_connection-Updates s.connector.pool conn free) in
      rw (e₁, e₂, et, ep)
        (record {
          conn = refl;
          made = (t, refl, pt.socket_kept);
          pooled = pp;
          emptied = refl;
          fd_kept = refl;
          callback_kept = refl;
          calls_kept = refl;
          closed_kept = refl;
          ongoing_kept = refl;
        })

-- The end of a state that succeeded.
pub record Succeeded (remote : InetAddr) (s s' : Connecting) : Type 0 where
  pub called :
      s'.connector.calls ≡ s.connector.calls ++ (s.state.callback, some (conn_of remote s)) ∷ []
  pub made :
      (t : TcpConnection) × (s'.connector.made ≡ s.connector.made ++ t ∷ [])
      × (t.connfd ≡ record { fd = some s.state.chan.fd })
  pub pooled :
      Updates s.connector.pool (conn_of remote s) (some (conn_of remote s)) s'.connector.pool
  pub forgotten : s'.connector.ongoing ≡ erase s.state.chan.fd s.connector.ongoing
  pub done : s'.state.finalised ≡ true
  pub emptied : s'.state.socket ≡ record { fd = none }
  pub fd_kept : s'.state.chan.fd ≡ s.state.chan.fd
  pub closed_kept : s'.connector.closed ≡ s.connector.closed

-- The branch of `finalise` for a connection.
record Concluded (remote : InetAddr) (s : Connecting) (r : Option Conn × Connecting) : Type 0 where
  conn : r.0 ≡ some (conn_of remote s)
  handed : HandedOver remote s (conn_of remote s, r.1)

module _ (a : Allocator) (remote : InetAddr) (on_read on_write : ℕ) where
  conclude-Concluded :
      (s : Connecting)
      → Quiet s
      → Placeable remote s
      → Returns (Concluded remote s) (conclude a remote on_read on_write (error no_error success) s)
  unfolding conclude valid
  conclude-Concluded s k free =
      let ((conn, t), et, pt) =
        Returns-value (HandedOver remote s) (hand_over a remote on_read on_write s)
          (hand_over-HandedOver a remote on_read on_write s k free) in
      let open_fd : is_valid s.state.socket.fd ≡ true = ground (arith, k.open_fd) in
      rw (open_fd, et)
        (record {
          conn = ap some pt.conn;
          handed = record {
            conn = refl;
            made = pt.made;
            pooled = pt.pooled;
            emptied = pt.emptied;
            fd_kept = pt.fd_kept;
            callback_kept = pt.callback_kept;
            calls_kept = pt.calls_kept;
            closed_kept = pt.closed_kept;
            ongoing_kept = pt.ongoing_kept;
          };
        })

  -- The parts of `finalise` together.
  succeeded :
      (s q : Connecting) (r : Option Conn × Connecting)
      → Quieted s q
      → Concluded remote q r
      → Succeeded remote s (record {
        connector =
            call r.1.state.callback r.0
              (record (r.1.connector) { ongoing = erase s.state.chan.fd r.1.connector.ongoing });
        state = record (r.1.state) { finalised = true };
      })
  succeeded s q r pq pr =
      let h = pr.handed in
      let same : conn_of remote q ≡ conn_of remote s =
        ap (λ i. record { index = i; remote_addr = remote }) pq.addresses_kept in
      let (t, made, took) = h.made in
      record {
        called = cc (pr.conn, same, h.calls_kept, pq.calls_kept, h.callback_kept, pq.callback);
        made = (t, cc (made, pq.made_kept), cc (took, pq.quiet.open_fd, pq.fd));
        pooled =
            subst (λ p. Updates p (conn_of remote s) (some (conn_of remote s)) r.1.connector.pool)
              pq.pool_kept
              (subst (λ k. Updates q.connector.pool k (some k) r.1.connector.pool) same h.pooled);
        forgotten = cc (h.ongoing_kept, pq.ongoing_kept);
        done = refl;
        emptied = h.emptied;
        fd_kept = h.fd_kept ∙ pq.fd;
        closed_kept = h.closed_kept ∙ pq.closed_kept;
      }

  pub finalise-Succeeded :
      (s : Connecting)
      → Waiting s
      → Placeable remote s
      → Returns (Succeeded remote s) (finalise a remote on_read on_write (error no_error success) s)
  unfolding finalise
  finalise-Succeeded s w free =
      let (q, eq, pq) = Returns-value (Quieted s) (quiet s) (quiet-Quieted s w) in
      let same : conn_of remote q ≡ conn_of remote s =
        ap (λ i. record { index = i; remote_addr = remote }) pq.addresses_kept in
      let placeable : Placeable remote q =
        ground (arith, same, pq.pool_kept, pq.addresses_kept, free) in
      let ((conn, t), et, pt) =
        Returns-value (Concluded remote q)
          (conclude a remote on_read on_write (error no_error success) q)
          (conclude-Concluded q pq.quiet placeable) in
      let fd : get_fd s.state.socket ≡ s.state.chan.fd = ground (arith, w.open_fd) in
      rw (eq, et, fd) (succeeded s q (conn, t) pq pt)
