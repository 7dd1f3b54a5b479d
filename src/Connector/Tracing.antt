-- ===== src/Connector/Tracing.antt =====
-- net/Connector.cpp, the constructor of ConnectState, `trace`, and `Connect` of a connection that the
-- kernel has started.
use musketeer.Prelude.{
  ℕ, ◌+◌, ◌≤◌, ◌≡◌, ◌∙◌, refl, true, false, none, some, length, arith, ok, ltb, Returns,
  Returns-value, ◌==◌,
}
use musketeer.Prelude.Int.{pos}
use musketeer.Prelude.Assoc.{lookup, insert, lookup-insert}
use musketeer.Errors.{SysResult, done}
use musketeer.InetAddr.{InetAddr}
use musketeer.Buffer.Alloc.{Allocator}
use musketeer.Channel.{
  Watched, removed, set, make, register, enable_writing, put_callback, error_handler, write_handler,
}
use musketeer.Channel.Events.{has, cwevent}
use musketeer.Channel.Lifecycle.{Inv, put_callback-Inv}
use musketeer.Channel.Calls.{Registered, register_lem, EnablesWriting, enable_writing_lem}
use musketeer.Timers.{new_timer}
use musketeer.Timers.Handles.{Fresh, new_timer-Fresh}
use musketeer.Pool.{get_conn_number}
use musketeer.Socket.{Socket, valid, new_socket}
use musketeer.Socket
use musketeer.Connector.{
  Connector, ConnectState, Connecting, construct, trace, check, release, connect, connected,
  is_some,
}

-- The channel of a state, in the cycle of its connector.
abbrev pub channel_of : Connecting → Watched
channel_of s = record { cycle = s.connector.cycle; chan = s.state.chan; id = s.state.chan_id }

-- A new state over the descriptor `n`; the connector is as before but for the cycle and the queue.
pub record Built (n cb : ℕ) (c : Connector) (s : Connecting) : Type 0 where
  pub inv : Inv (channel_of s)
  pub status : s.state.chan.status ≡ removed
  pub idle : s.state.chan.events ≡ 0
  pub id : s.state.chan_id ≡ c.addresses
  pub drawn : new_timer c.queue ≡ ok (s.state.timer, s.connector.queue)
  pub fd : s.state.chan.fd ≡ n
  pub socket : s.state.socket ≡ record { fd = some n }
  pub callback : s.state.callback ≡ cb
  pub working : s.state.finalised ≡ false
  pub fresh : s.state.retries ≡ 0
  pub once : (s.connector.queue.pool s.state.timer).repeated ≡ false
  pub unset : (s.connector.queue.pool s.state.timer).set ≡ false
  pub timers_kept : s.connector.queue.timers_set ≡ c.queue.timers_set
  pub reads_kept : s.connector.queue.reads ≡ c.queue.reads
  pub calls_kept : s.connector.calls ≡ c.calls
  pub closed_kept : s.connector.closed ≡ c.closed
  pub ongoing_kept : s.connector.ongoing ≡ c.ongoing
  pub pool_kept : s.connector.pool ≡ c.pool
  pub limit_kept : s.connector.limit ≡ c.limit

pub construct-Built :
    (n cb : ℕ) (c : Connector)
    → lookup n c.cycle.all_channels ≡ none
    → Returns (Built n cb c) (construct (record { fd = some n }) cb c)
unfolding construct make
construct-Built n cb c free =
    let ((i, q), et, pt) =
      Returns-value (Fresh c.queue) (new_timer c.queue) (new_timer-Fresh c.queue) in
    let (w, ew, pw) =
      Returns-value (Registered c.cycle c.addresses n) (register (make c.cycle c.addresses n))
        (register_lem c.cycle c.addresses n free) in
    rw (et, ew)
      (record {
        inv = pw.inv;
        status = pw.status;
        idle = pw.idle;
        id = pw.keeps.id_kept;
        drawn = et;
        fd = pw.keeps.fd_kept;
        socket = refl;
        callback = refl;
        working = refl;
        fresh = refl;
        once = pt.once;
        unset = pt.unset;
        timers_kept = pt.set_kept;
        reads_kept = pt.reads_kept;
        calls_kept = refl;
        closed_kept = refl;
        ongoing_kept = refl;
        pool_kept = refl;
        limit_kept = refl;
      })

-- A state that waits for its socket: its channel waits for writing and nothing else.
pub record Waiting (s : Connecting) : Type 0 where
  pub inv : Inv (channel_of s)
  pub status : s.state.chan.status ≡ set
  pub writing : has s.state.chan.events cwevent ≡ true
  pub write_callback : s.state.chan.write_callback ≡ true
  pub error_callback : s.state.chan.error_callback ≡ true
  pub working : s.state.finalised ≡ false
  pub open_fd : s.state.socket ≡ record { fd = some s.state.chan.fd }

-- What `trace` does to a new state, and what it leaves.
pub record Traced (s s' : Connecting) : Type 0 where
  pub waiting : Waiting s'
  pub fd : s'.state.chan.fd ≡ s.state.chan.fd
  pub callback : s'.state.callback ≡ s.state.callback
  pub calls_kept : s'.connector.calls ≡ s.connector.calls
  pub closed_kept : s'.connector.closed ≡ s.connector.closed
  pub ongoing_kept : s'.connector.ongoing ≡ s.connector.ongoing
  pub pool_kept : s'.connector.pool ≡ s.connector.pool
  pub queue_kept : s'.connector.queue ≡ s.connector.queue

-- The channel with the two callbacks that `trace` sets.
abbrev armed : Watched → Watched
armed w = put_callback error_handler true (put_callback write_handler true w)

armed-Inv : (w : Watched) → Inv w → Inv (armed w)
armed-Inv w v =
    put_callback-Inv error_handler true (put_callback write_handler true w)
      (put_callback-Inv write_handler true w v)

pub trace-Traced :
    (time : ℕ → ℕ) (n cb : ℕ) (c : Connector) (s : Connecting)
    → Built n cb c s
    → Returns (Traced s) (trace time s)
unfolding trace put_callback
trace-Traced time n cb c s b =
    let w = armed (channel_of s) in
    let (w', ew, pw) =
      Returns-value (EnablesWriting w) (enable_writing w)
        (enable_writing_lem w (armed-Inv (channel_of s) b.inv) b.status b.idle refl) in
    rw (b.once, ew)
      (record {
        waiting = record {
          inv = pw.inv;
          status = pw.status;
          writing = pw.writing;
          write_callback = pw.keeps.write_callback_kept;
          error_callback = pw.keeps.error_callback_kept;
          working = b.working;
          open_fd = ground (arith, b.socket, b.fd, pw.keeps.fd_kept);
        };
        fd = pw.keeps.fd_kept;
        callback = refl;
        calls_kept = refl;
        closed_kept = refl;
        ongoing_kept = refl;
        pool_kept = refl;
        queue_kept = refl;
      })

-- What `Connect` leaves of a connection that the kernel has started: the state in the map, waiting.
pub record Started (n cb : ℕ) (c c' : Connector) : Type 0 where
  pub state : ConnectState
  pub shared : lookup n c'.ongoing ≡ some state
  pub waiting : Waiting (record { connector = c'; state = state })
  pub fd : state.chan.fd ≡ n
  pub callback : state.callback ≡ cb
  pub calls_kept : c'.calls ≡ c.calls
  pub closed_kept : c'.closed ≡ c.closed
  pub pool_kept : c'.pool ≡ c.pool
  pub others_kept : (k : ℕ) → (n == k) ≡ false → lookup k c'.ongoing ≡ lookup k c.ongoing

module _ (a : Allocator) (remote : InetAddr) (on_read on_write : ℕ) (time : ℕ → ℕ)
    (on_timedout : ℕ) where
  -- `Connect` within the limit, on a descriptor that neither the cycle nor the connector knows and
  -- with an errno that tells that the connection has started: the new state is found under the
  -- descriptor, waits for it to be writable with both callbacks set, and holds the application's
  -- callback; nobody is called, no descriptor is closed, and the pool and the other states are as
  -- before.
  pub connect-Started :
      (n : ℕ) (res : SysResult) (cb : ℕ) (c : Connector)
      → get_conn_number c.pool + length c.ongoing + 1 ≤ c.limit
      → (Socket.connect res).0 ≡ pos 1
      → lookup n c.cycle.all_channels ≡ none
      → lookup n c.ongoing ≡ none
      → Returns
          (Started n cb c)
          (connect a remote on_read on_write time on_timedout (done n) res cb c)
  unfolding connect connected check release new_socket valid
  connect-Started n res cb c room started free new =
      let within : ltb c.limit (get_conn_number c.pool + length c.ongoing + 1) ≡ false =
        ground arith in
      let (s, es, b) =
        Returns-value (Built n cb c) (construct (record { fd = some n }) cb c)
          (construct-Built n cb c free) in
      let (t, et, p) = Returns-value (Traced s) (trace time s) (trace-Traced time n cb c s b) in
      let fd : t.state.chan.fd ≡ n = p.fd ∙ b.fd in
      let kept : is_some (lookup t.state.chan.fd (insert n t.state t.connector.ongoing)) ≡ true =
        ground (arith, fd, lookup-insert n n t.state t.connector.ongoing) in
      let m = insert n t.state t.connector.ongoing in
      rw (within, started, es, b.socket, b.ongoing_kept, new, et, kept)
        (record {
          state = t.state;
          shared = ground (arith, fd, lookup-insert t.state.chan.fd n t.state m);
          waiting = record {
            inv = p.waiting.inv;
            status = p.waiting.status;
            writing = p.waiting.writing;
            write_callback = p.waiting.write_callback;
            error_callback = p.waiting.error_callback;
            working = p.waiting.working;
            open_fd = p.waiting.open_fd;
          };
          fd = fd;
          callback = p.callback ∙ b.callback;
          calls_kept = p.calls_kept ∙ b.calls_kept;
          closed_kept = p.closed_kept ∙ b.closed_kept;
          pool_kept = p.pool_kept ∙ b.pool_kept;
          others_kept = λ k d. ground (
            arith,
            fd,
            p.ongoing_kept,
            b.ongoing_kept,
            lookup-insert t.state.chan.fd k t.state m,
            lookup-insert n k t.state t.connector.ongoing,
          );
        })
