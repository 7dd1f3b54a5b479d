-- ===== src/Connector.antt =====
-- net/Connector.h and net/Connector.cpp: connections on their way, each a ConnectState that waits for
-- the socket, tries again, and at last calls the application. The worker's cycle and timer queue are
-- parts of the connector here. An object goes by a number, which stands for its address.
pub mod Keepalive
pub mod Refusals
pub mod Answers
pub mod Tracing
pub mod Finishing
pub mod Delivery
pub mod Lost
pub mod Counting
pub mod Steps
pub mod Histories
mod Tests
use musketeer.Prelude.{
  ℕ, zero, suc, ◌+◌, ◌^◌, ◌-◌, Bool, true, false, not, ◌&&◌, List, [], ◌∷◌, ◌++◌, length, ltb, ◌==◌,
  Option, none, some, Outcome, ok, fault, ◌>>=◌, ◌>>◌, assert, if◌then◌else◌,
}
use musketeer.Prelude.Int.{ℤ, pos, negsuc}
use musketeer.Prelude.Assoc.{lookup, insert, erase}
use musketeer.Errors.{
  Error, Errno, ErrorType, success, error, no_error, connect_error, connect_timedout,
  connect_retry_overlimit, is_no_error, is_positive, SysResult,
}
use musketeer.InetAddr.{InetAddr}
use musketeer.Buffer.Alloc.{Allocator}
use musketeer.Channel.{
  Channel, Cycle, Watched, make, register, enable_writing, disable_all, put_callback, error_handler,
  write_handler,
}
use musketeer.Channel
use musketeer.WeakCallback.{invoke}
use musketeer.Socket.{Socket, valid, new_socket, move_from}
use musketeer.Socket
use musketeer.Timers.{
  TimerQueue, new_timer, return_timer, update, update_by, add, cancel, reset, set_repeated,
}
use musketeer.Pool.{Pool, Conn, get_conn_number, add_tcp_connection}
use musketeer.TcpConnection.{TcpConnection}
use musketeer.TcpConnection.Making.{Parts, make_tcp_connection}

-- `ConnectState`. `moved` tells that `socket` and `channel` were moved from.
pub record ConnectState : Type 0 where
  pub timer : ℕ
  pub socket : Socket
  pub chan : Channel
  pub chan_id : ℕ
  pub callback : ℕ
  pub moved : Bool
  pub finalised : Bool
  pub retries : ℕ

-- `Connector`, a TcpConnectionCreator, over the cycle and the timers of its worker. `addresses` counts
-- the objects made, `calls` are those of the application, with `none` for `nullptr`, and `closed` the
-- descriptors handed to `::close`.
pub record Connector : Type 0 where
  pub limit : ℕ
  pub pool : Pool
  pub ongoing : List (ℕ × ConnectState)
  pub cycle : Cycle
  pub queue : TimerQueue
  pub addresses : ℕ
  pub made : List TcpConnection
  pub calls : List (ℕ × Option Conn)
  pub closed : List ℕ

-- A state at work on its connector.
pub record Connecting : Type 0 where
  pub connector : Connector
  pub state : ConnectState

-- `Getfd`, with the bits of -1 for no descriptor.
abbrev pub get_fd : Socket → ℕ
get_fd s = elim s.fd [ none ↦ 2 ^ 32 - 1 | some n ↦ n ]

abbrev pub is_some {ℓ} : {A : Type ℓ} → Option A → Bool
is_some none = false
is_some (some a) = true

abbrev pub closing : Option ℕ → List ℕ → List ℕ
closing none fds = fds
closing (some n) fds = fds ++ n ∷ []

-- A call on the state's channel.
abbrev pub on_channel : (Watched → Outcome Watched) → Connecting → Outcome Connecting
on_channel f s = do
  w ← f (record { cycle = s.connector.cycle; chan = s.state.chan; id = s.state.chan_id })
  ok (record {
    connector = record (s.connector) { cycle = w.cycle };
    state = record (s.state) { chan = w.chan; chan_id = w.id };
  })

abbrev pub with_queue : TimerQueue → Connecting → Connecting
with_queue q s = record s { connector = record (s.connector) { queue = q } }

-- `callback(conn)`
abbrev pub call : ℕ → Option Conn → Connector → Connector
call cb conn c = record c { calls = c.calls ++ (cb, conn) ∷ [] }

-- `ConnectState(Socket, TcpConnectionCallback, Connector*)`
pub construct : Socket → ℕ → Connector → Outcome Connecting
construct sock cb c = do
  (i, q) ← new_timer c.queue
  w ← register (make c.cycle c.addresses (get_fd sock))
  ok (record {
    connector = record c { cycle = w.cycle; queue = q; addresses = c.addresses + 1 };
    state = record {
      timer = i;
      socket = sock;
      chan = w.chan;
      chan_id = w.id;
      callback = cb;
      moved = false;
      finalised = false;
      retries = 0;
    };
  })

-- `~ConnectState`: the descriptor is closed and the timer returned; the map of the cycle shares the
-- channel, which lives on there.
pub destroy : Connecting → Connector
destroy s = record (s.connector) {
  queue = return_timer s.state.timer s.connector.queue;
  closed = closing (Socket.destroy s.state.socket) s.connector.closed;
}

module _ (time : ℕ → ℕ) where
  -- The timer's part of `trace`.
  stop_repeating : ℕ → TimerQueue → Outcome TimerQueue
  stop_repeating i q = if (q.pool i).repeated then update time i (set_repeated i false q) else ok q

  -- `trace`
  pub trace : Connecting → Outcome Connecting
  unfolding stop_repeating
  trace s = do
    s' ←
        on_channel (λ w. ok (put_callback error_handler true (put_callback write_handler true w))) s
    q ← stop_repeating s.state.timer s'.connector.queue
    on_channel enable_writing (with_queue q s')

abbrev pub is_given_up : ErrorType → Bool
is_given_up connect_retry_overlimit = true
is_given_up connect_timedout = true
is_given_up _ = false

abbrev pub is_connect_error : ErrorType → Bool
is_connect_error connect_error = true
is_connect_error _ = false

-- What `GetRemoteAddr` gives, and the callbacks of a connection's timers, are parameters.
module _ (a : Allocator) (remote : InetAddr) (on_read on_write : ℕ) where
  -- `makeTcpConnection` with two new timers, the last argument first, and `AddTcpConnection`.
  pub hand_over : Connecting → Outcome (Conn × Connecting)
  hand_over s = do
    let c = s.connector
    (w, q₁) ← new_timer c.queue
    (r, q₂) ← new_timer q₁
    let (sock, old) = move_from s.state.socket
    let conn : Conn = record { index = c.addresses; remote_addr = remote }
    t ← make_tcp_connection a on_read on_write (record {
      sock = sock;
      chan = record { cycle = c.cycle; chan = s.state.chan; id = s.state.chan_id };
      conn = conn;
      read_timer = r;
      write_timer = w;
      queue = q₂;
      pool = c.pool;
    })
    p ← add_tcp_connection c.pool conn
    ok (
      conn,
      record {
        connector = record c {
          cycle = t.channel.cycle;
          queue = t.queue;
          pool = p;
          addresses = c.addresses + 1;
          made = c.made ++ t ∷ [];
        };
        state = record (s.state) { socket = old; moved = true };
      },
    )

  -- The branches of `finalise`. Each warning asks the socket for its address.
  conclude : Error → Connecting → Outcome (Option Conn × Connecting)
  unfolding hand_over
  conclude e s =
      if is_given_up e.first
      then assert (valid s.state.socket) >> ok (none, s)
      else (if is_connect_error e.first
          then assert (is_positive e.second) >> assert (valid s.state.socket) >> ok (none, s)
          else (assert (is_no_error e.first && not (is_positive e.second))
              >> assert (valid s.state.socket)
              >> hand_over s
              >>= λ (conn, s'). ok (some conn, s')))

  -- `finalise`
  pub finalise : Error → Connecting → Outcome Connecting
  unfolding conclude
  finalise e s = do
    let fd = get_fd s.state.socket
    let s₁ = with_queue (cancel s.state.timer s.connector.queue) s
    s₂ ← on_channel disable_all s₁
    (conn, s₃) ← conclude e s₂
    let c = s₃.connector
    ok (record {
      connector = call s₃.state.callback conn (record c { ongoing = erase fd c.ongoing });
      state = record (s₃.state) { finalised = true };
    })

  module _ (time : ℕ → ℕ) (on_timedout : ℕ) where
    -- The timer's part of `retry`.
    start_repeating : ℕ → ℕ → TimerQueue → Outcome TimerQueue
    start_repeating i msec q =
        if (q.pool i).repeated
        then ok q
        else add time i (update_by time i msec (reset i (some on_timedout) true q))

    -- `retry`
    pub retry : ℕ → Connecting → Outcome Connecting
    unfolding start_repeating
    retry msec s =
        let n = s.state.retries + 1 in
        let s' = record s { state = record (s.state) { retries = n } } in
        if ltb 3 n
        then finalise (error connect_retry_overlimit success) s'
        else (start_repeating s.state.timer msec s.connector.queue >>= λ q. ok (with_queue q s'))

    -- `Check`. The map shares the state, so that it holds what `trace` makes of it.
    pub check : ℤ → Connecting → Outcome Connecting
    unfolding retry
    check (negsuc n) s = assert false >> ok s
    check (pos zero) s = retry 10 s
    check (pos (suc n)) s = do
      let fd = get_fd s.state.socket
      assert (not (is_some (lookup fd s.connector.ongoing)))
      s' ← trace time s
      ok (record s' {
        connector = record (s'.connector) { ongoing = insert fd s'.state s'.connector.ongoing };
      })

    -- `handleWrite`, with what `GetError` returns.
    pub handle_write : Errno → Connecting → Outcome Connecting
    handle_write e s =
        if s.state.finalised
        then ok s
        else (assert (valid s.state.socket)
            >> finalise (if is_positive e then error connect_error e else error no_error success) s)

    -- `handleError`
    pub handle_error : Errno → Connecting → Outcome Connecting
    handle_error e s =
        if s.state.finalised
        then ok s
        else (assert (valid s.state.socket)
            >> assert (is_positive e)
            >> finalise (error connect_error e) s)

    -- What `handleTimedout` does after it connected again.
    after_again : ℤ × Error → Connecting → Outcome Connecting
    after_again (negsuc n, e) s =
        assert (is_connect_error e.first && is_positive e.second) >> finalise e s
    after_again (pos n, e) s = check (pos n) s

    -- `handleTimedout`, with what `::connect` returns.
    pub handle_timedout : SysResult → Connecting → Outcome Connecting
    unfolding after_again
    handle_timedout res s =
        if s.state.finalised
        then ok s
        else (if ltb 0 s.state.retries
            then assert (valid s.state.socket) >> after_again (Socket.connect res) s
            else finalise (error connect_timedout success) s)

    -- The last reference to a state goes, or the map still shares it.
    pub release : Connecting → Connector
    release s =
        let c = s.connector in
        if is_some (lookup s.state.chan.fd c.ongoing)
        then record c { ongoing = insert s.state.chan.fd s.state c.ongoing }
        else destroy s

    -- An event or a timeout for the state of a descriptor, by a WeakCallback, which calls only what still lives.
    pub deliver : (Connecting → Outcome Connecting) → ℕ → Connector → Outcome Connector
    unfolding invoke
    deliver f fd =
        invoke (λ c. lookup fd c.ongoing)
          λ st c. f (record { connector = c; state = st }) >>= λ s. ok (release s)

    -- The end of `Connect`. The new socket is closed where no state takes it.
    connected : Socket → ℕ → ℤ × Error → Connector → Outcome Connector
    connected sock cb (negsuc n, e) c =
        assert (is_positive e.second)
        >> ok (record (call cb none c) { closed = closing (Socket.destroy sock) c.closed })
    connected sock cb (pos n, e) c = do
      s ← construct sock cb c
      s' ← check (pos n) s
      ok (release s')

    -- `Connect`, with what `socket` and `::connect` return.
    pub connect : SysResult → SysResult → ℕ → Connector → Outcome Connector
    unfolding connected
    connect fd res cb c =
        let sock = new_socket fd in
        if not (valid sock)
        then ok (call cb none c)
        else (if ltb c.limit (get_conn_number c.pool + length c.ongoing + 1)
            then ok (record (call cb none c) { closed = closing (Socket.destroy sock) c.closed })
            else connected sock cb (Socket.connect res) c)
