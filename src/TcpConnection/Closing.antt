-- ===== src/TcpConnection/Closing.antt =====
-- net/TcpConnection.cpp, `Close`: what is left of a connection, and that closing again does nothing.
use musketeer.Prelude.{
  ◌≡◌, ◌≢◌, refl, true, false, [], none, some, arith, ok, Returns, Returns-value, Returns-mono,
}
use musketeer.Prelude.Assoc.{lookup}
use musketeer.Errors.{Errno}
use musketeer.Channel.{Watched, new, removed}
use musketeer.Channel
use musketeer.Channel.Lifecycle.{Inv, close_lem}
use musketeer.Pool.{Pool, Conn, group_index, remove_tcp_connection}
use musketeer.Pool.View.{find, remove_tcp_connection-Updates}
use musketeer.Socket.{Socket, valid}
use musketeer.Socket
use musketeer.Socket.Outcomes
use musketeer.TcpConnection.{TcpConnection, closed, is_closed, close, close_open, handle_error}

-- A connection that is in the pool, with a registered channel and a valid descriptor.
pub record LiveOf (w : Watched) (s : Socket) (p : Pool) (k : Conn) : Type 0 where
  pub channel_inv : Inv w
  pub registered : w.chan.status ≢ new
  pub open_fd : valid s ≡ true
  pub pooled : find p (group_index k) k.index ≡ some k

abbrev pub Live : TcpConnection → Type 0
Live c = LiveOf c.channel c.connfd c.pool c.self

-- What `Close` leaves of the connection `c`.
pub record Closed (c c' : TcpConnection) : Type 0 where
  pub is_closed : c'.status ≡ closed
  pub inactive : c'.active ≡ false
  pub dropped : c'.write_buf_chain ≡ []
  pub shut : valid c'.connfd ≡ false
  pub idle : c'.channel.chan.events ≡ 0
  pub unmapped : lookup c.channel.chan.fd c'.channel.cycle.all_channels ≡ none
  pub unpooled : find c'.pool (group_index c.self) c.self.index ≡ none
  pub errno : c'.saved_errno ≡ c.saved_errno
  pub no_call : c'.calls ≡ c.calls
  pub buffer_kept : c'.read_buf ≡ c.read_buf
  pub callbacks :
      (c'.read_available_callback ≡ c.read_available_callback)
      × (c'.write_finished_callback ≡ c.write_finished_callback)

pub close_open-Closed : (c : TcpConnection) → Live c → Returns (Closed c) (close_open c)
unfolding close_open
close_open-Closed c l =
    let (w, ew, pw) =
      Returns-value _ (Channel.close c.channel) (close_lem c.channel l.channel_inv l.registered) in
    let (s, es, ps) =
      Returns-value _ (Socket.close c.connfd) (Socket.Outcomes.close_lem c.connfd l.open_fd) in
    let (p, ep, pp) =
      Returns-value _ (remove_tcp_connection c.pool c.self)
        (remove_tcp_connection-Updates c.pool c.self c.self l.pooled) in
    rw (ew, es, ep)
      (record {
        is_closed = refl;
        inactive = refl;
        dropped = refl;
        shut = ps.1;
        idle = pw.0;
        unmapped = pw.3;
        unpooled = ground (arith, pp.found (group_index c.self) c.self.index);
        errno = refl;
        no_call = refl;
        buffer_kept = refl;
        callbacks = (refl, refl);
      })

-- `Close` of a live connection that is not closed returns; the channel then waits for nothing and
-- is in no map, the descriptor is invalid, the chain empty, the connection closed, inactive and in
-- no pool, and nobody was called.
pub close-Closed :
    (c : TcpConnection) → Live c → is_closed c.status ≡ false → Returns (Closed c) (close c)
unfolding close
close-Closed c l h = rw h (close_open-Closed c l)

-- Once `Close` has returned, closing again does nothing.
pub close_twice : (c c' : TcpConnection) → close c ≡ ok c' → close c' ≡ ok c'
unfolding close close_open
close_twice c c' e = ground arith

pub close_closed : (c : TcpConnection) → c.status ≡ closed → close c ≡ ok c
unfolding close
close_closed c h = ground (arith, h)

-- `handleError` keeps the error of the socket, closes the connection and calls nobody.
pub handle_error_lem :
    (c : TcpConnection) (e : Errno)
    → Live c
    → is_closed c.status ≡ false
    → Returns
        (λ c'. (c'.saved_errno ≡ e) × (c'.status ≡ closed) × (c'.calls ≡ c.calls))
        (handle_error e c)
unfolding handle_error
handle_error_lem c e l h =
    let c₁ : TcpConnection = record c { saved_errno = e } in
    rw l.open_fd (
      Returns-mono (Closed c₁) _ (close c₁) (λ c' p. (p.errno, p.is_closed, p.no_call))
        (close-Closed c₁ l h))
