-- ===== src/Listener/Tests.antt =====
-- A listener on descriptor 3, and a connection of it that is kept.
use musketeer.Prelude.{
  ◌+◌, ◌≡◌, refl, inl, inr, true, false, [], ◌∷◌, none, some, arith, ok, fault, assertion, Returns,
  ◌>>=◌,
}
use musketeer.Prelude.Int.{pos}
use musketeer.Prelude.Assoc.{lookup}
use musketeer.Errors.{
  done, error, no_error, read_peer_closed, connect_error, read_timedout, success, ebadf,
  errno_ignorable,
}
use musketeer.InetAddr.{to_numeric}
use musketeer.Buffer.{Buffer}
use musketeer.Buffer.Bounds.{IsValid}
use musketeer.Buffer.Append.{Appends}
use musketeer.Pool.View.{find}
use musketeer.Utilities.{read_bytes, read_failed}
use musketeer.Channel.{Cycle}
use musketeer.Pool.{group_index}
use musketeer.Socket.{valid}
use musketeer.Timers.{init}
use musketeer.TcpConnection.{TcpConnection, established, closed, handle_read, handle_read_timedout}
use musketeer.TcpConnection.Closing.{Live, Closed}
use musketeer.Listener.{destroy, Listener, construct, listen, handle_accept, handle_keepalived_read}
use musketeer.Socket
use musketeer.Listener.Starting.{Listening, Untouched, construct-listen}
use musketeer.Listener.Refusing.{handle_accept-Refused}
use musketeer.Listener.Accepting.{Accepted, handle_accept-Accepted, handle_accept-Listening}
use musketeer.Listener.Retained.{Kept, Tells, handle_keepalived_read_lem}
use musketeer.Listener.Samples.{exact, far, server, server-Listening, server-Room, no_connections}

abbrev idle_cycle : Cycle
idle_cycle = record { all_channels = []; ctl = []; stop = false }

construct-listen_example :
    Returns
      (λ l. Listening l × (l.chan.fd ≡ 3) × Untouched l)
      (construct (done 3) true 10 (λ i. true) idle_cycle (init 2) 1 >>= listen (done 0))
unfolding lookup
construct-listen_example = construct-listen 3 0 10 1 (λ i. true) idle_cycle (init 2) refl

-- With no room at all.
abbrev full : Listener
full = record server { limit = 0 }

handle_accept-Refused_example :
    handle_accept exact far far 20 21 (done 5) full ≡ ok (record full { closed = 5 ∷ [] })
unfolding valid
handle_accept-Refused_example =
    handle_accept-Refused exact far far 20 21 (done 5) full refl (omega (arith, no_connections))

handle_accept-Accepted_example :
    Returns (Accepted exact far 5 server) (handle_accept exact far far 20 21 (done 5) server)
handle_accept-Accepted_example =
    handle_accept-Accepted exact far far 20 21 5 server server-Listening server-Room
      (omega (arith, no_connections))

handle_accept-Listening_example :
    Returns Listening (handle_accept exact far far 20 21 (done 5) server)
handle_accept-Listening_example =
    handle_accept-Listening exact far far 20 21 (done 5) server server-Listening server-Room

-- Five bytes in ten, and a connection that its peer has closed while nobody used it.
abbrev five : Buffer
five = record {
  vec = record { size = 10; cap = 10; mem = λ i. i + 1 };
  capacity = 10;
  avail_start = 3;
  avail_end = 8;
}

abbrev kept : TcpConnection
kept = record {
  connfd = record { fd = some 5 };
  channel = record {
    cycle = record { all_channels = (5, 1) ∷ []; ctl = []; stop = false };
    chan = record (server.chan) { fd = 5 };
    id = 1;
  };
  active = false;
  status = established;
  saved_errno = success;
  read_available_callback = true;
  write_finished_callback = false;
  write_buf_chain = five ∷ [];
  read_buf = five;
  read_timer = 0;
  write_timer = 1;
  queue = init 2;
  pool = record {
    connections_number = pos 1;
    connections = (65538, (10, record { index = 10; remote_addr = far }) ∷ []) ∷ [];
    active = λ i. false;
  };
  self = record { index = 10; remote_addr = far };
  calls = [];
}

kept-Live : Live kept
unfolding lookup valid group_index to_numeric
kept-Live = record {
  channel_inv = record { interest = inr (inl refl); watched = refl; mapped = refl };
  registered = λ e. cc;
  open_fd = refl;
  pooled = refl;
}

five-IsValid : IsValid five
five-IsValid = omega arith

kept-Kept : Kept kept
kept-Kept = record {
  reads = record {
    live = kept-Live;
    is_open = refl;
    reading = refl;
    buffer = five-IsValid;
    callback = refl;
  };
  idle = refl;
  some_room = omega arith;
}

-- Two bytes come, or nothing more, or an error, or it takes too long.
handle_keepalived_read_lem_example :
    Returns
      (Tells
        (error no_error success)
        (λ t'.
          (handle_keepalived_read (error no_error success) t' server
            ≡ ok (record t' { active = true }, record server { calls = kept.self ∷ [] }))
          × (t'.status ≡ established)
          × Appends five (7 ∷ 8 ∷ []) t'.read_buf)
        kept)
      (handle_read (read_bytes (7 ∷ 8 ∷ [])) kept)
    × Returns
        (Tells
          (error read_peer_closed success)
          (λ t'.
            Returns
              (λ (t'', l'). Closed t' t'' × (l' ≡ server))
              (handle_keepalived_read (error read_peer_closed success) t' server))
          kept)
        (handle_read (read_bytes []) kept)
    × Returns
        (Tells
          (error connect_error ebadf)
          (λ t'.
            (handle_keepalived_read (error connect_error ebadf) t' server ≡ ok (t', server))
            × (t'.status ≡ closed)
            × (find t'.pool (group_index kept.self) 10 ≡ none))
          kept)
        (handle_read (read_failed ebadf) kept)
    × Returns
        (Tells
          (error read_timedout success)
          (λ t'. handle_keepalived_read (error read_timedout success) t' server ≡ fault assertion)
          kept)
        (handle_read_timedout kept)
unfolding errno_ignorable
handle_keepalived_read_lem_example =
    handle_keepalived_read_lem kept server 7 (8 ∷ []) ebadf kept-Kept refl refl (omega arith) refl

destroys : destroy server ≡ ok (some 3)
unfolding destroy valid Socket.destroy
destroys = refl
