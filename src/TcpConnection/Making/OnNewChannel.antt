-- ===== src/TcpConnection/Making/OnNewChannel.antt =====
-- net/TcpConnectionCreator.cpp, `makeTcpConnection` over a socket and a channel that were just made, as
-- a listener calls it.
use musketeer.Prelude.{
  ℕ, ◌≡◌, refl, true, false, none, some, [], ◌∷◌, arith, ◌==◌, Returns, Returns-value,
}
use musketeer.Prelude.Assoc.{lookup}
use musketeer.Buffer
use musketeer.Buffer.Alloc.{Allocator}
use musketeer.Channel.{
  Cycle, removed, make, register, put_callback, error_handler, read_handler, write_handler,
}
use musketeer.Channel.Calls.{Registered, register_lem}
use musketeer.Channel.Lifecycle.{Inv, put_callback-Inv}
use musketeer.Timers.{reset}
use musketeer.Socket.{valid}
use musketeer.TcpConnection.{TcpConnection, established, initialise}
use musketeer.TcpConnection.Making.{Parts, construct, make_tcp_connection}

-- A new connection over the descriptor `fd`, whose channel it has registered.
pub record MadeNew (a : Allocator) (cy : Cycle) (id fd : ℕ) (p : Parts) (c : TcpConnection)
    : Type 0 where
  pub is_open : c.status ≡ established
  pub active : c.active ≡ true
  pub inv : Inv c.channel
  pub registered : c.channel.chan.status ≡ removed
  pub idle : c.channel.chan.events ≡ 0
  pub mapped : lookup fd c.channel.cycle.all_channels ≡ some id
  pub others_kept :
      (k : ℕ) → (k == fd) ≡ false → lookup k c.channel.cycle.all_channels ≡ lookup k cy.all_channels
  pub error_callback : c.channel.chan.error_callback ≡ true
  pub read_callback : c.channel.chan.read_callback ≡ true
  pub write_callback : c.channel.chan.write_callback ≡ true
  pub socket_kept : c.connfd ≡ p.sock
  pub fd_kept : c.channel.chan.fd ≡ fd
  pub self_kept : c.self ≡ p.conn
  pub timers_kept : c.queue.timers_set ≡ p.queue.timers_set
  pub uncalled : c.calls ≡ []
  pub read_room : c.read_buf ≡ Buffer.new a 32768
  pub write_room : c.write_buf_chain ≡ Buffer.new a 32768 ∷ []

pub make_tcp_connection-MadeNew :
    (a : Allocator) (on_read on_write : ℕ) (cy : Cycle) (id fd : ℕ) (p : Parts)
    → valid p.sock ≡ true
    → p.chan ≡ make cy id fd
    → lookup fd cy.all_channels ≡ none
    → Returns (MadeNew a cy id fd p) (make_tcp_connection a on_read on_write p)
unfolding make_tcp_connection construct initialise make reset put_callback
make_tcp_connection-MadeNew a on_read on_write cy id fd p v e free =
    let (w, ew, pw) =
      Returns-value (Registered cy id fd) (register (make cy id fd)) (register_lem cy id fd free) in
    rw (v, e, ew)
      (record {
        is_open = refl;
        active = refl;
        inv =
            put_callback-Inv write_handler true _
              (put_callback-Inv read_handler true _ (put_callback-Inv error_handler true w pw.inv));
        registered = pw.status;
        idle = pw.idle;
        mapped = ground (arith, pw.inv.mapped, pw.keeps.fd_kept, pw.keeps.id_kept, pw.status);
        others_kept = pw.keeps.others_kept;
        error_callback = refl;
        read_callback = refl;
        write_callback = refl;
        socket_kept = refl;
        fd_kept = pw.keeps.fd_kept;
        self_kept = refl;
        timers_kept = refl;
        uncalled = refl;
        read_room = refl;
        write_room = refl;
      })
