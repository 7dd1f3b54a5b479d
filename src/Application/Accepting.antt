-- ===== src/Application/Accepting.antt =====
-- base/Utilities.cpp and net/Listener.cpp: what becomes of a connection from the time it is accepted until its
-- request is answered.
use mathlib.Core.Path.{subst}
use mathlib.Core.List.{append-nil}
use musketeer.Prelude.{
  ℕ, ◌+◌, ◌≤◌, ◌≡◌, refl, sym, ap, ◌∙◌, true, false, List, [], ◌∷◌, ◌++◌, length, All, arith, ◌>>=◌,
  Returns, Returns-value, Returns-mono, inr,
}
use musketeer.Errors.{done}
use musketeer.InetAddr.{InetAddr}
use musketeer.Buffer.{Buffer, contents}
use musketeer.Buffer
use musketeer.Buffer.Alloc.{Allocator}
use musketeer.Buffer.Append.{room}
use musketeer.Buffer.Bounds.{IsValid, new-IsValid}
use musketeer.Channel.Events.{has, crevent, cwevent}
use musketeer.Pool.{group_index, get_conn_number}
use musketeer.Pool.View.{find}
use musketeer.Utilities.{read_bytes}
use musketeer.Utilities.Chain.{chain_contents}
use musketeer.TcpConnection.{TcpConnection, established, is_established, set_read_callback}
use musketeer.TcpConnection.Events.{reads}
use musketeer.TcpConnection.Closing.{Live}
use musketeer.TcpConnection.Chains.{Fits}
use musketeer.TcpConnection.Waiting.{ReadSet, set_read_callback-ReadSet}
use musketeer.TcpConnection.Draining.{sum, IsPositive}
use musketeer.Listener.{Listener, handle_accept}
use musketeer.Listener.Starting.{Listening}
use musketeer.Listener.Accepting.{Room, Accepted, handle_accept-Accepted}
use musketeer.Application.{response, on_new_connection, serve_all}
use musketeer.Application.Queueing.{Takes}
use musketeer.Application.Answering.{Ended, read_ok, write_ok, writing, length-response}
use musketeer.Application.Serving.{Ready, request_answered}

-- A connection as it was made, with nothing read and nothing to write.
record Fresh (a : Allocator) (c : TcpConnection) : Type 0 where
  live : Live c
  is_open : c.status ≡ established
  idle : c.channel.chan.events ≡ 0
  read_room : c.read_buf ≡ Buffer.new a 32768
  write_room : c.write_buf_chain ≡ Buffer.new a 32768 ∷ []

module _ (a : Allocator) where
  new_valid : IsValid (Buffer.new a 32768)
  new_valid = new-IsValid a 32768 (omega arith)

  new_empty : contents (Buffer.new a 32768) ≡ []
  unfolding Buffer.new
  new_empty = refl

  new_room : room (Buffer.new a 32768) ≡ 32768
  unfolding Buffer.new
  new_room = refl

  chain_empty : chain_contents (Buffer.new a 32768 ∷ []) ≡ []
  chain_empty = append-nil (contents (Buffer.new a 32768)) ∙ new_empty

  new_chain : Fits (Buffer.new a 32768 ∷ [])
  new_chain = record {
    valid = (new_valid, tt);
    few = omega arith;
    small = omega (arith, ap length chain_empty);
  }

  new-Takes : Takes (length response) (Buffer.new a 32768 ∷ [])
  new-Takes = inr (omega (arith, length-response, new_room), refl)

  -- `onNewConnection` makes it wait for a request.
  on_new_connection-Ready :
      (time : ℕ → ℕ) (c : TcpConnection)
      → Fresh a c
      → Returns
          (λ d. Ready d × (d.read_buf ≡ c.read_buf) × (d.calls ≡ c.calls) × (d.self ≡ c.self))
          (on_new_connection a time c)
  unfolding on_new_connection
  on_new_connection-Ready time c w =
      let valid : IsValid c.read_buf = subst IsValid (sym w.read_room) new_valid in
      let whole : room c.read_buf ≡ 32768 = ap room w.read_room ∙ new_room in
      let silent : has c.channel.chan.events crevent ≡ false = rw (w.idle) refl in
      let quiet : has c.channel.chan.events cwevent ≡ false = rw (w.idle) refl in
      let up : is_established c.status ≡ true = ap is_established w.is_open in
      rw up (
        Returns-mono (ReadSet c) _ (set_read_callback time 3000 c)
          (λ d p. (
            record {
              reads_on = p.reads;
              chain = subst Fits (sym (p.chain_kept ∙ w.write_room)) new_chain;
              takes = subst (Takes (length response)) (sym (p.chain_kept ∙ w.write_room)) new-Takes;
              empty = ap chain_contents (p.chain_kept ∙ w.write_room) ∙ chain_empty;
              quiet = p.writing_kept ∙ quiet;
            },
            p.buffer_kept,
            p.untold,
            p.self_kept,
          ))
          (set_read_callback-ReadSet time 3000 c w.live w.is_open valid (omega (arith, whole))
            silent))

module _ (a : Allocator) (time : ℕ → ℕ) (remote local : InetAddr) (on_read on_write : ℕ) where
  -- A listener that listens and is within its limit accepts a connection on a descriptor that its
  -- cycle does not know, whose place in the pool is free; the application waits for a request, of
  -- at least one and at most 32768 bytes, and the kernel takes the response by any positive counts
  -- of bytes. All of it returns: the connection has told the application of the request and then of
  -- the response sent, and of nothing else, and is closed and out of the pool.
  pub accepted_answered :
      (fd : ℕ) (l : Listener) (x : ℕ) (xs : List ℕ) (n : ℕ) (ns : List ℕ)
      → Listening l
      → Room remote fd l
      → get_conn_number l.pool + 1 ≤ l.limit
      → length (x ∷ xs) ≤ 32768
      → All IsPositive (n ∷ ns)
      → sum (n ∷ ns) ≡ length response
      → Returns
          (λ l'.
            (t : TcpConnection) × (l'.made ≡ l.made ++ t ∷ [])
            × Returns (Ended (read_ok ∷ write_ok ∷ []) (record t { pool = l'.pool })) (
                on_new_connection a time (record t { pool = l'.pool }) >>= λ c.
                serve_all a time ((reads (read_bytes (x ∷ xs)), done n) ∷ writing ns) (0, c)))
          (handle_accept a remote local on_read on_write (done fd) l)
  accepted_answered fd l x xs n ns w free within h q all =
      Returns-mono (Accepted a remote fd l) _
        (handle_accept a remote local on_read on_write (done fd) l)
        (λ l' p. (p.connection, p.made, answered l' p))
        (handle_accept-Accepted a remote local on_read on_write fd l w free within)
    where
      answered :
          (l' : Listener) (p : Accepted a remote fd l l')
          → Returns (Ended (read_ok ∷ write_ok ∷ []) (record (p.connection) { pool = l'.pool })) (
              on_new_connection a time (record (p.connection) { pool = l'.pool }) >>= λ c.
              serve_all a time ((reads (read_bytes (x ∷ xs)), done n) ∷ writing ns) (0, c))
      answered l' p =
          let t : TcpConnection = record (p.connection) { pool = l'.pool } in
          let fresh : Fresh a t = record {
            live = p.live;
            is_open = p.is_open;
            idle = p.idle;
            read_room = p.read_room;
            write_room = p.write_room;
          } in
          let (c, ec, (ready, kept, untold, self)) =
            Returns-value _ (on_new_connection a time t) (on_new_connection-Ready a time t fresh) in
          let none_yet : 0 ≡ length c.calls = ap length (sym (untold ∙ p.uncalled)) in
          let roomy : room c.read_buf ≡ 32768 = ap room (kept ∙ p.read_room) ∙ new_room a in
          rw (ec, none_yet)
            (Returns-mono (Ended (read_ok ∷ write_ok ∷ []) c) _
              (serve_all a time ((reads (read_bytes (x ∷ xs)), done n) ∷ writing ns)
                (length c.calls, c))
              (λ r e. record {
                is_closed = e.is_closed;
                shut = e.shut;
                unpooled = ap (λ k. find r.1.pool (group_index k) k.index) (sym self) ∙ e.unpooled;
                told = e.told ∙ ap (λ ks. ks ++ read_ok ∷ write_ok ∷ []) untold;
                answered = e.answered;
              })
              (request_answered a time c x xs n ns ready (omega (arith, h, roomy)) q all))
