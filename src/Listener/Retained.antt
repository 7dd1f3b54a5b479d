-- ===== src/Listener/Retained.antt =====
-- net/Listener.cpp, `RetainTcpConnection` and `handleKeepalivedRead`: a connection that is kept while
-- nobody uses it, and what comes on it.
use mathlib.Core.Path.{subst}
use musketeer.Prelude.{
  ◌≡◌, refl, sym, ap, ◌∙◌, true, false, none, List, ◌∷◌, [], ◌++◌, length, arith, ok, fault,
  assertion, not, Returns, Returns-value, Returns-mono, ◌<◌, ◌≤◌, ℕ,
}
use musketeer.Errors.{
  Error, Errno, error, no_error, read_peer_closed, connect_error, read_timedout, success,
  errno_ignorable,
}
use musketeer.Buffer.Bounds.{IsValid, available_size_lem}
use musketeer.Buffer.Append.{Appends, room}
use musketeer.Channel.Events.{has, crevent}
use musketeer.Pool.{group_index}
use musketeer.Pool.View.{find}
use musketeer.Utilities.{read_bytes, read_failed}
use musketeer.TcpConnection.{
  TcpConnection, established, closed, is_closed, is_established, close, handle_read,
  handle_read_timedout, read_available, set_read_callback,
}
use musketeer.TcpConnection.Waiting.{set_read_callback_lem}
use musketeer.TcpConnection.Closing.{Live, Closed, close-Closed, close_closed}
use musketeer.TcpConnection.Reading.{
  Reads, GotData, handle_read-GotData, AtEnd, handle_read_end, ReadFails, handle_read-ReadFails,
  TimesOut, handle_read_timedout_lem,
}
use musketeer.Listener.{Listener, handle_keepalived_read, retain_tcp_connection, call}

-- A connection that is kept while nobody uses it, and waits to read.
pub record Kept (t : TcpConnection) : Type 0 where
  pub reads : Reads t
  pub idle : t.active ≡ false
  pub some_room : 0 < room t.read_buf

-- The connection told of what it read, and then of nothing else.
abbrev pub Tells : Error → (TcpConnection → Type 0) → TcpConnection → TcpConnection → Type 0
Tells e P t t' = (t'.calls ≡ t.calls ++ read_available e ∷ []) × P t'

module _ (t : TcpConnection) (l : Listener) (k : Kept t) where
  data_comes :
      (x : ℕ) (xs : List ℕ)
      → l.connected_callback ≡ true
      → length (x ∷ xs) ≤ room t.read_buf
      → Returns
          (Tells
            (error no_error success)
            (λ t'.
              (handle_keepalived_read (error no_error success) t' l
                ≡ ok (record t' { active = true }, record l { calls = l.calls ++ t.self ∷ [] }))
              × (t'.status ≡ established)
              × Appends t.read_buf (x ∷ xs) t'.read_buf)
            t)
          (handle_read (read_bytes (x ∷ xs)) t)
  unfolding handle_keepalived_read call
  data_comes x xs answered fits =
      Returns-mono (GotData (x ∷ xs) t) _ (handle_read (read_bytes (x ∷ xs)) t)
        (λ t' p.
          let at_rest : t'.active ≡ false = p.active_kept ∙ k.idle in
          (p.told, (rw (at_rest, answered, p.self_kept) refl, p.is_open, p.added)))
        (handle_read-GotData t x xs k.reads fits)

  end_comes :
      Returns
        (Tells
          (error read_peer_closed success)
          (λ t'.
            Returns
              (λ (t'', l'). Closed t' t'' × (l' ≡ l))
              (handle_keepalived_read (error read_peer_closed success) t' l))
          t)
        (handle_read (read_bytes []) t)
  unfolding handle_keepalived_read
  end_comes =
      Returns-mono (AtEnd t) _ (handle_read (read_bytes []) t)
        (λ t' p.
          let at_rest : not t'.active ≡ true = ap not (p.active_kept ∙ k.idle) in
          let ended : not (is_established t'.status) ≡ true =
            ap (λ s. not (is_established s)) p.ended in
          let (t'', e, c) =
            Returns-value (Closed t') (close t') (close-Closed t' p.live (ap is_closed p.ended)) in
          let counted =
            available_size_lem t'.read_buf (subst IsValid (sym p.buffer_kept) k.reads.buffer) in
          (p.told, rw (at_rest, counted, ended, e) (c, refl)))
        (handle_read_end t k.reads k.some_room)

  failure_comes :
      (e : Errno)
      → errno_ignorable e ≡ false
      → Returns
          (Tells
            (error connect_error e)
            (λ t'.
              (handle_keepalived_read (error connect_error e) t' l ≡ ok (t', l))
              × (t'.status ≡ closed)
              × (find t'.pool (group_index t.self) t.self.index ≡ none))
            t)
          (handle_read (read_failed e) t)
  unfolding handle_keepalived_read
  failure_comes e g =
      Returns-mono (ReadFails e t) _ (handle_read (read_failed e) t)
        (λ t' p.
          let at_rest : not t'.active ≡ true = ap not p.inactive in
          let ended : not (is_established t'.status) ≡ true =
            ap (λ s. not (is_established s)) p.is_closed in
          let counted = available_size_lem t'.read_buf p.buffer_valid in
          let shut = close_closed t' p.is_closed in
          (p.told, (rw (at_rest, counted, ended, shut) refl, p.is_closed, p.unpooled)))
        (handle_read-ReadFails t e k.reads k.some_room g)

  timeout_comes :
      t.channel.chan.read_callback ≡ true
      → Returns
          (Tells
            (error read_timedout success)
            (λ t'. handle_keepalived_read (error read_timedout success) t' l ≡ fault assertion)
            t)
          (handle_read_timedout t)
  unfolding handle_keepalived_read
  timeout_comes set =
      Returns-mono (TimesOut t) _ (handle_read_timedout t)
        (λ t' p.
          let at_rest : t'.active ≡ false = p.active_kept ∙ k.idle in
          let counted =
            available_size_lem t'.read_buf (subst IsValid (sym p.buffer_kept) k.reads.buffer) in
          (p.told, rw (at_rest, counted, p.is_open) refl))
        (handle_read_timedout_lem t k.reads set)

-- What comes on an open connection that nobody uses but that waits to read, and what
-- `handleKeepalivedRead` of a listener with a callback then does: bytes that fit go behind the
-- contents of the connection, which becomes active, and the application is called with it; the end
-- of the stream closes it, and an errno that is not ignorable has already closed it and taken it
-- out of the pool, with nobody called; a timeout for reading fails an assertion. The connection
-- itself tells of each once.
pub handle_keepalived_read_lem :
    (t : TcpConnection) (l : Listener) (x : ℕ) (xs : List ℕ) (e : Errno)
    → Kept t
    → l.connected_callback ≡ true
    → t.channel.chan.read_callback ≡ true
    → length (x ∷ xs) ≤ room t.read_buf
    → errno_ignorable e ≡ false
    → Returns
        (Tells
          (error no_error success)
          (λ t'.
            (handle_keepalived_read (error no_error success) t' l
              ≡ ok (record t' { active = true }, record l { calls = l.calls ++ t.self ∷ [] }))
            × (t'.status ≡ established)
            × Appends t.read_buf (x ∷ xs) t'.read_buf)
          t)
        (handle_read (read_bytes (x ∷ xs)) t)
      × Returns
          (Tells
            (error read_peer_closed success)
            (λ t'.
              Returns
                (λ (t'', l'). Closed t' t'' × (l' ≡ l))
                (handle_keepalived_read (error read_peer_closed success) t' l))
            t)
          (handle_read (read_bytes []) t)
      × Returns
          (Tells
            (error connect_error e)
            (λ t'.
              (handle_keepalived_read (error connect_error e) t' l ≡ ok (t', l))
              × (t'.status ≡ closed)
              × (find t'.pool (group_index t.self) t.self.index ≡ none))
            t)
          (handle_read (read_failed e) t)
      × Returns
          (Tells
            (error read_timedout success)
            (λ t'. handle_keepalived_read (error read_timedout success) t' l ≡ fault assertion)
            t)
          (handle_read_timedout t)
handle_keepalived_read_lem t l x xs e k answered set fits serious = (
  data_comes t l k x xs answered fits,
  end_comes t l k,
  failure_comes t l k e serious,
  timeout_comes t l k set,
)

-- A connection that nobody uses waits for something to read, and nobody is called.
retain_tcp_connection_lem :
    (time : ℕ → ℕ) (t : TcpConnection)
    → Live t
    → t.active ≡ false
    → t.status ≡ established
    → IsValid t.read_buf
    → 0 < room t.read_buf
    → has t.channel.chan.events crevent ≡ false
    → Returns
        (λ t'. (has t'.channel.chan.events crevent ≡ true) × (t'.calls ≡ t.calls))
        (retain_tcp_connection time t)
unfolding retain_tcp_connection
retain_tcp_connection_lem time t live idle lives valid some_room quiet =
    let at_rest : not t.active ≡ true = ground arith in
    rw at_rest (
      Returns-mono _ _ (set_read_callback time 60000 t) (λ t' p. (p.0, p.3))
        (set_read_callback_lem time 60000 t live lives valid some_room quiet))
