-- ===== src/TcpConnection/Reading.antt =====
-- net/TcpConnection.cpp, `handleRead` and the timeout of a read.
use mathlib.Core.Path.{subst}
use musketeer.Prelude.{
  ℕ, ◌≤◌, ◌<◌, ◌≡◌, refl, sym, ap, ◌∙◌, true, false, none, List, [], ◌∷◌, ◌++◌, length, Returns,
  Returns-value, Returns-mono,
}
use musketeer.Errors.{
  Errno, errno_ignorable, error, no_error, connect_error, read_peer_closed, read_timedout, success,
}
use musketeer.Buffer.Bounds.{IsValid}
use musketeer.Buffer.Append.{Appends, room}
use musketeer.Pool.{group_index}
use musketeer.Pool.View.{find}
use musketeer.Channel.{disable_reading, is_reading, put_callback}
use musketeer.Channel.Events.{has, crevent, cwevent}
use musketeer.Channel.Lifecycle.{disable_reading-Inv, disable_reading_lem}
use musketeer.Channel.Registered.{disable_reading_registers}
use musketeer.Utilities.{read_fd, read_bytes, read_failed}
use musketeer.Utilities.Single.{Received, read_fd-Received, read_fd_nothing}
use musketeer.Timers.{cancel}
use musketeer.TcpConnection.{
  TcpConnection, established, peer_closed, closed, read_available, handle_read, after_read,
  call_read, close_open, handle_read_timedout,
}
use musketeer.TcpConnection.Closing.{Live, Closed, close_open-Closed}

-- A live connection that waits for something to read.
pub record Reads (c : TcpConnection) : Type 0 where
  pub live : Live c
  pub is_open : c.status ≡ established
  pub reading : has c.channel.chan.events crevent ≡ true
  pub buffer : IsValid c.read_buf
  pub callback : c.read_available_callback ≡ true

-- What `handleRead` makes of a connection to which the bytes `xs` came.
pub record GotData (xs : List ℕ) (c c' : TcpConnection) : Type 0 where
  pub added : Appends c.read_buf xs c'.read_buf
  pub is_open : c'.status ≡ established
  pub live : Live c'
  pub stopped : has c'.channel.chan.events crevent ≡ false
  pub writing_kept : has c'.channel.chan.events cwevent ≡ has c.channel.chan.events cwevent
  pub chain_kept : c'.write_buf_chain ≡ c.write_buf_chain
  pub pool_kept : c'.pool ≡ c.pool
  pub self_kept : c'.self ≡ c.self
  pub active_kept : c'.active ≡ c.active
  pub told : c'.calls ≡ c.calls ++ read_available (error no_error success) ∷ []

pub handle_read-GotData :
    (c : TcpConnection) (x : ℕ) (xs : List ℕ)
    → Reads c
    → length (x ∷ xs) ≤ room c.read_buf
    → Returns (GotData (x ∷ xs) c) (handle_read (read_bytes (x ∷ xs)) c)
unfolding handle_read after_read call_read
handle_read-GotData c x xs r h =
    let (io, ei, pi) =
      Returns-value (Received (x ∷ xs) c.read_buf) (read_fd c.read_buf (read_bytes (x ∷ xs)))
        (read_fd-Received c.read_buf x xs r.buffer h) in
    let (w, ew, pw) =
      Returns-value _ (disable_reading c.channel)
        (disable_reading_lem c.channel r.live.channel_inv r.reading) in
    rw (r.is_open, ei, pi.returned, pi.no_err, ew, r.callback)
      (record {
        added = pi.added;
        is_open = refl;
        live = record {
          channel_inv = disable_reading-Inv c.channel w r.live.channel_inv ew;
          registered = λ e. cc (disable_reading_registers c.channel w ew, e);
          open_fd = r.live.open_fd;
          pooled = r.live.pooled;
        };
        stopped = pw.0;
        writing_kept = pw.1;
        chain_kept = refl;
        pool_kept = refl;
        self_kept = refl;
        active_kept = refl;
        told = refl;
      })

-- `handleRead` on a live and established connection that reads, with bytes that fit in the buffer,
-- puts them behind its contents, stops reading and calls the application once, without an error.
pub handle_read_data :
    (c : TcpConnection) (x : ℕ) (xs : List ℕ)
    → Reads c
    → length (x ∷ xs) ≤ room c.read_buf
    → Returns
        (λ c'.
          Appends c.read_buf (x ∷ xs) c'.read_buf
          × (c'.status ≡ established)
          × (has c'.channel.chan.events crevent ≡ false)
          × (c'.calls ≡ c.calls ++ read_available (error no_error success) ∷ []))
        (handle_read (read_bytes (x ∷ xs)) c)
handle_read_data c x xs r h =
    Returns-mono (GotData (x ∷ xs) c) _ (handle_read (read_bytes (x ∷ xs)) c)
      (λ c' p. (p.added, p.is_open, p.stopped, p.told)) (handle_read-GotData c x xs r h)

-- What `handleRead` makes of a connection at the end of the stream.
pub record AtEnd (c c' : TcpConnection) : Type 0 where
  pub live : Live c'
  pub ended : c'.status ≡ peer_closed
  pub active_kept : c'.active ≡ c.active
  pub buffer_kept : c'.read_buf ≡ c.read_buf
  pub self_kept : c'.self ≡ c.self
  pub stopped : has c'.channel.chan.events crevent ≡ false
  pub told : c'.calls ≡ c.calls ++ read_available (error read_peer_closed success) ∷ []

-- `handleRead` on a live and established connection that reads, with room in its buffer, at the end
-- of the stream: it leaves the buffer alone, stops reading, makes the connection one whose peer has
-- closed, and says so once.
pub handle_read_end :
    (c : TcpConnection)
    → Reads c
    → 0 < room c.read_buf
    → Returns (AtEnd c) (handle_read (read_bytes []) c)
unfolding handle_read after_read call_read
handle_read_end c r h =
    let (w, ew, pw) =
      Returns-value _ (disable_reading c.channel)
        (disable_reading_lem c.channel r.live.channel_inv r.reading) in
    rw (r.is_open, (read_fd_nothing c.read_buf success r.buffer h).0, ew, r.callback)
      (record {
        live = record {
          channel_inv = disable_reading-Inv c.channel w r.live.channel_inv ew;
          registered = λ e. cc (disable_reading_registers c.channel w ew, e);
          open_fd = r.live.open_fd;
          pooled = r.live.pooled;
        };
        ended = refl;
        active_kept = refl;
        buffer_kept = refl;
        self_kept = refl;
        stopped = pw.0;
        told = refl;
      })

-- What a read that fails makes of a connection.
pub record ReadFails (e : Errno) (c c' : TcpConnection) : Type 0 where
  pub is_closed : c'.status ≡ closed
  pub inactive : c'.active ≡ false
  pub dropped : c'.write_buf_chain ≡ []
  pub unpooled : find c'.pool (group_index c.self) c.self.index ≡ none
  pub buffer_valid : IsValid c'.read_buf
  pub told : c'.calls ≡ c.calls ++ read_available (error connect_error e) ∷ []

pub handle_read-ReadFails :
    (c : TcpConnection) (e : Errno)
    → Reads c
    → 0 < room c.read_buf
    → errno_ignorable e ≡ false
    → Returns (ReadFails e c) (handle_read (read_failed e) c)
unfolding handle_read after_read call_read
handle_read-ReadFails c e r h g =
    let c₁ : TcpConnection = record c {
      queue = cancel c.read_timer c.queue;
      saved_errno = e;
      status = established;
    } in
    let (c₂, ec, pc) = Returns-value (Closed c₁) (close_open c₁) (close_open-Closed c₁ r.live) in
    let answers : c₂.read_available_callback ≡ true = pc.callbacks.0 ∙ r.callback in
    rw (r.is_open, (read_fd_nothing c.read_buf e r.buffer h).1, g, ec, answers)
      (record {
        is_closed = pc.is_closed;
        inactive = pc.inactive;
        dropped = pc.dropped;
        unpooled = pc.unpooled;
        buffer_valid = subst IsValid (sym pc.buffer_kept) r.buffer;
        told = ap (λ ks. ks ++ read_available (error connect_error e) ∷ []) pc.no_call;
      })

-- `handleRead` on a live and established connection that reads, with room in its buffer, where the
-- kernel reports an errno that is not ignorable, closes the connection and then calls the
-- application once, with a connect error and that errno.
pub handle_read_fails :
    (c : TcpConnection) (e : Errno)
    → Reads c
    → 0 < room c.read_buf
    → errno_ignorable e ≡ false
    → Returns
        (λ c'.
          (c'.status ≡ closed)
          × (c'.write_buf_chain ≡ [])
          × (c'.calls ≡ c.calls ++ read_available (error connect_error e) ∷ []))
        (handle_read (read_failed e) c)
handle_read_fails c e r h g =
    Returns-mono (ReadFails e c) _ (handle_read (read_failed e) c)
      (λ c' p. (p.is_closed, p.dropped, p.told)) (handle_read-ReadFails c e r h g)

-- What the timeout of a read makes of a connection.
pub record TimesOut (c c' : TcpConnection) : Type 0 where
  pub is_open : c'.status ≡ established
  pub active_kept : c'.active ≡ c.active
  pub buffer_kept : c'.read_buf ≡ c.read_buf
  pub stopped : has c'.channel.chan.events crevent ≡ false
  pub unset : c'.channel.chan.read_callback ≡ false
  pub told : c'.calls ≡ c.calls ++ read_available (error read_timedout success) ∷ []

-- The timeout of a read on a live and established connection that reads, whose channel has a
-- callback for it: it stops reading, takes that callback away, and calls the application once; the
-- connection stays established.
pub handle_read_timedout_lem :
    (c : TcpConnection)
    → Reads c
    → c.channel.chan.read_callback ≡ true
    → Returns (TimesOut c) (handle_read_timedout c)
unfolding handle_read_timedout is_reading put_callback call_read
handle_read_timedout_lem c r k =
    let (w, ew, pw) =
      Returns-value _ (disable_reading c.channel)
        (disable_reading_lem c.channel r.live.channel_inv r.reading) in
    rw (ew, r.reading, k, r.callback)
      (record {
        is_open = r.is_open;
        active_kept = refl;
        buffer_kept = refl;
        stopped = pw.0;
        unset = refl;
        told = refl;
      })
