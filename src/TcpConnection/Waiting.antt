-- ===== src/TcpConnection/Waiting.antt =====
-- net/TcpConnection.cpp, `SetReadCallback`, `Retain` and `Init`: how a connection comes to wait for something to read.
use musketeer.Prelude.{
  ℕ, ◌<◌, ◌≡◌, refl, true, false, ltb, arith, Returns, Returns-value, Returns-mono, ap, ◌∙◌,
  if◌then◌else◌,
}
use musketeer.Buffer.Bounds.{IsValid, appendable_size_lem}
use musketeer.Buffer.Append.{room}
use musketeer.Channel.{Watched, enable_reading, is_reading, put_callback, read_handler, is_new}
use musketeer.Channel.Events.{has, crevent, cwevent}
use musketeer.Channel.Lifecycle.{Inv, put_callback-Inv, enable_reading-Inv, enable_reading_lem}
use musketeer.Timers.{update_by, reset}
use musketeer.TcpConnection.{
  TcpConnection, established, set_read_callback, start_reading, retain, initialise,
}
use musketeer.TcpConnection.Closing.{Live}
use musketeer.TcpConnection.Reading.{Reads}

-- The channel with a callback for reading.
abbrev listening : Watched → Watched
listening w = if w.chan.read_callback then w else put_callback read_handler true w

listening_lem :
    (w : Watched)
    → Inv w
    → Inv (listening w)
      × ((listening w).chan.read_callback ≡ true)
      × ((listening w).chan.events ≡ w.chan.events)
unfolding put_callback
listening_lem w v = ground (arith, put_callback-Inv read_handler true w v)

-- What `SetReadCallback` leaves of an established connection.
pub record ReadSet (c c' : TcpConnection) : Type 0 where
  pub reads : Reads c'
  pub writing_kept : has c'.channel.chan.events cwevent ≡ has c.channel.chan.events cwevent
  pub chain_kept : c'.write_buf_chain ≡ c.write_buf_chain
  pub buffer_kept : c'.read_buf ≡ c.read_buf
  pub timers_kept : c'.queue.timers_set ≡ c.queue.timers_set
  pub untold : c'.calls ≡ c.calls
  pub active_kept : c'.active ≡ c.active
  pub self_kept : c'.self ≡ c.self

pub set_read_callback-ReadSet :
    (time : ℕ → ℕ) (msec : ℕ) (c : TcpConnection)
    → Live c
    → c.status ≡ established
    → IsValid c.read_buf
    → 0 < room c.read_buf
    → has c.channel.chan.events crevent ≡ false
    → Returns (ReadSet c) (set_read_callback time msec c)
unfolding set_read_callback start_reading update_by is_reading
set_read_callback-ReadSet time msec c l o v h q =
    let some_room : ltb 0 (room c.read_buf) ≡ true = ground arith in
    let (va, ca, ea) = listening_lem c.channel l.channel_inv in
    let (w, ew, pw) =
      Returns-value _ (enable_reading (listening c.channel))
        (enable_reading_lem (listening c.channel) va ca) in
    rw (appendable_size_lem c.read_buf v, some_room, q, o, ew)
      (record {
        reads = record {
          live = record {
            channel_inv = enable_reading-Inv (listening c.channel) w va ew;
            registered = λ e. cc (pw.0, e);
            open_fd = l.open_fd;
            pooled = l.pooled;
          };
          is_open = refl;
          reading = pw.1;
          buffer = v;
          callback = refl;
        };
        writing_kept = pw.2 ∙ ap (λ e. has e cwevent) ea;
        chain_kept = refl;
        buffer_kept = refl;
        timers_kept = refl;
        untold = refl;
        active_kept = refl;
        self_kept = refl;
      })

-- `SetReadCallback` on a live and established connection that does not read, with room in its
-- buffer, returns and calls nobody: the channel waits for something to read, but the queue's set of
-- entries is the same, so that no timer is added for it.
pub set_read_callback_lem :
    (time : ℕ → ℕ) (msec : ℕ) (c : TcpConnection)
    → Live c
    → c.status ≡ established
    → IsValid c.read_buf
    → 0 < room c.read_buf
    → has c.channel.chan.events crevent ≡ false
    → Returns
        (λ c'.
          (has c'.channel.chan.events crevent ≡ true)
          × (c'.read_available_callback ≡ true)
          × (c'.queue.timers_set ≡ c.queue.timers_set)
          × (c'.calls ≡ c.calls)
          × (c'.active ≡ c.active))
        (set_read_callback time msec c)
set_read_callback_lem time msec c l o v h q =
    Returns-mono (ReadSet c) _ (set_read_callback time msec c)
      (λ c' p. (p.reads.reading, p.reads.callback, p.timers_kept, p.untold, p.active_kept))
      (set_read_callback-ReadSet time msec c l o v h q)

-- `Retain` does the same with a minute's time, and the connection is inactive.
pub retain_lem :
    (time : ℕ → ℕ) (c : TcpConnection)
    → Live c
    → c.status ≡ established
    → IsValid c.read_buf
    → 0 < room c.read_buf
    → has c.channel.chan.events crevent ≡ false
    → Returns
        (λ c'.
          (has c'.channel.chan.events crevent ≡ true)
          × (c'.read_available_callback ≡ true)
          × (c'.queue.timers_set ≡ c.queue.timers_set)
          × (c'.calls ≡ c.calls)
          × (c'.active ≡ false))
        (retain time c)
unfolding retain
retain_lem time c l o v h q =
    set_read_callback_lem time 60000 (record c { active = false }) l o v h q

-- `Init` of a connection whose channel is registered sets the three callbacks of the channel, and
-- adds no timer to the queue.
pub initialise_lem :
    (on_read on_write : ℕ) (c : TcpConnection)
    → is_new c.channel.chan.status ≡ false
    → Returns
        (λ c'.
          (c'.channel.chan.error_callback ≡ true)
          × (c'.channel.chan.read_callback ≡ true)
          × (c'.channel.chan.write_callback ≡ true)
          × (c'.queue.timers_set ≡ c.queue.timers_set))
        (initialise on_read on_write c)
unfolding initialise put_callback reset
initialise_lem on_read on_write c h = rw h (refl, refl, refl, refl)
