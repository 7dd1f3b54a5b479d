-- ===== src/TcpConnection/Sending.antt =====
-- net/TcpConnection.cpp, `Send` and `handleWrite`, where the connection is established.
use musketeer.Prelude.{
  ℕ, ◌<◌, ◌≡◌, refl, true, false, [], ◌∷◌, ◌++◌, length, arith, Returns, Returns-value,
  Returns-mono, ap, ◌∙◌, drop, drop_all, ==_self, if◌then◌else◌, ltb,
}
use musketeer.Errors.{
  Errno, errno_ignorable, error, no_error, write_error, write_timedout, success, SysResult, done,
  failed,
}
use musketeer.Channel.{
  Watched, enable_writing, disable_writing, is_writing, put_callback, write_handler,
}
use musketeer.Channel.Lifecycle.{
  Inv, put_callback-Inv, enable_writing-Inv, enable_writing_lem, disable_writing_lem,
}
use musketeer.Channel.Registered.{enable_writing_registers}
use musketeer.Timers.{update_by}
use musketeer.Channel.Events.{has, cwevent}
use musketeer.Utilities.Chain.{chain_contents, total}
use musketeer.Utilities.Vectored.{Sent}
use musketeer.TcpConnection.{
  TcpConnection, established, closed, write_finished, write_chain, handle_write, after_write,
  call_write, stop_writing, send, close_open, handle_write_timedout, wait_writable,
}
use musketeer.TcpConnection.Chains.{
  Fits, write_chain-Sent, write_chain_failed, write_chain_drained, Sent-Fits,
}
use musketeer.TcpConnection.Closing.{Live, Closed, close_open-Closed}

-- A live connection with something in the chain, that does not wait to write.
pub record Writes (c : TcpConnection) : Type 0 where
  pub live : Live c
  pub is_open : c.status ≡ established
  pub chain : Fits c.write_buf_chain
  pub some_buffer : 0 < length c.write_buf_chain
  pub quiet : has c.channel.chan.events cwevent ≡ false

-- A live connection that waits until it can write what is left in its chain.
pub record Pending (c : TcpConnection) : Type 0 where
  pub live : Live c
  pub is_open : c.status ≡ established
  pub chain : Fits c.write_buf_chain
  pub waits : has c.channel.chan.events cwevent ≡ true
  pub can_write : c.channel.chan.write_callback ≡ true
  pub callback : c.write_finished_callback ≡ true

-- The kernel took `n` bytes, and some are left.
pub record Shrunk (n : ℕ) (c c' : TcpConnection) : Type 0 where
  pub pending : Pending c'
  pub left : chain_contents c'.write_buf_chain ≡ drop n (chain_contents c.write_buf_chain)
  pub untold : c'.calls ≡ c.calls
  pub same_pool : (c'.pool ≡ c.pool) × (c'.self ≡ c.self)

-- The kernel took all, at once.
pub record SentAll (c c' : TcpConnection) : Type 0 where
  pub live : Live c'
  pub is_open : c'.status ≡ established
  pub empty : chain_contents c'.write_buf_chain ≡ []
  pub channel_kept : c'.channel ≡ c.channel
  pub told : c'.calls ≡ c.calls ++ write_finished (error no_error success) ∷ []
  pub same_pool : (c'.pool ≡ c.pool) × (c'.self ≡ c.self)

-- The channel with a callback for writing.
abbrev pub armed : Watched → Watched
armed w = if w.chan.write_callback then w else put_callback write_handler true w

armed_lem :
    (w : Watched)
    → Inv w
    → Inv (armed w)
      × ((armed w).chan.write_callback ≡ true)
      × ((armed w).chan.events ≡ w.chan.events)
unfolding put_callback
armed_lem w v = ground (arith, put_callback-Inv write_handler true w v)

-- What `handleWrite` does while something is left: writing is enabled, and nobody is called.
record Waits (c c' : TcpConnection) : Type 0 where
  pending : Pending c'
  chain : c'.write_buf_chain ≡ c.write_buf_chain
  calls : c'.calls ≡ c.calls
  same_pool : (c'.pool ≡ c.pool) × (c'.self ≡ c.self)

wait_writable-Waits :
    (c : TcpConnection)
    → Live c
    → c.status ≡ established
    → Fits c.write_buf_chain
    → has c.channel.chan.events cwevent ≡ false
    → c.write_finished_callback ≡ true
    → Returns (Waits c) (wait_writable c)
unfolding wait_writable is_writing
wait_writable-Waits c l o f q k =
    let (va, ca, ea) = armed_lem c.channel l.channel_inv in
    let (w, ew, pw) =
      Returns-value _ (enable_writing (armed c.channel))
        (enable_writing_lem (armed c.channel) va ca) in
    rw (ea, q, ew)
      (record {
        pending = record {
          live = record {
            channel_inv = enable_writing-Inv (armed c.channel) w va ew;
            registered = λ e. cc (enable_writing_registers (armed c.channel) w ew, e);
            open_fd = l.open_fd;
            pooled = l.pooled;
          };
          is_open = o;
          chain = f;
          waits = pw.0;
          can_write = pw.1 ∙ ca;
          callback = k;
        };
        chain = refl;
        calls = refl;
        same_pool = (refl, refl);
      })

-- What `Send` makes of the connection before `handleWrite`.
abbrev sending : (ℕ → ℕ) → ℕ → TcpConnection → TcpConnection
sending time msec c = record c {
  write_finished_callback = true;
  queue = update_by time c.write_timer msec c.queue;
}

pub send-SentAll :
    (time : ℕ → ℕ) (msec : ℕ) (c : TcpConnection)
    → Writes c
    → 0 < total c.write_buf_chain
    → Returns (SentAll c) (send time msec (done (total c.write_buf_chain)) c)
unfolding send handle_write after_write call_write stop_writing is_writing
send-SentAll time msec c w p =
    let n = total c.write_buf_chain in
    let (io, ei, pi) =
      Returns-value (Sent n c.write_buf_chain) (write_chain c.write_buf_chain (done n))
        (write_chain-Sent c.write_buf_chain n w.chain p (omega arith)) in
    let some_buffer : ltb 0 (length c.write_buf_chain) ≡ true = ground (arith, w.some_buffer) in
    let finished : io.all_sent ≡ true = ground (arith, pi.all, ==_self n) in
    rw (w.quiet, w.is_open, some_buffer, ei, pi.returned, pi.no_err, finished)
      (record {
        live = w.live;
        is_open = refl;
        empty = pi.left ∙ drop_all n (chain_contents c.write_buf_chain) (omega arith);
        channel_kept = refl;
        told = refl;
        same_pool = (refl, refl);
      })

-- `Send` on a live and established connection that does not wait to write, where the kernel takes
-- all that the chain holds: the chain is empty, the application is told once, at once and without
-- an error, and the channel is left alone.
pub send_all :
    (time : ℕ → ℕ) (msec : ℕ) (c : TcpConnection)
    → Writes c
    → 0 < total c.write_buf_chain
    → Returns
        (λ c'.
          (chain_contents c'.write_buf_chain ≡ [])
          × (c'.status ≡ established)
          × (c'.channel ≡ c.channel)
          × (c'.calls ≡ c.calls ++ write_finished (error no_error success) ∷ []))
        (send time msec (done (total c.write_buf_chain)) c)
send_all time msec c w p =
    Returns-mono (SentAll c) _ (send time msec (done (total c.write_buf_chain)) c)
      (λ c' s. (s.empty, s.is_open, s.channel_kept, s.told)) (send-SentAll time msec c w p)

pub send-Shrunk :
    (time : ℕ → ℕ) (msec n : ℕ) (c : TcpConnection)
    → Writes c
    → 0 < n
    → n < total c.write_buf_chain
    → Returns (Shrunk n c) (send time msec (done n) c)
unfolding send handle_write after_write is_writing
send-Shrunk time msec n c w p h =
    let (io, ei, pi) =
      Returns-value (Sent n c.write_buf_chain) (write_chain c.write_buf_chain (done n))
        (write_chain-Sent c.write_buf_chain n w.chain p (omega arith)) in
    let some_buffer : ltb 0 (length c.write_buf_chain) ≡ true = ground (arith, w.some_buffer) in
    let unfinished : io.all_sent ≡ false = ground (arith, pi.all) in
    let c₁ : TcpConnection = record (sending time msec c) {
      status = established;
      write_buf_chain = io.bufs;
      saved_errno = success;
    } in
    let (c₂, ec, pc) = Returns-value (Waits c₁) (wait_writable c₁) (
      wait_writable-Waits c₁ w.live refl (Sent-Fits c.write_buf_chain n io w.chain ei pi) w.quiet
        refl) in
    rw (w.quiet, w.is_open, some_buffer, ei, pi.returned, pi.no_err, unfinished, ec)
      (record {
        pending = pc.pending;
        left = ap chain_contents pc.chain ∙ pi.left;
        untold = pc.calls;
        same_pool = pc.same_pool;
      })

-- `Send` on a live and established connection that does not wait to write, where the kernel takes a
-- part of the chain: what it took is gone from the front of the chain, the channel waits until it
-- can write, and nobody is called.
pub send_part :
    (time : ℕ → ℕ) (msec n : ℕ) (c : TcpConnection)
    → Writes c
    → 0 < n
    → n < total c.write_buf_chain
    → Returns
        (λ c'.
          (chain_contents c'.write_buf_chain ≡ drop n (chain_contents c.write_buf_chain))
          × (c'.status ≡ established)
          × (has c'.channel.chan.events cwevent ≡ true)
          × (c'.calls ≡ c.calls))
        (send time msec (done n) c)
send_part time msec n c w p h =
    Returns-mono (Shrunk n c) _ (send time msec (done n) c)
      (λ c' s. (s.left, s.pending.is_open, s.pending.waits, s.untold))
      (send-Shrunk time msec n c w p h)

-- `Send` on a live and established connection that does not wait to write, whose buffers hold
-- nothing, returns and calls nobody: the chain stays as it is, and the channel waits until it can
-- write.
pub send_drained :
    (time : ℕ → ℕ) (msec : ℕ) (res : SysResult) (c : TcpConnection)
    → Writes c
    → total c.write_buf_chain ≡ 0
    → Returns
        (λ c'.
          (c'.write_buf_chain ≡ c.write_buf_chain)
          × (c'.status ≡ established)
          × (has c'.channel.chan.events cwevent ≡ true)
          × (c'.calls ≡ c.calls))
        (send time msec res c)
unfolding send handle_write after_write is_writing
send_drained time msec res c w z =
    let some_buffer : ltb 0 (length c.write_buf_chain) ≡ true = ground (arith, w.some_buffer) in
    let c₁ : TcpConnection = record c {
      status = established;
      write_finished_callback = true;
      queue = update_by time c.write_timer msec c.queue;
      saved_errno = success;
    } in
    let (c₂, ec, pc) =
      Returns-value (Waits c₁) (wait_writable c₁)
        (wait_writable-Waits c₁ w.live refl w.chain w.quiet refl) in
    rw (w.quiet, w.is_open, some_buffer, write_chain_drained c.write_buf_chain res w.chain z, ec)
      (pc.chain, pc.pending.is_open, pc.pending.waits, pc.calls)

-- `Send` on a live and established connection that does not wait to write, where the kernel reports
-- an errno that is not ignorable, closes the connection and then calls the application once, with a
-- write error and that errno.
pub send_fails :
    (time : ℕ → ℕ) (msec : ℕ) (e : Errno) (c : TcpConnection)
    → Writes c
    → 0 < total c.write_buf_chain
    → errno_ignorable e ≡ false
    → Returns
        (λ c'.
          (c'.status ≡ closed)
          × (c'.write_buf_chain ≡ [])
          × (c'.calls ≡ c.calls ++ write_finished (error write_error e) ∷ []))
        (send time msec (failed e) c)
unfolding send handle_write after_write call_write is_writing
send_fails time msec e c w p g =
    let some_buffer : ltb 0 (length c.write_buf_chain) ≡ true = ground (arith, w.some_buffer) in
    let c₁ : TcpConnection = record c {
      status = established;
      write_finished_callback = true;
      queue = update_by time c.write_timer msec c.queue;
      saved_errno = e;
    } in
    let (c₂, ec, pc) = Returns-value (Closed c₁) (close_open c₁) (close_open-Closed c₁ w.live) in
    rw (w.quiet, w.is_open, some_buffer, write_chain_failed c.write_buf_chain e w.chain p, g, ec)
      (ground (arith, pc.is_closed, pc.dropped, pc.no_call, pc.callbacks))

-- The timeout of a write stops writing, takes the channel's callback for writing away, and calls
-- the application once; what is left stays in the chain.
pub handle_write_timedout_lem :
    (c : TcpConnection)
    → Live c
    → has c.channel.chan.events cwevent ≡ true
    → c.channel.chan.write_callback ≡ true
    → c.write_finished_callback ≡ true
    → Returns
        (λ c'.
          (has c'.channel.chan.events cwevent ≡ false)
          × (c'.channel.chan.write_callback ≡ false)
          × (c'.write_buf_chain ≡ c.write_buf_chain)
          × (c'.calls ≡ c.calls ++ write_finished (error write_timedout success) ∷ []))
        (handle_write_timedout c)
unfolding handle_write_timedout is_writing put_callback call_write
handle_write_timedout_lem c l h k r =
    let (w, ew, pw) =
      Returns-value _ (disable_writing c.channel) (disable_writing_lem c.channel l.channel_inv h) in
    rw (ew, h, k, r) (pw.0, refl, refl, refl)
