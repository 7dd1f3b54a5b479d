-- ===== src/TcpConnection/Draining.antt =====
-- net/TcpConnection.cpp, `handleWrite` over and over, until all that was to be sent is gone.
use musketeer.Prelude.{
  ℕ, ◌+◌, ◌<◌, ◌≡◌, refl, ap, ◌∙◌, true, false, List, [], ◌∷◌, ◌++◌, length, length-drop, All,
  arith, Outcome, ok, ◌>>=◌, Returns, Returns-value, Returns-mono, drop_all, ==_self, ltb,
}
use musketeer.Errors.{error, no_error, success, done}
use musketeer.Buffer.{Buffer}
use musketeer.Channel.{Watched, disable_writing, is_writing}
use musketeer.Channel.Events.{has, cwevent}
use musketeer.Channel.Lifecycle.{disable_writing-Inv, disable_writing_lem}
use musketeer.Channel.Registered.{disable_writing_registers}
use musketeer.Utilities.Chain.{chain_contents, total}
use musketeer.Utilities.Vectored.{Sent}
use musketeer.TcpConnection.{
  TcpConnection, established, write_finished, write_chain, handle_write, after_write, call_write,
  stop_writing, wait_writable,
}
use musketeer.TcpConnection.Closing.{Live}
use musketeer.TcpConnection.Chains.{write_chain-Sent, Sent-Fits}
use musketeer.TcpConnection.Sending.{armed, Pending, Shrunk}

-- The kernel took all that was left.
pub record Drained (c c' : TcpConnection) : Type 0 where
  pub live : Live c'
  pub is_open : c'.status ≡ established
  pub empty : chain_contents c'.write_buf_chain ≡ []
  pub stopped : has c'.channel.chan.events cwevent ≡ false
  pub told : c'.calls ≡ c.calls ++ write_finished (error no_error success) ∷ []
  pub same_pool : (c'.pool ≡ c.pool) × (c'.self ≡ c.self)

some_buffer_of : (bs : List Buffer) → 0 < total bs → ltb 0 (length bs) ≡ true
some_buffer_of [] p = absurd (omega arith)
some_buffer_of (b ∷ bs) p = ground arith

is_writing_lem : (c : TcpConnection) → Pending c → is_writing c.channel.chan ≡ ok true
unfolding is_writing
is_writing_lem c w = ground (arith, w.waits, w.can_write)

already_armed : (w : Watched) → w.chan.write_callback ≡ true → armed w ≡ w
already_armed w h = ground arith

pub handle_write-Shrunk :
    (n : ℕ) (c : TcpConnection)
    → Pending c
    → 0 < n
    → n < total c.write_buf_chain
    → Returns (Shrunk n c) (handle_write (done n) c)
unfolding handle_write after_write wait_writable
handle_write-Shrunk n c w p h =
    let (io, ei, pi) =
      Returns-value (Sent n c.write_buf_chain) (write_chain c.write_buf_chain (done n))
        (write_chain-Sent c.write_buf_chain n w.chain p (omega arith)) in
    let unfinished : io.all_sent ≡ false = ground (arith, pi.all) in
    rw
      (
        w.is_open,
        some_buffer_of c.write_buf_chain (omega arith),
        ei,
        pi.returned,
        pi.no_err,
        unfinished,
        already_armed c.channel w.can_write,
        is_writing_lem c w,
      )
      (record {
        pending = record {
          live = record {
            channel_inv = w.live.channel_inv;
            registered = w.live.registered;
            open_fd = w.live.open_fd;
            pooled = w.live.pooled;
          };
          is_open = refl;
          chain = Sent-Fits c.write_buf_chain n io w.chain ei pi;
          waits = w.waits;
          can_write = w.can_write;
          callback = w.callback;
        };
        left = pi.left;
        untold = refl;
        same_pool = (refl, refl);
      })

pub handle_write-Drained :
    (c : TcpConnection)
    → Pending c
    → 0 < total c.write_buf_chain
    → Returns (Drained c) (handle_write (done (total c.write_buf_chain)) c)
unfolding handle_write after_write stop_writing call_write
handle_write-Drained c w p =
    let n = total c.write_buf_chain in
    let (io, ei, pi) =
      Returns-value (Sent n c.write_buf_chain) (write_chain c.write_buf_chain (done n))
        (write_chain-Sent c.write_buf_chain n w.chain p (omega arith)) in
    let finished : io.all_sent ≡ true = ground (arith, pi.all, ==_self n) in
    let (v, ev, pv) =
      Returns-value _ (disable_writing c.channel)
        (disable_writing_lem c.channel w.live.channel_inv w.waits) in
    rw
      (
        w.is_open,
        some_buffer_of c.write_buf_chain p,
        ei,
        pi.returned,
        pi.no_err,
        finished,
        is_writing_lem c w,
        ev,
        w.callback,
      )
      (record {
        live = record {
          channel_inv = disable_writing-Inv c.channel v w.live.channel_inv ev;
          registered = λ e. cc (disable_writing_registers c.channel v ev, e);
          open_fd = w.live.open_fd;
          pooled = w.live.pooled;
        };
        is_open = refl;
        empty = pi.left ∙ drop_all n (chain_contents c.write_buf_chain) (omega arith);
        stopped = pv.0;
        told = refl;
        same_pool = (refl, refl);
      })

-- `handleWrite` for each of the counts.
pub write_all : List ℕ → TcpConnection → Outcome TcpConnection
write_all [] c = ok c
write_all (n ∷ ns) c = do c' ← handle_write (done n) c; write_all ns c'

abbrev pub sum : List ℕ → ℕ
sum [] = 0
sum (n ∷ ns) = n + sum ns

abbrev pub IsPositive : ℕ → Type 0
IsPositive n = 0 < n

-- A live and established connection that waits to write what is left in its chain, of which the
-- kernel takes any positive counts of bytes that sum up to all of it: every `handleWrite` returns;
-- at the end the chain is empty, writing is disabled, the connection is still live and established,
-- and the application was told once, after the last one.
pub write_all-Drained :
    (n : ℕ) (ns : List ℕ) (c : TcpConnection)
    → Pending c
    → All IsPositive (n ∷ ns)
    → sum (n ∷ ns) ≡ total c.write_buf_chain
    → Returns (Drained c) (write_all (n ∷ ns) c)
unfolding write_all
write_all-Drained n [] c w (p, q) h =
    let all : total c.write_buf_chain ≡ n = omega (arith, h) in
    let (c', e, r) =
      Returns-value (Drained c) (handle_write (done (total c.write_buf_chain)) c)
        (handle_write-Drained c w (omega arith)) in
    rw ((rw all at e)) r
write_all-Drained n (m ∷ ns) c w (p, q) h =
    let (d, e, r) =
      Returns-value (Shrunk n c) (handle_write (done n) c)
        (handle_write-Shrunk n c w p (omega (arith, h, q.0))) in
    let rest : sum (m ∷ ns) ≡ total d.write_buf_chain =
      omega (arith, h, ap length r.left, length-drop n (chain_contents c.write_buf_chain)) in
    rw e (
      Returns-mono (Drained d) (Drained c) (write_all (m ∷ ns) d)
        (λ c' t. record {
          live = t.live;
          is_open = t.is_open;
          empty = t.empty;
          stopped = t.stopped;
          told = t.told ∙ ap (λ ks. ks ++ write_finished (error no_error success) ∷ []) r.untold;
          same_pool = (t.same_pool.0 ∙ r.same_pool.0, t.same_pool.1 ∙ r.same_pool.1);
        })
        (write_all-Drained m ns d r.pending q rest))
