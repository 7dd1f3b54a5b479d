-- ===== src/Application/Answering.antt =====
-- base/Utilities.cpp, `onNewRequest` and `onResponseSent`: how a call of the connection is answered.
use musketeer.Prelude.{
  ℕ, suc, ◌+◌, ◌<◌, ◌≡◌, refl, sym, ap, ◌∙◌, false, List, [], ◌∷◌, ◌++◌, length, length-append,
  length-drop, All, none, some, arith, ok, ◌>>=◌, Returns, Returns-value, Returns-mono, get_elem?,
  get_elem?-append_length, get_elem?-length,
}
use mathlib.Core.List.{append_assoc}
use musketeer.Errors.{error, no_error, success, SysResult, done}
use musketeer.Buffer.{Buffer}
use musketeer.Buffer.Alloc.{Allocator}
use musketeer.Channel.Events.{has, cwevent}
use musketeer.Pool.{group_index}
use musketeer.Pool.View.{find}
use musketeer.Socket.{valid}
use musketeer.Utilities.Chain.{chain_contents, total}
use musketeer.TcpConnection.{
  TcpConnection, Call, established, closed, read_available, write_finished, close, handle_write,
  send,
}
use musketeer.TcpConnection.Events.{Event, writes, perform}
use musketeer.TcpConnection.Closing.{Live, Closed, close-Closed}
use musketeer.TcpConnection.Chains.{Fits}
use musketeer.TcpConnection.Sending.{Writes, Pending, Shrunk, SentAll, send-SentAll, send-Shrunk}
use musketeer.TcpConnection.Draining.{
  Drained, handle_write-Shrunk, handle_write-Drained, sum, IsPositive,
}
use musketeer.Application.{
  response, on_new_request, on_response_sent, answer, answer_all, serve, serve_all, queue_bytes,
}
use musketeer.Application.Queueing.{Takes, queue_bytes-Queued}

abbrev pub read_ok : Call
read_ok = read_available (error no_error success)

abbrev pub write_ok : Call
write_ok = write_finished (error no_error success)

-- The connection `c` is closed and out of its pool, and was told `ks` and has answered all of it.
pub record Ended (ks : List Call) (c : TcpConnection) (r : ℕ × TcpConnection) : Type 0 where
  pub is_closed : r.1.status ≡ closed
  pub shut : valid r.1.connfd ≡ false
  pub unpooled : find r.1.pool (group_index c.self) c.self.index ≡ none
  pub told : r.1.calls ≡ c.calls ++ ks
  pub answered : r.0 ≡ length r.1.calls

-- Every write of a count, and no answer.
abbrev pub writing : List ℕ → List (Event × SysResult)
writing [] = []
writing (n ∷ ns) = (writes (done n), done 0) ∷ writing ns

pub length-response : length response ≡ 61
unfolding response
length-response = refl

-- A live connection that was told of a request and has nothing to send.
pub record Asked (cs : List Call) (c : TcpConnection) : Type 0 where
  pub live : Live c
  pub is_open : c.status ≡ established
  pub chain : Fits c.write_buf_chain
  pub takes : Takes (length response) c.write_buf_chain
  pub empty : chain_contents c.write_buf_chain ≡ []
  pub quiet : has c.channel.chan.events cwevent ≡ false
  pub told : c.calls ≡ cs ++ read_ok ∷ []

module _ (a : Allocator) (time : ℕ → ℕ) where
  answer_none :
      (fuel : ℕ) (res : SysResult) (c : TcpConnection)
      → answer_all a time (suc fuel) res (length c.calls) c ≡ ok (length c.calls, c)
  unfolding answer_all
  answer_none fuel res c = rw (get_elem?-length c.calls, answer_all) refl

  answer_next :
      (fuel : ℕ) (res : SysResult) (cs : List Call) (k : Call) (c : TcpConnection)
      → c.calls ≡ cs ++ k ∷ []
      → answer_all a time (suc fuel) res (length cs) c
        ≡ (answer a time res k c >>= answer_all a time fuel res (length cs + 1))
  unfolding answer_all
  answer_next fuel res cs k c e =
      let found : get_elem? c.calls (length cs) ≡ some k =
        ap (λ ds. get_elem? ds (length cs)) e ∙ get_elem?-append_length cs k in
      rw (found, answer_all) refl

  -- Once the response is sent the connection is closed.
  answer_sent :
      (fuel : ℕ) (res : SysResult) (cs : List Call) (c : TcpConnection)
      → Live c
      → c.status ≡ established
      → c.calls ≡ cs ++ write_ok ∷ []
      → Returns
          (λ r. Closed c r.1 × (r.0 ≡ length r.1.calls))
          (answer_all a time (suc (suc fuel)) res (length cs) c)
  unfolding answer on_response_sent
  answer_sent fuel res cs c l o e =
      let (d, ed, p) = Returns-value (Closed c) (close c) (close-Closed c l (rw o refl)) in
      let seen : length cs + 1 ≡ length d.calls =
        omega (arith, ap length p.no_call, ap length e, length-append cs (write_ok ∷ [])) in
      rw (answer_next (suc fuel) res cs write_ok c e, ed, seen, answer_none fuel res d) (p, refl)

  pub serve_writes :
      (n : ℕ) (ns : List ℕ) (c : TcpConnection)
      → Pending c
      → All IsPositive (n ∷ ns)
      → sum (n ∷ ns) ≡ total c.write_buf_chain
      → Returns (Ended (write_ok ∷ []) c) (serve_all a time (writing (n ∷ ns)) (length c.calls, c))
  unfolding serve_all serve perform
  serve_writes n [] c w (p, q) h =
      let all : total c.write_buf_chain ≡ n = omega (arith, h) in
      let (d, ed, pd) =
        Returns-value (Drained c) (handle_write (done (total c.write_buf_chain)) c)
          (handle_write-Drained c w (omega arith)) in
      let ((seen, c'), ea, (pc, answered)) =
        Returns-value (λ r. Closed d r.1 × (r.0 ≡ length r.1.calls))
          (answer_all a time 3 (done 0) (length c.calls) d)
          (answer_sent 1 (done 0) c.calls d pd.live pd.is_open pd.told) in
      rw ((rw all at ed), ea)
        (record {
          is_closed = pc.is_closed;
          shut = pc.shut;
          unpooled =
              ap (λ k. find c'.pool (group_index k) k.index) (sym pd.same_pool.1) ∙ pc.unpooled;
          told = pc.no_call ∙ pd.told;
          answered = answered;
        })
  serve_writes n (m ∷ ms) c w (p, q) h =
      let (d, ed, pd) =
        Returns-value (Shrunk n c) (handle_write (done n) c)
          (handle_write-Shrunk n c w p (omega (arith, h, q.0))) in
      let rest : sum (m ∷ ms) ≡ total d.write_buf_chain =
        omega (arith, h, ap length pd.left, length-drop n (chain_contents c.write_buf_chain)) in
      let same : length c.calls ≡ length d.calls = ap length (sym pd.untold) in
      rw (ed, same, answer_none 2 (done 0) d)
        (Returns-mono (Ended (write_ok ∷ []) d) (Ended (write_ok ∷ []) c)
          (serve_all a time (writing (m ∷ ms)) (length d.calls, d))
          (λ r t. record {
            is_closed = t.is_closed;
            shut = t.shut;
            unpooled =
                ap (λ k. find r.1.pool (group_index k) k.index) (sym pd.same_pool.1) ∙ t.unpooled;
            told = t.told ∙ ap (λ ks. ks ++ write_ok ∷ []) pd.untold;
            answered = t.answered;
          })
          (serve_writes m ms d pd.pending q rest))

  some_buffer_of : (bs : List Buffer) → 0 < total bs → 0 < length bs
  some_buffer_of [] p = absurd (omega arith)
  some_buffer_of (b ∷ bs) p = omega arith

  -- The connection with the response in its chain.
  queued :
      (cs : List Call) (c : TcpConnection)
      → Asked cs c
      → (d : TcpConnection) × (queue_bytes a response c ≡ ok d)
        × Writes d
        × (total d.write_buf_chain ≡ length response)
        × (d.calls ≡ cs ++ read_ok ∷ [])
        × (d.pool ≡ c.pool)
        × (d.self ≡ c.self)
  queued cs c w =
      let (bs, e, q) =
        queue_bytes-Queued a response c (omega (arith, length-response)) w.chain.valid w.takes in
      let all : total bs ≡ length response =
        ap length (q.added ∙ ap (λ xs. xs ++ response) w.empty) in
      (
        record c { write_buf_chain = bs },
        e,
        record {
          live = w.live;
          is_open = w.is_open;
          chain = record {
            valid = q.valid;
            few = omega (arith, w.chain.few, q.as_many);
            small = omega (arith, all, length-response);
          };
          some_buffer = some_buffer_of bs (omega (arith, all, length-response));
          quiet = w.quiet;
        },
        all,
        w.told,
        refl,
        refl,
      )

  -- All of the response is gone at once.
  pub answer_whole :
      (cs : List Call) (c : TcpConnection)
      → Asked cs c
      → Returns
          (λ r.
            (r.1.status ≡ closed)
            × (valid r.1.connfd ≡ false)
            × (find r.1.pool (group_index c.self) c.self.index ≡ none)
            × (r.1.calls ≡ cs ++ read_ok ∷ write_ok ∷ [])
            × (r.0 ≡ length r.1.calls))
          (answer_all a time 3 (done (length response)) (length cs) c)
  unfolding answer on_new_request
  answer_whole cs c w =
      let (d, ed, wd, all, told, same_pool, same_self) = queued cs c w in
      let (e, ee, pe) =
        Returns-value (SentAll d) (send time 3000 (done (total d.write_buf_chain)) d)
          (send-SentAll time 3000 d wd (omega (arith, all, length-response))) in
      let before : List Call = cs ++ read_ok ∷ [] in
      let calls : e.calls ≡ before ++ write_ok ∷ [] =
        pe.told ∙ ap (λ ks. ks ++ write_ok ∷ []) told in
      let next : length cs + 1 ≡ length before = sym (length-append cs (read_ok ∷ [])) in
      let (r, er, (pc, answered)) =
        Returns-value (λ r. Closed e r.1 × (r.0 ≡ length r.1.calls))
          (answer_all a time 2 (done (length response)) (length before) e)
          (answer_sent 0 (done (length response)) before e pe.live pe.is_open calls) in
      let self : e.self ≡ c.self = pe.same_pool.1 ∙ same_self in
      rw (answer_next 2 (done (length response)) cs read_ok c w.told, ed, (rw all at ee), next, er)
        (
          pc.is_closed,
          pc.shut,
          ap (λ k. find r.1.pool (group_index k) k.index) (sym self) ∙ pc.unpooled,
          pc.no_call ∙ (calls ∙ append_assoc cs (read_ok ∷ []) (write_ok ∷ [])),
          answered,
        )

  -- A part of it is: the rest waits.
  pub answer_part :
      (n : ℕ) (cs : List Call) (c : TcpConnection)
      → Asked cs c
      → 0 < n
      → n < length response
      → Returns
          (λ r.
            Pending r.1
            × (total r.1.write_buf_chain + n ≡ length response)
            × (r.1.calls ≡ cs ++ read_ok ∷ [])
            × (r.0 ≡ length r.1.calls)
            × (r.1.self ≡ c.self))
          (answer_all a time 3 (done n) (length cs) c)
  unfolding answer on_new_request
  answer_part n cs c w p h =
      let (d, ed, wd, all, told, same_pool, same_self) = queued cs c w in
      let (e, ee, pe) =
        Returns-value (Shrunk n d) (send time 3000 (done n) d)
          (send-Shrunk time 3000 n d wd p (omega (arith, all))) in
      let calls : e.calls ≡ cs ++ read_ok ∷ [] = pe.untold ∙ told in
      let next : length cs + 1 ≡ length e.calls =
        omega (arith, ap length calls, length-append cs (read_ok ∷ [])) in
      rw (answer_next 2 (done n) cs read_ok c w.told, ed, ee, next, answer_none 1 (done n) e)
        (
          pe.pending,
          omega (arith, ap length pe.left, length-drop n (chain_contents d.write_buf_chain), all),
          calls,
          refl,
          pe.same_pool.1 ∙ same_self,
        )
