-- ===== src/Application/Serving.antt =====
-- base/Utilities.cpp, the callbacks at its end: a request that comes is answered, and the connection closed,
-- however the kernel splits the answer.
use musketeer.Prelude.{
  ℕ, ◌≤◌, ◌≡◌, sym, ap, ◌∙◌, false, List, [], ◌∷◌, ◌++◌, length, All, arith, Returns, Returns-value,
  Returns-mono,
}
use mathlib.Core.Path.{subst}
use mathlib.Core.List.{append_assoc}
use musketeer.Errors.{done}
use musketeer.Buffer.Alloc.{Allocator}
use musketeer.Buffer.Append.{room}
use musketeer.Channel.Events.{has, cwevent}
use musketeer.Pool.{group_index}
use musketeer.Pool.View.{find}
use musketeer.Utilities.{read_bytes}
use musketeer.Utilities.Chain.{chain_contents}
use musketeer.TcpConnection.{TcpConnection, handle_read}
use musketeer.TcpConnection.Events.{reads, perform}
use musketeer.TcpConnection.Reading.{Reads, GotData, handle_read-GotData}
use musketeer.TcpConnection.Chains.{Fits}
use musketeer.TcpConnection.Draining.{sum, IsPositive}
use musketeer.Application.{response, answer_all, serve, serve_all}
use musketeer.Application.Queueing.{Takes}
use musketeer.Application.Answering.{
  read_ok, write_ok, Ended, writing, Asked, serve_writes, answer_whole, answer_part,
}

-- A connection that waits for a request, and has nothing to send.
pub record Ready (c : TcpConnection) : Type 0 where
  pub reads_on : Reads c
  pub chain : Fits c.write_buf_chain
  pub takes : Takes (length response) c.write_buf_chain
  pub empty : chain_contents c.write_buf_chain ≡ []
  pub quiet : has c.channel.chan.events cwevent ≡ false

module _ (a : Allocator) (time : ℕ → ℕ) where
  asked : (c d : TcpConnection) {xs : List ℕ} → Ready c → GotData xs c d → Asked c.calls d
  asked c d w p = record {
    live = p.live;
    is_open = p.is_open;
    chain = subst Fits (sym p.chain_kept) w.chain;
    takes = subst (Takes (length response)) (sym p.chain_kept) w.takes;
    empty = ap chain_contents p.chain_kept ∙ w.empty;
    quiet = p.writing_kept ∙ w.quiet;
    told = p.told;
  }

  -- A connection that waits for a request and has nothing to send, to which bytes come that fit in its
  -- buffer, and where the kernel takes the response by any positive counts of bytes, the first at once and
  -- the others in later writes: all of it returns, the connection is closed and out of the pool, it has told
  -- the application of the request and then of the response sent, and of nothing else, and both calls were
  -- answered.
  pub request_answered :
      (c : TcpConnection) (x : ℕ) (xs : List ℕ) (n : ℕ) (ns : List ℕ)
      → Ready c
      → length (x ∷ xs) ≤ room c.read_buf
      → All IsPositive (n ∷ ns)
      → sum (n ∷ ns) ≡ length response
      → Returns (Ended (read_ok ∷ write_ok ∷ []) c) (
          serve_all a time ((reads (read_bytes (x ∷ xs)), done n) ∷ writing ns) (length c.calls, c))
  unfolding serve_all serve perform
  request_answered c x xs n [] w h (p, q) all =
      let (d, ed, pd) =
        Returns-value (GotData (x ∷ xs) c) (handle_read (read_bytes (x ∷ xs)) c)
          (handle_read-GotData c x xs w.reads_on h) in
      let whole : length response ≡ n = omega (arith, all) in
      let (r, er, (shut, fd, gone, told, answered)) =
        Returns-value _ (answer_all a time 3 (done (length response)) (length c.calls) d)
          (answer_whole a time c.calls d (asked c d w pd)) in
      rw (ed, (rw whole at er))
        (record {
          is_closed = shut;
          shut = fd;
          unpooled = ap (λ k. find r.1.pool (group_index k) k.index) (sym pd.self_kept) ∙ gone;
          told = told;
          answered = answered;
        })
  request_answered c x xs n (m ∷ ms) w h (p, q) all =
      let (d, ed, pd) =
        Returns-value (GotData (x ∷ xs) c) (handle_read (read_bytes (x ∷ xs)) c)
          (handle_read-GotData c x xs w.reads_on h) in
      let (r, er, (pending, rest, told, answered, same)) =
        Returns-value _ (answer_all a time 3 (done n) (length c.calls) d)
          (answer_part a time n c.calls d (asked c d w pd) p (omega (arith, all, q.0))) in
      let e = r.1 in
      let place : r ≡ (length e.calls, e) = λ i. (answered i, e) in
      rw (ed, er, place)
        (Returns-mono (Ended (write_ok ∷ []) e) (Ended (read_ok ∷ write_ok ∷ []) c)
          (serve_all a time (writing (m ∷ ms)) (length e.calls, e))
          (λ s t. record {
            is_closed = t.is_closed;
            shut = t.shut;
            unpooled =
                ap (λ k. find s.1.pool (group_index k) k.index) (sym (same ∙ pd.self_kept))
                ∙ t.unpooled;
            told =
                t.told
                ∙ (ap (λ ks. ks ++ write_ok ∷ []) told
                    ∙ append_assoc c.calls (read_ok ∷ []) (write_ok ∷ []));
            answered = t.answered;
          })
          (serve_writes a time m ms e pending q (omega (arith, all, rest))))
