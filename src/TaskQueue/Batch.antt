-- ===== src/TaskQueue/Batch.antt =====
-- base/TaskQueue.cpp, several calls of `SendTask` by one thread and then `handleRead`.
use mathlib.Core.List.{append_assoc, append-nil}
use musketeer.Prelude.{
  suc, ◌+◌, ◌<◌, ◌≡◌, refl, sym, ap, ◌∙◌, List, [], ◌∷◌, ◌++◌, length, length-append, drop, map,
  some, arith, Outcome, ok, ◌>>=◌, Returns, Returns-value,
}
use musketeer.TaskQueue.{World, send_task, begin_read, handle_read}
use musketeer.TaskQueue.EventFd.{Eventfd, counter_limit}
use musketeer.TaskQueue.Steps.{calls, calls-append}
use musketeer.TaskQueue.Drain.{
  begin_read_takes, Ready, Sent, send_task-Sent, Drained, handle_read-Drained,
}

calls-some : {T : Type 0} (ts : List T) → calls (map some ts) ≡ ts
calls-some [] = refl
calls-some (t ∷ ts) = ap (λ zs. t ∷ zs) (calls-some ts)

length-map-some : {T : Type 0} (ts : List T) → length (map some ts) ≡ length ts
length-map-some [] = refl
length-map-some (t ∷ ts) = ap suc (length-map-some ts)

drop_prefix : {T : Type 0} (xs ys : List T) → drop (length xs) (xs ++ ys) ≡ ys
drop_prefix [] ys = refl
drop_prefix (x ∷ xs) ys = drop_prefix xs ys

module _ {fd : Eventfd} {T : Type 0} where
  -- Calls of `SendTask`, one after the other.
  unfoldable pub send_batch : List T → World fd T → Outcome (World fd T)
  send_batch [] w = ok w
  send_batch (t ∷ ts) w = do w' ← send_task w (some t); send_batch ts w'

  -- What they leave.
  pub record BatchSent (ts : List T) (w u : World fd T) : Type 0 where
    pub ready : Ready u
    pub sent : u.sent ≡ w.sent ++ map some ts
    pub uncalled : u.ran ≡ w.ran
    pub queued : u.queue ≡ w.queue ++ map some ts

  send_batch-BatchSent :
      (ts : List T) (w : World fd T)
      → Ready w
      → length w.sent + length ts < counter_limit
      → Returns (BatchSent ts w) (send_batch ts w)
  unfolding send_batch
  send_batch-BatchSent [] w r few = record {
    ready = r;
    sent = sym (append-nil w.sent);
    uncalled = refl;
    queued = sym (append-nil w.queue);
  }
  send_batch-BatchSent (t ∷ ts) w r few =
      let (u, e, p) =
        Returns-value (Sent w (some t)) (send_task w (some t))
          (send_task-Sent w (some t) r (omega arith)) in
      let (x, ex, px) = Returns-value (BatchSent ts u) (send_batch ts u) (
        send_batch-BatchSent ts u p.ready
          (omega (arith, few, ap length p.sent, length-append w.sent (some t ∷ [])))) in
      rw (e, ex)
        (record {
          ready = px.ready;
          sent =
              px.sent
              ∙ (ap (λ s. s ++ map some ts) p.sent
                  ∙ append_assoc w.sent (some t ∷ []) (map some ts));
          uncalled = px.uncalled ∙ p.uncalled;
          queued =
              px.queued
              ∙ (ap (λ s. s ++ map some ts) p.queued
                  ∙ append_assoc w.queue (some t ∷ []) (map some ts));
        })

  -- A batch that one thread sends to an idle queue, as the owner of the queue finds it: all its tasks are there, and
  -- the counter is their number.
  pub record BatchFound (ts : List T) (w : World fd T) : Type 0 where
    pub sent : World fd T
    pub sends : send_batch ts w ≡ ok sent
    pub queued : sent.queue ≡ map some ts
    pub state : fd.State
    pub read : fd.read sent.event ≡ some (length ts, state)
    pub begins : begin_read sent ≡ ok (record sent { event = state; left = length ts })

  pub send_batch-BatchFound :
      (ts : List T) (w : World fd T)
      → Ready w
      → w.queue ≡ []
      → length w.sent + length ts < counter_limit
      → 0 < length ts
      → BatchFound ts w
  send_batch-BatchFound ts w r empty few some_task =
      let (u, e, p) =
        Returns-value (BatchSent ts w) (send_batch ts w) (send_batch-BatchSent ts w r few) in
      let queued : u.queue ≡ map some ts = p.queued ∙ ap (λ q. q ++ map some ts) empty in
      let counted : fd.count u.event ≡ length ts = omega (
        arith,
        p.ready.inv.paid,
        p.ready.no_sender,
        p.ready.no_round,
        ap length queued,
        length-map-some ts,
      ) in
      let (s, taken, begins) = begin_read_takes u (length ts) counted some_task in
      record { sent = u; sends = e; queued = queued; state = s; read = taken; begins = begins }

  -- A batch that one thread sends to an idle queue: `SendTask` returns each time, and the next
  -- `handleRead` returns, having called the tasks of the batch, all of them and in order.
  pub record BatchServed (ts : List T) (w : World fd T) : Type 0 where
    pub sent : World fd T
    pub read : World fd T
    pub sends : send_batch ts w ≡ ok sent
    pub reads : handle_read sent ≡ ok read
    pub taken : drop (length sent.ran) read.ran ≡ ts

  pub send_batch-BatchServed :
      (ts : List T) (w : World fd T)
      → Ready w
      → w.queue ≡ []
      → length w.sent + length ts < counter_limit
      → BatchServed ts w
  send_batch-BatchServed ts w r empty few =
      let (u, e, p) =
        Returns-value (BatchSent ts w) (send_batch ts w) (send_batch-BatchSent ts w r few) in
      let (q, eq, pq) =
        Returns-value (Drained u) (handle_read u)
          (handle_read-Drained u p.ready.inv p.ready.no_sender p.ready.no_round) in
      let popped : w.popped ≡ w.sent =
        sym (append-nil w.popped) ∙ (ap (λ x. w.popped ++ x) (sym empty) ∙ r.inv.kept) in
      let all : q.ran ≡ w.ran ++ ts =
        cc (
          pq.all,
          p.sent,
          calls-append w.sent (map some ts),
          calls-some ts,
          r.inv.called,
          popped,
        ) in
      record {
        sent = u;
        read = q;
        sends = e;
        reads = eq;
        taken = cc (p.uncalled, all, drop_prefix w.ran ts);
      }
