-- ===== src/TaskQueue/Drain.antt =====
-- base/TaskQueue.cpp, `handleRead` run with nobody in between.
use musketeer.Prelude.{
  ℕ, zero, suc, ◌+◌, ◌-◌, ◌<◌, ◌≡◌, refl, [], length, arith, Returns, Returns-value, Returns-mono,
  length-append, ap, ◌∙◌, ◌++◌, ◌∷◌, ◌>>=◌, ok, List, some, sym,
}
use native.Mathlib.Decide.{dec_lt}
use musketeer.TaskQueue.{
  Task, World, send_task, push_task, notify, begin_read, pop_task, pop_tasks, pop_from, handle_read,
}
use musketeer.TaskQueue.EventFd.{Eventfd, counter_limit}
use musketeer.TaskQueue.Steps.{
  Inv, pop_task-Inv, settled, calls, push_task-Inv, notify-Inv, length-queue-le-sent,
}

module _ {fd : Eventfd} {T : Type 0} where
  -- A round leaves everything but the queue and the calls.
  pop_task_left :
      (w : World fd T)
      → ((pop_task w).left ≡ w.left - 1)
        × ((pop_task w).event ≡ w.event)
        × ((pop_task w).writing ≡ w.writing)
        × ((pop_task w).sent ≡ w.sent)
  unfolding pop_task pop_from
  pop_task_left w = ground arith

  pop_tasks-Inv :
      (n : ℕ) (w : World fd T)
      → Inv w
      → w.left ≡ n
      → Inv (pop_tasks n w)
        × ((pop_tasks n w).left ≡ 0)
        × ((pop_tasks n w).event ≡ w.event)
        × ((pop_tasks n w).writing ≡ w.writing)
        × ((pop_tasks n w).sent ≡ w.sent)
  unfolding pop_tasks
  pop_tasks-Inv zero w v e = (v, e, refl, refl, refl)
  pop_tasks-Inv (suc n) w v e = ground (
    arith,
    pop_task_left w,
    pop_tasks-Inv n (pop_task w) (pop_task-Inv w v (omega arith)) (omega (arith, pop_task_left w)),
  )

  Begun : World fd T → World fd T → Type 0
  Begun w u = Inv u × (fd.count u.event ≡ 0) × (u.writing ≡ w.writing) × (u.sent ≡ w.sent)

  begin_read-Begun : (w : World fd T) → Inv w → w.left ≡ 0 → Returns (Begun w) (begin_read w)
  unfolding begin_read Begun
  begin_read-Begun w v z = elim (dec_lt 0 (fd.count w.event)) [
    | yes h ↦
        let (s', e, c) = fd.read_takes w.event h in rw e (ground (arith, v.paid, v.kept, v.called))
    | no h ↦ rw (fd.read_empty w.event (omega arith)) (v, omega arith, refl, refl)
  ]

  -- What `handleRead` has done when it is run to its end.
  pub record Drained (w u : World fd T) : Type 0 where
    pub emptied : u.queue ≡ []
    pub all : u.ran ≡ calls w.sent
    pub quiet : u.alerts ≡ 0
    pub valid : Inv u

  -- With no sender between its two steps, `handleRead` returns, calls every task that is queued, in
  -- order, and leaves the queue empty; it never finds the queue empty too soon.
  pub handle_read-Drained :
      (w : World fd T) → Inv w → w.writing ≡ 0 → w.left ≡ 0 → Returns (Drained w) (handle_read w)
  unfolding handle_read Begun
  handle_read-Drained w v q z =
      let (u, e, (vu, c, wr, st)) =
        Returns-value (Begun w) (begin_read w) (begin_read-Begun w v z) in
      let (vd, l, ev, wr', st') = pop_tasks-Inv u.left u vu refl in
      let (none_left, ran) =
        settled (pop_tasks u.left u) vd (omega (arith, ap fd.count ev)) (omega arith) l in
      rw e (record {
        emptied = none_left;
        all = ran ∙ ap calls (st' ∙ st);
        quiet = vd.quiet;
        valid = vd;
      })

  pushed :
      (w : World fd T) (t : Task T)
      → ((push_task w t).writing ≡ w.writing + 1)
        × ((push_task w t).left ≡ w.left)
        × ((push_task w t).sent ≡ w.sent ++ t ∷ [])
  unfolding push_task
  pushed w t = (refl, refl, refl)

  abbrev Notified : World fd T → World fd T → Type 0
  Notified w u = (u.writing ≡ w.writing - 1) × (u.left ≡ w.left) × (u.sent ≡ w.sent)

  notify-Notified :
      (w : World fd T) → fd.count w.event + 1 < counter_limit → Returns (Notified w) (notify w)
  unfolding notify
  notify-Notified w h = let (s', e, c) = fd.write_adds w.event 1 h in rw e (refl, refl, refl)

  -- `SendTask` by one thread, with no other between its two steps and no round left, and then
  -- `handleRead`: both return, the queue is empty, and the task was called after all that were sent
  -- before.
  pub send_then_read :
      (w : World fd T) (t : Task T)
      → Inv w
      → w.writing ≡ 0
      → w.left ≡ 0
      → length w.sent + 1 < counter_limit
      → Returns
          (λ u. (u.queue ≡ []) × (u.ran ≡ calls (w.sent ++ t ∷ [])))
          (send_task w t >>= handle_read)
  unfolding send_task push_task
  send_then_read w t v q z k =
      let p = push_task w t in
      let vp = push_task-Inv w t v in
      let few : length p.queue < counter_limit =
        omega (arith, pushed w t, length-queue-le-sent p vp, length-append w.sent (t ∷ [])) in
      let (u, e, (wr, l, st)) =
        Returns-value (Notified p) (notify p) (notify-Notified p (omega (arith, few, vp.paid))) in
      let vu = notify-Inv p u vp few (omega (arith, pushed w t)) e in
      rw e (
        Returns-mono (Drained u) _ (handle_read u)
          (λ x d. (d.emptied, d.all ∙ ap calls (st ∙ (pushed w t).2)))
          (handle_read-Drained u vu (omega (arith, pushed w t)) (omega (arith, pushed w t))))

  -- A queue that nobody is at work on.
  pub record Ready (w : World fd T) : Type 0 where
    pub inv : Inv w
    pub no_sender : w.writing ≡ 0
    pub no_round : w.left ≡ 0

  -- What one `SendTask` leaves.
  pub record Sent (w : World fd T) (t : Task T) (u : World fd T) : Type 0 where
    pub ready : Ready u
    pub sent : u.sent ≡ w.sent ++ t ∷ []
    pub uncalled : u.ran ≡ w.ran
    pub queued : u.queue ≡ w.queue ++ t ∷ []

  notify_keeps : (w u : World fd T) → notify w ≡ ok u → (u.ran ≡ w.ran) × (u.queue ≡ w.queue)
  unfolding notify
  notify_keeps w u e = ground arith

  pub pop_task_queue :
      (w : World fd T) (t : Task T) (ts : List (Task T))
      → w.queue ≡ t ∷ ts
      → (pop_task w).queue ≡ ts
  unfolding pop_task pop_from
  pop_task_queue w t ts e = ground arith

  -- `eventfd_read` of a counter that is not 0 takes all of it.
  pub begin_read_takes :
      (w : World fd T) (n : ℕ)
      → fd.count w.event ≡ n
      → 0 < n
      → (s : fd.State) × (fd.read w.event ≡ some (n, s))
        × (begin_read w ≡ ok (record w { event = s; left = n }))
  unfolding begin_read
  begin_read_takes w n c h =
      let (s, e, z) = fd.read_takes w.event (omega (arith, c)) in
      let taken : fd.read w.event ≡ some (n, s) = rw (sym c) e in
      (s, taken, ground (arith, taken, h))

  pub send_task-Sent :
      (w : World fd T) (t : Task T)
      → Ready w
      → length w.sent + 1 < counter_limit
      → Returns (Sent w t) (send_task w t)
  unfolding send_task push_task
  send_task-Sent w t r k =
      let p = push_task w t in
      let vp = push_task-Inv w t r.inv in
      let few : length p.queue < counter_limit =
        omega (arith, pushed w t, length-queue-le-sent p vp, length-append w.sent (t ∷ [])) in
      let (u, e, (wr, l, st)) =
        Returns-value (Notified p) (notify p) (notify-Notified p (omega (arith, few, vp.paid))) in
      let vu = notify-Inv p u vp few (omega (arith, pushed w t)) e in
      rw e (record {
        ready = record {
          inv = vu;
          no_sender = omega (arith, pushed w t, wr, r.no_sender);
          no_round = omega (arith, pushed w t, l, r.no_round);
        };
        sent = st ∙ (pushed w t).2;
        uncalled = (notify_keeps p u e).0;
        queued = (notify_keeps p u e).1;
      })
