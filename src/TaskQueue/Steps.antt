-- ===== src/TaskQueue/Steps.antt =====
-- base/TaskQueue.cpp: any interleaving of senders with the thread that reads.
use mathlib.Core.List.{append_assoc, append-nil}
use musketeer.Prelude.{
  ◌+◌, ◌≤◌, ◌<◌, ◌≡◌, refl, sym, ap, ◌∙◌, List, [], ◌∷◌, ◌++◌, length, length-append, none, some,
  arith, ok,
}
use musketeer.TaskQueue.{Task, World, push_task, notify, begin_read, pop_task, pop_from}
use musketeer.TaskQueue.EventFd.{Eventfd, counter_limit}

-- The calls that a list of tasks makes.
abbrev pub calls : {T : Type 0} → List (Task T) → List T
calls [] = []
calls (none ∷ ts) = calls ts
calls (some t ∷ ts) = t ∷ calls ts

pub calls-append : {T : Type 0} (xs ys : List (Task T)) → calls (xs ++ ys) ≡ calls xs ++ calls ys
calls-append [] ys = refl
calls-append (none ∷ xs) ys = calls-append xs ys
calls-append (some t ∷ xs) ys = ap (λ zs. t ∷ zs) (calls-append xs ys)

module _ {fd : Eventfd} {T : Type 0} where
  -- What a thread can do next. The loop of `handleRead` runs until `num` is 0, and only then can
  -- the thread read the eventfd again; a task that it calls may send.
  pub data Step (w : World fd T) : World fd T → Type 0 where
    pushes : {u : World fd T} → (t : Task T) → u ≡ push_task w t → Step w u
    notifies : {u : World fd T} → 0 < w.writing → notify w ≡ ok u → Step w u
    reads : {u : World fd T} → w.left ≡ 0 → begin_read w ≡ ok u → Step w u
    pops : {u : World fd T} → 0 < w.left → u ≡ pop_task w → Step w u

  pub data Reach (w : World fd T) : World fd T → Type 0 where
    here : Reach w w
    next : {u v : World fd T} → Reach w u → Step u v → Reach w v

  -- Every queued task is paid for by a count of the eventfd, by a sender that has still to write,
  -- or by a round of the loop.
  pub record Inv (w : World fd T) : Type 0 where
    pub paid : length w.queue ≡ fd.count w.event + w.writing + w.left
    pub kept : w.popped ++ w.queue ≡ w.sent
    pub called : w.ran ≡ calls w.popped
    pub quiet : w.alerts ≡ 0

  pub push_task-Inv : (w : World fd T) (t : Task T) → Inv w → Inv (push_task w t)
  unfolding push_task
  push_task-Inv w t v =
      ground (arith, v.kept, length-append w.queue (t ∷ []), append_assoc w.popped w.queue (t ∷ []))

  pub notify-Inv :
      (w u : World fd T)
      → Inv w
      → length w.queue < counter_limit
      → 0 < w.writing
      → notify w ≡ ok u
      → Inv u
  unfolding notify
  notify-Inv w u v h k e = ground (arith, v.paid, v.kept, v.called, fd.write_adds w.event 1)

  begin_read-Inv : (w u : World fd T) → Inv w → w.left ≡ 0 → begin_read w ≡ ok u → Inv u
  unfolding begin_read
  begin_read-Inv w u v z e =
      ground (arith, v.paid, v.kept, v.called, fd.read_takes w.event, fd.read_empty w.event)

  pop_from-Inv :
      (w : World fd T) (q : List (Task T)) → w.queue ≡ q → Inv w → 0 < w.left → Inv (pop_from w q)
  unfolding pop_from
  pop_from-Inv w [] e v h = absurd (omega (arith, v.paid, ap length e))
  pop_from-Inv w (none ∷ ts) e v h = ground (
    arith,
    v.kept,
    calls-append w.popped (none ∷ []),
    append-nil (calls w.popped),
    append_assoc w.popped (none ∷ []) ts,
  )
  pop_from-Inv w (some t ∷ ts) e v h =
      ground
        (arith, v.kept, calls-append w.popped (some t ∷ []), append_assoc w.popped (some t ∷ []) ts)

  pub pop_task-Inv : (w : World fd T) → Inv w → 0 < w.left → Inv (pop_task w)
  unfolding pop_task
  pop_task-Inv w v h = pop_from-Inv w w.queue refl v h

  pub length-queue-le-sent : (w : World fd T) → Inv w → length w.queue ≤ length w.sent
  length-queue-le-sent w v = omega (arith, length-append w.popped w.queue, ap length v.kept)

  -- Whatever runs next, the invariant is kept, while fewer tasks were sent than the counter holds.
  pub Step-Inv : (w u : World fd T) → length w.sent < counter_limit → Inv w → Step w u → Inv u
  Step-Inv w u k v (pushes t e) = rw e (push_task-Inv w t v)
  Step-Inv w u k v (notifies h e) = notify-Inv w u v (omega (arith, length-queue-le-sent w v)) h e
  Step-Inv w u k v (reads z e) = begin_read-Inv w u v z e
  Step-Inv w u k v (pops h e) = rw e (pop_task-Inv w v h)

  sent_grows : (w u : World fd T) → Step w u → length w.sent ≤ length u.sent
  unfolding push_task notify begin_read pop_task pop_from
  sent_grows w u (pushes t e) = ground (arith, length-append w.sent (t ∷ []))
  sent_grows w u (notifies h e) = ground arith
  sent_grows w u (reads z e) = ground arith
  sent_grows w u (pops h e) = ground arith

  Reach_from-Inv :
      (w : World fd T) {u : World fd T} → Reach w u → length u.sent < counter_limit → Inv w → Inv u
  Reach_from-Inv w here k v = v
  Reach_from-Inv w (next {u = m} {v = u} r st) k v =
      let below = sent_grows m u st in
      Step-Inv m u (omega arith) (Reach_from-Inv w r (omega arith) v) st

nil_of_length {ℓ} : {A : Type ℓ} (xs : List A) → length xs ≡ 0 → xs ≡ []
nil_of_length [] h = refl
nil_of_length (x ∷ xs) h = absurd (omega arith)

module _ {fd : Eventfd} {T : Type 0} where
  pub settled :
      (u : World fd T)
      → Inv u
      → fd.count u.event ≡ 0
      → u.writing ≡ 0
      → u.left ≡ 0
      → (u.queue ≡ []) × (u.ran ≡ calls u.sent)
  settled u v c w l =
      let none_left : u.queue ≡ [] = nil_of_length u.queue (omega (arith, v.paid)) in
      (
        none_left,
        v.called
            ∙ ap calls
                (sym (append-nil u.popped) ∙ ap (λ q. u.popped ++ q) (sym none_left) ∙ v.kept),
      )

-- A queue after `Init`, with the eventfd at 0.
abbrev pub fresh : (fd : Eventfd) (T : Type 0) → fd.State → World fd T
fresh fd T s = record {
  event = s;
  queue = [];
  writing = 0;
  left = 0;
  ran = [];
  alerts = 0;
  sent = [];
  popped = [];
}

-- In every interleaving of `SendTask` and `handleRead`, from a new eventfd and with fewer tasks
-- sent than the counter holds, the counts of the eventfd, the senders that have still to write and
-- the rounds left pay for the tasks in the queue; the tasks popped and queued are those sent, in
-- order; the calls made are those of the popped tasks, in order; and the loop never finds the queue
-- empty.
pub Reach-Inv :
    (fd : Eventfd) (T : Type 0) (s : fd.State) (u : World fd T)
    → fd.count s ≡ 0
    → Reach (fresh fd T s) u
    → length u.sent < counter_limit
    → Inv u
Reach-Inv fd T s u z r k =
    Reach_from-Inv (fresh fd T s) r k
      (record { paid = omega arith; kept = refl; called = refl; quiet = refl })

-- In every interleaving from a new eventfd, with fewer tasks sent than the counter holds: once no
-- sender is between its two steps, the counter is 0 and the loop is over, every task sent was
-- called once, in the order sent.
pub all_called :
    (fd : Eventfd) (T : Type 0) (s : fd.State) (u : World fd T)
    → fd.count s ≡ 0
    → Reach (fresh fd T s) u
    → length u.sent < counter_limit
    → fd.count u.event ≡ 0
    → u.writing ≡ 0
    → u.left ≡ 0
    → (u.queue ≡ []) × (u.ran ≡ calls u.sent)
all_called fd T s u z r k c w l = settled u (Reach-Inv fd T s u z r k) c w l
