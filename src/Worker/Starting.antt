-- ===== src/Worker/Starting.antt =====
-- net/NetWorker.cpp, the constructor and `StartThread` one after the other.
use musketeer.Prelude.{
  ℕ, ◌+◌, ◌≡◌, ◌≢◌, refl, sym, ap, ap₂, ◌∙◌, Bool, true, false, ◌==◌, List, [], ◌∷◌, fault,
  dangling, none, some, arith, ok, Returns, Returns-value,
}
use musketeer.Prelude.Int.{pos}
use musketeer.Prelude.Assoc.{lookup}
use musketeer.Errors.{success as no_errno, done}
use musketeer.Channel.{Cycle, Watched, make}
use musketeer.Channel.Events.{has, crevent}
use musketeer.Channel.Lifecycle.{Inv}
use musketeer.Channel.Calls.{Registered}
use musketeer.CycleThread.{CycleThread, epoll, started, start}
use musketeer.CycleThread
use musketeer.TaskQueue.Starting.{Wakeup, cycle_after, Awake, init_lem, init as init_eventfd}
use musketeer.Timers.{TimerQueue, init}
use musketeer.Timers.Starting.{init_channel, init_channel_lem}
use musketeer.Listener.{Listener, listen}
use musketeer.Listener
use musketeer.Listener.Starting.{
  Listening, Idle, OthersKept, construct-Idle, destroy-Idle, listen-Listening, channel_of,
}
use musketeer.Worker.Making.{
  Kernel, NetWorker, construct, destroy, destroy_cycle, start_thread, init_tasks, init_timers,
  listens, c_input_connection_limit, share, share_queue,
}

-- The kernel gives a worker all that it asks for, each time on another descriptor.
pub record Willing (k : Kernel) : Type 0 where
  pub listen_fd : ℕ
  pub event_fd : ℕ
  pub timer_fd : ℕ
  pub polls : (n : ℕ) × (k.epoll_create ≡ done n)
  pub gives : k.socket ≡ done listen_fd
  pub wakes : k.eventfd ≡ done event_fd
  pub times : k.timerfd_create ≡ done timer_fd
  pub bound : (n : ℕ) × (k.bind ≡ done n)
  pub heard : (n : ℕ) × (k.listen ≡ done n)
  pub apart : (listen_fd ≢ event_fd) × (listen_fd ≢ timer_fd) × (event_fd ≢ timer_fd)

different : (a b : ℕ) → a ≢ b → ((a == b) ≡ false) × ((b == a) ≡ false)
different a b h = ground arith

-- A worker that was made, before its thread is started.
pub record Made (listen_fd i : ℕ) (w : NetWorker) : Type 0 where
  pub listener_idle : Idle w.listener
  pub shared : w.listener.cycle ≡ w.worker_thread.event_cycle
  pub fd : w.listener.chan.fd ≡ listen_fd
  pub alone :
      (n : ℕ) → (n == listen_fd) ≡ false → lookup n w.worker_thread.event_cycle.all_channels ≡ none
  pub asleep : w.task_queue.channel ≡ none
  pub numbered : w.index ≡ i

module _ (active : ℕ → Bool) (address : ℕ) where
  pub construct-Made :
      (k : Kernel) (i n fd : ℕ)
      → k.epoll_create ≡ done n
      → k.socket ≡ done fd
      → Returns (Made fd i) (construct active address k i)
  unfolding construct CycleThread.construct lookup
  construct-Made k i n fd polls gives =
      let cy : Cycle = record { all_channels = []; ctl = []; stop = false } in
      let (l, el, (idle, place, untouched, kept)) =
        Returns-value _
          (Listener.construct (done fd) true c_input_connection_limit active cy (init 0) address)
          (construct-Idle fd c_input_connection_limit address active cy (init 0) refl) in
      rw (polls, gives, el)
        (record {
          listener_idle = idle;
          shared = refl;
          fd = place;
          alone = λ m d. kept m d;
          asleep = refl;
          numbered = refl;
        })

destroy_cycle_held :
    (n id : ℕ) (m : List (ℕ × ℕ)) → lookup n m ≡ some id → destroy_cycle m ≡ fault dangling
unfolding destroy_cycle lookup
destroy_cycle_held n id [] h = cc
destroy_cycle_held n id (c ∷ cs) h = refl

-- A worker that was made cannot be destroyed: its listener's channel is still in the map of the cycle then.
pub destroy-Made : (fd i : ℕ) (w : NetWorker) → Made fd i w → destroy w ≡ fault dangling
unfolding destroy
destroy-Made fd i w m =
    let mapped : lookup w.listener.chan.fd w.listener.cycle.all_channels ≡ some w.listener.chan_id =
      ground (arith, m.listener_idle.inv.mapped, m.listener_idle.status) in
    let held : lookup w.listener.chan.fd w.worker_thread.event_cycle.all_channels
        ≡ some w.listener.chan_id =
      ap (λ c. lookup w.listener.chan.fd c.all_channels) (sym m.shared) ∙ mapped in
    rw (destroy-Idle w.listener m.listener_idle) (
      destroy_cycle_held w.listener.chan.fd w.listener.chan_id
        w.worker_thread.event_cycle.all_channels held)

-- A channel as it stands in a cycle.
abbrev pub in_cycle : Cycle → Watched → Watched
in_cycle cy v = record v { cycle = cy }

-- A channel that no later step touched is in order in the cycle as it has become.
Inv-in_cycle :
    (v : Watched) (cy : Cycle)
    → Inv v
    → lookup v.chan.fd cy.all_channels ≡ lookup v.chan.fd v.cycle.all_channels
    → Inv (in_cycle cy v)
Inv-in_cycle v cy i same = record {
  interest = i.interest;
  watched = i.watched;
  mapped = same ∙ i.mapped;
}

-- A worker at work.
pub record Running (k : Kernel) (i : ℕ) (w : NetWorker) : Type 0 where
  pub listening : Listening w.listener
  pub tasks : Watched
  pub tasks_are : w.task_queue.channel ≡ some tasks
  pub tasks_inv : Inv (in_cycle w.worker_thread.event_cycle tasks)
  pub tasks_reading : has tasks.chan.events crevent ≡ true
  pub tasks_callback : tasks.chan.read_callback ≡ true
  pub timers : Watched
  pub timers_are : w.timer_channel ≡ some timers
  pub timers_inv : Inv (in_cycle w.worker_thread.event_cycle timers)
  pub timers_idle : timers.chan.events ≡ 0
  pub queue : w.timer_queue ≡ init 600
  pub shared :
      (w.listener.cycle ≡ w.worker_thread.event_cycle)
      × (w.connector.cycle ≡ w.worker_thread.event_cycle)
  pub thread : w.worker_thread.thread_id ≡ some k.thread_id
  pub numbered : w.worker_thread.thread_index ≡ pos i

-- The worker after each of the steps.
abbrev awake : NetWorker → Wakeup → Watched → NetWorker
awake w s v = share v.cycle (record w { task_queue = s; addresses = w.addresses + 1 })

abbrev timed : NetWorker → TimerQueue → Watched → NetWorker
timed w q u =
    share u.cycle (share_queue q (record w { timer_channel = some u; addresses = w.addresses + 1 }))

abbrev heard_by : NetWorker → Listener → NetWorker
heard_by w l = share l.cycle (record w { listener = l })

init_tasks_lem :
    (k : Kernel) (w : NetWorker) (n : ℕ) (s : Wakeup) (v : Watched)
    → k.eventfd ≡ done n
    → init_eventfd (done n) w.worker_thread.event_cycle w.addresses w.task_queue ≡ ok s
    → s.channel ≡ some v
    → init_tasks k w ≡ ok (awake w s v)
unfolding init_tasks
init_tasks_lem k w n s v given e here =
    rw (given, e)
      (ap
        (λ c. ok (
          share (cycle_after c w.worker_thread.event_cycle)
            (record w { task_queue = s; addresses = w.addresses + 1 })))
        here)

init_timers_lem :
    (k : Kernel) (w : NetWorker) (n : ℕ) (q : TimerQueue) (u : Watched)
    → k.timerfd_create ≡ done n
    → init_channel (done n) w.worker_thread.event_cycle w.addresses 600 ≡ ok (q, u)
    → init_timers k w ≡ ok (timed w q u)
unfolding init_timers
init_timers_lem k w n q u given e = rw (given, e) refl

listens_lem :
    (k : Kernel) (w : NetWorker) (n : ℕ) (l : Listener)
    → k.listen ≡ done n
    → listen (done n) w.listener ≡ ok l
    → listens k w ≡ ok (heard_by w l)
unfolding listens
listens_lem k w n l given e = rw (given, e) refl

-- The last step, on a worker with its two channels.
module _ (k : Kernel) (i n e t : ℕ) (w : NetWorker) (s : Wakeup) (v : Watched) (q : TimerQueue)
    (u : Watched) (apart : (n ≢ e) × (n ≢ t) × (e ≢ t)) (m : Made n i w) (here : s.channel ≡ some v)
    (pv : Awake w.worker_thread.event_cycle w.addresses e v) (made : q ≡ init 600)
    (pu : Registered v.cycle (w.addresses + 1) t u) where
  -- The listener as it is then.
  ready-Idle : Idle (timed (awake w s v) q u).listener
  unfolding make
  ready-Idle =
      let own : lookup w.listener.chan.fd u.cycle.all_channels
          ≡ lookup w.listener.chan.fd w.listener.cycle.all_channels =
        pu.keeps.others_kept w.listener.chan.fd (ap (λ x. x == t) m.fd ∙ (different n t apart.1).0)
        ∙ (pv.others_kept w.listener.chan.fd (ap (λ x. x == e) m.fd ∙ (different n e apart.0).0)
            ∙ ap (λ c. lookup w.listener.chan.fd c.all_channels) (sym m.shared)) in
      record {
        inv = Inv-in_cycle (channel_of w.listener) u.cycle m.listener_idle.inv own;
        status = m.listener_idle.status;
        idle = m.listener_idle.idle;
        open_fd = m.listener_idle.open_fd;
        answered = m.listener_idle.answered;
      }

  heard-Running :
      (l : Listener)
      → Listening l
      → OthersKept w.listener.chan.fd u.cycle l
      → Running k i (record (heard_by (timed (awake w s v) q u) l) {
        worker_thread =
            started (pos w.index) k.thread_id (record (w.worker_thread) { event_cycle = l.cycle });
      })
  unfolding make
  heard-Running l listening kept =
      let tasks_kept : lookup v.chan.fd l.cycle.all_channels
          ≡ lookup v.chan.fd v.cycle.all_channels =
        kept v.chan.fd (ap₂ (λ a b. a == b) pv.fd m.fd ∙ (different n e apart.0).1)
        ∙ pu.keeps.others_kept v.chan.fd (ap (λ x. x == t) pv.fd ∙ (different e t apart.2).0) in
      let timers_kept : lookup u.chan.fd l.cycle.all_channels
          ≡ lookup u.chan.fd u.cycle.all_channels =
        kept u.chan.fd (ap₂ (λ a b. a == b) pu.keeps.fd_kept m.fd ∙ (different n t apart.1).1) in
      record {
        listening = listening;
        tasks = v;
        tasks_are = here;
        tasks_inv = Inv-in_cycle v l.cycle pv.inv tasks_kept;
        tasks_reading = pv.reading;
        tasks_callback = pv.read_callback;
        timers = u;
        timers_are = refl;
        timers_inv = Inv-in_cycle u l.cycle pu.inv timers_kept;
        timers_idle = pu.idle;
        queue = made;
        shared = (refl, refl);
        thread = refl;
        numbered = ap pos m.numbered;
      }

-- `StartThread` of a worker that was made, for which the kernel has what it asks for, each time on another
-- descriptor, returns: its listener listens, its task queue waits to be woken, its timers are free and their
-- channel is registered, each channel is in order in the cycle that all share, and the thread has its index
-- and its id.
pub start_thread-Running :
    (k : Kernel) (i : ℕ) (w : NetWorker) (p : Willing k)
    → Made p.listen_fd i w
    → Returns (Running k i) (start_thread k w)
unfolding start_thread start
start_thread-Running k i w p m =
    let (b, eb) = p.heard in
    let (s, es, (efd, v, here, pv)) =
      Returns-value _
        (init_eventfd (done p.event_fd) w.worker_thread.event_cycle w.addresses w.task_queue)
        (init_lem p.event_fd w.addresses no_errno k.eventfd w.worker_thread.event_cycle w.task_queue
          (channel_of w.listener)
          (m.alone p.event_fd (different p.listen_fd p.event_fd p.apart.0).1) m.asleep).0 in
    let free : lookup p.timer_fd v.cycle.all_channels ≡ none =
      pv.others_kept p.timer_fd (different p.event_fd p.timer_fd p.apart.2).1
      ∙ m.alone p.timer_fd (different p.listen_fd p.timer_fd p.apart.1).1 in
    let ((q, u), eu, (made, pu)) =
      Returns-value _ (init_channel (done p.timer_fd) v.cycle (w.addresses + 1) 600)
        (init_channel_lem p.timer_fd (w.addresses + 1) 600 no_errno v.cycle free).0 in
    let w₁ = awake w s v in
    let w₂ = timed w₁ q u in
    let (l, el, (listening, fd, untouched, kept)) = Returns-value _ (listen (done b) w₂.listener) (
      listen-Listening b w₂.listener
        (ready-Idle k i p.listen_fd p.event_fd p.timer_fd w s v q u p.apart m here pv made pu)) in
    rw
      (
        init_tasks_lem k w p.event_fd s v p.wakes es here,
        init_timers_lem k w₁ p.timer_fd q u p.times eu,
        listens_lem k w₂ b l eb el,
      )
      (heard-Running k i p.listen_fd p.event_fd p.timer_fd w s v q u p.apart m here pv made pu l
        listening kept)
