-- ===== src/Manager/Startup.antt =====
-- base/Manager.cpp and musketeer.cpp: what `main` does, where the kernel gives all that is asked for and where not.
use musketeer.Prelude.{
  ℕ, zero, suc, ◌+◌, ◌<◌, ◌≡◌, refl, ap, Bool, true, false, List, [], ◌∷◌, ◌++◌, length,
  length-append, arith, ok, fault, dangling, assertion, none, out_of_bounds, Returns, Returns-value,
  Returns-mono,
}
use mathlib.Core.Path.{subst}
use musketeer.Errors.{success as no_errno, SysResult, done, failed, Errno}
use musketeer.TaskQueue.EventFd.{Eventfd}
use musketeer.Prelude.Assoc.{lookup}
use musketeer.Logger.{Logger, debug}
use musketeer.Logger.Starting.{TakesLines, start_thread-TakesLines}
use musketeer.Logger
use musketeer.Listener.Starting.{bind_local_addr_lem}
use musketeer.Worker.Making.{Kernel, NetWorker, construct, start_thread}
use musketeer.Worker.Making
use musketeer.Worker.Starting.{
  Willing, Made, Running, construct-Made, destroy-Made, start_thread-Running,
}
use musketeer.Manager.{
  Manager, can_log, check_workers, start_workers, check_and_set, init_threads, run_main,
  get_net_worker,
}

module _ (kernel : ℕ → Kernel) where
  -- The workers were made, the first for the processor `i`, each on the descriptor that the kernel gave.
  abbrev pub AllMade : ℕ → List NetWorker → Type 0
  AllMade i [] = Unit
  AllMade i (w ∷ ws) = ((fd : ℕ) × ((kernel i).socket ≡ done fd) × Made fd i w) × AllMade (i + 1) ws

  -- They run.
  abbrev pub AllRunning : ℕ → List NetWorker → Type 0
  AllRunning i [] = Unit
  AllRunning i (w ∷ ws) = Running (kernel i) i w × AllRunning (i + 1) ws

  AllMade-append :
      (i j : ℕ) (ws : List NetWorker) (w : NetWorker) (fd : ℕ)
      → AllMade i ws
      → j ≡ i + length ws
      → (kernel j).socket ≡ done fd
      → Made fd j w
      → AllMade i (ws ++ w ∷ [])
  AllMade-append i j [] w fd h e given m =
      let same : j ≡ i = omega (arith, e) in
      (
        (fd, subst (λ x. (kernel x).socket ≡ done fd) same given, subst (λ x. Made fd x w) same m),
        tt,
      )
  AllMade-append i j (v ∷ ws) w fd (h, hs) e given m =
      (h, AllMade-append (i + 1) j ws w fd hs (omega (arith, e)) given m)

module _ (active : ℕ → Bool) (address : ℕ) (kernel : ℕ → Kernel) where
  -- The worker for the processor `i`, and what `CheckAndSet` says of it.
  worker_for :
      (i fd n : ℕ)
      → (kernel i).epoll_create ≡ done n
      → (kernel i).socket ≡ done fd
      → (w : NetWorker) × (construct active address (kernel i) i ≡ ok w) × Made fd i w
  worker_for i fd n polls given =
      Returns-value (Made fd i) (construct active address (kernel i) i)
        (construct-Made active address (kernel i) i n fd polls given)

  bind_says :
      (k : Kernel) (w : NetWorker) (fd i n : ℕ) (e : Errno)
      → Made fd i w
      → ((k.bind ≡ done n) → Making.check_and_set k w ≡ ok true)
        × ((k.bind ≡ failed e) → Making.check_and_set k w ≡ ok false)
  unfolding Making.check_and_set
  bind_says k w fd i n e m =
      let (yes_then, no_then) =
        bind_local_addr_lem k.reuse_addr k.reuse_port n e w.listener m.listener_idle in
      (λ given. rw given yes_then, λ given. rw given no_then)

  -- As many workers more, where the kernel is willing.
  check_workers_all :
      (n i : ℕ) (ws : List NetWorker)
      → ((j : ℕ) → j < i + n → Willing (kernel j))
      → AllMade kernel 0 ws
      → i ≡ length ws
      → Returns
          (λ r. (r.0 ≡ true) × AllMade kernel 0 r.1 × (length r.1 ≡ length ws + n))
          (check_workers active address kernel n i ws)
  unfolding check_workers
  check_workers_all zero i ws willing h e = (refl, h, omega arith)
  check_workers_all (suc n) i ws willing h e =
      let k = willing i (omega arith) in
      let (w, ew, m) = worker_for i k.listen_fd k.polls.0 k.polls.1 k.gives in
      let bound = (bind_says (kernel i) w k.listen_fd i k.bound.0 no_errno m).0 k.bound.1 in
      let (r, er, (all, made, count)) =
        Returns-value _ (check_workers active address kernel n (i + 1) (ws ++ w ∷ [])) (
          check_workers_all n (i + 1) (ws ++ w ∷ []) (λ j lt. willing j (omega arith))
            (AllMade-append kernel 0 i ws w k.listen_fd h (omega (arith, e)) k.gives m)
            (omega (arith, e, length-append ws (w ∷ [])))) in
      rw (ew, bound, er) (all, made, omega (arith, count, length-append ws (w ∷ [])))

  -- As many more up to the first that cannot be bound.
  check_workers_until :
      (k n i m : ℕ) (ws : List NetWorker) (e : Errno) (fd x : ℕ)
      → m ≡ i + k
      → ((j : ℕ) → j < m → Willing (kernel j))
      → (kernel m).epoll_create ≡ done x
      → (kernel m).socket ≡ done fd
      → (kernel m).bind ≡ failed e
      → AllMade kernel 0 ws
      → i ≡ length ws
      → check_workers active address kernel (k + suc n) i ws ≡ fault dangling
  unfolding check_workers
  check_workers_until zero n i m ws e fd x place willing polls given refused h l =
      let same : m ≡ i = omega arith in
      let one_more : 0 + suc n ≡ suc n = omega arith in
      let (w, ew, p) =
        worker_for i fd x (subst (λ y. (kernel y).epoll_create ≡ done x) same polls)
          (subst (λ y. (kernel y).socket ≡ done fd) same given) in
      let unbound =
        (bind_says (kernel i) w fd i 0 e p).1
          (subst (λ y. (kernel y).bind ≡ failed e) same refused) in
      rw (one_more, ew, unbound, destroy-Made fd i w p) refl
  check_workers_until (suc k) n i m ws e fd x place willing polls given refused h l =
      let one_more : suc k + suc n ≡ suc (k + suc n) = omega arith in
      let p = willing i (omega arith) in
      let (w, ew, q) = worker_for i p.listen_fd p.polls.0 p.polls.1 p.gives in
      let bound = (bind_says (kernel i) w p.listen_fd i p.bound.0 no_errno q).0 p.bound.1 in
      rw (one_more, ew, bound)
        (check_workers_until k n (i + 1) m (ws ++ w ∷ []) e fd x (omega arith) willing polls given
          refused (AllMade-append kernel 0 i ws w p.listen_fd h (omega (arith, l)) p.gives q)
          (omega (arith, l, length-append ws (w ∷ []))))

  start_workers-AllRunning :
      (i : ℕ) (ws : List NetWorker)
      → ((j : ℕ) → j < i + length ws → Willing (kernel j))
      → AllMade kernel i ws
      → Returns
          (λ ws'. AllRunning kernel i ws' × (length ws' ≡ length ws))
          (start_workers active address kernel i ws)
  unfolding start_workers
  start_workers-AllRunning i [] willing h = (tt, refl)
  start_workers-AllRunning i (w ∷ ws) willing ((fd, given, m), hs) =
      let k = willing i (omega arith) in
      let same : fd ≡ k.listen_fd = ground (arith, given, k.gives) in
      let (w', ew, runs) =
        Returns-value (Running (kernel i) i) (start_thread (kernel i) w)
          (start_thread-Running (kernel i) i w k (subst (λ x. Made x i w) same m)) in
      let (ws', es, (all, count)) =
        Returns-value _ (start_workers active address kernel (i + 1) ws)
          (start_workers-AllRunning (i + 1) ws (λ j lt. willing j (omega arith)) hs) in
      rw (ew, es) ((runs, all), omega (arith, count))

  module _ {fd : Eventfd} {T : Type 0} where
    -- A manager as the program starts with it.
    pub record IsNew (m : Manager fd T) : Type 0 where
      pub no_workers : m.net_workers ≡ []
      pub unopened : m.logger.file_open ≡ false
      pub no_channel : m.logger.wakeup.channel ≡ none
      pub no_channels : m.logger.log_thread.event_cycle.all_channels ≡ []

    -- The logger as `CheckAndSet` leaves it.
    abbrev pub checked : Manager fd T → Logger fd T
    checked m = record (m.logger) { level = debug }

    logger_starts :
        (id n : ℕ) (res : SysResult) (m : Manager fd T)
        → IsNew m
        → Returns
            (TakesLines n id (checked m))
            (Logger.start_thread true (done n) address id 0 (checked m))
    unfolding lookup
    logger_starts id n res m new =
        (start_thread-TakesLines n address id 0 no_errno res (checked m)
          (ap (lookup n) new.no_channels) new.no_channel).0

    checks :
        (found : Bool) (m : Manager fd T)
        → IsNew m
        → Logger.check_and_set debug false found m.logger ≡ ok (found, checked m)
    unfolding Logger.check_and_set
    checks found m new = rw new.unopened refl

    asleep_lem :
        (ws : List NetWorker) (l : Logger fd T)
        → 0 < length ws
        → l.wakeup.event_fd ≡ none
        → can_log active address kernel ws l ≡ fault assertion
    unfolding can_log
    asleep_lem [] l some_worker asleep = absurd (omega arith)
    asleep_lem (w ∷ ws) l some_worker asleep = ground (arith, asleep)

    logs_lem :
        (n id : ℕ) (m : Manager fd T) (ws : List NetWorker) (l : Logger fd T)
        → TakesLines n id (checked m) l
        → can_log active address kernel ws l ≡ ok true
    unfolding can_log
    logs_lem n id m [] l p = refl
    logs_lem n id m (w ∷ ws) l p = ground (arith, p.event_fd)

    -- From a new manager, where the log file is there and can be opened, the kernel gives the
    -- logger an eventfd and every worker all that it asks for, each time on another descriptor,
    -- `main` returns 0: the logger is open, its thread waits for lines on the eventfd, at the level
    -- of debugging, and there is one worker for each processor, all of which run, that is, listen,
    -- wait for tasks and have timers and a thread, with every channel in order in the one cycle
    -- that they share.
    pub run_main_lem :
        (id e n : ℕ) (m : Manager fd T)
        → IsNew m
        → ((j : ℕ) → j < n → Willing (kernel j))
        → Returns
            (λ r.
              (r.0 ≡ 0)
              × AllRunning kernel 0 r.1.net_workers
              × (length r.1.net_workers ≡ n)
              × TakesLines e id (checked m) r.1.logger)
            (run_main active address kernel true true (done e) id n m)
    unfolding run_main check_and_set init_threads
    run_main_lem id e n m new willing =
        let (r, er, (all, made, count)) =
          Returns-value _ (check_workers active address kernel n 0 [])
            (check_workers_all n 0 [] (λ j lt. willing j (omega arith)) tt refl) in
        let (l, el, takes) =
          Returns-value _ (Logger.start_thread true (done e) address id 0 (checked m))
            (logger_starts id e (done e) m new) in
        let (ws, es, (runs, count')) =
          Returns-value _ (start_workers active address kernel 0 r.1)
            (start_workers-AllRunning 0 r.1 (λ j lt. willing j (omega (arith, count))) made) in
        rw (checks true m new, new.no_workers, er, all, el, logs_lem e id m r.1 l takes, es)
          (refl, runs, omega (arith, count, count'), takes)

    -- From a new manager, where the kernel gives those before it all that they ask for, each time
    -- on another descriptor, and refuses to bind for one processor's worker: that one is destroyed,
    -- with a channel that nobody has closed left in its cycle's map, which the channel's destructor
    -- uses while it is being destroyed. Where the log file is not there `main` returns 1 and has
    -- made no worker.
    pub run_main_refused :
        (id k n : ℕ) (m : Manager fd T) (e : Errno) (res : SysResult) (x y : ℕ)
        → IsNew m
        → ((j : ℕ) → j < k → Willing (kernel j))
        → (kernel k).epoll_create ≡ done x
        → (kernel k).socket ≡ done y
        → (kernel k).bind ≡ failed e
        → (run_main active address kernel true true res id (k + suc n) m ≡ fault dangling)
          × Returns
              (λ r. (r.0 ≡ 1) × (r.1.net_workers ≡ []))
              (run_main active address kernel false true res id n m)
    unfolding run_main check_and_set
    run_main_refused id k n m e res x y new willing polls given refused =
        let er =
          check_workers_until k n 0 k [] e y x (omega arith) willing polls given refused tt refl in
        (
          rw (checks true m new, new.no_workers, er) refl,
          rw (checks false m new) (refl, new.no_workers),
        )

    -- From a new manager, where the log file is there and can be opened and the kernel gives every worker all that it asks
    -- for, but gives the logger no eventfd: with a processor or more, an assertion fails at the first line that `main`
    -- logs once the logger takes lines.
    pub run_main_asleep :
        (id n : ℕ) (m : Manager fd T) (e : Errno)
        → IsNew m
        → ((j : ℕ) → j < suc n → Willing (kernel j))
        → run_main active address kernel true true (failed e) id (suc n) m ≡ fault assertion
    unfolding run_main check_and_set init_threads lookup
    run_main_asleep id n m e new willing =
        let (r, er, (all, made, count)) =
          Returns-value _ (check_workers active address kernel (suc n) 0 [])
            (check_workers_all (suc n) 0 [] (λ j lt. willing j (omega arith)) tt refl) in
        let (l, el, (on, asleep)) =
          Returns-value _ (Logger.start_thread true (failed e) address id 0 (checked m))
            (start_thread-TakesLines 0 address id 0 e (failed e) (checked m)
              (ap (lookup 0) new.no_channels) new.no_channel).1 in
        rw
          (
            checks true m new,
            new.no_workers,
            er,
            all,
            el,
            asleep_lem r.1 l (omega (arith, count)) asleep,
          )
          refl

-- On a machine that does not tell how many processors it has, `main` succeeds with no worker, and `GetNetWorker`
-- then goes past the end of the vector.
no_workers :
    {fd : Eventfd} {T : Type 0} (active : ℕ → Bool) (address id e : ℕ) (kernel : ℕ → Kernel)
    (m : Manager fd T)
    → IsNew active address kernel m
    → Returns
        (λ r. (r.0 ≡ 0) × (get_net_worker r.1.net_workers ≡ fault out_of_bounds))
        (run_main active address kernel true true (done e) id 0 m)
unfolding get_net_worker
no_workers active address id e kernel m new =
    Returns-mono _ _ (run_main active address kernel true true (done e) id 0 m)
      (λ r p. (p.0, none_at r.1.net_workers p.2))
      (run_main_lem active address kernel id e 0 m new (λ j lt. absurd (omega arith)))
  where
    none_at : (ws : List NetWorker) → length ws ≡ 0 → get_net_worker ws ≡ fault out_of_bounds
    none_at [] h = refl
    none_at (w ∷ ws) h = absurd (omega arith)
