-- ===== src/Logger/Order.antt =====
-- base/Logger.cpp, `Log` from another thread, and base/Utilities.cpp, `logFormat`: which lines are written.
use mathlib.Core.Path.{subst}
use mathlib.Core.List.{append_assoc, append-nil}
use musketeer.Prelude.{
  ℕ, ◌+◌, ◌<◌, ◌≡◌, refl, sym, ap, ◌∙◌, true, false, not, List, [], ◌∷◌, ◌++◌, map, length, ltb,
  Option, none, some, arith, Outcome, ok, fault, ◌>>=◌, Returns, Returns-mono, ==_self, ◌==◌,
  if◌then◌else◌, Bool-cases, inl, inr, assertion,
}
use musketeer.TaskQueue.{World, send_task, pop_task}
use musketeer.TaskQueue.EventFd.{Eventfd, counter_limit}
use musketeer.TaskQueue.Drain.{Ready, pop_task_queue}
use musketeer.TaskQueue.Batch.{send_batch, send_batch-BatchFound}
use musketeer.Logger.{
  LogLevel, debug, rank, Logger, is_some, is_thread, log, log_format, log_all, handle_tasks,
  serve_read, serve_tasks, serve_task, write_task, write_line,
}

-- The lines that are not below a level.
abbrev pub passing : {T : Type 0} → LogLevel → List (LogLevel × T) → List T
passing least [] = []
passing least ((level, str) ∷ ms) =
    if ltb (rank level) (rank least) then passing least ms else str ∷ passing least ms

passing-cons :
    {T : Type 0} (least level : LogLevel) (str : T) (ms : List (LogLevel × T))
    → passing least ((level, str) ∷ []) ++ passing least ms ≡ passing least ((level, str) ∷ ms)
passing-cons least level str ms = elim (Bool-cases (ltb (rank level) (rank least))) [
  | inl low ↦ rw low refl
  | inr high ↦ rw high refl
]

module _ {fd : Eventfd} {T : Type 0} where
  and_send :
      (m : Outcome (World fd T)) (put : World fd T → Logger fd T)
      (k : Logger fd T → Outcome (Logger fd T)) (h : World fd T → Outcome (World fd T))
      → ((q : World fd T) → k (put q) ≡ (h q >>= λ q'. ok (put q')))
      → (m >>= (λ q. ok (put q)) >>= k) ≡ (m >>= h >>= λ q'. ok (put q'))
  and_send (ok q) put k h same = same q
  and_send (fault e) put k h same = refl

  log_all_sends :
      (here : ℕ) (ms : List (LogLevel × T)) (l : Logger fd T)
      → l.inited ≡ true
      → is_thread here l.log_thread.thread_id ≡ false
      → is_some l.wakeup.event_fd ≡ true
      → log_all here ms l
        ≡ (send_batch (passing l.level ms) l.task_queue >>= λ q. ok (record l { task_queue = q }))
  unfolding log_all log_format log send_batch
  log_all_sends here [] l on other awake = refl
  log_all_sends here ((level, str) ∷ ms) l on other awake =
      elim (Bool-cases (ltb (rank level) (rank l.level))) [
        | inl low ↦ rw low (log_all_sends here ms l on other awake)
        | inr high ↦
            let started : not l.inited ≡ false = ground arith in
            rw (high, started, other, awake)
              (and_send (send_task l.task_queue (some str)) (λ q. record l { task_queue = q })
                (log_all here ms) (send_batch (passing l.level ms))
                (λ q. log_all_sends here ms (record l { task_queue = q }) on other awake))
      ]

  -- The tasks of the queue, in order.
  serve_tasks_lem :
      (own : ℕ) (read_line : Option ℕ → T) (failed_line : T) (empty_line : ℕ → T) (ts : List T)
      (l : Logger fd T)
      → l.task_queue.queue ≡ map some ts
      → Returns
          (λ l'. l'.lines ≡ l.lines ++ ts)
          (serve_tasks own read_line failed_line empty_line (length ts) l)
  unfolding serve_tasks serve_task write_task write_line
  serve_tasks_lem own read_line failed_line empty_line [] l e = sym (append-nil l.lines)
  serve_tasks_lem own read_line failed_line empty_line (t ∷ ts) l e =
      let next : Logger fd T = record l {
        task_queue = pop_task l.task_queue;
        lines = l.lines ++ t ∷ [];
      } in
      let step : serve_tasks own read_line failed_line empty_line (length (t ∷ ts)) l
          ≡ serve_tasks own read_line failed_line empty_line (length ts) next =
        ap
          (λ q.
            serve_task own read_line failed_line empty_line (length ts) q l
            >>= serve_tasks own read_line failed_line empty_line (length ts))
          e in
      subst (Returns (λ l'. l'.lines ≡ l.lines ++ t ∷ ts)) (sym step) (
        Returns-mono (λ l'. l'.lines ≡ next.lines ++ ts) _
          (serve_tasks own read_line failed_line empty_line (length ts) next)
          (λ l' p. p ∙ append_assoc l.lines (t ∷ []) ts)
          (serve_tasks_lem own read_line failed_line empty_line ts next
            (pop_task_queue l.task_queue (some t) (map some ts) e)))

  -- What the logger's own thread logs is written at once, where its level passes.
  log_format_own :
      (own : ℕ) (level : LogLevel) (str : T) (l : Logger fd T)
      → l.inited ≡ true
      → l.log_thread.thread_id ≡ some own
      → log_format own level str l
        ≡ ok (record l { lines = l.lines ++ passing l.level ((level, str) ∷ []) })
  unfolding log_format log write_line
  log_format_own own level str l on mine = elim (Bool-cases (ltb (rank level) (rank l.level))) [
    | inl low ↦ rw (low, append-nil l.lines) refl
    | inr high ↦
        let started : not l.inited ≡ false = ground arith in
        rw (high, started, mine, ==_self own) refl
  ]

  -- Lines that another thread logs, at least one of them not below the logger's level, are written
  -- once the logger's thread has read its queue: those that are not below the level, all of them,
  -- in order and once, after the lines that were written before and after the one that `handleRead`
  -- itself logs at the level of debugging; where the logger takes lines, its queue was idle and the
  -- eventfd does not overflow.
  pub log_elsewhere :
      (here own : ℕ) (read_line : Option ℕ → T) (failed_line : T) (empty_line : ℕ → T)
      (ms : List (LogLevel × T)) (l : Logger fd T)
      → l.inited ≡ true
      → l.log_thread.thread_id ≡ some own
      → (here == own) ≡ false
      → is_some l.wakeup.event_fd ≡ true
      → Ready l.task_queue
      → l.task_queue.queue ≡ []
      → length l.task_queue.sent + length (passing l.level ms) < counter_limit
      → 0 < length (passing l.level ms)
      → Returns
          (λ l'.
            l'.lines
            ≡ l.lines
              ++ passing l.level ((debug, read_line (some (length (passing l.level ms)))) ∷ ms))
          (log_all here ms l >>= handle_tasks own read_line failed_line empty_line)
  unfolding handle_tasks serve_read
  log_elsewhere here own read_line failed_line empty_line ms l on mine other awake r empty few any =
      let ts = passing l.level ms in
      let p = send_batch-BatchFound ts l.task_queue r empty few any in
      let elsewhere : is_thread here l.log_thread.thread_id ≡ false = rw mine other in
      let first = read_line (some (length ts)) in
      let noted = passing l.level ((debug, first) ∷ []) in
      let told : Logger fd T = record l { task_queue = p.sent; lines = l.lines ++ noted } in
      let ready : Logger fd T = record told {
        task_queue = record (p.sent) { event = p.state; left = length ts };
      } in
      rw
        (
          log_all_sends here ms l on elsewhere awake,
          p.sends,
          p.read,
          log_format_own own debug first (record l { task_queue = p.sent }) on mine,
          p.begins,
        )
        (Returns-mono (λ l'. l'.lines ≡ (l.lines ++ noted) ++ ts) _
          (serve_tasks own read_line failed_line empty_line (length ts) ready)
          (λ l' q.
            q
            ∙ append_assoc l.lines noted ts
            ∙ ap (λ xs. l.lines ++ xs) (passing-cons l.level debug first ms))
          (serve_tasks_lem own read_line failed_line empty_line ts ready p.queued))

  -- Before the logger is started every line is lost.
  log_lost :
      (here : ℕ) (ms : List (LogLevel × T)) (l : Logger fd T)
      → l.inited ≡ false
      → log_all here ms l ≡ ok l
  unfolding log_all log_format log
  log_lost here [] l off = refl
  log_lost here ((level, str) ∷ ms) l off = elim (Bool-cases (ltb (rank level) (rank l.level))) [
    | inl low ↦ rw low (log_lost here ms l off)
    | inr high ↦ rw high (simp off (log_lost here ms l off))
  ]

  -- Without an eventfd the first line from another thread that is not below the level stops the program.
  pub log_asleep :
      (here : ℕ) (level : LogLevel) (str : T) (l : Logger fd T)
      → l.inited ≡ true
      → is_thread here l.log_thread.thread_id ≡ false
      → l.wakeup.event_fd ≡ none
      → ltb (rank level) (rank l.level) ≡ false
      → log_format here level str l ≡ fault assertion
  unfolding log_format log
  log_asleep here level str l on other asleep high = ground (arith, on, other, asleep, high)
