-- ===== src/TaskQueue/Tests.antt =====
-- Concrete runs of base/TaskQueue.cpp over an eventfd that is its counter.
use musketeer.Prelude.{
  ℕ, ◌≡◌, refl, [], ◌∷◌, none, some, arith, false, fault, assertion, ok, ◌>>=◌, Returns,
}
use musketeer.TaskQueue.{
  World, push_task, notify, begin_read, pop_task, pop_from, send_task, handle_read,
}
use musketeer.Prelude.Assoc.{lookup}
use musketeer.Errors.{done, failed, emfile}
use musketeer.Channel.{Cycle, Watched, make}
use musketeer.TaskQueue.Starting.{Wakeup, Awake, init, init_lem}
use musketeer.TaskQueue.Counter.{counter, write_count, read_count}
use musketeer.TaskQueue.Steps.{
  pushes, notifies, reads, pops, Reach, here, next, Inv, fresh, Reach-Inv, all_called,
}
use musketeer.TaskQueue.Drain.{send_then_read}

abbrev start : World counter ℕ
start = fresh counter ℕ 0

start-Inv : Inv start
start-Inv = record { paid = omega arith; kept = refl; called = refl; quiet = refl }

-- Two pushes before the first write, a read, and its single round.
abbrev two_pushed : World counter ℕ
two_pushed = record start { queue = some 7 ∷ none ∷ []; writing = 2; sent = some 7 ∷ none ∷ [] }

two_pushed-Reach : Reach start two_pushed
unfolding push_task
two_pushed-Reach = next (next here (pushes (some 7) refl)) (pushes none refl)

one_counted : World counter ℕ
one_counted = record two_pushed { event = 1; writing = 1 }

abbrev all_done : World counter ℕ
all_done = record start { ran = 7 ∷ []; sent = some 7 ∷ none ∷ []; popped = some 7 ∷ none ∷ [] }

all_done-Reach : Reach start all_done
unfolding notify begin_read pop_task pop_from write_count read_count
all_done-Reach =
    next
      (next
        (next
          (next
            (next two_pushed-Reach
              (notifies {u = record two_pushed { event = 1; writing = 1 }} (omega arith) refl))
            (notifies {u = record two_pushed { event = 2; writing = 0 }} (omega arith) refl))
          (reads {u = record two_pushed { event = 0; writing = 0; left = 2 }} refl refl))
        (pops
          {u = record two_pushed {
            queue = none ∷ [];
            writing = 0;
            left = 1;
            ran = 7 ∷ [];
            popped = some 7 ∷ [];
          }}
          (omega arith) refl))
      (pops (omega arith) refl)

Reach-Inv_example : Inv two_pushed
Reach-Inv_example = Reach-Inv counter ℕ 0 two_pushed refl two_pushed-Reach (omega arith)

all_called_example : (all_done.queue ≡ []) × (all_done.ran ≡ 7 ∷ [])
all_called_example =
    all_called counter ℕ 0 all_done refl all_done-Reach (omega arith) refl refl refl

send_then_read_example :
    Returns
      (λ (u : World counter ℕ). (u.queue ≡ []) × (u.ran ≡ 7 ∷ []))
      (send_task start (some 7) >>= handle_read)
send_then_read_example = send_then_read start (some 7) start-Inv refl refl (omega arith)

abbrev idle_cycle : Cycle
idle_cycle = record { all_channels = []; ctl = []; stop = false }

abbrev asleep : Wakeup
asleep = record { event_fd = none; channel = none }

init_lem_example :
    Returns
      (λ s'.
        (s'.event_fd ≡ some 4) × (v : Watched) × (s'.channel ≡ some v) × Awake idle_cycle 9 4 v)
      (init (done 4) idle_cycle 9 asleep)
    × (init (failed emfile) idle_cycle 9 asleep ≡ ok (record asleep { event_fd = none }))
    × (init (done 6) idle_cycle 9 (record asleep { channel = some (make idle_cycle 9 4) })
        ≡ fault assertion)
unfolding lookup
init_lem_example = init_lem 4 9 emfile (done 6) idle_cycle asleep (make idle_cycle 9 4) refl refl
