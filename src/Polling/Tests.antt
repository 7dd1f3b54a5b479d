-- ===== src/Polling/Tests.antt =====
-- Two channels with events, of which the first one's callback may destroy the second or stop the loop.
use musketeer.Prelude.{
  ℕ, ◌+◌, ◌≡◌, refl, true, false, Bool, [], ◌∷◌, List, arith, Outcome, ok, fault, dangling, Returns,
  ◌==◌, ◌<◌, if◌then◌else◌,
}
use musketeer.Channel.{Channel, Handler, set}
use musketeer.Channel.Events.{generalise_events}
use musketeer.Channel.Dispatch.{process_events}
use musketeer.Errors.{eintr}
use musketeer.Polling.{
  EpollEvent, World, WaitResult, waited, wait_failed, cinitnum, process_all, round, loop, poll,
  set_revents,
}
use musketeer.Polling.Filling.{Answers, Polled, poll-Polled, reported}
use musketeer.Polling.Rounds.{Spares, call_all, round_lem, process_all_destroyed, loop_stops}
use musketeer.Polling.Sizes.{Sized, loop-Sized}

-- A channel that waits for reading.
abbrev reader : Channel
reader = record {
  status = set;
  fd = 5;
  events = 0x0f;
  revents = 0x0f;
  closed = false;
  read_callback = true;
  write_callback = false;
  error_callback = true;
}

abbrev readable : ℕ → EpollEvent
readable i = record {
  ptr = i;
  events = record {
    epollin = true;
    epollpri = false;
    epollrdhup = false;
    epollout = false;
    epollerr = false;
    epollhup = false;
  };
}

-- Two channels, at the addresses 1 and 2, and the callbacks called.
abbrev two : World (List ℕ)
two = record {
  stop = false;
  events_size = cinitnum;
  current_channels = [];
  memory = λ i. reader;
  shared = λ i. true;
  rest = [];
}

-- A callback that notes its channel.
abbrev notes : ℕ → Handler → World (List ℕ) → Outcome (World (List ℕ))
notes i h w = ok (record w { rest = i ∷ w.rest })

-- A callback that destroys the second channel, and one that stops the loop.
abbrev destroys : ℕ → Handler → World (List ℕ) → Outcome (World (List ℕ))
destroys i h w =
    ok (record w { shared = λ j. if j == 2 then false else w.shared j; rest = i ∷ w.rest })

abbrev stops : ℕ → Handler → World (List ℕ) → Outcome (World (List ℕ))
stops i h w = ok (record w { stop = true; rest = i ∷ w.rest })

notes-Spares : (i : ℕ) (h : Handler) (w w' : World (List ℕ)) → notes i h w ≡ ok w' → Spares w w'
notes-Spares i h w w' e = record {
  memory_kept = ground (arith, e);
  shared_kept = ground (arith, e);
}

both-Answers : Answers two (waited (readable 1 ∷ readable 2 ∷ []))
both-Answers = record { room = omega arith; held = (refl, (refl, tt)) }

poll-Polled_example :
    Returns
      (Polled (readable 1 ∷ readable 2 ∷ []) two)
      (poll (waited (readable 1 ∷ readable 2 ∷ [])) two)
poll-Polled_example =
    poll-Polled (waited (readable 1 ∷ readable 2 ∷ [])) two refl (omega arith) both-Answers

round_lem_example :
    Returns
      (λ w'.
        Polled (readable 1 ∷ readable 2 ∷ []) two w'
        × (round notes (waited (readable 1 ∷ readable 2 ∷ [])) two
            ≡ call_all notes
                (reported (readable 1 ∷ readable 2 ∷ []) (two.memory))
                (1 ∷ 2 ∷ [])
                w'))
      (poll (waited (readable 1 ∷ readable 2 ∷ [])) two)
round_lem_example =
    round_lem notes notes-Spares (waited (readable 1 ∷ readable 2 ∷ [])) two (omega arith)
      both-Answers

-- What the first channel's callback leaves.
abbrev one_left : World (List ℕ)
one_left = record two { shared = λ j. if j == 2 then false else true; rest = 1 ∷ [] }

process_all_destroyed_example : process_all destroys (1 ∷ 2 ∷ []) two ≡ ok one_left
unfolding process_events
process_all_destroyed_example = process_all_destroyed destroys 1 2 two one_left refl refl refl

-- The first channel has an event in every round, as long as somebody holds it.
abbrev wait_first : World (List ℕ) → WaitResult
wait_first w = if w.shared 1 then waited (readable 1 ∷ []) else waited []

-- The world after a round in which the loop was stopped.
abbrev halted : World (List ℕ)
halted = record two {
  stop = true;
  current_channels = 1 ∷ [];
  memory = set_revents 1 0x0f two.memory;
  rest = 1 ∷ [];
}

halts : loop stops 1 wait_first two ≡ ok halted
unfolding loop process_events generalise_events
halts = refl

loop_stops_example : loop stops (1 + 4) wait_first two ≡ ok halted
loop_stops_example = loop_stops stops 1 4 wait_first two halted halts refl

first-Answers : (v : World (List ℕ)) → 0 < v.events_size → Answers v (wait_first v)
first-Answers v some_room = at (v.shared 1) refl
  where
    at : (b : Bool) → v.shared 1 ≡ b → Answers v (wait_first v)
    at true held = rw held (record { room = omega arith; held = (held, tt) })
    at false gone = rw gone (record { room = omega arith; held = tt })

loop-Sized_example : Returns (Sized 16) (loop notes 3 wait_first two)
loop-Sized_example = loop-Sized notes (λ i h w. refl) 3 wait_first two first-Answers (0, refl)

-- A failed wait calls nobody, and a pointer to a channel that is gone is not followed.
fails : round notes (wait_failed eintr) two ≡ ok two
unfolding round poll process_all
fails = refl

dangles : poll (waited (readable 2 ∷ [])) one_left ≡ fault dangling
unfolding poll
dangles = refl
