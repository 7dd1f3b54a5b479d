-- ===== src/Polling/Rounds.antt =====
-- event/EventCycle.cpp, `Loop`: which callbacks a round calls, and when the loop ends.
use musketeer.Prelude.{
  ℕ, zero, suc, ◌+◌, ◌<◌, ◌≡◌, refl, true, false, Bool, List, [], ◌∷◌, arith, Outcome, ok, ◌>>=◌,
  Returns, Returns-value, All, sym, >>=-eq-ok, >>=-cong, ◌∙◌, ap, Bool-cases, inl, inr,
}
use mathlib.Core.Path.{subst}
use musketeer.Channel.{Channel, Handler}
use musketeer.Channel.Dispatch.{process_events, process_events-due, due, run_all}
use musketeer.Polling.{EpollEvent, WaitResult, World, process_all, round, loop, poll}
use musketeer.Polling.Filling.{events_of, reported, pointers, Answers, Polled, poll-Polled}

-- What calls of callbacks leave alone.
pub record Spares {S : Type 0} (w w' : World S) : Type 0 where
  pub memory_kept : w'.memory ≡ w.memory
  pub shared_kept : w'.shared ≡ w.shared

module _ {S : Type 0} (run : ℕ → Handler → World S → Outcome (World S)) where
  -- The callbacks of one channel after the other: of each those that are set and have an event.
  abbrev pub call_all : (ℕ → Channel) → List ℕ → World S → Outcome (World S)
  call_all memory [] w = ok w
  call_all memory (i ∷ is) w =
      run_all (λ v. v.memory i) (run i) (due (memory i)) w >>= call_all memory is

  -- Channels that nobody holds any more are passed over.
  pub process_all_gone :
      (is : List ℕ) (w : World S) → All (λ i. w.shared i ≡ false) is → process_all run is w ≡ ok w
  unfolding process_all
  process_all_gone [] w u = refl
  process_all_gone (i ∷ is) w (h, hs) = rw h (process_all_gone is w hs)

  -- A channel that the callbacks of another one destroyed is not called, though the kernel had reported
  -- events for both.
  pub process_all_destroyed :
      (i j : ℕ) (w w' : World S)
      → w.shared i ≡ true
      → process_events (λ v. v.memory i) (run i) w ≡ ok w'
      → w'.shared j ≡ false
      → process_all run (i ∷ j ∷ []) w ≡ ok w'
  unfolding process_all
  process_all_destroyed i j w w' held e gone = rw (held, e, gone) refl

  module _ (spare : (i : ℕ) (h : Handler) (w w' : World S) → run i h w ≡ ok w' → Spares w w') where
    run_all-Spares :
        (i : ℕ) (hs : List Handler) (w w' : World S)
        → run_all (λ v. v.memory i) (run i) hs w ≡ ok w'
        → Spares w w'
    run_all-Spares i [] w w' e = record {
      memory_kept = ground (arith, e);
      shared_kept = ground (arith, e);
    }
    run_all-Spares i (h ∷ hs) w w' e =
        let (m, em, rest) = >>=-eq-ok (run i h w) (run_all (λ v. v.memory i) (run i) hs) e in
        let first = spare i h w m em in
        let last = run_all-Spares i hs m w' rest in
        record {
          memory_kept = last.memory_kept ∙ first.memory_kept;
          shared_kept = last.shared_kept ∙ first.shared_kept;
        }

    process_all_lem :
        (is : List ℕ) (w : World S)
        → All (λ i. w.shared i ≡ true) is
        → process_all run is w ≡ call_all w.memory is w
    unfolding process_all
    process_all_lem [] w u = refl
    process_all_lem (i ∷ is) w (h, hs) =
        let same : (k : Handler) (v v' : World S) → run i k v ≡ ok v' → v'.memory i ≡ v.memory i =
          λ k v v' e. ap (λ m. m i) ((spare i k v v' e).memory_kept) in
        rw (h, process_events-due (λ v. v.memory i) (run i) same w)
          (>>=-cong (run_all (λ v. v.memory i) (run i) (due (w.memory i)) w) (process_all run is)
            (call_all w.memory is)
            λ w' e.
              let p = run_all-Spares i (due (w.memory i)) w w' e in
              let held = subst (λ f. All (λ j. f j ≡ true) is) (sym p.shared_kept) hs in
              rw⁻¹ p.memory_kept (process_all_lem is w' held))

    held_pointers :
        (es : List EpollEvent) (f : ℕ → Bool)
        → All (λ e. f e.ptr ≡ true) es
        → All (λ i. f i ≡ true) (pointers es)
    held_pointers [] f u = tt
    held_pointers (e ∷ es) f (h, hs) = (h, held_pointers es f hs)

    -- Where the callbacks leave the channels alone, there is room for an event, the kernel writes
    -- no more events than there is room for, and somebody holds every channel that it points to:
    -- `Poll` returns with the current channels and their events filled in, and the round is then,
    -- channel by channel in the kernel's order, the calls of the callbacks that are set and have an
    -- event.
    pub round_lem :
        (res : WaitResult) (w : World S)
        → 0 < w.events_size
        → Answers w res
        → Returns
            (λ w'.
              Polled (events_of res) (record w { current_channels = [] }) w'
              × (round run res w
                  ≡ call_all (reported (events_of res) w.memory) (pointers (events_of res)) w'))
            (poll res (record w { current_channels = [] }))
    unfolding round
    round_lem res w some_room a =
        let w₀ = record w { current_channels = [] } in
        let (w', e, p) =
          Returns-value (Polled (events_of res) w₀) (poll res w₀)
            (poll-Polled res w₀ refl some_room (record { room = a.room; held = a.held })) in
        let held =
          subst (λ f. All (λ j. f j ≡ true) (pointers (events_of res))) (sym p.shared_kept)
            (held_pointers (events_of res) w.shared a.held) in
        rw e (p, rw p.filled (rw⁻¹ p.told (process_all_lem (pointers (events_of res)) w' held)))

  stopped :
      (m : ℕ) (wait : World S → WaitResult) (w : World S) → w.stop ≡ true → loop run m wait w ≡ ok w
  unfolding loop
  stopped zero wait w s = refl
  stopped (suc m) wait w s = rw s refl

  pub loop_goes_on :
      (m : ℕ) (wait : World S → WaitResult) (w w' : World S)
      → w.stop ≡ false
      → round run (wait w) w ≡ ok w'
      → loop run (suc m) wait w ≡ loop run m wait w'
  unfolding loop
  loop_goes_on m wait w w' off e = ground (arith, off, e)

  -- Once some rounds of the loop have returned and left `stop` set, the loop is over: with any
  -- number of rounds more it ends in the same world.
  pub loop_stops :
      (n m : ℕ) (wait : World S → WaitResult) (w w' : World S)
      → loop run n wait w ≡ ok w'
      → w'.stop ≡ true
      → loop run (n + m) wait w ≡ ok w'
  unfolding loop
  loop_stops zero m wait w w' e s =
      let none_more : 0 + m ≡ m = omega arith in
      let same : w ≡ w' = ground (arith, e) in
      rw none_more (rw⁻¹ same (stopped m wait w (ground (arith, s, same))))
  loop_stops (suc n) m wait w w' e s =
      let one_less : suc n + m ≡ suc (n + m) = omega arith in
      rw one_less (elim (Bool-cases w.stop) [
        | inl on ↦ ground (arith, on, e)
        | inr off ↦
            let e' : (round run (wait w) w >>= loop run n wait) ≡ ok w' = ground (arith, off, e) in
            let (v, ev, rest) = >>=-eq-ok (round run (wait w) w) (loop run n wait) e' in
            ground (arith, off, ev, loop_stops n m wait v w' rest s)
      ])
