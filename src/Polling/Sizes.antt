-- ===== src/Polling/Sizes.antt =====
-- event/poller/EpollPoller.cpp, the storage for the kernel's events over the whole of `Loop`.
use musketeer.Prelude.{
  ℕ, zero, suc, ◌*◌, ◌^◌, ◌<◌, ◌≤◌, ◌≡◌, refl, sym, true, false, Bool, List, [], ◌∷◌, arith,
  Outcome, Returns, Returns-value, Returns-mono, Bool-cases, inl, inr, if◌then◌else◌,
}
use native.Mathlib.Nat.{two-pow-succ, one-le-pow}
use mathlib.Core.Path.{subst}
use musketeer.Channel.{Handler}
use musketeer.Channel.Dispatch.{process_events, process_events-Returns}
use musketeer.Polling.{WaitResult, World, cinitnum, process_all, round, loop, poll}
use musketeer.Polling.Rounds.{loop_goes_on}
use musketeer.Polling.Filling.{events_of, Answers, Polled, poll-Polled}

-- The storage has been doubled some number of times.
abbrev pub IsSize : ℕ → Type 0
IsSize n = (k : ℕ) × (n ≡ cinitnum * 2 ^ k)

IsSize-double : (n : ℕ) → IsSize n → IsSize (n * 2)
IsSize-double n (k, e) = (suc k, rw (e, two-pow-succ k) (omega arith))

IsSize-positive : (n : ℕ) → IsSize n → 0 < n
IsSize-positive n (k, e) = omega (arith, e, one-le-pow k 2 (omega arith))

-- Room for the kernel's events that never shrinks.
abbrev pub Sized : {S : Type 0} → ℕ → World S → Type 0
Sized n w = IsSize w.events_size × (n ≤ w.events_size)

resized :
    (n m : ℕ) (b : Bool)
    → IsSize m
    → n ≤ m
    → IsSize (if b then m * 2 else m) × (n ≤ (if b then m * 2 else m))
resized n m true size more = (IsSize-double m size, omega arith)
resized n m false size more = (size, more)

module _ {S : Type 0} (run : ℕ → Handler → World S → Outcome (World S))
    (keep : (i : ℕ) (h : Handler) (w : World S)
      → Returns (λ w'. w'.events_size ≡ w.events_size) (run i h w)) where
  run-Sized : (n i : ℕ) (h : Handler) (w : World S) → Sized n w → Returns (Sized n) (run i h w)
  run-Sized n i h w (size, more) =
      Returns-mono (λ w'. w'.events_size ≡ w.events_size) (Sized n) (run i h w)
        (λ w' e. rw e (size, more)) (keep i h w)

  process_all-Sized :
      (n : ℕ) (is : List ℕ) (w : World S) → Sized n w → Returns (Sized n) (process_all run is w)
  unfolding process_all
  process_all-Sized n [] w z = z
  process_all-Sized n (i ∷ is) w z = elim (Bool-cases (w.shared i)) [
    | inl held ↦
        let (w', e, z') =
          Returns-value (Sized n) (process_events (λ v. v.memory i) (run i) w)
            (process_events-Returns (λ v. v.memory i) (run i) (Sized n) (run-Sized n i) w z) in
        rw (held, e) (process_all-Sized n is w' z')
    | inr gone ↦ rw gone (process_all-Sized n is w z)
  ]

  round-Sized :
      (n : ℕ) (res : WaitResult) (w : World S)
      → Sized n w
      → Answers w res
      → Returns (Sized n) (round run res w)
  unfolding round
  round-Sized n res w (size, more) a =
      let w₀ = record w { current_channels = [] } in
      let (w', e, p) = Returns-value (Polled (events_of res) w₀) (poll res w₀) (
        poll-Polled res w₀ refl (IsSize-positive w.events_size size)
          (record { room = a.room; held = a.held })) in
      rw e (
        process_all-Sized n w'.current_channels w'
          (rw p.grown (resized n w.events_size _ size more)))

  -- From room of 16 times a power of two, with callbacks that return and leave the poller's storage
  -- alone, and a kernel that writes no more events than it was given room for and points only to
  -- channels that somebody holds, the loop goes through any number of rounds without a fault. The
  -- room is then 16 times a power of two again, and not less than it was.
  pub loop-Sized :
      (n : ℕ) (wait : World S → WaitResult) (w : World S)
      → ((v : World S) → 0 < v.events_size → Answers v (wait v))
      → IsSize w.events_size
      → Returns (Sized w.events_size) (loop run n wait w)
  unfolding loop
  loop-Sized n wait w answers size = from n w (size, omega arith)
    where
      from :
          (m : ℕ) (v : World S)
          → Sized w.events_size v
          → Returns (Sized w.events_size) (loop run m wait v)
      from zero v z = z
      from (suc m) v z = elim (Bool-cases v.stop) [
        | inl on ↦ rw on z
        | inr off ↦
            let (v', e, z') = Returns-value (Sized w.events_size) (round run (wait v) v) (
              round-Sized w.events_size (wait v) v z
                (answers v (IsSize-positive v.events_size z.0))) in
            subst (Returns (Sized w.events_size)) (sym (loop_goes_on run m wait v v' off e))
              (from m v' z')
      ]
