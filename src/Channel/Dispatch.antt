-- ===== src/Channel/Dispatch.antt =====
-- event/Channel.cpp, `ProcessEvents`. What a callback does is a parameter.
use musketeer.Prelude.{
  ℕ, ◌≡◌, refl, Bool, true, false, ◌&&◌, List, [], ◌∷◌, ◌++◌, if◌then◌else◌, Outcome, ok, Returns,
  Returns-value, Bool-cases, inl, inr, >>=-ok, >>=-cong, ◌>>=◌, sym,
}
use musketeer.Channel.{Channel, Handler, error_handler, read_handler, write_handler}
use musketeer.Channel.Events.{has, crevent, cwevent, ceevent}

module _ {S : Type 0} (chan : S → Channel) (run : Handler → S → Outcome S) where
  -- `if(callback && (revents & bits)) callback();`
  call_if : Bool → ℕ → Handler → S → Outcome S
  call_if on bits h s = if on && has (chan s).revents bits then run h s else ok s

  unfoldable pub process_events : S → Outcome S
  unfolding call_if
  process_events s = do
    s₁ ← call_if (chan s).error_callback ceevent error_handler s
    s₂ ← call_if (chan s₁).read_callback crevent read_handler s₁
    call_if (chan s₂).write_callback cwevent write_handler s₂

  -- The calls of a list of callbacks, one after the other.
  abbrev pub run_all : List Handler → S → Outcome S
  run_all [] s = ok s
  run_all (h ∷ hs) s = run h s >>= run_all hs

-- The callbacks that are set and have an event, in the order of the code.
abbrev pub due : Channel → List Handler
due c =
    (if c.error_callback && has c.revents ceevent then error_handler ∷ [] else [])
    ++ ((if c.read_callback && has c.revents crevent then read_handler ∷ [] else [])
        ++ (if c.write_callback && has c.revents cwevent then write_handler ∷ [] else []))

module _ {S : Type 0} (chan : S → Channel) (run : Handler → S → Outcome S)
    (keep : (h : Handler) (s s' : S) → run h s ≡ ok s' → chan s' ≡ chan s) where
  maybe_run :
      (b : Bool) (h : Handler) (hs : List Handler) (s : S) (k : S → Outcome S)
      → ((s' : S) → chan s' ≡ chan s → k s' ≡ run_all chan run hs s')
      → ((if b then run h s else ok s) >>= k)
        ≡ run_all chan run ((if b then h ∷ [] else []) ++ hs) s
  maybe_run true h hs s k same =
      >>=-cong (run h s) k (run_all chan run hs) (λ s' e. same s' (keep h s s' e))
  maybe_run false h hs s k same = same s refl

  last_run :
      (b : Bool) (h : Handler) (s : S)
      → (if b then run h s else ok s) ≡ run_all chan run (if b then h ∷ [] else []) s
  last_run true h s = sym (>>=-ok (run h s))
  last_run false h s = refl

  -- Where no callback changes the channel, `ProcessEvents` calls the callbacks that are set and
  -- have an event, errors first and writing last, and stops at one that fails.
  pub process_events-due : (s : S) → process_events chan run s ≡ run_all chan run (due (chan s)) s
  unfolding process_events
  process_events-due s =
      maybe_run ((chan s).error_callback && has (chan s).revents ceevent) error_handler _ s _
        λ s₁ e₁. rw e₁ (
          maybe_run ((chan s).read_callback && has (chan s).revents crevent) read_handler _ s₁ _
            λ s₂ e₂.
              rw (e₂, e₁)
                (last_run ((chan s).write_callback && has (chan s).revents cwevent) write_handler
                  s₂))

-- What every callback keeps, and returns with, `ProcessEvents` does.
module _ {S : Type 0} (chan : S → Channel) (run : Handler → S → Outcome S) (P : S → Type 0)
    (keep : (h : Handler) (s : S) → P s → Returns P (run h s)) where
  call_if-Returns :
      (on : Bool) (bits : ℕ) (h : Handler) (s : S) → P s → Returns P (call_if chan run on bits h s)
  unfolding call_if
  call_if-Returns on bits h s p = elim (Bool-cases (on && has (chan s).revents bits)) [
    | inl called ↦ rw called (keep h s p)
    | inr left ↦ rw left p
  ]

  pub process_events-Returns : (s : S) → P s → Returns P (process_events chan run s)
  unfolding process_events
  process_events-Returns s p =
      let (s₁, e₁, p₁) =
        Returns-value P (call_if chan run (chan s).error_callback ceevent error_handler s)
          (call_if-Returns _ _ _ s p) in
      let (s₂, e₂, p₂) =
        Returns-value P (call_if chan run (chan s₁).read_callback crevent read_handler s₁)
          (call_if-Returns _ _ _ s₁ p₁) in
      rw (e₁, e₂) (call_if-Returns _ _ _ s₂ p₂)
