-- ===== src/Polling/Filling.antt =====
-- event/poller/EpollPoller.cpp, `Poll`: what it leaves of the channels and of its own storage.
use musketeer.Prelude.{
  ℕ, ◌*◌, ◌≤◌, ◌<◌, ◌≡◌, refl, ap, Bool, true, false, List, [], ◌∷◌, ◌++◌, length, leb, arith, ok,
  Returns, map, All, if◌then◌else◌,
}
use mathlib.Core.List.{append_assoc, append-nil}
use musketeer.Channel.{Channel}
use musketeer.Channel.Events.{generalise_events}
use musketeer.Polling.{
  EpollEvent, WaitResult, wait_failed, waited, World, fills, set_revents, fill,
  fill_current_channels, poll,
}

-- The events that a result brings.
abbrev pub events_of : WaitResult → List EpollEvent
events_of (wait_failed e) = []
events_of (waited es) = es

-- The channels with what the kernel reported, one event after the other.
abbrev pub reported : List EpollEvent → (ℕ → Channel) → ℕ → Channel
reported [] memory = memory
reported (e ∷ es) memory = reported es (set_revents e.ptr (generalise_events e.events) memory)

-- The channels of the events, in the kernel's order.
abbrev pub pointers : List EpollEvent → List ℕ
pointers = map (λ e. e.ptr)

module _ {S : Type 0} where
  -- What the poller may rely on: the kernel writes no more than it was given room for, and every
  -- channel that it points to is still held.
  pub record Answers (w : World S) (res : WaitResult) : Type 0 where
    pub room : length (events_of res) ≤ w.events_size
    pub held : All (λ e. w.shared e.ptr ≡ true) (events_of res)

  -- What `Poll` makes of a world with no current channels.
  pub record Polled (es : List EpollEvent) (w w' : World S) : Type 0 where
    pub filled : w'.current_channels ≡ pointers es
    pub told : w'.memory ≡ reported es w.memory
    pub grown :
        w'.events_size
        ≡ (if fills (length es) w.events_size then w.events_size * 2 else w.events_size)
    pub shared_kept : w'.shared ≡ w.shared
    pub rest_kept : w'.rest ≡ w.rest
    pub stop_kept : w'.stop ≡ w.stop

  -- A world with its channels told and listed.
  abbrev filled_by : List EpollEvent → World S → World S
  filled_by es w = record w {
    memory = reported es w.memory;
    current_channels = w.current_channels ++ pointers es;
  }

  fill_lem :
      (es : List EpollEvent) (w : World S)
      → All (λ e. w.shared e.ptr ≡ true) es
      → fill es w ≡ ok (filled_by es w)
  unfolding fill
  fill_lem [] w u = rw (append-nil w.current_channels) refl
  fill_lem (e ∷ es) w (h, hs) =
      rw
        (
          h,
          fill_lem es
              (record w {
                memory = set_revents e.ptr (generalise_events e.events) w.memory;
                current_channels = w.current_channels ++ e.ptr ∷ [];
              })
              hs,
          append_assoc w.current_channels (e.ptr ∷ []) (pointers es),
        )
        refl

  resized :
      (es : List EpollEvent) (w : World S) (b : Bool)
      → fills (length es) w.events_size ≡ b
      → w.current_channels ≡ []
      → Polled es w (
          if b then record (filled_by es w) { events_size = w.events_size * 2 } else filled_by es w)
  resized es w true e none_yet = record {
    filled = ap (λ is. is ++ pointers es) none_yet;
    told = refl;
    grown = rw e refl;
    shared_kept = refl;
    rest_kept = refl;
    stop_kept = refl;
  }
  resized es w false e none_yet = record {
    filled = ap (λ is. is ++ pointers es) none_yet;
    told = refl;
    grown = rw e refl;
    shared_kept = refl;
    rest_kept = refl;
    stop_kept = refl;
  }

  -- `Poll` returns: it has filled the current channels with those of the events, in the kernel's order,
  -- has told each its events, and has made room for twice as many where all was used.
  pub poll-Polled :
      (res : WaitResult) (w : World S)
      → w.current_channels ≡ []
      → 0 < w.events_size
      → Answers w res
      → Returns (Polled (events_of res) w) (poll res w)
  unfolding poll fill_current_channels
  poll-Polled (wait_failed e) w none_yet some_room a = record {
    filled = none_yet;
    told = refl;
    grown = ground arith;
    shared_kept = refl;
    rest_kept = refl;
    stop_kept = refl;
  }
  poll-Polled (waited []) w none_yet some_room a = record {
    filled = none_yet;
    told = refl;
    grown = ground arith;
    shared_kept = refl;
    rest_kept = refl;
    stop_kept = refl;
  }
  poll-Polled (waited (e ∷ es)) w none_yet some_room a =
      let enough : leb (length (e ∷ es)) w.events_size ≡ true = ground (arith, a.room) in
      let empty : length w.current_channels ≡ 0 = ap length none_yet in
      rw (empty, enough, fill_lem (e ∷ es) w a.held) (resized (e ∷ es) w _ refl none_yet)
