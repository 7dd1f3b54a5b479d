-- ===== src/Polling.antt =====
-- event/EventCycle.cpp, `Loop`, and event/poller/EpollPoller.cpp, `Poll` and `fillCurrentChannels`: the
-- rounds in which a thread asks the kernel for events and calls the channels. What `epoll_wait` returns
-- and what a callback does are parameters.
pub mod Filling
pub mod Rounds
pub mod Sizes
mod Tests
use musketeer.Prelude.{
  ℕ, zero, suc, ◌*◌, Bool, true, false, not, List, [], ◌∷◌, ◌++◌, length, leb, ltb, ◌==◌, ◌%◌, ◌^◌,
  ◌&&◌, Outcome, ok, fault, dangling, ◌>>=◌, ◌>>◌, assert, guard, if◌then◌else◌,
}
use musketeer.Errors.{Errno}
use musketeer.Channel.{Channel, Handler}
use musketeer.Channel.Events.{EpollEvents, generalise_events}
use musketeer.Channel.Dispatch.{process_events}

-- `struct epoll_event`: `data.ptr` and `events`.
pub record EpollEvent : Type 0 where
  pub ptr : ℕ
  pub events : EpollEvents

-- What `epoll_wait` returns and writes to `events`.
pub data WaitResult : Type 0 where
  wait_failed : Errno → WaitResult
  waited : List EpollEvent → WaitResult

-- `EventCycle` with its poller, of which `events_size` is the size of `events`, over the channels in
-- memory. `shared` tells of an address whether a `shared_ptr` holds its channel, and `rest` is whatever
-- else callbacks know.
pub record World (S : Type 0) : Type 0 where
  pub stop : Bool
  pub events_size : ℕ
  pub current_channels : List ℕ
  pub memory : ℕ → Channel
  pub shared : ℕ → Bool
  pub rest : S

-- `CINITNUM`
abbrev pub cinitnum : ℕ
cinitnum = 16

-- `numFds == static_cast<int>(events.size())`, where the kernel has reported something.
abbrev pub fills : ℕ → ℕ → Bool
fills n size = ltb 0 n && (n == size % 2 ^ 32)

-- `SetREvents` of the channel at an address.
abbrev pub set_revents : ℕ → ℕ → (ℕ → Channel) → ℕ → Channel
set_revents i revents memory j =
    if j == i then record (memory j) { revents = revents } else memory j

module _ {S : Type 0} where
  -- The loop of `fillCurrentChannels`. A pointer to a channel that is gone is not to be followed.
  pub fill : List EpollEvent → World S → Outcome (World S)
  fill [] w = ok w
  fill (e ∷ es) w = do
    guard (w.shared e.ptr) dangling
    fill es (record w {
      memory = set_revents e.ptr (generalise_events e.events) w.memory;
      current_channels = w.current_channels ++ e.ptr ∷ [];
    })

  -- `fillCurrentChannels`
  fill_current_channels : List EpollEvent → World S → Outcome (World S)
  unfolding fill
  fill_current_channels es w = do
    assert (length w.current_channels == 0)
    assert (leb (length es) w.events_size)
    fill es w

  -- `Poll`
  pub poll : WaitResult → World S → Outcome (World S)
  unfolding fill_current_channels
  poll (wait_failed e) w = ok w
  poll (waited []) w = ok w
  poll (waited (e ∷ es)) w = do
    w' ← fill_current_channels (e ∷ es) w
    ok (
        if fills (length (e ∷ es)) w'.events_size
        then record w' { events_size = w'.events_size * 2 }
        else w')

  -- What a callback of the channel at an address does.
  module _ (run : ℕ → Handler → World S → Outcome (World S)) where
    -- The inner loop of `Loop`. `lock` gives a channel that somebody still holds.
    pub process_all : List ℕ → World S → Outcome (World S)
    process_all [] w = ok w
    process_all (i ∷ is) w = do
      w' ← if w.shared i then process_events (λ v. v.memory i) (run i) w else ok w
      process_all is w'

    -- One round of `Loop`.
    pub round : WaitResult → World S → Outcome (World S)
    unfolding poll process_all
    round res w = do
      w' ← poll res (record w { current_channels = [] })
      process_all w'.current_channels w'

    -- `Loop`, for as many rounds as the first argument; `wait` is the kernel.
    pub loop : ℕ → (World S → WaitResult) → World S → Outcome (World S)
    unfolding round
    loop zero wait w = ok w
    loop (suc n) wait w = if w.stop then ok w else (round (wait w) w >>= loop n wait)
