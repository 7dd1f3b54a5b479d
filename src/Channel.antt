-- ===== src/Channel.antt =====
-- event/Channel.h, event/Channel.cpp, event/EventCycle.cpp and event/poller/EpollPoller.cpp: a
-- channel, the cycle that owns it, and the calls of `epoll_ctl` that they make.
pub mod Events
pub mod Lifecycle
pub mod Epoll
pub mod Dispatch
pub mod Calls
pub mod Registered
pub mod Keeping
mod Tests
use Prim.Native.Nat.{bit_and, bit_or}
use musketeer.Prelude.{
  ℕ, Bool, true, false, List, [], ◌∷◌, Option, none, some, Outcome, ok, ◌>>=◌, ◌>>◌, assert, not,
  ◌&&◌, ◌||◌, ◌==◌, if◌then◌else◌,
}
use Events.{cnevent, crevent, cwevent, ceevent, complement, has, EpollEvents, transform_events}
use musketeer.Prelude.Assoc.{lookup, insert, erase}

-- `enum ChannelStatus`
pub data ChannelStatus : Type 0 where
  new set removed : ChannelStatus

-- Of a callback only whether it is set.
pub record Channel : Type 0 where
  pub status : ChannelStatus
  pub fd : ℕ
  pub events : ℕ
  pub revents : ℕ
  pub closed : Bool
  pub read_callback : Bool
  pub write_callback : Bool
  pub error_callback : Bool

pub data CtlOp : Type 0 where
  ctl_add ctl_mod ctl_del : CtlOp

-- One call of `epoll_ctl`.
pub record Ctl : Type 0 where
  pub op : CtlOp
  pub target : ℕ
  pub interest : EpollEvents

-- `EventCycle` and its poller. A channel goes by a number, which stands for its address; `ctl` lists
-- the calls of `epoll_ctl`, the last one first.
pub record Cycle : Type 0 where
  pub all_channels : List (ℕ × ℕ)
  pub ctl : List Ctl
  pub stop : Bool

-- `EventCycle::Stop`
abbrev pub stop_cycle : Cycle → Cycle
stop_cycle c = record c { stop = true }

-- A channel in its cycle.
pub record Watched : Type 0 where
  pub cycle : Cycle
  pub chan : Channel
  pub id : ℕ

abbrev pub is_new : ChannelStatus → Bool
is_new new = true
is_new _ = false

abbrev pub is_set : ChannelStatus → Bool
is_set set = true
is_set _ = false

-- `Channel(EventCycle*, int)`
unfoldable pub make : Cycle → ℕ → ℕ → Watched
make c id fd = record {
  cycle = c;
  chan = record {
    status = new;
    fd = fd;
    events = 0;
    revents = 0;
    closed = false;
    read_callback = false;
    write_callback = false;
    error_callback = false;
  };
  id = id;
}

pub is_none_events : Channel → Bool
is_none_events c = c.events == cnevent

abbrev is_some : Option ℕ → Bool
is_some none = false
is_some (some x) = true

set_status : Watched → ChannelStatus → Watched
set_status w s = record w { chan = record (w.chan) { status = s } }

-- `EpollPoller::updateEpoll`
update_epoll : Watched → CtlOp → Watched
update_epoll w op = record w {
  cycle = record (w.cycle) {
    ctl =
        record { op = op; target = w.chan.fd; interest = transform_events w.chan.events }
        ∷ w.cycle.ctl;
  };
}

-- `EpollPoller::UpdateChannel`
pub poller_update : Watched → Outcome Watched
unfolding set_status update_epoll is_none_events
poller_update w =
    if is_set w.chan.status
    then assert (not (is_none_events w.chan)) >> ok (update_epoll w ctl_mod)
    else ok (update_epoll (set_status w set) ctl_add)

-- `EpollPoller::RemoveChannel`
pub poller_remove : Watched → Outcome Watched
unfolding set_status update_epoll is_none_events
poller_remove w = do
  assert (is_set w.chan.status)
  assert (is_none_events w.chan)
  ok (set_status (update_epoll w ctl_del) removed)

-- `allChannelsMap[channel->Getfd()] = channel`
add_to_map : Watched → Watched
add_to_map w = record w {
  cycle = record (w.cycle) { all_channels = insert w.chan.fd w.id w.cycle.all_channels };
}

-- `EventCycle::RemoveChannel`
pub remove_channel : Watched → Outcome Watched
unfolding poller_remove set_status
remove_channel w = do
  assert (not (is_new w.chan.status))
  w' ← if is_set w.chan.status then poller_remove w else ok w
  let w'' = set_status w' new
  ok (record w'' {
    cycle = record (w''.cycle) { all_channels = erase w.chan.fd w''.cycle.all_channels };
  })

-- `EventCycle::DisableChannel`
pub disable_channel : Watched → Outcome Watched
unfolding poller_remove
disable_channel w = do assert (is_set w.chan.status); poller_remove w

-- `EventCycle::RegisterChannel`, and `Channel::Register`
pub register : Watched → Outcome Watched
unfolding set_status add_to_map
register w = do
  assert (is_new w.chan.status)
  assert (not (is_some (lookup w.chan.fd w.cycle.all_channels)))
  ok (add_to_map (set_status w removed))

-- `EventCycle::UpdateChannel`
pub update_channel : Watched → Outcome Watched
unfolding add_to_map poller_update
update_channel w =
    if is_new w.chan.status
    then assert (not (is_some (lookup w.chan.fd w.cycle.all_channels)))
      >> poller_update (add_to_map w)
    else poller_update w

-- `Channel::update`
pub update : Watched → Outcome Watched
unfolding disable_channel update_channel
update w = if w.chan.events == cnevent then disable_channel w else update_channel w

set_events : Watched → ℕ → Watched
set_events w e = record w { chan = record (w.chan) { events = e } }

pub enable_reading : Watched → Outcome Watched
unfolding set_events update
enable_reading w = do
  assert w.chan.read_callback
  update (set_events w (bit_or w.chan.events crevent))

pub disable_reading : Watched → Outcome Watched
unfolding set_events update
disable_reading w = update (set_events w (bit_and w.chan.events (complement crevent)))

pub enable_writing : Watched → Outcome Watched
unfolding set_events update
enable_writing w = do
  assert w.chan.write_callback
  update (set_events w (bit_or w.chan.events cwevent))

pub disable_writing : Watched → Outcome Watched
unfolding set_events update
disable_writing w = update (set_events w (bit_and w.chan.events (complement cwevent)))

pub disable_all : Watched → Outcome Watched
unfolding set_events disable_channel
disable_all w = disable_channel (set_events w cnevent)

pub close : Watched → Outcome Watched
unfolding set_events remove_channel
close w = do
  w' ← remove_channel (set_events w cnevent)
  ok (record w' { chan = record (w'.chan) { closed = true } })

-- `~Channel`
pub destroy : Watched → Outcome Watched
unfolding close
destroy w = if w.chan.closed then ok w else close w

unfoldable pub is_reading : Channel → Outcome Bool
is_reading c = do
  assert (if has c.events crevent then c.read_callback else true)
  ok (has c.events crevent)

unfoldable pub is_writing : Channel → Outcome Bool
is_writing c = do
  assert (if has c.events cwevent then c.write_callback else true)
  ok (has c.events cwevent)

-- The three kinds of callback, and `Set…Callback` and `Unset…Callback` by the flag.
pub data Handler : Type 0 where
  error_handler read_handler write_handler : Handler

unfoldable pub put_callback : Handler → Bool → Watched → Watched
put_callback error_handler on w = record w { chan = record (w.chan) { error_callback = on } }
put_callback read_handler on w = record w { chan = record (w.chan) { read_callback = on } }
put_callback write_handler on w = record w { chan = record (w.chan) { write_callback = on } }

-- What a channel's owner can ask of it.
pub data Request : Type 0 where
  registers enables_reading disables_reading enables_writing disables_writing : Request
  disables_all closes : Request
  puts_callback : Handler → Bool → Request

pub perform : Request → Watched → Outcome Watched
unfolding register enable_reading disable_reading enable_writing disable_writing disable_all close
    put_callback
perform registers w = register w
perform enables_reading w = enable_reading w
perform disables_reading w = disable_reading w
perform enables_writing w = enable_writing w
perform disables_writing w = disable_writing w
perform disables_all w = disable_all w
perform closes w = close w
perform (puts_callback h on) w = ok (put_callback h on w)
