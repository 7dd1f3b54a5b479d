-- ===== src/Channel/Tests.antt =====
-- Concrete channels.
use musketeer.Prelude.{
  ◌≡◌, refl, inl, inr, true, false, List, [], ◌∷◌, none, arith, Outcome, ok, fault, assertion,
  Returns,
}
use musketeer.Channel.{
  Channel, new, set, removed, Cycle, Watched, make, Handler, error_handler, read_handler, Request,
  perform, registers, enables_reading, puts_callback, register, enable_reading, disable_reading,
  disable_all, close, put_callback, ctl_add, ctl_del,
}
use musketeer.Channel.Events.{
  has, crevent, cwevent, mask, generalise_events, transform_events,
  generalise_events-transform_events,
}
use musketeer.Prelude.Assoc.{lookup, insert, erase}
use musketeer.Channel.Lifecycle.{
  Inv, perform_all, perform_all-make, disable_reading_twice, disable_all_idle, close_lem,
  enable_reading_lem,
}
use musketeer.Channel.Epoll.{Agrees, perform_all-make-Agrees}
use musketeer.Channel.Dispatch.{process_events, process_events-due}

abbrev idle_cycle : Cycle
idle_cycle = record { all_channels = []; ctl = []; stop = false }

abbrev script : List Request
script = registers ∷ puts_callback read_handler true ∷ enables_reading ∷ []

abbrev read_entry : Watched
read_entry = record {
  cycle = record {
    all_channels = (5, 1) ∷ [];
    ctl = record { op = ctl_add; target = 5; interest = transform_events 0x0f } ∷ [];
    stop = false;
  };
  chan = record {
    status = set;
    fd = 5;
    events = 0x0f;
    revents = 0;
    closed = false;
    read_callback = true;
    write_callback = false;
    error_callback = false;
  };
  id = 1;
}

script_runs : perform_all script (make idle_cycle 1 5) ≡ ok read_entry
unfolding perform_all perform make register enable_reading put_callback lookup insert erase
script_runs = refl

read_entry-Inv : Inv read_entry
unfolding lookup
read_entry-Inv = record { interest = inr (inl refl); watched = refl; mapped = refl }

-- Registered, and waiting for nothing.
abbrev registered : Watched
registered = record read_entry {
  cycle = record { all_channels = (5, 1) ∷ []; ctl = []; stop = false };
  chan = record (read_entry.chan) { status = removed; events = 0 };
}

registered-Inv : Inv registered
unfolding lookup
registered-Inv = record { interest = inl refl; watched = refl; mapped = refl }

perform_all-make_example : Inv read_entry
unfolding lookup
perform_all-make_example = perform_all-make script idle_cycle 1 5 read_entry refl script_runs

perform_all-make-Agrees_example : Agrees read_entry
unfolding lookup
perform_all-make-Agrees_example =
    perform_all-make-Agrees script idle_cycle 1 5 read_entry refl refl script_runs

abbrev after_disable : Watched
after_disable = record registered {
  cycle = record (registered.cycle) {
    ctl = record { op = ctl_del; target = 5; interest = transform_events 0 } ∷ read_entry.cycle.ctl;
  };
}

disables : disable_reading read_entry ≡ ok after_disable
unfolding disable_reading
disables = refl

disable_reading_twice_example :
    (after_disable.chan.status ≡ removed) × (disable_reading after_disable ≡ fault assertion)
disable_reading_twice_example =
    disable_reading_twice read_entry after_disable read_entry-Inv refl disables

disable_all_idle_example : disable_all registered ≡ fault assertion
disable_all_idle_example = disable_all_idle registered registered-Inv refl

close_lem_example :
    Returns
      (λ w'.
        (w'.chan.events ≡ 0)
        × (w'.chan.status ≡ new)
        × (w'.chan.closed ≡ true)
        × (lookup 5 w'.cycle.all_channels ≡ none))
      (close read_entry)
close_lem_example = close_lem read_entry read_entry-Inv (λ e. cc)

enable_reading_lem_example :
    Returns
      (λ w'.
        (w'.chan.status ≡ set)
        × (has w'.chan.events crevent ≡ true)
        × (has w'.chan.events cwevent ≡ false))
      (enable_reading registered)
enable_reading_lem_example = enable_reading_lem registered registered-Inv refl

-- A state that counts the calls of callbacks, beside a channel.
abbrev Traced : Type 0
Traced = Channel × List Handler

abbrev trace : Handler → Traced → Outcome Traced
trace h s = ok (s.0, h ∷ s.1)

trace_keeps : (h : Handler) (s s' : Traced) → trace h s ≡ ok s' → s'.0 ≡ s.0
trace_keeps h s s' e = ground arith

abbrev reported : Channel
reported = record (read_entry.chan) { revents = 0xf0f; error_callback = true }

process_events-due_example :
    process_events (λ (s : Traced). s.0) trace (reported, [])
    ≡ ok (reported, read_handler ∷ error_handler ∷ [])
process_events-due_example =
    process_events-due (λ (s : Traced). s.0) trace trace_keeps (reported, [])

generalise_events-transform_events_example :
    generalise_events (transform_events (mask true false true)) ≡ mask true false true
generalise_events-transform_events_example = generalise_events-transform_events true false true
