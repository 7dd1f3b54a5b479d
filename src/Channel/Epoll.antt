-- ===== src/Channel/Epoll.antt =====
-- event/poller/EpollPoller.cpp: the calls of `epoll_ctl`, against what epoll accepts.
use musketeer.Prelude.{
  ℕ, ◌≡◌, Bool, ◌==◌, Option, none, some, arith, ok, if◌then◌else◌, List, [], ◌∷◌, >>=-eq-ok,
}
use musketeer.Channel.{
  Channel, Cycle, Watched, is_set, make, register, enable_reading, disable_reading, enable_writing,
  disable_writing, disable_all, close, put_callback, Handler, error_handler, read_handler,
  write_handler, Request, Ctl, CtlOp, ctl_add, ctl_mod, ctl_del, perform, registers,
  enables_reading, disables_reading, enables_writing, disables_writing, disables_all, closes,
  puts_callback,
}
use musketeer.Channel.Events.{EpollEvents, transform_events}
use musketeer.Prelude.Assoc.{lookup}
use musketeer.Channel.Lifecycle.{Inv, make-Inv, perform-Inv, perform_all}

-- What an epoll instance holds of one descriptor: nothing, or the events it waits for.
abbrev pub Entry : Type 0
Entry = Option EpollEvents

-- epoll_ctl(2): adding a descriptor that is in the list fails (EEXIST), and so does changing or
-- removing one that is not (ENOENT). `none` is such a failure.
abbrev pub accept : CtlOp → EpollEvents → Entry → Option Entry
accept ctl_add e none = some (some e)
accept ctl_add e (some old) = none
accept ctl_mod e none = none
accept ctl_mod e (some old) = some (some e)
accept ctl_del e none = none
accept ctl_del e (some old) = some none

abbrev apply_ctl : ℕ → Ctl → Entry → Option Entry
apply_ctl fd c old = if c.target == fd then accept c.op c.interest old else some old

-- What the calls of a log, the oldest first, make of the entry of `fd`; none of them fails.
abbrev pub replay : ℕ → List Ctl → Entry → Option Entry
replay fd [] old = some old
replay fd (c ∷ cs) old = elim (replay fd cs old) [ none ↦ none | some e ↦ apply_ctl fd c e ]

abbrev pub entry_of : Channel → Entry
entry_of c = if is_set c.status then some (transform_events c.events) else none

-- No call failed, and epoll waits for what the channel waits for, if the channel is set.
abbrev pub Agrees : Watched → Type 0
Agrees w = replay w.chan.fd w.cycle.ctl none ≡ some (entry_of w.chan)

enable_reading-Agrees : (w w' : Watched) → Inv w → Agrees w → enable_reading w ≡ ok w' → Agrees w'
unfolding enable_reading
enable_reading-Agrees w w' v a e = ground (arith, v.watched)

enable_writing-Agrees : (w w' : Watched) → Inv w → Agrees w → enable_writing w ≡ ok w' → Agrees w'
unfolding enable_writing
enable_writing-Agrees w w' v a e = ground (arith, v.watched)

disable_reading-Agrees : (w w' : Watched) → Inv w → Agrees w → disable_reading w ≡ ok w' → Agrees w'
unfolding disable_reading
disable_reading-Agrees w w' v a e = ground (arith, v.watched)

disable_writing-Agrees : (w w' : Watched) → Inv w → Agrees w → disable_writing w ≡ ok w' → Agrees w'
unfolding disable_writing
disable_writing-Agrees w w' v a e = ground (arith, v.watched)

disable_all-Agrees : (w w' : Watched) → Inv w → Agrees w → disable_all w ≡ ok w' → Agrees w'
unfolding disable_all
disable_all-Agrees w w' v a e = ground (arith, v.watched)

register-Agrees : (w w' : Watched) → Inv w → Agrees w → register w ≡ ok w' → Agrees w'
unfolding register
register-Agrees w w' v a e = ground (arith, v.watched)

close-Agrees : (w w' : Watched) → Inv w → Agrees w → close w ≡ ok w' → Agrees w'
unfolding close
close-Agrees w w' v a e = ground (arith, v.watched)

put_callback-Agrees :
    (h : Handler) (on : Bool) (w : Watched) → Agrees w → Agrees (put_callback h on w)
unfolding put_callback
put_callback-Agrees error_handler on w a = a
put_callback-Agrees read_handler on w a = a
put_callback-Agrees write_handler on w a = a

perform-Agrees : (r : Request) (w w' : Watched) → Inv w → Agrees w → perform r w ≡ ok w' → Agrees w'
unfolding perform
perform-Agrees registers w w' v a e = register-Agrees w w' v a e
perform-Agrees enables_reading w w' v a e = enable_reading-Agrees w w' v a e
perform-Agrees disables_reading w w' v a e = disable_reading-Agrees w w' v a e
perform-Agrees enables_writing w w' v a e = enable_writing-Agrees w w' v a e
perform-Agrees disables_writing w w' v a e = disable_writing-Agrees w w' v a e
perform-Agrees disables_all w w' v a e = disable_all-Agrees w w' v a e
perform-Agrees closes w w' v a e = close-Agrees w w' v a e
perform-Agrees (puts_callback h on) w w' v a e = ground (arith, put_callback-Agrees h on w a)

perform_all-Agrees :
    (rs : List Request) (w w' : Watched) → Inv w → Agrees w → perform_all rs w ≡ ok w' → Agrees w'
unfolding perform_all
perform_all-Agrees [] w w' v a e = ground (arith, a)
perform_all-Agrees (r ∷ rs) w w' v a e =
    let (m, em, rest) = >>=-eq-ok (perform r w) (perform_all rs) e in
    perform_all-Agrees rs m w' (perform-Inv r w m v em) (perform-Agrees r w m v a em) rest

made : (c : Cycle) (id fd : ℕ) → replay fd c.ctl none ≡ some none → Agrees (make c id fd)
unfolding make
made c id fd k = k

-- Whatever calls return on a channel made on a descriptor that is in no map and not in epoll, none
-- of the calls of `epoll_ctl` for it fails, and epoll waits for exactly the events that the channel
-- wants, or for none while the channel is not set.
pub perform_all-make-Agrees :
    (rs : List Request) (c : Cycle) (id fd : ℕ) (w : Watched)
    → lookup fd c.all_channels ≡ none
    → replay fd c.ctl none ≡ some none
    → perform_all rs (make c id fd) ≡ ok w
    → Agrees w
perform_all-make-Agrees rs c id fd w h k e =
    perform_all-Agrees rs (make c id fd) w (make-Inv c id fd h) (made c id fd k) e
