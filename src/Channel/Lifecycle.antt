-- ===== src/Channel/Lifecycle.antt =====
-- event/Channel.h: the states of a channel between two calls, and what each call does to them.
use musketeer.Prelude.{
  ℕ, ◌≡◌, ◌≢◌, refl, inl, inr, Bool, true, false, not, ◌==◌, none, some, arith, Outcome, ok, fault,
  assertion, >>=-eq-ok, ◌>>=◌, Returns, if◌then◌else◌, List, [], ◌∷◌,
}
use musketeer.Channel.{
  new, set, removed, Cycle, Watched, is_new, is_set, make, register, enable_reading,
  disable_reading, enable_writing, disable_writing, disable_all, close, destroy, put_callback,
  Handler, error_handler, read_handler, write_handler, Request, perform, registers, enables_reading,
  disables_reading, enables_writing, disables_writing, disables_all, closes, puts_callback,
}
use musketeer.Channel.Events.{
  IsInterest, has, crevent, cwevent, IsInterest-add_read, IsInterest-add_write,
  IsInterest-drop_read, IsInterest-drop_write, reading_kept,
}
use musketeer.Prelude.Assoc.{lookup, lookup-insert, lookup-erase}

-- A channel is in epoll exactly if it waits for some event, and in the map of the cycle exactly if
-- it is not new.
pub record Inv (w : Watched) : Type 0 where
  pub interest : IsInterest w.chan.events
  pub watched : is_set w.chan.status ≡ not (w.chan.events == 0)
  pub mapped :
      lookup w.chan.fd w.cycle.all_channels ≡ (if is_new w.chan.status then none else some w.id)

pub make-Inv : (c : Cycle) (id fd : ℕ) → lookup fd c.all_channels ≡ none → Inv (make c id fd)
unfolding make
make-Inv c id fd h = record { interest = inl refl; watched = refl; mapped = h }

pub enable_reading-Inv : (w w' : Watched) → Inv w → enable_reading w ≡ ok w' → Inv w'
unfolding enable_reading
enable_reading-Inv w w' v e = ground (
  arith,
  v.watched,
  v.mapped,
  IsInterest-add_read w.chan.events v.interest,
  lookup-insert w.chan.fd w.chan.fd w.id w.cycle.all_channels,
)

pub enable_writing-Inv : (w w' : Watched) → Inv w → enable_writing w ≡ ok w' → Inv w'
unfolding enable_writing
enable_writing-Inv w w' v e = ground (
  arith,
  v.watched,
  v.mapped,
  IsInterest-add_write w.chan.events v.interest,
  lookup-insert w.chan.fd w.chan.fd w.id w.cycle.all_channels,
)

pub disable_reading-Inv : (w w' : Watched) → Inv w → disable_reading w ≡ ok w' → Inv w'
unfolding disable_reading
disable_reading-Inv w w' v e = ground (
  arith,
  v.watched,
  v.mapped,
  IsInterest-drop_read w.chan.events v.interest,
  lookup-insert w.chan.fd w.chan.fd w.id w.cycle.all_channels,
)

pub disable_writing-Inv : (w w' : Watched) → Inv w → disable_writing w ≡ ok w' → Inv w'
unfolding disable_writing
disable_writing-Inv w w' v e = ground (
  arith,
  v.watched,
  v.mapped,
  IsInterest-drop_write w.chan.events v.interest,
  lookup-insert w.chan.fd w.chan.fd w.id w.cycle.all_channels,
)

disable_all-Inv : (w w' : Watched) → Inv w → disable_all w ≡ ok w' → Inv w'
unfolding disable_all
disable_all-Inv w w' v e = ground (arith, v.watched, v.mapped)

register-Inv : (w w' : Watched) → Inv w → register w ≡ ok w' → Inv w'
unfolding register
register-Inv w w' v e =
    ground
      (arith, v.watched, v.interest, lookup-insert w.chan.fd w.chan.fd w.id w.cycle.all_channels)

close-Inv : (w w' : Watched) → Inv w → close w ≡ ok w' → Inv w'
unfolding close
close-Inv w w' v e = ground (arith, v.mapped, lookup-erase w.chan.fd w.chan.fd w.cycle.all_channels)

pub put_callback-Inv : (h : Handler) (on : Bool) (w : Watched) → Inv w → Inv (put_callback h on w)
unfolding put_callback
put_callback-Inv error_handler on w v = ground (arith, v.watched, v.mapped, v.interest)
put_callback-Inv read_handler on w v = ground (arith, v.watched, v.mapped, v.interest)
put_callback-Inv write_handler on w v = ground (arith, v.watched, v.mapped, v.interest)

-- Every call that returns keeps the invariant.
pub perform-Inv : (r : Request) (w w' : Watched) → Inv w → perform r w ≡ ok w' → Inv w'
unfolding perform
perform-Inv registers w w' v e = register-Inv w w' v e
perform-Inv enables_reading w w' v e = enable_reading-Inv w w' v e
perform-Inv disables_reading w w' v e = disable_reading-Inv w w' v e
perform-Inv enables_writing w w' v e = enable_writing-Inv w w' v e
perform-Inv disables_writing w w' v e = disable_writing-Inv w w' v e
perform-Inv disables_all w w' v e = disable_all-Inv w w' v e
perform-Inv closes w w' v e = close-Inv w w' v e
perform-Inv (puts_callback h on) w w' v e = ground (arith, put_callback-Inv h on w v)

unfoldable pub perform_all : List Request → Watched → Outcome Watched
perform_all [] w = ok w
perform_all (r ∷ rs) w = do w' ← perform r w; perform_all rs w'

perform_all-Inv : (rs : List Request) (w w' : Watched) → Inv w → perform_all rs w ≡ ok w' → Inv w'
unfolding perform_all
perform_all-Inv [] w w' v e = ground arith
perform_all-Inv (r ∷ rs) w w' v e =
    let (m, em, rest) = >>=-eq-ok (perform r w) (perform_all rs) e in
    perform_all-Inv rs m w' (perform-Inv r w m v em) rest

-- After any calls that return, a channel made on a descriptor that was in no map is in epoll
-- exactly if it waits for some event, and in the map of the cycle exactly if it is not new.
pub perform_all-make :
    (rs : List Request) (c : Cycle) (id fd : ℕ) (w : Watched)
    → lookup fd c.all_channels ≡ none
    → perform_all rs (make c id fd) ≡ ok w
    → Inv w
perform_all-make rs c id fd w h e = perform_all-Inv rs (make c id fd) w (make-Inv c id fd h) e

-- Where `DisableReading` returns on a channel that does not wait for writing, the channel is
-- removed from epoll, and a second `DisableReading` fails an assertion.
pub disable_reading_twice :
    (w w' : Watched)
    → Inv w
    → has w.chan.events cwevent ≡ false
    → disable_reading w ≡ ok w'
    → (w'.chan.status ≡ removed) × (disable_reading w' ≡ fault assertion)
unfolding disable_reading
disable_reading_twice w w' v h e =
    ground (arith, v.watched, IsInterest-drop_read w.chan.events v.interest)

-- `DisableAll` aborts on a channel that is registered and waits for nothing.
pub disable_all_idle : (w : Watched) → Inv w → w.chan.events ≡ 0 → disable_all w ≡ fault assertion
unfolding disable_all
disable_all_idle w v h = ground (arith, v.watched)

-- `Close` of a channel that is not new and meets the invariant returns; then the channel waits for
-- nothing, is new again and closed, and its descriptor is not in the map.
pub close_lem :
    (w : Watched)
    → Inv w
    → w.chan.status ≢ new
    → Returns
        (λ w'.
          (w'.chan.events ≡ 0)
          × (w'.chan.status ≡ new)
          × (w'.chan.closed ≡ true)
          × (lookup w.chan.fd w'.cycle.all_channels ≡ none))
        (close w)
unfolding close
close_lem w v h = ground (arith, v.watched, lookup-erase w.chan.fd w.chan.fd w.cycle.all_channels)

-- With its callback set, enabling reading on a registered channel returns, and the channel is in
-- epoll waiting for what it waited for and for reading.
pub enable_reading_lem :
    (w : Watched)
    → Inv w
    → w.chan.read_callback ≡ true
    → Returns
        (λ w'.
          (w'.chan.status ≡ set)
          × (has w'.chan.events crevent ≡ true)
          × (has w'.chan.events cwevent ≡ has w.chan.events cwevent))
        (enable_reading w)
unfolding enable_reading
enable_reading_lem w v c = ground (
  arith,
  v.mapped,
  v.watched,
  IsInterest-add_read w.chan.events v.interest,
  reading_kept w.chan.events v.interest,
)

-- Disabling reading on a channel that reads returns, and only the interest in reading is gone.
pub disable_reading_lem :
    (w : Watched)
    → Inv w
    → has w.chan.events crevent ≡ true
    → Returns
        (λ w'.
          (has w'.chan.events crevent ≡ false)
          × (has w'.chan.events cwevent ≡ has w.chan.events cwevent)
          × (w'.chan.read_callback ≡ w.chan.read_callback))
        (disable_reading w)
unfolding disable_reading
disable_reading_lem w v h = elim v.interest [
  | inl e ↦ ground (arith, e)
  | inr (inl e) ↦ ground (arith, e, v.watched)
  | inr (inr (inl e)) ↦ ground (arith, e)
  | inr (inr (inr e)) ↦ ground (arith, e, v.watched)
]

-- Enabling writing with its callback set returns, and the channel waits for writing.
pub enable_writing_lem :
    (w : Watched)
    → Inv w
    → w.chan.write_callback ≡ true
    → Returns
        (λ w'.
          (has w'.chan.events cwevent ≡ true) × (w'.chan.write_callback ≡ w.chan.write_callback))
        (enable_writing w)
unfolding enable_writing
enable_writing_lem w v c = elim v.interest [
  | inl e ↦ ground (arith, e, v.mapped, v.watched)
  | inr (inl e) ↦ ground (arith, e, v.mapped, v.watched)
  | inr (inr (inl e)) ↦ ground (arith, e, v.mapped, v.watched)
  | inr (inr (inr e)) ↦ ground (arith, e, v.mapped, v.watched)
]

-- Disabling writing on a channel that waits for writing returns, and only that interest is gone.
pub disable_writing_lem :
    (w : Watched)
    → Inv w
    → has w.chan.events cwevent ≡ true
    → Returns
        (λ w'.
          (has w'.chan.events cwevent ≡ false)
          × (has w'.chan.events crevent ≡ has w.chan.events crevent))
        (disable_writing w)
unfolding disable_writing
disable_writing_lem w v h = elim v.interest [
  | inl e ↦ ground (arith, e)
  | inr (inl e) ↦ ground (arith, e)
  | inr (inr (inl e)) ↦ ground (arith, e, v.watched)
  | inr (inr (inr e)) ↦ ground (arith, e, v.watched)
]

-- The destructor of a channel that was closed does nothing.
pub destroy_closed : (w w' : Watched) → close w ≡ ok w' → destroy w' ≡ ok w'
unfolding close destroy
destroy_closed w w' e = ground arith
