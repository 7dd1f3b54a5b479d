-- ===== src/Channel/Events.antt =====
-- event/Channel.h, the event masks, and event/poller/EpollPoller.cpp, `generaliseEvents` and
-- `transformEvents`.
use Prim.Native.Nat.{bit_and, bit_or}
use musketeer.Prelude.{
  ℕ, ◌-◌, ◌^◌, ◌≡◌, refl, ◌⊎◌, inl, inr, Bool, true, false, not, ◌||◌, ◌==◌, if◌then◌else◌,
}

-- `CNEVENT`, `CREVENT`, `CWEVENT`, `CEEVENT`
abbrev pub cnevent : ℕ
cnevent = 0

abbrev pub crevent : ℕ
crevent = 0x00f

abbrev pub cwevent : ℕ
cwevent = 0x0f0

abbrev pub ceevent : ℕ
ceevent = 0xf00

-- `~m` of an `unsigned int`.
abbrev pub complement : ℕ → ℕ
complement m = 2 ^ 32 - 1 - m

-- `(bool)(events & m)`
abbrev pub has : ℕ → ℕ → Bool
has events m = not (bit_and events m == 0)

-- The EPOLL* bits that the program sets or reads.
pub record EpollEvents : Type 0 where
  pub epollin : Bool
  pub epollpri : Bool
  pub epollrdhup : Bool
  pub epollout : Bool
  pub epollerr : Bool
  pub epollhup : Bool

unfoldable pub generalise_events : EpollEvents → ℕ
generalise_events e =
    bit_or
      (bit_or (if e.epollin || (e.epollpri || e.epollrdhup) then crevent else 0)
        (if e.epollout then cwevent else 0))
      (if e.epollerr || e.epollhup then ceevent else 0)

unfoldable pub transform_events : ℕ → EpollEvents
transform_events events = record {
  epollin = has events crevent;
  epollpri = has events crevent;
  epollrdhup = has events crevent;
  epollout = has events cwevent;
  epollerr = has events ceevent;
  epollhup = has events ceevent;
}

-- The values that `events` takes: the error mask is never set in it.
abbrev pub IsInterest : ℕ → Type 0
IsInterest e = (e ≡ 0) ⊎ ((e ≡ 0x0f) ⊎ ((e ≡ 0xf0) ⊎ (e ≡ 0xff)))

-- The mask of the three kinds of event.
abbrev pub mask : Bool → Bool → Bool → ℕ
mask r w e =
    bit_or (bit_or (if r then crevent else 0) (if w then cwevent else 0)) (if e then ceevent else 0)

-- `generaliseEvents` undoes `transformEvents` on every mask of whole kinds of event.
pub generalise_events-transform_events :
    (r w e : Bool) → generalise_events (transform_events (mask r w e)) ≡ mask r w e
unfolding generalise_events transform_events
generalise_events-transform_events true true true = refl
generalise_events-transform_events true true false = refl
generalise_events-transform_events true false true = refl
generalise_events-transform_events true false false = refl
generalise_events-transform_events false true true = refl
generalise_events-transform_events false true false = refl
generalise_events-transform_events false false true = refl
generalise_events-transform_events false false false = refl

-- What the poller reports has a kind's bits exactly if epoll set one of the flags of that kind.
pub has-generalise_events :
    (e : EpollEvents)
    → (has (generalise_events e) crevent ≡ (e.epollin || (e.epollpri || e.epollrdhup)))
      × (has (generalise_events e) cwevent ≡ e.epollout)
      × (has (generalise_events e) ceevent ≡ (e.epollerr || e.epollhup))
unfolding generalise_events
has-generalise_events e =
    kinds (e.epollin || (e.epollpri || e.epollrdhup)) e.epollout (e.epollerr || e.epollhup)
  where
    kinds :
        (r w x : Bool)
        → (has (mask r w x) crevent ≡ r)
          × (has (mask r w x) cwevent ≡ w)
          × (has (mask r w x) ceevent ≡ x)
    kinds true true true = (refl, refl, refl)
    kinds true true false = (refl, refl, refl)
    kinds true false true = (refl, refl, refl)
    kinds true false false = (refl, refl, refl)
    kinds false true true = (refl, refl, refl)
    kinds false true false = (refl, refl, refl)
    kinds false false true = (refl, refl, refl)
    kinds false false false = (refl, refl, refl)

-- What the four updates of `events` do to an interest mask.
pub IsInterest-add_read :
    (e : ℕ) → IsInterest e → IsInterest (bit_or e crevent) × ((bit_or e crevent == cnevent) ≡ false)
IsInterest-add_read e (inl h) = rw h (inr (inl refl), refl)
IsInterest-add_read e (inr (inl h)) = rw h (inr (inl refl), refl)
IsInterest-add_read e (inr (inr (inl h))) = rw h (inr (inr (inr refl)), refl)
IsInterest-add_read e (inr (inr (inr h))) = rw h (inr (inr (inr refl)), refl)

pub IsInterest-add_write :
    (e : ℕ) → IsInterest e → IsInterest (bit_or e cwevent) × ((bit_or e cwevent == cnevent) ≡ false)
IsInterest-add_write e (inl h) = rw h (inr (inr (inl refl)), refl)
IsInterest-add_write e (inr (inl h)) = rw h (inr (inr (inr refl)), refl)
IsInterest-add_write e (inr (inr (inl h))) = rw h (inr (inr (inl refl)), refl)
IsInterest-add_write e (inr (inr (inr h))) = rw h (inr (inr (inr refl)), refl)

pub IsInterest-drop_read :
    (e : ℕ)
    → IsInterest e
    → IsInterest (bit_and e (complement crevent))
      × ((bit_and e (complement crevent) == cnevent) ≡ not (has e cwevent))
IsInterest-drop_read e (inl h) = rw h (inl refl, refl)
IsInterest-drop_read e (inr (inl h)) = rw h (inl refl, refl)
IsInterest-drop_read e (inr (inr (inl h))) = rw h (inr (inr (inl refl)), refl)
IsInterest-drop_read e (inr (inr (inr h))) = rw h (inr (inr (inl refl)), refl)

pub IsInterest-drop_write :
    (e : ℕ)
    → IsInterest e
    → IsInterest (bit_and e (complement cwevent))
      × ((bit_and e (complement cwevent) == cnevent) ≡ not (has e crevent))
IsInterest-drop_write e (inl h) = rw h (inl refl, refl)
IsInterest-drop_write e (inr (inl h)) = rw h (inr (inl refl), refl)
IsInterest-drop_write e (inr (inr (inl h))) = rw h (inl refl, refl)
IsInterest-drop_write e (inr (inr (inr h))) = rw h (inr (inl refl), refl)

pub reading_kept :
    (e : ℕ)
    → IsInterest e
    → (has (bit_or e crevent) crevent ≡ true) × (has (bit_or e crevent) cwevent ≡ has e cwevent)
reading_kept e (inl h) = rw h (refl, refl)
reading_kept e (inr (inl h)) = rw h (refl, refl)
reading_kept e (inr (inr (inl h))) = rw h (refl, refl)
reading_kept e (inr (inr (inr h))) = rw h (refl, refl)
