-- ===== src/Timers/Starting.antt =====
-- base/TimerQueue.cpp, `Init`: the timerfd, its channel and the timers.
use musketeer.Prelude.{
  ℕ, ◌≡◌, none, ok, Outcome, fault, aborted, ◌>>=◌, Returns, Returns-value, refl,
}
use musketeer.Prelude.Assoc.{lookup}
use musketeer.Errors.{SysResult, Errno, failed, done}
use musketeer.Channel.{Cycle, Watched, make, register}
use musketeer.Channel.Calls.{Registered, register_lem}
use musketeer.Timers.{TimerQueue, init}

-- `Init` of a queue for so many timers, in a cycle, with what `::timerfd_create` returns and the address of
-- the new channel.
pub init_channel : SysResult → Cycle → ℕ → ℕ → Outcome (TimerQueue × Watched)
init_channel (failed e) cy address count = fault aborted
init_channel (done n) cy address count = do w ← register (make cy address n); ok (init count, w)

-- With a descriptor that the cycle does not know `Init` returns: the timers are free, and the channel is
-- registered and waits for nothing. Without a descriptor the program stops.
pub init_channel_lem :
    (n address count : ℕ) (e : Errno) (cy : Cycle)
    → lookup n cy.all_channels ≡ none
    → Returns
        (λ r. (r.0 ≡ init count) × Registered cy address n r.1)
        (init_channel (done n) cy address count)
      × (init_channel (failed e) cy address count ≡ fault aborted)
unfolding init_channel
init_channel_lem n address count e cy free =
    let (w, ew, pw) =
      Returns-value (Registered cy address n) (register (make cy address n))
        (register_lem cy address n free) in
    (rw ew (refl, pw), refl)
