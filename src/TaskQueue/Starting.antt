-- ===== src/TaskQueue/Starting.antt =====
-- base/TaskQueue.cpp, `Init`: how the thread that owns a queue comes to wait for its tasks.
use musketeer.Prelude.{
  ℕ, ◌≡◌, refl, Bool, true, false, not, Option, none, some, arith, Outcome, ok, fault, assertion,
  ◌>>=◌, ◌>>◌, assert, Returns, Returns-value, ◌==◌, ap, ◌∙◌,
}
use musketeer.Prelude.Assoc.{lookup}
use musketeer.Errors.{SysResult, Errno, failed, done}
use musketeer.Channel.{
  Cycle, Watched, set, make, register, enable_reading, put_callback, read_handler,
}
use musketeer.Channel.Events.{has, crevent}
use musketeer.Channel.Lifecycle.{Inv, put_callback-Inv}
use musketeer.Channel.Calls.{Registered, register_lem, EnablesReading, enable_reading_all}

-- `eventFd` and `eventfdChan`; the channel is in the cycle of the owner.
pub record Wakeup : Type 0 where
  pub event_fd : Option ℕ
  pub channel : Option Watched

abbrev is_some : Option Watched → Bool
is_some none = false
is_some (some w) = true

-- `Init` in a cycle, with what `::eventfd` returns and the address of the new channel.
pub init : SysResult → Cycle → ℕ → Wakeup → Outcome Wakeup
init (failed e) cy address s = do
  assert (not (is_some s.channel))
  ok (record s { event_fd = none })
init (done n) cy address s = do
  assert (not (is_some s.channel))
  w ← register (make cy address n)
  w' ← enable_reading (put_callback read_handler true w)
  ok (record { event_fd = some n; channel = some w' })

-- The cycle after the queue's `Init`.
abbrev pub cycle_after : Option Watched → Cycle → Cycle
cycle_after none cy = cy
cycle_after (some v) cy = v.cycle

-- The channel of the eventfd `n`, registered in a cycle and waiting for reading.
pub record Awake (cy : Cycle) (address n : ℕ) (v : Watched) : Type 0 where
  pub inv : Inv v
  pub reading : has v.chan.events crevent ≡ true
  pub status : v.chan.status ≡ set
  pub read_callback : v.chan.read_callback ≡ true
  pub fd : v.chan.fd ≡ n
  pub id : v.id ≡ address
  pub others_kept :
      (k : ℕ) → (k == n) ≡ false → lookup k v.cycle.all_channels ≡ lookup k cy.all_channels

-- The first `Init` with a descriptor that the cycle does not know returns: the eventfd's channel is
-- registered and waits for reading, with its callback set, and no other channel of the cycle is touched. Where `::eventfd` fails there is no channel,
-- and nothing tells the caller. A second `Init` fails an assertion.
pub init_lem :
    (n address : ℕ) (e : Errno) (res : SysResult) (cy : Cycle) (s : Wakeup) (w : Watched)
    → lookup n cy.all_channels ≡ none
    → s.channel ≡ none
    → Returns
        (λ s'.
          (s'.event_fd ≡ some n) × (v : Watched) × (s'.channel ≡ some v) × Awake cy address n v)
        (init (done n) cy address s)
      × (init (failed e) cy address s ≡ ok (record s { event_fd = none }))
      × (init res cy address (record s { channel = some w }) ≡ fault assertion)
unfolding init put_callback make
init_lem n address e res cy s w free new =
    let (x, ex, px) =
      Returns-value (Registered cy address n) (register (make cy address n))
        (register_lem cy address n free) in
    let ready = put_callback read_handler true x in
    let (y, ey, py) = Returns-value (EnablesReading ready) (enable_reading ready) (
      enable_reading_all ready (put_callback-Inv read_handler true x px.inv) refl px.status
        px.idle) in
    let unset : not (is_some s.channel) ≡ true = ground arith in
    (
      rw (unset, ex, ey)
          (
            refl,
            y,
            refl,
            record {
              inv = py.inv;
              reading = py.reading;
              status = py.status;
              read_callback = py.keeps.read_callback_kept;
              fd = py.keeps.fd_kept ∙ px.keeps.fd_kept;
              id = py.keeps.id_kept ∙ px.keeps.id_kept;
              others_kept = λ k d.
                  py.keeps.others_kept k (ap (λ m. k == m) px.keeps.fd_kept ∙ d)
                  ∙ px.keeps.others_kept k d;
            },
          ),
      rw unset refl,
      twice res,
    )
  where
    twice : (r : SysResult) → init r cy address (record s { channel = some w }) ≡ fault assertion
    twice (failed x) = refl
    twice (done x) = refl
