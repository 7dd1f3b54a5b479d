-- ===== src/Timers.antt =====
-- base/Timer.h, base/Timer.cpp, base/TimerQueue.h and base/TimerQueue.cpp: timers, the queue that
-- orders them, and the timerfd that wakes it. Time points count nanoseconds, durations milliseconds.
-- A timer goes by its index in the pool, and entries at one time point are ordered by it, where the
-- code orders by address.
pub mod Entries
pub mod Starting
pub mod Arming
pub mod Expiry
pub mod Repeats
pub mod Stale
pub mod Handles
pub mod Cancelling
mod Tests
use musketeer.Prelude.{
  ℕ, zero, suc, ◌+◌, ◌-◌, ◌*◌, ◌/◌, ◌%◌, ◌^◌, Bool, true, false, not, ◌||◌, List, [], ◌∷◌, ◌++◌,
  length, Option, none, some, Outcome, ok, fault, ◌>>=◌, ◌>>◌, assert, assertion, guard, empty_call,
  out_of_bounds, aborted, ltb, leb, ◌==◌, if◌then◌else◌,
}
use Entries.{Entry, entry_ltb, entry_eqb, insert, remove, member, next_after, up_to, drop_below}

-- `Timer`; the callback goes by a number, `none` is an empty one.
pub record Timer : Type 0 where
  pub index : ℕ
  pub repeated : Bool
  pub set : Bool
  pub point : ℕ
  pub duration : ℕ
  pub callback : Option ℕ

abbrev pub ns_per_ms : ℕ
ns_per_ms = 1000000

-- The value given to `timerfd_settime`, in seconds and nanoseconds, by size and sign.
pub record Setting : Type 0 where
  pub negative : Bool
  pub tv_sec : ℕ
  pub tv_nsec : ℕ

-- `interval` milliseconds, or as many before zero.
abbrev pub setting_of : Bool → ℕ → Setting
setting_of negative interval = record {
  negative = negative;
  tv_sec = interval / 1000;
  tv_nsec = interval % 1000 * 1000 * 1000;
}

-- The value for a count of milliseconds that was put into an `int`.
abbrev pub int_setting : Bool → ℕ → Setting
int_setting negative interval =
    let m = if negative then (2 ^ 32 - interval % 2 ^ 32) % 2 ^ 32 else interval % 2 ^ 32 in
    if ltb m (2 ^ 31) then setting_of false m else setting_of true (2 ^ 32 - m)

-- `TimerQueue`. `reads` counts the calls of `Now()`, `settings` lists those of `timerfd_settime` and
-- `fired` the callbacks run, the last one first. `reading` is `timerChannel->IsReading()`.
pub record TimerQueue : Type 0 where
  pub armed : Bool
  pub reading : Bool
  pub timers_set : List Entry
  pub pool : ℕ → Timer
  pub pool_size : ℕ
  pub indexes : List ℕ
  pub settings : List Setting
  pub reads : ℕ
  pub fired : List ℕ

abbrev pub put_timer : ℕ → Timer → TimerQueue → TimerQueue
put_timer i t q = record q { pool = λ j. if i == j then t else q.pool j }

blank : ℕ → Timer
blank i = record {
  index = i;
  repeated = false;
  set = false;
  point = 0;
  duration = 0;
  callback = none;
}

-- `timersPool.emplace_back(i, this)`
emplace : TimerQueue → TimerQueue
unfolding blank
emplace q = record (put_timer q.pool_size (blank q.pool_size) q) { pool_size = q.pool_size + 1 }

-- The loop of `Init`: `n` more timers, all of them free.
fill_pool : ℕ → TimerQueue → TimerQueue
unfolding emplace
fill_pool zero q = q
fill_pool (suc n) q = fill_pool n (record (emplace q) { indexes = q.pool_size ∷ q.indexes })

-- `TimerQueue(count, ec)` and `Init`, where `timerfd_create` succeeds.
unfoldable pub init : ℕ → TimerQueue
unfolding fill_pool
init count = fill_pool count (record {
  armed = false;
  reading = false;
  timers_set = [];
  pool = blank;
  pool_size = 0;
  indexes = [];
  settings = [];
  reads = 0;
  fired = [];
})

-- `NewTimer`: the timer's index, from the top of the stack.
take_index : TimerQueue → List ℕ → Outcome (ℕ × TimerQueue)
take_index q [] = fault out_of_bounds
take_index q (i ∷ rest) = ok (
  i,
  put_timer i (record (q.pool i) { repeated = false; set = false }) (record q { indexes = rest }),
)

abbrev pub is_empty : List ℕ → Bool
is_empty [] = true
is_empty (i ∷ is) = false

unfoldable pub new_timer : TimerQueue → Outcome (ℕ × TimerQueue)
unfolding take_index emplace
new_timer q =
    let q' = if is_empty q.indexes then record (emplace q) { indexes = q.pool_size ∷ [] } else q in
    take_index q' q'.indexes

-- `returnTimer`, the deleter of a `TimerPtr`.
pub return_timer : ℕ → TimerQueue → TimerQueue
return_timer i q =
    put_timer i (record (q.pool i) { callback = none }) (record q { indexes = i ∷ q.indexes })

-- `tp < timersSet.begin()->first`
abbrev begins_after : ℕ → List Entry → Bool
begins_after tp [] = false
begins_after tp (e ∷ es) = ltb tp e.point

-- The time of each call of `Now()` is a parameter.
module _ (time : ℕ → ℕ) where
  abbrev pub now : TimerQueue → ℕ
  now q = time q.reads

  abbrev pub tick : TimerQueue → TimerQueue
  tick q = record q { reads = q.reads + 1 }

  -- `resetTimerfd`. `duration_cast` cuts to whole milliseconds, towards zero, which go into an `int`; whether the call
  -- succeeds is only logged.
  pub reset_timerfd : ℕ → TimerQueue → TimerQueue
  reset_timerfd tp q =
      let passed = (now q - tp) / ns_per_ms in
      let interval = (tp - now q) / ns_per_ms in
      let value = if ltb 0 passed then int_setting true passed else int_setting false interval in
      record (tick q) { settings = value ∷ q.settings; reading = true; armed = true }

  -- `AddTimer`. It reads the clock once for the test, and once for an interval that it does not use.
  pub add_timer : ℕ → TimerQueue → Outcome TimerQueue
  unfolding reset_timerfd
  add_timer i q =
      let tp = (q.pool i).point in
      let e : Entry = record { point = tp; timer = i } in
      if leb tp (now q)
      then ok (tick q)
      else (assert (not (member e q.timers_set))
          >> (let q₁ = record (tick (tick q)) { timers_set = insert e q.timers_set } in
              let q₂ =
                if not q.armed || begins_after tp q₁.timers_set then reset_timerfd tp q₁ else q₁ in
              ok (record q₂ { reading = true })))

  -- `Timer::Update(int)`, `Timer::Update()`, `Timer::Add`, `Timer::Cancel`
  unfoldable pub update_by : ℕ → ℕ → TimerQueue → TimerQueue
  update_by i msec q =
      put_timer i (record (q.pool i) { duration = msec; point = now q + msec * ns_per_ms }) (tick q)

  pub update : ℕ → TimerQueue → Outcome TimerQueue
  update i q = do
    assert (not ((q.pool i).duration == 0))
    ok (
        put_timer i (record (q.pool i) { point = now q + (q.pool i).duration * ns_per_ms })
          (tick q))

  pub add : ℕ → TimerQueue → Outcome TimerQueue
  unfolding add_timer
  add i q = do
    assert (not (q.pool i).set)
    q' ← add_timer i q
    ok (put_timer i (record (q'.pool i) { set = true }) q')

-- `Timer::Reset`
unfoldable pub reset : ℕ → Option ℕ → Bool → TimerQueue → TimerQueue
reset i cb repeat q = put_timer i (record (q.pool i) { callback = cb; repeated = repeat }) q

-- `CancelTimer`
pub cancel_timer : ℕ → TimerQueue → TimerQueue
cancel_timer i q = record q {
  timers_set = remove (record { point = (q.pool i).point; timer = i }) q.timers_set;
}

pub cancel : ℕ → TimerQueue → TimerQueue
unfolding cancel_timer
cancel i q =
    if (q.pool i).set then put_timer i (record (q.pool i) { set = false }) (cancel_timer i q) else q

-- `SetRepeated`, and `~Timer`
abbrev pub set_repeated : ℕ → Bool → TimerQueue → TimerQueue
set_repeated i on q = put_timer i (record (q.pool i) { repeated = on }) q

abbrev pub destroy_timer : ℕ → TimerQueue → TimerQueue
destroy_timer i q = cancel i (put_timer i (record (q.pool i) { callback = none }) q)

-- `Option` iterators: `none` is `end()`.
abbrev pub same_position : Option Entry → Option Entry → Bool
same_position none none = true
same_position none (some b) = false
same_position (some a) none = false
same_position (some a) (some b) = entry_eqb a b

abbrev pub first_entry : List Entry → Option Entry
first_entry [] = none
first_entry (e ∷ es) = some e

abbrev pub still_there : Option Entry → List Entry → Bool
still_there none es = true
still_there (some e) es = member e es

-- What the callbacks do to the queue is a parameter too.
module _ (time : ℕ → ℕ) (run : ℕ → TimerQueue → Outcome TimerQueue) where
  call_back : Option ℕ → TimerQueue → Outcome TimerQueue
  call_back none q = fault empty_call
  call_back (some c) q = run c (record q { fired = c ∷ q.fired })

  -- `ProcessTimedout`
  pub process_timedout : ℕ → TimerQueue → Outcome TimerQueue
  unfolding call_back
  process_timedout i q = call_back (q.pool i).callback q

  -- The body of the loop of `handleRead`. An iterator to an entry that is gone is a fault.
  pub fire : Entry → TimerQueue → Outcome TimerQueue
  unfolding process_timedout update add_timer
  fire e q = do
    q₁ ← process_timedout e.timer q
    guard (member e q₁.timers_set) out_of_bounds
    if (q₁.pool e.timer).repeated
        then (update time e.timer q₁ >>= add_timer time e.timer)
        else ok q₁

  -- The loop, on fuel: `none` is that the fuel ran out.
  pub fire_all : ℕ → Option Entry → Option Entry → TimerQueue → Option (Outcome TimerQueue)
  fire_all zero it stop q = none
  fire_all (suc f) it stop q =
      let rest = λ (e : Entry) (q' : TimerQueue). fire_all f (next_after e q'.timers_set) stop q' in
      if not (still_there stop q.timers_set)
      then some (fault out_of_bounds)
      else (if same_position it stop then some (ok q) else elim it [
        | none ↦ some (fault out_of_bounds)
        | some e ↦ elim (fire e q) [ fault x ↦ some (fault x) | ok q' ↦ rest e q' ]
      ])

  abbrev expirations_ok : Option ℕ → Bool
  expirations_ok none = true
  expirations_ok (some n) = n == 1

  -- `handleRead`, `times` being what was read from the timerfd.
  pub handle_read : ℕ → Option ℕ → TimerQueue → Option (Outcome TimerQueue)
  handle_read fuel times q =
      let stop = up_to (time q.reads) q.timers_set in
      if not (expirations_ok times)
      then some (fault assertion)
      else elim (fire_all fuel (first_entry q.timers_set) stop (tick time q)) [
        | none ↦ none
        | some (fault x) ↦ some (fault x)
        | some (ok q') ↦ some (ok (record q' { timers_set = drop_below stop q'.timers_set }))
      ]
