-- ===== src/TaskQueue/EventFd.antt =====
-- The kernel's eventfd, as base/TaskQueue.cpp uses it: eventfd(2) without EFD_SEMAPHORE.
use musketeer.Prelude.{ℕ, ◌+◌, ◌^◌, ◌-◌, ◌<◌, ◌≡◌, Option, none, some}

abbrev pub counter_limit : ℕ
counter_limit = 2 ^ 64 - 1

-- A write adds to the counter, if it does not reach the limit; a read takes the counter and sets it
-- to 0, and fails on 0 (EFD_NONBLOCK). `none` is a return value of -1.
pub record Eventfd : Type 1 where
  pub State : Type 0
  pub count : State → ℕ
  pub write : State → ℕ → Option State
  pub read : State → Option (ℕ × State)
  pub write_adds :
      (s : State) (n : ℕ)
      → count s + n < counter_limit
      → (s' : State) × (write s n ≡ some s') × (count s' ≡ count s + n)
  pub read_takes :
      (s : State) → 0 < count s → (s' : State) × (read s ≡ some (count s, s')) × (count s' ≡ 0)
  pub read_empty : (s : State) → count s ≡ 0 → read s ≡ none
