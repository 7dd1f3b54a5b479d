-- ===== src/TaskQueue/Counter.antt =====
-- An eventfd, as base/TaskQueue.cpp relies on it, that is its counter.
use musketeer.Prelude.{ℕ, ◌+◌, ◌<◌, ◌≡◌, refl, Option, none, some, arith, ltb, ◌==◌, if◌then◌else◌}
use musketeer.TaskQueue.EventFd.{Eventfd, counter_limit}

unfoldable pub write_count : ℕ → ℕ → Option ℕ
write_count s n = if ltb (s + n) counter_limit then some (s + n) else none

pub write_count_adds :
    (s n : ℕ) → s + n < counter_limit → (s' : ℕ) × (write_count s n ≡ some s') × (s' ≡ s + n)
unfolding write_count
write_count_adds s n h = (s + n, ground arith, refl)

unfoldable pub read_count : ℕ → Option (ℕ × ℕ)
read_count s = if s == 0 then none else some (s, 0)

pub read_count_takes : (s : ℕ) → 0 < s → (s' : ℕ) × (read_count s ≡ some (s, s')) × (s' ≡ 0)
unfolding read_count
read_count_takes s h = (0, ground arith, refl)

pub read_count_empty : (s : ℕ) → s ≡ 0 → read_count s ≡ none
unfolding read_count
read_count_empty s h = ground arith

-- An eventfd is its counter.
abbrev pub counter : Eventfd
counter = record {
  State = ℕ;
  count = λ s. s;
  write = write_count;
  read = read_count;
  write_adds = write_count_adds;
  read_takes = read_count_takes;
  read_empty = read_count_empty;
}
