-- ===== src/Buffer/Bounds.antt =====
-- The representation invariant of base/Buffer.h, and the operations that keep it.
use musketeer.Prelude.{ℕ, ◌+◌, ◌-◌, ◌≤◌, ◌<◌, ◌≡◌, arith, ok}
use musketeer.Buffer.{
  Buffer, new, appendable_pos, available_pos, capacity_of, appendable_size, available_size,
  mark_processed, mark_appended,
}
use musketeer.Buffer.Alloc.{Allocator, size_limit}

pub record IsValid (b : Buffer) : Type 0 where
  pub cap_kept : b.capacity ≡ b.vec.cap
  pub start_le : b.avail_start ≤ b.avail_end
  pub end_le : b.avail_end ≤ b.capacity
  pub small : b.capacity < size_limit
  pub size_le : b.vec.size ≤ b.vec.cap
  pub rewound : b.avail_start ≡ b.avail_end → b.avail_end ≡ 0

pub new-IsValid : (a : Allocator) (n : ℕ) → n < size_limit → IsValid (new a n)
unfolding new
new-IsValid a n h = ground arith

pub appendable_size_lem :
    (b : Buffer) → IsValid b → appendable_size b ≡ ok (b.capacity - b.avail_end)
unfolding appendable_size
appendable_size_lem b v = ground arith

pub available_size_lem :
    (b : Buffer) → IsValid b → available_size b ≡ ok (b.avail_end - b.avail_start)
unfolding available_size
available_size_lem b v = ground arith

-- The two `size_t` differences do not wrap: what is before the window, in it and behind it make up
-- the capacity.
pub sizes_add_up :
    (b : Buffer)
    → IsValid b
    → (b.avail_start + (available_pos b).second + (appendable_pos b).second ≡ b.capacity)
      × (available_size b ≡ ok (available_pos b).second)
      × (appendable_size b ≡ ok (appendable_pos b).second)
      × (capacity_of b ≡ ok b.capacity)
unfolding available_pos appendable_pos available_size appendable_size capacity_of
sizes_add_up b v = ground arith

pub mark_processed-IsValid :
    (b : Buffer) (n : ℕ) (b' : Buffer) → IsValid b → mark_processed b n ≡ ok b' → IsValid b'
unfolding mark_processed
mark_processed-IsValid b n b' v e = ground arith

pub mark_appended-IsValid :
    (b : Buffer) (n : ℕ) (b' : Buffer) → IsValid b → mark_appended b n ≡ ok b' → IsValid b'
unfolding mark_appended
mark_appended-IsValid b n b' v e = ground arith
