-- ===== src/Buffer/Tests.antt =====
-- Concrete runs of base/Buffer.cpp.
use musketeer.Prelude.{
  ◌+◌, ◌<◌, ◌≡◌, refl, [], ◌∷◌, arith, ok, fault, ◌>>=◌, assertion, out_of_bounds, divide_by_zero,
  Returns, ℕ, ltb, if◌then◌else◌, ◌-◌, List, some, get_elem?,
}
use musketeer.Buffer.{
  Buffer, shrink, new, append, retrive, mark_processed, mark_processed_raw, mark_appended,
  available_pos, appendable_pos, available_size, appendable_size, capacity_of, contents, make_room,
  copy_in, expand, grown_size,
}
use musketeer.Buffer.Alloc.{Allocator, IsStandard, size_limit}
use musketeer.Buffer.Bounds.{IsValid, new-IsValid, sizes_add_up}
use musketeer.Buffer.Contents.{Drops, mark_processed_lem, retrive_lem}
use musketeer.Buffer.Append.{
  Appends, append_fits, append_grows, append_empty, append_full, append_overflows,
}
use musketeer.Buffer.Queue.{
  Op, appends, retrives, expands, perform, perform_all, all_kept, all_on_queue,
  perform_all-all_on_queue,
}
use musketeer.Buffer.Growth.{expand_forgets}
use musketeer.Buffer.Raw.{mark_processed_raw-eq-mark_processed, mark_processed_raw_refused}

-- An allocator that allocates what it is asked for.
abbrev exact : Allocator
exact = record { grown = λ size cap n. n; shrunk = λ size cap. size; fresh = λ i. 0xcc }

exact-IsStandard : IsStandard exact
exact-IsStandard = record {
  grown_fits = λ size cap n. omega arith;
  grown_small = λ size cap n h. h;
  shrunk_fits = λ size cap h. omega arith;
  shrunk_le = λ size cap h. h;
}

-- Bytes 1 to 8 in ten, three of them processed.
abbrev half_read : Buffer
half_read = record {
  vec = record { size = 10; cap = 10; mem = λ i. i + 1 };
  capacity = 10;
  avail_start = 3;
  avail_end = 8;
}

half_read-IsValid : IsValid half_read
half_read-IsValid = omega arith

-- Eight bytes in ten, six of them processed.
abbrev mostly_read : Buffer
mostly_read = record half_read { avail_start = 6 }

mostly_read-IsValid : IsValid mostly_read
mostly_read-IsValid = omega arith

-- One byte in four.
abbrev one_in_four : Buffer
one_in_four = record {
  vec = record { size = 4; cap = 4; mem = λ i. i };
  capacity = 4;
  avail_start = 0;
  avail_end = 1;
}

append_then_retrive :
    (append exact (new exact 4) (1 ∷ 2 ∷ 3 ∷ []) >>= λ b. retrive b 2 >>= λ r. ok (r.0))
    ≡ ok (1 ∷ 2 ∷ [])
unfolding append new make_room copy_in mark_appended retrive mark_processed
append_then_retrive = refl

sizes_add_up_example :
    (3 + (available_pos half_read).second + (appendable_pos half_read).second ≡ 10)
    × (available_size half_read ≡ ok (available_pos half_read).second)
    × (appendable_size half_read ≡ ok (appendable_pos half_read).second)
    × (capacity_of half_read ≡ ok 10)
sizes_add_up_example = sizes_add_up half_read half_read-IsValid

mark_processed_lem_example : Returns (Drops half_read 2) (mark_processed half_read 2)
mark_processed_lem_example = mark_processed_lem half_read 2 half_read-IsValid (omega arith)

retrive_lem_example :
    Returns
      (λ r. (r.0 ≡ 4 ∷ 5 ∷ 6 ∷ 7 ∷ 8 ∷ []) × (contents (r.1) ≡ []) × IsValid (r.1))
      (retrive half_read 20)
retrive_lem_example = retrive_lem half_read 20 half_read-IsValid

append_fits_example :
    Returns
      (λ b'. Appends half_read (7 ∷ []) b' × (b'.capacity ≡ 10))
      (append exact half_read (7 ∷ []))
append_fits_example = append_fits exact half_read (7 ∷ []) half_read-IsValid (omega arith)

append_grows_example :
    Returns
      (λ b'. Appends one_in_four (5 ∷ 6 ∷ 7 ∷ 8 ∷ []) b' × (4 < b'.capacity))
      (append exact one_in_four (5 ∷ 6 ∷ 7 ∷ 8 ∷ []))
append_grows_example =
    append_grows exact one_in_four (5 ∷ 6 ∷ 7 ∷ 8 ∷ []) exact-IsStandard (omega arith) (omega arith)
      (omega arith) (omega arith) (omega arith) (omega arith) (omega arith)

append_empty_example :
    Returns
      (λ b'. (contents b' ≡ 5 ∷ 6 ∷ 7 ∷ 8 ∷ []) × IsValid b')
      (append exact (new exact 2) (5 ∷ 6 ∷ 7 ∷ 8 ∷ []))
unfolding new
append_empty_example =
    append_empty exact (new exact 2) (5 ∷ 6 ∷ 7 ∷ 8 ∷ []) exact-IsStandard (omega arith) refl
      (omega arith) (omega arith)

append_full_example :
    append exact (record half_read { avail_end = 10 }) (7 ∷ []) ≡ fault divide_by_zero
append_full_example =
    append_full exact (record half_read { avail_end = 10 }) (7 ∷ []) (omega arith) refl
      (omega arith)

append_overflows_example : append exact half_read (7 ∷ 8 ∷ 9 ∷ []) ≡ fault out_of_bounds
append_overflows_example =
    append_overflows exact half_read (7 ∷ 8 ∷ 9 ∷ []) half_read-IsValid (omega arith) (omega arith)
      (omega arith) (omega arith)

mark_processed_raw-eq-mark_processed_example :
    mark_processed_raw half_read (record { first = (available_pos half_read).first; second = 4 })
    ≡ mark_processed half_read 4
mark_processed_raw-eq-mark_processed_example =
    mark_processed_raw-eq-mark_processed half_read 4 half_read-IsValid (omega arith)

mark_processed_raw_refused_example :
    mark_processed_raw mostly_read (available_pos mostly_read) ≡ fault assertion
mark_processed_raw_refused_example =
    mark_processed_raw_refused mostly_read mostly_read-IsValid (omega arith)

-- After `Append` has filled the vector past its size, `Shrink` cuts the storage below the bytes.
shrink_cuts :
    (shrink exact (record half_read { vec = record (half_read.vec) { size = 4 } })).capacity ≡ 4
unfolding shrink
shrink_cuts = refl

-- An allocator that takes more than it is asked for, as libraries do.
abbrev generous : Allocator
generous = record {
  grown = λ size cap n. if ltb (size + n) size_limit then size + n else n;
  shrunk = λ size cap. size;
  fresh = λ i. 0xcc;
}

generous-IsStandard : IsStandard generous
generous-IsStandard = record {
  grown_fits = λ size cap n. ground arith;
  grown_small = λ size cap n h. ground arith;
  shrunk_fits = λ size cap h. omega arith;
  shrunk_le = λ size cap h. h;
}

-- Seven bytes go into four, which makes twelve of which eight are elements; three are taken, one is added, and the
-- storage is made larger.
abbrev history : List Op
history = appends (1 ∷ 2 ∷ 3 ∷ 4 ∷ 5 ∷ 6 ∷ 7 ∷ []) ∷ retrives 3 ∷ appends (8 ∷ []) ∷ expands 20 ∷ []

abbrev runs : (r : List ℕ × Buffer) × (perform_all generous history (new generous 4) ≡ ok r)
unfolding perform_all perform append retrive make_room copy_in mark_appended mark_processed expand
    new grown_size
runs = (_, refl)

perform_all-all_on_queue_example :
    (all_on_queue history (contents (new generous 4)) ≡ (runs.0.0, contents (runs.0.1)))
    × IsValid (runs.0.1)
unfolding all_kept perform append retrive make_room copy_in mark_appended mark_processed expand new
    grown_size
perform_all-all_on_queue_example =
    perform_all-all_on_queue generous history (new generous 4) (runs.0) generous-IsStandard
      (new-IsValid generous 4 (omega arith)) refl (runs.1)

-- Four elements in eight bytes, with two bytes of the contents past the elements.
abbrev past_size : Buffer
past_size = record {
  vec = record { size = 4; cap = 8; mem = λ i. i + 1 };
  capacity = 8;
  avail_start = 2;
  avail_end = 6;
}

expand_forgets_example :
    Returns (λ b'. get_elem? (contents b') (5 - 2) ≡ some 0) (expand exact past_size 20)
expand_forgets_example =
    expand_forgets exact past_size 20 5 (omega arith) (omega arith) (omega arith) (omega arith)
      (omega arith) (omega arith)
