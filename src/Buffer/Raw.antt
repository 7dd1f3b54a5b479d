-- ===== src/Buffer/Raw.antt =====
-- base/Buffer.cpp, `MarkProcessed(RawBuf)`: its assertion compares an offset from the start of the
-- storage with the number of available bytes.
use musketeer.Prelude.{ℕ, ◌+◌, ◌≤◌, ◌<◌, ◌≡◌, arith, ok, fault, assertion, length}
use musketeer.Buffer.{Buffer, available_pos, mark_processed_raw, mark_processed, contents}
use musketeer.Buffer.Bounds.{IsValid}
use musketeer.Buffer.Contents.{length-contents}

-- Handed the front of `AvailablePos()`, `MarkProcessed(RawBuf)` is `MarkProcessed(size_t)` as long
-- as no more bytes lie before the window than in it.
pub mark_processed_raw-eq-mark_processed :
    (b : Buffer) (n : ℕ)
    → IsValid b
    → b.avail_start ≤ length (contents b)
    → mark_processed_raw b (record { first = (available_pos b).first; second = n })
      ≡ mark_processed b n
unfolding mark_processed_raw mark_processed available_pos
mark_processed_raw-eq-mark_processed b n v h = ground (arith, length-contents b)

-- Otherwise its assertion fails on the very buffer that `AvailablePos()` returned.
pub mark_processed_raw_refused :
    (b : Buffer)
    → IsValid b
    → length (contents b) < b.avail_start
    → mark_processed_raw b (available_pos b) ≡ fault assertion
unfolding mark_processed_raw available_pos
mark_processed_raw_refused b v h = ground (arith, length-contents b)

-- The assertion does not place the pointer inside the window either: an offset before the window
-- moves its start back to bytes that were processed.
pub mark_processed_raw_moves_back :
    (b : Buffer) (p n : ℕ)
    → IsValid b
    → p + n < b.avail_start
    → p ≤ length (contents b)
    → n ≤ length (contents b)
    → mark_processed_raw b (record { first = p; second = n })
      ≡ ok (record b { avail_start = p + n })
unfolding mark_processed_raw
mark_processed_raw_moves_back b p n v h k l = ground (arith, length-contents b)
