-- ===== src/TcpConnection/Buffers.antt =====
-- net/TcpConnection.cpp, `GetWriteBuffer`.
use musketeer.Prelude.{
  ℕ, zero, suc, ◌+◌, ◌≤◌, ◌<◌, ◌≡◌, refl, List, [], ◌∷◌, length, take, take_all, length-append, ltb,
  true, false, All, Option, none, some, arith, Returns, Returns-value, if◌then◌else◌, ◌==◌,
  Bool-cases, inl, inr,
}
use musketeer.Buffer.{Buffer, capacity_of}
use musketeer.Buffer
use musketeer.Buffer.Alloc.{Allocator}
use musketeer.Buffer.Bounds.{IsValid, appendable_size_lem, sizes_add_up}
use musketeer.Buffer.Append.{room}
use musketeer.TcpConnection.{TcpConnection, find_room, use_room, get_write_buffer}

-- The room of the `k`-th buffer.
abbrev pub room_at : ℕ → List Buffer → ℕ
room_at k [] = 0
room_at zero (b ∷ bs) = room b
room_at (suc k) (b ∷ bs) = room_at k bs

abbrev pub IsFull : Buffer → Type 0
IsFull b = room b ≡ 0

-- Counted from `i`, the first buffer with room; or there is none.
abbrev FirstFit : ℕ → List Buffer → Option ℕ × ℕ → Type 0
FirstFit i bs (some j, s) = (k : ℕ) × (j ≡ i + k) × (0 < room_at k bs) × All IsFull (take k bs)
FirstFit i bs (none, s) = All IsFull bs

FirstFit-next :
    (i : ℕ) (b : Buffer) (bs : List Buffer) (r : Option ℕ × ℕ)
    → IsFull b
    → FirstFit (i + 1) bs r
    → FirstFit i (b ∷ bs) r
FirstFit-next i b bs (some j, s) f (k, e, p, q) = (suc k, omega (arith, e), p, (f, q))
FirstFit-next i b bs (none, s) f q = (f, q)

find_room-FirstFit :
    (i s : ℕ) (bs : List Buffer) → All IsValid bs → Returns (FirstFit i bs) (find_room i s bs)
unfolding find_room
find_room-FirstFit i s [] v = tt
find_room-FirstFit i s (b ∷ bs) v =
    let s' = if s == 32768 then b.capacity else s in
    rw ((sizes_add_up b v.0).3, appendable_size_lem b v.0)
      (elim (Bool-cases (ltb 0 (room b))) [
        | inl some_room ↦ rw some_room (0, omega arith, ground (arith, some_room), tt)
        | inr full ↦
            let (r, er, pr) =
              Returns-value (FirstFit (i + 1) bs) (find_room (i + 1) s' bs)
                (find_room-FirstFit (i + 1) s' bs (v.1)) in
            rw (full, er) (FirstFit-next i b bs r (ground (arith, full)) pr)
      ])

-- The three outcomes of `GetWriteBuffer`.
abbrev pub Chosen : TcpConnection → Option ℕ × TcpConnection → Type 0
Chosen c (none, c') = (c' ≡ c) × All IsFull c.write_buf_chain × (4 ≤ length c.write_buf_chain)
Chosen c (some k, c') =
    All IsFull (take k c.write_buf_chain) × (elim (ltb k (length c.write_buf_chain)) [
      | true ↦ (0 < room_at k c.write_buf_chain) × (c' ≡ c)
      | false ↦ (k ≡ length c.write_buf_chain) × (length c'.write_buf_chain ≡ k + 1) × (k < 4)
    ])

room_at_inside : (k : ℕ) (bs : List Buffer) → 0 < room_at k bs → k < length bs
room_at_inside k [] p = absurd (omega arith)
room_at_inside zero (b ∷ bs) p = omega arith
room_at_inside (suc k) (b ∷ bs) p = omega (arith, room_at_inside k bs p)

use_room-Chosen :
    (a : Allocator) (c : TcpConnection) (r : Option ℕ × ℕ)
    → FirstFit 0 c.write_buf_chain r
    → Returns (Chosen c) (use_room a c r)
unfolding use_room
use_room-Chosen a c (some j, s) (k, e, p, q) =
    ground (arith, e, p, q, room_at_inside k c.write_buf_chain p)
use_room-Chosen a c (none, s) q = elim (Bool-cases (ltb (length c.write_buf_chain) 4)) [
  | inl fewer ↦ rw fewer (
      ground (
        arith,
        q,
        take_all (length c.write_buf_chain) c.write_buf_chain,
        length-append c.write_buf_chain (Buffer.new a s ∷ []),
      ))
  | inr all_made ↦ rw all_made (refl, q, ground (arith, all_made))
]

-- On a chain of valid buffers `GetWriteBuffer` returns: it gives the first buffer with room; if all
-- are full it gives a new one at the end, or none if there are four already, and then the
-- connection is unchanged.
pub get_write_buffer-Chosen :
    (a : Allocator) (c : TcpConnection)
    → All IsValid c.write_buf_chain
    → Returns (Chosen c) (get_write_buffer a c)
unfolding get_write_buffer
get_write_buffer-Chosen a c v =
    let (r, er, pr) =
      Returns-value (FirstFit 0 c.write_buf_chain) (find_room 0 32768 c.write_buf_chain)
        (find_room-FirstFit 0 32768 c.write_buf_chain v) in
    rw er (use_room-Chosen a c r pr)
