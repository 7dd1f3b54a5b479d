-- ===== src/Application/Queueing.antt =====
-- base/Utilities.cpp and net/TcpConnection.cpp: where in the chain what the application writes goes.
use musketeer.Prelude.{
  ℕ, zero, suc, ◌+◌, ◌≤◌, ◌<◌, ◌≡◌, refl, sym, ◌∙◌, ap, List, [], ◌∷◌, ◌++◌, length, ltb, true,
  false, All, none, some, arith, ok, fault, dangling, Returns, Returns-value, if◌then◌else◌, ◌==◌,
  ◌⊎◌, inl, inr, Returns-mono,
}
use mathlib.Core.List.{append_assoc, append-nil}
use musketeer.Buffer.{Buffer, contents, append}
use musketeer.Buffer.Alloc.{Allocator}
use musketeer.Buffer.Bounds.{IsValid, appendable_size_lem, sizes_add_up}
use musketeer.Buffer.Append.{room, append_fits}
use musketeer.Utilities.Chain.{chain_contents, total}
use musketeer.TcpConnection.{TcpConnection, find_room, use_room, get_write_buffer}
use musketeer.TcpConnection.Buffers.{IsFull}
use musketeer.Application.{append_nth, append_at, queue_bytes}

-- After full buffers, one with room for `n` bytes, and behind it nothing.
abbrev pub Takes : ℕ → List Buffer → Type 0
Takes n [] = ⊥
Takes n (b ∷ bs) = (IsFull b × Takes n bs) ⊎ ((n ≤ room b) × (total bs ≡ 0))

-- The chain with more bytes behind its own.
pub record Queued (xs : List ℕ) (bs bs' : List Buffer) : Type 0 where
  pub added : chain_contents bs' ≡ chain_contents bs ++ xs
  pub valid : All IsValid bs'
  pub as_many : length bs' ≡ length bs

-- The buffer that `GetWriteBuffer` finds, and what `Append` makes of the chain.
record Placed (a : Allocator) (i s : ℕ) (xs : List ℕ) (bs : List Buffer) : Type 0 where
  place : ℕ
  size : ℕ
  found : find_room i s bs ≡ ok (some (i + place), size)
  queued : Returns (Queued xs bs) (append_nth a place xs bs)

empty_chain : (bs : List Buffer) → total bs ≡ 0 → chain_contents bs ≡ []
empty_chain bs h = nothing (chain_contents bs) h
  where
    nothing : (ys : List ℕ) → length ys ≡ 0 → ys ≡ []
    nothing [] e = refl
    nothing (y ∷ ys) e = absurd (omega arith)

append_front :
    (a : Allocator) (xs : List ℕ) (b : Buffer) (bs : List Buffer)
    → All IsValid (b ∷ bs)
    → length xs ≤ room b
    → Returns
        (λ bs'.
          (chain_contents bs' ≡ (contents b ++ xs) ++ chain_contents bs)
          × All IsValid bs'
          × (length bs' ≡ length (b ∷ bs)))
        (append_nth a zero xs (b ∷ bs))
unfolding append_nth
append_front a xs b bs v h =
    let (b', e, (p, same)) = Returns-value _ (append a b xs) (append_fits a b xs (v.0) h) in
    rw e (ap (λ ys. ys ++ chain_contents bs) p.added, (p.valid, v.1), refl)

placed :
    (a : Allocator) (i s : ℕ) (xs : List ℕ) (bs : List Buffer)
    → 0 < length xs
    → All IsValid bs
    → Takes (length xs) bs
    → Placed a i s xs bs
unfolding find_room append_nth
placed a i s xs [] p v t = absurd t
placed a i s xs (b ∷ bs) p v (inl (full, rest)) =
    let s' = if s == 32768 then b.capacity else s in
    let r = placed a (i + 1) s' xs bs p (v.1) rest in
    let (bs', e, q) = Returns-value (Queued xs bs) (append_nth a r.place xs bs) r.queued in
    let later : i + 1 + r.place ≡ i + suc r.place = omega arith in
    let none_left : ltb 0 (room b) ≡ false = ground (arith, full) in
    record {
      place = suc r.place;
      size = r.size;
      found =
          rw ((sizes_add_up b v.0).3, appendable_size_lem b v.0, none_left)
            (r.found ∙ ap (λ k. ok (some k, r.size)) later);
      queued = rw e (record {
        added =
            ap (λ ys. contents b ++ ys) q.added
            ∙ sym (append_assoc (contents b) (chain_contents bs) xs);
        valid = (v.0, q.valid);
        as_many = ap suc q.as_many;
      });
    }
placed a i s xs (b ∷ bs) p v (inr (fits, behind)) =
    let here : i ≡ i + 0 = omega arith in
    let some_room : ltb 0 (room b) ≡ true = ground (arith, fits) in
    let nothing = empty_chain bs behind in
    record {
      place = 0;
      size = s;
      found =
          rw ((sizes_add_up b v.0).3, appendable_size_lem b v.0, some_room)
            (ap (λ k. ok (some k, s)) here);
      queued =
          Returns-mono _ (Queued xs (b ∷ bs)) (append_nth a zero xs (b ∷ bs))
            (λ bs' h. record {
              added =
                  h.0 ∙ rw (nothing, append-nil (contents b ++ xs), append-nil (contents b)) refl;
              valid = h.1;
              as_many = h.2;
            })
            (append_front a xs b bs v fits);
    }

-- On a chain that takes the bytes, `GetWriteBuffer` and then `Append` put them behind all that the chain
-- holds, and change nothing else.
pub queue_bytes-Queued :
    (a : Allocator) (xs : List ℕ) (c : TcpConnection)
    → 0 < length xs
    → All IsValid c.write_buf_chain
    → Takes (length xs) c.write_buf_chain
    → (bs : List Buffer) × (queue_bytes a xs c ≡ ok (record c { write_buf_chain = bs }))
      × Queued xs c.write_buf_chain bs
unfolding queue_bytes get_write_buffer use_room append_at
queue_bytes-Queued a xs c p v t =
    let r = placed a 0 32768 xs c.write_buf_chain p v t in
    let (bs, e, q) =
      Returns-value (Queued xs c.write_buf_chain) (append_nth a r.place xs c.write_buf_chain)
        r.queued in
    let first : 0 + r.place ≡ r.place = omega arith in (bs, rw (r.found, first, e) refl, q)

full_chain :
    (i s : ℕ) (bs : List Buffer)
    → All IsValid bs
    → All IsFull bs
    → (t : ℕ) × (find_room i s bs ≡ ok (none, t))
unfolding find_room
full_chain i s [] v f = (s, refl)
full_chain i s (b ∷ bs) v f =
    let s' = if s == 32768 then b.capacity else s in
    let none_left : ltb 0 (room b) ≡ false = ground (arith, f.0) in
    let (t, e) = full_chain (i + 1) s' bs (v.1) (f.1) in
    (t, rw ((sizes_add_up b v.0).3, appendable_size_lem b v.0, none_left) e)

-- Where the chain has its four buffers and all of them are full, `GetWriteBuffer` gives `nullptr`, and what
-- the application does with it goes wrong.
pub queue_bytes_full :
    (a : Allocator) (xs : List ℕ) (c : TcpConnection)
    → All IsValid c.write_buf_chain
    → All IsFull c.write_buf_chain
    → 4 ≤ length c.write_buf_chain
    → queue_bytes a xs c ≡ fault dangling
unfolding queue_bytes get_write_buffer use_room append_at
queue_bytes_full a xs c v f h =
    let (t, e) = full_chain 0 32768 c.write_buf_chain v f in
    let no_more : ltb (length c.write_buf_chain) 4 ≡ false = ground arith in rw (e, no_more) refl

-- Where the first buffer of a valid chain was sent to its end and has room for the bytes, what the
-- application asks `GetWriteBuffer` for and appends goes before all that the later buffers still
-- have to send.
pub queue_bytes_first :
    (a : Allocator) (xs : List ℕ) (c : TcpConnection) (b : Buffer) (bs : List Buffer)
    → c.write_buf_chain ≡ b ∷ bs
    → All IsValid (b ∷ bs)
    → contents b ≡ []
    → 0 < room b
    → length xs ≤ room b
    → Returns
        (λ c'. chain_contents c'.write_buf_chain ≡ xs ++ chain_contents c.write_buf_chain)
        (queue_bytes a xs c)
unfolding queue_bytes get_write_buffer use_room append_at find_room
queue_bytes_first a xs c b bs e v sent some_left fits =
    let some_room : ltb 0 (room b) ≡ true = ground (arith, some_left) in
    let (bs', eb, (added, valid, as_many)) =
      Returns-value _ (append_nth a zero xs (b ∷ bs)) (append_front a xs b bs v fits) in
    rw (e, (sizes_add_up b v.0).3, appendable_size_lem b v.0, some_room, eb)
      (added ∙ rw (sent) refl)
