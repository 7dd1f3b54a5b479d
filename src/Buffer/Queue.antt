-- ===== src/Buffer/Queue.antt =====
-- base/Buffer.cpp and base/Buffer.h: a buffer over any history of its operations, as a queue of bytes.
use mathlib.Core.Path.{subst}
use musketeer.Prelude.{
  ℕ, ◌+◌, ◌≤◌, ◌≡◌, ◌-◌, refl, sym, ap, ap₂, ◌∙◌, Bool, true, false, not, ◌||◌, ◌&&◌, List, [], ◌∷◌,
  ◌++◌, length, take, drop, ltb, leb, Outcome, ok, fault, ◌>>=◌, arith, Returns-value, >>=-eq-ok,
  Bool-cases, inl, inr,
}
use musketeer.Buffer.{
  Buffer, make_room, grown_size, expand, shrink, append, retrive, mark_processed, copy_in,
  mark_appended, contents,
}
use musketeer.Buffer.Alloc.{Allocator, IsStandard, size_limit}
use musketeer.Buffer.Storage.{window_congr}
use musketeer.Buffer.Bounds.{IsValid, appendable_size_lem}
use musketeer.Buffer.Contents.{Drops, mark_processed_lem, mark_processed_too_many, retrive_lem}
use musketeer.Buffer.Append.{
  Appends, room, expanded, expanded-IsValid, contents-expanded, write_back, write_back-Appends,
}

-- The operations, and what they do to a queue: what they give, and what is left.
pub data Op : Type 0 where
  appends : List ℕ → Op
  retrives processes expands : ℕ → Op
  shrinks : Op

pub on_queue : Op → List ℕ → List ℕ × List ℕ
on_queue (appends xs) q = ([], q ++ xs)
on_queue (retrives n) q = (take n q, drop n q)
on_queue (processes n) q = ([], drop n q)
on_queue (expands n) q = ([], q)
on_queue shrinks q = ([], q)

module _ (a : Allocator) where
  unfoldable pub perform : Op → Buffer → Outcome (List ℕ × Buffer)
  perform (appends xs) b = append a b xs >>= λ b'. ok ([], b')
  perform (retrives n) b = retrive b n
  perform (processes n) b = mark_processed b n >>= λ b'. ok ([], b')
  perform (expands n) b = expand a b n >>= λ b'. ok ([], b')
  perform shrinks b = ok ([], shrink a b)

  -- Whether the operation puts the bytes into another storage, or sets some to 0: the vector is resized, or its
  -- storage is replaced by a smaller one.
  abbrev pub resizes : Op → Buffer → Bool
  resizes (appends xs) b = ltb b.capacity (b.avail_end + length xs)
  resizes (retrives n) b = false
  resizes (processes n) b = false
  resizes (expands n) b = ltb b.capacity n
  resizes shrinks b = ltb (a.shrunk b.vec.size b.vec.cap) b.vec.cap

  -- No bytes of the contents stand past the vector's elements then.
  abbrev pub is_kept : Op → Buffer → Bool
  is_kept op b = not (resizes op b) || leb b.avail_end b.vec.size

  -- The buffer does what the queue does.
  pub record Does (op : Op) (b : Buffer) (r : List ℕ × Buffer) : Type 0 where
    pub gives : r.0 ≡ (on_queue op (contents b)).0
    pub leaves : contents r.1 ≡ (on_queue op (contents b)).1
    pub valid : IsValid r.1

  Keeps : Buffer → Buffer → Type 0
  Keeps b b' = IsValid b' × (contents b' ≡ contents b)

  expand-Keeps :
      (b b' : Buffer) (s : ℕ)
      → IsStandard a
      → IsValid b
      → is_kept (expands s) b ≡ true
      → expand a b s ≡ ok b'
      → Keeps b b'
  unfolding expand Keeps
  expand-Keeps b b' s x v h e = elim (Bool-cases (ltb b.capacity s)) [
    | inl more ↦ elim (Bool-cases (ltb s size_limit)) [
      | inl small ↦
          let same : expanded a b s ≡ b' = ground (arith, e, more, small) in
          let (w, enough) =
            expanded-IsValid a b s x v (ground (arith, more)) (ground (arith, small)) in
          let kept = contents-expanded a b s v (ground (arith, h, more)) in
          subst (λ d. IsValid d × (contents d ≡ contents b)) same (w, kept)
      | inr large ↦ ground (arith, e, more, large)
    ]
    | inr enough ↦
        let same : b ≡ b' = ground (arith, e, enough) in
        subst (λ d. IsValid d × (contents d ≡ contents b)) same (v, refl)
  ]

  make_room-Keeps :
      (b b' : Buffer) (xs : List ℕ)
      → IsStandard a
      → IsValid b
      → is_kept (appends xs) b ≡ true
      → make_room a b (length xs) ≡ ok b'
      → Keeps b b'
  unfolding make_room Keeps
  make_room-Keeps b b' xs x v h e =
      let found_is = appendable_size_lem b v in
      elim (Bool-cases (ltb (room b) (length xs))) [
        | inl more ↦
            let grows : (grown_size (length xs) (room b) >>= expand a b) ≡ ok b' =
              ground (arith, e, found_is, more) in
            let (s, es, last) = >>=-eq-ok (grown_size (length xs) (room b)) (expand a b) grows in
            let inside : leb b.avail_end b.vec.size ≡ true = ground (arith, h, more, v.end_le) in
            expand-Keeps b b' s x v (ground (arith, inside)) last
        | inr enough ↦
            let same : b ≡ b' = ground (arith, e, found_is, enough) in
            subst (λ d. IsValid d × (contents d ≡ contents b)) same (v, refl)
      ]

  -- What `Append` does once there is room, where it returns.
  write_back_adds :
      (b b' : Buffer) (xs : List ℕ) → IsValid b → write_back b xs ≡ ok b' → Appends b xs b'
  unfolding write_back copy_in mark_appended
  write_back_adds b b' xs v e = elim (Bool-cases (leb (b.avail_end + length xs) b.vec.cap)) [
    | inl fits ↦
        let (d, ed, (p, same_cap)) =
          Returns-value _ (write_back b xs)
            (write_back-Appends b xs v (ground (arith, fits, v.cap_kept))) in
        let same : d ≡ b' = ground (arith, e, ed) in subst (Appends b xs) same p
    | inr past ↦ ground (arith, e, past)
  ]

  shrink-Keeps :
      (b : Buffer) → IsStandard a → IsValid b → is_kept shrinks b ≡ true → Keeps b (shrink a b)
  unfolding shrink Keeps
  shrink-Keeps b x v h = elim (Bool-cases (ltb (a.shrunk b.vec.size b.vec.cap) b.vec.cap)) [
    | inl less ↦ (
      ground (
        arith,
        less,
        h,
        x.shrunk_fits b.vec.size b.vec.cap v.size_le,
        x.shrunk_le b.vec.size b.vec.cap v.size_le,
      ),
      window_congr (shrink a b).vec.mem b.vec.mem b.avail_start (b.avail_end - b.avail_start)
          λ j p q. ground (arith, less, h, v.start_le),
    )
    | inr none_less ↦ (
      ground (arith, v, none_less),
      window_congr (shrink a b).vec.mem b.vec.mem b.avail_start (b.avail_end - b.avail_start)
          λ j p q. ground (arith, none_less),
    )
  ]

  not_too_many :
      (b b' : Buffer) (n : ℕ) → IsValid b → mark_processed b n ≡ ok b' → n ≤ length (contents b)
  not_too_many b b' n v e = elim (Bool-cases (ltb (length (contents b)) n)) [
    | inl over ↦
        let refused = mark_processed_too_many b n v (ground (arith, over)) in
        ground (arith, e, refused)
    | inr under ↦ ground (arith, under)
  ]

  perform-Does :
      (op : Op) (b : Buffer) (r : List ℕ × Buffer)
      → IsStandard a
      → IsValid b
      → is_kept op b ≡ true
      → perform op b ≡ ok r
      → Does op b r
  unfolding perform on_queue append write_back Keeps
  perform-Does (appends xs) b r x v h e =
      let (b', eb, last) = >>=-eq-ok (append a b xs) _ e in
      let (g, eg, writes) = >>=-eq-ok (make_room a b (length xs)) (λ g. write_back g xs) eb in
      let (w, kept) = make_room-Keeps b g xs x v h eg in
      let p = write_back_adds g b' xs w writes in
      let same : ([], b') ≡ r = ground (arith, last) in
      subst (Does (appends xs) b) same
        (record { gives = refl; leaves = p.added ∙ ap (λ q. q ++ xs) kept; valid = p.valid })
  perform-Does (retrives n) b r x v h e =
      let (r', er, (given, left, w)) = Returns-value _ (retrive b n) (retrive_lem b n v) in
      let same : r' ≡ r = ground (arith, e, er) in
      subst (Does (retrives n) b) same (record { gives = given; leaves = left; valid = w })
  perform-Does (processes n) b r x v h e =
      let (b', eb, last) = >>=-eq-ok (mark_processed b n) _ e in
      let enough : n ≤ length (contents b) = not_too_many b b' n v eb in
      let (d, ed, (left, kept, cap_kept, w)) =
        Returns-value (Drops b n) (mark_processed b n) (mark_processed_lem b n v enough) in
      let same : ([], d) ≡ r = ground (arith, last, eb, ed) in
      subst (Does (processes n) b) same (record { gives = refl; leaves = left; valid = w })
  perform-Does (expands n) b r x v h e =
      let (b', eb, last) = >>=-eq-ok (expand a b n) _ e in
      let (w, kept) = expand-Keeps b b' n x v h eb in
      let same : ([], b') ≡ r = ground (arith, last) in
      subst (Does (expands n) b) same (record { gives = refl; leaves = kept; valid = w })
  perform-Does shrinks b r x v h e =
      let (w, kept) = shrink-Keeps b x v h in
      let same : ([], shrink a b) ≡ r = ground (arith, e) in
      subst (Does shrinks b) same (record { gives = refl; leaves = kept; valid = w })

  -- Operations one after the other: all that they give, and the buffer.
  unfoldable pub perform_all : List Op → Buffer → Outcome (List ℕ × Buffer)
  perform_all [] b = ok ([], b)
  perform_all (op ∷ ops) b = do
    (xs, b') ← perform op b
    (ys, b'') ← perform_all ops b'
    ok (xs ++ ys, b'')

  -- Whether all that resize find no bytes past the vector's elements.
  unfoldable pub all_kept : List Op → Buffer → Bool
  all_kept [] b = true
  all_kept (op ∷ ops) b =
      is_kept op b && elim (perform op b) [ fault e ↦ true | ok r ↦ all_kept ops r.1 ]

pub all_on_queue : List Op → List ℕ → List ℕ × List ℕ
all_on_queue [] q = ([], q)
all_on_queue (op ∷ ops) q =
    let (xs, q') = on_queue op q in let (ys, q'') = all_on_queue ops q' in (xs ++ ys, q'')

queue_step :
    (ops : List Op) (xs ys : List ℕ) (d d' : Buffer) (o : List ℕ × List ℕ)
    → xs ≡ o.0
    → contents d ≡ o.1
    → all_on_queue ops (contents d) ≡ (ys, contents d')
    → ◌≡◌ {A = List ℕ × List ℕ}
        (o.0 ++ (all_on_queue ops o.1).0, (all_on_queue ops o.1).1)
        (xs ++ ys, contents d')
queue_step ops xs ys d d' o e₁ e₂ e₃ =
    let last : all_on_queue ops o.1 ≡ (ys, contents d') = ap (all_on_queue ops) (sym e₂) ∙ e₃ in
    ap₂ (λ (u : List ℕ) (r : List ℕ × List ℕ). (u ++ r.0, r.1)) (sym e₁) last

module _ (a : Allocator) where
  -- With a library that allocates as the standard has it, on a valid buffer, for operations of
  -- which none resizes the vector, or replaces its storage, while bytes of the contents stand past
  -- the vector's elements: where the operations return, the strings that `Retrive` gave, one behind
  -- the other, and the contents at the end are those of a queue of bytes on which the same was
  -- done, and the buffer is valid.
  pub perform_all-all_on_queue :
      (ops : List Op) (b : Buffer) (r : List ℕ × Buffer)
      → IsStandard a
      → IsValid b
      → all_kept a ops b ≡ true
      → perform_all a ops b ≡ ok r
      → (all_on_queue ops (contents b) ≡ (r.0, contents r.1)) × IsValid r.1
  unfolding perform_all all_on_queue all_kept
  perform_all-all_on_queue [] b r x v h e =
      let same : ([], b) ≡ r = ground (arith, e) in
      subst
        (λ (s : List ℕ × Buffer).
          (all_on_queue [] (contents b) ≡ (s.0, contents s.1)) × IsValid s.1)
        same (refl, v)
  perform_all-all_on_queue (op ∷ ops) b r x v h e =
      let ((xs, d), ed, rest) = >>=-eq-ok (perform a op b) _ e in
      let ((ys, d'), ed', last) = >>=-eq-ok (perform_all a ops d) _ rest in
      let now : is_kept a op b ≡ true = ground (arith, h) in
      let later : all_kept a ops d ≡ true = ground (arith, h, ed) in
      let p = perform-Does a op b (xs, d) x v now ed in
      let (ih, w) = perform_all-all_on_queue ops d (ys, d') x p.valid later ed' in
      let same : (xs ++ ys, d') ≡ r = ground (arith, last) in
      subst
        (λ (s : List ℕ × Buffer).
          (all_on_queue (op ∷ ops) (contents b) ≡ (s.0, contents s.1)) × IsValid s.1)
        same (queue_step ops xs ys d d' (on_queue op (contents b)) p.gives p.leaves ih, w)
