-- ===== src/Utilities/Lengths.antt =====
-- base/Utilities.cpp, `WritevFd`: no buffer leaves the chain.
use musketeer.Prelude.{
  ℕ, ◌≡◌, List, [], ◌∷◌, length, ◌==◌, arith, ok, ◌>>=◌, ◌>>◌, assert, >>=-eq-ok, assert-ok,
  if◌then◌else◌, Bool-cases, inl, inr, true,
}
use musketeer.Prelude.Int.{ℤ, pos}
use musketeer.Errors.{SysResult, failed, done, no_error, success}
use musketeer.Buffer.{Buffer}
use musketeer.Utilities.{
  Io, account, settle, gathered, writev_fd, count_available, gather, is_negative,
}

account_keeps :
    (n : ℤ) (num : ℕ) (bs : List Buffer) (r : ℕ × List Buffer)
    → account n num bs ≡ ok r
    → length r.1 ≡ length bs
unfolding account
account_keeps n num [] r e = ground (arith, e)
account_keeps n num (b ∷ bs) r e =
    let ((n', num', b'), es, rest) = >>=-eq-ok (settle n num b) _ e in
    elim (Bool-cases (is_negative n')) [
      | inl stops ↦
          let same : ok (num', b' ∷ bs) ≡ ok r = ground (arith, stops, rest) in ground (arith, same)
      | inr goes_on ↦
          let further : (account n' num' bs >>= λ (k, bs'). ok (k, b' ∷ bs')) ≡ ok r =
            ground (arith, goes_on, rest) in
          let (q, eq, last) = >>=-eq-ok (account n' num' bs) _ further in
          ground (arith, account_keeps n' num' bs q eq, last)
    ]

gathered_keeps :
    (bs : List Buffer) (num size : ℕ) (res : SysResult) (io : Io (List Buffer))
    → gathered bs num size res ≡ ok io
    → length io.bufs ≡ length bs
unfolding gathered
gathered_keeps bs num size (failed e) io eq = ground (arith, eq)
gathered_keeps bs num size (done n) io eq = elim (Bool-cases (n == 0)) [
  | inl nothing ↦ ground (arith, nothing, eq)
  | inr some_sent ↦
      let e : (account (pos n) num bs >>= λ (left, bs').
      assert (if n == size then left == 0 else true)
      >> ok (record {
        ret = true;
        err = record { first = no_error; second = success };
        all_sent = n == size;
        bufs = bs';
      }))
          ≡ ok io =
        ground (arith, some_sent, eq) in
      let (r, er, rest) = >>=-eq-ok (account (pos n) num bs) _ e in
      let (held, last) = assert-ok (if n == size then r.0 == 0 else true) _ rest in
      ground (arith, account_keeps (pos n) num bs r er, last)
]

pub writev_fd_keeps :
    (bs : List Buffer) (res : SysResult) (io : Io (List Buffer))
    → writev_fd bs res ≡ ok io
    → length io.bufs ≡ length bs
unfolding writev_fd
writev_fd_keeps [] res io e = ground (arith, e)
writev_fd_keeps (b ∷ bs) res io e =
    let ((num, size), ec, rest) = >>=-eq-ok (count_available (b ∷ bs) 0 0) _ e in
    elim (Bool-cases (size == 0)) [
      | inl nothing ↦ ground (arith, nothing, rest)
      | inr something ↦
          let f : (gather (b ∷ bs) >>= λ iov.
          assert (length iov == num) >> gathered (b ∷ bs) num size res)
              ≡ ok io =
            ground (arith, something, rest) in
          let (iov, eg, rest') = >>=-eq-ok (gather (b ∷ bs)) _ f in
          let (held, last) = assert-ok (length iov == num) _ rest' in
          gathered_keeps (b ∷ bs) num size res io last
    ]
