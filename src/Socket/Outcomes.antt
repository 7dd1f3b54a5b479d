-- ===== src/Socket/Outcomes.antt =====
-- net/Socket.cpp: the return values of `Connect` and `Accept` against their error values.
use musketeer.Prelude.{◌≡◌, refl, ◌≢◌, ◌⊎◌, none, true, false, arith, Returns}
use musketeer.Prelude.Int.{ℤ, pos, negsuc}
use musketeer.Errors.{
  Error, no_error, ignorable_error, connect_error, SysResult, failed, done, is_positive,
}
use musketeer.Socket.{
  Socket, valid, close, destroy, move_from, move_assign, accept, connect, saved_errno,
}

-- The three answers of `Connect`, as its callers read them.
abbrev pub Connects : ℤ × Error → Type 0
Connects (n, e) =
    ((n ≡ pos 1) × (e.first ≡ no_error))
    ⊎ (((n ≡ pos 0) × (e.first ≡ ignorable_error) × (is_positive e.second ≡ true))
        ⊎ ((n ≡ negsuc 0) × (e.first ≡ connect_error) × (is_positive e.second ≡ true)))

-- `Connect` returns 1 with no error, 0 with an ignorable one and a positive errno, or -1 with a
-- connect error and a positive errno, and the errno it reports is that of the call.
pub connect-Connects :
    (res : SysResult) → Connects (connect res) × ((connect res).1.second ≡ saved_errno res)
unfolding connect
connect-Connects res = ground arith

-- `Accept` of a valid socket returns a valid socket exactly if it reports no error.
pub accept_lem :
    (s : Socket) (res : SysResult)
    → valid s ≡ true
    → Returns
        (λ r.
          ((valid r.0 ≡ true) × (r.1.first ≡ no_error))
          ⊎ ((valid r.0 ≡ false) × (r.1.first ≢ no_error)))
        (accept s res)
unfolding accept valid
accept_lem s (failed e) h = ground arith
accept_lem s (done n) h = ground arith

-- `Close` of a valid socket returns, hands the descriptor to `::close`, and leaves an invalid one.
pub close_lem :
    (s : Socket) → valid s ≡ true → Returns (λ r. (r.0 ≡ s.fd) × (valid r.1 ≡ false)) (close s)
unfolding close valid
close_lem s h = ground arith

-- A descriptor that was moved is closed once: by the new socket's destructor, not by the old one's;
-- and after `Close` of a valid socket its destructor closes nothing.
pub move_from-destroy :
    (s : Socket)
    → valid s ≡ true
    → (destroy (move_from s).0 ≡ s.fd)
      × (destroy (move_from s).1 ≡ none)
      × Returns (λ r. destroy r.1 ≡ none) (close s)
unfolding move_from destroy close valid
move_from-destroy s v = ground arith

-- Move assignment between two sockets leaves the two destructors what the source held; what
-- the target held is handed to `::close` by neither.
pub move_assign-destroy :
    (s source : Socket)
    → (destroy (move_assign false s source).0 ≡ destroy source)
      × (destroy (move_assign false s source).1 ≡ none)
unfolding move_assign destroy
move_assign-destroy s source = (refl, refl)
