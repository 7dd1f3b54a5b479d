-- ===== src/Connector/Answers.antt =====
-- net/Connector.cpp: what `finalise`, `trace` and the constructor of a state keep, whatever the state, where they return.
use musketeer.Prelude.{
  ℕ, ◌+◌, ◌≡◌, refl, sym, true, false, Option, ◌∷◌, [], ◌++◌, arith, Outcome, ok, fault, Bool-cases,
  inl, inr, >>=-eq-ok,
}
use mathlib.Core.Path.{subst}
use musketeer.Prelude.Assoc.{erase}
use musketeer.Errors.{Error}
use musketeer.InetAddr.{InetAddr}
use musketeer.Buffer.Alloc.{Allocator}
use musketeer.Channel.{
  Watched, disable_all, enable_writing, register, make, put_callback, error_handler, write_handler,
}
use musketeer.Channel.Keeping.{disable_all_keeps_fd, enable_writing_keeps_fd, register_keeps_fd}
use musketeer.Pool.{Conn, add_tcp_connection}
use musketeer.Timers.{cancel, new_timer}
use musketeer.Socket.{Socket}
use musketeer.TcpConnection.Making.{make_tcp_connection}
use musketeer.Connector.{
  Connector, Connecting, on_channel, hand_over, conclude, finalise, get_fd, trace, stop_repeating,
  construct, with_queue, is_given_up, is_connect_error,
}

-- The application's side of a state at work, and its place, are as they were.
pub record Same (s s' : Connecting) : Type 0 where
  pub calls_kept : s'.connector.calls ≡ s.connector.calls
  pub ongoing_kept : s'.connector.ongoing ≡ s.connector.ongoing
  pub callback_kept : s'.state.callback ≡ s.state.callback
  pub fd_kept : s'.state.chan.fd ≡ s.state.chan.fd

on_channel-Same :
    (f : Watched → Outcome Watched)
    → ((w w' : Watched) → f w ≡ ok w' → w'.chan.fd ≡ w.chan.fd)
    → (s s' : Connecting) → on_channel f s ≡ ok s'
    → Same s s'
on_channel-Same f keeps s s' e =
    let w : Watched = record {
      cycle = s.connector.cycle;
      chan = s.state.chan;
      id = s.state.chan_id;
    } in
    let (w', ew, last) = >>=-eq-ok (f w) _ e in let fd = keeps w w' ew in ground (arith, last, fd)

module _ (a : Allocator) (remote : InetAddr) (on_read on_write : ℕ) where
  hand_over-Same :
      (s : Connecting) (r : Conn × Connecting)
      → hand_over a remote on_read on_write s ≡ ok r
      → Same s r.1
  unfolding hand_over
  hand_over-Same s r e =
      let ((w, q₁), e₁, rest₁) = >>=-eq-ok (new_timer s.connector.queue) _ e in
      let ((v, q₂), e₂, rest₂) = >>=-eq-ok (new_timer q₁) _ rest₁ in
      let (t, e₃, rest₃) = >>=-eq-ok (make_tcp_connection a on_read on_write _) _ rest₂ in
      let (p, e₄, last) = >>=-eq-ok (add_tcp_connection s.connector.pool _) _ rest₃ in
      ground (arith, last)

  conclude-Same :
      (x : Error) (s : Connecting) (r : Option Conn × Connecting)
      → conclude a remote on_read on_write x s ≡ ok r
      → Same s r.1
  unfolding conclude
  conclude-Same x s r e = elim (Bool-cases (is_given_up x.first)) [
    | inl up ↦ ground (arith, e, up)
    | inr down ↦ elim (Bool-cases (is_connect_error x.first)) [
      | inl refused ↦ ground (arith, e, down, refused)
      | inr fine ↦ handed (hand_over a remote on_read on_write s) refl down fine
    ]
  ]
    where
      handed :
          (o : Outcome (Conn × Connecting))
          → hand_over a remote on_read on_write s ≡ o
          → is_given_up x.first ≡ false
          → is_connect_error x.first ≡ false
          → Same s r.1
      handed (fault f) eo down fine = ground (arith, e, down, fine, eo)
      handed (ok h) eo down fine =
          let p = hand_over-Same s h eo in
          ground
            (arith, e, down, fine, eo, p.calls_kept, p.ongoing_kept, p.callback_kept, p.fd_kept)

  -- The application is told once, for the state's callback, and the state's descriptor is out of the map.
  pub record Concludes (s s' : Connecting) : Type 0 where
    pub conn : Option Conn
    pub told : s'.connector.calls ≡ s.connector.calls ++ (s.state.callback, conn) ∷ []
    pub forgotten : s'.connector.ongoing ≡ erase (get_fd s.state.socket) s.connector.ongoing
    pub fd_kept : s'.state.chan.fd ≡ s.state.chan.fd

  pub finalise-Concludes :
      (x : Error) (s s' : Connecting)
      → finalise a remote on_read on_write x s ≡ ok s'
      → Concludes s s'
  unfolding finalise
  finalise-Concludes x s s' e =
      let s₁ = with_queue (cancel s.state.timer s.connector.queue) s in
      let (s₂, e₂, rest) = >>=-eq-ok (on_channel disable_all s₁) _ e in
      let ((conn, s₃), e₃, last) = >>=-eq-ok (conclude a remote on_read on_write x s₂) _ rest in
      let p = conclude-Same x s₂ (conn, s₃) e₃ in
      let q = on_channel-Same disable_all disable_all_keeps_fd s₁ s₂ e₂ in
      record {
        conn = conn;
        told = ground (arith, last, p.calls_kept, p.callback_kept, q.calls_kept, q.callback_kept);
        forgotten = ground (arith, last, p.ongoing_kept, q.ongoing_kept);
        fd_kept = ground (arith, last, p.fd_kept, q.fd_kept);
      }

-- A state at work that waits for its first answer.
pub record IsFirst (s : Connecting) : Type 0 where
  pub placed : get_fd s.state.socket ≡ s.state.chan.fd
  pub first : s.state.retries ≡ 0
  pub working : s.state.finalised ≡ false

pub construct-IsFirst :
    (sock : Socket) (cb : ℕ) (c : Connector) (s : Connecting)
    → construct sock cb c ≡ ok s
    → IsFirst s
      × (s.state.callback ≡ cb)
      × (s.state.socket ≡ sock)
      × (s.connector.calls ≡ c.calls)
      × (s.connector.ongoing ≡ c.ongoing)
unfolding construct make
construct-IsFirst sock cb c s e =
    let ((i, q), e₁, rest) = >>=-eq-ok (new_timer c.queue) _ e in
    let (w, e₂, last) = >>=-eq-ok (register (make c.cycle c.addresses (get_fd sock))) _ rest in
    let fd = register_keeps_fd (make c.cycle c.addresses (get_fd sock)) w e₂ in
    let same : record {
      connector = record c { cycle = w.cycle; queue = q; addresses = c.addresses + 1 };
      state = record {
        timer = i;
        socket = sock;
        chan = w.chan;
        chan_id = w.id;
        callback = cb;
        moved = false;
        finalised = false;
        retries = 0;
      };
    }
        ≡ s =
      ground (arith, last) in
    subst
      (λ t.
        IsFirst t
        × (t.state.callback ≡ cb)
        × (t.state.socket ≡ sock)
        × (t.connector.calls ≡ c.calls)
        × (t.connector.ongoing ≡ c.ongoing))
      same (record { placed = sym fd; first = refl; working = refl }, refl, refl, refl, refl)

pub trace-IsFirst :
    (time : ℕ → ℕ) (s s' : Connecting)
    → trace time s ≡ ok s'
    → IsFirst s
    → IsFirst s' × Same s s' × (s'.state.socket ≡ s.state.socket)
unfolding trace put_callback
trace-IsFirst time s s' e f =
    let w : Watched = put_callback error_handler true (
      put_callback write_handler true
        (record { cycle = s.connector.cycle; chan = s.state.chan; id = s.state.chan_id })) in
    let (q, e₁, rest) = >>=-eq-ok (stop_repeating time s.state.timer s.connector.queue) _ e in
    let (w', e₂, last) = >>=-eq-ok (enable_writing w) _ rest in
    let fd = enable_writing_keeps_fd w w' e₂ in
    (
      record {
        placed = ground (arith, last, fd, f.placed);
        first = ground (arith, last, f.first);
        working = ground (arith, last, f.working);
      },
      ground (arith, last, fd),
      ground (arith, last),
    )
