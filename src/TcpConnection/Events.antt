-- ===== src/TcpConnection/Events.antt =====
-- net/TcpConnection.cpp: what can happen to a connection, by the cycle, its timers or the application, and
-- any sequence of it.
use musketeer.Prelude.{
  ℕ, ◌≤◌, ◌≡◌, sym, ap, ◌∙◌, false, List, [], ◌∷◌, ◌++◌, length, length-append, arith, Outcome, ok,
  ◌>>=◌, >>=-eq-ok, inl, inr,
}
use mathlib.Core.Path.{subst}
use mathlib.Core.List.{append_assoc, append-nil}
use musketeer.Errors.{Errno, SysResult}
use musketeer.Utilities.{ReadResult}
use musketeer.TcpConnection.{
  TcpConnection, Call, close, handle_read, handle_write, handle_error, handle_read_timedout,
  handle_write_timedout, set_read_callback, send, retain,
}
use musketeer.TcpConnection.Soundness.{Sound, close-Silent, handle_read-Told}
use musketeer.TcpConnection.Histories.{
  Once, handle_write-Once, handle_error-Silent, handle_read_timedout-Told,
  handle_write_timedout-Told, set_read_callback-Once, send-Once,
}

-- The handlers, with what the kernel says, and the calls of the application.
pub data Event : Type 0 where
  reads : ReadResult → Event
  writes : SysResult → Event
  fails : Errno → Event
  read_times_out write_times_out closes retains : Event
  sets_read : ℕ → Event
  sends : ℕ → SysResult → Event

-- The calls that were made from one connection to the other, at most so many.
abbrev pub Calls : ℕ → TcpConnection → TcpConnection → Type 0
Calls n c c' = (xs : List Call) × (c'.calls ≡ c.calls ++ xs) × (length xs ≤ n)

module _ (time : ℕ → ℕ) where
  unfoldable pub perform : Event → TcpConnection → Outcome TcpConnection
  perform (reads res) c = handle_read res c
  perform (writes res) c = handle_write res c
  perform (fails e) c = handle_error e c
  perform read_times_out c = handle_read_timedout c
  perform write_times_out c = handle_write_timedout c
  perform closes c = close c
  perform retains c = retain time c
  perform (sets_read msec) c = set_read_callback time msec c
  perform (sends msec res) c = send time msec res c

  unfoldable pub perform_all : List Event → TcpConnection → Outcome TcpConnection
  perform_all [] c = ok c
  perform_all (e ∷ es) c = do c' ← perform e c; perform_all es c'

  perform-Once : (e : Event) (c c' : TcpConnection) → Sound c → perform e c ≡ ok c' → Once c c'
  unfolding perform retain
  perform-Once (reads res) c c' s eq = inr (handle_read-Told res c c' s eq)
  perform-Once (writes res) c c' s eq = handle_write-Once res c c' s eq
  perform-Once (fails e) c c' s eq = inl (handle_error-Silent e c c' s eq)
  perform-Once read_times_out c c' s eq = inr (handle_read_timedout-Told c c' s eq)
  perform-Once write_times_out c c' s eq = inr (handle_write_timedout-Told c c' s eq)
  perform-Once closes c c' s eq = inl (close-Silent c c' s eq)
  perform-Once retains c c' s eq =
      set_read_callback-Once time 60000 (record c { active = false }) c' s eq
  perform-Once (sets_read msec) c c' s eq = set_read_callback-Once time msec c c' s eq
  perform-Once (sends msec res) c c' s eq = send-Once time msec res c c' s eq

  one_call : (c c' : TcpConnection) → Once c c' → Sound c' × Calls 1 c c'
  one_call c c' (inl (s, e)) = (s, ([], e ∙ sym (append-nil c.calls), omega arith))
  one_call c c' (inr (s, x, e)) = (s, (x ∷ [], e, omega arith))

  -- After any history of handlers and calls of the application that return, a sound connection is
  -- sound: if it is not closed its channel is registered, it is in the pool and has its descriptor,
  -- and if it is closed it has no descriptor and its channel waits for nothing. The application was
  -- called at most once for each step, and the earlier calls are kept.
  pub perform_all-Sound :
      (es : List Event) (c c' : TcpConnection)
      → Sound c
      → perform_all es c ≡ ok c'
      → Sound c' × Calls (length es) c c'
  unfolding perform_all
  perform_all-Sound [] c c' s eq =
      let same : c ≡ c' = ground (arith, eq) in
      subst (λ d. Sound d × Calls 0 c d) same (s, ([], sym (append-nil c.calls), omega arith))
  perform_all-Sound (e ∷ es) c c' s eq =
      let (d, ed, rest) = >>=-eq-ok (perform e c) (perform_all es) eq in
      let (t, (xs, calls, one)) = one_call c d (perform-Once e c d s ed) in
      let (u, (ys, calls', few)) = perform_all-Sound es d c' t rest in
      (
        u,
        (
          xs ++ ys,
          calls' ∙ (ap (λ zs. zs ++ ys) calls ∙ append_assoc c.calls xs ys),
          omega (arith, length-append xs ys),
        ),
      )
