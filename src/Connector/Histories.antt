-- ===== src/Connector/Histories.antt =====
-- net/Connector.cpp: any history of calls of `Connect` and of events and timeouts for the connections on their way,
-- and how often the application is called.
use mathlib.Core.Path.{subst}
use musketeer.Prelude.{
  ℕ, ◌+◌, ◌≡◌, ◌≢◌, sym, ap, List, All, ◌∷◌, [], arith, Outcome, ok, >>=-eq-ok, ◌>>=◌,
}
use musketeer.Prelude.Int.{pos}
use musketeer.Prelude.Assoc.{lookup, Distinct}
use musketeer.Errors.{Errno, SysResult}
use musketeer.InetAddr.{InetAddr}
use musketeer.Buffer.Alloc.{Allocator}
use musketeer.Socket.{new_socket, valid, Socket}
use musketeer.Socket
use musketeer.Connector.{Connector, connect, deliver, handle_write, handle_error, handle_timedout}
use musketeer.Connector.Counting.{one_if, told, waiting, Kept, Counts}
use musketeer.Connector.Steps.{
  delivered, handle_write-Concludes, handle_error-Concludes, handle_timedout-Concludes,
  connect-Counts,
}

-- What a connector is called for.
pub data Event : Type 0 where
  asks : SysResult → SysResult → ℕ → Event
  writable fails : ℕ → Errno → Event
  runs_out : ℕ → SysResult → Event

-- `::connect` does not say that it may be tried again.
abbrev pub IsPlain : Event → Type 0
IsPlain (asks fd res cb) = (Socket.connect res).0 ≢ pos 0
IsPlain (writable n e) = Unit
IsPlain (fails n e) = Unit
IsPlain (runs_out n res) = Unit

-- How often the callback is given to `Connect`.
abbrev pub asked_by : ℕ → Event → ℕ
asked_by cb (asks fd res x) = one_if cb x
asked_by cb (writable n e) = 0
asked_by cb (fails n e) = 0
asked_by cb (runs_out n res) = 0

abbrev pub asked : ℕ → List Event → ℕ
asked cb [] = 0
asked cb (e ∷ es) = asked_by cb e + asked cb es

module _ (a : Allocator) (remote : InetAddr) (on_read on_write : ℕ) (time : ℕ → ℕ)
    (on_timedout : ℕ) where
  unfoldable pub perform : Event → Connector → Outcome Connector
  perform (asks fd res cb) c = connect a remote on_read on_write time on_timedout fd res cb c
  perform (writable n e) c =
      deliver a remote on_read on_write time on_timedout
        (handle_write a remote on_read on_write time on_timedout e) n c
  perform (fails n e) c =
      deliver a remote on_read on_write time on_timedout
        (handle_error a remote on_read on_write time on_timedout e) n c
  perform (runs_out n res) c =
      deliver a remote on_read on_write time on_timedout
        (handle_timedout a remote on_read on_write time on_timedout res) n c

  unfoldable pub perform_all : List Event → Connector → Outcome Connector
  perform_all [] c = ok c
  perform_all (e ∷ es) c = do c' ← perform e c; perform_all es c'

  perform-Counts :
      (e : Event) (cb : ℕ) (c c' : Connector)
      → IsPlain e
      → Kept c
      → perform e c ≡ ok c'
      → Counts cb (asked_by cb e) c c'
  unfolding perform
  perform-Counts (asks fd res x) cb c c' plain k r =
      connect-Counts a remote on_read on_write time on_timedout fd res x cb c c' k plain r
  perform-Counts (writable n e) cb c c' plain k r =
      delivered a remote on_read on_write time on_timedout _ cb n c c' k
        (handle_write-Concludes a remote on_read on_write time on_timedout e n c) r
  perform-Counts (fails n e) cb c c' plain k r =
      delivered a remote on_read on_write time on_timedout _ cb n c c' k
        (handle_error-Concludes a remote on_read on_write time on_timedout e n c) r
  perform-Counts (runs_out n res) cb c c' plain k r =
      delivered a remote on_read on_write time on_timedout _ cb n c c' k
        (handle_timedout-Concludes a remote on_read on_write time on_timedout res n c) r

  perform_all-Counts :
      (es : List Event) (cb : ℕ) (c c' : Connector)
      → All IsPlain es
      → Kept c
      → perform_all es c ≡ ok c'
      → Counts cb (asked cb es) c c'
  unfolding perform_all
  perform_all-Counts [] cb c c' plain k r =
      let same : c ≡ c' = ground (arith, r) in
      subst (Counts cb 0 c) same (record { kept = k; counted = omega arith })
  perform_all-Counts (e ∷ es) cb c c' (p, ps) k r =
      let (d, ed, rest) = >>=-eq-ok (perform e c) _ r in
      let first = perform-Counts e cb c d p k ed in
      let others = perform_all-Counts es cb d c' ps first.kept rest in
      record { kept = others.kept; counted = omega (arith, first.counted, others.counted) }

  -- From a connector with nothing to do, whatever calls of `Connect`, events of sockets and
  -- timeouts return, in any order, where `::connect` never gives an errno that the code takes for
  -- one to try again on: the calls of a callback and the states that wait with it are, together, as
  -- many as the calls of `Connect` that it was given to. So each is answered once or waits still.
  pub perform_all-answered :
      (es : List Event) (cb : ℕ) (c c' : Connector)
      → All IsPlain es
      → c.ongoing ≡ []
      → c.calls ≡ []
      → perform_all es c ≡ ok c'
      → told cb c'.calls + waiting cb c'.ongoing ≡ asked cb es
  unfolding lookup
  perform_all-answered es cb c c' plain idle untold r =
      let k : Kept c = record {
        distinct = subst Distinct (sym idle) tt;
        states = λ n st h. ground (arith, h, idle);
      } in
      omega (
        arith,
        (perform_all-Counts es cb c c' plain k r).counted,
        ap (told cb) untold,
        ap (waiting cb) idle,
      )
