-- ===== src/Connector/Tests.antt =====
-- A connector with nothing to do, and one with a connection on its way on descriptor 5.
use musketeer.Prelude.{
  ℕ, ◌≡◌, refl, inl, inr, true, false, [], ◌∷◌, none, some, arith, ok, fault, assertion, Returns,
  Returns-value, List, All, Option, ◌+◌, ◌>>=◌,
}
use musketeer.Prelude.Int.{pos}
use musketeer.Prelude.Assoc.{lookup}
use musketeer.Errors.{failed, done, einprogress, eagain, econnrefused, success, eacces}
use musketeer.InetAddr.{InetAddr, to_numeric}
use musketeer.Buffer.Alloc.{Allocator}
use musketeer.Channel.{set}
use musketeer.Pool.{group_index, get_conn_number}
use musketeer.Pool.View.{Updates}
use musketeer.Socket.{valid}
use musketeer.Socket
use musketeer.Timers.{TimerQueue, init, new_timer}
use musketeer.Timers.Entries.{member}
use musketeer.Connector.{
  Connector, ConnectState, connect, deliver, handle_write, handle_error, handle_timedout,
}
use musketeer.Connector.Tracing.{Waiting, Started, connect-Started}
use musketeer.Connector.Refusals.{connect-Refused}
use musketeer.Connector.Finishing.{conn_of, Placeable}
use musketeer.Connector.Delivery.{ToldNone, deliver_made, deliver_failed, deliver_timedout}
use musketeer.Connector.Counting.{told, waiting}
use musketeer.Connector.Histories.{
  Event, asks, fails, IsPlain, perform, perform_all, perform_all-answered,
}
use musketeer.Connector.Lost.{Lost, connect-Lost, connect_after_lost}

abbrev exact : Allocator
exact = record { grown = λ s c n. n; shrunk = λ s c. s; fresh = λ i. 0 }

abbrev far : InetAddr
far = record { s_addr = 1; sin_port = 2 }

abbrev idle : Connector
idle = record {
  limit = 10;
  pool = record { connections_number = pos 0; connections = []; active = λ i. true };
  ongoing = [];
  cycle = record { all_channels = []; ctl = []; stop = false };
  queue = init 2;
  addresses = 100;
  made = [];
  calls = [];
  closed = [];
}

abbrev state : ConnectState
state = record {
  timer = 0;
  socket = record { fd = some 5 };
  chan = record {
    status = set;
    fd = 5;
    events = 0xf0;
    revents = 0;
    closed = false;
    read_callback = false;
    write_callback = true;
    error_callback = true;
  };
  chan_id = 7;
  callback = 8;
  moved = false;
  finalised = false;
  retries = 0;
}

abbrev busy : Connector
busy = record idle {
  ongoing = (5, state) ∷ [];
  cycle = record { all_channels = (5, 7) ∷ []; ctl = []; stop = false };
}

state-Waiting : Waiting (record { connector = busy; state = state })
unfolding lookup
state-Waiting = record {
  inv = record { interest = inr (inr (inl refl)); watched = refl; mapped = refl };
  status = refl;
  writing = refl;
  write_callback = refl;
  error_callback = refl;
  working = refl;
  open_fd = refl;
}

state-shared : lookup 5 busy.ongoing ≡ some state
unfolding lookup
state-shared = refl

state-Placeable : Placeable far (record { connector = busy; state = state })
unfolding lookup group_index to_numeric
state-Placeable = refl

no_connections : get_conn_number idle.pool ≡ 0
unfolding get_conn_number
no_connections = refl

connect-Started_example :
    Returns
      (Started 5 8 idle)
      (connect exact far 20 21 (λ k. k) 22 (done 5) (failed einprogress) 8 idle)
unfolding lookup Socket.connect
connect-Started_example =
    connect-Started exact far 20 21 (λ k. k) 22 5 (failed einprogress) 8 idle
      (omega (arith, no_connections)) refl refl refl

deliver_made_example :
    Returns
      (λ c'.
        (c'.calls ≡ (8, some (conn_of far (record { connector = busy; state = state }))) ∷ [])
        × Updates busy.pool
            (conn_of far (record { connector = busy; state = state }))
            (some (conn_of far (record { connector = busy; state = state })))
            c'.pool
        × (lookup 5 c'.ongoing ≡ none)
        × (c'.closed ≡ []))
      (deliver exact far 20 21
        (λ k. k)
        22
        (handle_write exact far 20 21 (λ k. k) 22 success)
        5
        busy)
deliver_made_example =
    deliver_made exact far 20 21 (λ k. k) 22 5 state busy state-shared state-Waiting refl
      state-Placeable

deliver_failed_example :
    Returns (ToldNone 5 state busy) (
      deliver exact far 20 21
        (λ k. k)
        22
        (handle_write exact far 20 21 (λ k. k) 22 econnrefused)
        5
        busy)
    × Returns (ToldNone 5 state busy) (
        deliver exact far 20 21
          (λ k. k)
          22
          (handle_error exact far 20 21 (λ k. k) 22 econnrefused)
          5
          busy)
deliver_failed_example =
    deliver_failed exact far 20 21 (λ k. k) 22 5 state busy state-shared state-Waiting refl
      econnrefused refl

deliver_timedout_example : Returns (ToldNone 5 state busy) (
    deliver exact far 20 21
      (λ k. k)
      22
      (handle_timedout exact far 20 21 (λ k. k) 22 (done 0))
      5
      busy)
deliver_timedout_example =
    deliver_timedout exact far 20 21 (λ k. k) 22 5 state busy state-shared state-Waiting refl
      (done 0) refl

-- The timer that the idle connector draws.
abbrev drawn : (r : ℕ × TimerQueue) × (new_timer idle.queue ≡ ok r)
unfolding new_timer init
drawn = (_, refl)

-- A clock that stands still.
abbrev still : ℕ → ℕ
still k = 0

connect-Lost_example :
    Returns (Lost still 5 idle) (connect exact far 20 21 still 22 (done 5) (failed eagain) 8 idle)
unfolding lookup Socket.connect init member new_timer
connect-Lost_example =
    connect-Lost exact far 20 21 still 22 5 (failed eagain) 8 idle (drawn.0.0) (drawn.0.1)
      (omega (arith, no_connections)) refl refl refl (drawn.1) refl (omega arith)

connect_after_lost_example :
    (connect exact far 20 21 still 22 (done 5) (failed eagain) 8 idle
      >>= connect exact far 20 21 still 22 (done 5) (failed einprogress) 9)
    ≡ fault assertion
unfolding lookup Socket.connect init member new_timer
connect_after_lost_example =
    connect_after_lost exact far 20 21 still 22 5 (failed eagain) (failed einprogress) 8 9 idle
      (drawn.0.0) (drawn.0.1) 1 (omega (arith, no_connections)) refl refl refl refl (drawn.1) refl
      (omega arith)

connect-Refused_example :
    connect exact far 20 21 still 22 (done 5) (failed eacces) 8 idle
    ≡ ok (record idle { calls = (8, none) ∷ []; closed = 5 ∷ [] })
unfolding Socket.connect Socket.new_socket
connect-Refused_example =
    connect-Refused exact far 20 21 still 22 (done 5) (failed eacces) 8 idle (inr (inr refl))

-- A connection that fails on its way, and one that is refused at once.
abbrev history : List Event
history =
    asks (done 5) (failed einprogress) 8
    ∷ fails 5 econnrefused
    ∷ asks (done 6) (failed eacces) 9
    ∷ []

free : {V : Type 0} → ◌≡◌ {A = Option V} (lookup 5 []) none
unfolding lookup
free = refl

history-Returns : Returns (λ c. Unit {0}) (perform_all exact far 20 21 still 22 history idle)
unfolding perform perform_all Socket.connect
history-Returns =
    let (c₁, e₁, p) =
      Returns-value (Started 5 8 idle)
        (connect exact far 20 21 still 22 (done 5) (failed einprogress) 8 idle)
        (connect-Started exact far 20 21 still 22 5 (failed einprogress) 8 idle
          (omega (arith, no_connections)) refl free free) in
    let (c₂, e₂, q) =
      Returns-value (ToldNone 5 p.state c₁)
        (deliver exact far 20 21 still 22 (handle_error exact far 20 21 still 22 econnrefused) 5 c₁)
        (deliver_failed exact far 20 21 still 22 5 p.state c₁ p.shared p.waiting p.fd econnrefused
          refl).1 in
    rw
      (
        e₁,
        e₂,
        connect-Refused exact far 20 21 still 22 (done 6) (failed eacces) 9 c₂ (inr (inr refl)),
      )
      tt

abbrev answered :
    (c : Connector) × (perform_all exact far 20 21 still 22 history idle ≡ ok c) × Unit {0}
answered =
    Returns-value (λ c. Unit {0}) (perform_all exact far 20 21 still 22 history idle)
      history-Returns

history-IsPlain : All IsPlain history
unfolding Socket.connect
history-IsPlain = ((λ e. cc), (tt, ((λ e. cc), tt)))

perform_all-answered_example : told 8 (answered.0).calls + waiting 8 (answered.0).ongoing ≡ 1
perform_all-answered_example =
    perform_all-answered exact far 20 21 still 22 history 8 idle (answered.0) history-IsPlain refl
      refl (answered.1)
