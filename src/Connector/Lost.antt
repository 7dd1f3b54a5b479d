-- ===== src/Connector/Lost.antt =====
-- net/Connector.cpp, `Connect` where the kernel's answer is one to try again on, and `retry`.
use musketeer.Prelude.{
  ℕ, ◌+◌, ◌*◌, ◌≤◌, ◌<◌, ◌≡◌, true, false, List, none, some, ◌∷◌, [], ◌++◌, length, arith, ok,
  fault, assertion, ltb, ◌>>=◌, Returns, Returns-value,
}
use musketeer.Prelude.Int.{pos}
use musketeer.Prelude.Assoc.{lookup}
use musketeer.Errors.{SysResult, done}
use musketeer.InetAddr.{InetAddr}
use musketeer.Buffer.Alloc.{Allocator}
use musketeer.Channel.Calls.{register_taken}
use musketeer.Timers.{TimerQueue, ns_per_ms, new_timer, update_by, reset, add}
use musketeer.Timers.Entries.{member, insert as insert_entry}
use musketeer.Timers.Handles.{
  Fresh, new_timer-Fresh, due_in, Repeats, start-Repeats, return_timer_lem,
}
use musketeer.Pool.{get_conn_number}
use musketeer.Socket.{Socket, valid, new_socket}
use musketeer.Socket
use musketeer.Connector.{
  Connector, Connecting, construct, check, retry, start_repeating, release, destroy, connect,
  connected,
}
use musketeer.Connector.Tracing.{Built, construct-Built}

-- What is left of a connection that was to be tried again: nobody was called and nobody will be, while
-- the cycle's map keeps the channel and the queue's set the entry of a timer with no callback.
pub record Lost (time : ℕ → ℕ) (n : ℕ) (c c' : Connector) : Type 0 where
  pub timer : ℕ
  pub calls_kept : c'.calls ≡ c.calls
  pub ongoing_kept : c'.ongoing ≡ c.ongoing
  pub closed : c'.closed ≡ c.closed ++ n ∷ []
  pub kept : lookup n c'.cycle.all_channels ≡ some c.addresses
  pub entered : c'.queue.timers_set ≡ insert_entry (due_in time timer 10 c.queue) c.queue.timers_set
  pub uncalled : (c'.queue.pool timer).callback ≡ none
  pub returned : (is : List ℕ) × (c'.queue.indexes ≡ timer ∷ is)
  pub pool_kept : c'.pool ≡ c.pool
  pub limit_kept : c'.limit ≡ c.limit

module _ (a : Allocator) (remote : InetAddr) (on_read on_write : ℕ) (time : ℕ → ℕ)
    (on_timedout : ℕ) where
  -- A descriptor that the cycle's map still knows cannot get a new state: the registration aborts.
  pub connect_taken :
      (n x : ℕ) (res : SysResult) (cb : ℕ) (c : Connector) (k : ℕ)
      → get_conn_number c.pool + length c.ongoing + 1 ≤ c.limit
      → (Socket.connect res).0 ≡ pos k
      → lookup n c.cycle.all_channels ≡ some x
      → connect a remote on_read on_write time on_timedout (done n) res cb c ≡ fault assertion
  unfolding connect connected construct new_socket valid
  connect_taken n x res cb c k room started taken =
      let within : ltb c.limit (get_conn_number c.pool + length c.ongoing + 1) ≡ false =
        ground arith in
      let ((i, q), et, pt) =
        Returns-value (Fresh c.queue) (new_timer c.queue) (new_timer-Fresh c.queue) in
      rw (within, started, et, register_taken c.cycle c.addresses n x taken)

  retry-Lost :
      (n cb : ℕ) (c : Connector) (s : Connecting)
      → Built n cb c s
      → member (due_in time s.state.timer 10 s.connector.queue) s.connector.queue.timers_set ≡ false
      → time (c.queue.reads + 1) < time c.queue.reads + 10 * ns_per_ms
      → lookup n c.ongoing ≡ none
      → Returns
          (λ s'. Lost time n c (release a remote on_read on_write time on_timedout s'))
          (check a remote on_read on_write time on_timedout (pos 0) s)
  unfolding check retry start_repeating release destroy Socket.destroy
  retry-Lost n cb c s b free soon new =
      let i = s.state.timer in
      let q = s.connector.queue in
      let (q', eq, pq) =
        Returns-value (Repeats time i 10 q)
          (add time i (update_by time i 10 (reset i (some on_timedout) true q)))
          (start-Repeats time i 10 on_timedout q b.unset free (ground (arith, b.reads_kept))) in
      let few : ltb 3 (s.state.retries + 1) ≡ false = ground (arith, b.fresh) in
      let gone : lookup s.state.chan.fd s.connector.ongoing ≡ none =
        ground (arith, b.fd, b.ongoing_kept) in
      let (uncalled, entries, indexes) = return_timer_lem i q' in
      rw (few, b.once, eq, gone)
        (record {
          timer = i;
          calls_kept = b.calls_kept;
          ongoing_kept = b.ongoing_kept;
          closed = ground (arith, b.socket, b.closed_kept);
          kept = ground (arith, b.inv.mapped, b.fd, b.id, b.status);
          entered = ground (arith, entries, pq.entered, b.timers_kept, b.reads_kept);
          uncalled = uncalled;
          returned = (q'.indexes, indexes);
          pool_kept = b.pool_kept;
          limit_kept = b.limit_kept;
        })

  -- `Connect` where the kernel's answer is one to try again on.
  pub connect-Lost :
      (n : ℕ) (res : SysResult) (cb : ℕ) (c : Connector) (i : ℕ) (q : TimerQueue)
      → get_conn_number c.pool + length c.ongoing + 1 ≤ c.limit
      → (Socket.connect res).0 ≡ pos 0
      → lookup n c.cycle.all_channels ≡ none
      → lookup n c.ongoing ≡ none
      → new_timer c.queue ≡ ok (i, q)
      → member (due_in time i 10 c.queue) c.queue.timers_set ≡ false
      → time (c.queue.reads + 1) < time c.queue.reads + 10 * ns_per_ms
      → Returns
          (Lost time n c)
          (connect a remote on_read on_write time on_timedout (done n) res cb c)
  unfolding connect connected new_socket valid
  connect-Lost n res cb c i q room again free new drawn unentered soon =
      let within : ltb c.limit (get_conn_number c.pool + length c.ongoing + 1) ≡ false =
        ground arith in
      let (s, es, b) =
        Returns-value (Built n cb c) (construct (record { fd = some n }) cb c)
          (construct-Built n cb c free) in
      let (t, et, p) =
        Returns-value (λ s'. Lost time n c (release a remote on_read on_write time on_timedout s'))
          (check a remote on_read on_write time on_timedout (pos 0) s)
          (retry-Lost n cb c s b (ground (arith, b.drawn, drawn, b.timers_kept, b.reads_kept)) soon
            new) in
      rw (within, again, es, et) p

  -- Where a descriptor is known to neither the cycle nor the connector, there is room below the
  -- limit, `::connect` gives an errno that the code takes for one to try again on, the entry of the
  -- new timer is not in the queue yet, less than the period goes by between two looks at the clock,
  -- and the kernel then gives the same descriptor to the next `Connect`, with an errno that does
  -- not refuse it: the registration of the new state's channel fails an assertion.
  pub connect_after_lost :
      (n : ℕ) (res res' : SysResult) (cb cb' : ℕ) (c : Connector) (i : ℕ) (q : TimerQueue) (k : ℕ)
      → get_conn_number c.pool + length c.ongoing + 1 ≤ c.limit
      → (Socket.connect res).0 ≡ pos 0
      → (Socket.connect res').0 ≡ pos k
      → lookup n c.cycle.all_channels ≡ none
      → lookup n c.ongoing ≡ none
      → new_timer c.queue ≡ ok (i, q)
      → member (due_in time i 10 c.queue) c.queue.timers_set ≡ false
      → time (c.queue.reads + 1) < time c.queue.reads + 10 * ns_per_ms
      → (connect a remote on_read on_write time on_timedout (done n) res cb c
          >>= connect a remote on_read on_write time on_timedout (done n) res' cb')
        ≡ fault assertion
  connect_after_lost n res res' cb cb' c i q k room again then_again free new drawn unentered soon =
      let (c', ec, p) =
        Returns-value (Lost time n c)
          (connect a remote on_read on_write time on_timedout (done n) res cb c)
          (connect-Lost n res cb c i q room again free new drawn unentered soon) in
      rw ec (
        connect_taken n c.addresses res' cb' c' k
          (ground (arith, p.pool_kept, p.ongoing_kept, p.limit_kept)) then_again p.kept)
