-- ===== src/Connector/Delivery.antt =====
-- net/Connector.cpp, the handlers of a ConnectState as the cycle and the timers call them, through
-- WeakCallback.
use musketeer.Prelude.{
  ℕ, ◌≡◌, inl, inr, refl, true, none, some, ◌∷◌, [], ◌++◌, arith, Outcome, ok, Returns,
  Returns-value,
}
use musketeer.Prelude.Assoc.{lookup, lookup-erase}
use musketeer.Errors.{
  Error, Errno, error, success, no_error, connect_error, connect_timedout, is_positive, SysResult,
}
use musketeer.InetAddr.{InetAddr}
use musketeer.Buffer.Alloc.{Allocator}
use musketeer.Pool.View.{Updates}
use musketeer.Socket.{Socket, valid, is_valid, move_from}
use musketeer.Socket
use musketeer.Connector.{
  Connector, ConnectState, Connecting, finalise, handle_write, handle_error, handle_timedout,
  deliver, release, destroy,
}
use musketeer.Connector.Tracing.{Waiting}
use musketeer.Connector.Finishing.{
  Placeable, conn_of, Failing, Failed, Succeeded, finalise-Failed, finalise-Succeeded,
}

-- What a failure leaves of the state `st` of a descriptor.
pub record ToldNone (n : ℕ) (st : ConnectState) (c c' : Connector) : Type 0 where
  pub told : c'.calls ≡ c.calls ++ (st.callback, none) ∷ []
  pub pool_kept : c'.pool ≡ c.pool
  pub forgotten : lookup n c'.ongoing ≡ none
  pub closed : c'.closed ≡ c.closed ++ n ∷ []
  pub mapped : lookup n c'.cycle.all_channels ≡ some st.chan_id

module _ (a : Allocator) (remote : InetAddr) (on_read on_write : ℕ) where
  -- A descriptor's event for a waiting state.
  module _ (time : ℕ → ℕ) (on_timedout : ℕ) (n : ℕ) (st : ConnectState) (c : Connector)
      (shared : lookup n c.ongoing ≡ some st)
      (waits : Waiting (record { connector = c; state = st })) (fd : st.chan.fd ≡ n) where
    abbrev at_work : Connecting
    at_work = record { connector = c; state = st }

    -- The write event of a waiting connection that the kernel has made, where its place in the pool
    -- is free: the application is told once, with the connection, which is now in the pool; the
    -- state is gone from the connector, and no descriptor is closed.
    pub deliver_made :
        Placeable remote at_work
        → Returns
            (λ c'.
              (c'.calls ≡ c.calls ++ (st.callback, some (conn_of remote at_work)) ∷ [])
              × Updates c.pool (conn_of remote at_work) (some (conn_of remote at_work)) c'.pool
              × (lookup n c'.ongoing ≡ none)
              × (c'.closed ≡ c.closed))
            (deliver a remote on_read on_write time on_timedout
              (handle_write a remote on_read on_write time on_timedout success)
              n
              c)
    unfolding deliver handle_write release destroy valid Socket.destroy
    deliver_made free =
        let (s, es, p) =
          Returns-value (Succeeded remote at_work)
            (finalise a remote on_read on_write (error no_error success) at_work)
            (finalise-Succeeded a remote on_read on_write at_work waits free) in
        let open_fd : is_valid st.socket.fd ≡ true = ground (arith, waits.open_fd) in
        let gone : lookup s.state.chan.fd s.connector.ongoing ≡ none =
          ground (arith, p.forgotten, p.fd_kept, lookup-erase st.chan.fd st.chan.fd c.ongoing) in
        rw (shared, es, waits.working, open_fd, gone)
          (
            p.called,
            p.pooled,
            ground (arith, p.forgotten, fd, lookup-erase st.chan.fd n c.ongoing),
            ground (arith, p.emptied, p.closed_kept),
          )

    -- A handler that ends in `finalise` with an error: the application is told, once, with no
    -- connection; the descriptor is closed, but the cycle's map keeps the channel.
    deliver-Failing :
        (e : Error) (f : Connecting → Outcome Connecting)
        → Failing e
        → f at_work ≡ finalise a remote on_read on_write e at_work
        → Returns (ToldNone n st c) (deliver a remote on_read on_write time on_timedout f n c)
    unfolding deliver release destroy Socket.destroy
    deliver-Failing e f failing same =
        let (s, es, p) =
          Returns-value (Failed at_work) (finalise a remote on_read on_write e at_work)
            (finalise-Failed a remote on_read on_write e at_work waits failing) in
        let gone : lookup s.state.chan.fd s.connector.ongoing ≡ none =
          ground (arith, p.forgotten, p.fd_kept, lookup-erase st.chan.fd st.chan.fd c.ongoing) in
        rw (shared, same, es, gone)
          (record {
            told = p.called;
            pool_kept = p.pool_kept;
            forgotten = ground (arith, p.forgotten, fd, lookup-erase st.chan.fd n c.ongoing);
            closed = ground (arith, p.socket_kept, p.closed_kept, fd);
            mapped = ground (arith, p.map_kept, fd, waits.inv.mapped, waits.status);
          })

    open_fd : valid st.socket ≡ true
    unfolding valid
    open_fd = ground (arith, waits.open_fd)

    -- The write event of a waiting connection for which the kernel keeps an errno, and its error
    -- event: the application is told once, that there is no connection; the state is gone, the
    -- descriptor is closed and the pool as before, but the cycle's map keeps the channel.
    pub deliver_failed :
        (e : Errno)
        → is_positive e ≡ true
        → Returns (ToldNone n st c) (
            deliver a remote on_read on_write time on_timedout
              (handle_write a remote on_read on_write time on_timedout e)
              n
              c)
          × Returns (ToldNone n st c) (
              deliver a remote on_read on_write time on_timedout
                (handle_error a remote on_read on_write time on_timedout e)
                n
                c)
    unfolding handle_write handle_error
    deliver_failed e positive = (
      deliver-Failing (error connect_error e) _ (inr (refl, positive))
          (rw (waits.working, open_fd, positive)),
      deliver-Failing (error connect_error e) _ (inr (refl, positive))
          (rw (waits.working, open_fd, positive)),
    )

    -- A timeout of a waiting connection that was not retried: the application is told once, that
    -- there is no connection; the state is gone, the descriptor is closed and the pool as before,
    -- but the cycle's map keeps the channel.
    pub deliver_timedout :
        (res : SysResult)
        → st.retries ≡ 0
        → Returns (ToldNone n st c) (
            deliver a remote on_read on_write time on_timedout
              (handle_timedout a remote on_read on_write time on_timedout res)
              n
              c)
    unfolding handle_timedout
    deliver_timedout res first =
        deliver-Failing (error connect_timedout success) _ (inl refl) (rw (waits.working, first))

  -- Whatever comes for a descriptor with no state at work finds nobody.
  pub deliver_gone :
      (time : ℕ → ℕ) (on_timedout : ℕ) (n : ℕ) (c : Connector) (f : Connecting → Outcome Connecting)
      → lookup n c.ongoing ≡ none
      → deliver a remote on_read on_write time on_timedout f n c ≡ ok c
  unfolding deliver
  deliver_gone time on_timedout n c f gone = rw gone
