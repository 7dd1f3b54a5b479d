-- ===== src/Connector/Steps.antt =====
-- net/Connector.cpp, each entry into a connector, where it returns: what it does to the count of a callback.
use mathlib.Core.Path.{subst}
use musketeer.Prelude.{
  ℕ, zero, suc, ◌+◌, ◌≡◌, ◌≢◌, ◌∙◌, refl, sym, ap, true, Option, some, none, ◌∷◌, [], ◌++◌, arith,
  Outcome, ok, >>=-eq-ok, ◌>>=◌, Bool-cases, inl, inr, ltb, length, if◌then◌else◌,
}
use musketeer.Prelude.Int.{ℤ, pos, negsuc}
use musketeer.Prelude.Assoc.{
  erase, insert, lookup, Distinct, Distinct-erase, lookup-erase, lookup-insert, weigh-erase,
}
use musketeer.Errors.{
  Errno, Error, SysResult, error, connect_error, connect_timedout, success, is_positive, no_error,
}
use musketeer.InetAddr.{InetAddr}
use musketeer.Buffer.Alloc.{Allocator}
use musketeer.Pool.{get_conn_number}
use musketeer.Socket.{new_socket, valid, Socket}
use musketeer.Socket
use musketeer.Connector.{
  Connector, ConnectState, Connecting, connect, connected, check, deliver, release, destroy,
  handle_write, handle_error, handle_timedout, get_fd, construct, trace, is_some,
}
use musketeer.Connector.Delivery.{deliver_gone}
use musketeer.Connector.Answers.{
  IsFirst, Concludes, finalise-Concludes, construct-IsFirst, trace-IsFirst,
}
use musketeer.Connector.Counting.{
  one_if, told, told-append, waiting, Waits, Kept, Counts, refused-Counts, new_state-Counts,
}

module _ (a : Allocator) (remote : InetAddr) (on_read on_write : ℕ) (time : ℕ → ℕ)
    (on_timedout : ℕ) where
  release_gone :
      (s : Connecting)
      → lookup s.state.chan.fd s.connector.ongoing ≡ none
      → ((release a remote on_read on_write time on_timedout s).calls ≡ s.connector.calls)
        × ((release a remote on_read on_write time on_timedout s).ongoing ≡ s.connector.ongoing)
  unfolding release destroy
  release_gone s gone = rw gone (refl, refl)

  -- The end of a state that stood in the map, once `finalise` has told the application.
  concluded :
      (cb n : ℕ) (c c' : Connector) (st : ConnectState) (s : Connecting)
      → Kept c
      → lookup n c.ongoing ≡ some st
      → Waits n st
      → Concludes a remote on_read on_write (record { connector = c; state = st }) s
      → release a remote on_read on_write time on_timedout s ≡ c'
      → Counts cb 0 c c'
  concluded cb n c c' st s k here w p last =
      let forgotten : s.connector.ongoing ≡ erase n c.ongoing =
        p.forgotten ∙ ap (λ m. erase m c.ongoing) w.placed in
      let gone : lookup s.state.chan.fd s.connector.ongoing ≡ none =
        ground (arith, forgotten, p.fd_kept, w.under, lookup-erase n n c.ongoing) in
      let (calls, ongoing) = release_gone s gone in
      let ends_in : c'.ongoing ≡ erase n c.ongoing =
        ap (λ d. d.ongoing) (sym last) ∙ ongoing ∙ forgotten in
      let told_once : c'.calls ≡ c.calls ++ (st.callback, p.conn) ∷ [] =
        ap (λ d. d.calls) (sym last) ∙ calls ∙ p.told in
      record {
        kept = record {
          distinct = subst Distinct (sym ends_in) (Distinct-erase n c.ongoing k.distinct);
          states =
              λ m st' h. k.states m st' (ground (arith, h, ends_in, lookup-erase n m c.ongoing));
        };
        counted = omega (
          arith,
          ap (told cb) told_once,
          told-append cb st.callback p.conn c.calls,
          ap (waiting cb) ends_in,
          weigh-erase (λ x. one_if cb x.callback) n st c.ongoing k.distinct here,
        );
      }

  -- A handler that ends in `finalise`.
  pub delivered :
      (f : Connecting → Outcome Connecting) (cb n : ℕ) (c c' : Connector)
      → Kept c
      → ((st : ConnectState) (s : Connecting)
          → Waits n st
          → f (record { connector = c; state = st }) ≡ ok s
          → Concludes a remote on_read on_write (record { connector = c; state = st }) s)
      → deliver a remote on_read on_write time on_timedout f n c ≡ ok c'
      → Counts cb 0 c c'
  unfolding deliver
  delivered f cb n c c' k ends e = found (lookup n c.ongoing) refl
    where
      found : (o : Option ConnectState) → lookup n c.ongoing ≡ o → Counts cb 0 c c'
      found none absent =
          let stays = deliver_gone a remote on_read on_write time on_timedout n c f absent in
          let same : c ≡ c' = ground (arith, stays, e) in
          subst (Counts cb 0 c) same (record { kept = k; counted = omega arith })
      found (some st) here =
          let w = k.states n st here in
          let (s, es, last) =
            >>=-eq-ok (f (record { connector = c; state = st }))
              (λ s. ok (release a remote on_read on_write time on_timedout s)) (rw here at e) in
          let p = ends st s w es in concluded cb n c c' st s k here w p (ground (arith, last))

  abbrev pub at_work : Connector → ConnectState → Connecting
  at_work c st = record { connector = c; state = st }

  pub handle_write-Concludes :
      (e : Errno) (n : ℕ) (c : Connector) (st : ConnectState) (s : Connecting)
      → Waits n st
      → handle_write a remote on_read on_write time on_timedout e (at_work c st) ≡ ok s
      → Concludes a remote on_read on_write (at_work c st) s
  unfolding handle_write
  handle_write-Concludes e n c st s w r =
      finalise-Concludes a remote on_read on_write
        (if is_positive e then error connect_error e else error no_error success) (at_work c st) s
        (ground (arith, r, w.working))

  pub handle_error-Concludes :
      (e : Errno) (n : ℕ) (c : Connector) (st : ConnectState) (s : Connecting)
      → Waits n st
      → handle_error a remote on_read on_write time on_timedout e (at_work c st) ≡ ok s
      → Concludes a remote on_read on_write (at_work c st) s
  unfolding handle_error
  handle_error-Concludes e n c st s w r =
      finalise-Concludes a remote on_read on_write (error connect_error e) (at_work c st) s
        (ground (arith, r, w.working))

  pub handle_timedout-Concludes :
      (res : SysResult) (n : ℕ) (c : Connector) (st : ConnectState) (s : Connecting)
      → Waits n st
      → handle_timedout a remote on_read on_write time on_timedout res (at_work c st) ≡ ok s
      → Concludes a remote on_read on_write (at_work c st) s
  unfolding handle_timedout
  handle_timedout-Concludes res n c st s w r =
      finalise-Concludes a remote on_read on_write (error connect_timedout success) (at_work c st) s
        (ground (arith, r, w.working, w.first))

  -- `Check` of a connection that has started.
  record ChecksIn (s s' : Connecting) : Type 0 where
    waits : Waits s'.state.chan.fd s'.state
    free : lookup s'.state.chan.fd s.connector.ongoing ≡ none
    entered : s'.connector.ongoing ≡ insert s'.state.chan.fd s'.state s.connector.ongoing
    calls_kept : s'.connector.calls ≡ s.connector.calls
    callback_kept : s'.state.callback ≡ s.state.callback

  check_started :
      (n : ℕ) (s s' : Connecting)
      → check a remote on_read on_write time on_timedout (pos (suc n)) s ≡ ok s'
      → IsFirst s
      → ChecksIn s s'
  unfolding check
  check_started n s s' e f =
      elim (Bool-cases (is_some (lookup (get_fd s.state.socket) s.connector.ongoing))) [
        | inl taken ↦ ground (arith, e, taken)
        | inr free ↦
            let traces : (trace time s >>= λ t. ok (record t {
              connector = record (t.connector) {
                ongoing = insert (get_fd s.state.socket) t.state t.connector.ongoing;
              };
            }))
                ≡ ok s' =
              ground (arith, e, free) in
            let (t, et, last) = >>=-eq-ok (trace time s) _ traces in
            let (g, same, took) = trace-IsFirst time s t et f in
            record {
              waits = record {
                under = refl;
                placed = ground (arith, last, g.placed);
                first = ground (arith, last, g.first);
                working = ground (arith, last, g.working);
              };
              free = ground (arith, last, g.placed, took, free);
              entered = ground (arith, last, g.placed, took, same.ongoing_kept);
              calls_kept = ground (arith, last, same.calls_kept);
              callback_kept = ground (arith, last, same.callback_kept);
            }
      ]

  connected-Counts :
      (sock : Socket) (x cb : ℕ) (res : ℤ × Error) (c c' : Connector)
      → Kept c
      → res.0 ≢ pos 0
      → connected a remote on_read on_write time on_timedout sock x res c ≡ ok c'
      → Counts cb (one_if cb x) c c'
  unfolding connected check release
  connected-Counts sock x cb (negsuc n, err) c c' k plain e =
      refused-Counts cb x c c' k (ground (arith, e)) (ground (arith, e))
  connected-Counts sock x cb (pos zero, err) c c' k plain e = absurd (plain refl)
  connected-Counts sock x cb (pos (suc n), err) c c' k plain e =
      let (s, es, rest) = >>=-eq-ok (construct sock x c) _ e in
      let (s', ec, last) =
        >>=-eq-ok (check a remote on_read on_write time on_timedout (pos (suc n)) s) _ rest in
      let (f, own, took, calls, ongoing) = construct-IsFirst sock x c s es in
      let p = check_started n s s' ec f in
      let n' = s'.state.chan.fd in
      let m = insert n' s'.state s.connector.ongoing in
      let shared : is_some (lookup n' s'.connector.ongoing) ≡ true =
        ground (arith, p.entered, lookup-insert n' n' s'.state s.connector.ongoing) in
      new_state-Counts cb x n' s'.state c c' k p.waits (p.callback_kept ∙ own)
        (ap (lookup n') (sym ongoing) ∙ p.free) (ground (arith, last, shared, p.calls_kept, calls))
        (ground (arith, last, shared, p.entered, ongoing))

  pub connect-Counts :
      (fd res : SysResult) (x cb : ℕ) (c c' : Connector)
      → Kept c
      → (Socket.connect res).0 ≢ pos 0
      → connect a remote on_read on_write time on_timedout fd res x c ≡ ok c'
      → Counts cb (one_if cb x) c c'
  unfolding connect
  connect-Counts fd res x cb c c' k plain e = elim (Bool-cases (valid (new_socket fd))) [
    | inl open_fd ↦
        elim (Bool-cases (ltb c.limit (get_conn_number c.pool + length c.ongoing + 1))) [
          | inl over ↦
              refused-Counts cb x c c' k (ground (arith, e, open_fd, over))
                (ground (arith, e, open_fd, over))
          | inr within ↦
              connected-Counts (new_socket fd) x cb (Socket.connect res) c c' k plain
                (ground (arith, e, open_fd, within))
        ]
    | inr no_fd ↦ refused-Counts cb x c c' k (ground (arith, e, no_fd)) (ground (arith, e, no_fd))
  ]
