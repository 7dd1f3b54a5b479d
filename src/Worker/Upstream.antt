-- ===== src/Worker/Upstream.antt =====
-- net/NetWorker.cpp, `ConnectUpstream` from the worker's own thread and from another one.
use musketeer.Prelude.{
  ℕ, ◌+◌, ◌<◌, ◌≡◌, refl, false, List, [], ◌∷◌, length, some, Outcome, ok, fault, ◌>>=◌, ◌==◌,
  ==_self, true, sym, ◌∙◌, >>=-eq-ok, >>=-cong, arith,
}
use musketeer.Errors.{SysResult}
use musketeer.Buffer.Alloc.{Allocator}
use musketeer.TaskQueue.{World, send_task}
use musketeer.TaskQueue.EventFd.{Eventfd, counter_limit}
use musketeer.TaskQueue.Batch.{send_batch, send_batch-BatchServed}
use musketeer.TaskQueue.Drain.{Ready}
use musketeer.Connector.{Connector, connect}
use musketeer.Worker.{
  Request, NetWorker, serve, serve_all, connect_upstream, connect_all_upstream, handle_tasks,
}

-- What the worker's connector has become, and how often it was called.
abbrev pub connector_of : {fd : Eventfd} → Outcome (NetWorker fd) → Outcome (Connector × ℕ)
connector_of m = m >>= λ w. ok (w.connector, w.attempts)

and_send :
    {fd : Eventfd} (m : Outcome (World fd Request)) (put : World fd Request → NetWorker fd)
    (k : NetWorker fd → Outcome (NetWorker fd)) (l : World fd Request → Outcome (World fd Request))
    → ((q : World fd Request) → k (put q) ≡ (l q >>= λ q'. ok (put q')))
    → (m >>= (λ q. ok (put q)) >>= k) ≡ (m >>= l >>= λ q'. ok (put q'))
and_send (ok q) put k l same = same q
and_send (fault e) put k l same = refl

module _ (answer : ℕ → SysResult × SysResult) (a : Allocator) (on_read on_write : ℕ) (time : ℕ → ℕ)
    (on_timedout : ℕ) {fd : Eventfd} where
  serve_thread :
      (r : Request) (w w' : NetWorker fd)
      → serve answer a on_read on_write time on_timedout r w ≡ ok w'
      → w'.thread_id ≡ w.thread_id
  unfolding serve
  serve_thread r w w' e =
      let (c, ec, last) =
        >>=-eq-ok (connect a r.addr on_read on_write time on_timedout _ _ r.callback w.connector) _
          e in
      ground (arith, last)

  -- In the worker's own thread the connector is called at once.
  inside :
      (here : ℕ) (rs : List Request) (w : NetWorker fd)
      → here ≡ w.thread_id
      → connect_all_upstream answer a on_read on_write time on_timedout here rs w
        ≡ serve_all answer a on_read on_write time on_timedout rs w
  unfolding connect_all_upstream serve_all connect_upstream
  inside here [] w own = refl
  inside here (r ∷ rs) w own =
      let mine : (here == w.thread_id) ≡ true = rw (own, ==_self w.thread_id) refl in
      rw mine (
        >>=-cong (serve answer a on_read on_write time on_timedout r w)
          (connect_all_upstream answer a on_read on_write time on_timedout here rs)
          (serve_all answer a on_read on_write time on_timedout rs)
          λ w' e. inside here rs w' (own ∙ sym (serve_thread r w w' e)))

  -- The queue makes no difference to the connector.
  serve_all_queue :
      (rs : List Request) (w : NetWorker fd) (q : World fd Request)
      → connector_of
          (serve_all answer a on_read on_write time on_timedout rs (record w { task_queue = q }))
        ≡ connector_of (serve_all answer a on_read on_write time on_timedout rs w)
  unfolding serve_all serve
  serve_all_queue [] w q = refl
  serve_all_queue (r ∷ rs) w q =
      from_call
        (connect a r.addr on_read on_write time on_timedout (answer w.attempts).0
          (answer w.attempts).1 r.callback w.connector)
        (λ c. serve_all_queue rs (record w { connector = c; attempts = w.attempts + 1 }) q)
    where
      next : Connector → NetWorker fd
      next c = record w { connector = c; attempts = w.attempts + 1 }

      from_call :
          (m : Outcome Connector)
          → ((c : Connector)
              → connector_of (
                  serve_all answer a on_read on_write time on_timedout rs
                    (record (next c) { task_queue = q }))
                ≡ connector_of (serve_all answer a on_read on_write time on_timedout rs (next c)))
          → connector_of (
              (m >>= λ c. ok (record (next c) { task_queue = q }))
              >>= serve_all answer a on_read on_write time on_timedout rs)
            ≡ connector_of (
                (m >>= λ c. ok (next c))
                >>= serve_all answer a on_read on_write time on_timedout rs)
      from_call (fault x) same = refl
      from_call (ok c) same = same c

  -- From another thread they are sent.
  outside :
      (here : ℕ) (rs : List Request) (w : NetWorker fd)
      → (here == w.thread_id) ≡ false
      → connect_all_upstream answer a on_read on_write time on_timedout here rs w
        ≡ (send_batch rs w.task_queue >>= λ q. ok (record w { task_queue = q }))
  unfolding connect_all_upstream connect_upstream send_batch
  outside here [] w other = refl
  outside here (r ∷ rs) w other = rw other (
      and_send (send_task w.task_queue (some r)) (λ q. record w { task_queue = q })
        (connect_all_upstream answer a on_read on_write time on_timedout here rs) (send_batch rs)
        (λ q. outside here rs (record w { task_queue = q }) other))

  -- `ConnectUpstream`, any number of times from another thread, and then the worker's `handleRead`,
  -- does for the connector what the same calls do at once in the worker's own thread, in the same
  -- order, with the same answers of the kernel one after the other, faults included, where the
  -- queue was idle and the eventfd does not overflow.
  pub connect_upstream_elsewhere :
      (here : ℕ) (rs : List Request) (w : NetWorker fd)
      → (here == w.thread_id) ≡ false
      → Ready w.task_queue
      → w.task_queue.queue ≡ []
      → length w.task_queue.sent + length rs < counter_limit
      → connector_of (
          connect_all_upstream answer a on_read on_write time on_timedout here rs w
          >>= handle_tasks answer a on_read on_write time on_timedout)
        ≡ connector_of
            (connect_all_upstream answer a on_read on_write time on_timedout w.thread_id rs w)
  unfolding handle_tasks
  connect_upstream_elsewhere here rs w other r empty few =
      let p = send_batch-BatchServed rs w.task_queue r empty few in
      rw (outside here rs w other, p.sends, p.reads, inside w.thread_id rs w refl, p.taken)
        (serve_all_queue rs w p.read)
