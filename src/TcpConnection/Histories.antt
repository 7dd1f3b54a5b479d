-- ===== src/TcpConnection/Histories.antt =====
-- net/TcpConnection.cpp: any sequence of handlers and of calls of the application.
use mathlib.Core.Path.{subst}
use musketeer.Prelude.{
  ℕ, ◌≡◌, refl, true, false, Bool, not, List, length, ltb, arith, Outcome, ok, ◌>>=◌, ◌>>◌, assert,
  >>=-eq-ok, assert-ok, fault, ◌⊎◌, inl, inr, Bool-cases, ◌∙◌, if◌then◌else◌,
}
use musketeer.Errors.{
  Errno, error, read_error, write_error, read_timedout, write_timedout, success, SysResult,
}
use musketeer.Buffer.{Buffer, appendable_size}
use musketeer.Utilities.{Io}
use musketeer.Channel.{
  Handler, error_handler, Watched, is_new, is_reading, is_writing, put_callback, read_handler,
  write_handler, enable_reading, disable_reading, enable_writing, disable_writing,
}
use musketeer.Channel.Events.{crevent, cwevent}
use musketeer.Channel.Lifecycle.{
  Inv, put_callback-Inv, enable_reading-Inv, disable_reading-Inv, enable_writing-Inv,
  disable_writing-Inv,
}
use musketeer.Channel.Registered.{
  enable_reading_registers, disable_reading_registers, enable_writing_registers,
  disable_writing_registers,
}
use musketeer.Timers.{update_by}
use musketeer.TcpConnection.{
  TcpConnection, is_closed, is_established, call_read, call_write, close, stop_writing,
  wait_writable, write_chain, after_write, handle_write, handle_error, handle_read_timedout,
  handle_write_timedout, set_read_callback, start_reading, send,
}
use musketeer.TcpConnection.Soundness.{
  Sound, Silent, Told, call_read-Told, call_write-Told, moved, close-Silent, channel_step,
  waits_open, stop-Silent, add_silence, reading_of, writing_of,
}

-- At most one call of the application.
abbrev pub Once : TcpConnection → TcpConnection → Type 0
Once c c' = Silent c c' ⊎ Told c c'

stop_writing-Silent : (c c' : TcpConnection) → Sound c → stop_writing c ≡ ok c' → Silent c c'
unfolding stop_writing
stop_writing-Silent c c' s eq =
    let (writing, ew, rest) =
      >>=-eq-ok (is_writing c.channel.chan)
        (λ writing.
          if writing
          then (disable_writing c.channel >>= λ w. ok (record c { channel = w }))
          else ok c)
        eq in
    stop-Silent disable_writing cwevent writing c c' disable_writing-Inv disable_writing_registers s
      refl (writing_of c.channel.chan writing ew) rest

-- The channel with its callback for writing.
abbrev ready : Bool → Watched → Watched
ready b w = if b then w else put_callback write_handler true w

ready-Sound :
    (c : TcpConnection) (b : Bool)
    → Sound c
    → is_closed c.status ≡ false
    → Sound (record c { channel = ready b c.channel })
unfolding put_callback
ready-Sound c true s o = s
ready-Sound c false s o =
    moved c (put_callback write_handler true c.channel) s o
      (put_callback-Inv write_handler true c.channel (s.open_inv o)) (s.open_registered o)

wait_writable-Silent :
    (c c' : TcpConnection)
    → Sound c
    → is_closed c.status ≡ false
    → wait_writable c ≡ ok c'
    → Silent c c'
unfolding wait_writable
wait_writable-Silent c c' s o eq =
    let w = ready c.channel.chan.write_callback c.channel in
    let d : TcpConnection = record c { channel = w } in
    let (writing, ew, rest) =
      >>=-eq-ok (is_writing w.chan)
        (λ writing.
          if writing then ok d else (enable_writing w >>= λ w'. ok (record d { channel = w' })))
        eq in
    started writing d c' (ready-Sound c c.channel.chan.write_callback s o) o rest
  where
    started :
        (b : Bool) (d d' : TcpConnection)
        → Sound d
        → is_closed d.status ≡ false
        → (if b then ok d else (enable_writing d.channel >>= λ w'. ok (record d { channel = w' })))
          ≡ ok d'
        → Silent d d'
    started true d d' t o' e =
        let same : d ≡ d' = ground (arith, e) in subst (Silent d) same (t, refl)
    started false d d' t o' e =
        channel_step enable_writing d d' enable_writing-Inv enable_writing_registers t o' e

after_write-Once :
    (c c' : TcpConnection) (io : Io (List Buffer))
    → Sound c
    → is_closed c.status ≡ false
    → after_write c io ≡ ok c'
    → Once c c'
unfolding after_write
after_write-Once c c' io s o eq =
    let d : TcpConnection = record c { write_buf_chain = io.bufs; saved_errno = io.err.second } in
    elim (Bool-cases io.ret) [
      | inl kept ↦ elim (Bool-cases io.all_sent) [
        | inl sent ↦
            let e : (stop_writing d >>= call_write io.err) ≡ ok c' =
              ground (arith, kept, sent, eq) in
            let (x, ex, rest) = >>=-eq-ok (stop_writing d) (call_write io.err) e in
            let (t, q) = stop_writing-Silent d x s ex in
            inr (add_silence c x c' q (call_write-Told io.err x c' t rest))
        | inr part ↦ inl (wait_writable-Silent d c' s o (ground (arith, kept, part, eq)))
      ]
      | inr lost ↦
          let e : (close d >>= call_write io.err) ≡ ok c' = ground (arith, lost, eq) in
          let (x, ex, rest) = >>=-eq-ok (close d) (call_write io.err) e in
          let (t, q) = close-Silent d x s ex in
          inr (add_silence c x c' q (call_write-Told io.err x c' t rest))
    ]

pub handle_write-Once :
    (res : SysResult) (c c' : TcpConnection) → Sound c → handle_write res c ≡ ok c' → Once c c'
unfolding handle_write
handle_write-Once res c c' s eq = elim (Bool-cases (is_established c.status)) [
  | inl up ↦
      let e : (write_chain c.write_buf_chain res >>= after_write c) ≡ ok c' =
        ground (arith, up, eq) in
      let (io, eio, rest) = >>=-eq-ok (write_chain c.write_buf_chain res) (after_write c) e in
      after_write-Once c c' io s (ground (arith, up)) rest
  | inr down ↦
      let e : (stop_writing c >>= call_write (error write_error c.saved_errno)) ≡ ok c' =
        ground (arith, down, eq) in
      let (x, ex, rest) =
        >>=-eq-ok (stop_writing c) (call_write (error write_error c.saved_errno)) e in
      let (t, q) = stop_writing-Silent c x s ex in
      inr (add_silence c x c' q (call_write-Told (error write_error c.saved_errno) x c' t rest))
]

pub handle_error-Silent :
    (e : Errno) (c c' : TcpConnection) → Sound c → handle_error e c ≡ ok c' → Silent c c'
unfolding handle_error
handle_error-Silent e c c' s eq =
    close-Silent (record c { saved_errno = e }) c' s (ground (arith, eq))

-- What a timeout does: it stops what waits, takes the callback away, and tells.
timed_out :
    (f : Watched → Outcome Watched) (g : TcpConnection → Outcome TcpConnection) (h : Handler)
    (c c' : TcpConnection)
    → ((w w' : Watched) → Inv w → f w ≡ ok w' → Inv w')
    → ((w w' : Watched) → f w ≡ ok w' → is_new w'.chan.status ≡ false)
    → ((d d' : TcpConnection) → Sound d → g d ≡ ok d' → Told d d')
    → Sound c
    → is_closed c.status ≡ false
    → (f c.channel >>= (λ w. ok (record c { channel = w })) >>= λ d.
        g (record d { channel = put_callback h false d.channel }))
      ≡ ok c'
    → Told c c'
unfolding put_callback
timed_out f g h c c' keep register tell s o eq =
    let (w, ew, rest) =
      >>=-eq-ok (f c.channel) (λ w. g (record c { channel = put_callback h false w }))
        (flat (f c.channel) eq) in
    let v = put_callback-Inv h false w (keep c.channel w (s.open_inv o) ew) in
    let r = register c.channel w ew in
    tell (record c { channel = put_callback h false w }) c'
      (moved c (put_callback h false w) s o v (still h w r)) rest
  where
    flat :
        (m : Outcome Watched)
        → (m >>= (λ w. ok (record c { channel = w })) >>= λ d.
            g (record d { channel = put_callback h false d.channel }))
          ≡ ok c'
        → (m >>= λ w. g (record c { channel = put_callback h false w })) ≡ ok c'
    flat (ok w) e = e
    flat (fault x) e = e

    still :
        (k : Handler) (w : Watched)
        → is_new w.chan.status ≡ false
        → is_new (put_callback k false w).chan.status ≡ false
    still error_handler w r = r
    still read_handler w r = r
    still write_handler w r = r

pub handle_read_timedout-Told :
    (c c' : TcpConnection) → Sound c → handle_read_timedout c ≡ ok c' → Told c c'
unfolding handle_read_timedout
handle_read_timedout-Told c c' s eq =
    let (b, eb, rest) = >>=-eq-ok (is_reading c.channel.chan) _ eq in
    let (on, last) = assert-ok b _ rest in
    let waits = reading_of c.channel.chan b eb ∙ on in
    timed_out disable_reading (call_read (error read_timedout success)) read_handler c c'
      disable_reading-Inv disable_reading_registers (call_read-Told (error read_timedout success)) s
      (waits_open c crevent s waits refl) last

pub handle_write_timedout-Told :
    (c c' : TcpConnection) → Sound c → handle_write_timedout c ≡ ok c' → Told c c'
unfolding handle_write_timedout
handle_write_timedout-Told c c' s eq =
    let (b, eb, rest) = >>=-eq-ok (is_writing c.channel.chan) _ eq in
    let (on, last) = assert-ok b _ rest in
    let waits = writing_of c.channel.chan b eb ∙ on in
    timed_out disable_writing (call_write (error write_timedout success)) write_handler c c'
      disable_writing-Inv disable_writing_registers (call_write-Told (error write_timedout success))
      s (waits_open c cwevent s waits refl) last

start_reading-Silent :
    (time : ℕ → ℕ) (msec : ℕ) (c c' : TcpConnection)
    → Sound c
    → is_closed c.status ≡ false
    → start_reading time msec c ≡ ok c'
    → Silent c c'
unfolding start_reading put_callback
start_reading-Silent time msec c c' s o eq =
    let w =
      if c.channel.chan.read_callback
      then c.channel
      else put_callback read_handler true c.channel in
    let (w', ew, rest) = >>=-eq-ok (enable_reading w) _ eq in
    let same : record c { channel = w'; queue = update_by time c.read_timer msec c.queue } ≡ c' =
      ground (arith, rest) in
    subst (Silent c) same (
      moved c w' s o (enable_reading-Inv w w' (armed c.channel.chan.read_callback) ew)
          (enable_reading_registers w w' ew),
      refl,
    )
  where
    armed : (b : Bool) → Inv (if b then c.channel else put_callback read_handler true c.channel)
    armed true = s.open_inv o
    armed false = put_callback-Inv read_handler true c.channel (s.open_inv o)

pub set_read_callback-Once :
    (time : ℕ → ℕ) (msec : ℕ) (c c' : TcpConnection)
    → Sound c
    → set_read_callback time msec c ≡ ok c'
    → Once c c'
unfolding set_read_callback
set_read_callback-Once time msec c c' s eq =
    let (room, er, rest) = >>=-eq-ok (appendable_size c.read_buf) _ eq in
    let (some_room, rest₂) = assert-ok (ltb 0 room) _ rest in
    let (reading, ed, rest₃) = >>=-eq-ok (is_reading c.channel.chan) _ rest₂ in
    let (quiet, last) = assert-ok (not reading) _ rest₃ in
    let d : TcpConnection = record c { read_available_callback = true } in
    elim (Bool-cases (is_established c.status)) [
      | inl up ↦
          inl
            (start_reading-Silent time msec d c' s (ground (arith, up)) (ground (arith, up, last)))
      | inr down ↦
          inr (call_read-Told (error read_error c.saved_errno) d c' s (ground (arith, down, last)))
    ]

pub send-Once :
    (time : ℕ → ℕ) (msec : ℕ) (res : SysResult) (c c' : TcpConnection)
    → Sound c
    → send time msec res c ≡ ok c'
    → Once c c'
unfolding send
send-Once time msec res c c' s eq =
    let (writing, ed, rest) = >>=-eq-ok (is_writing c.channel.chan) _ eq in
    let (quiet, last) = assert-ok (not writing) _ rest in
    let d : TcpConnection = record c { write_finished_callback = true } in
    elim (Bool-cases (is_established c.status)) [
      | inl up ↦
          let x : TcpConnection = record d { queue = update_by time c.write_timer msec c.queue } in
          let e : (assert (ltb 0 (length c.write_buf_chain)) >> handle_write res x) ≡ ok c' =
            ground (arith, up, last) in
          handle_write-Once res x c' s
            (assert-ok (ltb 0 (length c.write_buf_chain)) (handle_write res x) e).1
      | inr down ↦
          inr
            (call_write-Told (error write_error c.saved_errno) d c' s (ground (arith, down, last)))
    ]
