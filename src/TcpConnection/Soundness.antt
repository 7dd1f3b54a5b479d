-- ===== src/TcpConnection/Soundness.antt =====
-- net/TcpConnection.cpp: what every handler and every call of the application keep, and how often they
-- call the application.
use mathlib.Core.Path.{subst}
use musketeer.Prelude.{
  ℕ, ◌≡◌, refl, ap, true, false, Bool, [], ◌∷◌, ◌++◌, arith, Outcome, ok, ◌>>=◌, >>=-eq-ok,
  Returns-value, inl, inr, some, Bool-cases, ◌∙◌, ◌>>◌, assert, if◌then◌else◌,
}
use musketeer.Errors.{error, read_error, Error}
use musketeer.Channel.{Channel, Watched, is_new, is_reading, is_writing, disable_reading}
use musketeer.Channel.Events.{has, crevent, cwevent}
use musketeer.Channel.Lifecycle.{Inv, disable_reading-Inv}
use musketeer.Channel.Registered.{disable_reading_registers}
use musketeer.Pool.{Pool, Conn, group_index}
use musketeer.Pool.View.{find}
use musketeer.Socket.{Socket, valid}
use musketeer.TcpConnection.{
  TcpConnection, TcpConnectionStatus, Call, is_closed, read_available, write_finished, call_read,
  call_write, close, after_read, handle_read, peer_closed, is_peer_closed, is_established,
}
use musketeer.Buffer.{Buffer}
use musketeer.Utilities.{Io, ReadResult, read_fd}
use musketeer.Timers.{cancel}
use musketeer.TcpConnection.Closing.{Live, Closed, close-Closed}

-- A connection that is not closed is registered, in the pool and has its descriptor; one that is closed
-- has none and waits for nothing.
pub record SoundOf (st : TcpConnectionStatus) (s : Socket) (w : Watched) (p : Pool) (k : Conn)
    : Type 0 where
  pub open_inv : is_closed st ≡ false → Inv w
  pub open_registered : is_closed st ≡ false → is_new w.chan.status ≡ false
  pub open_fd : is_closed st ≡ false → valid s ≡ true
  pub open_pooled : is_closed st ≡ false → find p (group_index k) k.index ≡ some k
  pub closed_fd : is_closed st ≡ true → valid s ≡ false
  pub closed_idle : is_closed st ≡ true → w.chan.events ≡ 0

abbrev pub Sound : TcpConnection → Type 0
Sound c = SoundOf c.status c.connfd c.channel c.pool c.self

-- A call that leaves a sound connection and has told the application nothing, or one thing.
abbrev pub Silent : TcpConnection → TcpConnection → Type 0
Silent c c' = Sound c' × (c'.calls ≡ c.calls)

abbrev pub Told : TcpConnection → TcpConnection → Type 0
Told c c' = Sound c' × (x : Call) × (c'.calls ≡ c.calls ++ x ∷ [])

pub Sound-Live : (c : TcpConnection) → Sound c → is_closed c.status ≡ false → Live c
Sound-Live c s o = record {
  channel_inv = s.open_inv o;
  registered = λ e. cc (s.open_registered o, e);
  open_fd = s.open_fd o;
  pooled = s.open_pooled o;
}

pub call_read-Told :
    (e : Error) (c c' : TcpConnection) → Sound c → call_read e c ≡ ok c' → Told c c'
unfolding call_read
call_read-Told e c c' s eq =
    let same : record c { calls = c.calls ++ read_available e ∷ [] } ≡ c' = ground (arith, eq) in
    subst (Told c) same (s, read_available e, refl)

pub call_write-Told :
    (e : Error) (c c' : TcpConnection) → Sound c → call_write e c ≡ ok c' → Told c c'
unfolding call_write
call_write-Told e c c' s eq =
    let same : record c { calls = c.calls ++ write_finished e ∷ [] } ≡ c' = ground (arith, eq) in
    subst (Told c) same (s, write_finished e, refl)

-- An open connection with another state of its channel.
pub moved :
    (c : TcpConnection) (w : Watched)
    → Sound c
    → is_closed c.status ≡ false
    → Inv w
    → is_new w.chan.status ≡ false
    → Sound (record c { channel = w })
moved c w s o v r = record {
  open_inv = λ e. v;
  open_registered = λ e. r;
  open_fd = s.open_fd;
  open_pooled = s.open_pooled;
  closed_fd = s.closed_fd;
  closed_idle = λ e. cc (o, e);
}

pub close-Silent : (c c' : TcpConnection) → Sound c → close c ≡ ok c' → Silent c c'
unfolding close
close-Silent c c' s eq = elim (Bool-cases (is_closed c.status)) [
  | inl shut ↦ let same : c ≡ c' = ground (arith, shut, eq) in subst (Silent c) same (s, refl)
  | inr o ↦
      let (d, ed, p) = Returns-value (Closed c) (close c) (close-Closed c (Sound-Live c s o) o) in
      let same : d ≡ c' = ground (arith, eq, ed) in
      subst (Silent c) same (
        record {
          open_inv = λ e. cc (e, p.is_closed);
          open_registered = λ e. cc (e, p.is_closed);
          open_fd = λ e. cc (e, p.is_closed);
          open_pooled = λ e. cc (e, p.is_closed);
          closed_fd = λ e. p.shut;
          closed_idle = λ e. p.idle;
        },
        p.no_call,
      )
]

-- A call on the channel of an open connection.
pub channel_step :
    (f : Watched → Outcome Watched) (c c' : TcpConnection)
    → ((w w' : Watched) → Inv w → f w ≡ ok w' → Inv w')
    → ((w w' : Watched) → f w ≡ ok w' → is_new w'.chan.status ≡ false)
    → Sound c
    → is_closed c.status ≡ false
    → (f c.channel >>= λ w. ok (record c { channel = w })) ≡ ok c'
    → Silent c c'
channel_step f c c' keep register s o eq =
    let (w, ew, done) = >>=-eq-ok (f c.channel) (λ w. ok (record c { channel = w })) eq in
    let same : record c { channel = w } ≡ c' = ground (arith, done) in
    subst (Silent c) same
      (moved c w s o (keep c.channel w (s.open_inv o) ew) (register c.channel w ew), refl)

-- A connection that waits for something is open.
pub waits_open :
    (c : TcpConnection) (bits : ℕ)
    → Sound c
    → has c.channel.chan.events bits ≡ true
    → has 0 bits ≡ false
    → is_closed c.status ≡ false
waits_open c bits s waits none = elim (Bool-cases (is_closed c.status)) [
  | inl shut ↦ absurd (no shut)
  | inr o ↦ o
]
  where
    no : is_closed c.status ≡ true → ⊥
    no shut =
        let clash : true ≡ false = cc (waits, ap (λ e. has e bits) (s.closed_idle shut), none) in
        cc (clash)

pub stop-Silent :
    (f : Watched → Outcome Watched) (bits : ℕ) (b : Bool) (c c' : TcpConnection)
    → ((w w' : Watched) → Inv w → f w ≡ ok w' → Inv w')
    → ((w w' : Watched) → f w ≡ ok w' → is_new w'.chan.status ≡ false)
    → Sound c
    → has 0 bits ≡ false
    → has c.channel.chan.events bits ≡ b
    → (if b then (f c.channel >>= λ w. ok (record c { channel = w })) else ok c) ≡ ok c'
    → Silent c c'
stop-Silent f bits true c c' keep register s none waits eq =
    channel_step f c c' keep register s (waits_open c bits s waits none) eq
stop-Silent f bits false c c' keep register s none waits eq =
    let same : c ≡ c' = ground (arith, eq) in subst (Silent c) same (s, refl)

-- Silence before what a call does.
pub add_silence : (c d c' : TcpConnection) → d.calls ≡ c.calls → Told d c' → Told c c'
add_silence c d c' quiet (s, x, e) = (s, x, e ∙ ap (λ cs. cs ++ x ∷ []) quiet)

-- The first part of what `handleRead` does after `ReadFd`.
peer_step :
    (c c' : TcpConnection) (b ret : Bool)
    → Sound c
    → is_closed c.status ≡ false
    → (if b then (assert ret >> ok (record c { status = peer_closed })) else ok c) ≡ ok c'
    → Silent c c' × (is_closed c'.status ≡ false)
peer_step c c' true ret s o eq =
    let same : record c { status = peer_closed } ≡ c' = ground (arith, eq) in
    subst (λ d. Silent c d × (is_closed d.status ≡ false)) same
      (
        (
          record {
            open_inv = λ e. s.open_inv o;
            open_registered = λ e. s.open_registered o;
            open_fd = λ e. s.open_fd o;
            open_pooled = λ e. s.open_pooled o;
            closed_fd = λ e. cc e;
            closed_idle = λ e. cc e;
          },
          refl,
        ),
        refl,
      )
peer_step c c' false ret s o eq =
    let same : c ≡ c' = ground (arith, eq) in
    subst (λ d. Silent c d × (is_closed d.status ≡ false)) same ((s, refl), o)

read_end :
    (c c' : TcpConnection) (b : Bool)
    → Sound c
    → is_closed c.status ≡ false
    → (if b then (disable_reading c.channel >>= λ w. ok (record c { channel = w })) else close c)
      ≡ ok c'
    → Silent c c'
read_end c c' true s o eq =
    channel_step disable_reading c c' disable_reading-Inv disable_reading_registers s o eq
read_end c c' false s o eq = close-Silent c c' s eq

after_read-Told :
    (c c' : TcpConnection) (io : Io Buffer)
    → Sound c
    → is_closed c.status ≡ false
    → after_read c io ≡ ok c'
    → Told c c'
unfolding after_read
after_read-Told c c' io s o eq =
    let c₁ : TcpConnection = record c { read_buf = io.bufs; saved_errno = io.err.second } in
    let (c₂, e₂, rest) =
      >>=-eq-ok
        (if is_peer_closed io.err.first
          then (assert io.ret >> ok (record c₁ { status = peer_closed }))
          else ok c₁)
        (λ d.
          (if io.ret
            then (disable_reading d.channel >>= λ w. ok (record d { channel = w }))
            else close d)
          >>= λ d'. call_read io.err d')
        eq in
    let ((s₂, q₂), o₂) = peer_step c₁ c₂ (is_peer_closed io.err.first) io.ret s o e₂ in
    let (c₃, e₃, last) =
      >>=-eq-ok
        (if io.ret
          then (disable_reading c₂.channel >>= λ w. ok (record c₂ { channel = w }))
          else close c₂)
        (call_read io.err) rest in
    let (s₃, q₃) = read_end c₂ c₃ io.ret s₂ o₂ e₃ in
    add_silence c c₃ c' (q₃ ∙ q₂) (call_read-Told io.err c₃ c' s₃ last)

pub reading_of : (ch : Channel) (b : Bool) → is_reading ch ≡ ok b → has ch.events crevent ≡ b
unfolding is_reading
reading_of ch b e = ground (arith, e)

pub writing_of : (ch : Channel) (b : Bool) → is_writing ch ≡ ok b → has ch.events cwevent ≡ b
unfolding is_writing
writing_of ch b e = ground (arith, e)

-- Where a connection is not established, a handler stops what still waits, and tells.
pub handle_read-Told :
    (res : ReadResult) (c c' : TcpConnection) → Sound c → handle_read res c ≡ ok c' → Told c c'
unfolding handle_read is_reading
handle_read-Told res c c' s eq = elim (Bool-cases (is_established c.status)) [
  | inl up ↦
      let e : (read_fd c.read_buf res
            >>= after_read (record c { queue = cancel c.read_timer c.queue }))
          ≡ ok c' =
        ground (arith, up, eq) in
      let (io, eio, rest) =
        >>=-eq-ok (read_fd c.read_buf res)
          (after_read (record c { queue = cancel c.read_timer c.queue })) e in
      after_read-Told (record c { queue = cancel c.read_timer c.queue }) c' io s
        (ground (arith, up)) rest
  | inr down ↦
      let d : TcpConnection = record c { queue = cancel c.read_timer c.queue } in
      let e : (is_reading d.channel.chan >>= λ reading.
      (if reading then (disable_reading d.channel >>= λ w. ok (record d { channel = w })) else ok d)
      >>= λ d'. call_read (error read_error c.saved_errno) d')
          ≡ ok c' =
        ground (arith, down, eq) in
      let (reading, er, rest) =
        >>=-eq-ok (is_reading d.channel.chan)
          (λ reading.
            (if reading
              then (disable_reading d.channel >>= λ w. ok (record d { channel = w }))
              else ok d)
            >>= λ d'. call_read (error read_error c.saved_errno) d')
          e in
      let (c₂, e₂, last) =
        >>=-eq-ok
          (if reading
            then (disable_reading d.channel >>= λ w. ok (record d { channel = w }))
            else ok d)
          (call_read (error read_error c.saved_errno)) rest in
      let (s₂, q₂) =
        stop-Silent disable_reading crevent reading d c₂ disable_reading-Inv
          disable_reading_registers s refl (reading_of d.channel.chan reading er) e₂ in
      add_silence c c₂ c' q₂ (call_read-Told (error read_error c.saved_errno) c₂ c' s₂ last)
]
