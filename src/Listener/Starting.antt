-- ===== src/Listener/Starting.antt =====
-- net/Listener.cpp, the constructor and `Listen`: how a listener comes to wait for connections.
use musketeer.Prelude.{
  ℕ, Bool, ◌≡◌, refl, ◌∙◌, [], true, false, none, some, arith, ok, fault, aborted, assertion, ◌>>=◌,
  ◌==◌, Returns, Returns-value,
}
use musketeer.Prelude.Assoc.{lookup}
use musketeer.Errors.{SysResult, done, failed, Errno}
use musketeer.Channel.{
  Cycle, Watched, set, removed, make, register, enable_reading, put_callback, read_handler,
}
use musketeer.Channel.Events.{has, crevent}
use musketeer.Channel.Calls.{Registered, register_lem, EnablesReading, enable_reading_all}
use musketeer.Channel.Lifecycle.{Inv, put_callback-Inv}
use musketeer.Timers.{TimerQueue}
use musketeer.Socket.{valid, is_valid, new_socket, set_option, call_succeeds}
use musketeer.Socket
use musketeer.Listener.{Listener, construct, destroy, listen, bind_local_addr}

-- The channel of a listener, in its cycle.
abbrev pub channel_of : Listener → Watched
channel_of l = record { cycle = l.cycle; chan = l.chan; id = l.chan_id }

-- A listener at work: its channel waits for connections, and somebody is there to get them.
pub record Listening (l : Listener) : Type 0 where
  pub inv : Inv (channel_of l)
  pub reading : has l.chan.events crevent ≡ true
  pub status : l.chan.status ≡ set
  pub read_callback : l.chan.read_callback ≡ true
  pub open_fd : l.listenfd ≡ record { fd = some l.chan.fd }
  pub answered : l.connected_callback ≡ true

-- A listener that was made and does not yet listen.
pub record Idle (l : Listener) : Type 0 where
  pub inv : Inv (channel_of l)
  pub status : l.chan.status ≡ removed
  pub idle : l.chan.events ≡ 0
  pub open_fd : l.listenfd ≡ record { fd = some l.chan.fd }
  pub answered : l.connected_callback ≡ true

-- A listener on which nothing has happened.
abbrev pub Untouched : Listener → Type 0
Untouched l = (l.calls ≡ []) × (l.made ≡ []) × (l.closed ≡ [])

-- The other channels of the cycle are as they were.
abbrev pub OthersKept : ℕ → Cycle → Listener → Type 0
OthersKept n cy l =
    (k : ℕ) → (k == n) ≡ false → lookup k l.cycle.all_channels ≡ lookup k cy.all_channels

pub construct-Idle :
    (n limit address : ℕ) (active : ℕ → Bool) (cy : Cycle) (q : TimerQueue)
    → lookup n cy.all_channels ≡ none
    → Returns
        (λ l. Idle l × (l.chan.fd ≡ n) × Untouched l × OthersKept n cy l)
        (construct (done n) true limit active cy q address)
unfolding construct make new_socket valid
construct-Idle n limit address active cy q free =
    let (w, ew, pw) =
      Returns-value (Registered cy address n) (register (make cy address n))
        (register_lem cy address n free) in
    rw ew (
      record {
        inv = record {
          interest = pw.inv.interest;
          watched = pw.inv.watched;
          mapped = pw.inv.mapped;
        };
        status = pw.status;
        idle = pw.idle;
        open_fd = ground (arith, pw.keeps.fd_kept);
        answered = refl;
      },
      pw.keeps.fd_kept,
      (refl, refl, refl),
      pw.keeps.others_kept,
    )

pub listen-Listening :
    (k : ℕ) (l : Listener)
    → Idle l
    → Returns
        (λ l'.
          Listening l'
          × (l'.chan.fd ≡ l.chan.fd)
          × (Untouched l → Untouched l')
          × OthersKept l.chan.fd l.cycle l')
        (listen (done k) l)
unfolding listen valid Socket.listen put_callback
listen-Listening k l p =
    let ready = put_callback read_handler true (channel_of l) in
    let (w, ew, pw) = Returns-value (EnablesReading ready) (enable_reading ready) (
      enable_reading_all ready (put_callback-Inv read_handler true (channel_of l) p.inv) refl
        p.status p.idle) in
    let heard : is_valid l.listenfd.fd ≡ true = ground (arith, p.open_fd) in
    rw (heard, ew)
      (
        record {
          inv = record {
            interest = pw.inv.interest;
            watched = pw.inv.watched;
            mapped = ground (arith, pw.inv.mapped, pw.keeps.id_kept);
          };
          reading = pw.reading;
          status = pw.status;
          read_callback = pw.keeps.read_callback_kept;
          open_fd = ground (arith, pw.keeps.fd_kept, p.open_fd);
          answered = p.answered;
        },
        pw.keeps.fd_kept,
        λ u. u,
        pw.keeps.others_kept,
      )

-- A listener that was made on the free descriptor `n`, with a callback, and was told to listen: it
-- listens, with nobody called, no connection made and no descriptor closed.
pub construct-listen :
    (n k limit address : ℕ) (active : ℕ → Bool) (cy : Cycle) (q : TimerQueue)
    → lookup n cy.all_channels ≡ none
    → Returns
        (λ l. Listening l × (l.chan.fd ≡ n) × Untouched l)
        (construct (done n) true limit active cy q address >>= listen (done k))
construct-listen n k limit address active cy q free =
    let (l, e, (idle, fd, u, spared)) =
      Returns-value _ (construct (done n) true limit active cy q address)
        (construct-Idle n limit address active cy q free) in
    let (l', e', (listens, fd', kept, spared')) =
      Returns-value _ (listen (done k) l) (listen-Listening k l idle) in
    rw (e, e') (listens, fd' ∙ fd, kept u)

-- `BindLocalAddr` answers what `::bind` does, whatever the two options did.
pub bind_local_addr_lem :
    (addr port : SysResult) (n : ℕ) (e : Errno) (l : Listener)
    → Idle l
    → (bind_local_addr addr port (done n) l ≡ ok true)
      × (bind_local_addr addr port (failed e) l ≡ ok false)
unfolding bind_local_addr set_option call_succeeds valid
bind_local_addr_lem addr port n e l p =
    let heard : is_valid l.listenfd.fd ≡ true = ground (arith, p.open_fd) in
    (ground arith, ground arith)

-- With no descriptor, or where `::listen` fails, the program stops; with no callback an assertion fails.
construct-stops :
    (e : Errno) (res : SysResult) (limit address : ℕ) (active : ℕ → Bool) (cy : Cycle)
    (q : TimerQueue) (l : Listener)
    → (construct (failed e) true limit active cy q address ≡ fault aborted)
      × (construct res false limit active cy q address ≡ fault assertion)
      × (valid l.listenfd ≡ true → listen (failed e) l ≡ fault aborted)
unfolding construct listen new_socket valid Socket.listen
construct-stops e res limit address active cy q l = (refl, refl, λ h. ground arith)

-- The destructor of such a listener finds its descriptor.
pub destroy-Idle : (l : Listener) → Idle l → destroy l ≡ ok (some l.chan.fd)
unfolding destroy valid Socket.destroy
destroy-Idle l w = ground (arith, w.open_fd)
