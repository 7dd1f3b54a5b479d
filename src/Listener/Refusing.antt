-- ===== src/Listener/Refusing.antt =====
-- net/Listener.cpp, `handleAccept` where it gives no connection.
use musketeer.Prelude.{List, ℕ, ◌+◌, ◌<◌, ◌≡◌, refl, true, ◌∷◌, [], ◌++◌, arith, ok, ltb}
use musketeer.Errors.{SysResult, done, failed}
use musketeer.InetAddr.{InetAddr}
use musketeer.Buffer.Alloc.{Allocator}
use musketeer.Pool.{get_conn_number}
use musketeer.Socket.{valid, accept}
use musketeer.Socket
use musketeer.Listener.{Listener, handle_accept, after_accept}

-- `::accept4` fails, or there are too many connections.
abbrev pub Refused : SysResult → Listener → Type 0
Refused (failed e) l = Unit
Refused (done n) l = l.limit < get_conn_number l.pool + 1

-- The descriptors closed by then.
abbrev pub closed_by : SysResult → List ℕ → List ℕ
closed_by (failed e) fds = fds
closed_by (done n) fds = fds ++ n ∷ []

module _ (a : Allocator) (remote local : InetAddr) (on_read on_write : ℕ) where
  -- Where `::accept4` fails, `handleAccept` of a listener with a valid descriptor changes nothing;
  -- over the limit the new descriptor is closed, and nothing else changes.
  pub handle_accept-Refused :
      (res : SysResult) (l : Listener)
      → valid l.listenfd ≡ true
      → Refused res l
      → handle_accept a remote local on_read on_write res l
        ≡ ok (record l { closed = closed_by res l.closed })
  unfolding handle_accept after_accept accept valid Socket.destroy
  handle_accept-Refused (failed e) l v over = rw v refl
  handle_accept-Refused (done n) l v over =
      let beyond : ltb l.limit (get_conn_number l.pool + 1) ≡ true = ground arith in
      rw (v, beyond) refl
