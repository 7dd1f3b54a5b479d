-- ===== src/Connector/Refusals.antt =====
-- net/Connector.cpp, `Connect`: the calls that are refused at once.
use musketeer.Prelude.{ℕ, ◌+◌, ◌<◌, ◌≡◌, ◌⊎◌, false, none, ◌∷◌, [], ◌++◌, length, arith, ok}
use musketeer.Prelude.Int.{negsuc}
use musketeer.Errors.{SysResult}
use musketeer.InetAddr.{InetAddr}
use musketeer.Buffer.Alloc.{Allocator}
use musketeer.Pool.{get_conn_number}
use musketeer.Socket.{valid, new_socket}
use musketeer.Socket
use musketeer.Socket.Outcomes.{connect-Connects}
use musketeer.Connector.{Connector, connect, connected, closing}

-- No descriptor, too many connections, or an errno that trying again does not help.
abbrev pub Refused : SysResult → SysResult → Connector → Type 0
Refused fd res c =
    (valid (new_socket fd) ≡ false)
    ⊎ ((c.limit < get_conn_number c.pool + length c.ongoing + 1)
        ⊎ ((Socket.connect res).0 ≡ negsuc 0))

module _ (a : Allocator) (remote : InetAddr) (on_read on_write : ℕ) (time : ℕ → ℕ)
    (on_timedout : ℕ) where
  -- `Connect` with no descriptor, over the limit, or with an errno that trying again does not help,
  -- tells the application at once, and once, that there is no connection; a descriptor that it has
  -- is closed, and nothing else changes.
  pub connect-Refused :
      (fd res : SysResult) (cb : ℕ) (c : Connector)
      → Refused fd res c
      → connect a remote on_read on_write time on_timedout fd res cb c
        ≡ ok (record c {
          calls = c.calls ++ (cb, none) ∷ [];
          closed = closing (new_socket fd).fd c.closed;
        })
  unfolding connect connected Socket.destroy valid
  connect-Refused fd res cb c h = ground (arith, (connect-Connects res).0, (connect-Connects res).1)
