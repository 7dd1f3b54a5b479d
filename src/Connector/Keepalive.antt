-- ===== src/Connector/Keepalive.antt =====
-- net/Connector.cpp, `RetainTcpConnection` and `handleKeepalivedRead`: a connection that is kept while
-- nobody uses it.
use musketeer.Prelude.{
  ℕ, ◌<◌, ◌≡◌, true, false, not, arith, Outcome, ◌>>=◌, fault, assertion, ◌>>◌, assert, Returns,
  Returns-mono,
}
use musketeer.Errors.{Error}
use musketeer.Buffer.{available_size}
use musketeer.Buffer.Bounds.{IsValid, available_size_lem}
use musketeer.Buffer.Append.{room}
use musketeer.Channel.Events.{has, crevent}
use musketeer.TcpConnection.{TcpConnection, established, is_closed, close, set_read_callback}
use musketeer.TcpConnection.Closing.{Live, Closed, close-Closed}
use musketeer.TcpConnection.Waiting.{set_read_callback_lem}

-- `handleKeepalivedRead`
pub handle_keepalived_read : Error → TcpConnection → Outcome TcpConnection
handle_keepalived_read e t = do unexpected ← available_size t.read_buf; close t

-- `RetainTcpConnection`
pub retain_tcp_connection : (ℕ → ℕ) → TcpConnection → Outcome TcpConnection
retain_tcp_connection time t = do assert (not t.active); set_read_callback time 60000 t

-- A connection that a connector keeps is closed by whatever comes on it, and nobody is called.
handle_keepalived_read_lem :
    (e : Error) (t : TcpConnection)
    → Live t
    → is_closed t.status ≡ false
    → IsValid t.read_buf
    → Returns (Closed t) (handle_keepalived_read e t)
unfolding handle_keepalived_read
handle_keepalived_read_lem e t live lives valid =
    rw (available_size_lem t.read_buf valid) (close-Closed t live lives)

-- A connection that nobody uses waits for something to read, and nobody is called; one in use is not to be
-- kept.
retain_tcp_connection_lem :
    (time : ℕ → ℕ) (t : TcpConnection)
    → Live t
    → t.status ≡ established
    → IsValid t.read_buf
    → 0 < room t.read_buf
    → has t.channel.chan.events crevent ≡ false
    → (t.active ≡ false
        → Returns
            (λ t'. (has t'.channel.chan.events crevent ≡ true) × (t'.calls ≡ t.calls))
            (retain_tcp_connection time t))
      × (t.active ≡ true → retain_tcp_connection time t ≡ fault assertion)
unfolding retain_tcp_connection
retain_tcp_connection_lem time t live lives valid some_room quiet = (
  λ idle.
      let at_rest : not t.active ≡ true = ground arith in
      rw at_rest (
        Returns-mono _ _ (set_read_callback time 60000 t) (λ t' p. (p.0, p.3))
          (set_read_callback_lem time 60000 t live lives valid some_room quiet)),
  λ used. ground arith,
)
