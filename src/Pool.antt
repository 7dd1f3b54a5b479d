-- ===== src/Pool.antt =====
-- net/TcpConnectionCreator.h and net/TcpConnectionCreator.cpp: the pool of a listener's or
-- connector's connections, grouped by remote address.
pub mod Count
pub mod View
pub mod Empty
mod Tests
use musketeer.Prelude.{
  ℕ, Bool, true, false, not, List, [], ◌∷◌, length, Option, none, some, Outcome, ok, fault, ◌>>=◌,
  ◌>>◌, assert, out_of_bounds, ◌==◌, if◌then◌else◌,
}
use musketeer.Prelude.Int.{ℤ, pos, ◌+ℤ◌, ◌-ℤ◌}
use musketeer.Prelude.Assoc.{lookup, insert, erase}
use musketeer.InetAddr.{InetAddr, to_numeric}

-- What the pool uses of a connection: `Index()` and `RemoteAddr()`.
pub record Conn : Type 0 where
  pub index : ℕ
  pub remote_addr : InetAddr

-- `GroupIndex`
unfoldable pub group_index : Conn → ℕ
group_index c = to_numeric c.remote_addr

abbrev pub ConnMap : Type 0
ConnMap = List (ℕ × Conn)

-- `TcpConnectionCreator`. `active` is the flag of each connection, by index: the objects are shared.
pub record Pool : Type 0 where
  pub connections_number : ℤ
  pub connections : List (ℕ × ConnMap)
  pub active : ℕ → Bool

abbrev pub is_some : {V : Type 0} → Option V → Bool
is_some none = false
is_some (some v) = true

-- `GetConnNumber`
unfoldable pub get_conn_number : Pool → ℕ
get_conn_number p = length p.connections

abbrev set_active : (ℕ → Bool) → ℕ → Bool → ℕ → Bool
set_active f i on j = if i == j then on else f j

add_to : Pool → Conn → Option ConnMap → Outcome Pool
add_to p c (some group) = do
  assert (not (is_some (lookup c.index group)))
  ok (record p {
    connections = insert (group_index c) (insert c.index c group) p.connections;
    connections_number = p.connections_number +ℤ pos 1;
  })
add_to p c none = ok (record p {
  connections = insert (group_index c) ((c.index, c) ∷ []) p.connections;
  connections_number = p.connections_number +ℤ pos 1;
})

pub add_tcp_connection : Pool → Conn → Outcome Pool
unfolding add_to
add_tcp_connection p c = add_to p c (lookup (group_index c) p.connections)

remove_from : Pool → Conn → Option ConnMap → Outcome Pool
remove_from p c none = do assert false; ok p
remove_from p c (some group) = do
  assert (is_some (lookup c.index group))
  ok (record p {
    connections = insert (group_index c) (erase c.index group) p.connections;
    connections_number = p.connections_number -ℤ pos 1;
  })

pub remove_tcp_connection : Pool → Conn → Outcome Pool
unfolding remove_from
remove_tcp_connection p c = remove_from p c (lookup (group_index c) p.connections)

-- The order in which an unordered_map is walked is the library's: `first` is `begin()`, with `none`
-- for `end()`.
module _ (first : ConnMap → Option (ℕ × Conn)) where
  -- Following `end()` is a fault.
  take_first : Pool → Option (ℕ × Conn) → Outcome (Option Conn × Pool)
  take_first p none = fault out_of_bounds
  take_first p (some (i, c)) = do
    assert (not (p.active c.index))
    ok (some c, record p { active = set_active p.active c.index true })

  select_from : Pool → Option ConnMap → Outcome (Option Conn × Pool)
  unfolding take_first
  select_from p none = ok (none, p)
  select_from p (some group) = take_first p (first group)

  -- `SelectTcpConnection`
  pub select_tcp_connection : Pool → InetAddr → Outcome (Option Conn × Pool)
  unfolding select_from
  select_tcp_connection p addr = select_from p (lookup (to_numeric addr) p.connections)

-- `TcpConnectionCreator(NetWorker*)`
unfoldable pub empty_pool : (ℕ → Bool) → Pool
empty_pool active = record { connections_number = pos 0; connections = []; active = active }
