-- ===== src/Pool/Tests.antt =====
-- A pool of two connections to one address.
use musketeer.Prelude.{
  ℕ, ◌≡◌, refl, Bool, false, [], ◌∷◌, Option, none, some, ok, fault, out_of_bounds, Returns, ◌>>=◌,
}
use musketeer.Prelude.Int.{pos, ◌+ℤ◌, ◌-ℤ◌}
use musketeer.Prelude.Assoc.{lookup, insert, erase}
use musketeer.InetAddr.{InetAddr, to_numeric}
use musketeer.Pool.{
  Conn, ConnMap, Pool, group_index, add_tcp_connection, remove_tcp_connection, get_conn_number,
  select_tcp_connection, empty_pool,
}
use musketeer.Pool.Count.{Inv, adds, change_all, change_all-counted}
use musketeer.Pool.View.{Updates, add_tcp_connection-Updates, remove_tcp_connection-Updates}
use musketeer.Pool.Empty.{get_conn_number-remove, get_conn_number-add, select_emptied}

abbrev near : InetAddr
near = record { s_addr = 1; sin_port = 2 }

abbrev first_conn : Conn
first_conn = record { index = 10; remote_addr = near }

abbrev second_conn : Conn
second_conn = record { index = 11; remote_addr = near }

abbrev idle_flags : ℕ → Bool
idle_flags i = false

abbrev one_member : Pool
one_member = record {
  connections_number = pos 1;
  connections = (65538, (10, first_conn) ∷ []) ∷ [];
  active = idle_flags;
}

abbrev two_members : Pool
two_members = record {
  connections_number = pos 2;
  connections = (65538, (11, second_conn) ∷ (10, first_conn) ∷ []) ∷ [];
  active = idle_flags;
}

two_added :
    change_all (empty_pool idle_flags) (adds first_conn ∷ adds second_conn ∷ []) ≡ ok two_members
unfolding change_all empty_pool add_tcp_connection group_index to_numeric lookup insert erase ◌+ℤ◌
two_added = refl

second_added : add_tcp_connection one_member second_conn ≡ ok two_members
unfolding add_tcp_connection group_index to_numeric lookup insert erase ◌+ℤ◌
second_added = refl

one_member-Inv : Inv one_member
unfolding lookup
one_member-Inv = record { counted = refl; groups = (refl, tt); members = ((refl, tt), tt) }

emptied :
    remove_tcp_connection one_member first_conn
    ≡ ok
        (record { connections_number = pos 0; connections = (65538, []) ∷ []; active = idle_flags })
unfolding remove_tcp_connection group_index to_numeric lookup insert erase ◌-ℤ◌
emptied = refl

change_all-counted_example : Inv two_members
change_all-counted_example =
    change_all-counted (adds first_conn ∷ adds second_conn ∷ []) idle_flags two_members two_added

add_tcp_connection-Updates_example :
    Returns
      (Updates one_member second_conn (some second_conn))
      (add_tcp_connection one_member second_conn)
unfolding lookup group_index to_numeric
add_tcp_connection-Updates_example = add_tcp_connection-Updates one_member second_conn refl

remove_tcp_connection-Updates_example :
    Returns (Updates two_members first_conn none) (remove_tcp_connection two_members first_conn)
unfolding lookup group_index to_numeric
remove_tcp_connection-Updates_example =
    remove_tcp_connection-Updates two_members first_conn first_conn refl

get_conn_number-remove_example :
    get_conn_number
      (record { connections_number = pos 0; connections = (65538, []) ∷ []; active = idle_flags })
    ≡ get_conn_number one_member
get_conn_number-remove_example =
    get_conn_number-remove one_member first_conn _ one_member-Inv emptied

get_conn_number-add_example : get_conn_number two_members ≡ get_conn_number one_member
unfolding lookup group_index to_numeric
get_conn_number-add_example =
    get_conn_number-add one_member second_conn two_members one_member-Inv second_added

abbrev walk : ConnMap → Option (ℕ × Conn)
walk [] = none
walk (x ∷ m) = some x

select_emptied_example :
    (remove_tcp_connection one_member first_conn >>= λ p'.
    select_tcp_connection walk p' first_conn.remote_addr)
    ≡ fault out_of_bounds
unfolding lookup group_index to_numeric
select_emptied_example = select_emptied walk one_member first_conn refl refl
