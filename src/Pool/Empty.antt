-- ===== src/Pool/Empty.antt =====
-- net/TcpConnectionCreator.cpp: groups are made and never erased. `GetConnNumber`, which the limits of
-- Listener and Connector are held against, counts groups.
use musketeer.Prelude.{
  ℕ, suc, ◌≡◌, refl, List, [], ◌∷◌, Option, none, some, arith, ok, fault, out_of_bounds, length,
  ==_self, ◌>>=◌, if◌then◌else◌,
}
use musketeer.Prelude.Assoc.{
  lookup, insert, erase, Distinct, weigh, weigh-insert_old, weigh-insert_new, one, lookup-insert,
}
use musketeer.InetAddr.{to_numeric}
use musketeer.Pool.{
  Conn, ConnMap, Pool, group_index, add_tcp_connection, remove_tcp_connection, add_to, remove_from,
  get_conn_number, select_tcp_connection, is_some,
}
use musketeer.Pool.Count.{Inv}

weigh-one : {V : Type 0} (m : List (ℕ × V)) → weigh one m ≡ length m
weigh-one [] = refl
weigh-one ((k, v) ∷ m) = omega (arith, weigh-one m)

length-insert_old :
    (k : ℕ) (g h : ConnMap) (m : List (ℕ × ConnMap))
    → Distinct m
    → lookup k m ≡ some h
    → length (insert k g m) ≡ length m
length-insert_old k g h m d e =
    omega (arith, weigh-insert_old one k g h m d e, weigh-one m, weigh-one (insert k g m))

removed :
    (p : Pool) (c : Conn) (g : Option ConnMap) (p' : Pool)
    → lookup (group_index c) p.connections ≡ g
    → Inv p
    → remove_from p c g ≡ ok p'
    → length p'.connections ≡ length p.connections
unfolding remove_from
removed p c none p' l v e = cc
removed p c (some g) p' l v e =
    ground (arith, length-insert_old (group_index c) (erase c.index g) g p.connections v.groups l)

added :
    (p : Pool) (c : Conn) (g : Option ConnMap) (p' : Pool)
    → lookup (group_index c) p.connections ≡ g
    → Inv p
    → add_to p c g ≡ ok p'
    → length p'.connections ≡ (
        if is_some (lookup (group_index c) p.connections)
        then length p.connections
        else suc (length p.connections))
unfolding add_to
added p c none p' l v e = rw l (
    ground (
      arith,
      weigh-insert_new one (group_index c) ((c.index, c) ∷ []) p.connections l,
      weigh-one p.connections,
      weigh-one (insert (group_index c) ((c.index, c) ∷ []) p.connections),
    ))
added p c (some g) p' l v e = rw l (
    ground
      (arith, length-insert_old (group_index c) (insert c.index c g) g p.connections v.groups l))

-- Removing a connection from a pool that meets the invariant does not change `GetConnNumber`,
-- whatever is left of its group.
pub get_conn_number-remove :
    (p : Pool) (c : Conn) (p' : Pool)
    → Inv p
    → remove_tcp_connection p c ≡ ok p'
    → get_conn_number p' ≡ get_conn_number p
unfolding get_conn_number remove_tcp_connection
get_conn_number-remove p c p' v e = removed p c _ p' refl v e

-- Adding a connection raises it by one if its group is new, and not at all otherwise.
pub get_conn_number-add :
    (p : Pool) (c : Conn) (p' : Pool)
    → Inv p
    → add_tcp_connection p c ≡ ok p'
    → get_conn_number p' ≡ (
        if is_some (lookup (group_index c) p.connections)
        then get_conn_number p
        else suc (get_conn_number p))
unfolding get_conn_number add_tcp_connection
get_conn_number-add p c p' v e = added p c _ p' refl v e

only_member : (i : ℕ) (c : Conn) → (lookup i ((i, c) ∷ []) ≡ some c) × (erase i ((i, c) ∷ []) ≡ [])
unfolding lookup erase
only_member i c = ground arith

-- Once the only connection of a group was removed, selecting from the group follows the end of an
-- empty map.
pub select_emptied :
    (first : ConnMap → Option (ℕ × Conn)) (p : Pool) (c : Conn)
    → first [] ≡ none
    → lookup (group_index c) p.connections ≡ some ((c.index, c) ∷ [])
    → (remove_tcp_connection p c >>= λ p'. select_tcp_connection first p' c.remote_addr)
      ≡ fault out_of_bounds
unfolding remove_tcp_connection select_tcp_connection group_index
select_emptied first p c f l =
    let here = only_member c.index c in
    rw (
      l,
      here.0,
      here.1,
      lookup-insert (to_numeric c.remote_addr) (to_numeric c.remote_addr) [] p.connections,
      ==_self,
      f,
    )
