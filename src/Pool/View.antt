-- ===== src/Pool/View.antt =====
-- net/TcpConnectionCreator.cpp: the two-level map as one map from a group and an index.
use musketeer.Prelude.{
  ℕ, ◌≡◌, refl, [], ◌∷◌, Option, none, some, arith, fault, assertion, Returns, if◌then◌else◌, ◌==◌,
  ◌&&◌,
}
use musketeer.Prelude.Assoc.{lookup, insert, erase, lookup-insert, lookup-erase}
use musketeer.Pool.{
  Conn, ConnMap, Pool, group_index, add_tcp_connection, remove_tcp_connection, add_to, remove_from,
}

-- The connection of group `g` with index `i`.
abbrev pub find_in : ℕ → Option ConnMap → Option Conn
find_in i none = none
find_in i (some m) = lookup i m

abbrev pub find : Pool → ℕ → ℕ → Option Conn
find p g i = find_in i (lookup g p.connections)

-- The map of a pool after `c` was put in or taken out, `v` being what is found in its place.
pub record Updates (p : Pool) (c : Conn) (v : Option Conn) (p' : Pool) : Type 0 where
  pub found :
      (g i : ℕ) → find p' g i ≡ (if (group_index c == g) && (c.index == i) then v else find p g i)
  pub actives : p'.active ≡ p.active

lookup_one : (j i : ℕ) (c : Conn) → lookup i ((j, c) ∷ []) ≡ (if j == i then some c else none)
unfolding lookup
lookup_one j i c = refl

add_to-Updates :
    (p : Pool) (c : Conn) (m : Option ConnMap)
    → lookup (group_index c) p.connections ≡ m
    → find_in c.index m ≡ none
    → Returns (Updates p c (some c)) (add_to p c m)
unfolding add_to
add_to-Updates p c none l e = record {
  found = λ g i. ground (
    arith,
    lookup-insert (group_index c) g ((c.index, c) ∷ []) p.connections,
    lookup_one c.index i c,
  );
  actives = refl;
}
add_to-Updates p c (some m) l e = rw e (record {
  found = λ g i. ground (
    arith,
    lookup-insert (group_index c) g (insert c.index c m) p.connections,
    lookup-insert c.index i c m,
  );
  actives = refl;
})

remove_from-Updates :
    (p : Pool) (c x : Conn) (m : Option ConnMap)
    → lookup (group_index c) p.connections ≡ m
    → find_in c.index m ≡ some x
    → Returns (Updates p c none) (remove_from p c m)
unfolding remove_from
remove_from-Updates p c x none l e = cc
remove_from-Updates p c x (some m) l e = rw e (record {
  found = λ g i. ground (
    arith,
    lookup-insert (group_index c) g (erase c.index m) p.connections,
    lookup-erase c.index i m,
  );
  actives = refl;
})

-- `AddTcpConnection` of a connection whose place in the pool is free returns, and then the pool
-- holds it and whatever it held before.
pub add_tcp_connection-Updates :
    (p : Pool) (c : Conn)
    → find p (group_index c) c.index ≡ none
    → Returns (Updates p c (some c)) (add_tcp_connection p c)
unfolding add_tcp_connection
add_tcp_connection-Updates p c e = add_to-Updates p c _ refl e

-- `RemoveTcpConnection` of a connection whose place in the pool is taken returns, and then the pool
-- holds what it held before but what was there.
pub remove_tcp_connection-Updates :
    (p : Pool) (c x : Conn)
    → find p (group_index c) c.index ≡ some x
    → Returns (Updates p c none) (remove_tcp_connection p c)
unfolding remove_tcp_connection
remove_tcp_connection-Updates p c x e = remove_from-Updates p c x _ refl e

-- The assertions: adding what is in the pool aborts, and so does removing what is not.
pub misuse_aborts :
    (p : Pool) (c x : Conn)
    → (find p (group_index c) c.index ≡ some x → add_tcp_connection p c ≡ fault assertion)
      × (find p (group_index c) c.index ≡ none → remove_tcp_connection p c ≡ fault assertion)
unfolding add_tcp_connection remove_tcp_connection add_to remove_from
misuse_aborts p c x = ground arith
