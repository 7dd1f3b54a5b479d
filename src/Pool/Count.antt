-- ===== src/Pool/Count.antt =====
-- net/TcpConnectionCreator.cpp: `connectionsNumber` is the number of connections in the pool.
use musketeer.Prelude.{
  ℕ, ◌≡◌, refl, List, [], ◌∷◌, Option, none, some, arith, Outcome, ok, Bool, true, Bool-cases, inl,
  inr, ◌>>=◌, >>=-eq-ok,
}
use musketeer.Prelude.Int.{pos, ◌+ℤ◌, ◌-ℤ◌}
use musketeer.Prelude.Assoc.{
  lookup, insert, erase, Distinct, Distinct-insert, Distinct-erase, weigh, weigh-erase,
  weigh-insert_new, weigh-insert_old, one,
}
use musketeer.Pool.{
  Conn, ConnMap, Pool, group_index, add_tcp_connection, remove_tcp_connection, add_to, remove_from,
  empty_pool, is_some,
}

-- The connections of a group, and of a list of groups.
abbrev pub size : ConnMap → ℕ
size = weigh one

abbrev pub total : List (ℕ × ConnMap) → ℕ
total = weigh size

abbrev pub AllDistinct : List (ℕ × ConnMap) → Type 0
AllDistinct [] = Unit
AllDistinct ((k, g) ∷ m) = Distinct g × AllDistinct m

pub record Inv (p : Pool) : Type 0 where
  pub counted : p.connections_number ≡ pos (total p.connections)
  pub groups : Distinct p.connections
  pub members : AllDistinct p.connections

pub Distinct-of_lookup :
    (k : ℕ) (g : ConnMap) (m : List (ℕ × ConnMap))
    → AllDistinct m
    → lookup k m ≡ some g
    → Distinct g
unfolding lookup
Distinct-of_lookup k g [] d e = cc
Distinct-of_lookup k g ((j, h) ∷ m) d e = ground (arith, Distinct-of_lookup k g m d.1)

AllDistinct-erase : (k : ℕ) (m : List (ℕ × ConnMap)) → AllDistinct m → AllDistinct (erase k m)
unfolding erase
AllDistinct-erase k [] d = tt
AllDistinct-erase k ((j, h) ∷ m) d = ground (arith, AllDistinct-erase k m d.1)

AllDistinct-insert :
    (k : ℕ) (g : ConnMap) (m : List (ℕ × ConnMap))
    → Distinct g
    → AllDistinct m
    → AllDistinct (insert k g m)
unfolding insert
AllDistinct-insert k g m h d = (h, AllDistinct-erase k m d)

add_to-Inv :
    (p : Pool) (c : Conn) (g : Option ConnMap) (p' : Pool)
    → lookup (group_index c) p.connections ≡ g
    → Inv p
    → add_to p c g ≡ ok p'
    → Inv p'
unfolding add_to ◌+ℤ◌ lookup
add_to-Inv p c none p' l v e = ground (
  arith,
  v.counted,
  v.groups,
  v.members,
  Distinct-insert (group_index c) ((c.index, c) ∷ []) p.connections,
  AllDistinct-insert (group_index c) ((c.index, c) ∷ []) p.connections,
  weigh-insert_new size (group_index c) ((c.index, c) ∷ []) p.connections,
)
add_to-Inv p c (some g) p' l v e =
    let dg = Distinct-of_lookup (group_index c) g p.connections v.members l in
    ground (
      arith,
      v.counted,
      v.groups,
      v.members,
      dg,
      Distinct-insert c.index c g dg,
      Distinct-insert (group_index c) (insert c.index c g) p.connections,
      AllDistinct-insert (group_index c) (insert c.index c g) p.connections,
      weigh-insert_new one c.index c g,
      weigh-insert_old size (group_index c) (insert c.index c g) g p.connections v.groups l,
    )

some_of_is_some : {V : Type 0} (o : Option V) → is_some o ≡ true → (x : V) × (o ≡ some x)
some_of_is_some none h = cc
some_of_is_some (some x) h = (x, refl)

remove_from-Inv :
    (p : Pool) (c : Conn) (g : Option ConnMap) (p' : Pool)
    → lookup (group_index c) p.connections ≡ g
    → Inv p
    → remove_from p c g ≡ ok p'
    → Inv p'
unfolding remove_from ◌-ℤ◌
remove_from-Inv p c none p' l v e = cc
remove_from-Inv p c (some g) p' l v e =
    let dg = Distinct-of_lookup (group_index c) g p.connections v.members l in
    elim (Bool-cases (is_some (lookup c.index g))) [
      | inl there ↦
          let (x, ex) = some_of_is_some (lookup c.index g) there in
          ground (
            arith,
            v.counted,
            v.groups,
            v.members,
            Distinct-erase c.index g dg,
            Distinct-insert (group_index c) (erase c.index g) p.connections,
            AllDistinct-insert (group_index c) (erase c.index g) p.connections,
            weigh-erase one c.index x g dg ex,
            weigh-insert_old size (group_index c) (erase c.index g) g p.connections v.groups l,
          )
      | inr gone ↦ absurd (ground arith)
    ]

-- Adding and removing keep `connectionsNumber` equal to the number of connections in all groups, and
-- every connection in the pool once.
pub add_tcp_connection-Inv :
    (p : Pool) (c : Conn) (p' : Pool) → Inv p → add_tcp_connection p c ≡ ok p' → Inv p'
unfolding add_tcp_connection
add_tcp_connection-Inv p c p' v e = add_to-Inv p c _ p' refl v e

pub remove_tcp_connection-Inv :
    (p : Pool) (c : Conn) (p' : Pool) → Inv p → remove_tcp_connection p c ≡ ok p' → Inv p'
unfolding remove_tcp_connection
remove_tcp_connection-Inv p c p' v e = remove_from-Inv p c _ p' refl v e

-- A history of the pool.
pub data Change : Type 0 where
  adds removes : Conn → Change

unfoldable pub change : Pool → Change → Outcome Pool
change p (adds c) = add_tcp_connection p c
change p (removes c) = remove_tcp_connection p c

unfoldable pub change_all : Pool → List Change → Outcome Pool
unfolding change
change_all p [] = ok p
change_all p (x ∷ xs) = do p' ← change p x; change_all p' xs

change_all-Inv : (xs : List Change) (p p' : Pool) → Inv p → change_all p xs ≡ ok p' → Inv p'
unfolding change_all
change_all-Inv [] p p' v e = ground (arith, v.counted, v.groups, v.members)
change_all-Inv (adds c ∷ xs) p p' v e =
    let (m, em, rest) = >>=-eq-ok (add_tcp_connection p c) (λ m. change_all m xs) e in
    change_all-Inv xs m p' (add_tcp_connection-Inv p c m v em) rest
change_all-Inv (removes c ∷ xs) p p' v e =
    let (m, em, rest) = >>=-eq-ok (remove_tcp_connection p c) (λ m. change_all m xs) e in
    change_all-Inv xs m p' (remove_tcp_connection-Inv p c m v em) rest

-- After any history of additions and removals that ends normally, from an empty pool,
-- `connectionsNumber` is the number of connections in the pool, and no group and no index in a
-- group stands twice.
pub change_all-counted :
    (xs : List Change) (active : ℕ → Bool) (p : Pool)
    → change_all (empty_pool active) xs ≡ ok p
    → Inv p
unfolding empty_pool
change_all-counted xs active p e =
    change_all-Inv xs _ p (record { counted = refl; groups = tt; members = tt }) e
