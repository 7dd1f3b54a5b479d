-- ===== src/Connector/Counting.antt =====
-- net/Connector.cpp: how often a callback is called, and how often a state keeps it.
use mathlib.Core.Path.{subst}
use musketeer.Prelude.{
  ℕ, ◌+◌, ◌≡◌, sym, ap, false, List, Option, some, none, ◌∷◌, [], ◌++◌, arith, Bool-cases, inl, inr,
  ◌==◌, if◌then◌else◌,
}
use musketeer.Prelude.Assoc.{
  insert, lookup, Distinct, Distinct-insert, lookup-insert, weigh, weigh-insert_new,
  weigh-insert_old,
}
use musketeer.Pool.{Conn}
use musketeer.Connector.{Connector, ConnectState, get_fd}

-- One, where the callback is the one that is counted.
abbrev pub one_if : ℕ → ℕ → ℕ
one_if cb x = if x == cb then 1 else 0

-- How often a callback was called, is kept by the states that wait, and was given to `Connect`.
abbrev pub told : ℕ → List (ℕ × Option Conn) → ℕ
told cb [] = 0
told cb ((x, conn) ∷ ks) = one_if cb x + told cb ks

abbrev pub waiting : ℕ → List (ℕ × ConnectState) → ℕ
waiting cb = weigh (λ st. one_if cb st.callback)

-- A state that stands under `n` in the map.
pub record Waits (n : ℕ) (st : ConnectState) : Type 0 where
  pub under : st.chan.fd ≡ n
  pub placed : get_fd st.socket ≡ n
  pub first : st.retries ≡ 0
  pub working : st.finalised ≡ false

pub record Kept (c : Connector) : Type 0 where
  pub distinct : Distinct c.ongoing
  pub states : (n : ℕ) (st : ConnectState) → lookup n c.ongoing ≡ some st → Waits n st

pub told-append :
    (cb x : ℕ) (conn : Option Conn) (ks : List (ℕ × Option Conn))
    → told cb (ks ++ (x, conn) ∷ []) ≡ told cb ks + one_if cb x
told-append cb x conn [] = omega arith
told-append cb x conn ((y, k) ∷ ks) = omega (arith, told-append cb x conn ks)

-- The callback is called, or waits, as often as it was before and was asked for.
pub record Counts (cb more : ℕ) (c c' : Connector) : Type 0 where
  pub kept : Kept c'
  pub counted :
      told cb c'.calls + waiting cb c'.ongoing ≡ told cb c.calls + waiting cb c.ongoing + more

-- The application is called at once.
pub refused-Counts :
    (cb x : ℕ) (c c' : Connector)
    → Kept c
    → c'.calls ≡ c.calls ++ (x, none) ∷ []
    → c'.ongoing ≡ c.ongoing
    → Counts cb (one_if cb x) c c'
refused-Counts cb x c c' k calls same = record {
  kept = record {
    distinct = subst Distinct (sym same) k.distinct;
    states = λ m st h. k.states m st (ground (arith, h, same));
  };
  counted = omega (arith, ap (told cb) calls, told-append cb x none c.calls, ap (waiting cb) same);
}

-- A new state stands in the map.
pub new_state-Counts :
    (cb x n : ℕ) (st : ConnectState) (c c' : Connector)
    → Kept c
    → Waits n st
    → st.callback ≡ x
    → lookup n c.ongoing ≡ none
    → c'.calls ≡ c.calls
    → c'.ongoing ≡ insert n st (insert n st c.ongoing)
    → Counts cb (one_if cb x) c c'
new_state-Counts cb x n st c c' k w own free calls now =
    let m = insert n st c.ongoing in
    let d = Distinct-insert n st c.ongoing k.distinct in
    let f : ConnectState → ℕ = λ y. one_if cb y.callback in
    let here : lookup n m ≡ some st = ground (arith, lookup-insert n n st c.ongoing) in
    record {
      kept = record {
        distinct = subst Distinct (sym now) (Distinct-insert n st m d);
        states = λ j st' h. elim (Bool-cases (n == j)) [
          | inl same ↦
              let as_new : st ≡ st' = ground (arith, h, now, same, lookup-insert n j st m) in
              let place : n ≡ j = ground (arith, same) in
              subst (Waits j) as_new (subst (λ i. Waits i st) place w)
          | inr other ↦ k.states j st' (
              ground (arith, h, now, other, lookup-insert n j st m, lookup-insert n j st c.ongoing))
        ];
      };
      counted = omega (
        arith,
        ap (told cb) calls,
        ap (waiting cb) now,
        ap (one_if cb) own,
        weigh-insert_new f n st c.ongoing free,
        weigh-insert_old f n st st m d here,
      );
    }
