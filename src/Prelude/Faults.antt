-- ===== src/Prelude/Faults.antt =====
-- How a call of the program ends: normally, or by one of the ways in which it stops or goes wrong.
use mathlib.Core.Path.{◌≡◌, refl}
use mathlib.Core.Bool.{Bool, true, false}

-- `assertion` is a failed `assert` (the build does not define NDEBUG), `out_of_bounds` an access
-- outside the storage or past the end of a container, `divide_by_zero` an integer division by zero,
-- `empty_call` the call of an empty `std::function`, `length_error` the exception of a container
-- that would grow past its `max_size()`, `aborted` a call of `std::abort`,
-- `dangling` the use of an object that is gone, or of none at all.
pub data Fault : Type 0 where
  assertion out_of_bounds divide_by_zero empty_call length_error aborted dangling : Fault

pub data Outcome {ℓ} (A : Type ℓ) : Type ℓ where
  ok : A → Outcome A
  fault : Fault → Outcome A

-- A test that stops the call.
abbrev pub guard : Bool → Fault → Outcome (Unit {0})
guard false e = fault e
guard true e = ok tt

-- `assert(b)`
abbrev pub assert : Bool → Outcome (Unit {0})
assert b = guard b assertion

-- What follows a call is run only if it ends normally.
infixl 5 ◌>>=◌ ◌>>◌
abbrev pub ◌>>=◌ {ℓ κ} : {A : Type ℓ} {B : Type κ} → Outcome A → (A → Outcome B) → Outcome B
fault e >>= next = fault e
ok a >>= next = next a

-- The call ends normally, and the property holds of its value.
abbrev pub Returns : {A : Type 0} → (A → Type 0) → Outcome A → Type 0
Returns P (ok a) = P a
Returns P (fault e) = ⊥

pub Returns-mono :
    {A : Type 0} (P Q : A → Type 0) (m : Outcome A)
    → ((x : A) → P x → Q x)
    → Returns P m
    → Returns Q m
Returns-mono P Q (ok x) f h = f x h
Returns-mono P Q (fault e) f h = h

abbrev pub ◌>>◌ {κ} : {B : Type κ} → Outcome (Unit {0}) → Outcome B → Outcome B
ok u >> k = k
fault e >> k = fault e

-- The value of a call that ends normally.
pub Returns-value :
    {A : Type 0} (P : A → Type 0) (m : Outcome A) → Returns P m → (x : A) × (m ≡ ok x) × P x
Returns-value P (ok x) h = (x, refl, h)
Returns-value P (fault e) h = absurd h

-- Both parts of a sequence that ends normally did.
pub >>=-eq-ok {ℓ κ} :
    {B : Type κ} {A : Type ℓ} (m : Outcome A) (next : A → Outcome B) {b : B}
    → (m >>= next) ≡ ok b
    → (a : A) × (m ≡ ok a) × (next a ≡ ok b)
>>=-eq-ok (fault e) next both = cc
>>=-eq-ok (ok a) next both = (a, refl, both)

pub >>=-ok {ℓ} : {A : Type ℓ} (m : Outcome A) → (m >>= ok) ≡ m
>>=-ok (ok a) = refl
>>=-ok (fault e) = refl

-- What follows a call may use that the call returned.
pub >>=-cong {ℓ κ} :
    {B : Type κ} {A : Type ℓ} (m : Outcome A) (k l : A → Outcome B)
    → ((a : A) → m ≡ ok a → k a ≡ l a)
    → (m >>= k) ≡ (m >>= l)
>>=-cong (ok a) k l same = same a refl
>>=-cong (fault e) k l same = refl

-- An assertion that did not stop the call.
pub assert-ok {κ} :
    {B : Type κ} (b : Bool) (m : Outcome B) {x : B}
    → (assert b >> m) ≡ ok x
    → (b ≡ true) × (m ≡ ok x)
assert-ok true m e = (refl, e)
assert-ok false m e = cc
