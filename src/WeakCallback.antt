-- ===== src/WeakCallback.antt =====
-- base/WeakCallback.h: the call of a member function on an object that may be gone.
use musketeer.Prelude.{Option, none, some, Outcome, ok}

-- `func(sharedPtr.get(), ...)`, where `lock` gave an object. The arguments are those that `func` was made with.
pub run_locked : {S C : Type 0} → (C → S → Outcome S) → Option C → S → Outcome S
run_locked func none s = ok s
run_locked func (some c) s = func c s

-- `WeakCallback::operator()`: `lock` tells what is left of the object, in the state at the time of the call.
unfoldable pub invoke : {S C : Type 0} → (S → Option C) → (C → S → Outcome S) → S → Outcome S
unfolding run_locked
invoke lock func s = run_locked func (lock s) s
