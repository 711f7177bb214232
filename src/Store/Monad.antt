-- ===== src/Store/Monad.antt =====
-- Runs of the library's functions. A PROC is a coroutine: `proc_yield` saves its context and goes
-- back to the scheduler, so a run either ends, or faults, or stops at a yield with the rest of it.
use libproxc.Base.{ℕ, Bool, true, false, not, ◌==◌}
use libproxc.Store.Types.{State}

-- What ends the program, or is undefined in C: an ASSERT that fails, PANIC, a NULL pointer or one to
-- memory that is not allocated, a link operation on a node in the wrong place, and a recursion that
-- is deeper than the model's bound.
pub data Fault : Type 0 where
  assert_failed panicked dangling corrupt out_of_fuel : Fault

pub data Run (A : Type 0) : Type 0 where
  ret : A → State → Run A
  fault : Fault → Run A
  yielded : State → (State → Run A) → Run A

abbrev pub M : Type 0 → Type 0
M A = State → Run A

abbrev pub pure : {A : Type 0} → A → M A
pure a s = ret a s

abbrev pub fail : {A : Type 0} → Fault → M A
fail e s = fault e

abbrev pub bind_run : {A B : Type 0} → Run A → (A → M B) → Run B
bind_run (ret a s) f = f a s
bind_run (fault e) f = fault e
bind_run (yielded s k) f = yielded s (λ s'. bind_run (k s') f)

infixl 5 ◌>>=◌ ◌>>◌
abbrev pub ◌>>=◌ : {A B : Type 0} → M A → (A → M B) → M B
◌>>=◌ m f s = bind_run (m s) f

abbrev pub ◌>>◌ : {A B : Type 0} → M A → M B → M B
m >> k = m >>= λ _. k

abbrev pub get : M State
get s = ret s s

-- ASSERT of debug.h, in a build without NDEBUG.
abbrev pub assert : Bool → M (Unit {0})
assert true s = ret tt s
assert false s = fault assert_failed

-- ASSERT in a build with NDEBUG: the condition is evaluated, and that is all.
abbrev pub assert_ndebug : Bool → M (Unit {0})
assert_ndebug b s = ret tt s

abbrev pub assert_0 : ℕ → M (Unit {0})
assert_0 x = assert (x == 0)

abbrev pub assert_true : Bool → M (Unit {0})
assert_true x = assert (not (not x))

abbrev pub assert_false : Bool → M (Unit {0})
assert_false x = assert (not x)

abbrev pub assert_eq : (lhs rhs : ℕ) → M (Unit {0})
assert_eq lhs rhs = assert (lhs == rhs)

abbrev pub assert_neq : (lhs rhs : ℕ) → M (Unit {0})
assert_neq lhs rhs = assert (not (lhs == rhs))

-- PANIC
abbrev pub panic : {A : Type 0} → M A
panic = fail panicked
