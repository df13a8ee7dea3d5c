-- ===== src/Prelude/Result.antt =====
-- How an operation of the C++ code ends: with a value, or in one of the faults that stop the
-- process. `assert` is active in every file, since base/debug.h includes <assert.h> and no build
-- file defines NDEBUG.
use mathlib.Core.Bool.{Bool, true, false}
use mathlib.Core.Option.{Option, none, some}

-- `assertion` is a failed `assert`; `length_error` is what `std::vector` throws for a size above
-- its `max_size`; `invalid_access` is a read or write through a null pointer, a freed object or an
-- index out of range; `overflow` is a signed integer that gets too
-- large, which is undefined; `aborted` is the end of the process by LOG_FATAL or LOG_SYSFATAL.
pub data Fault : Type 0 where
  assertion length_error invalid_access overflow aborted : Fault

pub data Result {ℓ} (A : Type ℓ) : Type ℓ where
  ok : A → Result A
  err : Fault → Result A

infixl 5 ◌>>=◌ ◌>>◌
abbrev pub ◌>>=◌ {ℓ κ} : {A : Type ℓ} {B : Type κ} (r : Result A) (next : A → Result B) → Result B
err fault >>= next = err fault
ok value >>= next = next value

abbrev pub ◌>>◌ {ℓ} : {B : Type ℓ} (r : Result (Unit {0})) (next : Result B) → Result B
r >> next = r >>= λ done. next

-- `assert(b)`
abbrev pub check : Bool → Result (Unit {0})
check true = ok tt
check false = err assertion

-- A use of what has to be there.
abbrev pub need {ℓ} : {A : Type ℓ} → Option A → Result A
need none = err invalid_access
need (some a) = ok a
