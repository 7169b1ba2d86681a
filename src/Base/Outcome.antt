-- ===== src/Base/Outcome.antt =====
-- What a call of the library gives: a value, or a CUDTException with its major and minor number.
-- `terminated` is the end of the program, where an exception leaves a function that is declared throw().
use Prim.Native.Nat.{ℕ}
use udt_server.Base.Int.{ℤ}

pub data Outcome (A : Type 0) : Type 0 where
  returned : A → Outcome A
  thrown : ℤ → ℕ → Outcome A
  terminated : Outcome A
