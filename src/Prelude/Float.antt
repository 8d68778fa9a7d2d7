-- ===== src/Prelude/Float.antt =====
-- Go's float64: a type with the operations that the gateway uses. The development takes it as a
-- parameter, with the few laws that a proof needs.
use Prim.Native.Nat.{ℕ}
use mathlib.Core.Path.{◌≡◌}
use mathlib.Core.Bool.{Bool, true, false}
use high_performance_llm_gat.Prelude.Int.{ℤ}

pub record Float (F : Type 0) : Type 0 where
  pub zero : F
  pub of_nat : ℕ → F
  pub of_int : ℤ → F
  pub add : F → F → F
  pub mul : F → F → F
  pub div : F → F → F
  pub sqrt : F → F
  pub lt : F → F → Bool
  pub le : F → F → Bool
  pub eq : F → F → Bool

-- `<` is irreflexive and transitive, also where a number is infinite or is not a number.
pub record IsStrict {F : Type 0} (fl : Float F) : Type 0 where
  pub irrefl : (a : F) → fl.lt a a ≡ false
  pub trans : (a b c : F) → fl.lt a b ≡ true → fl.lt b c ≡ true → fl.lt a c ≡ true
