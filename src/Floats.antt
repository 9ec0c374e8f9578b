-- ===== src/Floats.antt =====
-- The arithmetic of float64, which is an interface: what is proved holds for every rounding.
use plugins_improve.Prelude.{ℤ, Bool}

pub record Float64 : Type 1 where
  pub F : Type 0
  pub of_int : ℤ → F
  pub to_int : F → ℤ
  pub add : F → F → F
  pub sub : F → F → F
  pub mul : F → F → F
  pub div : F → F → F
  pub less : F → F → Bool
