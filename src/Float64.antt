-- ===== src/Float64.antt =====
-- float64 values by their bit patterns. The arithmetic of the floating-point unit and of Go's
-- `math` package is a parameter: a record of functions on bit patterns.
use plexplore.Prelude.{ℕ, Bool}

abbrev pub Float64 : Type 0
Float64 = ℕ

pub record FloatOps : Type 0 where
  pub add : Float64 → Float64 → Float64
  pub sub : Float64 → Float64 → Float64
  pub mul : Float64 → Float64 → Float64
  pub div : Float64 → Float64 → Float64
  pub le : Float64 → Float64 → Bool
  pub lt : Float64 → Float64 → Bool
  pub eq : Float64 → Float64 → Bool
  pub sin : Float64 → Float64
  pub cos : Float64 → Float64
  pub sqrt : Float64 → Float64
  pub atan2 : Float64 → Float64 → Float64
  pub pow : Float64 → Float64 → Float64
  pub round : Float64 → Float64
  pub pi : Float64
  -- `float64(n)` for an integer
  pub of_ℕ : ℕ → Float64
