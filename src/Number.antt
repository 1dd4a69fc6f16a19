-- ===== src/Number.antt =====
-- The numbers of the source where they are no indices: double precision values, whose type and
-- operations are those of the run-time system and a parameter of the model.
use podlog.Base.{ℕ, Bool, Text}

pub record Number : Type 1 where
  pub Num : Type 0
  pub nat : ℕ → Num
  pub parse_float : Text → Num
  pub show : Num → Text
  -- `Math.floor(x / k)`
  pub floor_div : Num → ℕ → Num
  -- `1 / n`
  pub recip : ℕ → Num
  pub add : Num → Num → Num
  pub lt : Num → Num → Bool
  pub mul : Num → Num → Num
  pub div : Num → Num → Num
  -- `Math.log`
  pub log : Num → Num
