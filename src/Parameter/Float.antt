-- ===== src/Parameter/Float.antt =====
-- `f64`. Its arithmetic is the processor's, so the type and the operations that the parameters use
-- are an argument of the model.
use ros2_rust.Prelude.{Bool}

pub record Float (F : Type 0) : Type 0 where
  pub lt : F → F → Bool
  pub le : F → F → Bool
  pub sub : F → F → F
  pub add : F → F → F
  pub mul : F → F → F
  pub div : F → F → F
  pub abs : F → F
  pub round : F → F
  -- `f64::default()`, which is 0.0
  pub zero : F
  -- `f64::EPSILON`
  pub epsilon : F
  -- the literal 100.0
  pub hundred : F
  pub neg_infinity : F
  pub infinity : F
