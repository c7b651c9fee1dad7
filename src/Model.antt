-- ===== src/Model.antt =====
-- src/model.rs: the judgment that an adapter hands over. Scores are parts per million (u32).
use r2r_jev.Prelude.{ℕ, String}

pub record JudgmentObserved : Type 0 where
  pub provider : String
  pub subject : String
  pub scope : String
  pub task : String
  pub tool : String
  pub intent : String
  pub beyond_scope_ppm : ℕ
  pub destructive_ppm : ℕ
