-- ===== src/Panel/Run/Verdict.antt =====
-- When a case passes.
use zero_code.Base.{◌≡◌, ◌≢◌, ◌↔◌, true, [], some, arith}
use zero_code.Base.Text.{Text}
use zero_code.Api.Status.{StatusKind, accepted}
use zero_code.Panel.Compare.{ComparisonMode, compare}
use zero_code.Panel.Cases.{pass}
use zero_code.Panel.Run.{judge}

module _ (mode : ComparisonMode) (kind : StatusKind) where
  -- A case passes exactly when its submission was accepted, it has an expected output, and the
  -- output compares equal to it.
  pub judge-pass :
      (out expected : Text)
      → (judge mode kind out expected ≡ some pass)
        ↔ ((kind ≡ accepted) × (expected ≢ []) × (compare out expected mode ≡ true))
  unfolding judge
  judge-pass out expected = ground arith
