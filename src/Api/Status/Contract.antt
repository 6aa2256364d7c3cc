-- ===== src/Api/Status/Contract.antt =====
-- The server's side of the status contract, `Status` of crates/zerocode-core/src/status.rs, and
-- what the client makes of it.
use zero_code.Base.{◌≡◌, refl, Bool, true, false, not, Option}
use zero_code.Base.Text.{Text, codes, text_eq}
use zero_code.Api.Status.{StatusKind, Json, object, switch_kind, status_kind}

-- The variants of `Status`; what a variant carries goes to the `detail` of the message.
pub data ServerStatus : Type 0 where
  queued processing accepted time_limit_exceeded compile_error memory_limit_exceeded : ServerStatus
  output_limit_exceeded runtime_error non_zero_exit sandbox_failure internal_error : ServerStatus
  cancelled expired : ServerStatus

abbrev pub is_terminal : ServerStatus → Bool
is_terminal ServerStatus.queued = false
is_terminal ServerStatus.processing = false
is_terminal _ = true

unfoldable pub kind : ServerStatus → Text
kind ServerStatus.queued = codes "queued"
kind ServerStatus.processing = codes "processing"
kind accepted = codes "accepted"
kind time_limit_exceeded = codes "time_limit_exceeded"
kind compile_error = codes "compile_error"
kind memory_limit_exceeded = codes "memory_limit_exceeded"
kind output_limit_exceeded = codes "output_limit_exceeded"
kind runtime_error = codes "runtime_error"
kind non_zero_exit = codes "non_zero_exit"
kind sandbox_failure = codes "sandbox_failure"
kind internal_error = codes "internal_error"
kind cancelled = codes "cancelled"
kind expired = codes "expired"

-- What the client waits on: the test in `poll` and in `applyView`.
abbrev pub is_pending : StatusKind → Bool
is_pending StatusKind.queued = true
is_pending StatusKind.processing = true
is_pending _ = false

module _ (to_lower : Text → Text) where
  -- The client takes a status for pending exactly when the server has not ended the submission.
  pub is_pending-status_kind :
      (s : ServerStatus) (detail : Option Json)
      → is_pending (status_kind to_lower (object (kind s) detail)) ≡ not (is_terminal s)
  unfolding status_kind switch_kind kind text_eq
  is_pending-status_kind ServerStatus.queued detail = refl
  is_pending-status_kind _ detail = refl
