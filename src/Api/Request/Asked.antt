-- ===== src/Api/Request/Asked.antt =====
-- What a request carries.
use zero_code.Base.{ℕ, ◌↔◌, ◌≤◌, Option, none, some, arith}
use zero_code.Base.Text.{Text}
use zero_code.Api.Config.{Client}
use zero_code.Api.Request.{
  SubmitParams, BatchSubmitParams, Body, BatchBody, submit, submit_batch, run_limits, batch_limits,
}

-- The processor time that a request asks for.
abbrev pub asked_cpu : Option Body → Option ℕ
asked_cpu none = none
asked_cpu (some b) = b.cpu_time_limit

abbrev pub asked_batch_cpu : Option BatchBody → Option ℕ
asked_batch_cpu none = none
asked_batch_cpu (some b) = b.cpu_time_limit

abbrev pub AtMost : ℕ → Option ℕ → Type 0
AtMost n none = Unit
AtMost n (some m) = m ≤ n

module _ (encode_text : Text → Text) (decode_text : Text → Option Text) (uri : Text → Text)
    (c : Client) where
  -- A single run never asks for more than 30 seconds of processor time; a batch asks for what the
  -- slider says, so it asks for more exactly when the slider is above 30.
  pub submit-run_limits :
      (params : SubmitParams) (batch : BatchSubmitParams) (time_s memory_mb : ℕ)
      → AtMost 30 (
          asked_cpu
            (submit encode_text decode_text uri c
              (record params { limits = run_limits time_s memory_mb })).body)
        × (AtMost 30 (
              asked_batch_cpu
                (submit_batch encode_text decode_text uri c
                  (record batch { limits = batch_limits time_s memory_mb })).body)
            ↔ (time_s ≤ 30))
  unfolding submit submit_batch
  submit-run_limits params batch time_s memory_mb = (omega arith, (λ h. h, λ h. h))
