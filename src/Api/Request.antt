-- ===== src/Api/Request.antt =====
-- The requests: `encode`, `decode`, `jsonFetch`, `submit`, `submitBatch`, `get` and `getBatch` of
-- web/app/src/shared/api.ts. A request is a value; what the server answers is an argument.
pub mod Asked
use mathlib.Core.Option
use zero_code.Base.{
  ℕ, Bool, true, false, List, [], ◌∷◌, ◌++◌, Option, none, some, if◌then◌else◌, map, min,
}
use zero_code.Base.Text.{Text, codes}
use zero_code.Api.Config.{Client, Headers, headers, truthy}
use zero_code.Api.Poll.{Answer, ok, failed}
use zero_code.Api.Status.{Json, null, bool, num, str, arr, obj, get_member}

pub record Limits : Type 0 where
  pub cpu_time : Option ℕ
  pub wall_time : Option ℕ
  pub memory_mb : Option ℕ

-- No limit at all, where `params.limits` is undefined.
abbrev pub no_limits : Limits
no_limits = record { cpu_time = none; wall_time = none; memory_mb = none }

pub record SubmitParams : Type 0 where
  pub language_id : ℕ
  pub source_code : Text
  pub stdin : Option Text
  pub limits : Limits
  pub callback_url : Option Text
  pub idempotency_key : Option Text
  pub wait : Bool

pub record BatchSubmitParams : Type 0 where
  pub language_id : ℕ
  pub source_code : Text
  pub test_cases : List (Option Text)
  pub limits : Limits

-- The members of the body; those that are none are left out. `base64_encoded` is always true.
pub record Body : Type 0 where
  pub language_id : ℕ
  pub source_code : Text
  pub stdin : Option Text
  pub cpu_time_limit : Option ℕ
  pub wall_time_limit : Option ℕ
  pub memory_limit_mb : Option ℕ
  pub callback_url : Option Text

pub record BatchBody : Type 0 where
  pub language_id : ℕ
  pub source_code : Text
  pub test_cases : List (Option Text)
  pub cpu_time_limit : Option ℕ
  pub wall_time_limit : Option ℕ
  pub memory_limit_mb : Option ℕ

pub record Request (B : Type 0) : Type 0 where
  pub url : Text
  pub is_post : Bool
  pub headers : Headers
  pub body : Option B

-- `encode_text` is `btoa(unescape(encodeURIComponent(s)))`, `decode_text` is
-- `decodeURIComponent(escape(atob(s)))`, none where it throws, `uri` is `encodeURIComponent`.
module _ (encode_text : Text → Text) (decode_text : Text → Option Text) (uri : Text → Text)
    (c : Client) where
  abbrev pub or_empty : Option Text → Text
  or_empty none = []
  or_empty (some s) = s

  -- `encode`
  unfoldable pub encode : Option Text → Text
  encode s = encode_text (or_empty s)

  abbrev pub decoded_or : Text → Option Text → Text
  decoded_or b none = b
  decoded_or b (some s) = s

  -- `decode`
  unfoldable pub decode : Option Text → Text
  decode none = []
  decode (some b) = decoded_or b (decode_text b)

  -- `if (s) … = encode(s)`
  abbrev pub encode_if_any : Option Text → Option Text
  encode_if_any s = Option.map (λ t. encode (some t)) (truthy s)

  abbrev pub json_headers : Headers
  json_headers = headers c ((codes "Content-Type", codes "application/json") ∷ [])

  abbrev pub idempotency : Option Text → Headers
  idempotency (some (x ∷ s)) = (codes "Idempotency-Key", x ∷ s) ∷ []
  idempotency _ = []

  unfoldable pub submit : SubmitParams → Request Body
  unfolding headers encode
  submit params = record {
    url = c.base ++ codes "/v1/submissions" ++ (if params.wait then codes "?wait=true" else []);
    is_post = true;
    headers = json_headers ++ idempotency params.idempotency_key;
    body = some (record {
      language_id = params.language_id;
      source_code = encode (some params.source_code);
      stdin = encode_if_any params.stdin;
      cpu_time_limit = params.limits.cpu_time;
      wall_time_limit = params.limits.wall_time;
      memory_limit_mb = params.limits.memory_mb;
      callback_url = truthy params.callback_url;
    });
  }

  unfoldable pub submit_batch : BatchSubmitParams → Request BatchBody
  unfolding headers encode
  submit_batch params = record {
    url = c.base ++ codes "/v1/submissions/batch";
    is_post = true;
    headers = json_headers;
    body = some (record {
      language_id = params.language_id;
      source_code = encode (some params.source_code);
      test_cases = map encode_if_any params.test_cases;
      cpu_time_limit = params.limits.cpu_time;
      wall_time_limit = params.limits.wall_time;
      memory_limit_mb = params.limits.memory_mb;
    });
  }

  abbrev pub get_at : Text → Text → Request Body
  get_at path id = record {
    url = c.base ++ path ++ uri id ++ codes "?base64_encoded=true";
    is_post = false;
    headers = headers c [];
    body = none;
  }

  -- `get`
  unfoldable pub get : Text → Request Body
  unfolding headers
  get = get_at (codes "/v1/submissions/")

  -- `getBatch`
  unfoldable pub get_batch : Text → Request Body
  unfolding headers
  get_batch = get_at (codes "/v1/batches/")

pub record Response : Type 0 where
  pub ok : Bool
  pub status : Text
  pub content : Text

-- `parse` is JSON.parse, none where it throws; `stringify` is JSON.stringify, `to_text` is `String`
-- and `is_truthy` is `Boolean`.
module _ (parse : Text → Option Json) (stringify to_text : Json → Text)
    (is_truthy : Json → Bool) where
  -- `text ? JSON.parse(text) : null`, and the text itself where that throws.
  abbrev pub body_of : Text → Json
  body_of [] = null
  body_of (x ∷ s) = parsed (parse (x ∷ s))
    where
      parsed : Option Json → Json
      parsed none = str (x ∷ s)
      parsed (some j) = j

  -- `a || …`
  abbrev pub text_or : Option Json → Text → Text
  text_or none rest = rest
  text_or (some j) rest = if is_truthy j then to_text j else rest

  abbrev pub some_text : Text → Text → Text
  some_text [] rest = rest
  some_text (x ∷ s) rest = x ∷ s

  abbrev pub error_detail : Json → Text
  error_detail (str s) = s
  error_detail (obj ms) = text_or (get_member (codes "error") ms) (
      text_or (get_member (codes "message") ms)
        (some_text (stringify (obj ms)) (codes "request failed")))
  error_detail j = some_text (stringify j) (codes "request failed")

  -- `HTTP ${r.status} · ${detail}`
  abbrev pub error_message : Text → Json → Text
  error_message status body =
      codes "HTTP " ++ status ++ codes " " ++ (0xb7 ∷ []) ++ codes " " ++ error_detail body

  unfoldable pub json_fetch : Response → Answer Json
  unfolding get_member
  json_fetch r =
      if r.ok then ok (body_of r.content) else failed (error_message r.status (body_of r.content))

-- The limits that a run sends, from the sliders `timeS` and `memoryMb`: `runOnApi` of App.tsx, and
-- `runAll` of TestsPanel.tsx.
abbrev pub run_limits : ℕ → ℕ → Limits
run_limits time_s memory_mb = record {
  cpu_time = some (min time_s 30);
  wall_time = some time_s;
  memory_mb = some memory_mb;
}

abbrev pub batch_limits : ℕ → ℕ → Limits
batch_limits time_s memory_mb = record {
  cpu_time = some time_s;
  wall_time = some time_s;
  memory_mb = some memory_mb;
}
