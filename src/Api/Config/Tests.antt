-- ===== src/Api/Config/Tests.antt =====
-- The theorems about the configuration and the requests at a concrete page.
use zero_code.Base.{Bool, ◌≡◌, refl, true, false, Option, none, some, [], ◌∷◌}
use zero_code.Base.Text.{Text, codes, text_eq}
use zero_code.Api.Config.{Page, Storage, Client, default, read_config, probe}
use zero_code.Api.Config.Cache.{IsCurrent, base, ask, forget, calls, calls-IsCurrent}
use zero_code.Api.Request.{SubmitParams, BatchSubmitParams, no_limits}

abbrev page : Page
page = record {
  query_api = none;
  query_key = none;
  meta = none;
  location = some (record {
    protocol = codes "http:";
    origin = codes "http://localhost:5173";
    hostname = codes "localhost";
  });
}

abbrev empty_storage : Storage
empty_storage = record { readable = true; writable = true; base = none; key = none }

abbrev client : Client
client = record {
  storage = empty_storage;
  base = codes "http://localhost:5173";
  key = none;
  base_source = default;
  probe_cache = none;
}

-- Only the port of the service answers.
abbrev health : Text → Option Text
unfolding text_eq
health b = answer (text_eq b (codes "http://localhost:8080"))
  where
    answer : Bool → Option Text
    answer true = none
    answer false = some (codes "Failed to fetch")

abbrev with_key : Text → Bool
with_key b = true

probe_falls_back : (probe health with_key page client).base ≡ codes "http://localhost:8080"
unfolding probe text_eq
probe_falls_back = refl

read_base : read_config page empty_storage ≡ client
unfolding read_config text_eq
read_base = refl

calls-IsCurrent_example : IsCurrent (
    calls page
      (ask health with_key ∷ base (some (codes "http://api/")) ∷ ask health with_key ∷ forget ∷ [])
      client)
calls-IsCurrent_example =
    calls-IsCurrent page
      (ask health with_key ∷ base (some (codes "http://api/")) ∷ ask health with_key ∷ forget ∷ [])
      client (λ r e. cc)

abbrev same_text : Text → Text
same_text s = s

abbrev params : SubmitParams
params = record {
  language_id = 73;
  source_code = codes "fn main() {}";
  stdin = none;
  limits = no_limits;
  callback_url = none;
  idempotency_key = none;
  wait = false;
}

abbrev batch : BatchSubmitParams
batch = record {
  language_id = 73;
  source_code = codes "fn main() {}";
  test_cases = some (codes "7") ∷ [];
  limits = no_limits;
}
