-- ===== src/App/Link/Tests.antt =====
-- A link at a concrete session.
use zero_code.Base.{ℕ, suc, zero, ◌≡◌, ◌≢◌, refl, ap, Bool, true, List, [], ◌∷◌, Option, none, some}
use zero_code.Base.Text.{Text, codes}
use zero_code.Api.Status.{idle}
use zero_code.Catalog.{langs}
use zero_code.Catalog.Core.{rust_entry}
use zero_code.Catalog.Pick.{rust_entry-Mem}
use zero_code.App.Run.{View, start}
use zero_code.App.Session.{Session}
use zero_code.App.Draft.{Codec, Storage, load_history}
use zero_code.App.Link.{UrlParams, Base64, throws, read_share_hash, copy_share_link, open_page}
use zero_code.App.Link.Reopened.{value_of, IsUrlParams, IsBase64, open_page-copy_share_link}

-- The parameters with a zero behind each key and each value, and each code of these one higher.
abbrev shifted : Text → Text → Text
shifted [] rest = 0 ∷ rest
shifted (c ∷ t) rest = suc c ∷ shifted t rest

abbrev to_string : List (Text × Text) → Text
to_string [] = []
to_string ((k, v) ∷ ps) = shifted k (shifted v (to_string ps))

abbrev in_front : ℕ → List Text → List Text
in_front c [] = []
in_front c (p ∷ ps) = (c ∷ p) ∷ ps

abbrev pieces : Text → List Text
pieces [] = [] ∷ []
pieces (zero ∷ t) = [] ∷ pieces t
pieces (suc c ∷ t) = in_front c (pieces t)

abbrev pairs : List Text → List (Text × Text)
pairs [] = []
pairs (k ∷ []) = []
pairs (k ∷ v ∷ ps) = (k, v) ∷ pairs ps

pieces-shifted : (t rest : Text) → pieces (shifted t rest) ≡ t ∷ pieces rest
pieces-shifted [] rest = refl
pieces-shifted (c ∷ t) rest = ap (in_front c) (pieces-shifted t rest)

pairs-to_string : (ps : List (Text × Text)) → pairs (pieces (to_string ps)) ≡ ps
pairs-to_string [] = refl
pairs-to_string ((k, v) ∷ ps) =
    rw (pieces-shifted k (shifted v (to_string ps)), pieces-shifted v (to_string ps))
      (ap (◌∷◌ (k, v)) (pairs-to_string ps))

shifted-not_empty : (t rest : Text) → shifted t rest ≢ []
shifted-not_empty [] rest e = cc
shifted-not_empty (c ∷ t) rest e = cc

to_string-not_empty : (ps : List (Text × Text)) → ps ≢ [] → to_string ps ≢ []
to_string-not_empty [] h = absurd (h refl)
to_string-not_empty ((k, v) ∷ ps) h = shifted-not_empty k (shifted v (to_string ps))

abbrev params : UrlParams
params = record { to_string = to_string; get = λ q k. value_of k (pairs (pieces q)) }

params-IsUrlParams : IsUrlParams params
params-IsUrlParams = record {
  not_empty = to_string-not_empty;
  get_written = λ k ps d. ap (value_of k) (pairs-to_string ps);
}

abbrev unmarked : Text → Option Text
unmarked [] = none
unmarked (c ∷ s) = some s

abbrev base64 : Base64
base64 = record { encode = ◌∷◌ b'='; decode = unmarked }

base64-IsBase64 : IsBase64 base64
base64-IsBase64 = record { encode_not_empty = λ s h e. cc; decode_encode = λ s. refl }

abbrev no_decoder : Base64
no_decoder = record { encode = λ s. s; decode = λ s. none }

abbrev codec : Codec
codec = record {
  draft_text = λ d. codes "draft";
  parse_draft = λ t. none;
  history_text = λ h. codes "history";
  parse_history = λ t. none;
}

abbrev storage : Storage
storage = record { state = some (codes "draft"); history = none; readable = true; writable = true }

abbrev view : View
view = record {
  status = idle;
  status_detail = none;
  output = [];
  stderr = [];
  compile_output = [];
  metrics = record { time = none; memory = none; exit_code = none; signal = none };
  token = codes "zc_1";
  history = [];
  error = none;
}

abbrev session : Session
unfolding start
session = record {
  lang = rust_entry;
  code = codes "fn main() {}";
  stdin = [];
  limits = record { memory_mb = 64; time_s = 2 };
  run = start view;
}

abbrev as_listed : Text → Text → Bool
as_listed a b = true

abbrev digit : ℕ → Text
digit n = n ∷ []

-- A link whose code is no base64 is an exception of the first render.
broken_link_test :
    read_share_hash no_decoder params (copy_share_link base64 params digit session) ≡ throws
unfolding read_share_hash copy_share_link session value_of
broken_link_test = refl

open_page-copy_share_link_example :
    open_page base64 params codec digit
      (langs as_listed)
      (codes "zc_2")
      (copy_share_link base64 params digit session)
      storage
    ≡ some (
      record {
        lang = rust_entry;
        code = codes "fn main() {}";
        stdin = [];
        limits = record { memory_mb = 1024; time_s = 30 };
        history = [];
      },
      codes "zc_1",
    )
unfolding session load_history
open_page-copy_share_link_example =
    open_page-copy_share_link base64 base64-IsBase64 params params-IsUrlParams codec as_listed digit
      (codes "zc_2") session storage (λ m n e. cc) (λ e. cc) rust_entry-Mem
