-- ===== src/Api/Config.antt =====
-- Where the client finds the API, and with which key: `readConfig`, `setBase`, `setKey`, `headers`,
-- `probe` and `resetProbe` of web/app/src/shared/api.ts.
pub mod Cache
mod Tests
use zero_code.Base.{
  Bool, true, false, not, ◌&&◌, ◌||◌, List, [], ◌∷◌, ◌++◌, Option, none, some, if◌then◌else◌,
  is_empty,
}
use zero_code.Base.Text.{Text, codes, text_eq}

pub data BaseSource : Type 0 where
  query meta storage default : BaseSource

-- `ProbeResult`; `hint` and `error` are undefined where they are none.
pub record ProbeResult : Type 0 where
  pub ok : Bool
  pub base : Text
  pub authed : Option Bool
  pub hint : Option Text
  pub error : Option Text

pub record Location : Type 0 where
  pub protocol : Text
  pub origin : Text
  pub hostname : Text

-- What the page was opened with: `qs.get('api')`, `qs.get('key')`, `META`, and `location`, which is
-- undefined outside a browser.
pub record Page : Type 0 where
  pub query_api : Option Text
  pub query_key : Option Text
  pub meta : Option Text
  pub location : Option Location

-- The two entries of `localStorage`, and whether reading and writing throw.
pub record Storage : Type 0 where
  pub readable : Bool
  pub writable : Bool
  pub base : Option Text
  pub key : Option Text

-- The variables of the module.
pub record Client : Type 0 where
  pub storage : Storage
  pub base : Text
  pub key : Option Text
  pub base_source : BaseSource
  pub probe_cache : Option ProbeResult

-- A text that is there and not empty, as `if (s)` tests it.
abbrev pub truthy : Option Text → Option Text
truthy (some (c ∷ s)) = some (c ∷ s)
truthy _ = none

-- `a || b`
abbrev pub or_text : Option Text → Option Text → Option Text
or_text (some (c ∷ s)) b = some (c ∷ s)
or_text _ b = b

-- `inferDefaultBase`
unfoldable pub infer_default_base : Option Location → Text
unfolding text_eq
infer_default_base none = codes "http://localhost:8080"
infer_default_base (some l) =
    if text_eq l.protocol (codes "file:") then codes "http://localhost:8080" else l.origin

-- `url.replace(/\/$/, '')`
unfoldable pub strip_slash : Text → Text
strip_slash [] = []
strip_slash (c ∷ []) = if text_eq (c ∷ []) (codes "/") then [] else c ∷ []
strip_slash (c ∷ d ∷ s) = c ∷ strip_slash (d ∷ s)

-- `safeRead`
abbrev pub safe_read : Bool → Option Text → Option Text
safe_read true v = v
safe_read false v = none

-- The branches of `readConfig`: the text taken for the base, and where it is from.
abbrev pub choose_base : Page → Option Text → Option Text → Option Text → Text × BaseSource
choose_base page (some q) m s = (strip_slash q, query)
choose_base page none (some m) s = (strip_slash m, meta)
choose_base page none none (some s) = (strip_slash s, storage)
choose_base page none none none = (strip_slash (infer_default_base page.location), default)

unfoldable pub read_config : Page → Storage → Client
unfolding strip_slash infer_default_base
read_config page st =
    let chosen =
      choose_base page (truthy page.query_api) (truthy page.meta)
        (truthy (safe_read st.readable st.base)) in
    record {
      storage = st;
      base = chosen.0;
      key = or_text page.query_key (safe_read st.readable st.key);
      base_source = chosen.1;
      probe_cache = none;
    }

unfoldable pub set_base : Page → Option Text → Client → Client
unfolding read_config
set_base page url c =
    read_config page
      (if c.storage.writable then record c.storage { base = truthy url } else c.storage)

unfoldable pub set_key : Page → Option Text → Client → Client
unfolding read_config
set_key page k c =
    read_config page (if c.storage.writable then record c.storage { key = truthy k } else c.storage)

abbrev pub Headers : Type 0
Headers = List (Text × Text)

-- `h.Authorization = …` if there is a key.
abbrev pub authorization : Option Text → Headers
authorization (some (c ∷ k)) = (codes "Authorization", codes "Bearer " ++ c ∷ k) ∷ []
authorization _ = []

-- `headers(extra)`
unfoldable pub headers : Client → Headers → Headers
headers c extra = (codes "Accept", codes "application/json") ∷ extra ++ authorization c.key

abbrev pub is_local : Text → Bool
is_local host = text_eq host (codes "localhost") || text_eq host (codes "127.0.0.1")

-- `fallbackBase`
abbrev pub fallback_at : Text → BaseSource → Option Location → Option Text
fallback_at base default (some l) =
    let candidate = codes "http://" ++ l.hostname ++ codes ":8080" in
    if is_empty l.hostname || not (is_local l.hostname)
    then none
    else if text_eq candidate base
    then none
    else some candidate
fallback_at base _ _ = none

unfoldable pub fallback_base : Page → Client → Option Text
unfolding text_eq
fallback_base page c = fallback_at c.base c.base_source page.location

-- What the server behind a base answers: `jsonFetch('/v1/health')`, none where it succeeds and else
-- the error's message, and whether `languages()` succeeds.
module _ (health : Text → Option Text) (authed : Text → Bool) (page : Page) where
  abbrev pub hint_text : Text → Text → Text
  hint_text base prev =
      codes "defaulted to " ++ base ++ codes " after " ++ prev ++ codes " did not respond"

  abbrev pub remember : ProbeResult → Client → Client
  remember r c = record c { probe_cache = some r }

  abbrev pub failed_probe : Text → Text → ProbeResult
  failed_probe message base = record {
    ok = false;
    base = base;
    authed = none;
    hint = none;
    error = some message;
  }

  abbrev pub good_probe : Option Text → Text → ProbeResult
  good_probe hint base = record {
    ok = true;
    base = base;
    authed = some (authed base);
    hint = hint;
    error = none;
  }

  -- The `catch`: the fallback, which is undone if it does not answer either.
  abbrev pub retry : Text → Option Text → Client → Client
  retry message none c = remember (failed_probe message c.base) c
  retry message (some b) c = retry_at (health b)
    where
      retry_at : Option Text → Client
      retry_at none = remember (good_probe (some (hint_text b c.base)) b) (record c { base = b })
      retry_at (some e) = remember (failed_probe message c.base) c

  abbrev pub probe_now : Option Text → Client → Client
  probe_now none c = remember (good_probe none c.base) c
  probe_now (some message) c = retry message (fallback_base page c) c

  -- `probe`: the state it leaves; what it returns is the cache.
  abbrev pub probe_unless : Option ProbeResult → Client → Client
  probe_unless (some r) c = c
  probe_unless none c = probe_now (health c.base) c

  unfoldable pub probe : Client → Client
  unfolding fallback_base
  probe c = probe_unless c.probe_cache c

-- `resetProbe`
unfoldable pub reset_probe : Client → Client
reset_probe c = record c { probe_cache = none }
