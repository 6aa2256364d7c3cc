-- ===== src/App/Link.antt =====
-- The links that the playground shares: `readShareHash`, `writeShareHash`, `copyShareLink`, and what the
-- page opens with, in web/app/src/playground/App.tsx.
pub mod Reopened
mod Tests
use zero_code.Base.{
  ℕ, Bool, true, false, List, [], ◌∷◌, ◌++◌, Option, none, some, if◌then◌else◌, or_else, ◌==◌,
}
use zero_code.Base.Text.{Text, codes}
use zero_code.Api.Config.{truthy}
use zero_code.Catalog.Types.{Lang}
use zero_code.App.Session.{ShareHash, Session}
use zero_code.App.Draft.{Storage, Codec, Opening, open_session}

-- `URLSearchParams` of the browser: the text of parameters that were set, and the value of a key in a
-- text.
pub record UrlParams : Type 0 where
  pub to_string : List (Text × Text) → Text
  pub get : Text → Text → Option Text

-- `encode` is `btoa(unescape(encodeURIComponent(s)))`, `decode` is `decodeURIComponent(escape(atob(b)))`,
-- none where that throws; that the encoder throws for half of a surrogate pair is left out.
pub record Base64 : Type 0 where
  pub encode : Text → Text
  pub decode : Text → Option Text

-- What `readShareHash` does: it throws, or returns null or a link.
pub data Read : Type 0 where
  throws no_link : Read
  a_link : ShareHash → Read

abbrev pub param : Text → Option Text → List (Text × Text)
param k none = []
param k (some v) = (k, v) ∷ []

-- `h.replace(/^#/, '')`
unfoldable pub strip_hash : Text → Text
strip_hash [] = []
strip_hash (c ∷ h) = if c == b'#' then h else c ∷ h

-- `qs ? '#' + qs : location.pathname`, of which only the hash is kept.
unfoldable pub hash_of : Text → Text
hash_of [] = []
hash_of (c ∷ qs) = b'#' ∷ c ∷ qs

module _ (b : Base64) where
  abbrev pub encoded : Option Text → Option Text
  encoded none = none
  encoded (some s) = some (b.encode s)

  abbrev pub returned : Option Text → Option (Option Text)
  returned none = none
  returned (some s) = some (some s)

  -- `v ? decode(v) : null`, none where that throws.
  abbrev pub decoded : Option Text → Option (Option Text)
  decoded none = some none
  decoded (some v) = returned (b.decode v)

  -- The object that is returned, unless one of the two texts cannot be decoded.
  abbrev pub link_with :
      Option Text → Option Text → Option (Option Text) → Option (Option Text) → Read
  link_with lang token (some code) (some stdin) =
      a_link (record { lang = lang; token = token; code = code; stdin = or_else stdin [] })
  link_with lang token _ _ = throws

  -- The parameters that `writeShareHash` sets, in their order; an empty text sets none.
  unfoldable pub share_params : Text → Text → Text → Text → List (Text × Text)
  share_params lang code stdin token =
      (codes "lang", lang) ∷ param (codes "code") (encoded (truthy (some code)))
      ++ param (codes "stdin") (encoded (truthy (some stdin)))
      ++ param (codes "token") (truthy (some token))

  module _ (u : UrlParams) where
    abbrev pub read_query : Text → Read
    read_query [] = no_link
    read_query (c ∷ q) =
        let get = u.get (c ∷ q) in
        link_with (get (codes "lang")) (get (codes "token")) (decoded (truthy (get (codes "code"))))
          (decoded (truthy (get (codes "stdin"))))

    -- `readShareHash`
    unfoldable pub read_share_hash : Text → Read
    unfolding strip_hash
    read_share_hash hash = read_query (strip_hash hash)

    -- `writeShareHash` as `copyShareLink` calls it; `to_text` is `String`.
    unfoldable pub copy_share_link : (ℕ → Text) → Session → Text
    unfolding share_params hash_of
    copy_share_link to_text s =
        hash_of (u.to_string (share_params (to_text s.lang.id) s.code s.stdin s.run.view.token))

    -- `share?.token || …`, with the token that is drawn else.
    unfoldable pub initial_token : Text → Option ShareHash → Text
    initial_token drawn none = drawn
    initial_token drawn (some h) = or_else (truthy h.token) drawn

    abbrev pub with_token : Text → Option Opening → Option (Opening × Text)
    with_token t none = none
    with_token t (some o) = some (o, t)

    -- What the page opens with, and its token; none where the first render throws.
    unfoldable pub open_read :
        Codec → (ℕ → Text) → List Lang → Text → Storage → Read → Option (Opening × Text)
    unfolding open_session initial_token
    open_read c to_text langs drawn st throws = none
    open_read c to_text langs drawn st no_link =
        with_token (initial_token drawn none) (open_session c to_text langs none st)
    open_read c to_text langs drawn st (a_link h) =
        with_token (initial_token drawn (some h)) (open_session c to_text langs (some h) st)

    unfoldable pub open_page :
        Codec → (ℕ → Text) → List Lang → Text → Text → Storage → Option (Opening × Text)
    unfolding read_share_hash open_read
    open_page c to_text langs drawn hash st =
        open_read c to_text langs drawn st (read_share_hash hash)
