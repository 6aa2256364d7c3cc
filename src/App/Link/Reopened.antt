-- ===== src/App/Link/Reopened.antt =====
-- What a shared link opens.
use mathlib.Core.List.{Memᴰ}
use zero_code.Base.{
  ℕ, ◌≡◌, ◌≢◌, refl, ap, ◌∙◌, Bool, true, false, List, [], ◌∷◌, ◌++◌, Option, none, some, or_else,
}
use zero_code.Base.Text.{Text, codes, text_eq}
use zero_code.Api.Config.{truthy}
use zero_code.Catalog.{langs, lang_catalog}
use zero_code.Catalog.Pick.{distinct, pick_initial_lang-shared}
use zero_code.App.Session.{Session, limits_of, initial_code, initial_stdin}
use zero_code.App.Draft.{Storage, Codec, load_history, open_session, draft_unless}
use zero_code.App.Link.{
  UrlParams, Base64, a_link, param, strip_hash, hash_of, encoded, decoded, link_with, share_params,
  read_share_hash, read_query, copy_share_link, initial_token, open_read, open_page,
}

-- The value of a key in a list.
unfoldable pub value_of : Text → List (Text × Text) → Option Text
unfolding text_eq
value_of k [] = none
value_of k ((j, v) ∷ ps) = elim (text_eq k j) [ true ↦ some v | false ↦ value_of k ps ]

-- The parameters of a text are those that it was written with, if no key was set twice.
pub record IsUrlParams (u : UrlParams) : Type 0 where
  pub not_empty : (ps : List (Text × Text)) → ps ≢ [] → u.to_string ps ≢ []
  pub get_written :
      (k : Text) (ps : List (Text × Text))
      → distinct (λ p q. text_eq p.0 q.0) ps ≡ true
      → u.get (u.to_string ps) k ≡ value_of k ps

-- A text comes back, and one that is not empty is not written as an empty one.
pub record IsBase64 (b : Base64) : Type 0 where
  pub encode_not_empty : (s : Text) → s ≢ [] → b.encode s ≢ []
  pub decode_encode : (s : Text) → b.decode (b.encode s) ≡ some s

abbrev written : Text → Option Text → Option Text → Option Text → List (Text × Text)
written lang code stdin token =
    (codes "lang", lang) ∷ param (codes "code") code
    ++ param (codes "stdin") stdin
    ++ param (codes "token") token

written-distinct :
    (lang : Text) (c s t : Option Text)
    → distinct (λ p q. text_eq p.0 q.0) (written lang c s t) ≡ true
unfolding text_eq
written-distinct lang none none none = refl
written-distinct lang none none (some t) = refl
written-distinct lang none (some s) none = refl
written-distinct lang none (some s) (some t) = refl
written-distinct lang (some c) none none = refl
written-distinct lang (some c) none (some t) = refl
written-distinct lang (some c) (some s) none = refl
written-distinct lang (some c) (some s) (some t) = refl

written-values :
    (lang : Text) (c s t : Option Text)
    → let ps = written lang c s t in
      (value_of (codes "lang") ps ≡ some lang)
      × (value_of (codes "code") ps ≡ c)
      × (value_of (codes "stdin") ps ≡ s)
      × (value_of (codes "token") ps ≡ t)
unfolding text_eq value_of
written-values lang none none none = (refl, refl, refl, refl)
written-values lang none none (some t) = (refl, refl, refl, refl)
written-values lang none (some s) none = (refl, refl, refl, refl)
written-values lang none (some s) (some t) = (refl, refl, refl, refl)
written-values lang (some c) none none = (refl, refl, refl, refl)
written-values lang (some c) none (some t) = (refl, refl, refl, refl)
written-values lang (some c) (some s) none = (refl, refl, refl, refl)
written-values lang (some c) (some s) (some t) = (refl, refl, refl, refl)

truthy-not_empty : (t : Text) → t ≢ [] → truthy (some t) ≡ some t
truthy-not_empty [] h = absurd (h refl)
truthy-not_empty (c ∷ t) h = refl

truthy-truthy : (t : Option Text) → truthy (truthy t) ≡ truthy t
truthy-truthy none = refl
truthy-truthy (some []) = refl
truthy-truthy (some (c ∷ t)) = refl

strip_hash-hash_of : (q : Text) → strip_hash (hash_of q) ≡ q
unfolding strip_hash hash_of
strip_hash-hash_of [] = refl
strip_hash-hash_of (c ∷ q) = refl

module _ (b : Base64) (laws : IsBase64 b) where
  decoded-encoded :
      (s : Text) → decoded b (truthy (encoded b (truthy (some s)))) ≡ some (truthy (some s))
  decoded-encoded [] = refl
  decoded-encoded (c ∷ s) =
      rw
        (
          truthy-not_empty (b.encode (c ∷ s)) (laws.encode_not_empty (c ∷ s) (λ e. cc)),
          laws.decode_encode (c ∷ s),
        )
        refl

  or_empty : (s : Text) → or_else (truthy (some s)) [] ≡ s
  or_empty [] = refl
  or_empty (c ∷ s) = refl

  module _ (u : UrlParams) (url : IsUrlParams u) where
    read_query-not_empty :
        (q : Text)
        → q ≢ []
        → read_query b u q
          ≡ link_with b
              (u.get q (codes "lang"))
              (u.get q (codes "token"))
              (decoded b (truthy (u.get q (codes "code"))))
              (decoded b (truthy (u.get q (codes "stdin"))))
    read_query-not_empty [] h = absurd (h refl)
    read_query-not_empty (c ∷ q) h = refl

    read_query-written :
        (lang code stdin token : Text)
        → read_query b u (u.to_string (share_params b lang code stdin token))
          ≡ a_link (record {
            lang = some lang;
            token = truthy (some token);
            code = truthy (some code);
            stdin = stdin;
          })
    unfolding share_params
    read_query-written lang code stdin token =
        let c = encoded b (truthy (some code)) in
        let s = encoded b (truthy (some stdin)) in
        let t = truthy (some token) in
        let q = u.to_string (written lang c s t) in
        let got : (k : Text) → u.get q k ≡ value_of k (written lang c s t) =
          λ k. url.get_written k (written lang c s t) (written-distinct lang c s t) in
        let (lang_there, code_there, stdin_there, token_there) = written-values lang c s t in
        read_query-not_empty q (url.not_empty (written lang c s t) (λ e. cc))
        ∙ rw
            (
              got (codes "lang") ∙ lang_there,
              got (codes "code") ∙ code_there,
              got (codes "stdin") ∙ stdin_there,
              got (codes "token") ∙ token_there,
              decoded-encoded code,
              decoded-encoded stdin,
            )
            (ap
              (λ x.
                a_link
                  (record { lang = some lang; token = t; code = truthy (some code); stdin = x }))
              (or_empty stdin))

    read_share_hash-copy_share_link :
        (to_text : ℕ → Text) (s : Session)
        → read_share_hash b u (copy_share_link b u to_text s)
          ≡ a_link (record {
            lang = some (to_text s.lang.id);
            token = truthy (some s.run.view.token);
            code = truthy (some s.code);
            stdin = s.stdin;
          })
    unfolding read_share_hash copy_share_link
    read_share_hash-copy_share_link to_text s =
        ap (read_query b u) (
          strip_hash-hash_of
            (u.to_string (share_params b (to_text s.lang.id) s.code s.stdin s.run.view.token)))
        ∙ read_query-written (to_text s.lang.id) s.code s.stdin s.run.view.token

    -- Where a text comes back from base64 and parameters from the text of a query, and the id of a language
    -- is never written as the empty text nor as another's: the link copied from a session of a language of
    -- the catalogue opens the page, whatever draft is stored, with that language, the input, the token and
    -- the code; an empty code becomes the snippet, an empty token the one drawn, and the limits are not
    -- those of the session but the usual ones.
    pub open_page-copy_share_link :
        (c : Codec) (name_le : Text → Text → Bool) (to_text : ℕ → Text) (drawn : Text) (s : Session)
        (st : Storage)
        → ((m n : ℕ) → to_text m ≡ to_text n → m ≡ n)
        → to_text s.lang.id ≢ []
        → Memᴰ s.lang lang_catalog
        → open_page b u c to_text (langs name_le) drawn (copy_share_link b u to_text s) st
          ≡ some (
            record {
              lang = s.lang;
              code = or_else (truthy (some s.code)) s.lang.snippet;
              stdin = s.stdin;
              limits = limits_of none;
              history = load_history c st;
            },
            or_else (truthy (some s.run.view.token)) drawn,
          )
    unfolding open_page open_read open_session draft_unless initial_token initial_code initial_stdin
    open_page-copy_share_link c name_le to_text drawn s st inj ne m =
        ap (open_read b u c to_text (langs name_le) drawn st)
          (read_share_hash-copy_share_link to_text s)
        ∙ rw
            (
              pick_initial_lang-shared name_le to_text s.lang none inj ne m,
              truthy-truthy (some s.run.view.token),
            )
            refl
