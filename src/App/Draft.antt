-- ===== src/App/Draft.antt =====
-- What the playground keeps in the browser: `loadDraft`, `saveDraft`, `loadHistory`, `saveHistory` of
-- web/app/src/playground/App.tsx, and the session that opens with them.
pub mod Reopened
mod Tests
use zero_code.Base.{
  ℕ, Bool, true, false, List, [], ◌∷◌, Option, none, some, if◌then◌else◌, take, or_else,
}
use zero_code.Base.Text.{Text, codes}
use zero_code.Catalog.{pick_initial_lang}
use zero_code.Catalog.Types.{Lang}
use zero_code.App.Run.{HistoryEntry}
use zero_code.App.Session.{Draft, ShareHash, RunLimits, initial_code, initial_stdin, limits_of}

-- What the effect saves.
abbrev pub draft_of : Lang → Text → Text → RunLimits → Draft
draft_of lang code stdin limits = record {
  lang_id = lang.id;
  code = code;
  stdin = stdin;
  limits = some limits;
}

-- The two entries of `localStorage`, and whether reading and writing throw.
pub record Storage : Type 0 where
  pub state : Option Text
  pub history : Option Text
  pub readable : Bool
  pub writable : Bool

-- `localStorage.getItem(…) || fallback`
abbrev pub item_or : Text → Option Text → Text
item_or fallback none = fallback
item_or fallback (some []) = fallback
item_or fallback (some (c ∷ s)) = c ∷ s

-- `draft_text` and `history_text` are JSON.stringify of a draft and of a history; `parse_draft` and
-- `parse_history` are JSON.parse, none where it throws, gives null or, for a history, no array.
pub record Codec : Type 0 where
  pub draft_text : Draft → Text
  pub parse_draft : Text → Option Draft
  pub history_text : List HistoryEntry → Text
  pub parse_history : Text → Option (List HistoryEntry)

-- What the session opens with: the language, the code, the input, the limits and the history.
pub record Opening : Type 0 where
  pub lang : Lang
  pub code : Text
  pub stdin : Text
  pub limits : RunLimits
  pub history : List HistoryEntry

abbrev pub draft_limits : Option Draft → RunLimits
draft_limits none = limits_of none
draft_limits (some d) = limits_of d.limits

abbrev pub draft_lang_id : Option Draft → Option ℕ
draft_lang_id none = none
draft_lang_id (some d) = some d.lang_id

abbrev pub share_lang : Option ShareHash → Option Text
share_lang none = none
share_lang (some h) = h.lang

-- The initial values of the states, for the first language, if there is one.
abbrev pub opening :
    Option Lang → Option ShareHash → Option Draft → List HistoryEntry → Option Opening
unfolding initial_code initial_stdin
opening none share draft history = none
opening (some l) share draft history = some (record {
  lang = l;
  code = initial_code share draft l;
  stdin = initial_stdin share draft l;
  limits = draft_limits draft;
  history = history;
})

module _ (c : Codec) where
  -- `loadDraft`
  unfoldable pub load_draft : Storage → Option Draft
  load_draft s = if s.readable then c.parse_draft (item_or (codes "null") s.state) else none

  -- `saveDraft`
  unfoldable pub save_draft : Draft → Storage → Storage
  save_draft d s = if s.writable then record s { state = some (c.draft_text d) } else s

  -- `loadHistory`
  unfoldable pub load_history : Storage → List HistoryEntry
  load_history s =
      if s.readable
      then take 20 (or_else (c.parse_history (item_or (codes "[]") s.history)) [])
      else []

  -- `saveHistory`
  unfoldable pub save_history : List HistoryEntry → Storage → Storage
  save_history h s =
      if s.writable then record s { history = some (c.history_text (take 20 h)) } else s

  -- The draft is only loaded where there is no link.
  unfoldable pub draft_unless : Option ShareHash → Storage → Option Draft
  unfolding load_draft
  draft_unless none s = load_draft s
  draft_unless (some h) s = none

  -- `to_text` is `String`, and `langs` is `LANGS`; none if that is empty.
  unfoldable pub open_session : (ℕ → Text) → List Lang → Option ShareHash → Storage → Option Opening
  unfolding load_history pick_initial_lang draft_unless
  open_session to_text langs share s =
      let draft = draft_unless share s in
      opening (pick_initial_lang to_text (share_lang share) (draft_lang_id draft) langs) share draft
        (load_history s)
