-- ===== src/Api/Status.antt =====
-- Statuses as the client reads them: `StatusKind`, `statusKind`, `statusLabel` and `statusDetail` of
-- web/app/src/shared/api.ts, and the server's side of the contract, `Status` of
-- crates/zerocode-core/src/status.rs.
pub mod Tags
pub mod Contract
use zero_code.Base.{Bool, true, false, List, [], ◌∷◌, Option, none, some, if◌then◌else◌}
use zero_code.Base.Text.{Text, codes, text_eq}

-- The union of tags. A cast lets any string through: `other` holds those that are no tag.
pub data StatusKind : Type 0 where
  idle queued processing accepted tle mle ole ce re nze se cancelled expired : StatusKind
  other : Text → StatusKind

-- The string that a kind is.
unfoldable pub tag : StatusKind → Text
tag idle = codes "idle"
tag queued = codes "queued"
tag processing = codes "processing"
tag accepted = codes "accepted"
tag tle = codes "tle"
tag mle = codes "mle"
tag ole = codes "ole"
tag ce = codes "ce"
tag re = codes "re"
tag nze = codes "nze"
tag se = codes "se"
tag cancelled = codes "cancelled"
tag expired = codes "expired"
tag (other s) = s

abbrev pub tags : List StatusKind
tags =
    idle ∷ queued ∷ processing ∷ accepted ∷ tle ∷ mle ∷ ole ∷ ce ∷ re ∷ nze ∷ se ∷ cancelled
    ∷ expired ∷ []

unfoldable pub find_tag : Text → List StatusKind → StatusKind
unfolding tag text_eq
find_tag s [] = other s
find_tag s (k ∷ ks) = let rest = find_tag s ks in if text_eq s (tag k) then k else rest

-- `s as StatusKind`
unfoldable pub as_kind : Text → StatusKind
unfolding find_tag
as_kind s = find_tag s tags

-- Parsed JSON, as far as the client looks into it. An object lists its members in order.
mutual
  pub data Json : Type 0 where
    null : Json
    bool : Bool → Json
    num : Text → Json
    str : Text → Json
    arr : Items → Json
    obj : Members → Json

  pub data Items : Type 0 where
    nil : Items
    item : Json → Items → Items

  pub data Members : Type 0 where
    end : Members
    member : Text → Json → Members → Members

-- `o[key]`; `none` is undefined.
unfoldable pub get_member : Text → Members → Option Json
get_member k end = none
get_member k (member j v ms) = let rest = get_member k ms in if text_eq j k then some v else rest

-- `ApiStatus | string | null | undefined`
pub data ApiStatus : Type 0 where
  absent : ApiStatus
  text : Text → ApiStatus
  object : (kind : Text) → (detail : Option Json) → ApiStatus

abbrev pub non_empty : Text → Text → Text
non_empty [] d = d
non_empty (c ∷ cs) d = c ∷ cs

-- The `switch` over `s.kind`.
abbrev pub wire_kinds : List (Text × StatusKind)
wire_kinds =
    (codes "accepted", accepted)
    ∷ (codes "queued", queued)
    ∷ (codes "processing", processing)
    ∷ (codes "time_limit_exceeded", tle)
    ∷ (codes "memory_limit_exceeded", mle)
    ∷ (codes "output_limit_exceeded", ole)
    ∷ (codes "compile_error", ce)
    ∷ (codes "runtime_error", re)
    ∷ (codes "non_zero_exit", nze)
    ∷ (codes "sandbox_failure", se)
    ∷ (codes "internal_error", se)
    ∷ (codes "cancelled", cancelled)
    ∷ (codes "expired", expired)
    ∷ []

unfoldable pub switch_kind : Text → List (Text × StatusKind) → StatusKind
unfolding as_kind text_eq
switch_kind k [] = as_kind (non_empty k (codes "idle"))
switch_kind k ((w, r) ∷ cases) = let rest = switch_kind k cases in if text_eq k w then r else rest

-- `LABELS[k] ?? k`
unfoldable pub label : StatusKind → Text
label idle = codes "idle"
label queued = codes "queued"
label processing = codes "processing"
label accepted = codes "accepted"
label tle = codes "time limit"
label mle = codes "memory limit"
label ole = codes "output limit"
label ce = codes "compile error"
label re = codes "runtime error"
label nze = codes "non-zero exit"
label se = codes "sandbox error"
label cancelled = codes "cancelled"
label expired = codes "expired"
label (other s) = s

-- `to_lower` is the engine's `toLowerCase`.
module _ (to_lower : Text → Text) where
  unfoldable pub status_kind : ApiStatus → StatusKind
  unfolding as_kind switch_kind
  status_kind absent = idle
  status_kind (text []) = idle
  status_kind (text (c ∷ cs)) = as_kind (to_lower (c ∷ cs))
  status_kind (object k detail) = switch_kind k wire_kinds

  unfoldable pub status_label : ApiStatus → Text
  unfolding status_kind label
  status_label s = label (status_kind s)

-- The text of a member, where it is a non-empty string. (`obj.name` and `obj.kind` are strings in
-- the type that `statusDetail` casts to.)
abbrev pub member_text : Option Json → Text
member_text (some (str s)) = s
member_text _ = []

-- `stringify` is `JSON.stringify`, and `to_text` is `String`.
module _ (stringify to_text : Json → Text) where
  unfoldable pub detail_text : Json → Option Text
  unfolding get_member
  detail_text null = none
  detail_text (str s) = some s
  detail_text (obj ms) = some (
      non_empty (member_text (get_member (codes "name") ms))
        (non_empty (member_text (get_member (codes "kind") ms)) (stringify (obj ms))))
  detail_text (arr xs) = some (stringify (arr xs))
  detail_text (bool b) = some (to_text (bool b))
  detail_text (num n) = some (to_text (num n))

  unfoldable pub status_detail : ApiStatus → Option Text
  unfolding detail_text
  status_detail absent = none
  status_detail (text s) = none
  status_detail (object k none) = none
  status_detail (object k (some d)) = detail_text d
