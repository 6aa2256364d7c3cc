-- ===== src/Api/Connection/Aborted.antt =====
-- What the handlers of a stream hear, and what they do not hear after an abort.
use zero_code.Base.{
  ◌≡◌, refl, ap, ◌∙◌, inl, inr, Bool, true, false, ◌||◌, List, [], ◌∷◌, ◌++◌, map, Option, none,
  some, All, Bool-cases,
}
use zero_code.Base.Text.{Text, codes}
use zero_code.Api.Stream.{Read, drain, read_frames, pump}
use zero_code.Api.Connection.{
  Reading, got, broke, unreachable, response, and_then, read_all, stream,
}

-- The reading comes back after the caller has aborted.
abbrev pub IsLate : Reading → Type 0
IsLate (got r) = r.aborted ≡ true
IsLate (broke e aborted) = aborted ≡ true

or_true : (b : Bool) → b || true ≡ true
or_true true = refl
or_true false = refl

module _ {ℓ} {Json : Type ℓ} (json_parse : Text → Option Json) where
  read_all-late :
      (buf : Text) (late : List Reading)
      → All IsLate late
      → read_all json_parse buf late ≡ record { events = []; error = none }
  unfolding read_all
  read_all-late buf [] h = refl
  read_all-late buf (broke e aborted ∷ rs) (h, hs) = rw h refl
  read_all-late buf (got r ∷ rs) (h, hs) =
      let stop = ap (λ b. r.done || b) h ∙ or_true r.done in rw (stop, read_all) refl

  read_all-append :
      (buf : Text) (rs : List Read) (late : List Reading)
      → All IsLate late
      → read_all json_parse buf (map got rs ++ late)
        ≡ record { events = pump json_parse buf rs; error = none }
  unfolding read_all pump
  read_all-append buf [] late h = read_all-late buf late h
  read_all-append buf (r ∷ rs) late h = elim (Bool-cases (r.done || r.aborted)) [
    | inl e ↦ rw (e, read_all, pump) refl
    | inr e ↦
        rw (e, read_all, pump)
          (ap (and_then json_parse (read_frames json_parse (drain (buf ++ r.chunk)).0))
            (read_all-append (drain (buf ++ r.chunk)).1 rs late h))
  ]

  read_all-broke :
      (buf : Text) (rs : List Read) (e : Text) (rest : List Reading)
      → All (λ (r : Read). r.done || r.aborted ≡ false) rs
      → read_all json_parse buf (map got rs ++ broke e false ∷ rest)
        ≡ record { events = pump json_parse buf rs; error = some e }
  unfolding read_all pump
  read_all-broke buf [] e rest h = refl
  read_all-broke buf (r ∷ rs) e rest (h, hs) =
      rw (h, read_all, pump)
        (ap (and_then json_parse (read_frames json_parse (drain (buf ++ r.chunk)).0))
          (read_all-broke (drain (buf ++ r.chunk)).1 rs e rest hs))

  -- A stream that the server accepts, has read something, and is then aborted: the handlers have heard
  -- the events read before the abort, and after it they hear neither an event nor a failure, whatever the
  -- connection still brings.
  pub stream-aborted :
      (status : Text) (rs : List Read) (late : List Reading)
      → All IsLate late
      → stream json_parse (response true true status) false (map got rs ++ late)
        ≡ record { events = pump json_parse [] rs; error = none }
  unfolding stream
  stream-aborted status rs late h = read_all-append [] rs late h

  -- A stream that breaks while nobody has aborted it reports the failure once, after the events that were
  -- read, and a request that fails reports it and no event.
  pub stream-broke :
      (status : Text) (rs : List Read) (e : Text) (rest : List Reading)
      → All (λ (r : Read). r.done || r.aborted ≡ false) rs
      → (stream json_parse (response true true status) false (map got rs ++ broke e false ∷ rest)
          ≡ record { events = pump json_parse [] rs; error = some e })
        × (stream json_parse (unreachable e) false rest ≡ record { events = []; error = some e })
        × ((has_body : Bool)
            → stream json_parse (response false has_body status) false rest
              ≡ record { events = []; error = some (codes "stream HTTP " ++ status) })
  unfolding stream
  stream-broke status rs e rest h = (read_all-broke [] rs e rest h, refl, λ b. refl)
