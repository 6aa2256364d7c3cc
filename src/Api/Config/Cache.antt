-- ===== src/Api/Config/Cache.antt =====
-- The cache of `probe`, and the base that a probe leaves.
use zero_code.Base.{
  ◌≡◌, ◌≢◌, ◌⊎◌, inl, inr, refl, sym, ap, Bool, true, List, [], ◌∷◌, Option, none, some,
  Option-cases,
}
use zero_code.Base.Text.{Text}
use zero_code.Api.Config.{
  Client, Page, ProbeResult, storage, default, read_config, set_base, set_key, probe, reset_probe,
  fallback_base, retry, probe_now, probe_unless, truthy, strip_slash,
}

some-injective {ℓ} : {A : Type ℓ} (a b : A) → some a ≡ some b → a ≡ b
some-injective a b e = cc

-- What is cached was found at the base that the client uses.
abbrev pub IsCurrent : Client → Type 0
IsCurrent c = (r : ProbeResult) → c.probe_cache ≡ some r → r.base ≡ c.base

module _ (health : Text → Option Text) (authed : Text → Bool) (page : Page) where
  retry-IsCurrent :
      (message : Text) (o : Option Text) (c : Client)
      → IsCurrent (retry health authed page message o c)
  retry-IsCurrent message none c = λ r e. ap (λ z. z.base) (sym (some-injective _ r e))
  retry-IsCurrent message (some b) c = elim (Option-cases (health b)) [
    | inl up ↦ rw up (λ r e. ap (λ z. z.base) (sym (some-injective _ r e)))
    | inr (m, down) ↦ rw down (λ r e. ap (λ z. z.base) (sym (some-injective _ r e)))
  ]

  probe_now-IsCurrent :
      (o : Option Text) (c : Client) → IsCurrent (probe_now health authed page o c)
  probe_now-IsCurrent none c = λ r e. ap (λ z. z.base) (sym (some-injective _ r e))
  probe_now-IsCurrent (some message) c = retry-IsCurrent message (fallback_base page c) c

  probe_unless-IsCurrent :
      (o : Option ProbeResult) (c : Client)
      → IsCurrent c
      → IsCurrent (probe_unless health authed page o c)
  probe_unless-IsCurrent none c h = probe_now-IsCurrent (health c.base) c
  probe_unless-IsCurrent (some r) c h = h

  probe-IsCurrent : (c : Client) → IsCurrent c → IsCurrent (probe health authed page c)
  unfolding probe
  probe-IsCurrent c h = probe_unless-IsCurrent c.probe_cache c h

  retry-base :
      (message : Text) (o : Option Text) (c : Client)
      → ((retry health authed page message o c).base ≡ c.base)
        ⊎ ((o ≡ some (retry health authed page message o c).base)
            × (health (retry health authed page message o c).base ≡ none))
  retry-base message none c = inl refl
  retry-base message (some b) c = elim (Option-cases (health b)) [
    | inl up ↦ rw up (inr (refl, up))
    | inr (m, down) ↦ rw down (inl refl)
  ]

  probe_now-base :
      (o : Option Text) (c : Client)
      → o ≡ health c.base
      → ((probe_now health authed page o c).base ≡ c.base)
        ⊎ ((health c.base ≢ none)
            × (fallback_base page c ≡ some (probe_now health authed page o c).base)
            × (health (probe_now health authed page o c).base ≡ none))
  probe_now-base none c e = inl refl
  probe_now-base (some message) c e = elim (retry-base message (fallback_base page c) c) [
    | inl same ↦ inl same
    | inr (f, up) ↦ inr (λ n. cc (n, e), f, up)
  ]

  probe_unless-base :
      (o : Option ProbeResult) (c : Client)
      → ((probe_unless health authed page o c).base ≡ c.base)
        ⊎ ((health c.base ≢ none)
            × (fallback_base page c ≡ some (probe_unless health authed page o c).base)
            × (health (probe_unless health authed page o c).base ≡ none))
  probe_unless-base none c = probe_now-base (health c.base) c refl
  probe_unless-base (some r) c = inl refl

  -- A probe leaves the base as it is, unless the base did not answer and the fallback does, which
  -- is then the base.
  pub probe-base :
      (c : Client)
      → ((probe health authed page c).base ≡ c.base)
        ⊎ ((health c.base ≢ none)
            × (fallback_base page c ≡ some (probe health authed page c).base)
            × (health (probe health authed page c).base ≡ none))
  unfolding probe
  probe-base c = probe_unless-base c.probe_cache c

-- What the module exports, in any order; what the server answers may be another thing each time.
pub data Call : Type 0 where
  base : Option Text → Call
  key : Option Text → Call
  ask : (health : Text → Option Text) → (authed : Text → Bool) → Call
  forget : Call

unfoldable pub call : Page → Call → Client → Client
unfolding set_base set_key probe reset_probe
call page (base url) c = set_base page url c
call page (key k) c = set_key page k c
call page (ask health authed) c = probe health authed page c
call page forget c = reset_probe c

unfoldable pub calls : Page → List Call → Client → Client
unfolding call
calls page [] c = c
calls page (k ∷ ks) c = calls page ks (call page k c)

uncached-IsCurrent : (c : Client) → c.probe_cache ≡ none → IsCurrent c
uncached-IsCurrent c n r e = cc

call-IsCurrent : (page : Page) (k : Call) (c : Client) → IsCurrent c → IsCurrent (call page k c)
unfolding call set_base set_key reset_probe read_config
call-IsCurrent page (base url) c h = uncached-IsCurrent (set_base page url c) refl
call-IsCurrent page (key k) c h = uncached-IsCurrent (set_key page k c) refl
call-IsCurrent page (ask health authed) c h = probe-IsCurrent health authed page c h
call-IsCurrent page forget c h = uncached-IsCurrent (reset_probe c) refl

-- Whatever is called in whatever order, each call after the one before has ended, and whatever the
-- server answers: a result that is cached was found at the base in use, if it was before.
pub calls-IsCurrent :
    (page : Page) (ks : List Call) (c : Client) → IsCurrent c → IsCurrent (calls page ks c)
unfolding calls
calls-IsCurrent page [] c h = h
calls-IsCurrent page (k ∷ ks) c h =
    calls-IsCurrent page ks (call page k c) (call-IsCurrent page k c h)

-- If the page names no base itself and the storage works, the base is the one that was set last,
-- without a slash at its end; once it is removed, it is the default again.
pub set_base-stored :
    (page : Page) (c : Client) (url : Text)
    → truthy page.query_api ≡ none
    → truthy page.meta ≡ none
    → c.storage.readable ≡ true
    → c.storage.writable ≡ true
    → url ≢ []
    → ((set_base page (some url) c).base ≡ strip_slash url)
      × ((set_base page (some url) c).base_source ≡ storage)
      × ((set_base page none (set_base page (some url) c)).base_source ≡ default)
unfolding set_base read_config
set_base-stored page c [] q m r w ne = absurd (ne refl)
set_base-stored page c (x ∷ s) q m r w ne = rw (q, m, w, r) (refl, refl, refl)
