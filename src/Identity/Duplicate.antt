-- ===== src/Identity/Duplicate.antt =====
-- What contentIdentity.ts says of two events by their identities, where the digest does not give the two
-- materials at hand the same result.
use kootha.Prelude.{
  ℕ, ◌≡◌, ◌≢◌, ◌↔◌, refl, sym, ap, ◌∙◌, inl, inr, false, Option, [], ◌∷◌, ◌++◌, arith, codes,
  Bool-cases,
}
use kootha.Prelude.Number.{Number}
use kootha.Prelude.Json.{Text}
use kootha.Prelude.Text.{text_eq, text_eq-same, text_eq_refl}
use kootha.Prelude.Result.{Result, ok, err, ◌>>=◌}
use kootha.Telemetry.Issue.{ValidationIssue}
use kootha.Identity.Canonical.{canonicalize_stable_json}
use kootha.Identity.Order.{Reordered, canonicalize_stable_json-Reordered}
use kootha.Identity.Reader.{IsNumberText}
use kootha.Identity.RoundTrip.{canonical_tree, canonicalize_stable_json-injective}
use kootha.Identity.Event.{
  DigestProvider, CanonicalEventIdentityInput, CanonicalEventIdentity, identity_text,
  create_canonical_event_identity,
}
use kootha.Identity.Content.{
  CanonicalTelemetryEvent, CanonicalEventContentIdentity, content, content_identity,
  create_canonical_event_content_identity, DuplicateIdentityClassification, not_duplicate,
  duplicate_identical_content, duplicate_changed_content, classify_duplicate_identity,
}
use kootha.Identity.SourceText.{source_of}
use kootha.Identity.Source.{
  create_canonical_event_identity-ok, create_canonical_event_identity-source,
}

tail_of : Text → Text
tail_of [] = []
tail_of (c ∷ cs) = cs

append_cancel : (xs ys zs : Text) → xs ++ ys ≡ xs ++ zs → ys ≡ zs
append_cancel [] ys zs h = h
append_cancel (x ∷ xs) ys zs h = append_cancel xs ys zs (cut h)
  where
    cut : x ∷ (xs ++ ys) ≡ x ∷ (xs ++ zs) → xs ++ ys ≡ xs ++ zs
    cut q = ground (arith, q)

identity_text-digest :
    (prefix : Text) (provider : DigestProvider) (s t : Text)
    → identity_text prefix provider s ≡ identity_text prefix provider t
    → s ≡ t
identity_text-digest prefix provider s t h = append_cancel (b':' ∷ []) s t (
    append_cancel provider.algorithm (b':' ∷ s) (b':' ∷ t)
      (append_cancel prefix (provider.algorithm ++ b':' ∷ s) (provider.algorithm ++ b':' ∷ t) h))

-- What a created content identity is made of.
abbrev IsContentOf :
    (ℕ → Text) → CanonicalTelemetryEvent → DigestProvider → CanonicalEventContentIdentity → Type 0
IsContentOf fraction_text event provider made =
    (canonicalize_stable_json fraction_text (content event) ≡ ok made.canonical_material)
    × (made.identity
        ≡ identity_text (codes "telemetry-content:v1:") provider
            (provider.digest_utf8 made.canonical_material))

create_canonical_event_content_identity-ok :
    (fraction_text : ℕ → Text) (event : CanonicalTelemetryEvent) (provider : DigestProvider)
    (made : CanonicalEventContentIdentity)
    → create_canonical_event_content_identity fraction_text event provider ≡ ok made
    → IsContentOf fraction_text event provider made
unfolding create_canonical_event_content_identity
create_canonical_event_content_identity-ok fraction_text event provider made h =
    created (canonicalize_stable_json fraction_text (content event)) refl h
  where
    created :
        (canonical : Result ValidationIssue Text)
        → canonicalize_stable_json fraction_text (content event) ≡ canonical
        → canonical >>= content_identity provider ≡ ok made
        → IsContentOf fraction_text event provider made
    created (err issue) c e = absurd (ground (arith, e))
    created (ok t) c e =
        let same : t ≡ made.canonical_material = ground (arith, e) in
        let named : identity_text (codes "telemetry-content:v1:") provider (provider.digest_utf8 t)
            ≡ made.identity =
          ground (arith, e) in
        (
          c ∙ ap ok same,
          sym named
              ∙ ap
                  (λ u.
                    identity_text (codes "telemetry-content:v1:") provider (provider.digest_utf8 u))
                  same,
        )

ok_same : {s t : Text} → Path (Result ValidationIssue Text) (ok s) (ok t) → s ≡ t
ok_same q = ground (arith, q)

-- What a classification says of two events with their inputs and contents.
abbrev pub Explains :
    CanonicalEventIdentityInput
    → CanonicalEventIdentityInput
    → CanonicalTelemetryEvent
    → CanonicalTelemetryEvent
    → DuplicateIdentityClassification
    → Type 0
Explains a b known incoming not_duplicate = source_of a ≢ source_of b
Explains a b known incoming duplicate_identical_content =
    (source_of a ≡ source_of b)
    × (canonical_tree (content known) ≡ canonical_tree (content incoming))
Explains a b known incoming duplicate_changed_content =
    (source_of a ≡ source_of b) × ¬ Reordered (content known) (content incoming)

text_eq-apart : (l r : Text) → text_eq l r ≡ false → ¬ (l ≡ r)
text_eq-apart l r e k = ground (arith, ap (text_eq l) k ∙ e, text_eq_refl l)

classify_duplicate_identity-decided :
    (a b : CanonicalEventIdentityInput) (known incoming : CanonicalTelemetryEvent) (x y p q : Text)
    → (x ≡ y) ↔ (source_of a ≡ source_of b)
    → (p ≡ q → canonical_tree (content known) ≡ canonical_tree (content incoming))
      × (Reordered (content known) (content incoming) → p ≡ q)
    → Explains a b known incoming (classify_duplicate_identity x y p q)
unfolding classify_duplicate_identity
classify_duplicate_identity-decided a b known incoming x y p q sources contents =
    elim (Bool-cases (text_eq x y)) [
      | inr e ↦ rw e (λ s. text_eq-apart x y e (sources.1 s))
      | inl e ↦ elim (Bool-cases (text_eq p q)) [
        | inl f ↦ rw (e, f) (sources.0 (text_eq-same x y e), contents.0 (text_eq-same p q f))
        | inr f ↦
            rw (e, f) (sources.0 (text_eq-same x y e), λ r. text_eq-apart p q f (contents.1 r))
      ]
    ]

module _ (fraction_text : ℕ → Text) (number_of : Text → Option Number)
    (printed : IsNumberText fraction_text number_of) (provider : DigestProvider) where
  identity-source :
      (a b : CanonicalEventIdentityInput) (x y : CanonicalEventIdentity)
      → create_canonical_event_identity fraction_text a provider ≡ ok x
      → create_canonical_event_identity fraction_text b provider ≡ ok y
      → (provider.digest_utf8 x.canonical_material ≡ provider.digest_utf8 y.canonical_material
          → x.canonical_material ≡ y.canonical_material)
      → (x.identity ≡ y.identity) ↔ (source_of a ≡ source_of b)
  identity-source a b x y made_x made_y apart =
      let prefix = codes "telemetry:v1:" in
      let named_x = (create_canonical_event_identity-ok fraction_text a provider x made_x).2 in
      let named_y = (create_canonical_event_identity-ok fraction_text b provider y made_y).2 in
      let sources =
        create_canonical_event_identity-source fraction_text number_of printed a b provider x y
          made_x made_y in
      (
        λ e.
            sources.0
              (apart (identity_text-digest prefix provider _ _ (sym named_x ∙ (e ∙ named_y)))),
        λ e.
            named_x
            ∙ (ap (λ m. identity_text prefix provider (provider.digest_utf8 m)) (sources.1 e)
                ∙ sym named_y),
      )

  identity-content :
      (known incoming : CanonicalTelemetryEvent) (p q : CanonicalEventContentIdentity)
      → create_canonical_event_content_identity fraction_text known provider ≡ ok p
      → create_canonical_event_content_identity fraction_text incoming provider ≡ ok q
      → (provider.digest_utf8 p.canonical_material ≡ provider.digest_utf8 q.canonical_material
          → p.canonical_material ≡ q.canonical_material)
      → (p.identity ≡ q.identity
          → canonical_tree (content known) ≡ canonical_tree (content incoming))
        × (Reordered (content known) (content incoming) → p.identity ≡ q.identity)
  identity-content known incoming p q made_p made_q apart =
      let prefix = codes "telemetry-content:v1:" in
      let (text_p, named_p) =
        create_canonical_event_content_identity-ok fraction_text known provider p made_p in
      let (text_q, named_q) =
        create_canonical_event_content_identity-ok fraction_text incoming provider q made_q in
      (
        λ e.
            canonicalize_stable_json-injective fraction_text number_of printed (content known)
              (content incoming) q.canonical_material
              (text_p
                ∙ ap ok (
                    apart (identity_text-digest prefix provider _ _ (sym named_p ∙ (e ∙ named_q)))))
              text_q,
        λ r.
            named_p
            ∙ (ap (λ m. identity_text prefix provider (provider.digest_utf8 m))
                  (ok_same (
                    sym text_p
                    ∙ (canonicalize_stable_json-Reordered fraction_text (content known)
                          (content incoming) r
                        ∙ text_q)))
                ∙ sym named_q),
      )

  -- Two events are classified by what they are: as no duplicates only if their sources differ, as
  -- duplicates with the same content only if sources and contents are the same, and as duplicates with
  -- changed content only if the sources are the same and the contents are not, the order of keys apart.
  -- The digest must not give the two materials at hand the same result.
  pub classify_duplicate_identity-Explains :
      (a b : CanonicalEventIdentityInput) (known incoming : CanonicalTelemetryEvent)
      (x y : CanonicalEventIdentity) (p q : CanonicalEventContentIdentity)
      → create_canonical_event_identity fraction_text a provider ≡ ok x
      → create_canonical_event_identity fraction_text b provider ≡ ok y
      → create_canonical_event_content_identity fraction_text known provider ≡ ok p
      → create_canonical_event_content_identity fraction_text incoming provider ≡ ok q
      → (provider.digest_utf8 x.canonical_material ≡ provider.digest_utf8 y.canonical_material
          → x.canonical_material ≡ y.canonical_material)
      → (provider.digest_utf8 p.canonical_material ≡ provider.digest_utf8 q.canonical_material
          → p.canonical_material ≡ q.canonical_material)
      → Explains a b known incoming
          (classify_duplicate_identity x.identity y.identity p.identity q.identity)
  classify_duplicate_identity-Explains a b known incoming x y p q made_x made_y made_p made_q
        apart_events apart_contents =
      classify_duplicate_identity-decided a b known incoming x.identity y.identity p.identity
        q.identity (identity-source a b x y made_x made_y apart_events)
        (identity-content known incoming p q made_p made_q apart_contents)
