-- ===== src/Display/Claims/Shown.antt =====
-- The claims of a whole configuration: pkg/credentialschema/credentialdisplay.go.
use openvino_wallet.Base.{
  none, some, [], All, List, String, Bool, ◌≡◌, Option, ◌&&◌, map, refl, Bool-cases, inl, inr, ◌≢◌,
}
use openvino_wallet.Display.Model.{External, ResolvedClaim, Subject}
use openvino_wallet.Run.Rules.{
  returned, Returns, after, Returns-mono, after_lift, after_deref, Same, after_done,
}
use openvino_wallet.Display.Claims.{
  resolve_claim, resolve_value, claim_mask, Resolving, claim_attachment, is_non_claim_data,
  resolve_claim_all_locale, resolve_claims, resolve_claims_all_locale, resolve_unless_skipped,
  resolve_value_all_locale, resolve_there, resolve_there_all_locale,
}
use openvino_wallet.IssuerMetadata.{Claim, CredentialConfigurationSupported}
use openvino_wallet.Http.{World}
use openvino_wallet.Display.Value.{get_matching_claim_value}
use openvino_wallet.Display.Locale.{get_localized_label}
use openvino_wallet.Display.Claims.Laws.{
  IsOf, HasMask, is_kept, is_shown, names_of, Fits, IsSubjectOf, claim_mask-Same,
  resolve_each-names, with_displays-Fits, found_value-Fits, label_or-ne-none, IsWhole,
}
use openvino_wallet.Run.{deref}

-- The entry that a shown claim gives.
abbrev Entry :
    {A : Type 0} (raw_id : A → String) (P : A → Type 0) → String → World → Option A → World → Type 0
Entry {A} raw_id P name w o t = (t ≡ w) × ((x : A) × (o ≡ some x) × (raw_id x ≡ name) × P x)

module _ (ext : External) (r : Resolving) (name : String) (claim : Claim) (w : World)
    (mask : HasMask claim) where
  resolve_value-Entry :
      (label : String × String)
      → Returns (Entry (λ x. x.raw_id) (IsOf ext r) name w) (Same w) (
          resolve_value ext r name claim label (get_matching_claim_value ext r.vc r.subject name) w)
  unfolding resolve_value
  resolve_value-Entry label =
      let v = get_matching_claim_value ext r.vc r.subject name in
      after_lift (claim_attachment ext claim v) _ w (λ e h. refl)
        λ attachment h.
          after (claim_mask ext claim r.masking_string (ext.print v)) _ w
            (claim_mask-Same ext claim r.masking_string (ext.print v) w mask)
            λ value t p. returned (p, (_, refl, refl, (refl, refl)))

  resolve_there-Fits :
      (preferred : String)
      → Returns
          (λ o t. (t ≡ w) × Fits (λ x. x.raw_id) (IsOf ext r) (is_shown ext r name claim) name o)
          (Same w)
          (resolve_there ext r preferred name claim w)
  unfolding resolve_there is_shown get_localized_label
  resolve_there-Fits preferred =
      let v = get_matching_claim_value ext r.vc r.subject name in
      with_displays-Fits (λ x. x.raw_id) (IsOf ext r) v name claim.localized_claim_displays w _
        λ some_display.
          after_deref _ _ w (label_or-ne-none _ claim.localized_claim_displays some_display)
            λ label h.
              found_value-Fits (λ x. x.raw_id) (IsOf ext r) v name _ w _ some_display
                λ there. resolve_value-Entry label

  resolve_claim-Fits :
      (preferred : String)
      → Returns
          (λ o t. (t ≡ w) × Fits (λ x. x.raw_id) (IsOf ext r) (is_shown ext r name claim) name o)
          (Same w)
          (resolve_claim ext r preferred name (some claim) w)
  unfolding resolve_claim deref
  resolve_claim-Fits preferred =
      after_done (deref (some claim)) (resolve_there ext r preferred name) w refl
        (resolve_there-Fits preferred)

  resolve_value_all_locale-Entry :
      Returns (Entry (λ x. x.raw_id) (IsSubjectOf ext r) name w) (Same w) (
        resolve_value_all_locale ext r name claim
          (get_matching_claim_value ext r.vc r.subject name)
          w)
  unfolding resolve_value_all_locale
  resolve_value_all_locale-Entry =
      let v = get_matching_claim_value ext r.vc r.subject name in
      after_lift (claim_attachment ext claim v) _ w (λ e h. refl)
        λ attachment h.
          after (claim_mask ext claim r.masking_string (ext.print v)) _ w
            (claim_mask-Same ext claim r.masking_string (ext.print v) w mask)
            λ value t p. returned (p, (_, refl, refl, (refl, refl)))

  resolve_there_all_locale-Fits :
      Returns
        (λ o t.
          (t ≡ w) × Fits (λ x. x.raw_id) (IsSubjectOf ext r) (is_shown ext r name claim) name o)
        (Same w)
        (resolve_there_all_locale ext r name claim w)
  unfolding resolve_there_all_locale is_shown
  resolve_there_all_locale-Fits =
      let v = get_matching_claim_value ext r.vc r.subject name in
      with_displays-Fits (λ x. x.raw_id) (IsSubjectOf ext r) v name claim.localized_claim_displays w
        _
        λ some_display.
          found_value-Fits (λ x. x.raw_id) (IsSubjectOf ext r) v name _ w _ some_display
            λ there. resolve_value_all_locale-Entry

  resolve_claim_all_locale-Fits :
      Returns
        (λ o t.
          (t ≡ w) × Fits (λ x. x.raw_id) (IsSubjectOf ext r) (is_shown ext r name claim) name o)
        (Same w)
        (resolve_claim_all_locale ext r name (some claim) w)
  unfolding resolve_claim_all_locale deref
  resolve_claim_all_locale-Fits =
      after_done (deref (some claim)) (resolve_there_all_locale ext r name) w refl
        resolve_there_all_locale-Fits

  resolve_unless_skipped-Fits :
      (skip : Bool)
      → Returns
          (λ o t.
            (t ≡ w)
            × Fits (λ x. x.raw_id) (IsSubjectOf ext r) (is_kept ext r skip name claim) name o)
          (Same w)
          (resolve_unless_skipped ext r skip name (some claim) w)
  unfolding resolve_unless_skipped is_kept
  resolve_unless_skipped-Fits skip = elim (Bool-cases (skip && is_non_claim_data name)) [
    | inl skipped ↦ rw skipped (returned (refl, refl))
    | inr kept ↦ rw kept resolve_claim_all_locale-Fits
  ]

-- The claims of a configuration that has a definition.
abbrev pub claims_of : CredentialConfigurationSupported → List (String × Option Claim)
claims_of c = elim c.credential_definition [ none ↦ [] | some d ↦ d.credential_subject ]

-- The definition and its claims are there, and every mask can be cut.
abbrev pub IsUsable : CredentialConfigurationSupported → Type 0
IsUsable c = (c.credential_definition ≢ none) × All (λ n. IsWhole n.1) (claims_of c)

-- The entries are those of the claims that are shown, in order, each with the value found for it.
pub record AreShown (ext : External) (r : Resolving) (claims : List ResolvedClaim) : Type 0 where
  pub names : map (λ x. x.raw_id) claims ≡ names_of (is_shown ext r) (claims_of r.config)
  pub values : All (IsOf ext r) claims

pub record AreKept (ext : External) (r : Resolving) (skip : Bool) (claims : List Subject)
    : Type 0 where
  pub names : map (λ x. x.raw_id) claims ≡ names_of (is_kept ext r skip) (claims_of r.config)
  pub values : All (IsSubjectOf ext r) claims

module _ (ext : External) (r : Resolving) (w : World) (usable : IsUsable r.config) where
  pub resolve_claims-AreShown :
      (preferred : String)
      → Returns
          (λ claims t. (t ≡ w) × AreShown ext r claims)
          (Same w)
          (resolve_claims ext r preferred w)
  unfolding resolve_claims is_shown
  resolve_claims-AreShown preferred = after_deref r.config.credential_definition _ w usable.0 λ d h.
      let masks : All (λ n. IsWhole n.1) d.credential_subject = rw h at usable.1 in
      Returns-mono (λ claims t p. (p.0, record { names = rw h p.1; values = p.2 })) (λ e t p. p)
        (resolve_each-names (resolve_claim ext r preferred) (is_shown ext r) (λ x. x.raw_id)
          (IsOf ext r) (λ name claim v mask. resolve_claim-Fits ext r name claim v mask preferred)
          d.credential_subject w masks)

  pub resolve_claims_all_locale-AreKept :
      (skip : Bool)
      → Returns
          (λ claims t. (t ≡ w) × AreKept ext r skip claims)
          (Same w)
          (resolve_claims_all_locale ext r skip w)
  unfolding resolve_claims_all_locale is_kept
  resolve_claims_all_locale-AreKept skip =
      after_deref r.config.credential_definition _ w usable.0 λ d h.
        let masks : All (λ n. IsWhole n.1) d.credential_subject = rw h at usable.1 in
        Returns-mono (λ claims t p. (p.0, record { names = rw h p.1; values = p.2 })) (λ e t p. p)
          (resolve_each-names (resolve_unless_skipped ext r skip) (is_kept ext r skip)
            (λ x. x.raw_id) (IsSubjectOf ext r)
            (λ name claim v mask. resolve_unless_skipped-Fits ext r name claim v mask skip)
            d.credential_subject w masks)
