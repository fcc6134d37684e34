-- ===== src/Display/Locale/Laws.antt =====
-- How a display is chosen by the preferred locale: pkg/credentialschema/issuerdisplay.go and
-- credentialdisplay.go.
use mathlib.Core.Option
use openvino_wallet.Base.{
  ℕ, suc, String, Bool, Option, none, some, List, [], ◌∷◌, map, if◌then◌else◌, get_elem?, ◌≡◌, refl,
  Bool-cases, Option-cases, sym, ap, ◌⊎◌, inl, inr, arith,
}
use openvino_wallet.Run.{deref}
use openvino_wallet.IssuerMetadata.{
  CredentialConfigurationSupported, Claim, LocalizedClaimDisplay, LocalizedCredentialDisplay,
  LocalizedIssuerDisplay,
}
use openvino_wallet.Display.Model.{External, ResolvedIssuerDisplay, CredentialOverview}
use openvino_wallet.Display.Locale.{
  or_default, head?, matching_label, label_or, get_localized_label, matching_overview, overview_or,
  get_overview_display, empty_overview, issuer_credential_display_to_resolved_credential_overview,
  issuer_display_or, get_issuer_display, resolved_issuer_display,
}

-- The place of the first locale that matches.
unfoldable pub first_match : (String → Bool) → List String → Option ℕ
first_match test [] = none
first_match test (l ∷ ls) = if test l then some 0 else Option.map suc (first_match test ls)

abbrev or_zero : Option ℕ → ℕ
or_zero none = 0
or_zero (some i) = i

-- The place of the first locale that matches, or the first place.
abbrev pub choice : (String → Bool) → List String → ℕ
choice test ls = or_zero (first_match test ls)

-- What is at a place that may be none.
abbrev at {ℓ} : {A : Type ℓ} → List A → Option ℕ → Option A
at xs none = none
at xs (some i) = get_elem? xs i

at-suc {ℓ} :
    {A : Type ℓ} (x : A) (xs : List A) (o : Option ℕ) → at (x ∷ xs) (Option.map suc o) ≡ at xs o
at-suc x xs none = refl
at-suc x xs (some i) = refl

head?-get {ℓ} : {A : Type ℓ} (xs : List A) → head? xs ≡ get_elem? xs 0
head?-get [] = refl
head?-get (x ∷ xs) = refl

matching_label-at :
    (ext : External) (p : String) (ds : List LocalizedClaimDisplay)
    → matching_label ext p ds ≡ at ds (first_match (ext.equal_fold p) (map (λ d. d.locale) ds))
unfolding matching_label first_match
matching_label-at ext p [] = refl
matching_label-at ext p (d ∷ ds) = elim (Bool-cases (ext.equal_fold p d.locale)) [
  | inl hit ↦ rw hit
  | inr miss ↦
      rw (miss, at-suc d ds (first_match (ext.equal_fold p) (map (λ d. d.locale) ds)))
        (matching_label-at ext p ds)
]

matching_overview-at :
    (ext : External) (p : String) (ds : List LocalizedCredentialDisplay)
    → matching_overview ext p ds ≡ at ds (first_match (ext.equal_fold p) (map (λ d. d.locale) ds))
unfolding matching_overview first_match
matching_overview-at ext p [] = refl
matching_overview-at ext p (d ∷ ds) = elim (Bool-cases (ext.equal_fold p d.locale)) [
  | inl hit ↦ rw hit
  | inr miss ↦
      rw (miss, at-suc d ds (first_match (ext.equal_fold p) (map (λ d. d.locale) ds)))
        (matching_overview-at ext p ds)
]

issuer_or : ResolvedIssuerDisplay → Option LocalizedIssuerDisplay → ResolvedIssuerDisplay
issuer_or first none = first
issuer_or first (some d) = resolved_issuer_display d

-- `strings.EqualFold` is symmetric.
abbrev pub IsSymmetric : (String → String → Bool) → Type 0
IsSymmetric test = (s t : String) → test s t ≡ test t s

issuer_display_or-at :
    (ext : External) (p : String) (first : ResolvedIssuerDisplay) (ds : List LocalizedIssuerDisplay)
    → IsSymmetric ext.equal_fold
    → issuer_display_or ext p first ds
      ≡ issuer_or first (at ds (first_match (ext.equal_fold p) (map (λ d. d.locale) ds)))
unfolding issuer_display_or first_match issuer_or
issuer_display_or-at ext p first [] sy = refl
issuer_display_or-at ext p first (d ∷ ds) sy = elim (Bool-cases (ext.equal_fold p d.locale)) [
  | inl hit ↦ rw (sy d.locale p, hit)
  | inr miss ↦
      rw
        (sy d.locale p, miss, at-suc d ds (first_match (ext.equal_fold p) (map (λ d. d.locale) ds)))
        (issuer_display_or-at ext p first ds sy)
]

first_match-found :
    {A : Type 0} (test : String → Bool) (locale : A → String) (ds : List A) (i : ℕ)
    → first_match test (map locale ds) ≡ some i
    → (d : A) × (get_elem? ds i ≡ some d)
unfolding first_match
first_match-found test locale [] i h = cc
first_match-found test locale (d ∷ ds) i h = elim (Bool-cases (test (locale d))) [
  | inl hit ↦ (d, ground arith)
  | inr miss ↦ elim (Option-cases (first_match test (map locale ds))) [
    | inl missed ↦ absurd (ground arith)
    | inr (j, found) ↦
        let (d', at_j) = first_match-found test locale ds j found in (d', ground arith)
  ]
]

-- A match is at its place, and with no match the first place is chosen.
match-cases :
    {A : Type 0} (test : String → Bool) (locale : A → String) (ds : List A)
    → ((at ds (first_match test (map locale ds)) ≡ none)
        × (get_elem? ds (choice test (map locale ds)) ≡ head? ds))
      ⊎ ((d : A) × (at ds (first_match test (map locale ds)) ≡ some d)
          × (get_elem? ds (choice test (map locale ds)) ≡ some d))
unfolding first_match
match-cases test locale ds = elim (Option-cases (first_match test (map locale ds))) [
  | inl missed ↦ inl (rw missed, rw missed (sym (head?-get ds)))
  | inr (i, found) ↦
      let (d, at_i) = first_match-found test locale ds i found in
      inr (d, rw found at_i, rw found at_i)
]

-- The display at the chosen place, where there is one.
abbrev pub chosen : {A : Type 0} → External → String → (A → String) → List A → Option A
chosen ext preferred locale ds =
    get_elem? ds (choice (ext.equal_fold (or_default preferred)) (map locale ds))

abbrev pub label_of : LocalizedClaimDisplay → String × String
label_of d = (d.name, d.locale)

abbrev pub overview_of : Option LocalizedCredentialDisplay → CredentialOverview
overview_of none = empty_overview
overview_of (some d) = issuer_credential_display_to_resolved_credential_overview d

label_or-head :
    (ds : List LocalizedClaimDisplay) → label_or none (head? ds) ≡ Option.map label_of (head? ds)
label_or-head [] = refl
label_or-head (d ∷ ds) = refl

get_localized_label-chosen :
    (ext : External) (preferred : String) (claim : Claim)
    → get_localized_label ext preferred claim
      ≡ deref (
          Option.map label_of (chosen ext preferred (λ d. d.locale) claim.localized_claim_displays))
unfolding get_localized_label
get_localized_label-chosen ext preferred claim =
    let ds = claim.localized_claim_displays in
    elim (match-cases (ext.equal_fold (or_default preferred)) (λ d. d.locale) ds) [
      | inl (missed, first) ↦
          ap deref
            (rw (matching_label-at ext (or_default preferred) ds, missed, first) (label_or-head ds))
      | inr (d, hit, there) ↦
          ap deref (rw (matching_label-at ext (or_default preferred) ds, hit, there))
    ]

overview_or-head :
    (ds : List LocalizedCredentialDisplay) → overview_or none ds ≡ overview_of (head? ds)
overview_or-head [] = refl
overview_or-head (d ∷ ds) = refl

get_overview_display-chosen :
    (ext : External) (preferred : String) (c : CredentialConfigurationSupported)
    → get_overview_display ext c preferred
      ≡ overview_of (chosen ext preferred (λ d. d.locale) c.localized_credential_displays)
unfolding get_overview_display
get_overview_display-chosen ext preferred c =
    let ds = c.localized_credential_displays in
    elim (match-cases (ext.equal_fold (or_default preferred)) (λ d. d.locale) ds) [
      | inl (missed, first) ↦
          rw (matching_overview-at ext (or_default preferred) ds, missed, first)
            (overview_or-head ds)
      | inr (d, hit, there) ↦ rw (matching_overview-at ext (or_default preferred) ds, hit, there)
    ]

get_issuer_display-chosen :
    (ext : External) (preferred : String) (ds : List LocalizedIssuerDisplay)
    → IsSymmetric ext.equal_fold
    → get_issuer_display ext ds preferred
      ≡ Option.map resolved_issuer_display (chosen ext preferred (λ d. d.locale) ds)
unfolding get_issuer_display issuer_or
get_issuer_display-chosen ext preferred [] sy = refl
get_issuer_display-chosen ext preferred (d ∷ ds) sy =
    elim (match-cases (ext.equal_fold (or_default preferred)) (λ d. d.locale) (d ∷ ds)) [
      | inl (missed, first) ↦ rw (
        issuer_display_or-at ext (or_default preferred) (resolved_issuer_display d) (d ∷ ds) sy,
        missed,
        first,
      )
      | inr (d', hit, there) ↦ rw (
        issuer_display_or-at ext (or_default preferred) (resolved_issuer_display d) (d ∷ ds) sy,
        hit,
        there,
      )
    ]

-- Where equality up to case is symmetric, the three displays follow one rule: the label of a claim, the
-- overview of a credential and the issuer's display are taken from the first entry of their list
-- whose locale equals the preferred one up to case ("en-US" where none is preferred), and from the
-- first entry of all where no locale does. With an empty list the overview is empty, the issuer has
-- no display, and reading a label is a panic.
pub displays-AreChosen :
    (ext : External) (preferred : String)
    → IsSymmetric ext.equal_fold
    → ((claim : Claim)
        → get_localized_label ext preferred claim
          ≡ deref (
              Option.map label_of
                (chosen ext preferred (λ d. d.locale) claim.localized_claim_displays)))
      × ((c : CredentialConfigurationSupported)
          → get_overview_display ext c preferred
            ≡ overview_of (chosen ext preferred (λ d. d.locale) c.localized_credential_displays))
      × ((ds : List LocalizedIssuerDisplay)
          → get_issuer_display ext ds preferred
            ≡ Option.map resolved_issuer_display (chosen ext preferred (λ d. d.locale) ds))
displays-AreChosen ext preferred sy = (
  get_localized_label-chosen ext preferred,
  get_overview_display-chosen ext preferred,
  λ ds. get_issuer_display-chosen ext preferred ds sy,
)
