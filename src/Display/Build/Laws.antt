-- ===== src/Display/Build/Laws.antt =====
-- The displays of credentials and of offered types: pkg/credentialschema/credentialdisplay.go.
use openvino_wallet.Base.{
  none, some, [], ◌∷◌, All, Pairwise, no_pairs, pair, List, String, Option, ◌≡◌, refl,
}
use openvino_wallet.Display.Model.{
  External, CredentialDisplay, CredentialConfigMapping, VerifiableCredential, VerifiableSubject,
}
use openvino_wallet.Run.Rules.{
  returned, failed, Returns, after, after_lift, Returns-mono, Same, after_done,
}
use openvino_wallet.Display.Claims.Shown.{IsUsable, AreShown, resolve_claims-AreShown}
use openvino_wallet.Display.Build.{
  build_credential_displays, build_one, displayed_subject, get_subject, build_credential_display,
  build_default_credential_display, require_credential,
}
use openvino_wallet.Http.{World}
use openvino_wallet.IssuerMetadata.{CredentialConfigurationSupported}
use openvino_wallet.Run.{lift, ok, deref, M}
use openvino_wallet.Display.Claims.{Resolving, resolve_claims}
use openvino_wallet.Display.Locale.{get_overview_display}

-- The configuration of a mapping, if it has one, is there and usable.
abbrev pub IsReady : List (String × Option CredentialConfigurationSupported) → Type 0
IsReady [] = Unit
IsReady ((id, none) ∷ more) = ⊥
IsReady ((id, some c) ∷ more) = IsUsable c

-- The one subject of the credential with its disclosures.
abbrev pub IsSubjectOf : External → VerifiableCredential → VerifiableSubject → Type 0
IsSubjectOf ext vc subject =
    (display_vc : VerifiableCredential) × (ext.create_display_credential vc ≡ ok display_vc)
    × (display_vc.subjects ≡ subject ∷ [])

abbrev resolving :
    VerifiableCredential → VerifiableSubject → CredentialConfigurationSupported → String → Resolving
resolving vc subject c masking = record {
  vc = vc;
  subject = subject;
  config = c;
  masking_string = masking;
}

-- By the configuration if there is one, and else from the subject alone.
abbrev pub Shows :
    External
    → String
    → String
    → VerifiableCredential
    → VerifiableSubject
    → List (String × Option CredentialConfigurationSupported)
    → CredentialDisplay
    → Type 0
Shows ext preferred masking vc subject [] d = d ≡ build_default_credential_display ext vc.id subject
Shows ext preferred masking vc subject ((id, none) ∷ more) d = ⊥
Shows ext preferred masking vc subject ((id, some c) ∷ more) d =
    (d.overview ≡ get_overview_display ext c preferred)
    × AreShown ext (resolving vc subject c masking) d.claims

pub record IsDisplayOf (ext : External) (preferred masking : String) (m : CredentialConfigMapping)
    (d : CredentialDisplay) : Type 0 where
  pub vc : VerifiableCredential
  pub has_vc : m.credential ≡ some vc
  pub subject : VerifiableSubject
  pub has_subject : IsSubjectOf ext vc subject
  pub shows : Shows ext preferred masking vc subject m.config d

get_subject-one :
    (vc : VerifiableCredential) (w : World)
    → Returns (λ s t. (t ≡ w) × (vc.subjects ≡ s ∷ [])) (Same w) (lift (get_subject vc) w)
unfolding get_subject lift
get_subject-one vc w = go vc.subjects refl
  where
    go :
        (ss : List VerifiableSubject)
        → vc.subjects ≡ ss
        → Returns
            (λ s t. (t ≡ w) × (vc.subjects ≡ s ∷ []))
            (Same w)
            (lift (get_subject (record vc { subjects = ss })) w)
    go [] h = failed refl
    go (s ∷ []) h = returned (refl, h)
    go (s ∷ t ∷ more) h = failed refl

displayed_subject-IsSubjectOf :
    (ext : External) (vc : VerifiableCredential) (w : World)
    → Returns (λ s t. (t ≡ w) × IsSubjectOf ext vc s) (Same w) (displayed_subject ext vc w)
unfolding displayed_subject
displayed_subject-IsSubjectOf ext vc w =
    after_lift (ext.create_display_credential vc) _ w (λ e h. refl)
      λ display_vc h.
        Returns-mono (λ s t p. (p.0, (display_vc, h, p.1))) (λ e t p. p)
          (get_subject-one display_vc w)

module _ (ext : External) (preferred masking : String) (vc : VerifiableCredential) (w : World) where
  build_one-Shows :
      (config : List (String × Option CredentialConfigurationSupported))
      → IsReady config
      → Returns
          (λ d t.
            (t ≡ w)
            × ((s : VerifiableSubject) × IsSubjectOf ext vc s
                × Shows ext preferred masking vc s config d))
          (Same w)
          (build_one ext preferred masking vc config w)
  unfolding build_one build_credential_display deref
  build_one-Shows [] ready =
      after (displayed_subject ext vc) _ w (displayed_subject-IsSubjectOf ext vc w)
        λ s t p. returned (p.0, (s, p.1, refl))
  build_one-Shows ((id, none) ∷ more) ready = elim ready [ ]
  build_one-Shows ((id, some c) ∷ more) ready =
      after (displayed_subject ext vc) _ w (displayed_subject-IsSubjectOf ext vc w) λ s t p.
        rw p.0 (
          after_done (deref (some c))
            (λ c'. build_credential_display ext (resolving vc s c' masking) preferred) w refl
            (after (resolve_claims ext (resolving vc s c masking) preferred) _ w
              (resolve_claims-AreShown ext (resolving vc s c masking) w ready preferred)
              λ claims u q. returned (q.0, (s, p.1, (refl, q.1)))))

require_credential_lem :
    {A : Type 0} {Q : A → World → Type 0} (o : Option VerifiableCredential)
    (f : VerifiableCredential → M World A) (w : World)
    → ((vc : VerifiableCredential) → o ≡ some vc → Returns Q (Same w) (f vc w))
    → Returns Q (Same w) (require_credential o f w)
require_credential_lem none f w h = failed refl
require_credential_lem (some vc) f w h = h vc refl

require_credential-IsDisplayOf :
    (ext : External) (preferred masking : String) (m : CredentialConfigMapping) (w : World)
    → IsReady m.config
    → Returns
        (λ d t. (t ≡ w) × IsDisplayOf ext preferred masking m d)
        (Same w)
        (require_credential m.credential (λ vc. build_one ext preferred masking vc m.config) w)
require_credential-IsDisplayOf ext preferred masking m w ready =
    require_credential_lem m.credential _ w λ vc there.
      Returns-mono
        (λ d t p. (
          p.0,
          record { vc = vc; has_vc = there; subject = p.1.0; has_subject = p.1.1; shows = p.1.2 },
        ))
        (λ e t p. p) (build_one-Shows ext preferred masking vc w m.config ready)

-- Where every configuration has a definition, whose claims are no nil pointers and have masks that
-- are empty or have at least seven bytes, the displays of credentials are made without a panic. On success there is one display for each
-- credential, in order. Each credential was there and had one subject. Without a configuration the
-- display is the default one; with one the overview is that of the configuration, and the claims are
-- those of its definition that have display data and a value, in order, each with its value and its
-- place in the order of the configuration. Nothing is sent.
pub build_credential_displays-AreDisplays :
    (ext : External) (preferred masking : String) (ms : List CredentialConfigMapping) (w : World)
    → All (λ m. IsReady m.config) ms
    → Returns
        (λ ds t. (t ≡ w) × Pairwise (IsDisplayOf ext preferred masking) ms ds)
        (Same w)
        (build_credential_displays ext preferred masking ms w)
unfolding build_credential_displays
build_credential_displays-AreDisplays ext preferred masking [] w ready = returned (refl, no_pairs)
build_credential_displays-AreDisplays ext preferred masking (m ∷ ms) w ready =
    after (require_credential m.credential (λ vc. build_one ext preferred masking vc m.config)) _ w
      (require_credential-IsDisplayOf ext preferred masking m w ready.0)
      λ d t p. rw p.0 (
        after (build_credential_displays ext preferred masking ms) _ w
          (build_credential_displays-AreDisplays ext preferred masking ms w ready.1)
          λ ds u q. returned (q.0, pair p.1 q.1))
