-- ===== src/Display/Options/Laws.antt =====
-- Which options are accepted, and what is resolved from them: pkg/credentialschema/opts.go.
use openvino_wallet.Base.{
  inl, inr, none, some, length, List, ◌≡◌, ◌≢◌, Option, arith, ◌⊎◌, String, refl, ◌↔◌, is_empty,
  true, false, eq_iff, Bool-cases, Option-cases,
}
use openvino_wallet.Display.Model.{CredentialSource, ResolveOpts, VerifiableCredential}
use openvino_wallet.Display.Options.{
  validate_vc_opts, validate_issuer_metadata_opts, validate_opts, first_error,
}
use openvino_wallet.Run.{Result}
use openvino_wallet.Errors.{GoError}
use openvino_wallet.IssuerMetadata.{Metadata}

-- What the options of the credentials are to be: credentials with no IDs or one for each, or else a
-- reader with some IDs, and never both.
pub data IsChosen (s : CredentialSource) : Type 0 where
  by_value :
      {vcs : List (Option VerifiableCredential)}
      → s.vcs ≡ some vcs
      → s.reader ≡ none
      → (length s.credential_config_ids ≡ 0) ⊎ (length s.credential_config_ids ≡ length vcs)
      → IsChosen s
  by_reader :
      {get : String → Result (Option VerifiableCredential)}
      → s.vcs ≡ none
      → s.reader ≡ some get
      → length s.ids ≢ 0
      → IsChosen s

-- There is a source of the metadata.
abbrev pub HasMetadata : ResolveOpts → Type 0
HasMetadata o =
    (o.issuer_metadata_source.issuer_uri ≢ "") ⊎ (o.issuer_metadata_source.metadata ≢ none)

validate_vc_opts_sound : (s : CredentialSource) → validate_vc_opts s ≡ none → IsChosen s
unfolding validate_vc_opts
validate_vc_opts_sound s h = go s.vcs s.reader refl refl
  where
    go :
        (vcs : Option (List (Option VerifiableCredential)))
        (reader : Option (String → Result (Option VerifiableCredential)))
        → s.vcs ≡ vcs
        → s.reader ≡ reader
        → IsChosen s
    go none none p q = absurd (ground arith)
    go none (some get) p q = by_reader p q (ground arith)
    go (some vcs) none p q = by_value p q (ground arith)
    go (some vcs) (some get) p q = absurd (ground arith)

validate_vc_opts_complete : (s : CredentialSource) → IsChosen s → validate_vc_opts s ≡ none
unfolding validate_vc_opts
validate_vc_opts_complete s (by_value p q n) = ground arith
validate_vc_opts_complete s (by_reader p q n) = ground arith

validate_issuer_metadata_opts_iff :
    (o : ResolveOpts)
    → (validate_issuer_metadata_opts o.issuer_metadata_source ≡ none) ↔ HasMetadata o
unfolding validate_issuer_metadata_opts
validate_issuer_metadata_opts_iff o = (
  λ h.
      sound (Bool-cases (is_empty o.issuer_metadata_source.issuer_uri))
        (Option-cases o.issuer_metadata_source.metadata) h,
  complete,
)
  where
    sound :
        (is_empty o.issuer_metadata_source.issuer_uri ≡ true)
          ⊎ (is_empty o.issuer_metadata_source.issuer_uri ≡ false)
        → (o.issuer_metadata_source.metadata ≡ none)
          ⊎ ((m : Metadata) × (o.issuer_metadata_source.metadata ≡ some m))
        → validate_issuer_metadata_opts o.issuer_metadata_source ≡ none
        → HasMetadata o
    sound (inl empty) (inl missing) h = absurd (ground arith)
    sound (inl empty) (inr (m, there)) h = inr (λ p. cc)
    sound (inr given) missing h =
        inl (λ p. ground (arith, eq_iff o.issuer_metadata_source.issuer_uri ""))

    complete : HasMetadata o → validate_issuer_metadata_opts o.issuer_metadata_source ≡ none
    complete (inl given) = ground (arith, eq_iff o.issuer_metadata_source.issuer_uri "")
    complete (inr there) = ground arith

first_error-none : (a b : Option GoError) → (first_error a b ≡ none) ↔ ((a ≡ none) × (b ≡ none))
first_error-none none b = (λ h. (refl, h), λ p. p.1)
first_error-none (some e) b = (λ h. absurd (ground arith), λ p. absurd (ground arith))

-- The options are accepted exactly if one source of credentials is given (credentials, with no
-- configuration IDs or one for each, or a reader with at least one ID, and never both) and a source
-- of the issuer's metadata (a URI, or the metadata, or both).
pub validate_opts_iff :
    (o : ResolveOpts) → (validate_opts o ≡ none) ↔ (IsChosen o.credential_source × HasMetadata o)
unfolding validate_opts
validate_opts_iff o =
    let both =
      first_error-none (validate_vc_opts o.credential_source)
        (validate_issuer_metadata_opts o.issuer_metadata_source) in
    (
      λ h. (
        validate_vc_opts_sound o.credential_source (both.0 h).0,
        (validate_issuer_metadata_opts_iff o).0 (both.0 h).1,
      ),
      λ p. both.1 (
        validate_vc_opts_complete o.credential_source p.0,
        (validate_issuer_metadata_opts_iff o).1 p.1,
      ),
    )
