-- ===== src/Display/Process/Laws.antt =====
-- What accepted options are resolved to: pkg/credentialschema/opts.go.
use openvino_wallet.Base.{
  [], ◌∷◌, inl, inr, none, some, length, List, ◌≡◌, ◌≢◌, Option, arith, String, refl, All, ℕ, ap,
  Bool-cases, suc, Option-cases, ◌∙◌, lookup, str_eq,
}
use openvino_wallet.Display.Model.{
  CredentialSource, VerifiableCredential, CredentialConfigMapping, External,
}
use openvino_wallet.Run.{Result, ok, deref, give, done}
use openvino_wallet.Display.Options.{validate_opts, ResolveOpt, merge_opts}
use openvino_wallet.Display.Process.{
  map_vcs, process_vc_opts, read_vcs, read_ids, config_of, fill_configs, matching_config,
  named_config, matched_config, Processed, process_issuer_metadata_opts, process_opts,
  process_validated_opts,
}
use openvino_wallet.Http.{World}
use openvino_wallet.Run.Rules.{
  Returns, Same, returned, after_lift, after, after_done, failed, after_deref, after_fail_with,
}
use openvino_wallet.IssuerMetadata.{Metadata, CredentialConfigurationSupported}
use openvino_wallet.Display.Build.Offers.{find_config, shares_type, first_matching-find}
use openvino_wallet.Display.Claims.Shown.{IsUsable}
use openvino_wallet.Display.Build.Laws.{IsReady}
use mathlib.Core.Path.{subst}
use openvino_wallet.Display.Build.{first_matching}
use openvino_wallet.Display.Options.Laws.{IsChosen, by_value, by_reader, validate_opts_iff}

-- How many credentials the options stand for.
abbrev pub wanted : CredentialSource → ℕ
wanted s = elim s.vcs [ none ↦ length s.ids | some vcs ↦ length vcs ]

-- No credential is a nil pointer.
abbrev pub AllThere : CredentialSource → Type 0
AllThere s =
    ((vcs : List (Option VerifiableCredential)) → s.vcs ≡ some vcs → All (λ vc. vc ≢ none) vcs)
    × ((get : String → Result (Option VerifiableCredential)) (id : String)
        → s.reader ≡ some get
        → get id ≢ ok none)

abbrev IsPresent : CredentialConfigMapping → Type 0
IsPresent m = m.credential ≢ none

map_vcs-IsPresent :
    (vcs : List (Option VerifiableCredential)) (ids : List String)
    → All (λ vc. vc ≢ none) vcs
    → (length (map_vcs vcs ids) ≡ length vcs) × All IsPresent (map_vcs vcs ids)
unfolding map_vcs
map_vcs-IsPresent [] ids h = (refl, tt)
map_vcs-IsPresent (vc ∷ vcs) [] h = let r = map_vcs-IsPresent vcs [] h.1 in (ap suc r.0, (h.0, r.1))
map_vcs-IsPresent (vc ∷ vcs) (id ∷ ids) h =
    let r = map_vcs-IsPresent vcs ids h.1 in (ap suc r.0, (h.0, r.1))

read_vcs-IsPresent :
    (get : String → Result (Option VerifiableCredential)) (ids : List String) (w : World)
    → ((id : String) → get id ≢ ok none)
    → Returns
        (λ ms t. (t ≡ w) × (length ms ≡ length ids) × All IsPresent ms)
        (Same w)
        (read_vcs get ids w)
unfolding read_vcs
read_vcs-IsPresent get [] w h = returned (refl, refl, tt)
read_vcs-IsPresent get (id ∷ ids) w h =
    after_lift (get id) _ w (λ e p. refl)
      λ vc p.
        after (read_vcs get ids) _ w (read_vcs-IsPresent get ids w h)
          λ ms t q. returned (q.0, ap suc q.1, ((λ m. h id (p ∙ ap ok m)), q.2))

read_ids-IsPresent :
    (get : String → Result (Option VerifiableCredential)) (ids : List String) (w : World)
    → ((id : String) → get id ≢ ok none)
    → Returns
        (λ ms t. (t ≡ w) × (length ms ≡ length ids) × All IsPresent ms)
        (Same w)
        (read_ids (some get) ids w)
unfolding read_ids deref
read_ids-IsPresent get [] w h = returned (refl, refl, tt)
read_ids-IsPresent get (id ∷ ids) w h =
    after_done (deref (some get)) (λ g. read_vcs g (id ∷ ids)) w refl
      (read_vcs-IsPresent get (id ∷ ids) w h)

-- Accepted options give one mapping for each credential, or an error of the reader, and no panic.
process_vc_opts-IsPresent :
    (s : CredentialSource) (w : World)
    → IsChosen s
    → AllThere s
    → Returns
        (λ ms t. (t ≡ w) × (length ms ≡ wanted s) × All IsPresent ms)
        (Same w)
        (process_vc_opts s w)
unfolding process_vc_opts read_ids
process_vc_opts-IsPresent s w (by_value {vcs} p q n) there =
    let r = map_vcs-IsPresent vcs s.credential_config_ids (there.0 vcs p) in
    rw p (returned (refl, r.0, r.1))
process_vc_opts-IsPresent s w (by_reader {get} p q n) there =
    rw (p, q) (read_ids-IsPresent get s.ids w λ id. there.1 get id q)

lookup-All :
    {V : Type 0} (P : V → Type 0) (k : String) (xs : List (String × V)) (v : V)
    → All (λ x. P x.1) xs
    → lookup k xs ≡ some v
    → P v
lookup-All P k [] v h found = absurd (ground arith)
lookup-All P k ((j, u) ∷ xs) v h found = elim (Bool-cases (str_eq j k)) [
  | inl hit ↦ subst P (ground arith) h.0
  | inr miss ↦ lookup-All P k xs v h.1 (rw miss at found)
]

find_config-All :
    (P : CredentialConfigurationSupported → Type 0) (ext : External) (types : List String)
    (cs : List (String × CredentialConfigurationSupported))
    (c : String × CredentialConfigurationSupported)
    → All (λ x. P x.1) cs
    → find_config ext types cs ≡ some c
    → P c.1
unfolding find_config
find_config-All P ext types [] c h found = absurd (ground arith)
find_config-All P ext types (d ∷ cs) c h found = elim (Bool-cases (shares_type ext types d.1)) [
  | inl hit ↦
      subst {A = String × CredentialConfigurationSupported} (λ x. P x.1) {x = d} {y = c}
        (ground arith) h.0
  | inr miss ↦ find_config-All P ext types cs c h.1 (rw miss at found)
]

All-mono :
    {A : Type 0} {P Q : A → Type 0} (xs : List A) → ((x : A) → P x → Q x) → All P xs → All Q xs
All-mono [] f h = tt
All-mono (x ∷ xs) f h = (f x h.0, All-mono xs f h.1)

module _ (ext : External) (m : Metadata)
    (usable : All (λ c. IsUsable c.1) m.credential_configurations_supported) where
  named_config-IsReady :
      (id : String) (w : World)
      → Returns (λ config t. (t ≡ w) × IsReady config) (Same w) (named_config m id w)
  unfolding named_config
  named_config-IsReady id w =
      elim (Option-cases (lookup id m.credential_configurations_supported)) [
        | inl missing ↦ rw (missing, named_config) (failed refl)
        | inr (c, there) ↦
            rw (there, named_config)
              (returned
                (refl, lookup-All IsUsable id m.credential_configurations_supported c usable there))
      ]

  matched_config-IsReady :
      (types : List String) (cs : List (String × CredentialConfigurationSupported))
      → All (λ c. IsUsable c.1) cs
      → (o : Option (String × CredentialConfigurationSupported)) → find_config ext types cs ≡ o
      → IsReady (matched_config o)
  matched_config-IsReady types cs good none h = tt
  matched_config-IsReady types cs good (some c) h = find_config-All IsUsable ext types cs c good h

  matching_config-IsReady :
      (cs : List (String × CredentialConfigurationSupported)) (vc : Option VerifiableCredential)
      (w : World)
      → All (λ c. IsUsable c.1) cs
      → vc ≢ none
      → Returns (λ config t. (t ≡ w) × IsReady config) (Same w) (matching_config ext cs vc w)
  unfolding matching_config
  matching_config-IsReady [] vc w good there = returned (refl, tt)
  matching_config-IsReady (c ∷ cs) vc w good there = after_deref vc _ w there λ v h.
      after_done (first_matching ext v.types (c ∷ cs)) (λ found. give (matched_config found)) w
        (first_matching-find ext w v.types (c ∷ cs)
          (All-mono {P = λ x. IsUsable x.1} (c ∷ cs) (λ x u. u.0) good))
        (returned (refl, matched_config-IsReady v.types (c ∷ cs) good _ refl))

  config_of-IsReady :
      (mapping : CredentialConfigMapping) (w : World)
      → IsPresent mapping
      → Returns (λ config t. (t ≡ w) × IsReady config) (Same w) (config_of ext m mapping w)
  unfolding config_of
  config_of-IsReady mapping w there = go mapping.config refl
    where
      go :
          (config : List (String × Option CredentialConfigurationSupported))
          → mapping.config ≡ config
          → Returns (λ config t. (t ≡ w) × IsReady config) (Same w) (config_of ext m mapping w)
      go [] p = rw p (
          matching_config-IsReady m.credential_configurations_supported mapping.credential w usable
            there)
      go ((id, config) ∷ more) p = rw p (named_config-IsReady id w)

  fill_configs-IsReady :
      (ms : List CredentialConfigMapping) (w : World)
      → All IsPresent ms
      → Returns
          (λ filled t. (t ≡ w) × (length filled ≡ length ms) × All (λ x. IsReady x.config) filled)
          (Same w)
          (fill_configs ext m ms w)
  unfolding fill_configs
  fill_configs-IsReady [] w there = returned (refl, refl, tt)
  fill_configs-IsReady (mapping ∷ ms) w there =
      after (config_of ext m mapping) _ w (config_of-IsReady mapping w there.0) λ config t p.
        rw p.0 (
          after (fill_configs ext m ms) _ w (fill_configs-IsReady ms w there.1)
            λ filled u q. returned (q.0, ap suc q.1, (p.1, q.2)))

-- Accepted options whose metadata is given and usable are processed without a panic.
module _ (ext : External) (opts : List ResolveOpt) (m : Metadata) (w : World)
    (given : (merge_opts opts).issuer_metadata_source.metadata ≡ some m)
    (usable : All (λ c. IsUsable c.1) m.credential_configurations_supported)
    (there : AllThere (merge_opts opts).credential_source) where
  process_issuer_metadata_opts-given :
      (t : World) → process_issuer_metadata_opts ext (merge_opts opts) t ≡ done m t
  unfolding process_issuer_metadata_opts
  process_issuer_metadata_opts-given t = rw (given, process_issuer_metadata_opts)

  -- What the credentials are then resolved with.
  pub record IsProcessed (p : Processed) : Type 0 where
    pub one_each : length p.mappings ≡ wanted (merge_opts opts).credential_source
    pub ready : All (λ x. IsReady x.config) p.mappings
    pub same_metadata : p.metadata ≡ m
    pub same_locale : p.preferred_locale ≡ (merge_opts opts).preferred_local

  pub process_opts-IsProcessed :
      Returns (λ p t. (t ≡ w) × IsProcessed p) (Same w) (process_opts ext opts w)
  unfolding process_opts process_validated_opts
  process_opts-IsProcessed =
      let o = merge_opts opts in
      after_fail_with (validate_opts o) _ w (λ e h. refl)
        λ valid.
          after (process_vc_opts o.credential_source) _ w
            (process_vc_opts-IsPresent o.credential_source w ((validate_opts_iff o).0 valid).0
              there)
            λ ms t p. rw p.0 (
              after_done (process_issuer_metadata_opts ext o) _ w
                (process_issuer_metadata_opts-given w)
                (after (fill_configs ext m ms) _ w (fill_configs-IsReady ext m usable ms w p.2)
                  λ filled u q. returned (
                    q.0,
                    record {
                      one_each = q.1 ∙ p.1;
                      ready = q.2;
                      same_metadata = refl;
                      same_locale = refl;
                    },
                  )))
