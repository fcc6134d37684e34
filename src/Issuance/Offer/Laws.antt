-- ===== src/Issuance/Offer/Laws.antt =====
-- The parameters taken from an offer: `determineCredentialParameters` of
-- pkg/openid4ci/issuerinitiatedinteraction.go.
use openvino_wallet.Base.{
  ◌++◌, List, String, ℕ, [], lookup, ◌∷◌, ◌≡◌, Option, some, none, ◌≢◌, true, suc, arith, refl,
}
use openvino_wallet.IssuerMetadata.{
  Metadata, CredentialConfigurationSupported, CredentialDefinition,
}
use openvino_wallet.Issuance.Offer.{
  credential_parameters, determine_credential_parameters, found_or, is_supported_format, context_of,
}
use openvino_wallet.Issuance.Model.{CredentialOffer}
use openvino_wallet.Run.{lift, steps, crash}
use openvino_wallet.Run.Rules.{Returns, returned, after, failed, after_deref, after_reject}
use openvino_wallet.Errors.{GoError}

-- The parameters of one configuration ID are those of the issuer's configuration.
pub record IsFrom (m : Metadata) (id : String) (types : List String) (format : String)
    (context : List String) : Type 0 where
  pub configuration : CredentialConfigurationSupported
  pub offered : lookup id m.credential_configurations_supported ≡ some configuration
  pub definition : CredentialDefinition
  pub defined : configuration.credential_definition ≡ some definition
  pub same_types : types ≡ definition.type
  pub same_format : format ≡ configuration.format
  pub supported : is_supported_format format ≡ true
  pub same_context : context ≡ context_of format definition

-- One entry of each list for each ID, in order.
pub data AllFrom (m : Metadata)
    : List String → List (List String) → List String → List (List String) → Type 0 where
  none_left : AllFrom m [] [] [] []
  one_more :
      {id format : String} {types context : List String} {ids formats : List String}
      {typess contexts : List (List String)}
      → IsFrom m id types format context
      → AllFrom m ids typess formats contexts
      → AllFrom m (id ∷ ids) (types ∷ typess) (format ∷ formats) (context ∷ contexts)

-- Every configuration of the metadata has a definition.
abbrev pub AllDefined : Metadata → Type 0
AllDefined m =
    (id : String) (c : CredentialConfigurationSupported)
    → lookup id m.credential_configurations_supported ≡ some c
    → c.credential_definition ≢ none

module _ {S : Type 0} (m : Metadata) (defined : AllDefined m) (s : S) where
  found_or_lem :
      (e : GoError) (o : Option CredentialConfigurationSupported)
      → Returns (λ c t. (t ≡ s) × (o ≡ some c)) (λ e t. t ≡ s) (lift (found_or e o) s)
  unfolding found_or lift
  found_or_lem e none = failed refl
  found_or_lem e (some c) = returned (refl, refl)

  credential_parameters-AllFrom :
      (i : ℕ) (ids : List String)
      → Returns
          (λ p t. (t ≡ s) × AllFrom m ids p.types p.formats p.contexts)
          (λ e t. t ≡ s)
          (credential_parameters m i ids s)
  unfolding credential_parameters
  credential_parameters-AllFrom i [] = returned (refl, none_left)
  credential_parameters-AllFrom i (id ∷ ids) =
      after _ _ _ (found_or_lem _ (lookup id m.credential_configurations_supported)) λ c t p.
        rw p.0 (
          after_deref _ _ _ (defined id c p.1) λ d has.
            after_reject _ _ _ _ (λ h. refl)
              λ good. after _ _ _ (credential_parameters-AllFrom (suc i) ids) λ rest u q. returned (
                q.0,
                one_more
                    (record {
                      configuration = c;
                      offered = p.1;
                      definition = d;
                      defined = has;
                      same_types = refl;
                      same_format = refl;
                      supported = ground arith;
                      same_context = refl;
                    })
                    q.1,
              ))

-- Where every configuration of the metadata has a definition, the parameters of an offer are found
-- without a panic and without a change of state. On success there is one entry of each list for each
-- configuration ID of the offer, in its order: the types, a supported format, and the context, which
-- is kept for the format ldp_vc alone, of the issuer's configuration with that ID.
pub determine_credential_parameters-AllFrom :
    {S : Type 0} (offer : CredentialOffer) (m : Metadata) (s : S)
    → AllDefined m
    → Returns
        (λ p t. (t ≡ s) × AllFrom m offer.credential_configuration_ids p.types p.formats p.contexts)
        (λ e t. t ≡ s)
        (determine_credential_parameters offer m s)
unfolding determine_credential_parameters
determine_credential_parameters-AllFrom offer m s defined =
    credential_parameters-AllFrom m defined s 0 offer.credential_configuration_ids

credential_parameters-crash :
    {S : Type 0} (m : Metadata) (before : List String) (id : String) (more : List String)
    {typess contexts : List (List String)} {formats : List String} (i : ℕ) (s : S)
    (c : CredentialConfigurationSupported)
    → AllFrom m before typess formats contexts
    → lookup id m.credential_configurations_supported ≡ some c
    → c.credential_definition ≡ none
    → credential_parameters m i (before ++ id ∷ more) s ≡ crash s
unfolding credential_parameters found_or steps
credential_parameters-crash m [] id more i s c none_left offered undefined = rw (offered, undefined)
credential_parameters-crash m (b ∷ before) id more i s c (one_more from rest) offered undefined =
    let supported : is_supported_format from.configuration.format ≡ true =
      rw from.same_format at from.supported in
    rw (
      from.offered,
      from.defined,
      supported,
      credential_parameters-crash m before id more (suc i) s c rest offered undefined,
    )

-- An offer makes the wallet panic where it names a configuration that the metadata lists without a
-- definition, wherever it stands in the offer, if the configurations before it can be taken: an earlier
-- one that is missing or has another format is an error first.
pub determine_credential_parameters-crash :
    {S : Type 0} (offer : CredentialOffer) (m : Metadata) (before : List String) (id : String)
    (more : List String) {typess contexts : List (List String)} {formats : List String} (s : S)
    (c : CredentialConfigurationSupported)
    → offer.credential_configuration_ids ≡ before ++ id ∷ more
    → AllFrom m before typess formats contexts
    → lookup id m.credential_configurations_supported ≡ some c
    → c.credential_definition ≡ none
    → determine_credential_parameters offer m s ≡ crash s
unfolding determine_credential_parameters
determine_credential_parameters-crash offer m before id more s c ids all offered undefined =
    rw ids (credential_parameters-crash m before id more 0 s c all offered undefined)
