-- ===== src/Issuance/Trust/Laws.antt =====
-- Whom the wallet takes the issuer to be: `VerifyIssuer` of pkg/openid4ci/interaction.go.
use openvino_wallet.Base.{none, some, String, Option, ◌≡◌, true, arith, part_before, refl}
use openvino_wallet.Issuance.Model.{External, Session}
use openvino_wallet.Issuance.Trust.{trust_of_key_id, issuer_basic_trust_info, verify_issuer}
use openvino_wallet.IssuerMetadata.{Metadata}
use openvino_wallet.Run.Rules.{
  Returns, after, after_, after_reject, after_gets, returned, wrapping, lift_lem,
}
use openvino_wallet.Issuance.Interaction.Cache.{HasOrigin, populate_issuer_metadata_lem}
use openvino_wallet.Wellknown.Laws.{IsLinked, valid_needs_link}
use openvino_wallet.Issuance.Interaction.Laws.{the_metadata_lem}
use openvino_wallet.Wellknown.{validate_linked_domains}

-- What a verified domain rests on.
pub record IsVerified (ext : External) (s : Session) (domain : String) (t : Session) : Type 0 where
  pub metadata : Metadata
  pub held : t.interaction.issuer_metadata ≡ some metadata
  pub origin : HasOrigin ext s metadata
  pub kid : String
  pub key : metadata.jwt_kid ≡ some kid
  pub linked : IsLinked ext.resolver (part_before b'#' kid) domain

trust_of_key_id_lem :
    (ext : External) (s t : Session) (m : Metadata) (o : Option String)
    → t.interaction.issuer_metadata ≡ some m
    → HasOrigin ext s m
    → m.jwt_kid ≡ o
    → Returns
        (λ info u. (info.domain_valid ≡ true) → IsVerified ext s info.domain u)
        (λ e u. Unit {0})
        (trust_of_key_id ext o t)
unfolding trust_of_key_id
trust_of_key_id_lem ext s t m none held origin key = after_gets _ _ _ (
    after _ _ _
      (wrapping _ _ _ (λ e u p. p) (lift_lem (ext.parse_url t.interaction.issuer_uri) t (λ e. tt)))
      λ url u p. returned λ bad. absurd (cc bad))
trust_of_key_id_lem ext s t m (some kid) held origin key =
    after _ _ _
      (lift_lem (validate_linked_domains (some ext.resolver) (part_before b'#' kid)) t (λ e. tt))
      λ linked u p. returned λ valid. record {
        metadata = m;
        held = rw p.0 held;
        origin = origin;
        kid = kid;
        key = key;
        linked = valid_needs_link ext.resolver _ linked.domain (rw (← valid) p.1);
      }

module _ (ext : External) (s : Session) where
  issuer_basic_trust_info_lem :
      Returns
        (λ info u. (info.domain_valid ≡ true) → IsVerified ext s info.domain u)
        (λ e u. Unit {0})
        (issuer_basic_trust_info ext s)
  unfolding issuer_basic_trust_info
  issuer_basic_trust_info_lem =
      after_ _ _ _ (populate_issuer_metadata_lem ext "Verify issuer" s) λ t found.
        after _ _ _ (the_metadata_lem t found.0 found.1) λ m u p.
          rw p.0 (trust_of_key_id_lem ext s t m m.jwt_kid (rw p.1 found.1) (rw p.1 found.2) refl)

  -- `VerifyIssuer` never panics, and gives a domain only where the metadata has a key ID whose DID is linked with this domain, and the domain's DID configuration
  -- confirms it. That metadata was cached before; or none was, and it is decoded from the server's reply
  -- to the request for the metadata of the issuer's URI.
  pub verify_issuer-IsVerified : Returns (IsVerified ext s) (λ e u. Unit {0}) (verify_issuer ext s)
  unfolding verify_issuer
  verify_issuer-IsVerified =
      after _ _ _ issuer_basic_trust_info_lem
        λ info u h. after_reject _ _ _ _ (λ bad. tt) λ good. returned (h (ground arith))
