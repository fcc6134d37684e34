-- ===== src/IssuerMetadata/Laws.antt =====
-- The key ID of fetched metadata: pkg/internal/issuermetadata/issuermetadata.go.
use openvino_wallet.Base.{String, some, ◌≡◌, ◌≢◌, inl, inr, arith, eq_iff, Option-cases, none, []}
use openvino_wallet.Run.{Result, ok}
use openvino_wallet.Run.Rules.{Result-cases, Returns, after, wrapping, Returns-mono, lift_lem}
use openvino_wallet.IssuerMetadata.{
  from_payload, Metadata, CheckedJwt, Decoder, issuer_metadata_object_from_jwt,
  response_bytes_to_issuer_metadata_object, get_metadata, metadata_endpoint,
}
use openvino_wallet.Http.{do_request, Network, World, configured, Exchange}
use openvino_wallet.Http.Laws.{IsReply, do_context-Answered}

-- The JWT that the metadata `m` with key ID `kid` was taken from.
pub record IsSignedBy (d : Decoder) (bytes kid : String) (m : Metadata) : Type 0 where
  pub outer : Metadata
  pub decoded : d.decode bytes ≡ ok outer
  pub is_signed : outer.signed_metadata ≢ ""
  pub check : String → Result CheckedJwt
  pub has_check : d.check ≡ some check
  pub jwt : CheckedJwt
  pub checked : check outer.signed_metadata ≡ ok jwt
  pub key_id : jwt.key_id ≡ some kid
  pub inner : Metadata
  pub payload : d.decode jwt.payload ≡ ok inner
  pub same : m ≡ record inner { jwt_kid = some kid }

-- What `from_payload` takes from the JWT.
from_payload-eq-ok :
    (d : Decoder) (jwt : CheckedJwt) (kid : String) (m : Metadata)
    → from_payload d jwt ≡ ok m
    → m.jwt_kid ≡ some kid
    → (inner : Metadata) × (d.decode jwt.payload ≡ ok inner)
      × (jwt.key_id ≡ some kid)
      × (m ≡ record inner { jwt_kid = some kid })
unfolding from_payload
from_payload-eq-ok d jwt kid m h k = elim (Result-cases (d.decode jwt.payload)) [
  | inr (e, bad) ↦ ground arith
  | inl (inner, good) ↦ elim (Option-cases jwt.key_id) [
    | inl missing ↦ ground arith
    | inr (key, found) ↦ (inner, good, ground arith, ground arith)
  ]
]

signed_lem :
    (d : Decoder) (bytes kid : String) (m outer : Metadata)
    → d.decode bytes ≡ ok outer
    → outer.signed_metadata ≢ ""
    → issuer_metadata_object_from_jwt d outer.signed_metadata ≡ ok m
    → m.jwt_kid ≡ some kid
    → IsSignedBy d bytes kid m
unfolding issuer_metadata_object_from_jwt from_payload
signed_lem d bytes kid m outer decoded nonempty h k = elim (Option-cases d.check) [
  | inl missing ↦ ground arith
  | inr (check, has) ↦ elim (Result-cases (check outer.signed_metadata)) [
    | inr (e, bad) ↦ ground arith
    | inl (jwt, good) ↦
        let (inner, payload, key, same) = from_payload-eq-ok d jwt kid m (ground arith) k in
        record {
          outer = outer;
          decoded = decoded;
          is_signed = nonempty;
          check = check;
          has_check = has;
          jwt = jwt;
          checked = good;
          key_id = key;
          inner = inner;
          payload = payload;
          same = same;
        }
  ]
]

-- Metadata has a key ID only if it is the payload of a JWT that the verifier accepted, and the key
-- ID is the one in that JWT's header: the unsigned metadata around it is not used.
pub key_id_needs_signature :
    (d : Decoder) (bytes kid : String) (m : Metadata)
    → response_bytes_to_issuer_metadata_object d bytes ≡ ok m
    → m.jwt_kid ≡ some kid
    → IsSignedBy d bytes kid m
unfolding response_bytes_to_issuer_metadata_object
key_id_needs_signature d bytes kid m h k = elim (Result-cases (d.decode bytes)) [
  | inr (e, bad) ↦ ground arith
  | inl (outer, decoded) ↦
      signed_lem d bytes kid m outer decoded (ground (arith, eq_iff outer.signed_metadata ""))
        (ground (arith, eq_iff outer.signed_metadata "")) k
]

-- The request of `Get`.
abbrev pub metadata_exchange : String → Exchange
metadata_exchange uri = record {
  method = "GET";
  endpoint_url = metadata_endpoint uri;
  content_type = "";
  additional_headers = [];
  body = "";
  event = "";
  parent_event = "";
  acceptable_statuses = none;
  error_response_handler = none;
}

-- The metadata that `Get` returns is what the decoder makes of the bytes of the reply.
pub get_metadata_lem :
    (net : Network) (d : Decoder) (uri event : String) (w : World)
    → Returns
        (λ m w'.
          (bytes : String) × IsReply net configured (metadata_exchange uri) w bytes
          × (response_bytes_to_issuer_metadata_object d bytes ≡ ok m))
        (λ e w'. Unit {0})
        (get_metadata net d uri event w)
unfolding get_metadata do_request
get_metadata_lem net d uri event w =
    after _ _ _
      (wrapping _ _ _ (λ e t p. tt)
        (Returns-mono (λ bytes t a. (a.status, a.answered, a.accepted)) (λ e t r. tt {0})
          (do_context-Answered net configured _ w)))
      λ bytes t p.
        Returns-mono (λ m u q. (bytes, p, q.1)) (λ e u q. q)
          (lift_lem (response_bytes_to_issuer_metadata_object d bytes) t (λ e. tt))
