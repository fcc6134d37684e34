-- ===== src/Examples/Services.antt =====
-- The theorems on HTTP exchanges, metadata and linked domains, at concrete values.
use openvino_wallet.Http.{Exchange, configured, do_context}
use openvino_wallet.Run.Rules.{Returns}
use openvino_wallet.Wellknown.{validate_linked_domains, get_linked_domains_service}
use openvino_wallet.Wellknown.Laws.{IsLinked, valid_needs_link}
use openvino_wallet.IssuerMetadata.{
  response_bytes_to_issuer_metadata_object, issuer_metadata_object_from_jwt, unmarshal_metadata,
}
use openvino_wallet.IssuerMetadata.Laws.{IsSignedBy, key_id_needs_signature}
use openvino_wallet.Base.{[], none, trim_suffix, some, ◌≡◌, refl, true}
use openvino_wallet.Http.Laws.{Answered, Refused, do_context-Answered}
use openvino_wallet.Examples.{decoder, resolver, answering, metadata, no_world}
use openvino_wallet.Run.{ok}

abbrev exchange : Exchange
exchange = record {
  method = "GET";
  endpoint_url = "https://issuer.example/";
  content_type = "";
  additional_headers = [];
  body = "";
  event = "Fetch";
  parent_event = "";
  acceptable_statuses = none;
  error_response_handler = none;
}

do_context-Answered_example :
    Returns
      (Answered (answering "{}") configured exchange no_world)
      (Refused (answering "{}") configured exchange no_world)
      (do_context (answering "{}") configured exchange no_world)
do_context-Answered_example = do_context-Answered (answering "{}") configured exchange no_world

link_validated :
    validate_linked_domains (some resolver) "did:ion:1"
    ≡ ok (record { valid = true; domain = "https://issuer.example" })
unfolding validate_linked_domains get_linked_domains_service trim_suffix
link_validated = refl

valid_needs_link_example : IsLinked resolver "did:ion:1" "https://issuer.example"
valid_needs_link_example =
    valid_needs_link resolver "did:ion:1" "https://issuer.example" link_validated

metadata_decoded :
    response_bytes_to_issuer_metadata_object decoder "{}" ≡ ok (metadata (some "did:ion:1#key"))
unfolding response_bytes_to_issuer_metadata_object issuer_metadata_object_from_jwt
    unmarshal_metadata
metadata_decoded = refl

key_id_needs_signature_example :
    IsSignedBy decoder "{}" "did:ion:1#key" (metadata (some "did:ion:1#key"))
key_id_needs_signature_example =
    key_id_needs_signature decoder "{}" "did:ion:1#key" (metadata (some "did:ion:1#key"))
      metadata_decoded refl
