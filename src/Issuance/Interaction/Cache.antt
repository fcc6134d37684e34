-- ===== src/Issuance/Interaction/Cache.antt =====
-- The cached metadata of an `interaction`: `populateIssuerMetadata` of pkg/openid4ci/interaction.go.
use openvino_wallet.Base.{none, some, String, Option, ◌≡◌, refl, ◌⊎◌, inl, inr}
use openvino_wallet.Issuance.Model.{External, Session, on_world}
use openvino_wallet.Issuance.Interaction.{fetch_issuer_metadata, populate_issuer_metadata}
use openvino_wallet.Run.{◌>>◌, Run, chain, done, fail, ok, crash}
use openvino_wallet.IssuerMetadata.{
  Metadata, response_bytes_to_issuer_metadata_object, get_metadata,
}
use openvino_wallet.Run.Rules.{
  Returns, Returns-mono, returned, after_gets, after, not_crash, wrapping, zooming,
}
use openvino_wallet.IssuerMetadata.Laws.{metadata_exchange, get_metadata_lem}
use openvino_wallet.Http.Laws.{IsReply}
use openvino_wallet.Http.{configured}

-- What the decoder makes of the server's reply to the one request for the issuer's metadata.
abbrev pub Fetched : External → Session → Metadata → Type 0
Fetched ext s m =
    (bytes : String) × IsReply ext.network configured (metadata_exchange s.interaction.issuer_uri)
      s.world bytes
    × (response_bytes_to_issuer_metadata_object ext.decoder bytes ≡ ok m)

-- Metadata was cached; or none was, and it was fetched.
unfoldable pub HasOrigin : External → Session → Metadata → Type 0
HasOrigin ext s m =
    (s.interaction.issuer_metadata ≡ some m)
    ⊎ ((s.interaction.issuer_metadata ≡ none) × Fetched ext s m)

fetch_issuer_metadata_lem :
    (ext : External) (event : String) (s : Session) (o : Option Metadata)
    → s.interaction.issuer_metadata ≡ o
    → Returns
        (λ _ t. (m : Metadata) × (t.interaction.issuer_metadata ≡ some m) × HasOrigin ext s m)
        (λ e t. Unit {0})
        (fetch_issuer_metadata ext event o s)
unfolding fetch_issuer_metadata HasOrigin on_world
fetch_issuer_metadata_lem ext event s (some m) has = returned (m, has, inl has)
fetch_issuer_metadata_lem ext event s none has = after_gets _ _ _ (
    after _ _ _
      (wrapping _ _ _ (λ e t p. p)
        (zooming (λ (s : Session). s.world) (λ w s. record s { world = w })
          (get_metadata ext.network ext.decoder s.interaction.issuer_uri event) s
          (get_metadata_lem ext.network ext.decoder s.interaction.issuer_uri event s.world)
          (λ m w q. q) (λ e w q. q)))
      λ m t q. returned (m, refl, inr (has, q)))

pub populate_issuer_metadata_lem :
    (ext : External) (event : String) (s : Session)
    → Returns
        (λ _ t. (m : Metadata) × (t.interaction.issuer_metadata ≡ some m) × HasOrigin ext s m)
        (λ e t. Unit {0})
        (populate_issuer_metadata ext event s)
unfolding populate_issuer_metadata
populate_issuer_metadata_lem ext event s = fetch_issuer_metadata_lem ext event s _ refl

again :
    (ext : External) (q : String) (r : Run Session (Unit {0}))
    → Returns (λ _ t. (m : Metadata) × (t.interaction.issuer_metadata ≡ some m)) (λ e t. Unit {0}) r
    → chain r (λ _. populate_issuer_metadata ext q) ≡ r
unfolding populate_issuer_metadata fetch_issuer_metadata
again ext q (done tt t) (returned (m, has)) = rw has refl
again ext q (fail e t) h = refl
again ext q (crash t) h = absurd (not_crash h)

-- Fetching the issuer's metadata a second time does nothing: metadata that is there is kept, and where
-- the first fetch fails its error is the result.
pub populate_issuer_metadata-again :
    (ext : External) (p q : String) (s : Session)
    → (populate_issuer_metadata ext p >> populate_issuer_metadata ext q) s
      ≡ populate_issuer_metadata ext p s
unfolding ◌>>◌
populate_issuer_metadata-again ext p q s =
    again ext q _
      (Returns-mono (λ a t h. (h.0, h.1)) (λ e t h. h) (populate_issuer_metadata_lem ext p s))
