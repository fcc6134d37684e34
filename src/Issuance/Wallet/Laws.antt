-- ===== src/Issuance/Wallet/Laws.antt =====
-- The flow that the wallet starts: pkg/openid4ci/walletinitiatedinteraction.go.
use openvino_wallet.Base.{[], ◌∷◌, none, String, ◌≡◌, ◌≢◌, refl, length, List, ℕ}
use openvino_wallet.Run.{M, done, ◌>>=◌}
use openvino_wallet.Run.Success.{
  Ensures-known, Returns-Ensures, Ensures, succeeds, Ensures->>=, Ensures->>, Ensures-zoom,
  Ensures-mono, Ensures-modify, Ensures-deref, Ensures-gets, Ensures-lift,
}
use openvino_wallet.Issuance.Model.{read_source, External, Session, Signer, Credential}
use openvino_wallet.Issuance.Interaction.{
  UrlRequest, request_access_token, create_authorization_url, instantiate_oauth2_config,
  instantiate_code_verifier, generate_authorization_details, the_metadata,
}
use openvino_wallet.Issuance.Interaction.Laws.{IsGranted, request_access_token-IsGranted}
use openvino_wallet.Issuance.Request.{Wanted}
use openvino_wallet.Issuance.Parse.{request_credential_with_auth}
use openvino_wallet.Issuance.Parse.Laws.{request_credential_with_auth-length}
use openvino_wallet.Issuance.Wallet.{
  WalletInitiatedInteraction, WalletSession, create_wallet_authorization_url, request_credential,
  on_wallet_interaction, remember,
}
use openvino_wallet.Issuance.Interaction.Cache.{populate_issuer_metadata_lem}

-- What the shared `interaction` sees.
abbrev pub shared : WalletSession → Session
shared s = record { world = s.world; interaction = s.flow.interaction }

-- The one credential that was asked for with the authorization URL.
abbrev pub asked : UrlRequest → Wanted
asked r = record { formats = r.format ∷ []; types = r.types ∷ []; contexts = r.context ∷ [] }

abbrev asked_by : WalletInitiatedInteraction → Wanted
asked_by f = record {
  formats = f.credential_format ∷ [];
  types = f.credential_types ∷ [];
  contexts = f.credential_context ∷ [];
}

HasMetadata : Session → Type 0
HasMetadata s = s.interaction.issuer_metadata ≢ none

-- What has made a URL has the metadata.
create_authorization_url-HasMetadata :
    (ext : External) (r : UrlRequest) (s : Session)
    → Ensures (λ url t. HasMetadata t) (create_authorization_url ext r s)
unfolding create_authorization_url instantiate_oauth2_config instantiate_code_verifier
    generate_authorization_details the_metadata HasMetadata read_source
create_authorization_url-HasMetadata ext r s =
    Ensures->> _ _ s
      (Ensures-mono (λ a t h. λ missing. cc (h.1, missing))
        (Returns-Ensures (populate_issuer_metadata_lem ext "Authorization" s)))
      λ t has. Ensures->> _ _ t (config_lem t has) λ u has_u.
        Ensures->> _ _ u (drawn_lem u has_u) λ v has_v.
          Ensures->>= _ _ v (details_lem v has_v) λ details x has_x. Ensures-gets _ _ x (
            Ensures->>= _ _ x (source_lem ext.uuid x has_x) λ state y has_y. Ensures-modify _ _ y (
              Ensures-gets _ _ _ (
                Ensures->>= _ _ _ (Ensures-deref y.interaction.oauth2_config _)
                  λ c z p. succeeds (moved _ z p.0 has_y))))
  where
    source_lem :
        {A : Type 0} (f : ℕ → A) (u : Session)
        → HasMetadata u
        → Ensures (λ a v. HasMetadata v) (read_source f u)
    source_lem f u h = succeeds h

    moved : (t u : Session) → u ≡ t → HasMetadata t → HasMetadata u
    moved t u same h = rw same h

    config_lem :
        (t : Session)
        → HasMetadata t
        → Ensures
            (λ a v. HasMetadata v)
            (instantiate_oauth2_config r.client_id r.redirect_uri r.scopes t)
    config_lem t h =
        Ensures->>= _ _ t (Ensures-deref t.interaction.issuer_metadata t)
          λ m u p. succeeds (moved t u p.0 h)

    drawn_lem :
        (u : Session)
        → HasMetadata u
        → Ensures (λ a v. HasMetadata v) (instantiate_code_verifier ext u)
    drawn_lem u h = Ensures->>= _ _ u (source_lem ext.random_bytes u h) λ drawn v k.
        Ensures->>= _ _ v (Ensures-lift drawn v) λ bytes x p. succeeds (moved v x p.0 k)

    details_lem :
        (u : Session)
        → HasMetadata u
        → Ensures
            (λ a v. HasMetadata v)
            (generate_authorization_details ext r.format r.types r.context u)
    details_lem u h =
        Ensures->>= _ _ u (Ensures-deref u.interaction.issuer_metadata u)
          λ m v p. Ensures-mono (λ d x q. moved v x q.0 (moved u v p.0 h)) (Ensures-lift _ v)

put_shared : Session → WalletSession → WalletSession
put_shared t s = record s { world = t.world; flow = record s.flow { interaction = t.interaction } }

-- A method of the shared `interaction`.
Ensures-shared :
    {A : Type 0} {P : A → Session → Type 0} {Q : A → WalletSession → Type 0} (m : M Session A)
    (s : WalletSession)
    → Ensures P (m (shared s))
    → ((a : A) (t : Session) → P a t → Q a (put_shared t s))
    → Ensures Q (on_wallet_interaction m s)
unfolding on_wallet_interaction put_shared
Ensures-shared m s = Ensures-zoom shared put_shared m s

-- The URL, and what is remembered with it.
create_wallet_authorization_url_lem :
    (ext : External) (r : UrlRequest) (s : WalletSession)
    → Ensures
        (λ url t. HasMetadata (shared t) × (asked r ≡ asked_by t.flow))
        (create_wallet_authorization_url ext r s)
unfolding create_wallet_authorization_url remember HasMetadata put_shared
create_wallet_authorization_url_lem ext r s =
    Ensures->>= _ _ s
      (Ensures-shared (create_authorization_url ext r) s
        (create_authorization_url-HasMetadata ext r (shared s)) (λ url t h. h))
      λ url t has. Ensures-modify _ _ t (succeeds (has, refl))

-- What `RequestCredential` gives: the token was granted, and the credential is what the shared
-- `interaction` gets for it.
abbrev pub IsOneOf :
    External → Signer → String → Wanted → WalletSession → List Credential → WalletSession → Type 0
IsOneOf ext signer uri w t vcs u =
    (length vcs ≡ 1)
    × (between : Session) × IsGranted ext uri (shared t) between
    × (request_credential_with_auth ext signer w between ≡ done vcs (shared u))

request_credential-IsOneOf :
    (ext : External) (signer : Signer) (uri : String) (t : WalletSession)
    → (t.flow.interaction.oauth2_config ≢ none → t.flow.interaction.issuer_metadata ≢ none)
    → Ensures (IsOneOf ext signer uri (asked_by t.flow) t) (request_credential ext signer uri t)
unfolding request_credential put_shared
request_credential-IsOneOf ext signer uri t ready =
    Ensures->>
      {P = λ v. IsGranted ext uri (shared t) (shared v) × (asked_by t.flow ≡ asked_by v.flow)} _ _ t
      (Ensures-shared (request_access_token ext uri) t
        (Returns-Ensures (request_access_token-IsGranted ext uri (shared t) ready))
        (λ a b h. granted b h))
      λ v h. Ensures-gets _ _ v (
        Ensures-shared (request_credential_with_auth ext signer (asked_by v.flow)) v
          (Ensures-known
            (request_credential_with_auth-length ext signer (asked_by v.flow) (shared v)))
          λ vcs u k. (k.0, shared v, h.0, rw h.1 k.1))
  where
    granted :
        (b : Session)
        → IsGranted ext uri (shared t) b
        → IsGranted ext uri (shared t) (shared (put_shared b t))
          × (asked_by t.flow ≡ asked_by (put_shared b t).flow)
    granted b h = (h, refl)

-- Where `CreateAuthorizationURL` and then `RequestCredential`, with the redirect URI that the browser
-- came back with, both succeed, there is exactly one credential. It is what the issuer is asked for
-- with the format, the types and the context that the URL was made for, after the code of the redirect
-- URI, whose state is the one saved with the URL, was traded for a token.
pub request_credential-IsAsked :
    (ext : External) (signer : Signer) (r : UrlRequest) (back : String → String) (s : WalletSession)
    → Ensures
        (λ vcs u.
          (url : String) × (t : WalletSession) × (create_wallet_authorization_url ext r s
            ≡ done url t)
          × IsOneOf ext signer (back url) (asked r) t vcs u)
        ((create_wallet_authorization_url ext r >>= λ url. request_credential ext signer (back url))
          s)
unfolding HasMetadata
request_credential-IsAsked ext signer r back s =
    Ensures->>= _ _ s (Ensures-known (create_wallet_authorization_url_lem ext r s)) λ url t h.
      Ensures-mono (λ vcs u k. (url, t, h.1, remembered url t u vcs h.0.1 k))
        (request_credential-IsOneOf ext signer (back url) t (λ _. h.0.0))
  where
    remembered :
        (url : String) (t u : WalletSession) (vcs : List Credential)
        → asked r ≡ asked_by t.flow
        → IsOneOf ext signer (back url) (asked_by t.flow) t vcs u
        → IsOneOf ext signer (back url) (asked r) t vcs u
    remembered url t u vcs same k = rw same k
