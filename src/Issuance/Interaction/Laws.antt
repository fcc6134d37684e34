-- ===== src/Issuance/Interaction/Laws.antt =====
-- The access token: `requestAccessToken` of pkg/openid4ci/interaction.go.
use openvino_wallet.Base.{
  String, true, ◌≡◌, refl, ap, arith, lookup, is_some, eq_iff, ◌⊎◌, some, ◌∷◌, ◌≢◌, inr, inl, none,
  Option, Option-cases,
}
use openvino_wallet.Run.{ok, Result, deref, lift, err, ◌>>=◌}
use openvino_wallet.Run.Rules.{
  Returns, returned, after_gets, after_reject, after_lift, after, after_modify, Returns-mono,
  failed,
}
use openvino_wallet.Issuance.Model.{External, Session, Url, ExchangedToken, set_interaction}
use openvino_wallet.Issuance.Interaction.{
  query_value, check_redirect, exchange_code, get_token_endpoint, the_metadata, trade_code,
  store_token, request_access_token, need_config,
}
use openvino_wallet.Http.{OauthConfig, token_exchange}
use openvino_wallet.IssuerMetadata.{Metadata}
use openvino_wallet.Errors.{GoError}

-- What the checks of a redirect URI establish, of the parsed URI `u`.
pub record IsExpected (ext : External) (redirect_uri : String) (s : Session) (u : Url)
    : Type 0 where
  pub parsed : ext.parse_url redirect_uri ≡ ok u
  pub has_code : is_some (lookup "code" u.query) ≡ true
  pub has_state : is_some (lookup "state" u.query) ≡ true
  pub same_state : query_value u "state" ≡ s.interaction.auth_code_url_state

check_redirect_lem :
    (ext : External) (redirect_uri : String) (s : Session)
    → Returns
        (λ u t. (t ≡ s) × IsExpected ext redirect_uri s u)
        (λ e t. t ≡ s)
        (check_redirect ext redirect_uri s)
unfolding check_redirect
check_redirect_lem ext redirect_uri s =
    after_lift _ _ _ (λ e h. refl)
      λ u parsed.
        after_reject _ _ _ _ (λ h. refl)
          λ code.
            after_reject _ _ _ _ (λ h. refl)
              λ state. after_gets _ _ _ (
                after_reject _ _ _ _ (λ h. refl)
                  λ same. returned (
                    refl,
                    record {
                      parsed = parsed;
                      has_code = ground arith;
                      has_state = ground arith;
                      same_state =
                          ground (
                            arith,
                            eq_iff (query_value u "state") s.interaction.auth_code_url_state,
                          );
                    },
                  ))

pub the_metadata_lem :
    {R : GoError → Session → Type 0} (s : Session) (m : Metadata)
    → s.interaction.issuer_metadata ≡ some m
    → Returns (λ m' t. (t ≡ s) × (m' ≡ m)) R (the_metadata s)
unfolding the_metadata deref
the_metadata_lem s m has = rw has (returned (refl, refl))

get_token_endpoint_lem :
    (s : Session) (m : Metadata)
    → s.interaction.issuer_metadata ≡ some m
    → Returns
        (λ endpoint t. (t ≡ s) × (endpoint ≡ m.token_endpoint) × (m.token_endpoint ≢ ""))
        (λ e t. t ≡ s)
        (get_token_endpoint s)
unfolding get_token_endpoint the_metadata
get_token_endpoint_lem s m has = after _ _ _ (the_metadata_lem s m has) λ m' t p.
    after_reject _ _ _ _ (λ h. p.0)
      λ full. returned (
        p.0,
        ap (λ (x : Metadata). x.token_endpoint) p.1,
        ground (arith, eq_iff m.token_endpoint ""),
      )

-- After the call of `Exchange`.
abbrev exchanged : OauthConfig → String → String → Session → Session
exchanged c code verifier s = record s {
  world = record s.world { calls = token_exchange c code verifier ∷ s.world.calls };
}

exchange_code_lem :
    (ext : External) (c : OauthConfig) (code verifier : String) (s : Session)
    → Returns
        (λ tok t.
          (ext.exchange s.world.calls c code verifier ≡ ok tok) × (t ≡ exchanged c code verifier s))
        (λ e t. t ≡ exchanged c code verifier s)
        (exchange_code ext c code verifier s)
unfolding exchange_code lift
exchange_code_lem ext c code verifier s = go (ext.exchange s.world.calls c code verifier) refl
  where
    go :
        (r : Result ExchangedToken)
        → ext.exchange s.world.calls c code verifier ≡ r
        → Returns
            (λ tok t.
              (ext.exchange s.world.calls c code verifier ≡ ok tok)
              × (t ≡ exchanged c code verifier s))
            (λ e t. t ≡ exchanged c code verifier s)
            (lift r (exchanged c code verifier s))
    go (ok tok) e = returned (e, refl)
    go (err x) e = failed refl

-- The code was sent to the token endpoint: once, after all checks, with the saved verifier.
pub record IsSent (ext : External) (redirect_uri : String) (s t : Session) : Type 0 where
  pub config : OauthConfig
  pub has_config : s.interaction.oauth2_config ≡ some config
  pub uri : Url
  pub expected : IsExpected ext redirect_uri s uri
  pub metadata : Metadata
  pub has_metadata : s.interaction.issuer_metadata ≡ some metadata
  pub has_endpoint : metadata.token_endpoint ≢ ""
  pub calls_one :
      t.world.calls
      ≡ token_exchange
          (record config { token_url = metadata.token_endpoint })
          (query_value uri "code")
          s.interaction.code_verifier
        ∷ s.world.calls

-- The token is the one that the server gave for this code.
pub record IsGranted (ext : External) (redirect_uri : String) (s t : Session) : Type 0 where
  pub sent : IsSent ext redirect_uri s t
  pub token : ExchangedToken
  pub given :
      ext.exchange s.world.calls
        (record sent.config { token_url = sent.metadata.token_endpoint })
        (query_value sent.uri "code")
        s.interaction.code_verifier
      ≡ ok token
  pub stored :
      t.interaction
      ≡ store_token token (record s.interaction {
        oauth2_config = some (record sent.config { token_url = sent.metadata.token_endpoint });
      })

need_config_lem :
    {R : GoError → Session → Type 0} (s : Session)
    → ((e : GoError) → R e s)
    → Returns
        (λ c t. (t ≡ s) × (s.interaction.oauth2_config ≡ some c))
        R
        (need_config s.interaction.oauth2_config s)
unfolding need_config
need_config_lem {R} s h = go s.interaction.oauth2_config refl
  where
    go :
        (o : Option OauthConfig)
        → s.interaction.oauth2_config ≡ o
        → Returns (λ c t. (t ≡ s) × (s.interaction.oauth2_config ≡ some c)) R (need_config o s)
    go none e = failed (h _)
    go (some c) e = returned (refl, e)

-- On failure there is no new token, and nothing was sent unless every check had passed.
pub record IsRefused (ext : External) (redirect_uri : String) (s t : Session) : Type 0 where
  pub same_token : t.interaction.auth_token ≡ s.interaction.auth_token
  pub same_metadata : t.interaction.issuer_metadata ≡ s.interaction.issuer_metadata
  pub quiet : (t.world ≡ s.world) ⊎ IsSent ext redirect_uri s t

module _ (ext : External) (redirect_uri : String) (s : Session) where
  unchanged : (t : Session) → t ≡ s → IsRefused ext redirect_uri s t
  unchanged t p = rw p (record { same_token = refl; same_metadata = refl; quiet = inl refl })

  module _ (c : OauthConfig) (m : Metadata) (u : Url) where
    abbrev sent_state : Session
    sent_state =
        exchanged (record c { token_url = m.token_endpoint }) (query_value u "code")
          s.interaction.code_verifier
          (set_interaction
            (λ i. record i { oauth2_config = some (record c { token_url = m.token_endpoint }) }) s)

    module _ (has_c : s.interaction.oauth2_config ≡ some c)
        (has_m : s.interaction.issuer_metadata ≡ some m) (full : m.token_endpoint ≢ "")
        (expected : IsExpected ext redirect_uri s u) where
      sent : IsSent ext redirect_uri s sent_state
      sent = record {
        config = c;
        has_config = has_c;
        uri = u;
        expected = expected;
        metadata = m;
        has_metadata = has_m;
        has_endpoint = full;
        calls_one = refl;
      }

      refused : (t : Session) → t ≡ sent_state → IsRefused ext redirect_uri s t
      refused t p = rw p (record { same_token = refl; same_metadata = refl; quiet = inr sent })

      granted :
          (token : ExchangedToken) (t : Session)
          → ext.exchange s.world.calls
              (record c { token_url = m.token_endpoint })
              (query_value u "code")
              s.interaction.code_verifier
            ≡ ok token
          → t ≡ sent_state
          → IsGranted ext redirect_uri s (set_interaction (store_token token) t)
      granted token t given p = rw p (record {
        sent = record {
          config = c;
          has_config = has_c;
          uri = u;
          expected = expected;
          metadata = m;
          has_metadata = has_m;
          has_endpoint = full;
          calls_one = refl;
        };
        token = token;
        given = given;
        stored = refl;
      })

      send_code :
          Returns
            (λ _ t. IsGranted ext redirect_uri s t)
            (λ e t. IsRefused ext redirect_uri s t)
            (trade_code ext c u m.token_endpoint s)
      unfolding trade_code
      send_code = after_modify _ _ _ (
          after_gets _ _ _ (
            after _ _ _
              (Returns-mono (λ a t p. p) (λ e t p. refused t p) (exchange_code_lem ext _ _ _ _))
              λ token t p. returned (granted token t p.0 p.1)))

  module _ (ready : s.interaction.oauth2_config ≢ none → s.interaction.issuer_metadata ≢ none) where
    send_checked :
        (c : OauthConfig) (u : Url)
        → s.interaction.oauth2_config ≡ some c
        → IsExpected ext redirect_uri s u
        → Returns
            (λ _ t. IsGranted ext redirect_uri s t)
            (λ e t. IsRefused ext redirect_uri s t)
            ((get_token_endpoint >>= λ endpoint. trade_code ext c u endpoint) s)
    send_checked c u has_c expected = elim (Option-cases s.interaction.issuer_metadata) [
      | inl missing ↦ absurd (ready (λ e. cc) missing)
      | inr (m, has_m) ↦
          after _ _ _
            (Returns-mono (λ a t p. p) (λ e t p. unchanged t p) (get_token_endpoint_lem s m has_m))
            λ endpoint t p. rw (p.0, p.1) (send_code c m u has_c has_m p.2 expected)
    ]

  -- With the issuer's metadata fetched before a configuration was set, `requestAccessToken` never
  -- panics. It succeeds only with the token that the server gave for the code of a redirect URI
  -- whose state is the saved one, sent once with the saved code verifier to the token endpoint of
  -- the metadata. Where it fails, the token and the metadata are as they were, and nothing was sent
  -- unless all of these checks had passed.
  pub request_access_token-IsGranted :
      (s.interaction.oauth2_config ≢ none → s.interaction.issuer_metadata ≢ none)
      → Returns
          (λ _ t. IsGranted ext redirect_uri s t)
          (λ e t. IsRefused ext redirect_uri s t)
          (request_access_token ext redirect_uri s)
  unfolding request_access_token
  request_access_token-IsGranted ready = after_gets _ _ _ (
      after _ _ _ (need_config_lem s (λ e. unchanged s refl)) λ c t p. rw p.0 (
        after _ _ _
          (Returns-mono (λ u t q. q) (λ e t q. unchanged t q)
            (check_redirect_lem ext redirect_uri s))
          λ u t' q. rw q.0 (send_checked ready c u p.1 q.1)))
