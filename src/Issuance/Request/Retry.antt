-- ===== src/Issuance/Request/Retry.antt =====
-- How often the requests for credentials are made: `getCredentialResponse` of
-- pkg/openid4ci/interaction.go.
use openvino_wallet.Base.{
  [], ◌∷◌, ℕ, arith, length, ◌+◌, ◌≤◌, String, List, true, Option-cases, inl, inr, suc,
}
use openvino_wallet.Run.Frame.{
  Frame, Keeps, Keeps->>=, Keeps-deref, Keeps-gets, Keeps-then, Keeps-give, Keeps-on_error,
  Keeps-lift, Keeps->>, final-zoom,
}
use openvino_wallet.Issuance.Model.{Session, on_world, read_source, External, Signer}
use openvino_wallet.Run.{M, ◌>>=◌, Run, final, done, fail, crash}
use openvino_wallet.Issuance.Request.{
  create_claims_proof, create_oauth_http_client, fetch_credential, fetch_credentials,
  request_with_nonce, create_credential_request_body, get_credential_response, retry_once,
  store_acknowledgment_id, sign_token, Order, again_if_invalid_proof, Wanted,
}
use openvino_wallet.Issuance.Interaction.{the_metadata}
use openvino_wallet.Errors.{GoError, as_invalid_proof}
use openvino_wallet.Base.Json.{Value, text}
use openvino_wallet.Http.{Client, Exchange, do_context, World}
use openvino_wallet.Run.Rules.{Returns, returned, failed}
use openvino_wallet.Http.Laws.{Answered, Refused, do_context-Answered}

-- At most `n` calls were made.
unfoldable pub AtMost : ℕ → Session → Session → Type 0
AtMost n s t = length t.world.calls ≤ n + length s.world.calls

sum_le : (a b : ℕ) (s t : Session) → AtMost a s t → AtMost (a + b) s t
unfolding AtMost
sum_le a b s t h = omega (arith, h)

AtMost-sum : (a b : ℕ) (s t u : Session) → AtMost a s t → AtMost b t u → AtMost (a + b) s u
unfolding AtMost
AtMost-sum a b s t u h k = omega (arith, h, k)

pub no_call : Frame (AtMost 0)
unfolding AtMost
no_call = record { same = λ s. omega arith; both = λ s t u h k. omega (arith, h, k) }

pub weaken :
    {A : Type 0} (a b : ℕ) (m : M Session A) → a ≤ b → Keeps (AtMost a) m → Keeps (AtMost b) m
unfolding Keeps AtMost
weaken a b m le h s = omega (arith, le, h s)

pub in_sequence :
    {A B : Type 0} (a b : ℕ) (m : M Session A) (f : A → M Session B)
    → Keeps (AtMost a) m
    → ((x : A) → Keeps (AtMost b) (f x))
    → Keeps (AtMost (a + b)) (m >>= f)
in_sequence a b m f h k =
    Keeps-then (AtMost a) (AtMost b) (AtMost (a + b)) (sum_le a b) (AtMost-sum a b) m f h k

pub after_no_call :
    {A B : Type 0} (b : ℕ) (m : M Session A) (f : A → M Session B)
    → Keeps (AtMost 0) m
    → ((x : A) → Keeps (AtMost b) (f x))
    → Keeps (AtMost b) (m >>= f)
after_no_call b m f h k = weaken (0 + b) b _ (omega arith) (in_sequence 0 b m f h k)

read_source-AtMost : {A : Type 0} (f : ℕ → A) → Keeps (AtMost 0) (read_source f)
unfolding Keeps AtMost read_source
read_source-AtMost f s = omega arith

pub the_metadata-AtMost : Keeps (AtMost 0) the_metadata
unfolding Keeps the_metadata
the_metadata-AtMost s = Keeps-deref _ no_call s.interaction.issuer_metadata s

pub store_acknowledgment_id-AtMost : (id : String) → Keeps (AtMost 0) (store_acknowledgment_id id)
unfolding Keeps AtMost store_acknowledgment_id
store_acknowledgment_id-AtMost id s = omega arith

pub create_claims_proof-AtMost :
    (ext : External) (used : Value) (signer : Signer)
    → Keeps (AtMost 0) (create_claims_proof ext used signer)
unfolding create_claims_proof sign_token
create_claims_proof-AtMost ext used signer = Keeps->>= _ no_call _ _ (read_source-AtMost _) λ time.
    Keeps->>= _ no_call _ _ (Keeps-gets _ no_call _) λ i. Keeps-on_error _ _ _ (
      Keeps->>= _ no_call _ _ (Keeps-on_error _ _ _ (Keeps-lift _ no_call _))
        λ jwt. Keeps-on_error _ _ _ (Keeps-lift _ no_call _))

create_oauth_http_client-AtMost : Keeps (AtMost 0) create_oauth_http_client
unfolding create_oauth_http_client
create_oauth_http_client-AtMost = Keeps->>= _ no_call _ _ (Keeps-gets _ no_call _) λ config.
    Keeps->>= _ no_call _ _ (Keeps-gets _ no_call _)
      λ held. Keeps->>= _ no_call _ _ (Keeps-deref _ no_call _) λ token. Keeps-give _ no_call _

pub post-AtMost :
    (ext : External) (client : Client) (x : Exchange)
    → Keeps (AtMost 1) (on_world (do_context ext.network client x))
unfolding Keeps AtMost on_world
post-AtMost ext client x s =
    rw
      (final-zoom (λ (s : Session). s.world) (λ w s. record s { world = w })
        (do_context ext.network client x) s)
      (go (do_context-Answered ext.network client x s.world))
  where
    go :
        {r : Run World String}
        → Returns (Answered ext.network client x s.world) (Refused ext.network client x s.world) r
        → length (final r).calls ≤ 1 + length s.world.calls
    go (returned a) = rw a.calls_one (omega arith)
    go (failed f) = elim f.calls_most [
      | inl same ↦ rw same (omega arith)
      | inr one ↦ rw one (omega arith)
    ]

fetch_credential-AtMost :
    (ext : External) (o : Order) (index : ℕ) (types : List String)
    → Keeps (AtMost 1) (fetch_credential ext o index types)
unfolding fetch_credential create_credential_request_body
fetch_credential-AtMost ext o index types = after_no_call 1 _ _ (Keeps-deref _ no_call _) λ format.
    after_no_call 1 _ _ (Keeps-deref _ no_call _) λ context.
      after_no_call 1 _ _ (Keeps-lift _ no_call _) λ body.
        after_no_call 1 _ _ the_metadata-AtMost λ m.
          in_sequence 1 0 _ _ (post-AtMost ext o.client _) λ bytes.
            Keeps->>= _ no_call _ _ (Keeps-on_error _ _ _ (Keeps-lift _ no_call _)) λ response.
              Keeps->> _ no_call _ _ (store_acknowledgment_id-AtMost response.ack_id)
                (Keeps-give _ no_call _)

pub fetch_credentials-AtMost :
    (ext : External) (o : Order) (index : ℕ) (types : List (List String))
    → Keeps (AtMost (length types)) (fetch_credentials ext o index types)
unfolding fetch_credentials
fetch_credentials-AtMost ext o index [] = Keeps-give _ no_call _
fetch_credentials-AtMost ext o index (types ∷ rest) =
    weaken (1 + (length rest + 0)) (suc (length rest)) _ (omega arith) (
      in_sequence 1 (length rest + 0) _ _ (fetch_credential-AtMost ext o index types) λ r.
        in_sequence (length rest) 0 _ _ (fetch_credentials-AtMost ext o (suc index) rest)
          λ rs. Keeps-give _ no_call _)

request_with_nonce-AtMost :
    (ext : External) (signer : Signer) (w : Wanted) (used : Value)
    → Keeps (AtMost (length w.types)) (request_with_nonce ext signer w used)
unfolding request_with_nonce
request_with_nonce-AtMost ext signer w used =
    after_no_call (length w.types) _ _ (create_claims_proof-AtMost ext used signer) λ proof_jwt.
      after_no_call (length w.types) _ _ create_oauth_http_client-AtMost
        λ client. fetch_credentials-AtMost ext _ 0 w.types

again-AtMost :
    {A : Type 0} (a b : ℕ) (s t : Session) (e : GoError) (again : String → M Session A)
    → AtMost a s t
    → ((fresh : String) → Keeps (AtMost b) (again fresh))
    → AtMost (a + b) s (final (again_if_invalid_proof (fail e t) again))
unfolding Keeps again_if_invalid_proof
again-AtMost {A} a b s t e again le k = elim (Option-cases (as_invalid_proof e)) [
  | inl other ↦ rw (again_if_invalid_proof, other) (sum_le a b s t le)
  | inr (fresh, asks) ↦ rw (again_if_invalid_proof, asks) (AtMost-sum a b s t _ le (k fresh t))
]

pub retry_once-AtMost :
    {A : Type 0} (a b : ℕ) (m : M Session A) (again : String → M Session A)
    → Keeps (AtMost a) m
    → ((fresh : String) → Keeps (AtMost b) (again fresh))
    → Keeps (AtMost (a + b)) (retry_once m again)
unfolding Keeps retry_once again_if_invalid_proof
retry_once-AtMost {A} a b m again h k s = go (m s) (h s)
  where
    go :
        (r : Run Session A)
        → AtMost a s (final r)
        → AtMost (a + b) s (final (again_if_invalid_proof r again))
    go (done x t) le = sum_le a b s t le
    go (crash t) le = sum_le a b s t le
    go (fail e t) le = again-AtMost a b s t e again le k

-- However often proofs are rejected, the authorization code flow makes at most two calls for each
-- credential that was asked for, on every outcome.
pub get_credential_response-AtMost :
    (ext : External) (signer : Signer) (w : Wanted) (used : Value) (s : Session)
    → AtMost
        (length w.types + length w.types)
        s
        (final (get_credential_response ext signer w used true s))
unfolding Keeps get_credential_response
get_credential_response-AtMost ext signer w used s =
    retry_once-AtMost (length w.types) (length w.types) _ _
      (request_with_nonce-AtMost ext signer w used)
      (λ fresh. request_with_nonce-AtMost ext signer w (text fresh)) s
