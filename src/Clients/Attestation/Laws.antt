-- ===== src/Clients/Attestation/Laws.antt =====
-- A whole attestation: pkg/attestation/attestation_client.go.
use Prim.Native.String.{◌++◌ as concat}
use openvino_wallet.Base.{
  ◌++◌, none, [], ◌∷◌, String, List, arith, ◌≡◌, length, ◌≤◌, ap, refl, ◌∙◌, suc, trim_right,
}
use openvino_wallet.Run.{ok, lift, on_error, ◌>>=◌}
use openvino_wallet.Http.{World, Call, configured}
use openvino_wallet.Http.Laws.{IsReply}
use openvino_wallet.Clients.Attestation.Exchanges.{
  post, Within, Began, posted, none-Within, after_wrapped, attestation_init-Began,
  attestation_complete-Parsed,
}
use openvino_wallet.Clients.Attestation.{
  External, InitRequest, InitResponse, attestation_init, Client, complete, CompleteResponse,
  server_api, get_signer_did, read_clock, claims_for, request_for, get_attestation_vc, new_client,
  api_or, parse_failed,
}
use openvino_wallet.Errors.{GoError}
use openvino_wallet.Run.Rules.{Returns, after, Returns-mono, wrapping, lift_lem, after_lift}
use openvino_wallet.Issuance.Model.{Signer}

abbrev client_of : External → String → Client
client_of ext url = record { attestation_url = url; api = server_api ext }

-- The proof that is sent second: its issuer is the DID of the signer's key, its nonce the challenge.
abbrev pub Completed :
    External → String → String → String → Signer → World → CompleteResponse → World → Type 0
Completed ext url session_id challenge signer w completed w' =
    (did : String) × (jwt : String) × (jws : String) × (body : String) × (get_signer_did signer
      ≡ ok did)
    × (ext.new_signed
          (claims_for (client_of ext url) challenge did (ext.now w.ticks) (ext.now (suc w.ticks)))
          "openid4vci-proof+jwt" signer
        ≡ ok jwt)
    × (ext.serialize jwt ≡ ok jws)
    × (ext.marshal_complete (request_for session_id jws) ≡ ok body)
    × (bytes : String) × IsReply ext.network configured (post (concat url "/complete") body "") w
        bytes
    × (ext.unmarshal_complete bytes ≡ ok completed)
    × (w'.calls ≡ posted (concat url "/complete") body ∷ w.calls)

complete-Completed :
    (ext : External) (url session_id challenge : String) (signer : Signer) (w : World)
    → Returns
        (Completed ext url session_id challenge signer w)
        (Within 1 w)
        (complete ext (client_of ext url) session_id challenge signer w)
unfolding complete ◌>>=◌ read_clock server_api on_error lift
complete-Completed ext url session_id challenge signer w =
    after_lift (get_signer_did signer) _ w (λ e h. none-Within 1 w e)
      λ did d.
        after_wrapped
          (ext.new_signed
            (claims_for (client_of ext url) challenge did (ext.now w.ticks) (ext.now (suc w.ticks)))
            "openid4vci-proof+jwt" signer)
          _ _ (record w { ticks = suc (suc w.ticks) }) (none-Within 1 w)
          λ jwt j.
            after_wrapped (ext.serialize jwt) _ _ (record w { ticks = suc (suc w.ticks) })
              (none-Within 1 w)
              λ jws s.
                Returns-mono
                  (λ a t h. (did, jwt, jws, h.0, d, j, s, h.1, h.2.0, h.2.1, h.2.2, h.2.3))
                  (λ e t h. h)
                  (attestation_complete-Parsed ext (request_for session_id jws) url
                    (record w { ticks = suc (suc w.ticks) }))

one_more :
    (cs : List Call) (x : Call) (before : List Call)
    → length cs ≤ 1
    → (ds : List Call) × (length ds ≤ 2) × (cs ++ (x ∷ before) ≡ ds ++ before)
one_more [] x before h = (x ∷ [], omega arith, refl)
one_more (c ∷ []) x before h = (c ∷ x ∷ [], omega arith, refl)
one_more (c ∷ d ∷ cs) x before h = absurd (not_within cs h)
  where
    not_within : (cs : List Call) → ¬ (length (c ∷ d ∷ cs) ≤ 1)
    not_within cs h = omega arith

-- What a returned credential is: the reply to the second of two requests, the first of which
-- obtained the challenge that the second one signs.
abbrev pub Attested : External → String → InitRequest → Signer → World → String → World → Type 0
Attested ext url req signer w vc w' =
    (init : InitResponse) × (completed : CompleteResponse) × (between : World) × Began ext req url w
      init between
    × Completed ext url init.session_id init.challenge signer between completed w'
    × (ext.parse_credential completed.wallet_attestation_vc ≡ ok vc)

-- With the service that `NewClient` sets up, `GetAttestationVC` never panics. A credential that it
-- returns is parsed from the server's reply to the second of exactly two requests: the first one sends the
-- given request to /init below the trimmed URL, and the second one sends to /complete the session ID
-- of the first reply and a JWT whose nonce is its challenge, whose issuer is the DID of the signer's
-- key and whose audience is the trimmed URL. A failure has sent at most these two.
pub get_attestation_vc-Attested :
    (ext : External) (url : String) (req : InitRequest) (signer : Signer) (w : World)
    → Returns
        (Attested ext (trim_right b'/' url) req signer w)
        (Within 2 w)
        (get_attestation_vc ext (new_client ext url none) req signer w)
unfolding get_attestation_vc new_client api_or server_api
get_attestation_vc-Attested ext url req signer w =
    after (attestation_init ext req (trim_right b'/' url)) _ w
      (Returns-mono (λ a t h. h) (λ e t h. (h.0, omega arith, h.2))
        (attestation_init-Began ext req (trim_right b'/' url) w))
      λ init t began.
        after
          (complete ext (client_of ext (trim_right b'/' url)) init.session_id init.challenge signer)
          _ t
          (Returns-mono (λ a u h. h) (λ e u h. refused t init u e began h)
            (complete-Completed ext (trim_right b'/' url) init.session_id init.challenge signer t))
          λ completed u done_.
            wrapping (lift (ext.parse_credential completed.wallet_attestation_vc)) parse_failed u
              (λ e v h. h)
              (Returns-mono (λ vc v p. (init, completed, t, began, rw p.0 done_, p.1)) (λ e v h. h)
                (lift_lem (ext.parse_credential completed.wallet_attestation_vc) u λ e. (
                  second done_.3 ∷ first began.0 ∷ [],
                  omega arith,
                  done_.11 ∙ ap (λ cs. second done_.3 ∷ cs) began.2.3,
                )))
  where
    first : String → Call
    first = posted (concat (trim_right b'/' url) "/init")

    second : String → Call
    second = posted (concat (trim_right b'/' url) "/complete")

    refused :
        (t : World) (init : InitResponse) (u : World) (e : GoError)
        → Began ext req (trim_right b'/' url) w init t
        → Within 1 t e u
        → Within 2 w e u
    refused t init u e began h =
        let m = one_more h.0 (posted (concat (trim_right b'/' url) "/init") began.0) w.calls h.1 in
        (m.0, m.1, h.2 ∙ ap (λ cs. h.0 ++ cs) began.2.3 ∙ m.2)
