-- ===== src/Issuance/Request/Laws.antt =====
-- The requests for credentials: pkg/openid4ci/interaction.go.
use mathlib.Core.List.{append-nil, append_assoc}
use openvino_wallet.Base.{
  none, some, [], ◌∷◌, Option, List, ◌≡◌, String, append, length, suc, ℕ, refl, ◌++◌, map, sym, ◌+◌,
  ap, ◌∙◌, arith,
}
use openvino_wallet.Issuance.Model.{CredentialResponse, Session, on_world, External}
use openvino_wallet.Http.{Network, Client, Exchange, World, do_context}
use openvino_wallet.Issuance.Request.{
  fetch_credential, create_credential_request_body, store_acknowledgment_id, append_id, Order,
  fetch_credentials,
}
use openvino_wallet.Issuance.Interaction.{the_metadata}
use openvino_wallet.Run.{Run}
use openvino_wallet.Run.Rules.{Returns, returned, failed}
use openvino_wallet.Http.Laws.{Answered, Refused, do_context-Answered}
use openvino_wallet.Run.Success.{
  Ensures, Ensures->>=, Ensures-deref, succeeds, Ensures-lift, Ensures-zoom, fails,
  Ensures-on_error, Ensures-modify,
}

-- The acknowledgment IDs that an interaction holds; a nil pointer holds none.
abbrev pub ids_of : Session → List String
ids_of s = elim s.interaction.requested_acknowledgment [ none ↦ [] | some ids ↦ ids ]

-- What one request for a credential does.
record IsFetched (response : CredentialResponse) (s t : Session) : Type 0 where
  pub ids : ids_of t ≡ append (ids_of s) response.ack_id
  pub calls : length t.world.calls ≡ suc (length s.world.calls)

do_context-one :
    {net : Network} {client : Client} {x : Exchange} {w : World} {r : Run World String}
    → Returns (Answered net client x w) (Refused net client x w) r
    → Ensures (λ bytes w'. length w'.calls ≡ suc (length w.calls)) r
do_context-one (returned a) = succeeds (rw a.calls_one refl)
do_context-one (failed f) = fails

ids_of-append :
    (held : Option (List String)) (id : String)
    → (elim (append_id held id) as (λ _. List String) [ none ↦ [] | some ids ↦ ids ])
      ≡ append (elim held as (λ _. List String) [ none ↦ [] | some ids ↦ ids ]) id
ids_of-append none id = refl
ids_of-append (some ids) id = refl

-- One exchange, seen from the session.
post_lem :
    (ext : External) (client : Client) (x : Exchange) (s : Session)
    → Ensures
        (λ bytes t.
          (t.interaction ≡ s.interaction) × (length t.world.calls ≡ suc (length s.world.calls)))
        (on_world (do_context ext.network client x) s)
unfolding on_world
post_lem ext client x s =
    Ensures-zoom (λ (s : Session). s.world) (λ w s. record s { world = w })
      (do_context ext.network client x) s
      (do_context-one (do_context-Answered ext.network client x s.world)) (λ bytes w h. (refl, h))

fetch_credential_lem :
    (ext : External) (o : Order) (index : ℕ) (types : List String) (s : Session)
    → Ensures (λ response t. IsFetched response s t) (fetch_credential ext o index types s)
unfolding fetch_credential create_credential_request_body store_acknowledgment_id the_metadata
fetch_credential_lem ext o index types s = Ensures->>= _ _ _ (Ensures-deref _ s) λ format t0 p0.
    rw p0.0 (
      Ensures->>= _ _ _ (Ensures-deref _ s) λ context t1 p1. rw p1.0 (
        Ensures->>= _ _ _ (Ensures-lift _ s) λ body t2 p2. rw p2.0 (
          Ensures->>= _ _ _ (Ensures-deref _ s) λ m t3 p3. rw p3.0 (
            Ensures->>= _ _ _ (post_lem ext o.client _ s) λ bytes t4 p4.
              Ensures->>= _ _ _ (Ensures-on_error _ _ t4 (Ensures-lift _ t4)) λ response t5 p5.
                rw p5.0 (
                  Ensures-modify _ _ t4 (
                    succeeds (record {
                      ids =
                          rw (← p4.0)
                            (ids_of-append t4.interaction.requested_acknowledgment response.ack_id);
                      calls = p4.1;
                    })))))))

-- What the requests for all credentials do: one response for each, its ID kept, one call for each.
pub record AreFetched (responses : List CredentialResponse) (count : ℕ) (s t : Session)
    : Type 0 where
  pub one_each : length responses ≡ count
  pub ids : ids_of t ≡ ids_of s ++ map (λ (r : CredentialResponse). r.ack_id) responses
  pub calls : length t.world.calls ≡ count + length s.world.calls

-- The loop over the credentials, where it succeeds, returns one response for each credential that was
-- asked for, adds their acknowledgment IDs in order to those that the interaction holds, and makes one
-- call for each.
pub fetch_credentials-AreFetched :
    (ext : External) (o : Order) (index : ℕ) (types : List (List String)) (s : Session)
    → Ensures
        (λ responses t. AreFetched responses (length types) s t)
        (fetch_credentials ext o index types s)
unfolding fetch_credentials
fetch_credentials-AreFetched ext o index [] s =
    succeeds (record { one_each = refl; ids = sym (append-nil (ids_of s)); calls = omega arith })
fetch_credentials-AreFetched ext o index (types ∷ rest) s =
    Ensures->>= _ _ _ (fetch_credential_lem ext o index types s) λ r t p.
      Ensures->>= _ _ _ (fetch_credentials-AreFetched ext o (suc index) rest t) λ rs u q.
        succeeds (record {
          one_each = ap suc q.one_each;
          ids =
              q.ids
              ∙ ap (λ x. x ++ map (λ (r : CredentialResponse). r.ack_id) rs) p.ids
              ∙ append_assoc (ids_of s) _ _;
          calls = omega (arith, q.calls, p.calls);
        })
