-- ===== src/Http/Laws.antt =====
-- What one HTTP exchange does: pkg/internal/httprequest/httprequest.go.
use openvino_wallet.Base.{ℕ, String, true, ◌∷◌, ◌≡◌, ◌⊎◌, arith, refl, contains}
use openvino_wallet.Errors.{GoError}
use openvino_wallet.Run.Rules.{
  Returns, returned, failed, fail_with_lem, after_reject, after_fail_with, after, after_,
}
use openvino_wallet.Http.{
  World, Network, MetricsEvent, Activity, log_metrics, log_activity, Client, Request, Exchange,
  request_of, http, Body, readable, unreadable, Reply, no_reply, reply, to_response, read_all, send,
  do_context, statuses_or_default,
}

module _ {R : GoError → World → Type 0} where
  pub send_lem :
      (net : Network) (client : Client) (req : Request) (w : World)
      → ((e : GoError) → R e (record w { calls = http client req ∷ w.calls }))
      → Returns
          (λ resp w'.
            (w' ≡ record w { calls = http client req ∷ w.calls })
            × (net.answer w.calls client req ≡ reply resp.status_code resp.body))
          R
          (send net client req w)
  unfolding send to_response
  send_lem net client req w h = go (net.answer w.calls client req) refl
    where
      go :
          (r : Reply)
          → net.answer w.calls client req ≡ r
          → Returns
              (λ resp w'.
                (w' ≡ record w { calls = http client req ∷ w.calls })
                × (net.answer w.calls client req ≡ reply resp.status_code resp.body))
              R
              (to_response r (record w { calls = http client req ∷ w.calls }))
      go (no_reply e) eq = failed (h e)
      go (reply n b) eq = returned (refl, eq)

  pub log_metrics_lem :
      (net : Network) (m : MetricsEvent) (w : World)
      → ((e : GoError) → R e (record w { metrics = m ∷ w.metrics }))
      → Returns (λ _ w'. w' ≡ record w { metrics = m ∷ w.metrics }) R (log_metrics net m w)
  unfolding log_metrics
  log_metrics_lem net m w h =
      fail_with_lem (net.metrics_error w.metrics m) (record w { metrics = m ∷ w.metrics }) h

  pub log_activity_lem :
      (net : Network) (a : Activity) (w : World)
      → ((e : GoError) → R e (record w { activities = a ∷ w.activities }))
      → Returns (λ _ w'. w' ≡ record w { activities = a ∷ w.activities }) R (log_activity net a w)
  unfolding log_activity
  log_activity_lem net a w h =
      fail_with_lem (net.activity_error w.activities a) (record w { activities = a ∷ w.activities })
        h

  pub read_all_lem :
      (b : Body) (w : World)
      → ((e : GoError) → R e w)
      → Returns (λ bytes w'. (w' ≡ w) × (b ≡ readable bytes)) R (read_all b w)
  unfolding read_all
  read_all_lem (readable s) w h = returned (refl, refl)
  read_all_lem (unreadable e) w h = failed (h e)

-- The bytes are those with which the server replies to the request, with a status that is accepted.
abbrev pub IsReply : Network → Client → Exchange → World → String → Type 0
IsReply net client x w bytes =
    (status : ℕ) × (net.answer w.calls client (request_of x) ≡ reply status (readable bytes))
    × (contains (statuses_or_default x.acceptable_statuses) status ≡ true)

module _ (net : Network) (client : Client) (x : Exchange) (w : World) where
  -- The bytes are those of the server's reply to this request, with a status that is accepted; the
  -- request is the only call made, and no activity is logged.
  pub record Answered (bytes : String) (w' : World) : Type 0 where
    pub calls_one : w'.calls ≡ http client (request_of x) ∷ w.calls
    pub activities_same : w'.activities ≡ w.activities
    pub status : ℕ
    pub answered : net.answer w.calls client (request_of x) ≡ reply status (readable bytes)
    pub accepted : contains (statuses_or_default x.acceptable_statuses) status ≡ true

  -- On failure the request was sent at most once.
  pub record Refused (e : GoError) (w' : World) : Type 0 where
    pub calls_most : (w'.calls ≡ w.calls) ⊎ (w'.calls ≡ http client (request_of x) ∷ w.calls)
    pub activities_same : w'.activities ≡ w.activities

  -- `DoContext` never panics. On success the bytes are those of the reply to the one request that was
  -- sent, whose status is accepted; where it fails, the request was sent at most once. No activity is
  -- logged.
  pub do_context-Answered : Returns Answered Refused (do_context net client x w)
  unfolding do_context
  do_context-Answered =
      after_fail_with _ _ _ (λ e h. ground arith)
        λ ready. after _ _ _ (send_lem net client (request_of x) w (λ e. ground arith)) λ resp w' p.
          after_ _ _ _ (log_metrics_lem net _ w' (λ e. ground arith)) λ w'' logged.
            after _ _ _ (read_all_lem resp.body w'' (λ e. ground arith)) λ bytes u q.
              after_reject _ _ _ _ (λ bad. ground arith)
                λ good. returned (record {
                  calls_one = ground arith;
                  activities_same = ground arith;
                  status = resp.status_code;
                  answered = ground arith;
                  accepted = ground arith;
                })
