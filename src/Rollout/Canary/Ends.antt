-- ===== src/Rollout/Canary/Ends.antt =====
-- How a rollout ends: what a rollback has done when it reports success, and what it shares with a
-- promotion.
pub mod Promoted
use agentrax.Prelude.{
  pos, if◌then◌else◌, String, ◌==◌, ◌≡◌, refl, sym, ap, inl, inr, arith, Bool, true, false, not,
  Bool-cases, Option, none, some, [], ◌∷◌,
}
use agentrax.Api.{Phase, AgentDeployment, ConditionType, ConditionReason}
use agentrax.Rollout.Objects.{canary_name}
use agentrax.Rollout.Cluster.{
  deployments, services, routes, agents, done, History, write_status, read, object, Api, Result, ok,
  Exec, pure, fail, ◌>>=◌, ◌>>◌, get, asks, need,
}
use agentrax.Rollout.Cluster.Runs.{
  Recorded, Gone, Keeps, Keeps-bind, Keeps-if, Keeps-need, Keeps-get, Keeps-pure,
  Keeps-update_status, bind-ok, Gone-after, Recorded-after, write_needed-ok, fetched-ok,
}
use agentrax.Rollout.Resources.{
  delete_canary_deployment, delete_canary_service, delete_http_route, restore_hpa,
}
use agentrax.Rollout.Resources.Cleanup.{
  delete_canary_deployment-Gone, delete_canary_service-Gone, delete_http_route-Gone,
  Keeps-delete_canary_service, Keeps-delete_http_route, Keeps-restore_hpa,
}
use agentrax.Rollout.Canary.{
  Controller, restore_stable, rolled_back, rollback, promoted_status, promote_image, re_register,
  promote, call_register, set_registered,
}

-- The status of a failed rollout, written over `latest`: no traffic, no step, no clock running; the
-- failed image is remembered, the reason stands in a condition, and spec and stable version stay.
pub record IsFailed (api : Api) (reason : ConditionReason) (ad latest written : AgentDeployment)
    : Type 0 where
  pub phase : written.status.phase ≡ Phase.rollout_failed
  pub weight : written.status.canary_weight ≡ pos 0
  pub first_step : written.status.canary_step_index ≡ pos 0
  pub no_pause : written.status.pause_started_at ≡ none
  pub no_outage : written.status.prom_unreachable_since ≡ none
  pub remembered :
      written.status.canary_version
      ≡ (if latest.status.canary_version == "" then ad.spec.image else latest.status.canary_version)
  pub explained :
      written.status.conditions
      ≡ api.remove_condition ConditionType.sample_insufficient (
          api.set_condition
            (record {
              type_of = ConditionType.rollout_failed_condition;
              status = true;
              reason = reason;
              observed_generation = latest.generation;
            })
            latest.status.conditions)
  pub same_stable : written.status.stable_version ≡ latest.status.stable_version
  pub same_spec : written.spec ≡ latest.spec
  pub same_namespace : written.namespace ≡ latest.namespace
  pub same_name : written.name ≡ latest.name

rolled_back-IsFailed :
    (api : Api) (reason : ConditionReason) (ad latest : AgentDeployment)
    → IsFailed api reason ad latest (rolled_back api reason ad latest)
unfolding rolled_back
rolled_back-IsFailed api reason ad latest = record {
  phase = refl;
  weight = refl;
  first_step = refl;
  no_pause = refl;
  no_outage = refl;
  remembered = refl;
  explained = refl;
  same_stable = refl;
  same_spec = refl;
  same_namespace = refl;
  same_name = refl;
}

-- Nothing is left of the canary: its Deployment, its Service and the route.
abbrev pub IsCleaned : AgentDeployment → History → Type 0
IsCleaned ad h =
    Gone deployments ad.namespace (canary_name ad) h
    × Gone services ad.namespace (canary_name ad) h
    × Gone routes ad.namespace ad.name h

IsCleaned-after :
    {A : Type 0} (m : Exec A) (ad : AgentDeployment) (api : Api) (h h' : History) (r : Result A)
    → Keeps m
    → m api h ≡ (r, h')
    → IsCleaned ad h
    → IsCleaned ad h'
IsCleaned-after m ad api h h' r k e x = (
  Gone-after m _ _ _ api h h' r k e x.0,
  Gone-after m _ _ _ api h h' r k e x.1,
  Gone-after m _ _ _ api h h' r k e x.2,
)

-- The part that a rollback and a promotion share: the deletions, the HPA and the fetch.
clean_and_fetch : AgentDeployment → String → {B : Type 0} → (AgentDeployment → Exec B) → Exec B
clean_and_fetch ad message k = do
  delete_canary_deployment ad
  delete_canary_service ad
  delete_http_route ad
  restore_hpa ad
  reply ← get agents (λ api. api.agent) ad.namespace ad.name
  latest ← need message reply
  k latest

-- The history after the agent has been read again and its status written.
abbrev pub after_write : AgentDeployment → AgentDeployment → History → History
after_write ad written seen =
    write_status written done ∷ read agents ad.namespace ad.name done ∷ seen

clean_and_fetch-ok :
    {B : Type 0} (ad : AgentDeployment) (message : String) (k : AgentDeployment → Exec B) (b : B)
    (api : Api) (h h' : History)
    → clean_and_fetch ad message k api h ≡ (ok b, h')
    → (latest : AgentDeployment) × (seen : History) × IsCleaned ad seen
      × (api.agent seen ad.namespace ad.name ≡ object latest)
      × (k latest api (read agents ad.namespace ad.name done ∷ seen) ≡ (ok b, h'))
unfolding clean_and_fetch
clean_and_fetch-ok ad message k b api h h' e =
    let (u1, h1, r1, e1) = bind-ok _ _ b api h h' e in
    let (u2, h2, r2, e2) = bind-ok _ _ b api h1 h' e1 in
    let (u3, h3, r3, e3) = bind-ok _ _ b api h2 h' e2 in
    let (u4, h4, r4, e4) = bind-ok _ _ b api h3 h' e3 in
    let (latest, found, e5) = fetched-ok message ad.namespace ad.name k b api h4 h' e4 in
    let d = delete_canary_deployment-Gone ad api h h1 r1 in
    let s = delete_canary_service-Gone ad api h1 h2 r2 in
    let d2 =
      Gone-after (delete_canary_service ad) _ _ _ api h1 h2 _ (Keeps-delete_canary_service ad) r2
        d in
    let d3 =
      Gone-after (delete_http_route ad) _ _ _ api h2 h3 _ (Keeps-delete_http_route ad) r3 d2 in
    let s3 =
      Gone-after (delete_http_route ad) _ _ _ api h2 h3 _ (Keeps-delete_http_route ad) r3 s in
    let t3 = delete_http_route-Gone ad api h2 h3 r3 in
    let c4 =
      IsCleaned-after (restore_hpa ad) ad api h3 h4 _ (Keeps-restore_hpa ad) r4 (d3, s3, t3) in
    (latest, h4, c4, found, e5)

-- The canary is gone; then the agent has been read again, and the last call has written the status
-- of a failed rollout over what was read.
abbrev pub EndsFailed : Api → ConditionReason → AgentDeployment → History → Type 0
EndsFailed api reason ad h =
    (latest written : AgentDeployment) × (seen : History) × IsCleaned ad seen
    × (api.agent seen ad.namespace ad.name ≡ object latest)
    × IsFailed api reason ad latest written
    × (h ≡ after_write ad written seen)

pub rollback-ok :
    (ad : AgentDeployment) (reason : ConditionReason) (api : Api) (h h' : History)
    → rollback ad reason api h ≡ (ok tt, h')
    → EndsFailed api reason ad h'
unfolding rollback clean_and_fetch asks pure ◌>>=◌
rollback-ok ad reason api h h' e =
    let (u, h0, r0, e0) = bind-ok (restore_stable ad) _ tt api h h' e in
    let (latest, seen, cleaned, found, e1) =
      clean_and_fetch-ok ad "re-fetching AD for rollback status update" _ tt api h0 h' e0 in
    let (stored, e2) =
      write_needed-ok "updating status after rollback" (rolled_back api reason ad latest)
        (λ s. pure tt) tt api _ h' e1 in
    (
      latest,
      rolled_back api reason ad latest,
      seen,
      cleaned,
      found,
      rolled_back-IsFailed api reason ad latest,
      sym (ap (λ p. p.1) e2),
    )

-- A rollback that reports success has found the canary's Deployment and Service and the route gone
-- or has deleted them. Then it has read the agent again and, as its last call, has written the
-- status over what it read: the phase is failed with the reason as a condition, the weight and the
-- step are zero, no pause and no outage is running, stable version and spec are as read, and so is
-- the canary version, for which the spec's image stands where none was set.
pub rollback_cleans :
    (ad : AgentDeployment) (reason : ConditionReason) (api : Api) (h' : History)
    → rollback ad reason api [] ≡ (ok tt, h')
    → EndsFailed api reason ad h'
rollback_cleans ad reason api h' e = rollback-ok ad reason api [] h' e
