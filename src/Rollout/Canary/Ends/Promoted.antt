-- ===== src/Rollout/Canary/Ends/Promoted.antt =====
-- How a rollout ends: what a promotion has done when it reports success.
use agentrax.Prelude.{
  pos, String, ◌==◌, ◌≡◌, refl, sym, ◌∙◌, ap, inl, inr, arith, Bool, true, false, not, Bool-cases,
  Option, none, some, [], ◌∷◌, ◌++◌,
}
use agentrax.Api.{Phase, AgentDeployment}
use agentrax.Rollout.Cluster.{Call, History, object, register_call, Api, ok, fail, ◌>>=◌, asks}
use agentrax.Rollout.Cluster.Runs.{bind-ok, write_needed-ok}
use agentrax.Rollout.Cluster.Traces.{
  Anything, OnObject, OnObject-any, Does, Does-pure, Does-if, Does-bind, Does-update_status,
}
use agentrax.Rollout.Canary.{
  Controller, promoted_status, promote_image, re_register, promote, call_register, set_registered,
}
use agentrax.Rollout.Canary.Ends.{IsCleaned, after_write, clean_and_fetch, clean_and_fetch-ok}

-- The status of a promotion of `version`, written over `latest`.
pub record IsPromoted (version : String) (latest written : AgentDeployment) : Type 0 where
  pub phase : written.status.phase ≡ Phase.running
  pub stable : written.status.stable_version ≡ version
  pub no_canary : written.status.canary_version ≡ ""
  pub weight : written.status.canary_weight ≡ pos 0
  pub first_step : written.status.canary_step_index ≡ pos 0
  pub no_pause : written.status.pause_started_at ≡ none
  pub no_outage : written.status.prom_unreachable_since ≡ none
  pub same_spec : written.spec ≡ latest.spec
  pub same_namespace : written.namespace ≡ latest.namespace
  pub same_name : written.name ≡ latest.name

promoted_status-IsPromoted :
    (api : Api) (version : String) (latest : AgentDeployment)
    → IsPromoted version latest (promoted_status api version latest)
unfolding promoted_status
promoted_status-IsPromoted api version latest = record {
  phase = refl;
  stable = refl;
  no_canary = refl;
  weight = refl;
  first_step = refl;
  no_pause = refl;
  no_outage = refl;
  same_spec = refl;
  same_namespace = refl;
  same_name = refl;
}

abbrev Any : Call → Type 0
Any call = Unit

module _ (api : Api) where
  Does-call_register :
      (register : History → AgentDeployment → Bool) (ad : AgentDeployment)
      → Does api Any Anything (call_register register ad)
  unfolding call_register
  Does-call_register register ad h = ((register_call ad _ ∷ [], refl, (tt, tt)), tt)

  Does-set_registered :
      (latest : AgentDeployment) (b : Bool) → Does api Any Anything (set_registered latest b)
  unfolding set_registered
  Does-set_registered latest false = Does-pure api Any Anything tt tt
  Does-set_registered latest true =
      Does-if api Any Anything latest.status.registered _ _ (Does-pure api Any Anything tt tt) (
        Does-bind api Any (OnObject Anything) Anything _ _
          (Does-update_status api Any Anything _ (λ a. tt) (λ h. OnObject-any _))
          (λ w o. Does-pure api Any Anything tt tt))

  Does-re_register :
      (r : Option (History → AgentDeployment → Bool)) (latest : AgentDeployment)
      → Does api Any Anything (re_register r latest)
  unfolding re_register
  Does-re_register none latest = Does-pure api Any Anything tt tt
  Does-re_register (some register) latest =
      Does-if api Any Anything (not latest.spec.mcp.expose) _ _ (Does-pure api Any Anything tt tt) (
        Does-bind api Any Anything Anything _ _ (Does-call_register register latest)
          (λ b u. Does-set_registered latest b))

-- The canary is gone; then the agent has been read again, and the status of a promotion has been
-- written over what was read. The calls `new` come after that.
abbrev pub EndsPromoted : Api → AgentDeployment → History → Type 0
EndsPromoted api ad h =
    (latest written : AgentDeployment) × (seen new : History) × IsCleaned ad seen
    × (api.agent seen ad.namespace ad.name ≡ object latest)
    × IsPromoted ad.status.canary_version latest written
    × (h ≡ new ++ after_write ad written seen)

-- A promotion that reports success had a canary version to promote, and has found the canary's
-- Deployment and Service and the route gone or has deleted them. Then it has read the agent again,
-- and has written over what it read the status that makes that version the stable one and ends the
-- rollout, with the spec as read.
pub promote_cleans :
    (c : Controller) (ad : AgentDeployment) (api : Api) (h' : History)
    → promote c ad api [] ≡ (ok tt, h')
    → ((ad.status.canary_version == "") ≡ false) × EndsPromoted api ad h'
unfolding promote clean_and_fetch asks fail ◌>>=◌
promote_cleans c ad api h' e = elim (Bool-cases (ad.status.canary_version == "")) [
  | inl empty ↦ absurd (ground (arith, ap (λ p. p.0) (rw empty at e)))
  | inr named ↦
      let (u, h0, r0, e0) = bind-ok (promote_image c ad) _ tt api [] h' (rw named at e) in
      let (latest, seen, cleaned, found, e1) =
        clean_and_fetch-ok ad "re-fetching AD for promotion status update" _ tt api h0 h' e0 in
      let (stored, e2) =
        write_needed-ok "updating status after promotion"
          (promoted_status api ad.status.canary_version latest) (re_register c.register) tt api _ h'
          e1 in
      let (new, after, any) = (Does-re_register api c.register stored _).0 in
      (
        named,
        (
          latest,
          promoted_status api ad.status.canary_version latest,
          seen,
          new,
          cleaned,
          found,
          promoted_status-IsPromoted api ad.status.canary_version latest,
          sym (ap (λ p. p.1) e2) ∙ after,
        ),
      )
]
