-- ===== src/Controller/Agents/Canaries.antt =====
-- How Reconcile starts a canary, and what it does with an image that has failed.
use agentrax.Prelude.{
  pos, String, ◌≡◌, refl, sym, ap, ◌∙◌, inl, inr, arith, true, false, Bool-cases, Option, none,
  some, List, [], ◌∷◌,
}
use agentrax.Api.{Time, Phase, AgentDeployment}
use agentrax.Api.ErrorRate.{Float}
use agentrax.Api.Objects.{Container, Deployment}
use agentrax.Rollout.Cluster.{
  Api, History, deployments, autoscalers, done, object, read, write_deployment, ok, continue, pure,
  ◌>>=◌, get, store, asks, need, require, answer_of,
}
use agentrax.Rollout.Cluster.Runs.{
  Recorded, Gone, bind-ok, fetched-ok, write_needed-ok, Keeps-bind, Keeps-must, Keeps-pure,
  Recorded-bind,
}
use agentrax.Rollout.Cluster.Owned.{Is}
use agentrax.Rollout.Resources.{pause_hpa}
use agentrax.Rollout.Resources.Cleanup.{pause_hpa-Gone}
use agentrax.Rollout.Canary.{Controller, Requeue}
use agentrax.Rollout.Canary.Ends.{after_write}
use agentrax.Controller.Objects.Triggers.{in_rollout_iff, is_canary_triggered_iff}
use agentrax.Controller.Objects.{
  in_rollout, is_canary_triggered, is_abort_requested, stable_image, desired_deployment,
  update_containers, update_deployment,
}
use agentrax.Controller.Children.{own, reconcile_deployment}
use agentrax.Controller.Children.Keeps.{
  Keeps-reconcile_service, Keeps-reconcile_service_monitor, Keeps-reconcile_hpa,
}
use agentrax.Controller.Registration.{five_seconds}
use agentrax.Controller.Status.Keeps.{Keeps-update_agent_status}
use agentrax.Controller.Agents.{
  Reconciler, started, start_canary, reconcile_children, with_canary, reconcile_live,
}

-- The image of the container that the operator manages.
abbrev pub first_image : List Container → Option String
first_image [] = none
first_image (c ∷ cs) = some c.image

first_image-update :
    (existing : List Container) (ad : AgentDeployment)
    → first_image (update_containers (desired_deployment ad).containers existing)
      ≡ some (stable_image ad)
unfolding update_containers desired_deployment
first_image-update [] ad = refl
first_image-update (c ∷ cs) ad = refl

deployment_written :
    (ad : AgentDeployment) (api : Api) (h : History) (existing : Deployment)
    → api.deployment_to_mutate h ad.namespace ad.name ≡ object existing
    → api.set_owner (read deployments ad.namespace ad.name done ∷ h) ad ≡ true
    → let dep = update_deployment (desired_deployment ad) existing in
      let h1 = read deployments ad.namespace ad.name done ∷ h in
      Recorded (write_deployment dep (api.store h1 deployments)) (reconcile_deployment ad api h).1
unfolding reconcile_deployment own get store asks need require pure ◌>>=◌ continue answer_of
deployment_written ad api h existing found owned =
    rw (found, owned) (Keeps-must "reconciling deployment" _ _ api _ (inl refl))

module _ (r : Reconciler) (fl : Float) (quote : String → String)
    (prom : History → String → Option fl.F) (now : Time) (ad : AgentDeployment) (c : Controller)
    (api : Api) where
  not_rolling : is_canary_triggered ad ≡ true → in_rollout ad.status.phase ≡ false
  not_rolling h =
      let idle = ((is_canary_triggered_iff ad).0 h).idle in
      ground (arith, idle, in_rollout_iff ad.status.phase)

  starts :
      is_canary_triggered ad ≡ true
      → with_canary r fl quote prom now ad c ≡ (start_canary ad >>= λ u. pure (some five_seconds))
  unfolding with_canary is_abort_requested
  starts h = rw (not_rolling h, h) (ground arith)

  -- If Reconcile succeeds on an agent for which a canary is due, the agent's HPA was not there or
  -- has been deleted. Then the agent has been read again and, as the last call, its status has been
  -- written: the rollout is in progress with the spec's image as canary, at step and weight zero,
  -- with the stable version, the spec and the name as they were read. The agent is reconciled
  -- again after five seconds.
  pub canary_starts_paused :
      (h h' : History) (requeue : Requeue)
      → is_canary_triggered ad ≡ true
      → reconcile_live r fl quote prom now ad (some c) api h ≡ (ok requeue, h')
      → (latest written : AgentDeployment) × (seen : History) × Gone autoscalers ad.namespace
          ad.name seen
        × (api.agent seen ad.namespace ad.name ≡ object latest)
        × (h' ≡ after_write ad written seen)
        × (requeue ≡ some five_seconds)
        × (written.status.phase ≡ Phase.rollout_in_progress)
        × (written.status.canary_version ≡ ad.spec.image)
        × (written.status.canary_step_index ≡ pos 0)
        × (written.status.canary_weight ≡ pos 0)
        × (written.status.stable_version ≡ latest.status.stable_version)
        × (written.spec ≡ latest.spec)
        × (written.namespace ≡ latest.namespace)
        × (written.name ≡ latest.name)
  unfolding reconcile_live start_canary pure started
  canary_starts_paused h h' requeue due e =
      let (u, h1, ran, back) =
        bind-ok (start_canary ad) _ requeue api h h' (rw (starts due) at e) in
      let (v, h2, paused, e2) = bind-ok (pause_hpa ad) _ u api h h1 ran in
      let (latest, found, e4) =
        fetched-ok "re-fetching AD to start canary" ad.namespace ad.name _ u api h2 h1 e2 in
      let (stored, e5) =
        write_needed-ok "updating status to RolloutInProgress" (started ad latest) _ u api _ h1
          e4 in
      (
        latest,
        started ad latest,
        h2,
        pause_hpa-Gone ad api h h2 paused,
        found,
        sym (ap (λ p. p.1) back) ∙ sym (ap (λ p. p.1) e5),
        ground (arith, ap (λ p. p.0) back),
        refl,
        refl,
        refl,
        refl,
        refl,
        refl,
        refl,
        refl,
      )

  module _ (failed : ad.status.phase ≡ Phase.rollout_failed)
      (same : ad.spec.image ≡ ad.status.canary_version) where
    not_due : is_canary_triggered ad ≡ false
    not_due = elim (Bool-cases (is_canary_triggered ad)) [
      | inl due ↦ absurd (((is_canary_triggered_iff ad).0 due).new (failed, same))
      | inr idle ↦ idle
    ]

    no_canary : with_canary r fl quote prom now ad c ≡ reconcile_children r fl quote prom ad
    unfolding with_canary is_abort_requested in_rollout
    no_canary = rw (not_due, failed) (ground arith)

    spec_image : stable_image ad ≡ ad.spec.image
    unfolding stable_image in_rollout
    spec_image = rw failed refl

    -- For an agent whose rollout has failed and whose spec still names the failed image, Reconcile
    -- starts no canary: it does what reconcileChildren does, and answers the same. If CreateOrUpdate
    -- gets a Deployment of the agent's namespace and name, and the owner can be set, then it makes
    -- the write of that Deployment with the desired one laid over it: under that namespace and name,
    -- with the failed image in the first container, whatever the stable version is.
    pub failed_image_redeployed :
        (h : History) (existing : Deployment)
        → api.deployment_to_mutate h ad.namespace ad.name ≡ object existing
        → Is ad.namespace ad.name existing.namespace existing.name
        → api.set_owner (read deployments ad.namespace ad.name done ∷ h) ad ≡ true
        → (reconcile_live r fl quote prom now ad (some c) api h
            ≡ reconcile_children r fl quote prom ad api h)
          × Recorded
              (write_deployment
                (update_deployment (desired_deployment ad) existing)
                (api.store (read deployments ad.namespace ad.name done ∷ h) deployments))
              (reconcile_live r fl quote prom now ad (some c) api h).1
          × (first_image (update_deployment (desired_deployment ad) existing).containers
              ≡ some ad.status.canary_version)
          × ((update_deployment (desired_deployment ad) existing).namespace ≡ ad.namespace)
          × ((update_deployment (desired_deployment ad) existing).name ≡ ad.name)
    unfolding reconcile_live reconcile_children update_deployment
    failed_image_redeployed h existing found named owned = (
      ap (λ m. m api h) no_canary,
      rw no_canary (
          Recorded-bind (reconcile_deployment ad) _ _ api h
            (λ u. Keeps-bind _ _ (Keeps-reconcile_service ad) λ v.
              Keeps-bind _ _ (Keeps-reconcile_service_monitor _ ad) λ w.
                Keeps-bind _ _ (Keeps-reconcile_hpa ad) λ hpa.
                  Keeps-bind _ _
                    (Keeps-update_agent_status r.registrar r.mcp_health_interval ad hpa.1)
                    (λ status. Keeps-pure _))
            (deployment_written ad api h existing found owned)),
      first_image-update existing.containers ad ∙ ap some (spec_image ∙ same),
      named.0,
      named.1,
    )
