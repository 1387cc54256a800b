-- ===== src/Rollout/Canary/Settled.antt =====
-- Rollback, promote and executeSetWeight against a server that works: which status they leave.
use agentrax.Prelude.{ℤ, ◌≡◌, refl, ap, ◌∙◌, Bool, true, false, not, ◌==◌, Option, none, some, ◌∷◌}
use agentrax.Api.{Phase, AgentDeployment, ConditionReason}
use agentrax.Rollout.Cluster.{Api, History, deployments, register_call, ok, Exec}
use agentrax.Rollout.Cluster.Stored.{
  stored, IsStoring, Ends, Ends-quiet, Ends-settled, Ends-pure, Ends-asks, Ends-fetched,
  Ends-written, Settles-stored, Ends-if, Ends-updated, Ends-stable,
}
use agentrax.Rollout.Resources.Settled.{
  Settled-ensure_canary_deployment, Settled-ensure_canary_service, Settled-restore_hpa,
  Settled-delete_canary_deployment, Settled-delete_canary_service, Settled-delete_http_route,
  Settled-ensure_http_route,
}
use agentrax.Rollout.Canary.{
  Controller, Requeue, rollback, promoted_status, call_register, set_registered, re_register,
  promote_image, promote, weighted, execute_set_weight,
}
use agentrax.Rollout.Canary.Ends.{rollback-ok}
use agentrax.Rollout.Canary.Completes.{rollback_completes}

abbrev InPhase : Phase → Unit {0} → AgentDeployment → Type 0
InPhase phase u next = next.status.phase ≡ phase

module _ (api : Api) (first : AgentDeployment) (stores : IsStoring api first)
    (ad : AgentDeployment) where
  -- The stored agent is in that phase.
  abbrev pub EndsIn : Phase → Exec (Unit {0}) → Type 0
  EndsIn phase = Ends api first ad (InPhase phase)

  pub rollback-EndsIn :
      (reason : ConditionReason) → EndsIn Phase.rollout_failed (rollback ad reason)
  rollback-EndsIn reason h is =
      let h' = (rollback ad reason api h).1 in
      let run : rollback ad reason api h ≡ (ok tt, h') =
        λ i. (rollback_completes api stores.available ad reason h i, h') in
      let (latest, written, seen, cleaned, found, failed, last) =
        rollback-ok ad reason api h h' run in
      (tt, h', run, ap (λ x. (stored first x).status.phase) last ∙ failed.phase)

  set_registered-EndsIn : (b : Bool) → EndsIn ad.status.phase (set_registered ad b)
  unfolding set_registered
  set_registered-EndsIn false = Ends-pure api first ad (InPhase ad.status.phase) tt refl
  set_registered-EndsIn true =
      Ends-if api first ad (InPhase ad.status.phase) ad.status.registered _ _
        (Ends-pure api first ad (InPhase ad.status.phase) tt refl)
        (Ends-updated api first stores ad _ (InPhase ad.status.phase) _
          (Ends-pure api first _ (InPhase ad.status.phase) tt refl))

  re_register-EndsIn :
      (register : Option (History → AgentDeployment → Bool))
      → EndsIn ad.status.phase (re_register register ad)
  unfolding re_register call_register
  re_register-EndsIn none = Ends-pure api first ad (InPhase ad.status.phase) tt refl
  re_register-EndsIn (some register) =
      Ends-if api first ad (InPhase ad.status.phase) (not ad.spec.mcp.expose) _ _
        (Ends-pure api first ad (InPhase ad.status.phase) tt refl)
        (Ends-settled api first (λ b. Unit {0}) ad (InPhase ad.status.phase)
          (call_register register ad) _
          (λ h. (register h ad, register_call ad (register h ad) ∷ h, refl, tt, refl))
          (λ b u. set_registered-EndsIn b))

module _ (api : Api) (first : AgentDeployment) (stores : IsStoring api first) (c : Controller)
    (ad : AgentDeployment) where
  promote_image-Ends : Ends api first ad (λ u next. next ≡ ad) (promote_image c ad)
  unfolding promote_image
  promote_image-Ends =
      Ends-stable api first stores ad (λ u next. next ≡ ad) _ _
        λ dep h is.
          let (u, h', run, v, same) =
            Settles-stored api first stores deployments _ _ (λ h. refl) h in
          (u, h', run, same ∙ is)

  -- A promotion of a named canary ends with the agent running.
  pub promote-EndsIn :
      (ad.status.canary_version == "") ≡ false
      → EndsIn api first stores ad Phase.running (promote c ad)
  unfolding promote promoted_status
  promote-EndsIn named = rw named (
      Ends-quiet api first ad (InPhase Phase.running) _ _ promote_image-Ends λ u.
        (Ends-settled api first (λ u. Unit {0}) ad (InPhase Phase.running) _ _
          (Settled-delete_canary_deployment api first stores ad)
          λ u1 v1.
            Ends-settled api first (λ u. Unit {0}) ad (InPhase Phase.running) _ _
              (Settled-delete_canary_service api first stores ad)
              λ u2 v2.
                Ends-settled api first (λ u. Unit {0}) ad (InPhase Phase.running) _ _
                  (Settled-delete_http_route api first stores ad)
                  λ u3 v3.
                    Ends-settled api first (λ u. Unit {0}) ad (InPhase Phase.running) _ _
                      (Settled-restore_hpa api first stores ad)
                      λ u4 v4. Ends-fetched api first stores ad (InPhase Phase.running) _ _ (
                        Ends-asks api first ad (InPhase Phase.running) _ _ λ h.
                          Ends-written api first stores ad _ (InPhase Phase.running) _ _
                            (re_register-EndsIn api first stores _ c.register))))

  -- A weight that is set is stored, with the next step.
  pub execute_set_weight-Ends :
      (idx weight : ℤ)
      → Ends api first ad
          (λ r next. next ≡ weighted c idx weight ad)
          (execute_set_weight c ad idx weight)
  unfolding execute_set_weight
  execute_set_weight-Ends idx weight =
      let Set : Requeue → AgentDeployment → Type 0 = λ r next. next ≡ weighted c idx weight ad in
      Ends-settled api first (λ u. Unit {0}) ad Set _ _
        (Settled-ensure_canary_deployment api first stores ad)
        λ u1 v1.
          Ends-settled api first (λ u. Unit {0}) ad Set _ _
            (Settled-ensure_canary_service api first stores ad)
            λ u2 v2.
              Ends-settled api first (λ u. Unit {0}) ad Set _ _
                (Settled-ensure_http_route api first stores ad _ _ _ _)
                λ u3 v3.
                  Ends-fetched api first stores ad Set _ _
                    (Ends-written api first stores ad _ Set _ _ (Ends-pure api first _ Set _ refl))
