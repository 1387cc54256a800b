-- ===== src/Rollout/Resources/Cleanup.antt =====
-- Deleting the canary's resources: a deletion that succeeds leaves nothing there, and no later part
-- of a run takes back what is recorded.
use agentrax.Prelude.{pos, String, ◌≡◌, refl, sym, ap, inl, inr, arith, ◌∷◌}
use agentrax.Api.{AgentDeployment}
use agentrax.Scaling.{build_hpa}
use agentrax.Rollout.Objects.{Deployment, canary_name}
use agentrax.Rollout.Cluster.{
  Kind, deployments, services, routes, autoscalers, Answer, done, not_found, failed, History, read,
  delete_call, Reply, object, missing, broken, Api, ok, Exec, pure, fail, continue, ◌>>=◌, get,
  delete, answer_of, write_hpa,
}
use agentrax.Rollout.Cluster.Runs.{
  Recorded, Recorded-bind, Gone, Keeps, Keeps-bind, Keeps-need, Keeps-must, Keeps-require,
  Keeps-get, Keeps-delete, Keeps-store, Keeps-asks, Keeps-pure, Keeps-fail,
}
use agentrax.Rollout.Resources.{
  set_controller_reference, tolerate, delete_read, delete_canary_deployment, delete_canary_service,
  delete_http_route, pause_hpa, mutate_hpa, restore_hpa,
}

Keeps-tolerate : (message : String) (a : Answer) → Keeps (tolerate message a)
unfolding tolerate
Keeps-tolerate message done = Keeps-pure tt
Keeps-tolerate message not_found = Keeps-pure tt
Keeps-tolerate message failed = Keeps-fail (Unit {0}) message

Keeps-delete_read :
    {A : Type 0} (k : Kind) (namespace name getting deleting : String) (r : Reply A)
    → Keeps (delete_read k namespace name getting deleting r)
unfolding delete_read
Keeps-delete_read k namespace name getting deleting missing = Keeps-pure tt
Keeps-delete_read k namespace name getting deleting broken = Keeps-fail (Unit {0}) getting
Keeps-delete_read k namespace name getting deleting (object a) =
    Keeps-bind _ _ (Keeps-delete k namespace name) (Keeps-tolerate deleting)

-- Get and delete, for any kind.
delete_object :
    {A : Type 0} (k : Kind) (from : Api → History → String → String → Reply A)
    (namespace name getting deleting : String)
    → Exec (Unit {0})
delete_object k from namespace name getting deleting =
    get k from namespace name >>= delete_read k namespace name getting deleting

Keeps-delete_object :
    {A : Type 0} (k : Kind) (from : Api → History → String → String → Reply A)
    (namespace name getting deleting : String)
    → Keeps (delete_object k from namespace name getting deleting)
unfolding delete_object
Keeps-delete_object k from namespace name getting deleting =
    Keeps-bind _ _ (Keeps-get k from namespace name)
      (Keeps-delete_read k namespace name getting deleting)

tolerated :
    (k : Kind) (namespace name message : String) (a : Answer) (api : Api) (h h' : History)
    → tolerate message a api (delete_call k namespace name a ∷ h) ≡ (ok tt, h')
    → Gone k namespace name h'
unfolding tolerate pure fail
tolerated k namespace name message done api h h' e =
    rw (sym (ap (λ p. p.1) e)) (inr (inl (inl refl)))
tolerated k namespace name message not_found api h h' e =
    rw (sym (ap (λ p. p.1) e)) (inr (inr (inl refl)))
tolerated k namespace name message failed api h h' e = absurd (ground (arith, ap (λ p. p.0) e))

delete_read-Gone :
    {A : Type 0} (k : Kind) (namespace name getting deleting : String) (r : Reply A) (api : Api)
    (h h' : History)
    → delete_read k namespace name getting deleting r api (read k namespace name (answer_of r) ∷ h)
      ≡ (ok tt, h')
    → Gone k namespace name h'
unfolding delete_read answer_of pure fail delete ◌>>=◌
delete_read-Gone k namespace name getting deleting missing api h h' e =
    rw (sym (ap (λ p. p.1) e)) (inl (inl refl))
delete_read-Gone k namespace name getting deleting broken api h h' e =
    absurd (ground (arith, ap (λ p. p.0) e))
delete_read-Gone k namespace name getting deleting (object a) api h h' e =
    tolerated k namespace name deleting _ api _ h' e

delete_object-Gone :
    {A : Type 0} (k : Kind) (from : Api → History → String → String → Reply A)
    (namespace name getting deleting : String) (api : Api) (h h' : History)
    → delete_object k from namespace name getting deleting api h ≡ (ok tt, h')
    → Gone k namespace name h'
unfolding delete_object get ◌>>=◌
delete_object-Gone k from namespace name getting deleting api h h' e =
    delete_read-Gone k namespace name getting deleting (from api h namespace name) api h h' e

module _ (ad : AgentDeployment) where
  pub delete_canary_deployment-Gone :
      (api : Api) (h h' : History)
      → delete_canary_deployment ad api h ≡ (ok tt, h')
      → Gone deployments ad.namespace (canary_name ad) h'
  unfolding delete_canary_deployment delete_object
  delete_canary_deployment-Gone api h h' e =
      delete_object-Gone deployments (λ api. api.deployment) _ _ _ _ api h h' e

  pub delete_canary_service-Gone :
      (api : Api) (h h' : History)
      → delete_canary_service ad api h ≡ (ok tt, h')
      → Gone services ad.namespace (canary_name ad) h'
  unfolding delete_canary_service delete_object
  delete_canary_service-Gone api h h' e =
      delete_object-Gone services (λ api. api.service) _ _ _ _ api h h' e

  pub pause_hpa-Gone :
      (api : Api) (h h' : History)
      → pause_hpa ad api h ≡ (ok tt, h')
      → Gone autoscalers ad.namespace ad.name h'
  unfolding pause_hpa delete_object
  pause_hpa-Gone api h h' e = delete_object-Gone autoscalers (λ api. api.hpa) _ _ _ _ api h h' e

  pub delete_http_route-Gone :
      (api : Api) (h h' : History)
      → delete_http_route ad api h ≡ (ok tt, h')
      → Gone routes ad.namespace ad.name h'
  unfolding delete_http_route delete_object
  delete_http_route-Gone api h h' e =
      delete_object-Gone routes (λ api. api.route) _ _ _ _ api h h' e

  pub Keeps-delete_canary_service : Keeps (delete_canary_service ad)
  unfolding delete_canary_service delete_object
  Keeps-delete_canary_service = Keeps-delete_object services (λ api. api.service) _ _ _ _

  pub Keeps-delete_http_route : Keeps (delete_http_route ad)
  unfolding delete_http_route delete_object
  Keeps-delete_http_route = Keeps-delete_object routes (λ api. api.route) _ _ _ _

  Keeps-set_controller_reference : Keeps (set_controller_reference ad)
  unfolding set_controller_reference
  Keeps-set_controller_reference =
      Keeps-bind _ _ (Keeps-asks _) (Keeps-require "setting controller reference")

  pub Keeps-restore_hpa : Keeps (restore_hpa ad)
  unfolding restore_hpa
  Keeps-restore_hpa = Keeps-bind _ _ (Keeps-get autoscalers _ _ _) λ reply.
      Keeps-bind _ _ (Keeps-need "restoring HPA" reply) λ existing.
        Keeps-bind _ _ Keeps-set_controller_reference λ u.
          Keeps-bind _ _
            (Keeps-store autoscalers (write_hpa (mutate_hpa (build_hpa ad (pos 0)) existing)))
            (Keeps-must "restoring HPA")

-- What is there is deleted, whatever it is there for.
pub delete_canary_deployment-Recorded :
    (ad : AgentDeployment) (dep : Deployment) (api : Api) (h : History)
    → api.deployment h ad.namespace (canary_name ad) ≡ object dep
    → let read_it = read deployments ad.namespace (canary_name ad) done ∷ h in
      Recorded
        (delete_call deployments ad.namespace
          (canary_name ad)
          (api.delete read_it deployments ad.namespace (canary_name ad)))
        (delete_canary_deployment ad api h).1
unfolding delete_canary_deployment delete_read get delete answer_of ◌>>=◌ continue
delete_canary_deployment-Recorded ad dep api h there = rw there (
    Recorded-bind (delete deployments ad.namespace (canary_name ad))
      (tolerate "deleting canary deployment") _ api
      (read deployments ad.namespace (canary_name ad) done ∷ h)
      (Keeps-tolerate "deleting canary deployment") (inl refl))
