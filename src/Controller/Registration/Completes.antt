-- ===== src/Controller/Registration/Completes.antt =====
-- reconcileMCPRegistration does not fail, whatever the registrar answers.
use agentrax.Prelude.{refl, Bool, true, false, not, Option, none, some}
use agentrax.Api.{Duration, AgentDeployment}
use agentrax.Rollout.Cluster.{Api}
use agentrax.Rollout.Cluster.Success.{Returns-if}
use agentrax.Controller.Serving.{Ends, Ends-bind, Ends-pure, Ends-asks}
use agentrax.Controller.Registration.{
  AgentRegistrar, Beat, alive, weak, lost, call_registrar, call_heartbeat, failed_with, cleared,
  withdrawn, withdraw, beaten, enrolled, expose, is_running, reconcile_mcp_registration,
}

module _ (api : Api) (d : Duration) (ad : AgentDeployment) where
  Ends-withdrawn : (b : Bool) → Ends api (withdrawn ad b)
  unfolding withdrawn cleared failed_with
  Ends-withdrawn true = Ends-bind api _ _ (Ends-asks api _) (λ out. Ends-pure api _)
  Ends-withdrawn false = Ends-bind api _ _ (Ends-asks api _) (λ out. Ends-pure api _)

  Ends-beaten : (b : Beat) → Ends api (beaten d ad b)
  unfolding beaten cleared failed_with
  Ends-beaten alive = Ends-bind api _ _ (Ends-asks api _) (λ out. Ends-pure api _)
  Ends-beaten weak = Ends-bind api _ _ (Ends-asks api _) (λ out. Ends-pure api _)
  Ends-beaten lost = Ends-bind api _ _ (Ends-asks api _) (λ out. Ends-pure api _)

  Ends-enrolled : (b : Bool) → Ends api (enrolled d ad b)
  unfolding enrolled cleared failed_with
  Ends-enrolled true = Ends-bind api _ _ (Ends-asks api _) (λ out. Ends-pure api _)
  Ends-enrolled false = Ends-bind api _ _ (Ends-asks api _) (λ out. Ends-pure api _)

  Ends-expose : (g : AgentRegistrar) → Ends api (expose g d ad)
  unfolding expose call_registrar call_heartbeat
  Ends-expose g = Returns-if api _ (not (is_running ad.status.phase)) _ _ (Ends-pure api _) (
      Returns-if api _ ad.status.registered _ _ (Ends-bind api _ _ (λ h. (_, refl, tt)) Ends-beaten)
        (Ends-bind api _ _ (λ h. (_, refl, tt)) Ends-enrolled))

module _ (api : Api) (d : Duration) (ad : AgentDeployment) where
  Ends-withdraw : (g : AgentRegistrar) → Ends api (withdraw g ad)
  unfolding withdraw cleared call_registrar
  Ends-withdraw g =
      Returns-if api _ ad.status.registered _ _
        (Ends-bind api _ _ (λ h. (_, refl, tt)) (Ends-withdrawn api d ad))
        (Ends-bind api _ _ (Ends-asks api _) (λ out. Ends-pure api _))

  pub Ends-reconcile_mcp_registration :
      (o : Option AgentRegistrar) → Ends api (reconcile_mcp_registration o d ad)
  unfolding reconcile_mcp_registration
  Ends-reconcile_mcp_registration none = Ends-pure api _
  Ends-reconcile_mcp_registration (some g) =
      Returns-if api _ (not ad.spec.mcp.expose) _ _ (Ends-withdraw g) (Ends-expose api _ ad g)
