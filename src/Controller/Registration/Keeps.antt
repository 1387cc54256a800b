-- ===== src/Controller/Registration/Keeps.antt =====
-- What reconcileMCPRegistration has recorded stays recorded.
use agentrax.Prelude.{Bool, true, false, not, inr, Option, none, some}
use agentrax.Api.{Duration, AgentDeployment}
use agentrax.Rollout.Cluster.Runs.{Keeps, Keeps-bind, Keeps-asks, Keeps-pure, Keeps-if}
use agentrax.Controller.Registration.{
  AgentRegistrar, Beat, alive, weak, lost, call_registrar, call_heartbeat, failed_with, cleared,
  withdrawn, withdraw, beaten, enrolled, expose, is_running, reconcile_mcp_registration,
}

Keeps-withdrawn : (ad : AgentDeployment) (b : Bool) → Keeps (withdrawn ad b)
unfolding withdrawn cleared failed_with
Keeps-withdrawn ad true = Keeps-bind _ _ (Keeps-asks _) (λ out. Keeps-pure _)
Keeps-withdrawn ad false = Keeps-bind _ _ (Keeps-asks _) (λ out. Keeps-pure _)

Keeps-withdraw : (g : AgentRegistrar) (ad : AgentDeployment) → Keeps (withdraw g ad)
unfolding withdraw cleared call_registrar
Keeps-withdraw g ad =
    Keeps-if ad.status.registered _ _ (Keeps-bind _ _ (λ c api h x. inr x) (Keeps-withdrawn ad))
      (Keeps-bind _ _ (Keeps-asks _) (λ out. Keeps-pure _))

Keeps-beaten : (d : Duration) (ad : AgentDeployment) (b : Beat) → Keeps (beaten d ad b)
unfolding beaten cleared failed_with
Keeps-beaten d ad alive = Keeps-bind _ _ (Keeps-asks _) (λ out. Keeps-pure _)
Keeps-beaten d ad weak = Keeps-bind _ _ (Keeps-asks _) (λ out. Keeps-pure _)
Keeps-beaten d ad lost = Keeps-bind _ _ (Keeps-asks _) (λ out. Keeps-pure _)

Keeps-enrolled : (d : Duration) (ad : AgentDeployment) (b : Bool) → Keeps (enrolled d ad b)
unfolding enrolled cleared failed_with
Keeps-enrolled d ad true = Keeps-bind _ _ (Keeps-asks _) (λ out. Keeps-pure _)
Keeps-enrolled d ad false = Keeps-bind _ _ (Keeps-asks _) (λ out. Keeps-pure _)

Keeps-expose : (g : AgentRegistrar) (d : Duration) (ad : AgentDeployment) → Keeps (expose g d ad)
unfolding expose call_registrar call_heartbeat
Keeps-expose g d ad = Keeps-if (not (is_running ad.status.phase)) _ _ (Keeps-pure _) (
    Keeps-if ad.status.registered _ _ (Keeps-bind _ _ (λ c api h x. inr x) (Keeps-beaten d ad))
      (Keeps-bind _ _ (λ c api h x. inr x) (Keeps-enrolled d ad)))

pub Keeps-reconcile_mcp_registration :
    (o : Option AgentRegistrar) (d : Duration) (ad : AgentDeployment)
    → Keeps (reconcile_mcp_registration o d ad)
unfolding reconcile_mcp_registration
Keeps-reconcile_mcp_registration none d ad = Keeps-pure _
Keeps-reconcile_mcp_registration (some g) d ad =
    Keeps-if (not ad.spec.mcp.expose) _ _ (Keeps-withdraw g ad) (Keeps-expose g _ ad)
