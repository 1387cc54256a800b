-- ===== src/Controller/Agents/Completes.antt =====
-- The reconciliation of the children against an API server that works.
use agentrax.Prelude.{String, Option, ◌≡◌}
use agentrax.Api.{AgentDeployment}
use agentrax.Api.ErrorRate.{Float}
use agentrax.Rollout.Cluster.{Api, History, ok}
use agentrax.Rollout.Canary.{Requeue}
use agentrax.Controller.Serving.{IsServing, Ends, Ends-bind, Ends-pure}
use agentrax.Controller.Children.Completes.{
  Ends-reconcile_deployment, Ends-reconcile_service, Ends-reconcile_service_monitor,
  Ends-reconcile_hpa,
}
use agentrax.Controller.Status.Completes.{Ends-update_agent_status}
use agentrax.Controller.Agents.{Reconciler, reconcile_children}

module _ (r : Reconciler) (fl : Float) (quote : String → String)
    (prom : History → String → Option fl.F) (api : Api) (works : IsServing api) where
  Ends-reconcile_children :
      (ad : AgentDeployment) → Ends api (reconcile_children r fl quote prom ad)
  unfolding reconcile_children
  Ends-reconcile_children ad = Ends-bind api _ _ (Ends-reconcile_deployment api works ad) λ u.
      Ends-bind api _ _ (Ends-reconcile_service api works ad) λ v.
        Ends-bind api _ _ (Ends-reconcile_service_monitor api works ad r.has_service_monitor_crd)
          λ w. Ends-bind api _ _ (Ends-reconcile_hpa api works ad) λ hpa.
            Ends-bind api _ _
              (Ends-update_agent_status api works r.registrar r.mcp_health_interval ad hpa.1)
              λ status. Ends-pure api _

  -- Against an API server that answers every read, finds the objects that are updated, accepts
  -- every write and sets every owner, the reconciliation of the Deployment, the Service, the
  -- ServiceMonitor, the HPA and the status succeeds, whatever the agent, the registry and the
  -- calls before it are.
  pub reconcile_children_completes :
      (ad : AgentDeployment) (h : History)
      → (requeue : Requeue) × ((reconcile_children r fl quote prom ad api h).0 ≡ ok requeue)
  reconcile_children_completes ad h = let out = Ends-reconcile_children ad h in (out.0, out.1)
