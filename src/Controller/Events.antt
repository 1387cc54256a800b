-- ===== src/Controller/Events.antt =====
-- internal/controller/enqueue_handlers.go: the reconcile requests that an event gives rise to.
-- Logging is left out.
use agentrax.Prelude.{String, Option, none, some, List, [], ◌∷◌, ◌==◌, if◌then◌else◌}
use agentrax.Api.{AgentDeployment, TenantQuota}
use agentrax.Rollout.Cluster.{agents, Exec, pure, ◌>>=◌, list_items}

-- types.NamespacedName
pub record Request : Type 0 where
  pub namespace : String
  pub name : String

unfoldable pub enqueue_tenant_quota : AgentDeployment → List Request
enqueue_tenant_quota ad =
    if ad.spec.tenant_ref == ""
    then []
    else record { namespace = ad.namespace; name = ad.spec.tenant_ref } ∷ []

unfoldable pub requests_of : String → List AgentDeployment → List Request
requests_of name [] = []
requests_of name (ad ∷ ads) =
    let rest = requests_of name ads in
    if ad.spec.tenant_ref == name
    then record { namespace = ad.namespace; name = ad.name } ∷ rest
    else rest

unfoldable pub requests_for : String → Option (List AgentDeployment) → List Request
unfolding requests_of
requests_for name none = []
requests_for name (some ads) = requests_of name ads

unfoldable pub enqueue_agent_deployments_for_tenant_quota : TenantQuota → Exec (List Request)
unfolding requests_for
enqueue_agent_deployments_for_tenant_quota tq = do
  items ← list_items agents (λ api. api.agent_list) tq.namespace
  pure (requests_for tq.name items)
