-- ===== src/Rollout/Cluster/Owned.antt =====
-- What belongs to an agent: the objects of its namespace with its name or that of its canary.
use Prim.Native.String.{◌++◌ as str_append}
use agentrax.Prelude.{String, sym, ◌≡◌, ◌⊎◌}
use agentrax.Api.{AgentDeployment}
use agentrax.Rollout.Cluster.{
  Exec, Call, History, read, delete_call, list_call, write_status, write_deployment, write_service,
  write_route, write_hpa, write_agent, write_service_monitor, write_tenant_status, register_call,
  deregister_call, heartbeat_call, Api,
}
use agentrax.Rollout.Cluster.Traces.{OnObject, Does}

-- The object of that namespace and name.
abbrev pub Is : String → String → String → String → Type 0
Is namespace name namespace' name' = (namespace' ≡ namespace) × (name' ≡ name)

abbrev pub Owned : String → String → String → String → Type 0
Owned namespace name namespace' name' =
    (namespace' ≡ namespace) × ((name' ≡ name) ⊎ (name' ≡ str_append name "-canary"))

abbrev pub IsAgent : String → String → AgentDeployment → Type 0
IsAgent namespace name ad = Is namespace name ad.namespace ad.name

-- A read or a list within the namespace; a write, a deletion or a call of the registry for what
-- belongs to the agent; and no write of a TenantQuota.
abbrev pub Within : String → String → Call → Type 0
Within ns n (read k namespace name a) = namespace ≡ ns
Within ns n (list_call k namespace b) = namespace ≡ ns
Within ns n (delete_call k namespace name a) = Owned ns n namespace name
Within ns n (write_status ad a) = Owned ns n ad.namespace ad.name
Within ns n (write_agent ad a) = Owned ns n ad.namespace ad.name
Within ns n (write_deployment o a) = Owned ns n o.namespace o.name
Within ns n (write_service o a) = Owned ns n o.namespace o.name
Within ns n (write_route o a) = Owned ns n o.namespace o.name
Within ns n (write_hpa o a) = Owned ns n o.namespace o.name
Within ns n (write_service_monitor o a) = Owned ns n o.namespace o.name
Within ns n (write_tenant_status tq a) = ⊥
Within ns n (register_call ad b) = Owned ns n ad.namespace ad.name
Within ns n (deregister_call ad b) = Owned ns n ad.namespace ad.name
Within ns n (heartbeat_call ad b) = Owned ns n ad.namespace ad.name

-- The API server answers with the object that is asked for, a status write decodes the object that
-- was written, and the finalizers leave namespace and name alone.
pub record IsFaithful (api : Api) : Type 0 where
  pub agent :
      (h : History) (ns n : String) → OnObject (λ o. Is ns n o.namespace o.name) (api.agent h ns n)
  pub deployment :
      (h : History) (ns n : String)
      → OnObject (λ o. Is ns n o.namespace o.name) (api.deployment h ns n)
  pub route :
      (h : History) (ns n : String) → OnObject (λ o. Is ns n o.namespace o.name) (api.route h ns n)
  pub update_status :
      (h : History) (ad : AgentDeployment)
      → OnObject (λ o. Is ad.namespace ad.name o.namespace o.name) (api.update_status h ad)
  pub deployment_to_mutate :
      (h : History) (ns n : String)
      → OnObject (λ o. Is ns n o.namespace o.name) (api.deployment_to_mutate h ns n)
  pub service_to_mutate :
      (h : History) (ns n : String)
      → OnObject (λ o. Is ns n o.namespace o.name) (api.service_to_mutate h ns n)
  pub hpa_to_mutate :
      (h : History) (ns n : String)
      → OnObject (λ o. Is ns n o.namespace o.name) (api.hpa_to_mutate h ns n)
  pub service_monitor_to_mutate :
      (h : History) (ns n : String)
      → OnObject (λ o. Is ns n o.namespace o.name) (api.service_monitor_to_mutate h ns n)
  pub add_finalizer :
      (ad : AgentDeployment)
      → Is ad.namespace ad.name (api.add_finalizer ad).namespace (api.add_finalizer ad).name
  pub remove_finalizer :
      (ad : AgentDeployment)
      → Is ad.namespace ad.name (api.remove_finalizer ad).namespace (api.remove_finalizer ad).name

-- The runs that stay with the agent.
abbrev pub Stays : Api → AgentDeployment → {A : Type 0} → (A → Type 0) → Exec A → Type 0
Stays api ad Q m = Does api (Within ad.namespace ad.name) Q m

-- What stays with an agent stays with the one of that namespace and name.
pub Stays-IsAgent :
    (api : Api) (ns n : String) (ad : AgentDeployment) {A : Type 0} (Q : A → Type 0) (m : Exec A)
    → IsAgent ns n ad
    → Stays api ad Q m
    → Does api (Within ns n) Q m
Stays-IsAgent api ns n ad Q m is s = rw (sym is.0, sym is.1) s

-- The object after a status write is the agent that was written.
pub update_status-IsAgent :
    (api : Api) (faithful : IsFaithful api) (ns n : String) (ad : AgentDeployment) (h : History)
    → IsAgent ns n ad
    → OnObject (IsAgent ns n) (api.update_status h ad)
update_status-IsAgent api faithful ns n ad h is =
    rw (sym is.0, sym is.1) (faithful.update_status h ad)
