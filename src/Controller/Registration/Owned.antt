-- ===== src/Controller/Registration/Owned.antt =====
-- The registration of an agent concerns the agent.
use agentrax.Prelude.{refl, inl, Bool, true, false, not, Option, none, some, [], ◌∷◌}
use agentrax.Api.{Duration, AgentDeployment}
use agentrax.Rollout.Cluster.{
  Api, History, Call, register_call, deregister_call, heartbeat_call, ◌>>=◌, asks, pure,
}
use agentrax.Rollout.Cluster.Traces.{Anything, Does-bind, Does-pure, Does-if, Does-asks}
use agentrax.Rollout.Cluster.Owned.{IsAgent, Within, Stays}
use agentrax.Controller.Registration.{
  AgentRegistrar, Beat, alive, weak, lost, set_condition, remove_condition, set_registered_to,
  is_running, call_registrar, call_heartbeat, failed_with, cleared, withdrawn, withdraw, beaten,
  enrolled, expose, reconcile_mcp_registration,
}

module _ (api : Api) (ad : AgentDeployment) where
  abbrev Same : AgentDeployment × Duration → Type 0
  Same out = IsAgent ad.namespace ad.name out.0

  pub Stays-call_registrar :
      (call : AgentDeployment → Bool → Call) (from : History → AgentDeployment → Bool)
      → ((b : Bool) → Within ad.namespace ad.name (call ad b))
      → Stays api ad Anything (call_registrar call from ad)
  unfolding call_registrar
  Stays-call_registrar call from w h = ((call ad (from h ad) ∷ [], refl, (w _, tt)), tt)

  Stays-call_heartbeat :
      (from : History → AgentDeployment → Beat) → Stays api ad Anything (call_heartbeat from ad)
  unfolding call_heartbeat
  Stays-call_heartbeat from h = ((heartbeat_call ad _ ∷ [], refl, ((refl, inl refl), tt)), tt)

  -- The ends of a registration: a condition is written into the status, or removed from it.
  Stays-ended :
      (f : Api → AgentDeployment) (d : Duration)
      → IsAgent ad.namespace ad.name (f api)
      → Stays api ad Same (asks (λ api h. f api) >>= λ out. pure (out, d))
  Stays-ended f d same =
      Does-bind api _ (IsAgent ad.namespace ad.name) Same _ _ (Does-asks api _ _ _ (λ h. same))
        λ out is. Does-pure api _ Same (out, d) is

  Stays-withdraw : (g : AgentRegistrar) → Stays api ad Same (withdraw g ad)
  unfolding withdraw withdrawn failed_with cleared set_condition remove_condition set_registered_to
  Stays-withdraw g =
      Does-if api _ Same ad.status.registered _ _
        (Does-bind api _ Anything Same _ (withdrawn ad)
          (Stays-call_registrar deregister_call g.deregister (λ b. (refl, inl refl)))
          λ gone u. gone-Stays gone)
        (Stays-ended _ _ (refl, refl))
    where
      gone-Stays : (gone : Bool) → Stays api ad Same (withdrawn ad gone)
      gone-Stays true = Stays-ended _ _ (refl, refl)
      gone-Stays false = Stays-ended _ _ (refl, refl)

  Stays-beaten : (interval : Duration) (b : Beat) → Stays api ad Same (beaten interval ad b)
  unfolding beaten failed_with cleared set_condition remove_condition set_registered_to
  Stays-beaten interval alive = Stays-ended _ _ (refl, refl)
  Stays-beaten interval weak = Stays-ended _ _ (refl, refl)
  Stays-beaten interval lost = Stays-ended _ _ (refl, refl)

  Stays-enrolled : (interval : Duration) (b : Bool) → Stays api ad Same (enrolled interval ad b)
  unfolding enrolled failed_with cleared set_condition remove_condition set_registered_to
  Stays-enrolled interval false = Stays-ended _ _ (refl, refl)
  Stays-enrolled interval true = Stays-ended _ _ (refl, refl)

  Stays-expose :
      (g : AgentRegistrar) (interval : Duration) → Stays api ad Same (expose g interval ad)
  unfolding expose
  Stays-expose g interval =
      Does-if api _ Same (not (is_running ad.status.phase)) _ _
        (Does-pure api _ Same _ (refl, refl))
        (Does-if api _ Same ad.status.registered _ _
          (Does-bind api _ Anything Same _ _ (Stays-call_heartbeat g.heartbeat)
            λ b u. Stays-beaten interval b)
          (Does-bind api _ Anything Same _ _
            (Stays-call_registrar register_call g.register (λ b. (refl, inl refl)))
            λ b u. Stays-enrolled interval b))

  pub Stays-reconcile_mcp_registration :
      (g : Option AgentRegistrar) (interval : Duration)
      → Stays api ad
          (λ out. IsAgent ad.namespace ad.name out.0)
          (reconcile_mcp_registration g interval ad)
  unfolding reconcile_mcp_registration
  Stays-reconcile_mcp_registration none interval = Does-pure api _ Same _ (refl, refl)
  Stays-reconcile_mcp_registration (some g) interval =
      Does-if api _ Same (not ad.spec.mcp.expose) _ _ (Stays-withdraw g) (Stays-expose g _)
