-- ===== src/Controller/Agents/Owned.antt =====
-- A reconcile touches only what belongs to the agent it is for.
use agentrax.Prelude.{
  String, ◌≡◌, refl, sym, inl, Bool, true, false, not, Option, none, some, ◌++◌, All,
}
use agentrax.Api.{Time, ConditionReason, AgentDeployment}
use agentrax.Api.ErrorRate.{Float}
use agentrax.Rollout.Cluster.{Api, History, agents, deregister_call, Reply, object, missing, broken}
use agentrax.Rollout.Cluster.Traces.{
  Anything, OnObject, Does, Does-bind, Does-pure, Does-fail, Does-if, Does-asks, Does-get,
  Does-need, Does-needed, Does-require, Does-store, Does-must, Does-written,
}
use agentrax.Rollout.Cluster.Owned.{
  IsAgent, Within, Stays, Stays-IsAgent, update_status-IsAgent, IsFaithful,
}
use agentrax.Rollout.Resources.Owned.{Stays-pause_hpa}
use agentrax.Rollout.Canary.{Controller, Requeue}
use agentrax.Rollout.Canary.Owned.{Stays-rollback}
use agentrax.Rollout.Step.Owned.{Stays-step}
use agentrax.Controller.Objects.{in_rollout, is_abort_requested, is_canary_triggered}
use agentrax.Controller.Children.Owned.{
  Stays-reconcile_deployment, Stays-reconcile_service, Stays-reconcile_service_monitor,
  Stays-reconcile_hpa,
}
use agentrax.Controller.Registration.{AgentRegistrar}
use agentrax.Controller.Registration.Owned.{Stays-call_registrar}
use agentrax.Controller.Status.Owned.{Stays-update_agent_status}
use agentrax.Controller.Agents.{
  Reconciler, started, start_canary, run_deletion_cleanup, deleted, ensure_finalizer,
  reconcile_children, with_canary, reconcile_live, by_deletion, fetched, reconcile,
}

module _ (api : Api) (faithful : IsFaithful api) (ad : AgentDeployment) where
  Stays-start_canary : Stays api ad Anything (start_canary ad)
  unfolding start_canary started
  Stays-start_canary =
      let Again : AgentDeployment → Type 0 = IsAgent ad.namespace ad.name in
      Does-bind api _ Anything Anything _ _ (Stays-pause_hpa api faithful ad) λ u1 v1.
        Does-needed api _ Again Anything agents (λ api. api.agent) _ _ _ _ (λ a. refl)
          (λ h. faithful.agent h _ _)
          λ latest again.
            Does-written api _ Again Anything _ _ _ (λ a. (again.0, inl again.1))
              (λ h. update_status-IsAgent api faithful _ _ _ h again)
              λ stored w. Does-pure api _ Anything tt tt

  Stays-run_deletion_cleanup :
      (g : Option AgentRegistrar) → Stays api ad Anything (run_deletion_cleanup g ad)
  unfolding run_deletion_cleanup
  Stays-run_deletion_cleanup none = Does-pure api _ Anything tt tt
  Stays-run_deletion_cleanup (some g) =
      Does-bind api _ Anything Anything _ _
        (Stays-call_registrar api ad deregister_call g.deregister (λ b. (refl, inl refl)))
        λ gone u. Does-require api _ _ gone

module _ (api : Api) (faithful : IsFaithful api) (r : Reconciler) (fl : Float)
    (quote : String → String) (prom : History → String → Option fl.F) where
  Stays-deleted : (ad : AgentDeployment) → Stays api ad Anything (deleted r fl quote prom ad)
  unfolding deleted
  Stays-deleted ad =
      Does-bind api _ Anything Anything _ _ (Does-asks api _ Anything _ (λ h. tt)) λ present u.
        Does-if api _ Anything (not present) _ _ (Does-pure api _ {A = Requeue} Anything _ tt) (
          Does-bind api _ Anything Anything _ _
            (Stays-run_deletion_cleanup api faithful ad r.registrar)
            λ u1 v1.
              Does-bind api _ (IsAgent ad.namespace ad.name) Anything _ _
                (Does-asks api _ _ _ (λ h. faithful.remove_finalizer ad))
                λ cleaned is.
                  Does-bind api _ Anything Anything _ _
                    (Does-store api _ agents _ (λ a. (is.0, inl is.1)))
                    λ a v2.
                      Does-bind api _ Anything Anything _ _ (Does-must api _ _ a)
                        λ u3 v3. Does-pure api _ {A = Requeue} Anything _ tt)

  Stays-ensure_finalizer :
      (namespace name : String) (ad : AgentDeployment) (b : Bool)
      → IsAgent namespace name ad
      → Does api
          (Within namespace name)
          (IsAgent namespace name)
          (ensure_finalizer r fl quote prom namespace name ad b)
  unfolding ensure_finalizer
  Stays-ensure_finalizer namespace name ad true is = Does-pure api _ _ ad is
  Stays-ensure_finalizer namespace name ad false is =
      let Again : AgentDeployment → Type 0 = IsAgent namespace name in
      let kept : Again (api.add_finalizer ad) =
        rw (sym is.0, sym is.1) (faithful.add_finalizer ad) in
      Does-bind api _ Again Again _ _ (Does-asks api _ Again _ (λ h. kept)) λ marked same.
        Does-bind api _ Anything Again _ _ (Does-store api _ agents _ (λ a. (same.0, inl same.1)))
          λ a v1. Does-bind api _ Anything Again _ _ (Does-must api _ _ a) λ u2 v2.
            Does-bind api _ (OnObject Again) Again _ _
              (Does-get api _ Again agents (λ api. api.agent) namespace name (λ a. refl)
                (λ h. faithful.agent h _ _))
              (λ reply o. Does-need api _ Again _ reply o)

  Stays-reconcile_children :
      (ad : AgentDeployment) → Stays api ad Anything (reconcile_children r fl quote prom ad)
  unfolding reconcile_children
  Stays-reconcile_children ad =
      Does-bind api _ Anything Anything _ _ (Stays-reconcile_deployment api faithful ad) λ u1 v1.
        Does-bind api _ Anything Anything _ _ (Stays-reconcile_service api faithful ad) λ u2 v2.
          Does-bind api _ Anything Anything _ _
            (Stays-reconcile_service_monitor api faithful ad r.has_service_monitor_crd)
            λ u3 v3.
              Does-bind api _ Anything Anything _ _ (Stays-reconcile_hpa api faithful ad) λ hpa v4.
                Does-bind api _ Anything Anything _ _
                  (Stays-update_agent_status api faithful ad r.registrar r.mcp_health_interval
                    hpa.1)
                  λ status v5. Does-pure api _ {A = Requeue} Anything _ tt

  Stays-with_canary :
      (now : Time) (ad : AgentDeployment) (c : Controller)
      → Stays api ad Anything (with_canary r fl quote prom now ad c)
  unfolding with_canary
  Stays-with_canary now ad c =
      Does-if api _ {A = Requeue} Anything (is_abort_requested ad) _ _
        (Does-bind api _ Anything Anything _ _
          (Stays-rollback api faithful ad ConditionReason.manual_abort)
          λ u v. Does-pure api _ {A = Requeue} Anything _ tt)
        (Does-if api _ Anything (in_rollout ad.status.phase) _ _
          (Stays-step api faithful c fl quote prom now ad)
          (Does-if api _ Anything (is_canary_triggered ad) _ _
            (Does-bind api _ Anything Anything _ _ (Stays-start_canary api faithful ad)
              λ u v. Does-pure api _ {A = Requeue} Anything _ tt)
            (Stays-reconcile_children ad)))

  Stays-reconcile_live :
      (now : Time) (ad : AgentDeployment) (c : Option Controller)
      → Stays api ad Anything (reconcile_live r fl quote prom now ad c)
  unfolding reconcile_live
  Stays-reconcile_live now ad none = Stays-reconcile_children ad
  Stays-reconcile_live now ad (some c) = Stays-with_canary now ad c

  module _ (namespace name : String) (now : Time) where
    Stays-by_deletion :
        (ad : AgentDeployment) (t : Option Time)
        → IsAgent namespace name ad
        → Does api
            (Within namespace name)
            Anything
            (by_deletion r fl quote prom namespace name now ad t)
    unfolding by_deletion
    Stays-by_deletion ad (some t) is =
        Stays-IsAgent api _ _ ad Anything (deleted r fl quote prom ad) is (Stays-deleted ad)
    Stays-by_deletion ad none is =
        Does-bind api _ Anything Anything _ _ (Does-asks api _ Anything _ (λ h. tt)) λ present u.
          Does-bind api _ (IsAgent namespace name) Anything _ _
            (Stays-ensure_finalizer namespace name ad present is)
            λ current again.
              Stays-IsAgent api _ _ current Anything
                (reconcile_live r fl quote prom now current r.canary_controller) again
                (Stays-reconcile_live now current r.canary_controller)

    Stays-fetched :
        (reply : Reply AgentDeployment)
        → OnObject (IsAgent namespace name) reply
        → Does api
            (Within namespace name)
            Anything
            (fetched r fl quote prom namespace name now reply)
    unfolding fetched
    Stays-fetched missing o = Does-pure api _ {A = Requeue} Anything _ tt
    Stays-fetched broken o = Does-fail api _ {A = Requeue} Anything _
    Stays-fetched (object ad) o = Stays-by_deletion ad ad.deletion_timestamp o

    Stays-reconcile :
        Does api (Within namespace name) Anything (reconcile r fl quote prom namespace name now)
    unfolding reconcile
    Stays-reconcile =
        Does-bind api _ (OnObject (IsAgent namespace name)) Anything _ _
          (Does-get api _ (IsAgent namespace name) agents (λ api. api.agent) namespace name
            (λ a. refl) (λ h. faithful.agent h _ _))
          (λ reply o. Stays-fetched reply o)

-- Where the API server answers a Get with an object of the namespace and name it is asked for, and a
-- status write and the finalizers keep both, a reconcile of an agent, whatever it finds and however
-- it ends, adds to the calls made so far only reads and lists within the agent's namespace, and writes,
-- deletions and registry calls of what carries the agent's namespace and its name or that name followed
-- by -canary. It writes no TenantQuota, and nothing in another namespace.
pub reconcile_touches_own_objects :
    (r : Reconciler) (fl : Float) (quote : String → String) (prom : History → String → Option fl.F)
    (namespace name : String) (now : Time) (api : Api)
    → IsFaithful api
    → (h : History)
    → (new : History) × ((reconcile r fl quote prom namespace name now api h).1 ≡ new ++ h)
      × All (Within namespace name) new
reconcile_touches_own_objects r fl quote prom namespace name now api faithful h =
    (Stays-reconcile api faithful r fl quote prom namespace name now h).0
