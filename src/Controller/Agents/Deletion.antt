-- ===== src/Controller/Agents/Deletion.antt =====
-- The deletion of an agent: the registry is told first, and the finalizer goes last.
use agentrax.Prelude.{
  String, ◌≡◌, refl, ◌∙◌, inl, inr, true, false, Bool-cases, Option, none, some, ◌∷◌, if◌then◌else◌,
}
use agentrax.Api.{Time, AgentDeployment}
use agentrax.Api.ErrorRate.{Float}
use agentrax.Rollout.Cluster.{
  Api, History, agents, Answer, done, not_found, failed, object, read, write_agent, deregister_call,
  error, continue, pure, fail, ◌>>=◌, get, store, asks, must, require, answer_of,
}
use agentrax.Rollout.Cluster.Runs.{ended}
use agentrax.Controller.Registration.{AgentRegistrar, call_registrar}
use agentrax.Controller.Agents.{
  Reconciler, run_deletion_cleanup, deleted, by_deletion, fetched, reconcile,
}

module _ (r : Reconciler) (fl : Float) (quote : String → String)
    (prom : History → String → Option fl.F) (g : AgentRegistrar) (namespace name : String)
    (now t : Time) (ad : AgentDeployment) (api : Api) (h : History) where
  abbrev pub after_read : History
  after_read = read agents namespace name done ∷ h

  -- The agent that is read is being deleted, and still has the operator's finalizer.
  pub record IsDeleting : Type 0 where
    pub found : api.agent h namespace name ≡ object ad
    pub deleting : ad.deletion_timestamp ≡ some t
    pub guarded : api.has_finalizer ad ≡ true
    pub registry : r.registrar ≡ some g

  reconcile-deleted :
      IsDeleting
      → reconcile r fl quote prom namespace name now api h
        ≡ deleted r fl quote prom ad api after_read
  unfolding reconcile fetched by_deletion get ◌>>=◌ continue answer_of
  reconcile-deleted d = rw (d.found, fetched, d.deleting) refl

  kept_back :
      IsDeleting
      → g.deregister after_read ad ≡ false
      → deleted r fl quote prom ad api after_read
        ≡ (error "deregistering agent", deregister_call ad false ∷ after_read)
  unfolding deleted run_deletion_cleanup call_registrar require asks ◌>>=◌ continue fail
  kept_back d n = rw (d.guarded, d.registry, n) refl

  let_go :
      (a : Answer)
      → IsDeleting
      → g.deregister after_read ad ≡ true
      → api.store (deregister_call ad true ∷ after_read) agents ≡ a
      → deleted r fl quote prom ad api after_read ≡ (
        ended a none "removing finalizer",
        write_agent (api.remove_finalizer ad) a ∷ deregister_call ad true ∷ after_read,
      )
  unfolding deleted run_deletion_cleanup call_registrar require asks store must ◌>>=◌ continue fail
      pure
  let_go done d y stored = rw (d.guarded, d.registry, y, stored) refl
  let_go not_found d y stored = rw (d.guarded, d.registry, y, stored) refl
  let_go failed d y stored = rw (d.guarded, d.registry, y, stored) refl

  -- Reconciling an agent that is being deleted and has the operator's finalizer, with a registrar,
  -- deregisters the agent first. If that fails, the run fails and writes nothing, so the finalizer
  -- holds the agent back. If it succeeds, the finalizer is removed by the one write that follows,
  -- and the run succeeds exactly if that write does. Nothing else is called.
  pub deletion_deregisters :
      IsDeleting
      → let removed = api.store (deregister_call ad true ∷ after_read) agents in
        reconcile r fl quote prom namespace name now api h ≡ (
          if g.deregister after_read ad
          then (
            ended removed none "removing finalizer",
            write_agent (api.remove_finalizer ad) removed ∷ deregister_call ad true ∷ after_read,
          )
          else (error "deregistering agent", deregister_call ad false ∷ after_read))
  deletion_deregisters d = reconcile-deleted d ∙ elim (Bool-cases (g.deregister after_read ad)) [
    | inl y ↦ rw y (let_go _ d y refl)
    | inr n ↦ rw n (kept_back d n)
  ]
