-- ===== src/Controller/Registration/Outcome.antt =====
-- What a reconciliation leaves of an agent's registration.
use agentrax.Prelude.{
  pos, leb_ℤ, ◌≡◌, refl, inl, inr, Bool, true, false, not, Bool-cases, some, ◌∷◌, if◌then◌else◌,
}
use agentrax.Api.{Duration, AgentDeployment}
use agentrax.Rollout.Cluster.{
  Api, History, ok, continue, pure, ◌>>=◌, asks, deregister_call, heartbeat_call, register_call,
}
use agentrax.Controller.Registration.{
  AgentRegistrar, Beat, alive, weak, lost, minute, five_seconds, set_condition, remove_condition,
  set_registered_to, call_registrar, call_heartbeat, is_alive, failed_with, cleared, withdrawn,
  withdraw, beaten, enrolled, expose, is_running, reconcile_mcp_registration,
}

abbrev pub is_lost : Beat → Bool
is_lost alive = false
is_lost weak = false
is_lost lost = true

-- The registration that the answers of the registrar leave, and when to come back.
abbrev pub Leaves : AgentDeployment × Duration → AgentDeployment → Bool → Duration → Type 0
Leaves out ad registered requeue =
    (out.0.status.registered ≡ registered)
    × (out.0.status.phase ≡ ad.status.phase)
    × (out.0.spec ≡ ad.spec)
    × (out.1 ≡ requeue)

module _ (g : AgentRegistrar) (interval : Duration) (ad : AgentDeployment) (api : Api)
    (h : History) where
  -- A probe interval that is not positive stands for a minute.
  abbrev pub period : Duration
  period = if leb_ℤ interval (pos 0) then minute else interval

  -- The flag that is left: an agent that is not to be exposed keeps it if it cannot be deregistered,
  -- and any other keeps it unless it runs, when the registrar's answer counts.
  abbrev pub flag : Bool
  flag =
      if not ad.spec.mcp.expose
      then (if ad.status.registered
          then (if g.deregister h ad then false else ad.status.registered)
          else ad.status.registered)
      else if not (is_running ad.status.phase)
      then ad.status.registered
      else if ad.status.registered
      then (if is_lost (g.heartbeat h ad) then false else ad.status.registered)
      else g.register h ad

  abbrev pub back_in : Duration
  back_in =
      if not ad.spec.mcp.expose
      then (if ad.status.registered
          then (if g.deregister h ad then pos 0 else five_seconds)
          else pos 0)
      else if not (is_running ad.status.phase)
      then pos 0
      else period

  beat_ends :
      (b : Beat)
      → (out : AgentDeployment × Duration) × ((beaten period ad b api
            (heartbeat_call ad (is_alive b) ∷ h)).0
          ≡ ok out)
        × Leaves out ad (if is_lost b then false else ad.status.registered) period
  unfolding beaten cleared failed_with asks pure ◌>>=◌ continue set_condition remove_condition
      set_registered_to
  beat_ends alive = (_, refl, (refl, refl, refl, refl))
  beat_ends weak = (_, refl, (refl, refl, refl, refl))
  beat_ends lost = (_, refl, (refl, refl, refl, refl))

  enrol_ends :
      (b : Bool)
      → (out : AgentDeployment × Duration) × ((enrolled period ad b api (register_call ad b ∷ h)).0
          ≡ ok out)
        × Leaves out ad b period
  unfolding enrolled cleared failed_with asks pure ◌>>=◌ continue set_condition remove_condition
      set_registered_to
  enrol_ends true = (_, refl, (refl, refl, refl, refl))
  enrol_ends false = (_, refl, (refl, refl, refl, refl))

  withdraw_ends :
      (b : Bool)
      → (out : AgentDeployment × Duration) × ((withdrawn ad b api (deregister_call ad b ∷ h)).0
          ≡ ok out)
        × Leaves out ad
            (if b then false else ad.status.registered)
            (if b then pos 0 else five_seconds)
  unfolding withdrawn cleared failed_with asks pure ◌>>=◌ continue set_condition remove_condition
      set_registered_to
  withdraw_ends true = (_, refl, (refl, refl, refl, refl))
  withdraw_ends false = (_, refl, (refl, refl, refl, refl))

  -- reconcileMCPRegistration never fails. Whatever the registrar answers, it leaves the spec and the
  -- phase alone. An agent that is not to be exposed ends unregistered, unless it was registered and
  -- cannot be deregistered, and then it is tried again after five seconds. Of the agents to be
  -- exposed, one that does not run is let be; a registered one stays so unless its probe finds it
  -- deregistered, and another becomes registered exactly if its registration succeeds, and either
  -- is probed again after the configured interval, or a minute if that is not positive.
  pub registration_outcome :
      (out : AgentDeployment × Duration) × ((reconcile_mcp_registration
          (some g)
          interval
          ad
          api
          h).0
        ≡ ok out)
      × Leaves out ad flag back_in
  unfolding reconcile_mcp_registration withdraw expose call_registrar call_heartbeat ◌>>=◌ continue
      cleared asks pure remove_condition
  registration_outcome = elim (Bool-cases ad.spec.mcp.expose) [
    | inr hidden ↦ elim (Bool-cases ad.status.registered) [
      | inl known ↦ rw (hidden, known) (rw (hidden, known) at (withdraw_ends (g.deregister h ad)))
      | inr new ↦ rw (hidden, new) (_, refl, (refl, refl, refl, refl))
    ]
    | inl shown ↦ elim (Bool-cases (is_running ad.status.phase)) [
      | inr stopped ↦ rw (shown, stopped) (_, refl, (refl, refl, refl, refl))
      | inl runs ↦ elim (Bool-cases ad.status.registered) [
        | inl known ↦ rw (shown, runs, known) (rw (shown, known) at (beat_ends (g.heartbeat h ad)))
        | inr new ↦ rw (shown, runs, new) (rw (shown, new) at (enrol_ends (g.register h ad)))
      ]
    ]
  ]
