-- ===== src/Controller/Registration.antt =====
-- internal/controller/agentdeployment_controller.go: reconcileMCPRegistration, and
-- internal/controller/conditions.go. AgentRegistrar is an interface of the source: any answers.
pub mod Keeps
pub mod Completes
pub mod Outcome
pub mod Owned
use agentrax.Prelude.{ℤ, pos, leb_ℤ, Bool, true, false, not, Option, none, some, ◌∷◌, if◌then◌else◌}
use agentrax.Api.{Duration, Phase, Condition, ConditionType, ConditionReason, AgentDeployment}
use agentrax.Rollout.Cluster.{
  Api, History, Call, register_call, deregister_call, heartbeat_call, ok, Exec, pure, ◌>>=◌, asks,
}

unfoldable pub set_condition :
    Api → ConditionType → Bool → ConditionReason → AgentDeployment → AgentDeployment
set_condition api t status reason ad = record ad {
  status = record ad.status {
    conditions =
        api.set_condition
          (record {
            type_of = t;
            status = status;
            reason = reason;
            observed_generation = ad.generation;
          })
          ad.status.conditions;
  };
}

unfoldable pub remove_condition : Api → ConditionType → AgentDeployment → AgentDeployment
remove_condition api t ad = record ad {
  status = record ad.status { conditions = api.remove_condition t ad.status.conditions };
}

-- A probe that fails may be the one that deregisters the agent (ErrHeartbeatDeregistered).
pub data Beat : Type 0 where
  alive weak lost : Beat

-- Whether each call succeeded.
pub record AgentRegistrar : Type 0 where
  pub register : History → AgentDeployment → Bool
  pub deregister : History → AgentDeployment → Bool
  pub heartbeat : History → AgentDeployment → Beat

abbrev pub minute : Duration
minute = pos 60000000000

abbrev pub five_seconds : Duration
five_seconds = pos 5000000000

unfoldable pub is_running : Phase → Bool
is_running Phase.running = true
is_running phase = false

unfoldable pub set_registered_to : Bool → AgentDeployment → AgentDeployment
set_registered_to b ad = record ad { status = record ad.status { registered = b } }

unfoldable pub call_registrar :
    (AgentDeployment → Bool → Call)
    → (History → AgentDeployment → Bool)
    → AgentDeployment
    → Exec Bool
call_registrar call from ad api h = let b = from h ad in (ok b, call ad b ∷ h)

is_alive : Beat → Bool
is_alive alive = true
is_alive weak = false
is_alive lost = false

call_heartbeat : (History → AgentDeployment → Beat) → AgentDeployment → Exec Beat
unfolding is_alive
call_heartbeat from ad api h = let b = from h ad in (ok b, heartbeat_call ad (is_alive b) ∷ h)

failed_with : ConditionReason → AgentDeployment → Exec AgentDeployment
failed_with reason ad =
    asks (λ api h. set_condition api ConditionType.mcp_handshake_failed true reason ad)

cleared : AgentDeployment → Exec AgentDeployment
cleared ad = asks (λ api h. remove_condition api ConditionType.mcp_handshake_failed ad)

-- spec.mcp.expose is false: a registered agent is deregistered.
withdrawn : AgentDeployment → Bool → Exec (AgentDeployment × Duration)
unfolding failed_with cleared
withdrawn ad true = do out ← cleared (set_registered_to false ad); pure (out, pos 0)
withdrawn ad false = do
  out ← failed_with ConditionReason.deregister_failed ad
  pure (out, five_seconds)

withdraw : AgentRegistrar → AgentDeployment → Exec (AgentDeployment × Duration)
unfolding withdrawn call_registrar cleared
withdraw g ad =
    if ad.status.registered
    then (do gone ← call_registrar deregister_call g.deregister ad; withdrawn ad gone)
    else (do out ← cleared ad; pure (out, pos 0))

beaten : Duration → AgentDeployment → Beat → Exec (AgentDeployment × Duration)
unfolding failed_with cleared
beaten interval ad alive = do out ← cleared ad; pure (out, interval)
beaten interval ad weak = do
  out ← failed_with ConditionReason.heartbeat_failed ad
  pure (out, interval)
beaten interval ad lost = do
  out ← failed_with ConditionReason.heartbeat_failed (set_registered_to false ad)
  pure (out, interval)

enrolled : Duration → AgentDeployment → Bool → Exec (AgentDeployment × Duration)
unfolding failed_with cleared
enrolled interval ad false = do
  out ← failed_with ConditionReason.handshake_failed (set_registered_to false ad)
  pure (out, interval)
enrolled interval ad true = do out ← cleared (set_registered_to true ad); pure (out, interval)

expose : AgentRegistrar → Duration → AgentDeployment → Exec (AgentDeployment × Duration)
unfolding is_running beaten enrolled call_registrar call_heartbeat
expose g interval ad =
    if not (is_running ad.status.phase)
    then pure (ad, pos 0)
    else if ad.status.registered
    then (do beat ← call_heartbeat g.heartbeat ad; beaten interval ad beat)
    else (do made ← call_registrar register_call g.register ad; enrolled interval ad made)

-- The agent with the status that the registry leaves it, and when to come back.
unfoldable pub reconcile_mcp_registration :
    Option AgentRegistrar → Duration → AgentDeployment → Exec (AgentDeployment × Duration)
unfolding withdraw expose
reconcile_mcp_registration none interval ad = pure (ad, pos 0)
reconcile_mcp_registration (some g) interval ad =
    if not ad.spec.mcp.expose
    then withdraw g ad
    else expose g (if leb_ℤ interval (pos 0) then minute else interval) ad
