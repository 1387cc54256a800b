-- ===== src/Rollout/Step.antt =====
-- Step and executePause of internal/rollout/canary.go. `prom` is how Prometheus answers a query,
-- given the calls so far.
pub mod Advanced
pub mod Pauses
pub mod Outages
pub mod Owned
pub mod Progress
pub mod Settled
use agentrax.Prelude.{
  ℕ, ◌+◌, ◌%◌, ◌-◌, ℤ, pos, negsuc, pos_part, neg_part, ◌-ℤ◌, ◌*ℤ◌, ltb_ℤ, leb_ℤ, eqb, add64, sub32,
  wrap64, max_int64, String, ◌==◌, Bool, true, false, not, get_elem?, length, Option, none, some,
  List, [], ◌∷◌, if◌then◌else◌,
}
use agentrax.Api.{
  Duration, Time, CanaryStep, Phase, ConditionType, ConditionReason, Condition, AgentDeployment,
  AgentDeploymentStatus,
}
use agentrax.Api.ErrorRate.{Float}
use agentrax.Rollout.Evaluate.{
  Evaluation, sample_too_small, breached, healthy, eval_failed, evaluate,
}
use agentrax.Rollout.Cluster.{
  Api, Kind, agents, History, Reply, Exec, pure, fail, crash, ◌>>=◌, ◌>>◌, get, update_status, asks,
  need,
}
use agentrax.Rollout.Resources.{ensure_canary_deployment, ensure_canary_service, ensure_http_route}
use agentrax.Rollout.Canary.{Controller, Requeue, second, rollback, promote, execute_set_weight}

abbrev pub max_pause_extension_multiplier : ℤ
max_pause_extension_multiplier = pos 3

-- time.Time.Sub, which stops at the ends of int64
saturate : ℤ → ℤ
saturate z =
    if ltb_ℤ max_int64 z
    then max_int64
    else if ltb_ℤ z (negsuc 9223372036854775807)
    then negsuc 9223372036854775807
    else z

unfoldable pub since : Time → Time → Duration
unfolding saturate
since now t = saturate (now -ℤ t)

unfoldable pub sub64 : ℤ → ℤ → ℤ
sub64 a b = wrap64 (a -ℤ b)

-- Go's `%`: the sign of the dividend; none: a division by zero
rem : ℤ → ℤ → Option ℤ
rem a b =
    let d = pos_part b + neg_part b in
    if eqb d 0 then none else some (pos (pos_part a % d) -ℤ pos (neg_part a % d))

unfoldable pub max_wait : Duration → Duration
max_wait duration =
    let w = wrap64 (max_pause_extension_multiplier *ℤ duration) in
    if ltb_ℤ (pos 900000000000) w then pos 900000000000 else w

unfoldable pub with_pause_started : Option Time → AgentDeployment → AgentDeployment
with_pause_started t ad = record ad { status = record ad.status { pause_started_at = t } }

unfoldable pub with_unreachable_since : Option Time → AgentDeployment → AgentDeployment
with_unreachable_since t ad = record ad { status = record ad.status { prom_unreachable_since = t } }

unfoldable pub sample_insufficient : Api → AgentDeployment → AgentDeployment
sample_insufficient api ad = record ad {
  status = record ad.status {
    conditions =
        api.set_condition
          (record {
            type_of = ConditionType.sample_insufficient;
            status = true;
            reason = ConditionReason.insufficient_sample;
            observed_generation = ad.generation;
          })
          ad.status.conditions;
  };
}

-- The status with which a pause ends.
unfoldable pub advanced : Api → ℤ → AgentDeployment → AgentDeployment
advanced api idx ad = record ad {
  status = record ad.status {
    conditions = api.remove_condition ConditionType.sample_insufficient ad.status.conditions;
    canary_step_index = add64 idx (pos 1);
    pause_started_at = none;
  };
}

-- The end of executePause: it goes on waiting, or to the next step.
finish_pause : ℤ → Duration → Duration → AgentDeployment → Exec Requeue
unfolding sub64
finish_pause idx duration elapsed latest =
    if ltb_ℤ elapsed duration then pure (some (sub64 duration elapsed)) else do
      next ← asks (λ api h. advanced api idx latest)
      written ← update_status next
      stored ← need "advancing step index after pause" written
      pure (some second)

wait_remaining : Duration → Option ℤ → Exec Requeue
unfolding sub64
wait_remaining duration none = crash
wait_remaining duration (some r) = pure (some (sub64 duration r))

extend_pause : ℤ → Duration → Duration → AgentDeployment → Exec Requeue
unfolding finish_pause rem wait_remaining
extend_pause idx duration elapsed latest = do
  marked ← asks (λ api h. sample_insufficient api latest)
  written ← update_status marked
  stored ← need "setting SampleInsufficient condition" written
  if ltb_ℤ elapsed (max_wait duration)
      then wait_remaining duration (rem elapsed duration)
      else finish_pause idx duration elapsed stored

clear_unreachable : Option Time → AgentDeployment → Exec AgentDeployment
clear_unreachable none latest = pure latest
clear_unreachable (some t) latest = do
  written ← update_status (with_unreachable_since none latest)
  need "clearing prom unreachable time" written

mark_unreachable : Time → Option Time → AgentDeployment → Exec AgentDeployment
mark_unreachable now (some t) latest = pure latest
mark_unreachable now none latest = do
  written ← update_status (with_unreachable_since (some now) latest)
  need "recording prom unreachable time" written

module _ (c : Controller) where
  fail_safe : Time → AgentDeployment → Option Time → Exec Requeue
  fail_safe now latest none = crash
  fail_safe now latest (some t) =
      if not (leb_ℤ c.fail_safe_timeout (since now t))
      then pure (some (pos 10000000000))
      else do rollback latest ConditionReason.prometheus_unavailable; pure none

  unreachable : Time → AgentDeployment → Exec Requeue
  unfolding mark_unreachable fail_safe
  unreachable now latest = do
    marked ← mark_unreachable now latest.status.prom_unreachable_since latest
    fail_safe now marked marked.status.prom_unreachable_since

  judge :
      {F : Type 0} → Time → ℤ → Duration → Duration → AgentDeployment → Evaluation F → Exec Requeue
  unfolding unreachable clear_unreachable extend_pause finish_pause
  judge now idx duration elapsed latest (eval_failed e) = unreachable now latest
  judge now idx duration elapsed latest (breached b) = do
    cleared ← clear_unreachable latest.status.prom_unreachable_since latest
    rollback cleared ConditionReason.threshold_breached
    pure none
  judge now idx duration elapsed latest (sample_too_small n) = do
    cleared ← clear_unreachable latest.status.prom_unreachable_since latest
    extend_pause idx duration elapsed cleared
  judge now idx duration elapsed latest (healthy n r p) = do
    cleared ← clear_unreachable latest.status.prom_unreachable_since latest
    finish_pause idx duration elapsed cleared

  module _ (fl : Float) (quote : String → String) (prom : History → String → Option fl.F) where
    -- The pause that has begun, or begins now.
    paused : Time → ℤ → Duration → AgentDeployment → Option Time → Exec Requeue
    unfolding judge
    paused now idx duration latest none = do
      written ← update_status (with_pause_started (some now) latest)
      stored ← need "recording pause start time" written
      pure (some duration)
    paused now idx duration latest (some started) = do
      evaluation ← asks (λ api h. evaluate fl quote (prom h) latest duration)
      judge now idx duration (since now started) latest evaluation

    unfoldable pub execute_pause : Time → AgentDeployment → ℤ → Duration → Exec Requeue
    unfolding paused
    execute_pause now ad idx duration = do
      reply ← get agents (λ api. api.agent) ad.namespace ad.name
      latest ← need "fetching AD in pause step" reply
      paused now idx duration latest latest.status.pause_started_at

    self_heal_objects : AgentDeployment → Exec (Unit {0})
    self_heal_objects ad =
        if ad.status.canary_version == ""
        then pure tt
        else do ensure_canary_deployment ad; ensure_canary_service ad

    self_heal_route : AgentDeployment → Exec (Unit {0})
    self_heal_route ad =
        if not (ltb_ℤ (pos 0) ad.status.canary_weight)
        then pure tt
        else ensure_http_route c.gateway_name c.gateway_namespace ad
            (sub32 (pos 100) ad.status.canary_weight) ad.status.canary_weight

    run_step : Time → AgentDeployment → ℤ → Option ℤ → Option Duration → Exec Requeue
    run_step now ad idx (some weight) pause = execute_set_weight c ad idx weight
    run_step now ad idx none (some duration) = execute_pause now ad idx duration
    run_step now ad idx none none = do rollback ad ConditionReason.invalid_step; pure none

    picked : Time → AgentDeployment → ℤ → Option CanaryStep → Exec Requeue
    unfolding run_step
    picked now ad idx none = do promote c ad; pure none
    picked now ad idx (some s) = run_step now ad idx s.set_weight s.pause

    -- steps[idx]; past the end the canary is promoted, and a negative index panics
    pick_step : Time → AgentDeployment → ℤ → Exec Requeue
    unfolding picked
    pick_step now ad (negsuc n) = crash
    pick_step now ad (pos i) = picked now ad (pos i) (get_elem? ad.spec.rollout.steps i)

    unfoldable pub step : Time → AgentDeployment → Exec Requeue
    unfolding self_heal_objects self_heal_route pick_step
    step now ad = do
      self_heal_objects ad
      self_heal_route ad
      pick_step now ad ad.status.canary_step_index
