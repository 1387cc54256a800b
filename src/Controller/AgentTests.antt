-- ===== src/Controller/AgentTests.antt =====
-- The theorems about the reconciler of agents, at concrete agents.
use agentrax.Prelude.{
  pos, wrap32, ◌-ℤ◌, ◌+ℤ◌, ◌≤ℤ◌, String, ◌≡◌, ◌↔◌, refl, true, false, Option, none, some, [], ◌∷◌,
  if◌then◌else◌, arith,
}
use agentrax.Api.{Duration, Phase, AgentDeployment}
use agentrax.Api.Objects.{Deployment}
use agentrax.Rollout.Cluster.{
  Api, History, Result, object, read, deployments, agents, autoscalers, done, write_agent,
  write_hpa, write_deployment, deregister_call, ok, error, ◌>>=◌, get, need, store, must, asks,
  require, list_items, need_list, update_status,
}
use agentrax.Rollout.Cluster.Runs.{ended, Recorded, Gone}
use agentrax.Rollout.Canary.{Requeue}
use agentrax.Rollout.Canary.Ends.{after_write}
use agentrax.Quota.Usage.{total}
use agentrax.Scaling.{Hpa, is_quota_capped, quota_headroom}
use agentrax.Rollout.Objects.{desired_canary_deployment}
use agentrax.Rollout.Resources.{pause_hpa}
use agentrax.Controller.Children.{
  QuotaState, capped, uncapped, own, counts_for_others, sum_others, replicas_used_by_other_agents,
  reconcile_hpa,
}
use agentrax.Controller.Children.Headroom.{used_by_others, others_of, reconcile_hpa-within}
use agentrax.Controller.Registration.{five_seconds, reconcile_mcp_registration}
use agentrax.Controller.Registration.Outcome.{Leaves, flag, back_in, registration_outcome}
use agentrax.Controller.Objects.{in_rollout, is_abort_requested, is_canary_triggered}
use agentrax.Controller.Objects.Triggers.{IsDue, is_canary_triggered_iff}
use agentrax.Controller.Agents.{reconcile, reconcile_live}
use agentrax.Controller.Agents.Canaries.{first_image, canary_starts_paused, failed_image_redeployed}
use agentrax.Controller.Agents.Deletion.{after_read, deletion_deregisters}
use agentrax.Scaling.{build_hpa}
use agentrax.Controller.Objects.{
  desired_deployment, update_deployment, desired_service, desired_service_monitor,
}
use agentrax.Controller.Serving.{IsServing}
use agentrax.Controller.Agents.{reconcile_children}
use agentrax.Controller.Agents.Completes.{reconcile_children_completes}
use agentrax.Samples.Server.{server}
use agentrax.Samples.Reconcilers.{changed_agent, due_agent, registrar, controller, reconciler}
use agentrax.Samples.{sample_agent, sample_quota, sample_tenant, sample_float}

abbrev api : Api
api = server sample_agent

is_canary_triggered_iff_example : (is_canary_triggered due_agent ≡ true) ↔ IsDue due_agent
is_canary_triggered_iff_example = is_canary_triggered_iff due_agent

abbrev quoted : String → String
quoted s = s

abbrev answers : History → String → Option sample_float.F
answers h query = none

registration_outcome_example :
    (out : AgentDeployment × Duration) × ((reconcile_mcp_registration
        (some registrar)
        (pos 0)
        sample_agent
        api
        []).0
      ≡ ok out)
    × Leaves out sample_agent
        (flag registrar (pos 0) sample_agent api [])
        (back_in registrar (pos 0) sample_agent api [])
registration_outcome_example = registration_outcome registrar (pos 0) sample_agent api []

abbrev leaving_agent : AgentDeployment
leaving_agent = record sample_agent { deletion_timestamp = some (pos 9) }

abbrev was_read : History
was_read =
    after_read reconciler sample_float quoted answers registrar "team-a" "agent" (pos 9) (pos 9)
      leaving_agent (server leaving_agent) []

deletion_deregisters_example :
    let removed =
      (server leaving_agent).store (deregister_call leaving_agent true ∷ was_read) agents in
    reconcile reconciler sample_float quoted answers "team-a" "agent"
      (pos 9)
      (server leaving_agent)
      []
    ≡ (if registrar.deregister was_read leaving_agent
        then (
          ended removed none "removing finalizer",
          write_agent ((server leaving_agent).remove_finalizer leaving_agent) removed
              ∷ deregister_call leaving_agent true
              ∷ was_read,
        )
        else (error "deregistering agent", deregister_call leaving_agent false ∷ was_read))
deletion_deregisters_example =
    deletion_deregisters reconciler sample_float quoted answers registrar "team-a" "agent" (pos 9)
      (pos 9) leaving_agent (server leaving_agent) []
      (record { found = refl; deleting = refl; guarded = refl; registry = refl })

due : is_canary_triggered due_agent ≡ true
unfolding is_canary_triggered
due = refl

abbrev start_run : Result Requeue × History
start_run =
    reconcile_live reconciler sample_float quoted answers (pos 9) due_agent (some controller)
      (server due_agent) []

start_run-ok : start_run.0 ≡ ok (some five_seconds)
unfolding reconcile_live is_abort_requested is_canary_triggered ◌>>=◌ pause_hpa get need
    update_status
start_run-ok = refl

canary_starts_paused_example :
    (latest written : AgentDeployment) × (seen : History) × Gone autoscalers "team-a" "agent" seen
    × ((server due_agent).agent seen "team-a" "agent" ≡ object latest)
    × (start_run.1 ≡ after_write due_agent written seen)
    × (◌≡◌ {A = Requeue} (some five_seconds) (some five_seconds))
    × (written.status.phase ≡ Phase.rollout_in_progress)
    × (written.status.canary_version ≡ "agent:v2")
    × (written.status.canary_step_index ≡ pos 0)
    × (written.status.canary_weight ≡ pos 0)
    × (written.status.stable_version ≡ latest.status.stable_version)
    × (written.spec ≡ latest.spec)
    × (written.namespace ≡ latest.namespace)
    × (written.name ≡ latest.name)
canary_starts_paused_example =
    canary_starts_paused reconciler sample_float quoted answers (pos 9) due_agent controller
      (server due_agent) [] start_run.1 (some five_seconds) due (λ i. (start_run-ok i, start_run.1))

abbrev failed_agent : AgentDeployment
failed_agent = changed_agent Phase.rollout_failed "agent:v2"

abbrev failed_run : Result Requeue × History
failed_run =
    reconcile_live reconciler sample_float quoted answers (pos 9) failed_agent (some controller)
      (server failed_agent) []

abbrev redeployed : Deployment
redeployed =
    update_deployment (desired_deployment failed_agent)
      (desired_canary_deployment failed_agent "agent")

failed_image_redeployed_example :
    (failed_run
      ≡ reconcile_children reconciler sample_float quoted answers failed_agent
          (server failed_agent)
          [])
    × Recorded
        (write_deployment redeployed
          ((server failed_agent).store (read deployments "team-a" "agent" done ∷ []) deployments))
        failed_run.1
    × (first_image redeployed.containers ≡ some "agent:v2")
    × (redeployed.namespace ≡ "team-a")
    × (redeployed.name ≡ "agent")
unfolding desired_canary_deployment
failed_image_redeployed_example =
    failed_image_redeployed reconciler sample_float quoted answers (pos 9) failed_agent controller
      (server failed_agent) refl refl [] (desired_canary_deployment failed_agent "agent") refl
      (refl, refl) refl

abbrev hpa_run : Result (Requeue × QuotaState) × History
hpa_run = reconcile_hpa sample_agent api []

hpa_run-ok : hpa_run.0 ≡ ok (none, uncapped)
unfolding reconcile_hpa in_rollout ◌>>=◌ get replicas_used_by_other_agents list_items need_list asks
    require need store must is_quota_capped quota_headroom wrap32 ◌-ℤ◌ sum_others counts_for_others
    own
hpa_run-ok = refl

reconcile_hpa-within_example :
    (hpa : Hpa) × Recorded (write_hpa hpa done) hpa_run.1
    × (hpa.max_replicas ≤ℤ pos 4)
    × (pos (used_by_others sample_agent sample_tenant (sample_agent ∷ []) api [])
          +ℤ hpa.max_replicas
        ≤ℤ pos 10)
    × (◌≡◌ {A = Requeue} none none)
    × (uncapped ≡ (
        if is_quota_capped sample_agent (
          quota_headroom sample_quota sample_agent.spec
            (pos (used_by_others sample_agent sample_tenant (sample_agent ∷ []) api [])))
        then capped
        else uncapped))
unfolding others_of in_rollout total ◌+ℤ◌
reconcile_hpa-within_example =
    reconcile_hpa-within sample_agent sample_tenant (sample_agent ∷ []) api [] hpa_run.1 none
      uncapped
      (record {
        idle = refl;
        quota = refl;
        listed = refl;
        valid = ((omega arith, omega arith), tt);
        small = omega arith;
      })
      (omega arith) (omega arith) (omega arith) (omega arith) (λ i. (hpa_run-ok i, hpa_run.1))

serves : IsServing api
serves = record {
  available = record {
    agent = λ h namespace name. (sample_agent, refl);
    deployment = λ h namespace name e. ground arith;
    service = λ h namespace name e. ground arith;
    route = λ h namespace name e. ground arith;
    hpa_to_mutate = λ h namespace name. (build_hpa sample_agent (pos 0), refl);
    update_status = λ h ad. (ad, refl);
    store = λ h k. refl;
    delete = λ h k namespace name e. ground arith;
    set_owner = λ h ad. refl;
  };
  deployment_to_mutate = λ h namespace name. (desired_canary_deployment sample_agent name, refl);
  service_to_mutate = λ h namespace name. (desired_service sample_agent, refl);
  service_monitor_to_mutate = λ h namespace name. (desired_service_monitor sample_agent, refl);
  tenant_quota = λ h namespace name e. ground arith;
  found = λ h namespace name e. ground arith;
  agent_list = λ h namespace. (sample_agent ∷ [], refl);
  pod_list = λ h namespace labels. ([], refl);
}

reconcile_children_completes_example :
    (requeue : Requeue) × ((reconcile_children reconciler sample_float quoted answers sample_agent
        api []).0
      ≡ ok requeue)
reconcile_children_completes_example =
    reconcile_children_completes reconciler sample_float quoted answers api serves sample_agent []
