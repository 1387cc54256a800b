-- ===== src/Rollout/Tests.antt =====
-- The rollout theorems at a concrete rollout, against an API server that answers everything.
use agentrax.Prelude.{
  ℤ, pos, String, ◌==◌, ◌≡◌, ◌≢◌, ◌↔◌, refl, false, Option, none, some, [], arith,
}
use agentrax.Api.{Phase, AgentDeployment, ConditionReason, Time, Duration}
use agentrax.Api.ErrorRate.{parse_error_rate}
use agentrax.Scaling.{build_hpa}
use agentrax.Rollout.Query.{prom_duration, request_count_query, error_rate_query, p99_latency_query}
use agentrax.Rollout.Evaluate.{
  Evaluation, EvalError, Metric, healthy, breached, sample_too_small, eval_failed,
  error_rate_exceeds, evaluate, min_sample, max_error_rate, max_p99,
}
use agentrax.Rollout.Evaluate.Thresholds.{IsHealthy, evaluate-IsHealthy}
use agentrax.Rollout.Cluster.{
  Answer, failed, deployments, delete_call, Api, History, ok, pure, fail, ◌>>=◌, get, delete, store,
  update_status, asks, need, must, require,
}
use agentrax.Rollout.Cluster.Runs.{Recorded}
use agentrax.Rollout.Cluster.Success.{IsAvailable}
use agentrax.Rollout.Resources.{
  delete_canary_deployment, delete_canary_service, delete_http_route, restore_hpa,
}
use agentrax.Rollout.Canary.{Controller, rollback, promote}
use agentrax.Rollout.Canary.Ends.{EndsFailed, rollback_cleans}
use agentrax.Rollout.Canary.Ends.Promoted.{EndsPromoted, promote_cleans}
use agentrax.Rollout.Canary.Completes.{rollback_completes}
use agentrax.Rollout.Canary.Namesake.{rollback_deletes_namesake}
use agentrax.Rollout.Objects.{desired_canary_deployment}
use agentrax.Prelude.{◌*◌}
use agentrax.Rollout.Query.{ninety_minutes}
use agentrax.Rollout.Query.Durations.{read_duration, read-prom_duration}
use agentrax.Samples.Server.{server}
use agentrax.Samples.{sample_agent, sample_float}

abbrev pub canary : Option Time → AgentDeployment
canary unreachable_since = record sample_agent {
  status = record sample_agent.status {
    phase = Phase.rollout_in_progress;
    canary_version = "agent:v2";
    canary_weight = pos 10;
    canary_step_index = pos 1;
    pause_started_at = some (pos 0);
    prom_unreachable_since = unreachable_since;
  };
}

abbrev pub api : Api
api = server (canary none)

abbrev pub controller : Controller
controller = record {
  gateway_name = "gateway";
  gateway_namespace = "agentrax-system";
  fail_safe_timeout = pos 300;
  register = none;
}

works : (ad : AgentDeployment) → IsAvailable (server ad)
works ad = record {
  agent = λ h namespace name. (ad, refl);
  deployment = λ h namespace name e. ground arith;
  service = λ h namespace name e. ground arith;
  route = λ h namespace name e. ground arith;
  hpa_to_mutate = λ h namespace name. (build_hpa ad (pos 0), refl);
  update_status = λ h ad. (ad, refl);
  store = λ h k. refl;
  delete = λ h k namespace name e. ground arith;
  set_owner = λ h ad. refl;
}

rollback_completes_example : (rollback (canary none) ConditionReason.manual_abort api []).0 ≡ ok tt
rollback_completes_example =
    rollback_completes api (works (canary none)) (canary none) ConditionReason.manual_abort []

abbrev after_rollback : History
after_rollback = (rollback (canary none) ConditionReason.manual_abort api []).1

-- Another agent of the namespace, with the name of the canary.
abbrev namesake : AgentDeployment
namesake = record sample_agent { name = "agent-canary" }

rollback_deletes_namesake_example :
    (a : Answer) × (a ≢ failed)
    × Recorded (delete_call deployments "team-a" "agent-canary" a) after_rollback
rollback_deletes_namesake_example =
    rollback_deletes_namesake api (canary none) namesake ConditionReason.manual_abort []
      (works (canary none)) refl refl
      (λ h. (desired_canary_deployment (canary none) "agent-canary", refl))

rollback_cleans_example : EndsFailed api ConditionReason.manual_abort (canary none) after_rollback
rollback_cleans_example =
    rollback_cleans (canary none) ConditionReason.manual_abort api after_rollback (λ i. (
      rollback_completes api (works (canary none)) (canary none) ConditionReason.manual_abort [] i,
      after_rollback,
    ))

promoted : (promote controller (canary none) api []).0 ≡ ok tt
unfolding promote delete_canary_deployment delete_canary_service delete_http_route restore_hpa get
    need must require store delete update_status asks pure fail ◌>>=◌
promoted = refl

promote_cleans_example :
    (("agent:v2" == "") ≡ false)
    × EndsPromoted api (canary none) (promote controller (canary none) api []).1
promote_cleans_example =
    promote_cleans controller (canary none) api (promote controller (canary none) api []).1
      (λ i. (promoted i, (promote controller (canary none) api []).1))

abbrev pub answers : Option ℤ → History → String → Option ℤ
answers o h query = o

abbrev pub quoted : String → String
quoted s = s

abbrev pub judged : Option ℤ → Duration → Evaluation ℤ
judged o d = evaluate sample_float quoted (λ q. o) (canary none) d

pub healthy_verdict :
    judged (some (pos 100)) (pos 60000000000) ≡ healthy (pos 100) (pos 100) (pos 100)
unfolding evaluate request_count_query error_rate_query p99_latency_query prom_duration min_sample
    max_error_rate max_p99 parse_error_rate
healthy_verdict = refl

pub breach_verdict :
    judged (some (pos 200)) (pos 60000000000) ≡ breached (error_rate_exceeds (pos 200) (pos 100))
unfolding evaluate request_count_query error_rate_query p99_latency_query prom_duration min_sample
    max_error_rate max_p99 parse_error_rate
breach_verdict = refl

pub small_verdict : judged (some (pos 1)) (pos 60000000000) ≡ sample_too_small (pos 1)
unfolding evaluate request_count_query error_rate_query p99_latency_query prom_duration min_sample
    max_error_rate max_p99 parse_error_rate
small_verdict = refl

pub failed_verdict :
    (t : Option Time)
    → evaluate sample_float quoted (λ q. none) (canary t) (pos 60000000000)
      ≡ eval_failed (EvalError.querying Metric.request_count)
unfolding evaluate request_count_query error_rate_query p99_latency_query prom_duration min_sample
    max_error_rate max_p99 parse_error_rate
failed_verdict t = refl

evaluate-IsHealthy_example :
    (judged (some (pos 100)) (pos 60000000000) ≡ healthy (pos 100) (pos 100) (pos 100))
    ↔ IsHealthy sample_float quoted
        (λ q. some (pos 100))
        (canary none)
        (pos 60000000000)
        (pos 100)
        (pos 100)
        (pos 100)
evaluate-IsHealthy_example =
    evaluate-IsHealthy sample_float quoted (λ q. some (pos 100)) (canary none) (pos 60000000000)
      (pos 100) (pos 100) (pos 100)

read-prom_duration_example : read_duration "1h30m" * 1000000 ≡ 5400000000000
read-prom_duration_example = read-prom_duration 5400000000000 "1h30m" (omega arith) ninety_minutes
