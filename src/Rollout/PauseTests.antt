-- ===== src/Rollout/PauseTests.antt =====
-- The theorems about a pause, at a concrete one.
use agentrax.Rollout.Cluster.Owned.{IsAgent}
use agentrax.Prelude.{
  true, ltb_ℤ, String, [], ◌∷◌, ℤ, pos, ◌-ℤ◌, ◌*ℤ◌, wrap64, ◌≡◌, refl, Option, none, some,
}
use agentrax.Api.{AgentDeployment, ConditionReason, Time}
use agentrax.Api.ErrorRate.{parse_error_rate}
use agentrax.Rollout.Query.{prom_duration, request_count_query, error_rate_query, p99_latency_query}
use agentrax.Rollout.Evaluate.{
  EvalError, Metric, error_rate_exceeds, evaluate, min_sample, max_error_rate, max_p99,
}
use agentrax.Rollout.Objects.{desired_canary_deployment}
use agentrax.Rollout.Cluster.{
  agents, done, object, read, write_status, History, Result, ok, pure, ◌>>=◌, get, delete, store,
  update_status, asks, need, must, require,
}
use agentrax.Rollout.Resources.{
  delete_canary_deployment, delete_canary_service, delete_http_route, restore_hpa,
}
use agentrax.Rollout.Canary.{Requeue, second, rollback}
use agentrax.Rollout.Step.{sample_insufficient, since, max_wait, execute_pause}
use agentrax.Rollout.Step.Pauses.{
  IsPaused, run, breach_rolls_back, fail_safe_rolls_back, small_sample_advances,
}
use agentrax.Samples.Server.{server}
use agentrax.Samples.{sample_float}
use agentrax.Rollout.Canary.Ends.{EndsFailed}
use agentrax.Rollout.Step.Advanced.{EndsAdvanced}
use agentrax.Rollout.Tests.{
  canary, api, controller, answers, quoted, breach_verdict, failed_verdict,
}

abbrev nothing : Requeue
nothing = none

-- A pause of a minute that began at time 0, seen at `now`, with `o` as Prometheus's answer.
abbrev pause : Option ℤ → Option Time → Time → Result Requeue × History
pause o t now =
    run controller sample_float quoted (answers o) (server (canary t)) now (pos 0) (canary t)
      (canary t) (pos 1) (pos 60000000000)

begun :
    (o : Option ℤ) (t : Option Time) (now : Time)
    → IsPaused controller sample_float quoted
        (answers o)
        (server (canary t))
        now
        (pos 0)
        (canary t)
        (canary t)
        (pos 1)
        (pos 60000000000)
begun o t now = record { agent_read = refl; begun = refl }

pause_advances : (pause (some (pos 100)) none (pos 60000000000)).0 ≡ ok (some second)
unfolding execute_pause evaluate request_count_query error_rate_query p99_latency_query
    prom_duration min_sample max_error_rate max_p99 parse_error_rate since ◌-ℤ◌ get need
    update_status asks pure ◌>>=◌
pause_advances = refl

breach_ends : (pause (some (pos 200)) none (pos 1000)).0 ≡ ok none
unfolding execute_pause evaluate request_count_query error_rate_query p99_latency_query
    prom_duration min_sample max_error_rate max_p99 parse_error_rate since ◌-ℤ◌ rollback
    delete_canary_deployment delete_canary_service delete_http_route restore_hpa get need must
    require store delete update_status asks pure ◌>>=◌ desired_canary_deployment
breach_ends = refl

breach_rolls_back_example :
    (l : AgentDeployment) × (nothing ≡ nothing)
    × (l ≡ canary none)
    × IsAgent "team-a" "agent" l
    × EndsFailed api ConditionReason.threshold_breached l (pause (some (pos 200)) none (pos 1000)).1
breach_rolls_back_example =
    breach_rolls_back controller sample_float quoted (answers (some (pos 200))) api (pos 1000)
      (pos 0) (canary none) (canary none) (pos 1) (pos 60000000000)
      (error_rate_exceeds (pos 200) (pos 100)) none (pause (some (pos 200)) none (pos 1000)).1
      (begun (some (pos 200)) none (pos 1000)) breach_verdict (λ h ad. (refl, refl)) (refl, refl)
      (λ i. (breach_ends i, (pause (some (pos 200)) none (pos 1000)).1))

fail_safe_ends : (pause none (some (pos 0)) (pos 1000)).0 ≡ ok none
unfolding execute_pause evaluate request_count_query error_rate_query p99_latency_query
    prom_duration min_sample max_error_rate max_p99 parse_error_rate since ◌-ℤ◌ rollback
    delete_canary_deployment delete_canary_service delete_http_route restore_hpa get need must
    require store delete update_status asks pure ◌>>=◌ desired_canary_deployment
fail_safe_ends = refl

fail_safe_rolls_back_example :
    (nothing ≡ nothing)
    × EndsFailed
        (server (canary (some (pos 0))))
        ConditionReason.prometheus_unavailable
        (canary (some (pos 0)))
        (pause none (some (pos 0)) (pos 1000)).1
unfolding since ◌-ℤ◌
fail_safe_rolls_back_example =
    fail_safe_rolls_back controller sample_float quoted (answers none)
      (server (canary (some (pos 0)))) (pos 1000) (pos 0) (canary (some (pos 0)))
      (canary (some (pos 0))) (pos 1) (pos 60000000000) (EvalError.querying Metric.request_count)
      (pos 0) none (pause none (some (pos 0)) (pos 1000)).1 (begun none (some (pos 0)) (pos 1000))
      (failed_verdict (some (pos 0))) refl refl
      (λ i. (fail_safe_ends i, (pause none (some (pos 0)) (pos 1000)).1))

small_ends : (pause (some (pos 1)) none (pos 180000000000)).0 ≡ ok (some second)
unfolding execute_pause evaluate request_count_query error_rate_query p99_latency_query
    prom_duration min_sample max_error_rate max_p99 parse_error_rate since ◌-ℤ◌ ◌*ℤ◌ wrap64 max_wait
    get need update_status asks pure ◌>>=◌
small_ends = refl

count_text :
    (text : String) × (request_count_query quoted "agent" "team-a" (pos 60000000000) ≡ some text)
unfolding request_count_query prom_duration
count_text = (_, refl)

few_requests : ltb_ℤ (pos 1) (min_sample sample_float (canary none).spec.rollout.rollback) ≡ true
unfolding min_sample
few_requests = refl

small_sample_advances_example :
    (l stored : AgentDeployment) × (some second ≡ some second)
    × (l ≡ canary none)
    × (api.update_status (read agents "team-a" "agent" done ∷ []) (sample_insufficient api l)
        ≡ object stored)
    × EndsAdvanced
        (pos 1)
        stored
        (write_status (sample_insufficient api l) done ∷ read agents "team-a" "agent" done ∷ [])
        (pause (some (pos 1)) none (pos 180000000000)).1
unfolding since ◌-ℤ◌ ◌*ℤ◌ wrap64 max_wait
small_sample_advances_example =
    small_sample_advances controller sample_float quoted (answers (some (pos 1))) api
      (pos 180000000000) (pos 0) (canary none) (canary none) (pos 1) (pos 60000000000) (pos 1)
      (some second) (pause (some (pos 1)) none (pos 180000000000)).1
      (begun (some (pos 1)) none (pos 180000000000))
      (record { written = count_text.0; is_written = count_text.1; answered = refl }) few_requests
      refl refl (λ i. (small_ends i, (pause (some (pos 1)) none (pos 180000000000)).1))
