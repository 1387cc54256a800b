-- ===== src/Rollout/OutageTests.antt =====
-- The theorem about an outage of Prometheus, at a concrete pause.
use agentrax.Prelude.{decimal, pos, String, ◌-ℤ◌, ◌≡◌, refl, Option, none, some, []}
use agentrax.Api.{ConditionReason}
use agentrax.Api.ErrorRate.{parse_error_rate}
use agentrax.Metrics.{
  query_scalar, parse_scalar_from_query_response, extract_value_from_pair,
  extract_value_from_vector_element, answer, or_fail, ◌>>=◌,
}
use agentrax.Metrics.Answers.{IsAnswered}
use agentrax.Rollout.Query.{prom_duration, request_count_query, error_rate_query, p99_latency_query}
use agentrax.Rollout.Evaluate.{evaluate, min_sample, max_error_rate, max_p99}
use agentrax.Rollout.Evaluate.Thresholds.{AsksLatency}
use agentrax.Rollout.Cluster.{◌>>=◌ as exec_bind}
use agentrax.Rollout.Cluster.{
  History, Result, ok, get, delete, store, update_status, asks, need, must, require, pure,
}
use agentrax.Rollout.Objects.{desired_canary_deployment}
use agentrax.Rollout.Resources.{
  delete_canary_deployment, delete_canary_service, delete_http_route, restore_hpa,
}
use agentrax.Rollout.Canary.{Requeue, rollback}
use agentrax.Rollout.Canary.Ends.{EndsFailed}
use agentrax.Rollout.Step.{since, execute_pause}
use agentrax.Rollout.Step.Pauses.{run}
use agentrax.Rollout.Step.Outages.{asked, missing_latency_rolls_back}
use agentrax.Rollout.Tests.{canary, controller, quoted}
use agentrax.Samples.{sample_float}
use agentrax.Samples.Server.{server}
use agentrax.Samples.Prometheus.{sample_codec, sample_client, sample_send}

abbrev written : Option String → String
written none = ""
written (some text) = text

abbrev latency : String
latency = written (p99_latency_query quoted "agent" "team-a" (pos 60000000000))

asks_latency :
    AsksLatency sample_float quoted
      (asked sample_float quoted sample_codec sample_client sample_send)
      (canary (some (pos 0)))
      (pos 60000000000)
      latency
unfolding request_count_query error_rate_query p99_latency_query prom_duration min_sample
    max_error_rate parse_error_rate answer query_scalar parse_scalar_from_query_response
    extract_value_from_pair extract_value_from_vector_element or_fail ◌>>=◌ decimal
asks_latency = record {
  samples = pos 100;
  counted = record {
    written = written (request_count_query quoted "agent" "team-a" (pos 60000000000));
    is_written = refl;
    answered = refl;
  };
  enough = refl;
  errors = pos 100;
  rated = record {
    written = written (error_rate_query quoted "agent" "team-a" (pos 60000000000));
    is_written = refl;
    answered = refl;
  };
  limit = pos 100;
  limit_parsed = refl;
  few_errors = refl;
  is_text = refl;
}

no_series :
    IsAnswered sample_float sample_codec sample_client sample_send latency
      (record { status = "success"; result_type = "vector"; result = [] })
unfolding p99_latency_query prom_duration decimal
no_series = record {
  url = latency;
  is_url = refl;
  accepted = refl;
  response = record {
    status_code = pos 200;
    read = λ limit. some (record { status = "success"; result_type = "vector"; result = [] });
  };
  sent = refl;
  body = record { status = "success"; result_type = "vector"; result = [] };
  is_read = refl;
  is_ok = refl;
  decoded = refl;
}

abbrev outage : Result Requeue × History
outage =
    run controller sample_float quoted
      (λ h. asked sample_float quoted sample_codec sample_client sample_send)
      (server (canary (some (pos 0)))) (pos 1000) (pos 0) (canary (some (pos 0)))
      (canary (some (pos 0))) (pos 1) (pos 60000000000)

outage_ends : outage.0 ≡ ok none
unfolding execute_pause evaluate request_count_query error_rate_query p99_latency_query
    prom_duration min_sample max_error_rate max_p99 parse_error_rate since ◌-ℤ◌ rollback
    delete_canary_deployment delete_canary_service delete_http_route restore_hpa get need must
    require store delete update_status asks pure exec_bind desired_canary_deployment answer
    query_scalar parse_scalar_from_query_response extract_value_from_pair
    extract_value_from_vector_element or_fail ◌>>=◌ decimal
outage_ends = refl

abbrev nothing : Requeue
nothing = none

missing_latency_rolls_back_example :
    (nothing ≡ nothing)
    × EndsFailed
        (server (canary (some (pos 0))))
        ConditionReason.prometheus_unavailable
        (canary (some (pos 0)))
        outage.1
unfolding since ◌-ℤ◌
missing_latency_rolls_back_example =
    missing_latency_rolls_back sample_float quoted sample_codec sample_client controller
      (λ h. sample_send) (server (canary (some (pos 0)))) (pos 1000) (pos 0) (canary (some (pos 0)))
      (canary (some (pos 0))) (pos 1) (pos 60000000000) latency (pos 0) none outage.1
      (record { agent_read = refl; begun = refl }) asks_latency no_series refl refl
      (λ i. (outage_ends i, outage.1))
