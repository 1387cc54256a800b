-- ===== src/Rollout/Evaluate.antt =====
-- Evaluate of internal/rollout/promql.go. `query` is what QueryScalar answers while it runs: none
-- is an error. A float64 is the library's (Api/ErrorRate.Float).
pub mod Thresholds
use agentrax.Prelude.{
  ℤ, pos, leb_ℤ, ltb_ℤ, String, ◌==◌, Bool, true, false, not, ◌||◌, Option, none, some,
  if◌then◌else◌,
}
use agentrax.Api.{Duration, RollbackPolicy, AgentDeployment}
use agentrax.Api.ErrorRate.{Float, RateError, RateResult, rate, rate_error, parse_error_rate}
use agentrax.Rollout.Query.{request_count_query, error_rate_query, p99_latency_query}

pub data Metric : Type 0 where
  request_count error_rate p99_latency : Metric

pub data EvalError : Type 0 where
  building querying : Metric → EvalError

-- BreachReason
pub data Breach (F : Type 0) : Type 0 where
  invalid_max_error_rate : RateError → Breach F
  error_rate_exceeds : F → F → Breach F
  p99_exceeds : F → ℤ → Breach F

-- EvaluationResult, a constructor for each way that it is returned. Numbers that no caller reads are
-- left out.
pub data Evaluation (F : Type 0) : Type 0 where
  sample_too_small : F → Evaluation F
  breached : Breach F → Evaluation F
  healthy : F → F → F → Evaluation F
  eval_failed : EvalError → Evaluation F

unfoldable pub max_p99 : RollbackPolicy → ℤ
max_p99 policy =
    if leb_ℤ policy.max_p99_latency_ms (pos 0) then pos 500 else policy.max_p99_latency_ms

module _ (fl : Float) where
  open fl use {F, leb_f, of_int}

  unfoldable pub min_sample : RollbackPolicy → F
  min_sample policy =
      let m = of_int policy.min_request_sample in
      if leb_f m (of_int (pos 0)) then of_int (pos 100) else m

  unfoldable pub max_error_rate : RollbackPolicy → RateResult F
  max_error_rate policy =
      parse_error_rate fl (if policy.max_error_rate == "" then "1%" else policy.max_error_rate)

module _ (fl : Float) (quote : String → String) (query : String → Option fl.F) where
  open fl use {F, ltb_f, of_int}

  answered : Metric → Option F → (F → Evaluation F) → Evaluation F
  answered m none k = eval_failed (EvalError.querying m)
  answered m (some v) k = k v

  -- A query is built and then asked.
  ask : Metric → Option String → (F → Evaluation F) → Evaluation F
  ask m none k = eval_failed (EvalError.building m)
  ask m (some text) k = answered m (query text) k

  judge_latency : RollbackPolicy → F → F → F → Evaluation F
  judge_latency policy samples r p99 =
      if ltb_f (of_int (max_p99 policy)) p99
      then breached (p99_exceeds p99 (max_p99 policy))
      else healthy samples r p99

  judge_rate : AgentDeployment → Duration → F → F → RateResult F → Evaluation F
  judge_rate ad window samples r (rate_error e) = breached (invalid_max_error_rate e)
  judge_rate ad window samples r (rate max_rate) =
      if ltb_f max_rate r
      then breached (error_rate_exceeds r max_rate)
      else ask p99_latency (p99_latency_query quote ad.name ad.namespace window)
          (judge_latency ad.spec.rollout.rollback samples r)

  judge_samples : AgentDeployment → Duration → F → Evaluation F
  judge_samples ad window samples =
      if ltb_f samples (min_sample fl ad.spec.rollout.rollback)
      then sample_too_small samples
      else ask error_rate (error_rate_query quote ad.name ad.namespace window)
          (λ r. judge_rate ad window samples r (max_error_rate fl ad.spec.rollout.rollback))

  unfoldable pub evaluate : AgentDeployment → Duration → Evaluation F
  unfolding ask answered judge_latency judge_rate judge_samples
  evaluate ad window =
      ask request_count (request_count_query quote ad.name ad.namespace window)
        (judge_samples ad window)
