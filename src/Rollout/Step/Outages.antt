-- ===== src/Rollout/Step/Outages.antt =====
-- What a pause takes for an outage of Prometheus: its queries go through QueryScalar.
use agentrax.Prelude.{ℤ, leb_ℤ, String, ◌≡◌, true, Option, none, some, []}
use agentrax.Api.{Time, Duration, AgentDeployment, ConditionReason}
use agentrax.Api.ErrorRate.{Float}
use agentrax.Metrics.{HttpResponse, Codec, Client, query_scalar, answer}
use agentrax.Metrics.Answers.{IsAnswered, query_scalar-no_series}
use agentrax.Rollout.Evaluate.{Metric, EvalError}
use agentrax.Rollout.Evaluate.Thresholds.{AsksLatency, evaluate-AsksLatency}
use agentrax.Rollout.Cluster.{Api, History, ok}
use agentrax.Rollout.Canary.{Controller, Requeue}
use agentrax.Rollout.Canary.Ends.{EndsFailed}
use agentrax.Rollout.Step.{since}
use agentrax.Rollout.Step.Pauses.{IsPaused, fetched, run, fail_safe_rolls_back}

module _ (fl : Float) (quote : String → String) (codec : Codec fl.F) (c : Client) where
  open fl use {F}
  open codec use {Body}

  -- Prometheus as the rollout sees it.
  abbrev pub asked : (String → Option (HttpResponse Body)) → String → Option F
  asked send query = answer (query_scalar fl codec c send query)

  module _ (controller : Controller) (send : History → String → Option (HttpResponse Body))
      (api : Api) (now started : Time) (ad latest : AgentDeployment) (idx : ℤ)
      (duration : Duration) where
    abbrev pub prom : History → String → Option F
    prom h = asked (send h)

    abbrev pub first_read : History
    first_read = fetched controller fl quote prom api now started ad latest idx duration

    -- For an agent whose pause has begun and for which Prometheus has been marked unreachable for
    -- the fail-safe timeout or longer: if Prometheus counts enough requests and few errors, and
    -- answers the query of the latency with success and no series, this counts as an outage. If the
    -- run reports success, the canary's objects are gone, and the last call has written the status
    -- of a rollout that failed because Prometheus is unavailable.
    pub missing_latency_rolls_back :
        (text : String) (since_when : Time) (next : Requeue) (h' : History)
        → IsPaused controller fl quote prom api now started ad latest idx duration
        → AsksLatency fl quote (prom first_read) latest duration text
        → IsAnswered fl codec c
            (send first_read)
            text
            (record { status = "success"; result_type = "vector"; result = [] })
        → latest.status.prom_unreachable_since ≡ some since_when
        → leb_ℤ controller.fail_safe_timeout (since now since_when) ≡ true
        → run controller fl quote prom api now started ad latest idx duration ≡ (ok next, h')
        → (next ≡ none) × EndsFailed api ConditionReason.prometheus_unavailable latest h'
    missing_latency_rolls_back text since_when next h' paused asks empty marked late e =
        fail_safe_rolls_back controller fl quote prom api now started ad latest idx duration
          (EvalError.querying Metric.p99_latency) since_when next h' paused
          (evaluate-AsksLatency fl quote (prom first_read) latest duration text asks
            (query_scalar-no_series fl codec c (send first_read) text empty))
          marked late e
