-- ===== src/Rollout/Query.antt =====
-- The queries of internal/rollout/promql.go. `quote` stands for fmt's `%q`, that is strconv.Quote.
pub mod Durations
use Prim.Native.String.{◌++◌ as str_append}
use agentrax.Prelude.{
  ℕ, ◌/◌, ◌%◌, ◌*◌, ◌-◌, pos, negsuc, eqb, decimal, String, ◌≡◌, refl, not, Option, none, some,
  List, [], ◌∷◌, if◌then◌else◌,
}
use agentrax.Api.{Duration}

abbrev pub nanos_per_second : ℕ
nanos_per_second = 1000000000

-- strings.Builder
concat : List String → String
concat [] = ""
concat (s ∷ parts) = str_append s (concat parts)

unit_text : ℕ → String → String
unit_text n unit = if eqb n 0 then "" else str_append (decimal (pos n)) unit

-- Hours, minutes and seconds of a whole number of seconds.
hms : ℕ → String
unfolding concat unit_text
hms s =
    let hours = s / 3600 in
    let left = s - hours * 3600 in
    let mins = left / 60 in
    let secs = left - mins * 60 in
    concat (unit_text hours "h" ∷ unit_text mins "m" ∷ unit_text secs "s" ∷ [])

positive_duration : ℕ → Option String
unfolding hms
positive_duration n =
    if not (eqb (n % nanos_per_second) 0)
    then if eqb (n % 1000000) 0 then some (str_append (decimal (pos (n / 1000000))) "ms") else none
    else some (hms (n / nanos_per_second))

-- none: the duration has sub-millisecond precision
unfoldable pub prom_duration : Duration → Option String
unfolding positive_duration
prom_duration (negsuc n) = some "0s"
prom_duration (pos n) = if eqb n 0 then some "0s" else positive_duration n

pub ninety_minutes : prom_duration (pos 5400000000000) ≡ some "1h30m"
unfolding prom_duration decimal
ninety_minutes = refl

half_second : prom_duration (pos 500000000) ≡ some "500ms"
unfolding prom_duration decimal
half_second = refl

with_duration : Option String → (String → String) → Option String
with_duration none f = none
with_duration (some d) f = some (f d)

module _ (quote : String → String) where
  -- namespace=%q,app_kubernetes_io_name=%q,agentrax_io_variant="canary"
  selector : String → String → String
  unfolding concat
  selector ad_name namespace = concat (
      "namespace="
      ∷ quote namespace
      ∷ ",app_kubernetes_io_name="
      ∷ quote ad_name
      ∷ ",agentrax_io_variant=\"canary\""
      ∷ [])

  unfoldable pub request_count_query : String → String → Duration → Option String
  unfolding with_duration selector concat
  request_count_query ad_name namespace window = with_duration (prom_duration window) (λ d. concat (
      "sum(increase(http_requests_total{"
      ∷ selector ad_name namespace
      ∷ "}["
      ∷ d
      ∷ "])) or vector(0)"
      ∷ []))

  unfoldable pub error_rate_query : String → String → Duration → Option String
  unfolding with_duration selector concat
  error_rate_query ad_name namespace window = with_duration (prom_duration window) (λ d. concat (
      "(sum(increase(http_requests_total{"
      ∷ selector ad_name namespace
      ∷ ",code=~\"5..\"}["
      ∷ d
      ∷ "])) or vector(0))"
      ∷ " / on() group_left "
      ∷ "clamp_min(sum(increase(http_requests_total{"
      ∷ selector ad_name namespace
      ∷ "}["
      ∷ d
      ∷ "])) or vector(0), 1)"
      ∷ []))

  unfoldable pub p99_latency_query : String → String → Duration → Option String
  unfolding with_duration selector concat
  p99_latency_query ad_name namespace window = with_duration (prom_duration window) (λ d. concat (
      "histogram_quantile(0.99, sum by (le) ("
      ∷ "rate(http_request_duration_milliseconds_bucket{"
      ∷ selector ad_name namespace
      ∷ "}["
      ∷ d
      ∷ "])))"
      ∷ []))
