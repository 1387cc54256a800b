-- ===== src/Rollout/Evaluate/Thresholds.antt =====
-- What a canary has to show to pass an evaluation.
use agentrax.Prelude.{
  String, ◌≡◌, refl, sym, ◌∙◌, ap, ◌↔◌, arith, true, false, Bool-cases, Option-cases, inl, inr,
  Option, none, some,
}
use agentrax.Api.{Duration, AgentDeployment}
use agentrax.Api.ErrorRate.{Float, RateResult, rate, rate_error}
use agentrax.Rollout.Query.{request_count_query, error_rate_query, p99_latency_query}
use agentrax.Rollout.Evaluate.{
  Metric, request_count, error_rate, p99_latency, EvalError, eval_failed, Evaluation, healthy,
  sample_too_small, answered, ask, min_sample, max_error_rate, max_p99, judge_latency, judge_rate,
  judge_samples, evaluate,
}

module _ (fl : Float) (quote : String → String) (query : String → Option fl.F) where
  open fl use {F, ltb_f, of_int}

  -- The metric's query can be written, and its answer is `v`.
  pub record Answers (text : Option String) (v : F) : Type 0 where
    pub written : String
    pub is_written : text ≡ some written
    pub answered : query written ≡ some v

  -- The three metrics are there; enough requests, errors and latency not above their limits.
  pub record IsHealthy (ad : AgentDeployment) (window : Duration) (samples r p99 : F) : Type 0 where
    pub counted : Answers (request_count_query quote ad.name ad.namespace window) samples
    pub enough : ltb_f samples (min_sample fl ad.spec.rollout.rollback) ≡ false
    pub rated : Answers (error_rate_query quote ad.name ad.namespace window) r
    pub limit : F
    pub limit_parsed : max_error_rate fl ad.spec.rollout.rollback ≡ rate limit
    pub few_errors : ltb_f limit r ≡ false
    pub timed : Answers (p99_latency_query quote ad.name ad.namespace window) p99
    pub fast : ltb_f (of_int (max_p99 ad.spec.rollout.rollback)) p99 ≡ false

  ask_healthy :
      (m : Metric) (text : Option String) (k : F → Evaluation F) (a b c : F)
      → ask fl quote query m text k ≡ healthy a b c
      → (v : F) × Answers text v × (k v ≡ healthy a b c)
  unfolding ask answered
  ask_healthy m none k a b c h = ground arith
  ask_healthy m (some t) k a b c h = elim (Option-cases (query t)) [
    | inl silent ↦ absurd (ground (arith, ap (λ o. answered fl quote query m o k) (sym silent) ∙ h))
    | inr (v, said) ↦ (
      v,
      record { written = t; is_written = refl; answered = said },
      ap (λ o. answered fl quote query m o k) (sym said) ∙ h,
    )
  ]

  ask_answered :
      (m : Metric) (text : Option String) (k : F → Evaluation F) (v : F)
      → Answers text v
      → ask fl quote query m text k ≡ k v
  unfolding ask answered
  ask_answered m text k v a = rw a.is_written (ap (λ o. answered fl quote query m o k) a.answered)

  judge_latency_iff :
      (ad : AgentDeployment) (x y z samples r p99 : F)
      → (judge_latency fl quote query ad.spec.rollout.rollback x y z ≡ healthy samples r p99) ↔ (
          (ltb_f (of_int (max_p99 ad.spec.rollout.rollback)) z ≡ false)
          × (x ≡ samples)
          × (y ≡ r)
          × (z ≡ p99))
  unfolding judge_latency
  judge_latency_iff ad x y z samples r p99 =
      elim (Bool-cases (ltb_f (of_int (max_p99 ad.spec.rollout.rollback)) z)) [
        | inl slow ↦ rw slow (λ h. ground arith, λ h. ground arith)
        | inr fast ↦ rw fast (λ h. (refl, cc, cc, cc), λ h. cc)
      ]

  judge_rate_healthy :
      (ad : AgentDeployment) (window : Duration) (x y samples r p99 : F) (m : RateResult F)
      → judge_rate fl quote query ad window x y m ≡ healthy samples r p99
      → (limit : F) × (z : F) × (m ≡ rate limit)
        × (ltb_f limit y ≡ false)
        × Answers (p99_latency_query quote ad.name ad.namespace window) z
        × (judge_latency fl quote query ad.spec.rollout.rollback x y z ≡ healthy samples r p99)
  unfolding judge_rate
  judge_rate_healthy ad window x y samples r p99 (rate_error e) h = absurd (ground arith)
  judge_rate_healthy ad window x y samples r p99 (rate limit) h =
      elim (Bool-cases (ltb_f limit y)) [
        | inl many ↦ absurd (ground (arith, (rw many at h)))
        | inr few ↦
            let (z, a, j) = ask_healthy _ _ _ samples r p99 (rw few at h) in
            (limit, z, refl, few, a, j)
      ]

  judge_samples_healthy :
      (ad : AgentDeployment) (window : Duration) (x samples r p99 : F)
      → judge_samples fl quote query ad window x ≡ healthy samples r p99
      → (y : F) × (ltb_f x (min_sample fl ad.spec.rollout.rollback) ≡ false)
        × Answers (error_rate_query quote ad.name ad.namespace window) y
        × (judge_rate fl quote query ad window x y (max_error_rate fl ad.spec.rollout.rollback)
            ≡ healthy samples r p99)
  unfolding judge_samples
  judge_samples_healthy ad window x samples r p99 h =
      elim (Bool-cases (ltb_f x (min_sample fl ad.spec.rollout.rollback))) [
        | inl few ↦ absurd (ground (arith, (rw few at h)))
        | inr enough ↦
            let (y, a, j) = ask_healthy _ _ _ samples r p99 (rw enough at h) in (y, enough, a, j)
      ]

  -- Evaluate finds a canary healthy exactly if the three queries can be written and are answered,
  -- the request count is not below the minimal sample, the limit of the error rate parses, and
  -- neither the error rate nor the latency is above its limit, in the order of the floats.
  pub evaluate-IsHealthy :
      (ad : AgentDeployment) (window : Duration) (samples r p99 : F)
      → (evaluate fl quote query ad window ≡ healthy samples r p99)
        ↔ IsHealthy ad window samples r p99
  unfolding evaluate judge_samples judge_rate judge_latency
  evaluate-IsHealthy ad window samples r p99 = (
    (λ h.
        let (x, a, j) = ask_healthy _ _ _ samples r p99 h in
        let (y, enough, b, k) = judge_samples_healthy ad window x samples r p99 j in
        let (limit, z, parsed, few, c, l) = judge_rate_healthy ad window x y samples r p99 _ k in
        let (fast, same_x, same_y, same_z) = (judge_latency_iff ad x y z samples r p99).0 l in
        record {
          counted = rw (sym same_x) a;
          enough = rw (sym same_x) enough;
          rated = rw (sym same_y) b;
          limit = limit;
          limit_parsed = parsed;
          few_errors = rw (sym same_y) few;
          timed = rw (sym same_z) c;
          fast = rw (sym same_z) fast;
        }),
    (λ g.
        let latency =
          (judge_latency_iff ad samples r p99 samples r p99).1 (g.fast, refl, refl, refl) in
        let rated : judge_rate fl quote query ad window samples r
              (max_error_rate fl ad.spec.rollout.rollback)
            ≡ healthy samples r p99 =
          rw (g.limit_parsed, g.few_errors) (ask_answered _ _ _ p99 g.timed ∙ latency) in
        let sampled : judge_samples fl quote query ad window samples ≡ healthy samples r p99 =
          rw g.enough (ask_answered _ _ _ r g.rated ∙ rated) in
        ask_answered _ _ _ samples g.counted ∙ sampled),
  )

  -- Too few requests: the other queries are not asked.
  pub evaluate-few :
      (ad : AgentDeployment) (window : Duration) (samples : F)
      → Answers (request_count_query quote ad.name ad.namespace window) samples
      → ltb_f samples (min_sample fl ad.spec.rollout.rollback) ≡ true
      → evaluate fl quote query ad window ≡ sample_too_small samples
  unfolding evaluate judge_samples
  evaluate-few ad window samples counted few =
      ask_answered request_count _ (judge_samples fl quote query ad window) samples counted
      ∙ rw few refl

  -- Enough requests and few errors, and so the latency is asked for.
  pub record AsksLatency (ad : AgentDeployment) (window : Duration) (text : String) : Type 0 where
    pub samples : F
    pub counted : Answers (request_count_query quote ad.name ad.namespace window) samples
    pub enough : ltb_f samples (min_sample fl ad.spec.rollout.rollback) ≡ false
    pub errors : F
    pub rated : Answers (error_rate_query quote ad.name ad.namespace window) errors
    pub limit : F
    pub limit_parsed : max_error_rate fl ad.spec.rollout.rollback ≡ rate limit
    pub few_errors : ltb_f limit errors ≡ false
    pub is_text : p99_latency_query quote ad.name ad.namespace window ≡ some text

  pub evaluate-AsksLatency :
      (ad : AgentDeployment) (window : Duration) (text : String)
      → AsksLatency ad window text
      → query text ≡ none
      → evaluate fl quote query ad window ≡ eval_failed (EvalError.querying p99_latency)
  unfolding evaluate judge_samples judge_rate ask answered
  evaluate-AsksLatency ad window text g silent =
      ask_answered request_count _ (judge_samples fl quote query ad window) g.samples g.counted
      ∙ rw g.enough (
          ask_answered error_rate _ _ g.errors g.rated
          ∙ rw (g.limit_parsed, g.few_errors, g.is_text)
              (ap
                (λ o.
                  answered fl quote query p99_latency o
                    (judge_latency fl quote query ad.spec.rollout.rollback g.samples g.errors))
                silent))
