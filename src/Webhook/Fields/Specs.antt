-- ===== src/Webhook/Fields/Specs.antt =====
-- validateCanarySpec against a description of the specs that it lets pass.
use agentrax.Prelude.{
  ℕ, suc, ℤ, pos, eqb_ℤ, eqb_ℤ_iff, String, ◌==◌, eq_iff, ◌≡◌, refl, ap, ◌≢◌, ◌⊎◌, ◌↔◌, arith, Bool,
  true, false, not, ◌||◌, Bool-cases, inl, inr, Option, none, some, is_some, List, [], ◌∷◌, ◌++◌,
  All, if◌then◌else◌,
}
use agentrax.Api.{CanaryStep, RollbackPolicy, AgentDeploymentSpec}
use agentrax.Api.ErrorRate.{Float, RateResult, rate, rate_error, parse_error_rate}
use agentrax.Webhook.Fields.{
  FieldError, error_if, set_both, set_neither, step_errors, step_not_exactly_one, is_full,
  has_full_weight, steps_errors, parse_errors, rollback_errors, validate_canary_spec,
}

pub append_empty_iff {ℓ} : {A : Type ℓ} (xs ys : List A) → (xs ++ ys ≡ []) ↔ ((xs ≡ []) × (ys ≡ []))
append_empty_iff [] ys = (λ h. (refl, h), λ h. h.1)
append_empty_iff (x ∷ xs) ys = (λ h. ground arith, λ h. ground arith)

pub error_if_iff : (b : Bool) (e : FieldError) → (error_if b e ≡ []) ↔ (b ≡ false)
error_if_iff b e = (λ h. ground arith, λ h. ground arith)

-- A step sets a weight or pauses.
abbrev pub Alternates : CanaryStep → Type 0
Alternates s = is_some s.set_weight ≡ not (is_some s.pause)

abbrev pub SetsFullWeight : List CanaryStep → Type 0
SetsFullWeight [] = ⊥
SetsFullWeight (s ∷ steps) = (s.set_weight ≡ some (pos 100)) ⊎ SetsFullWeight steps

pub record IsCanarySpec (fl : Float) (spec : AgentDeploymentSpec) : Type 0 where
  pub alternating : All Alternates spec.rollout.steps
  pub full : SetsFullWeight spec.rollout.steps
  pub rate_written : spec.rollout.rollback.max_error_rate ≢ ""
  pub rate_parses : (r : fl.F) × (parse_error_rate fl spec.rollout.rollback.max_error_rate ≡ rate r)
  pub latency : spec.rollout.rollback.max_p99_latency_ms ≢ pos 0
  pub sample : spec.rollout.rollback.min_request_sample ≢ pos 0

exactly_one : (s : CanaryStep) → ((set_both s || set_neither s) ≡ false) ↔ Alternates s
unfolding set_both set_neither
exactly_one s = (λ h. ground arith, λ h. ground arith)

step_errors_iff :
    (i : ℕ) (steps : List CanaryStep) → (step_errors i steps ≡ []) ↔ All Alternates steps
unfolding step_errors
step_errors_iff i [] = (λ h. tt, λ h. refl)
step_errors_iff i (s ∷ steps) =
    let rest = step_errors_iff (suc i) steps in
    let parts =
      append_empty_iff (error_if (set_both s || set_neither s) (step_not_exactly_one i))
        (step_errors (suc i) steps) in
    let first = error_if_iff (set_both s || set_neither s) (step_not_exactly_one i) in
    (
      (λ h. let (a, b) = parts.0 h in ((exactly_one s).0 (first.0 a), rest.0 b)),
      (λ h. parts.1 (first.1 ((exactly_one s).1 h.0), rest.1 h.1)),
    )

is_full_iff : (w : Option ℤ) → (is_full w ≡ true) ↔ (w ≡ some (pos 100))
unfolding is_full
is_full_iff none = (λ h. ground arith, λ h. ground arith)
is_full_iff (some w) =
    (λ h. ap some ((eqb_ℤ_iff w (pos 100)).0 h), λ h. (eqb_ℤ_iff w (pos 100)).1 (ground arith))

has_full_weight_iff :
    (steps : List CanaryStep) → (has_full_weight steps ≡ true) ↔ SetsFullWeight steps
unfolding has_full_weight
has_full_weight_iff [] = (λ h. ground arith, λ h. ground arith)
has_full_weight_iff (s ∷ steps) =
    let first = is_full_iff s.set_weight in
    let rest = has_full_weight_iff steps in
    (
      λ h. ground (arith, first.0, rest.0),
      λ h. elim h [ inl a ↦ ground (arith, first.1 a) | inr b ↦ ground (arith, rest.1 b) ],
    )

steps_errors_iff :
    (steps : List CanaryStep)
    → (steps_errors steps ≡ []) ↔ (All Alternates steps × SetsFullWeight steps)
unfolding steps_errors
steps_errors_iff [] = (λ h. ground arith, λ h. ground arith)
steps_errors_iff (s ∷ steps) =
    let parts =
      append_empty_iff (step_errors 0 (s ∷ steps))
        (error_if (not (has_full_weight (s ∷ steps))) FieldError.no_full_weight) in
    let each = step_errors_iff 0 (s ∷ steps) in
    let last = error_if_iff (not (has_full_weight (s ∷ steps))) FieldError.no_full_weight in
    let full = has_full_weight_iff (s ∷ steps) in
    (
      (λ h. let (a, b) = parts.0 h in let c = last.0 b in (each.0 a, full.0 (ground arith))),
      (λ h. let c = full.1 h.1 in parts.1 (each.1 h.0, last.1 (ground arith))),
    )

module _ (fl : Float) where
  parse_errors_iff : (r : RateResult fl.F) → (parse_errors fl r ≡ []) ↔ ((x : fl.F) × (r ≡ rate x))
  unfolding parse_errors
  parse_errors_iff (rate x) = (λ h. (x, refl), λ h. refl)
  parse_errors_iff (rate_error e) = (λ h. ground arith, λ h. ground arith)

  rate_errors_iff :
      (s : String)
      → ((if s == ""
            then FieldError.max_error_rate_required ∷ []
            else parse_errors fl (parse_error_rate fl s))
          ≡ [])
        ↔ ((s ≢ "") × ((x : fl.F) × (parse_error_rate fl s ≡ rate x)))
  rate_errors_iff s = elim (Bool-cases (s == "")) [
    | inl same ↦ rw same (λ h. ground arith, λ h. absurd (h.0 ((eq_iff s "").0 same)))
    | inr other ↦
        let differ : s ≢ "" = λ h. ground (arith, (eq_iff s "").1 h) in
        rw other (
          (λ h. (differ, (parse_errors_iff (parse_error_rate fl s)).0 h)),
          (λ h. (parse_errors_iff (parse_error_rate fl s)).1 h.1),
        )
  ]

  nonzero_iff : (z : ℤ) (e : FieldError) → (error_if (eqb_ℤ z (pos 0)) e ≡ []) ↔ (z ≢ pos 0)
  nonzero_iff z e = (
    (λ h q. ground (arith, (error_if_iff (eqb_ℤ z (pos 0)) e).0 h, (eqb_ℤ_iff z (pos 0)).1 q)),
    (λ h. elim (Bool-cases (eqb_ℤ z (pos 0))) [
      | inl zero ↦ absurd (h ((eqb_ℤ_iff z (pos 0)).0 zero))
      | inr other ↦ (error_if_iff (eqb_ℤ z (pos 0)) e).1 other
    ]),
  )

  rollback_errors_iff :
      (rb : RollbackPolicy)
      → (rollback_errors fl rb ≡ []) ↔ (
          (rb.max_error_rate ≢ "")
          × ((x : fl.F) × (parse_error_rate fl rb.max_error_rate ≡ rate x))
          × (rb.max_p99_latency_ms ≢ pos 0)
          × (rb.min_request_sample ≢ pos 0))
  unfolding rollback_errors
  rollback_errors_iff rb =
      let rates = rate_errors_iff rb.max_error_rate in
      let p99 = nonzero_iff rb.max_p99_latency_ms FieldError.max_p99_required in
      let sample = nonzero_iff rb.min_request_sample FieldError.min_sample_required in
      let outer = append_empty_iff _ _ in
      let inner = append_empty_iff _ _ in
      (
        (λ h.
            let (a, b) = outer.0 h in
            let (c, d) = inner.0 b in
            let (w, parses) = rates.0 a in (w, parses, p99.0 c, sample.0 d)),
        (λ h. outer.1 (rates.1 (h.0, h.1), inner.1 (p99.1 h.2, sample.1 h.3))),
      )

  -- validateCanarySpec reports nothing exactly if there is a step, each step sets a weight or
  -- pauses but not both, some step sets weight 100, and the rollback policy has an error rate that
  -- parses, a latency limit and a minimal sample.
  pub validate_canary_spec-IsCanarySpec :
      (spec : AgentDeploymentSpec) → (validate_canary_spec fl spec ≡ []) ↔ IsCanarySpec fl spec
  unfolding validate_canary_spec
  validate_canary_spec-IsCanarySpec spec =
      let steps = steps_errors_iff spec.rollout.steps in
      let rollback = rollback_errors_iff spec.rollout.rollback in
      let parts =
        append_empty_iff (steps_errors spec.rollout.steps)
          (rollback_errors fl spec.rollout.rollback) in
      (
        (λ h.
            let (a, b) = parts.0 h in
            let (each, one) = steps.0 a in
            let (w, parses, p99, sample) = rollback.0 b in
            record {
              alternating = each;
              full = one;
              rate_written = w;
              rate_parses = parses;
              latency = p99;
              sample = sample;
            }),
        (λ c. parts.1 (
          steps.1 (c.alternating, c.full),
          rollback.1 (c.rate_written, c.rate_parses, c.latency, c.sample),
        )),
      )
