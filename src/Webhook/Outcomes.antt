-- ===== src/Webhook/Outcomes.antt =====
-- The verdicts of validateSpec and of its callers, and what they do to the reservations.
use agentrax.Prelude.{
  ltb_ℤ, ◌≤ℤ◌, String, ◌≡◌, refl, ◌∙◌, ◌≢◌, ◌⊎◌, ◌↔◌, arith, Bool, true, false, Bool-cases, inl,
  inr, Option, none, some, List, [], ◌∷◌, All, Distinct, if◌then◌else◌,
}
use agentrax.Api.{Time, Strategy, AgentDeployment, AgentDeploymentSpec, TenantQuota}
use agentrax.Api.ErrorRate.{Float}
use agentrax.Quota.{Enforcer, can_admit}
use agentrax.Quota.Verdicts.{Verdict, admitted, denied, is_admitted}
use agentrax.Quota.Admission.{verdict-same, denied_keeps}
use agentrax.Webhook.{
  QuotaLookup, found, not_found, unreadable, is_canary, spec_errors, quota_errors, check_quota,
  validate_found, validate_spec, is_dry_run, admission_key, reservation_ttl, allowed, respond,
  validate_create,
}
use agentrax.Webhook.Fields.{FieldError, validate_canary_spec, is_blank}
use agentrax.Webhook.Fields.Specs.{
  append_empty_iff, error_if_iff, IsCanarySpec, validate_canary_spec-IsCanarySpec,
}
use agentrax.Webhook.Fields.ToolNames.{validate_mcp_tools-Distinct}

quota_errors_iff : (v : Verdict) → (quota_errors v ≡ []) ↔ (v ≡ admitted)
unfolding quota_errors
quota_errors_iff admitted = (λ h. refl, λ h. refl)
quota_errors_iff (denied d) = (λ h. ground arith, λ h. ground arith)

pub respond_iff : (r : Enforcer × List FieldError) → ((respond r).1 ≡ allowed) ↔ (r.1 ≡ [])
unfolding respond
respond_iff (e, []) = (λ h. refl, λ h. refl)
respond_iff (e, x ∷ errs) = (λ h. ground arith, λ h. ground arith)

respond-state : (r : Enforcer × List FieldError) → (respond r).0 ≡ r.0
unfolding respond
respond-state (e, []) = refl
respond-state (e, x ∷ errs) = refl

rejected_verdict : (v : Verdict) → quota_errors v ≢ [] → is_admitted v ≡ false
unfolding quota_errors is_admitted
rejected_verdict admitted h = absurd (h refl)
rejected_verdict (denied d) h = refl

module _ (fl : Float) (now : Time) (ad : AgentDeployment) (old : Option AgentDeploymentSpec) where
  check_quota_rejected :
      (dry : Bool) (e : Enforcer) (tq : TenantQuota) (errs : List FieldError)
      → (check_quota dry e now tq ad old errs).1 ≢ []
      → (check_quota dry e now tq ad old errs).0 ≡ e
  unfolding check_quota
  check_quota_rejected dry e tq (x ∷ errs) h = refl
  check_quota_rejected true e tq [] h = refl
  check_quota_rejected false e tq [] h = denied_keeps _ _ _ _ _ _ _ _ (rejected_verdict _ h)

  check_quota_dry :
      (e : Enforcer) (tq : TenantQuota) (errs : List FieldError)
      → check_quota true e now tq ad old errs ≡ (e, (check_quota false e now tq ad old errs).1)
  unfolding check_quota
  check_quota_dry e tq (x ∷ errs) = refl
  check_quota_dry e tq [] =
      rw (verdict-same e now (admission_key ad) tq.spec tq.status ad.spec old reservation_ttl) refl

  check_quota_iff :
      (dry : Bool) (e : Enforcer) (tq : TenantQuota) (errs : List FieldError)
      → ((check_quota dry e now tq ad old errs).1 ≡ []) ↔ (
          (errs ≡ [])
          × (can_admit e now (admission_key ad) tq.spec tq.status ad.spec old ≡ admitted))
  unfolding check_quota
  check_quota_iff dry e tq (x ∷ errs) = (λ h. ground arith, λ h. ground arith)
  check_quota_iff true e tq [] =
      let v = quota_errors_iff (can_admit e now (admission_key ad) tq.spec tq.status ad.spec old) in
      (λ h. (refl, v.0 h), λ h. v.1 h.1)
  check_quota_iff false e tq [] =
      let v = quota_errors_iff (can_admit e now (admission_key ad) tq.spec tq.status ad.spec old) in
      rw (verdict-same e now (admission_key ad) tq.spec tq.status ad.spec old reservation_ttl)
        (λ h. (refl, v.0 h), λ h. v.1 h.1)

  found_rejected :
      (dry : Bool) (e : Enforcer) (l : QuotaLookup)
      → (validate_found fl dry e now l ad old).1 ≢ []
      → (validate_found fl dry e now l ad old).0 ≡ e
  unfolding validate_found
  found_rejected dry e (found tq) h = check_quota_rejected dry e tq _ h
  found_rejected dry e not_found h = refl
  found_rejected dry e unreadable h = refl

  found_dry :
      (e : Enforcer) (l : QuotaLookup)
      → validate_found fl true e now l ad old ≡ (e, (validate_found fl false e now l ad old).1)
  unfolding validate_found
  found_dry e (found tq) = check_quota_dry e tq _
  found_dry e not_found = refl
  found_dry e unreadable = refl

  found_iff :
      (dry : Bool) (e : Enforcer) (l : QuotaLookup)
      → ((validate_found fl dry e now l ad old).1 ≡ []) ↔ (
          (tq : TenantQuota) × (l ≡ found tq)
          × (spec_errors fl ad.spec ≡ [])
          × (can_admit e now (admission_key ad) tq.spec tq.status ad.spec old ≡ admitted))
  unfolding validate_found
  found_iff dry e (found tq) =
      let quota = check_quota_iff dry e tq (spec_errors fl ad.spec) in
      (
        (λ h. let (a, b) = quota.0 h in (tq, refl, a, b)),
        (λ h. let (tq', same, a, b) = h in quota.1 (a, cc)),
      )
  found_iff dry e not_found = (λ h. ground arith, λ h. ground (arith, h.1))
  found_iff dry e unreadable = (λ h. ground arith, λ h. ground (arith, h.1))

-- Rules 2 to 4 as a description of the spec.
pub record IsValidSpec (fl : Float) (spec : AgentDeploymentSpec) : Type 0 where
  pub ordered : spec.replicas.min ≤ℤ spec.replicas.max
  pub canary : (spec.rollout.strategy ≢ Strategy.canary) ⊎ IsCanarySpec fl spec
  pub tools : All (λ t. is_blank t ≡ false) spec.mcp.tools × Distinct spec.mcp.tools

is_canary_iff : (s : Strategy) → (is_canary s ≡ true) ↔ (s ≡ Strategy.canary)
unfolding is_canary
is_canary_iff s = (λ h. ground arith, λ h. ground arith)

canary_errors_iff :
    (fl : Float) (spec : AgentDeploymentSpec)
    → ((if is_canary spec.rollout.strategy then validate_canary_spec fl spec else []) ≡ [])
      ↔ ((spec.rollout.strategy ≢ Strategy.canary) ⊎ IsCanarySpec fl spec)
canary_errors_iff fl spec =
    let which = is_canary_iff spec.rollout.strategy in
    let steps = validate_canary_spec-IsCanarySpec fl spec in
    elim (Bool-cases (is_canary spec.rollout.strategy)) [
      | inl is ↦ rw is (
        (λ h. inr (steps.0 h)),
        (λ h. elim h [ inl other ↦ absurd (other (which.0 is)) | inr c ↦ steps.1 c ]),
      )
      | inr other ↦ rw other ((λ h. inl (λ q. ground (arith, which.1 q))), λ h. refl)
    ]

spec_errors-IsValidSpec :
    (fl : Float) (spec : AgentDeploymentSpec) → (spec_errors fl spec ≡ []) ↔ IsValidSpec fl spec
unfolding spec_errors
spec_errors-IsValidSpec fl spec =
    let outer = append_empty_iff _ _ in
    let inner = append_empty_iff _ _ in
    let order =
      error_if_iff (ltb_ℤ spec.replicas.max spec.replicas.min) FieldError.min_exceeds_max in
    let canary = canary_errors_iff fl spec in
    let tools = validate_mcp_tools-Distinct spec.mcp.tools in
    (
      (λ h.
          let (a, b) = outer.0 h in
          let (c, d) = inner.0 b in
          let ordered = order.0 a in
          record { ordered = ground arith; canary = canary.0 c; tools = tools.0 d }),
      (λ v.
          let ordered = v.ordered in
          outer.1 (order.1 (ground arith), inner.1 (canary.1 v.canary, tools.1 v.tools))),
    )

-- The TenantQuota is there, the spec is valid, and the quota admits it.
pub record IsAccepted (fl : Float) (e : Enforcer) (now : Time) (get : String → String → QuotaLookup)
    (ad : AgentDeployment) (old : Option AgentDeploymentSpec) : Type 0 where
  pub quota : TenantQuota
  pub quota_found : get ad.namespace ad.spec.tenant_ref ≡ found quota
  pub spec_valid : IsValidSpec fl ad.spec
  pub quota_admits :
      can_admit e now (admission_key ad) quota.spec quota.status ad.spec old ≡ admitted

module _ (fl : Float) (e : Enforcer) (now : Time) (get : String → String → QuotaLookup)
    (ad : AgentDeployment) where
  -- validateSpec reports nothing exactly if the tenant's quota is found, the spec is valid and the
  -- enforcer admits the request, in a dry run as in a real one.
  pub validate_spec-IsAccepted :
      (request : Option (Option Bool)) (old : Option AgentDeploymentSpec)
      → ((validate_spec fl request e now get ad old).1 ≡ []) ↔ IsAccepted fl e now get ad old
  unfolding validate_spec
  validate_spec-IsAccepted request old =
      let parts =
        found_iff fl now ad old (is_dry_run request) e (get ad.namespace ad.spec.tenant_ref) in
      let valid = spec_errors-IsValidSpec fl ad.spec in
      (
        (λ h.
            let (tq, there, good, fits) = parts.0 h in
            record {
              quota = tq;
              quota_found = there;
              spec_valid = valid.0 good;
              quota_admits = fits;
            }),
        (λ a. parts.1 (a.quota, a.quota_found, valid.1 a.spec_valid, a.quota_admits)),
      )

  -- A dry run gives the errors of the real run and reserves nothing.
  pub dry_run_reserves_nothing :
      (old : Option AgentDeploymentSpec)
      → validate_spec fl (some (some true)) e now get ad old
        ≡ (e, (validate_spec fl (some (some false)) e now get ad old).1)
  unfolding validate_spec is_dry_run
  dry_run_reserves_nothing old = found_dry fl now ad old e (get ad.namespace ad.spec.tenant_ref)

  spec_rejected :
      (request : Option (Option Bool)) (old : Option AgentDeploymentSpec)
      → (validate_spec fl request e now get ad old).1 ≢ []
      → (validate_spec fl request e now get ad old).0 ≡ e
  unfolding validate_spec
  spec_rejected request old h =
      found_rejected fl now ad old (is_dry_run request) e (get ad.namespace ad.spec.tenant_ref) h

  pub respond_rejected :
      (request : Option (Option Bool)) (old : Option AgentDeploymentSpec)
      → (respond (validate_spec fl request e now get ad old)).1 ≢ allowed
      → (respond (validate_spec fl request e now get ad old)).0 ≡ e
  respond_rejected request old h =
      let r = validate_spec fl request e now get ad old in
      respond-state r ∙ spec_rejected request old (λ none_found. h ((respond_iff r).1 none_found))

  -- A rejected creation leaves no reservation behind.
  pub rejected_create_reserves_nothing :
      (request : Option (Option Bool))
      → (validate_create fl request e now get ad).1 ≢ allowed
      → (validate_create fl request e now get ad).0 ≡ e
  unfolding validate_create
  rejected_create_reserves_nothing request h = respond_rejected request none h
