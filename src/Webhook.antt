-- ===== src/Webhook.antt =====
-- internal/webhook/agentdeployment_webhook.go: the mutating and the validating admission webhooks.
-- Objects are of the right type; logging and latency are left out. The API server's answer to the
-- read of the TenantQuota, the request's dry-run flag and the clock come as arguments.
pub mod Fields
pub mod Outcomes
pub mod Updates
mod Tests
use Prim.Native.Char.{code}
use Prim.Native.String.{◌++◌ as str_append}
use agentrax.Prelude.{
  ℕ, zero, suc, ◌+◌, leb, eqb, ℤ, pos, ltb_ℤ, eqb_ℤ, contains, is_empty, is_some, is_none, String,
  Bool, true, false, not, ◌&&◌, ◌||◌, Option, none, some, List, [], ◌∷◌, ◌++◌, ◌==◌, if◌then◌else◌,
}
use agentrax.Dict.{Dict}
use agentrax.Api.{
  Duration, Time, Quantity, parsed, ResourceRequirements, CanaryStep, RollbackPolicy, Strategy,
  AgentDeployment, AgentDeploymentSpec, Phase, TenantQuota,
}
use agentrax.Api.ErrorRate.{Float, RateError, RateResult, rate, rate_error, parse_error_rate}
use agentrax.Quota.{Enforcer, can_admit, admit_and_reserve}
use agentrax.Quota.Verdicts.{Denial, Verdict, admitted, denied}
use agentrax.Webhook.Fields.{
  FieldError, tenant_not_found, tenant_unreadable, min_exceeds_max, quota_exceeded, error_if,
  validate_canary_spec, validate_mcp_tools,
}

abbrev pub reservation_ttl : Duration
reservation_ttl = pos 5000000000

unfoldable pub is_zero_resources : ResourceRequirements → Bool
is_zero_resources r = is_empty r.requests && is_empty r.limits

abbrev pub baseline_resources : ResourceRequirements
baseline_resources = record {
  requests = ("cpu", parsed "100m") ∷ ("memory", parsed "128Mi") ∷ [];
  limits = ("cpu", parsed "500m") ∷ ("memory", parsed "512Mi") ∷ [];
}

default_strategy : Strategy → Strategy
default_strategy Strategy.unset = Strategy.recreate
default_strategy s = s

-- Default
unfoldable pub default : AgentDeployment → AgentDeployment
unfolding default_strategy is_zero_resources
default ad = record ad {
  spec = record ad.spec {
    port = if eqb_ℤ ad.spec.port (pos 0) then pos 8080 else ad.spec.port;
    rollout = record ad.spec.rollout { strategy = default_strategy ad.spec.rollout.strategy };
    resources =
        if is_zero_resources ad.spec.resources then baseline_resources else ad.spec.resources;
  };
}

pub data QuotaLookup : Type 0 where
  found : TenantQuota → QuotaLookup
  not_found unreadable : QuotaLookup

-- What the context says of the admission request: none where it holds none.
unfoldable pub is_dry_run : Option (Option Bool) → Bool
is_dry_run (some (some b)) = b
is_dry_run (some none) = false
is_dry_run none = false

is_canary : Strategy → Bool
is_canary Strategy.canary = true
is_canary s = false

quota_errors : Verdict → List FieldError
quota_errors admitted = []
quota_errors (denied d) = quota_exceeded d ∷ []

unfoldable pub admission_key : AgentDeployment → String
admission_key ad = str_append ad.namespace (str_append "/" ad.name)

-- Rules 2 to 4.
unfoldable pub spec_errors : Float → AgentDeploymentSpec → List FieldError
unfolding is_canary
spec_errors fl spec =
    error_if (ltb_ℤ spec.replicas.max spec.replicas.min) min_exceeds_max
    ++ ((if is_canary spec.rollout.strategy then validate_canary_spec fl spec else [])
        ++ validate_mcp_tools spec.mcp.tools)

-- Rule 5, which runs only if the rules before it found nothing.
check_quota :
    Bool
    → Enforcer
    → Time
    → TenantQuota
    → AgentDeployment
    → Option AgentDeploymentSpec
    → List FieldError
    → Enforcer × List FieldError
check_quota dry e now tq ad old (x ∷ errs) = (e, x ∷ errs)
check_quota true e now tq ad old [] =
    (e, quota_errors (can_admit e now (admission_key ad) tq.spec tq.status ad.spec old))
check_quota false e now tq ad old [] =
    let (e', verdict) =
      admit_and_reserve e now (admission_key ad) tq.spec tq.status ad.spec old reservation_ttl in
    (e', quota_errors verdict)

validate_found :
    Float
    → Bool
    → Enforcer
    → Time
    → QuotaLookup
    → AgentDeployment
    → Option AgentDeploymentSpec
    → Enforcer × List FieldError
validate_found fl dry e now not_found ad old = (e, tenant_not_found ∷ [])
validate_found fl dry e now unreadable ad old = (e, tenant_unreadable ∷ [])
validate_found fl dry e now (found tq) ad old =
    check_quota dry e now tq ad old (spec_errors fl ad.spec)

-- `get` reads the TenantQuota of a namespace and name.
unfoldable pub validate_spec :
    Float
    → Option (Option Bool)
    → Enforcer
    → Time
    → (String → String → QuotaLookup)
    → AgentDeployment
    → Option AgentDeploymentSpec
    → Enforcer × List FieldError
unfolding validate_found check_quota quota_errors
validate_spec fl request e now get ad old =
    validate_found fl (is_dry_run request) e now (get ad.namespace ad.spec.tenant_ref) ad old

pub data Response : Type 0 where
  allowed image_update_forbidden : Response
  invalid : List FieldError → Response

unfoldable pub respond : Enforcer × List FieldError → Enforcer × Response
respond (e, []) = (e, allowed)
respond (e, x ∷ errs) = (e, invalid (x ∷ errs))

unfoldable pub validate_create :
    Float
    → Option (Option Bool)
    → Enforcer
    → Time
    → (String → String → QuotaLookup)
    → AgentDeployment
    → Enforcer × Response
validate_create fl request e now get ad = respond (validate_spec fl request e now get ad none)

is_rolling_out : Phase → Bool
is_rolling_out Phase.rollout_in_progress = true
is_rolling_out p = false

unfoldable pub validate_update :
    Float
    → Option (Option Bool)
    → Enforcer
    → Time
    → (String → String → QuotaLookup)
    → AgentDeployment
    → AgentDeployment
    → Enforcer × Response
unfolding is_rolling_out
validate_update fl request e now get old_ad ad =
    if is_some ad.deletion_timestamp
    then (e, allowed)
    else if not (old_ad.spec.image == ad.spec.image) && is_rolling_out old_ad.status.phase
    then (e, image_update_forbidden)
    else respond (validate_spec fl request e now get ad (some old_ad.spec))

-- Deletion is left to the finalizer.
unfoldable pub validate_delete : Enforcer → AgentDeployment → Enforcer × Response
validate_delete e ad = (e, allowed)
