-- ===== src/Webhook/Tests.antt =====
-- The webhook theorems at concrete requests. The floats are numbers of the model with a total order.
use agentrax.Prelude.{pos, String, ◌≡◌, ◌≢◌, ◌⊎◌, ◌↔◌, true, none, some, is_some, [], arith}
use agentrax.Api.{Phase}
use agentrax.Webhook.{
  QuotaLookup, found, not_found, allowed, respond, validate_spec, validate_create, validate_update,
}
use agentrax.Webhook.Outcomes.{
  IsAccepted, validate_spec-IsAccepted, rejected_create_reserves_nothing,
}
use agentrax.Webhook.Updates.{validate_update-allowed}
use agentrax.Samples.{sample_spec, sample_agent, sample_tenant, sample_enforcer, sample_float}

abbrev tenants : String → String → QuotaLookup
tenants namespace name = found sample_tenant

abbrev no_tenants : String → String → QuotaLookup
no_tenants namespace name = not_found

validate_spec-IsAccepted_example :
    ((validate_spec sample_float none sample_enforcer (pos 0) tenants sample_agent none).1 ≡ [])
    ↔ IsAccepted sample_float sample_enforcer (pos 0) tenants sample_agent none
validate_spec-IsAccepted_example =
    validate_spec-IsAccepted sample_float sample_enforcer (pos 0) tenants sample_agent none none

rejected_create_reserves_nothing_example :
    (validate_create sample_float none sample_enforcer (pos 0) no_tenants sample_agent).0
    ≡ sample_enforcer
unfolding validate_create validate_spec respond
rejected_create_reserves_nothing_example =
    rejected_create_reserves_nothing sample_float sample_enforcer (pos 0) no_tenants sample_agent
      none (λ h. ground arith)

validate_update-allowed_example :
    ((validate_update sample_float none sample_enforcer (pos 0) tenants sample_agent sample_agent).1
      ≡ allowed)
    ↔ ((is_some sample_agent.deletion_timestamp ≡ true)
        ⊎ (((sample_spec.image ≡ sample_spec.image)
              ⊎ (sample_agent.status.phase ≢ Phase.rollout_in_progress))
            × IsAccepted sample_float sample_enforcer
                (pos 0)
                tenants
                sample_agent
                (some sample_spec)))
validate_update-allowed_example =
    validate_update-allowed sample_float sample_enforcer (pos 0) tenants sample_agent none
      sample_agent
