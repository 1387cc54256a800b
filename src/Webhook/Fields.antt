-- ===== src/Webhook/Fields.antt =====
-- internal/webhook/agentdeployment_webhook.go: validateCanarySpec and validateMCPTools, and the errors
-- of the rules.
pub mod Specs
pub mod ToolNames
use Prim.Native.Char.{code}
use Prim.Native.String.{◌++◌ as str_append}
use agentrax.Prelude.{
  ℕ, zero, suc, ◌+◌, leb, eqb, ℤ, pos, ltb_ℤ, eqb_ℤ, contains, is_empty, is_some, is_none, String,
  Bool, true, false, not, ◌&&◌, ◌||◌, Option, none, some, List, [], ◌∷◌, ◌++◌, ◌==◌, if◌then◌else◌,
}
use agentrax.Api.{
  Duration, Time, Quantity, parsed, ResourceRequirements, CanaryStep, RollbackPolicy, Strategy,
  AgentDeployment, AgentDeploymentSpec, Phase, TenantQuota,
}
use agentrax.Api.ErrorRate.{Float, RateError, RateResult, rate, rate_error, parse_error_rate}
use agentrax.Quota.Verdicts.{Denial}

pub data FieldError : Type 0 where
  tenant_not_found tenant_unreadable : FieldError
  min_exceeds_max : FieldError
  steps_required no_full_weight : FieldError
  step_not_exactly_one : ℕ → FieldError
  max_error_rate_required max_p99_required min_sample_required : FieldError
  max_error_rate_invalid : RateError → FieldError
  tool_empty tool_duplicate : ℕ → FieldError
  quota_exceeded : Denial → FieldError

abbrev pub error_if : Bool → FieldError → List FieldError
error_if true e = e ∷ []
error_if false e = []

set_both : CanaryStep → Bool
set_both s = is_some s.set_weight && is_some s.pause

set_neither : CanaryStep → Bool
set_neither s = is_none s.set_weight && is_none s.pause

step_errors : ℕ → List CanaryStep → List FieldError
unfolding set_both set_neither
step_errors i [] = []
step_errors i (s ∷ steps) =
    error_if (set_both s || set_neither s) (step_not_exactly_one i) ++ step_errors (suc i) steps

is_full : Option ℤ → Bool
is_full none = false
is_full (some w) = eqb_ℤ w (pos 100)

has_full_weight : List CanaryStep → Bool
unfolding is_full
has_full_weight [] = false
has_full_weight (s ∷ steps) = is_full s.set_weight || has_full_weight steps

steps_errors : List CanaryStep → List FieldError
unfolding step_errors has_full_weight
steps_errors [] = steps_required ∷ []
steps_errors (s ∷ steps) =
    step_errors 0 (s ∷ steps) ++ error_if (not (has_full_weight (s ∷ steps))) no_full_weight

module _ (fl : Float) where
  parse_errors : RateResult fl.F → List FieldError
  parse_errors (rate r) = []
  parse_errors (rate_error e) = max_error_rate_invalid e ∷ []

  rollback_errors : RollbackPolicy → List FieldError
  unfolding parse_errors
  rollback_errors rb =
      (if rb.max_error_rate == ""
        then max_error_rate_required ∷ []
        else parse_errors (parse_error_rate fl rb.max_error_rate))
      ++ (error_if (eqb_ℤ rb.max_p99_latency_ms (pos 0)) max_p99_required
          ++ error_if (eqb_ℤ rb.min_request_sample (pos 0)) min_sample_required)

  unfoldable pub validate_canary_spec : AgentDeploymentSpec → List FieldError
  unfolding steps_errors rollback_errors
  validate_canary_spec spec =
      steps_errors spec.rollout.steps ++ rollback_errors spec.rollout.rollback

-- unicode.IsSpace
is_space : ℕ → Bool
is_space c =
    (leb 9 c && leb c 13)
    || eqb c 32
    || eqb c 0x85
    || eqb c 0xa0
    || eqb c 0x1680
    || (leb 0x2000 c && leb c 0x200a)
    || eqb c 0x2028
    || eqb c 0x2029
    || eqb c 0x202f
    || eqb c 0x205f
    || eqb c 0x3000

-- strings.TrimSpace(t) == ""
unfoldable pub is_blank : String → Bool
unfolding is_space
is_blank String.[] = true
is_blank (String.◌∷◌ c s) = is_space (code c) && is_blank s

tool_errors : ℕ → List String → List String → List FieldError
tool_errors i seen [] = []
tool_errors i seen (t ∷ tools) =
    error_if (is_blank t) (tool_empty i)
    ++ (error_if (contains t seen) (tool_duplicate i) ++ tool_errors (suc i) (t ∷ seen) tools)

unfoldable pub validate_mcp_tools : List String → List FieldError
unfolding tool_errors
validate_mcp_tools tools = tool_errors 0 [] tools
