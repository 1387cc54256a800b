-- ===== src/Operator/Tests.antt =====
-- The operator's timing under a concrete environment.
use agentrax.Prelude.{
  pos, ◌-ℤ◌, ◌≤ℤ◌, ltb_ℤ, String, ◌≡◌, refl, arith, true, false, Option, none, some, [], ◌∷◌,
}
use agentrax.Dict.{lookup}
use agentrax.Api.{Duration}
use agentrax.Registry.{Registry, Entry, key, new_registry, get, ttl_of}
use agentrax.Registry.Alive.{beat, sweep, run}
use agentrax.Operator.{Environment, one_second, configured_ttl, configured, configured_interval}
use agentrax.Operator.Timing.{configured_interval_bounds, probed_agent_is_found}

-- An interval that is longer than the TTL.
abbrev environment : Environment
environment = record {
  enable_webhooks = "";
  pod_namespace = "";
  registry_ttl = "10s";
  mcp_health_interval = "1m";
  has_certificate = false;
}

abbrev parse_duration : String → Option Duration
parse_duration text = some (pos 10000000000)

adjusted : configured_interval parse_duration environment ≡ pos 5000000000
unfolding configured_interval configured_ttl configured
adjusted = refl

configured_interval_bounds_example :
    (one_second ≤ℤ configured_ttl parse_duration environment)
    × (pos 500000000 ≤ℤ configured_interval parse_duration environment)
    × (ltb_ℤ
          (configured_interval parse_duration environment)
          (configured_ttl parse_duration environment)
        ≡ true)
configured_interval_bounds_example = configured_interval_bounds parse_duration environment

abbrev entry : Entry
entry = record {
  namespace = "team-a";
  name = "agent";
  endpoint = "http://agent.team-a.svc:8080";
  tools = [];
  registered_at = pos 0;
  heartbeat_at = pos 0;
  ttl = pos 10000000000;
}

abbrev registry : Registry
registry = record (new_registry none "agentrax-system" (pos 10000000000)) {
  entries = (key "team-a" "agent", entry) ∷ [];
}

probed_agent_is_found_example :
    (found : Entry) × (get
        (run "team-a" "agent" registry
          (sweep (pos 4000000000) ∷ beat (pos 7000000000) ∷ sweep (pos 11000000000) ∷ []))
        (pos 12000000000)
        "team-a"
        "agent"
      ≡ some found)
unfolding lookup configured_interval configured_ttl configured ttl_of ◌-ℤ◌ key
probed_agent_is_found_example =
    probed_agent_is_found parse_duration environment registry entry "team-a" "agent"
      (sweep (pos 4000000000) ∷ beat (pos 7000000000) ∷ sweep (pos 11000000000) ∷ [])
      (pos 12000000000) (refl, tt) refl refl (omega arith)
