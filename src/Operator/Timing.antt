-- ===== src/Operator/Timing.antt =====
-- The configured TTL and interval, and what they promise an agent that answers its probes.
use agentrax.Prelude.{
  pos, ◌≤ℤ◌, ltb_ℤ, String, ◌==◌, ◌≡◌, refl, arith, true, inl, inr, Bool-cases, Option, none, some,
  List,
}
use agentrax.Dict.{lookup}
use agentrax.Api.{Duration, Time}
use agentrax.Registry
use agentrax.Registry.{Registry, Entry, key, get, ttl_of}
use agentrax.Registry.Alive.{Event, InTime, run, get-run}
use agentrax.Registry.Expiry.{IsValid}
use agentrax.Operator.{
  Environment, default_health_interval, one_second, at_least_a_second, half, configured,
  configured_ttl, configured_interval,
}

at_least_a_second-ge :
    (default : Duration) (parsed : Option Duration)
    → one_second ≤ℤ default
    → one_second ≤ℤ at_least_a_second default parsed
unfolding at_least_a_second
at_least_a_second-ge default none h = h
at_least_a_second-ge default (some d) h = ground arith

configured-ge :
    (parse_duration : String → Option Duration) (default : Duration) (text : String)
    → one_second ≤ℤ default
    → one_second ≤ℤ configured parse_duration default text
unfolding configured
configured-ge parse_duration default text h = elim (Bool-cases (text == "")) [
  | inl unset ↦ rw unset h
  | inr set ↦ rw set (at_least_a_second-ge default (parse_duration text) h)
]

-- Whatever the environment says: the TTL is a second or more, and the interval of the probes is
-- half a second or more and below the TTL.
pub configured_interval_bounds :
    (parse_duration : String → Option Duration) (env : Environment)
    → (one_second ≤ℤ configured_ttl parse_duration env)
      × (pos 500000000 ≤ℤ configured_interval parse_duration env)
      × (ltb_ℤ (configured_interval parse_duration env) (configured_ttl parse_duration env) ≡ true)
unfolding configured_ttl configured_interval half
configured_interval_bounds parse_duration env =
    let ttl = configured parse_duration Registry.default_ttl_value env.registry_ttl in
    let interval = configured parse_duration default_health_interval env.mcp_health_interval in
    let a =
      configured-ge parse_duration Registry.default_ttl_value env.registry_ttl (omega arith) in
    let b =
      configured-ge parse_duration default_health_interval env.mcp_health_interval (omega arith) in
    (a, ground (arith, a, b), ground (arith, a, b))

-- An agent in a registry that holds each key once, and in which its TTL is the configured one: if
-- each sweep, and a lookup at the end, comes within the configured interval of the last probe that
-- the agent has answered before it, the lookup finds the agent.
pub probed_agent_is_found :
    (parse_duration : String → Option Duration) (env : Environment) (r : Registry) (e : Entry)
    (namespace name : String) (events : List Event) (later : Time)
    → IsValid r
    → lookup (key namespace name) r.entries ≡ some e
    → ttl_of r.default_ttl e ≡ configured_ttl parse_duration env
    → InTime namespace name (configured_interval parse_duration env) e.heartbeat_at events later
    → (found : Entry) × (get (run namespace name r events) later namespace name ≡ some found)
probed_agent_is_found parse_duration env r e namespace name events later v stored own soon =
    let (_, _, below) = configured_interval_bounds parse_duration env in
    get-run namespace name (configured_interval parse_duration env) e.heartbeat_at r events later
      (record {
        valid = v;
        entry = e;
        is_stored = stored;
        last_beat = refl;
        long = rw own (ground (arith, below));
      })
      soon
