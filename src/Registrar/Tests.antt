-- ===== src/Registrar/Tests.antt =====
-- The registrar theorems at a concrete agent.
use agentrax.Prelude.{pos, String, ◌≡◌, refl, none, some, [], ◌∷◌}
use agentrax.Dict.{lookup}
use agentrax.Registry
use agentrax.Registry.{Registry, new_registry, key}
use agentrax.Registrar.{
  Registrar, Probe, advertised, unreachable, probe_failed, new_registrar, heartbeat,
}
use agentrax.Registrar.Strikes.{last_error, three_strikes}
use Prim.Native.String.{◌++◌ as str_append}
use agentrax.Prelude.{has_suffix, true}
use agentrax.Registrar.Mcp.{initialize_url}
use agentrax.Registrar.Mcp.Targets.{initialize_url_normal}
use agentrax.Samples.{sample_agent}

abbrev fresh : Registry
fresh = new_registry none "agentrax-system" (pos 0)

abbrev registrar : Registrar
registrar = new_registrar (some fresh)

abbrev down : String → Probe
down endpoint = unreachable "refused"

abbrev up : String → Probe
up endpoint = advertised ("search" ∷ [])

three_strikes_example :
    let (g1, e1) = heartbeat registrar (pos 1) down up sample_agent in
    let (g2, e2) = heartbeat g1 (pos 2) down up sample_agent in
    let (g3, e3) = heartbeat g2 (pos 3) down up sample_agent in
    (e1 ≡ some (probe_failed (pos 1)))
    × (g1.registry ≡ some fresh)
    × (e2 ≡ some (probe_failed (pos 2)))
    × (g2.registry ≡ some fresh)
    × (g3.registry ≡ some (Registry.deregister fresh "team-a" "agent").0)
    × (Registry.get (Registry.deregister fresh "team-a" "agent").0 (pos 4) "team-a" "agent" ≡ none)
    × (e3 ≡ some (last_error (pos 3) (Registry.deregister fresh "team-a" "agent").1))
unfolding new_registrar lookup
three_strikes_example =
    three_strikes registrar fresh sample_agent (pos 1) (pos 2) (pos 3) (pos 4) down down down up
      "refused" "refused" "refused" refl refl refl refl refl

initialize_url_normal_example :
    (has_suffix (initialize_url "http://agent:8080/") "/initialize" ≡ true)
    × (initialize_url (str_append "http://agent:8080/" "/") ≡ initialize_url "http://agent:8080/")
    × (initialize_url (initialize_url "http://agent:8080/") ≡ initialize_url "http://agent:8080/")
initialize_url_normal_example = initialize_url_normal "http://agent:8080/"
