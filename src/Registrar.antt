-- ===== src/Registrar.antt =====
-- internal/registry/mcp_registrar.go: handshakes with an agent, and its life in the registry. The
-- handshake is an HTTP call: `Probe` is what MCPClient.Initialize answers at an endpoint.
pub mod Tools
pub mod Strikes
pub mod Refreshes
pub mod Mcp
mod Tests
use Prim.Native.String.{◌++◌ as str_append}
use agentrax.Prelude.{
  ℤ, pos, leb_ℤ, eqb_ℤ, add64, decimal, contains, String, Bool, Option, none, some, List, [], ◌∷◌,
  ◌++◌, ◌==◌, if◌then◌else◌,
}
use agentrax.Dict.{Dict, lookup, insert, delete}
use agentrax.Api.{Time, AgentDeployment}
use agentrax.Registry
use agentrax.Registry.{Registry, RegistryError, Entry, not_found, key}

abbrev pub max_consecutive_heartbeat_failures : ℤ
max_consecutive_heartbeat_failures = pos 3

pub data Probe : Type 0 where
  advertised : List String → Probe
  unreachable : String → Probe

pub data RegistrarError : Type 0 where
  not_initialized : RegistrarError
  handshake_failed : String → RegistrarError
  storing : RegistryError → RegistrarError
  deregistering : RegistryError → RegistrarError
  -- ErrHeartbeatDeregistered
  heartbeat_deregistered : ℤ → RegistrarError
  probe_failed : ℤ → RegistrarError
  -- an error of the registry that is passed on as it is
  registry_error : RegistryError → RegistrarError

pub record Registrar : Type 0 where
  pub registry : Option Registry
  pub failures : Dict ℤ

unfoldable pub new_registrar : Option Registry → Registrar
new_registrar reg = record { registry = reg; failures = [] }

unfoldable pub endpoint_for_agent : AgentDeployment → String
endpoint_for_agent ad =
    let port = if eqb_ℤ ad.spec.port (pos 0) then pos 8080 else ad.spec.port in
    str_append "http://" (
      str_append ad.name
        (str_append "." (str_append ad.namespace (str_append ".svc:" (decimal port)))))

-- The second loop: declared tools that were not seen are appended and marked as seen.
pub combine : List String → List String → List String → List String
combine tools seen [] = tools
combine tools seen (t ∷ declared) =
    combine (if contains t seen then tools else tools ++ t ∷ []) (t ∷ seen) declared

-- `seen` starts as the advertised tools. An empty list of declared tools changes nothing.
unfoldable pub merge_tools : List String → List String → List String
unfolding combine
merge_tools tools declared = combine tools tools declared

count_of : Option ℤ → ℤ
count_of none = pos 0
count_of (some n) = n

-- The failures, and the new count of the key.
unfoldable pub increment_failures : Registrar → String → String → Registrar × ℤ
unfolding count_of
increment_failures g namespace name =
    let k = key namespace name in
    let n = add64 (count_of (lookup k g.failures)) (pos 1) in
    (record g { failures = insert k n g.failures }, n)

unfoldable pub reset_failures : Registrar → String → String → Registrar
reset_failures g namespace name = record g { failures = delete (key namespace name) g.failures }

registered_or :
    Registrar
    → AgentDeployment
    → Registry × Option RegistryError
    → Registrar × Option RegistrarError
registered_or g ad (r, some e) = (record g { registry = some r }, some (storing e))
registered_or g ad (r, none) =
    (reset_failures (record g { registry = some r }) ad.namespace ad.name, none)

register_probed :
    Registrar → Registry → Time → AgentDeployment → Probe → Registrar × Option RegistrarError
register_probed g r now ad (unreachable reason) = (g, some (handshake_failed reason))
register_probed g r now ad (advertised tools) = registered_or g ad (
    Registry.register r now (record {
      namespace = ad.namespace;
      name = ad.name;
      endpoint = endpoint_for_agent ad;
      tools = merge_tools tools ad.spec.mcp.tools;
      registered_at = pos 0;
      heartbeat_at = pos 0;
      ttl = pos 0;
    }))

register_in :
    Registrar
    → Option Registry
    → Time
    → (String → Probe)
    → AgentDeployment
    → Registrar × Option RegistrarError
register_in g none now initialize ad = (g, some not_initialized)
register_in g (some r) now initialize ad =
    register_probed g r now ad (initialize (endpoint_for_agent ad))

unfoldable pub register :
    Registrar → Time → (String → Probe) → AgentDeployment → Registrar × Option RegistrarError
unfolding register_in register_probed registered_or
register g now initialize ad = register_in g g.registry now initialize ad

passed_on : Option RegistryError → Option RegistrarError
passed_on none = none
passed_on (some e) = some (registry_error e)

deregister_in : Registrar → Option Registry → AgentDeployment → Registrar × Option RegistrarError
deregister_in g none ad = (g, none)
deregister_in g (some r) ad =
    let g' = reset_failures g ad.namespace ad.name in
    let (r', error) = Registry.deregister r ad.namespace ad.name in
    (record g' { registry = some r' }, passed_on error)

unfoldable pub deregister : Registrar → AgentDeployment → Registrar × Option RegistrarError
unfolding deregister_in passed_on
deregister g ad = deregister_in g g.registry ad

third_strike : Registrar → ℤ → Registry × Option RegistryError → Registrar × Option RegistrarError
third_strike g n (r, none) = (record g { registry = some r }, some (heartbeat_deregistered n))
third_strike g n (r, some e) = (record g { registry = some r }, some (deregistering e))

-- A failed probe: the third in a row deregisters.
strike : Registrar → Registry → AgentDeployment → Registrar × Option RegistrarError
strike g r ad =
    let (g', n) = increment_failures g ad.namespace ad.name in
    if leb_ℤ max_consecutive_heartbeat_failures n
    then third_strike g' n (Registry.deregister r ad.namespace ad.name)
    else (g', some (probe_failed n))

-- Only "not found in registry" leads to a new registration.
refreshed :
    Registrar
    → Time
    → (String → Probe)
    → AgentDeployment
    → Registry × Option RegistryError
    → Registrar × Option RegistrarError
refreshed g now again ad (r, none) = (record g { registry = some r }, none)
refreshed g now again ad (r, some (not_found k)) =
    register (record g { registry = some r }) now again ad
refreshed g now again ad (r, some e) = (record g { registry = some r }, some (registry_error e))

heartbeat_probed :
    Registrar
    → Registry
    → Time
    → Probe
    → (String → Probe)
    → AgentDeployment
    → Registrar × Option RegistrarError
heartbeat_probed g r now (unreachable reason) again ad = strike g r ad
heartbeat_probed g r now (advertised tools) again ad =
    refreshed (reset_failures g ad.namespace ad.name) now again ad
      (Registry.heartbeat r now ad.namespace ad.name)

heartbeat_in :
    Registrar
    → Option Registry
    → Time
    → (String → Probe)
    → (String → Probe)
    → AgentDeployment
    → Registrar × Option RegistrarError
heartbeat_in g none now initialize again ad = (g, none)
heartbeat_in g (some r) now initialize again ad =
    heartbeat_probed g r now (initialize (endpoint_for_agent ad)) again ad

-- `again` answers the second handshake, which a new registration makes.
unfoldable pub heartbeat :
    Registrar
    → Time
    → (String → Probe)
    → (String → Probe)
    → AgentDeployment
    → Registrar × Option RegistrarError
unfolding heartbeat_in heartbeat_probed strike third_strike refreshed
heartbeat g now initialize again ad = heartbeat_in g g.registry now initialize again ad
