-- ===== src/Registry/Http.antt =====
-- The HTTP handlers of registry.go. The mux has already chosen the handler and cut the path; a
-- body that is no entry is decoded to `none`.
use agentrax.Prelude.{
  ℕ, String, ◌≡◌, ◌≢◌, refl, false, ◌||◌, Option, none, some, List, ◌==◌, eq_refl, if◌then◌else◌,
}
use agentrax.Dict.{Dict, lookup, lookup-insert}
use agentrax.Api.{Time}
use agentrax.Registry.{
  Registry, Entry, Store, RegistryError, key, register, deregister, get, list,
  persist_to_config_map,
}

pub data Request : Type 0 where
  list_agents : Request
  post_agent : Option Entry → Request
  get_agent delete_agent : String → String → Request

pub data Response : Type 0 where
  invalid_body : Response
  registration_failed deregistration_failed : RegistryError → Response
  registered deregistered path_required agent_not_found : Response
  agents : List Entry → Response
  agent : Entry → Response

-- The HTTP status.
unfoldable pub status : Response → ℕ
status invalid_body = 400
status (registration_failed e) = 400
status (deregistration_failed e) = 500
status registered = 200
status deregistered = 200
status path_required = 400
status agent_not_found = 404
status (agents es) = 200
status (agent e) = 200

registered_or : Registry × Option RegistryError → Registry × Response
registered_or (r, none) = (r, registered)
registered_or (r, some e) = (r, registration_failed e)

unfoldable pub handle_register : Registry → Time → Option Entry → Registry × Response
unfolding registered_or
handle_register r now none = (r, invalid_body)
handle_register r now (some entry) = registered_or (register r now entry)

deregistered_or : Registry × Option RegistryError → Registry × Response
deregistered_or (r, none) = (r, deregistered)
deregistered_or (r, some e) = (r, deregistration_failed e)

unfoldable pub handle_deregister_agent_path : Registry → String → String → Registry × Response
unfolding deregistered_or
handle_deregister_agent_path r namespace name =
    if namespace == "" || name == ""
    then (r, path_required)
    else deregistered_or (deregister r namespace name)

found_or : Option Entry → Response
found_or none = agent_not_found
found_or (some e) = agent e

unfoldable pub handle_get_agent : Registry → Time → String → String → Response
unfolding found_or
handle_get_agent r now namespace name =
    if namespace == "" || name == "" then path_required else found_or (get r now namespace name)

unfoldable pub handle_list_agents : Registry → Time → Response
handle_list_agents r now = agents (list r now)

unfoldable pub handle : Registry → Time → Request → Registry × Response
handle r now list_agents = (r, handle_list_agents r now)
handle r now (post_agent body) = handle_register r now body
handle r now (get_agent namespace name) = (r, handle_get_agent r now namespace name)
handle r now (delete_agent namespace name) = handle_deregister_agent_path r namespace name

-- A registration whose write to the ConfigMap fails is answered with a client error, status 400,
-- and the agent is registered all the same.
pub failed_write_registers :
    (r : Registry) (now : Time) (e : Entry) (store : Store) (reason : String)
    → (e.namespace == "" || e.name == "" || e.endpoint == "") ≡ false
    → r.client ≡ some store
    → ((entries : Dict Entry) → store.save entries ≡ some reason)
    → let (r', response) = handle r now (post_agent (some e)) in
      (status response ≡ 400) × (lookup (key e.namespace e.name) r'.entries ≢ none)
unfolding handle handle_register register persist_to_config_map status
failed_write_registers r now e store reason fields client fails =
    rw (fields, client, register, registered_or)
      (rw fails (
        refl,
        rw (fields, register) (rw (lookup-insert, eq_refl (key e.namespace e.name)) (λ h. cc)),
      ))
