-- ===== src/Registry.antt =====
-- internal/registry/registry.go: the in-memory registry of MCP agents. A method under the mutex is
-- one step, and the clock is read by the caller and passed in. The ConfigMap is behind `Store`:
-- the write of a snapshot, which may fail, and what a read returns.
pub mod Expiry
pub mod Http
pub mod Restart
pub mod Alive
pub mod Replicas
mod Tests
use Prim.Native.String.{◌++◌ as str_append}
use agentrax.Prelude.{
  ℕ, zero, suc, ℤ, pos, ◌-ℤ◌, leb_ℤ, ltb_ℤ, String, Bool, true, false, not, ◌||◌, Option, none,
  some, List, [], ◌∷◌, ◌==◌, if◌then◌else◌,
}
use agentrax.Dict.{Dict, lookup, insert, delete, keep}
use agentrax.Api.{Duration, Time}

abbrev pub default_ttl_value : Duration
default_ttl_value = pos 90000000000

abbrev pub default_sweep_interval : Duration
default_sweep_interval = pos 30000000000

abbrev pub default_config_map_name : String
default_config_map_name = "agentrax-registry"

pub record Entry : Type 0 where
  pub namespace : String
  pub name : String
  pub endpoint : String
  pub tools : List String
  pub registered_at : Time
  pub heartbeat_at : Time
  pub ttl : Duration

pub data RegistryError : Type 0 where
  missing_fields : RegistryError
  not_found : String → RegistryError
  persist_failed load_failed : String → RegistryError

-- What a read of the ConfigMap comes to: no map or no state in it, a failure, or parsed entries.
pub data Loaded : Type 0 where
  nothing : Loaded
  failed : String → Loaded
  entries_of : Dict Entry → Loaded

-- The Kubernetes client with the JSON codec, as the registry uses them.
pub record Store : Type 0 where
  pub save : Dict Entry → Option String
  pub load : Loaded

pub record Registry : Type 0 where
  pub entries : Dict Entry
  pub client : Option Store
  pub namespace : String
  pub config_map_name : String
  pub default_ttl : Duration
  pub sweep_interval : Duration

unfoldable pub new_registry : Option Store → String → Duration → Registry
new_registry k8s_client namespace default_ttl = record {
  entries = [];
  client = k8s_client;
  namespace = if namespace == "" then "agentrax-system" else namespace;
  config_map_name = default_config_map_name;
  default_ttl = if leb_ℤ default_ttl (pos 0) then default_ttl_value else default_ttl;
  sweep_interval = default_sweep_interval;
}

unfoldable pub set_sweep_interval : Registry → Duration → Registry
set_sweep_interval r interval = record r { sweep_interval = interval }

save_error : Option String → Option RegistryError
save_error none = none
save_error (some e) = some (RegistryError.persist_failed e)

persist_with : Option Store → Dict Entry → Option RegistryError
persist_with none entries = none
persist_with (some store) entries = save_error (store.save entries)

-- `if r.client != nil { return r.persistToConfigMap(ctx) }; return nil`
unfoldable pub persist_to_config_map : Registry → Option RegistryError
unfolding persist_with save_error
persist_to_config_map r = persist_with r.client r.entries

-- The entry's own TTL, or the registry's where it has none.
unfoldable pub ttl_of : Duration → Entry → Duration
ttl_of default e = if leb_ℤ e.ttl (pos 0) then default else e.ttl

-- now.Sub(entry.HeartbeatAt) <= ttl
unfoldable pub is_live : Duration → Time → Entry → Bool
unfolding ttl_of
is_live default now e = leb_ℤ (now -ℤ e.heartbeat_at) (ttl_of default e)

-- The `removed++` of the loop.
removed : (Entry → Bool) → Dict Entry → ℕ
removed live [] = 0
removed live ((k, e) ∷ m) = let rest = removed live m in if live e then rest else suc rest

-- The registry without the entries past their TTL, and how many there were.
unfoldable pub sweep_expired : Registry → Time → Registry × ℕ
unfolding removed
sweep_expired r now =
    let live = is_live r.default_ttl now in
    (record r { entries = keep live r.entries }, removed live r.entries)

after_sweep : Registry → ℕ → Option RegistryError
after_sweep r zero = none
after_sweep r (suc n) = persist_to_config_map r

-- One tick of runSweeper: it writes the ConfigMap if something was removed; a failure is logged.
unfoldable pub sweeper_tick : Registry → Time → Registry × Option RegistryError
unfolding after_sweep
sweeper_tick r now = let (r', n) = sweep_expired r now in (r', after_sweep r' n)

unfoldable pub key : String → String → String
key namespace name = str_append namespace (str_append "/" name)

registered_at_of : Option Entry → Time → Time
registered_at_of none now = now
registered_at_of (some existing) now = existing.registered_at

stamp : Registry → Time → Entry → Entry
stamp r now e = record e {
  registered_at = registered_at_of (lookup (key e.namespace e.name) r.entries) now;
  heartbeat_at = now;
  ttl = if leb_ℤ e.ttl (pos 0) then r.default_ttl else e.ttl;
}

unfoldable pub register : Registry → Time → Entry → Registry × Option RegistryError
unfolding stamp registered_at_of
register r now e =
    let r' = record r { entries = insert (key e.namespace e.name) (stamp r now e) r.entries } in
    if e.namespace == "" || e.name == "" || e.endpoint == ""
    then (r, some missing_fields)
    else (r', persist_to_config_map r')

deregister_found : Registry → String → Option Entry → Registry × Option RegistryError
deregister_found r k none = (r, none)
deregister_found r k (some e) =
    let r' = record r { entries = delete k r.entries } in (r', persist_to_config_map r')

unfoldable pub deregister : Registry → String → String → Registry × Option RegistryError
unfolding deregister_found
deregister r namespace name =
    let k = key namespace name in deregister_found r k (lookup k r.entries)

heartbeat_found : Registry → Time → String → Option Entry → Registry × Option RegistryError
heartbeat_found r now k none = (r, some (not_found k))
heartbeat_found r now k (some e) =
    (record r { entries = insert k (record e { heartbeat_at = now }) r.entries }, none)

unfoldable pub heartbeat : Registry → Time → String → String → Registry × Option RegistryError
unfolding heartbeat_found
heartbeat r now namespace name =
    let k = key namespace name in heartbeat_found r now k (lookup k r.entries)

get_found : Registry → Time → Option Entry → Option Entry
get_found r now none = none
get_found r now (some e) = if is_live r.default_ttl now e then some e else none

unfoldable pub get : Registry → Time → String → String → Option Entry
unfolding get_found
get r now namespace name = get_found r now (lookup (key namespace name) r.entries)

values : Dict Entry → List Entry
values [] = []
values ((k, e) ∷ m) = e ∷ values m

unfoldable pub list : Registry → Time → List Entry
unfolding values
list r now = values (keep (is_live r.default_ttl now) r.entries)

-- for k, v := range loaded { r.entries[k] = v }
pub insert_all : Dict Entry → Dict Entry → Dict Entry
insert_all [] m = m
insert_all ((k, e) ∷ loaded) m = insert_all loaded (insert k e m)

load_from : Registry → Loaded → Registry × Option RegistryError
load_from r nothing = (r, none)
load_from r (failed e) = (r, some (load_failed e))
load_from r (entries_of loaded) = (record r { entries = insert_all loaded r.entries }, none)

start_with : Registry → Option Store → Registry
start_with r none = r
start_with r (some store) = (load_from r store.load).0

unfoldable pub load_from_config_map : Registry → Store → Registry × Option RegistryError
unfolding load_from insert_all
load_from_config_map r store = load_from r store.load

-- Start, up to the sweeper: a failed load is only logged.
unfoldable pub start : Registry → Registry
unfolding start_with load_from insert_all
start r = start_with r r.client
