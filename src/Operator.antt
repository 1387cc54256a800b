-- ===== src/Operator.antt =====
-- cmd/main.go: how the flags and the environment of the process become the operator, and in which
-- order it is put together. The manager is a library: `Host` is whether each of its calls succeeds.
-- Left out are the logging, the tracing and metrics servers, TLS and the health checks' handlers.
pub mod Timing
mod Tests
use agentrax.Prelude.{
  ℕ, ◌/◌, ℤ, pos, ltb_ℤ, leb_ℤ, pos_part, String, ◌==◌, Bool, true, false, not, ◌&&◌, ◌||◌, Option,
  none, some, if◌then◌else◌,
}
use agentrax.Api.{Quantity, Duration, AgentDeployment}
use agentrax.Quota.{Enforcer, new_enforcer}
use agentrax.Registry
use agentrax.Registry.{Registry, Store, default_ttl_value, new_registry}
use agentrax.Registrar.{Registrar, new_registrar}
use agentrax.Metrics.{Client, new_client}
use agentrax.Rollout.Cluster.{History}
use agentrax.Rollout.Canary.{Controller}
use agentrax.Controller.Registration.{AgentRegistrar}
use agentrax.Controller.Agents.{Reconciler}
use agentrax.Controller.Crd.{CrdReply, CrdCheck, present, check_failed, service_monitor_crd_exists}

-- The flags that reach the modelled parts.
pub record Flags : Type 0 where
  pub gpu_resource_name : String
  pub prometheus_url : String
  pub gateway_name : String
  pub gateway_namespace : String
  pub registry_addr : String

-- os.Getenv, "" for a variable that is not set, and whether the webhook's certificate is there.
pub record Environment : Type 0 where
  pub enable_webhooks : String
  pub pod_namespace : String
  pub registry_ttl : String
  pub mcp_health_interval : String
  pub has_certificate : Bool

abbrev pub one_second : Duration
one_second = pos 1000000000

abbrev pub default_health_interval : Duration
default_health_interval = pos 60000000000

abbrev pub fail_safe_timeout : Duration
fail_safe_timeout = pos 60000000000

unfoldable pub webhooks_enabled : Environment → Bool
webhooks_enabled env =
    not (env.enable_webhooks == "false") && (env.has_certificate || env.enable_webhooks == "true")

unfoldable pub registry_namespace : Environment → String
registry_namespace env = if env.pod_namespace == "" then "agentrax-system" else env.pod_namespace

at_least_a_second : Duration → Option Duration → Duration
at_least_a_second default none = default
at_least_a_second default (some parsed) = if ltb_ℤ parsed one_second then default else parsed

-- time.Duration / 2, towards zero; what is halved is a TTL, which is positive.
half : Duration → Duration
half d = pos (pos_part d / 2)

module _ (parse_duration : String → Option Duration) where
  -- A duration of the environment: one that does not parse or is below a second is ignored.
  unfoldable pub configured : Duration → String → Duration
  unfolding at_least_a_second
  configured default text =
      if text == "" then default else at_least_a_second default (parse_duration text)

  unfoldable pub configured_ttl : Environment → Duration
  configured_ttl env = configured default_ttl_value env.registry_ttl

  -- An interval that is not below the TTL is replaced by half of the TTL.
  unfoldable pub configured_interval : Environment → Duration
  unfolding half
  configured_interval env =
      let ttl = configured_ttl env in
      let interval = configured default_health_interval env.mcp_health_interval in
      if leb_ℤ ttl interval then half ttl else interval

-- The canary's controller, and its client of Prometheus; there are none without a URL.
unfoldable pub canary_controller :
    Flags → (History → AgentDeployment → Bool) → Option (Controller × Client)
canary_controller flags register =
    if flags.prometheus_url == ""
    then none
    else some (
      record {
        gateway_name = flags.gateway_name;
        gateway_namespace = flags.gateway_namespace;
        fail_safe_timeout = fail_safe_timeout;
        register = some register;
      },
      new_client flags.prometheus_url,
    )

unfoldable pub is_served : Flags → Bool
is_served flags = not (flags.registry_addr == "") && not (flags.registry_addr == "0")

-- registryServerRunnable.Start, before it listens: the registry loads the ConfigMap and sweeps.
unfoldable pub run_server : Registry → Registry
run_server r = Registry.start r

-- Whether each call of the manager succeeds.
pub record Host : Type 0 where
  pub traced : Bool
  pub managed : Bool
  pub added : Bool
  pub crd : CrdReply
  pub agents_set_up : Bool
  pub quotas_set_up : Bool
  pub webhook_set_up : Bool
  pub healthy : Bool
  pub ready : Bool

-- What is put together. The registry's ConfigMap, the value of quantities and the interface of the
-- registrar are the libraries' and the registrar's own.
pub record Parts : Type 0 where
  pub enforcer : Enforcer
  pub registry : Registry
  pub registrar : Registrar
  pub reconciler : Reconciler
  pub prometheus : Option Client
  pub has_webhook : Bool
  pub serves : Bool

-- The message with which the process exits, or the parts when the manager is started.
pub data Startup : Type 0 where
  exits : String → Startup
  starts : Parts → Startup

unless : Bool → String → Startup → Startup
unless ok message next = if ok then next else exits message

only_controller : Option (Controller × Client) → Option Controller
only_controller none = none
only_controller (some (c, client)) = some c

only_client : Option (Controller × Client) → Option Client
only_client none = none
only_client (some (c, client)) = some client

module _ (parse_duration : String → Option Duration) (quantity_value : Quantity → ℤ) (store : Store)
    (mcp : AgentRegistrar) (host : Host) (flags : Flags) (env : Environment) where
  parts : Bool → Parts
  unfolding only_controller only_client
  parts has_crd =
      let ttl = configured_ttl parse_duration env in
      let registry = new_registry (some store) (registry_namespace env) ttl in
      let canary = canary_controller flags mcp.register in
      record {
        enforcer = new_enforcer quantity_value flags.gpu_resource_name;
        registry = registry;
        registrar = new_registrar (some registry);
        reconciler = record {
          canary_controller = only_controller canary;
          registrar = some mcp;
          mcp_health_interval = configured_interval parse_duration env;
          has_service_monitor_crd = has_crd;
        };
        prometheus = only_client canary;
        has_webhook = webhooks_enabled env;
        serves = is_served flags;
      }

  -- From the agents' SetupWithManager, which checks the CRD, to the start of the manager.
  set_up : CrdCheck → Startup
  unfolding parts unless
  set_up (check_failed message) = exits "unable to create controller"
  set_up (present has_crd) = unless host.agents_set_up "unable to create controller" (
      unless host.quotas_set_up "unable to create controller" (
        unless (not (webhooks_enabled env) || host.webhook_set_up) "unable to register webhook" (
          unless host.healthy "unable to set up health check"
            (unless host.ready "unable to set up ready check" (starts (parts has_crd))))))

  unfoldable pub main : Startup
  unfolding set_up unless
  main = unless host.traced "unable to initialize OpenTelemetry TracerProvider" (
      unless host.managed "unable to start manager" (
        unless (not (is_served flags) || host.added) "unable to add registry server to manager"
          (set_up (service_monitor_crd_exists host.crd))))
