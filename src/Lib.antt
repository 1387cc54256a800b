-- ===== src/Lib.antt =====
-- Agentrax, a Kubernetes operator that runs AI agents for tenants with quotas. An AgentDeployment
-- describes an agent and a TenantQuota what its tenant may use. The admission webhook checks an
-- AgentDeployment and reserves its use in the quota enforcer until the controller has counted it;
-- the controller gives each agent an autoscaler that the tenant's headroom bounds, ships new images
-- by canary rollouts, and registers agents in an in-memory registry of MCP servers.
--
-- The files and what they model:
--   Prelude, Dict   machine integers, Boolean tests, texts and Go maps with string keys
--   Api             api/v1alpha1: the custom resources; Api/ErrorRate: ParseErrorRate
--   Quota           internal/quota/enforcer.go, one function for each method of the Enforcer;
--                   Quota/Verdicts has the rules of a quota
--   Scaling         internal/scaling/autoscaler.go: BuildHPA, QuotaHeadroom and their helpers
--   Registry        internal/registry/registry.go; Registry/Http has its HTTP handlers
--   Registrar       internal/registry/mcp_registrar.go: Register, Deregister, Heartbeat;
--                   Registrar/Mcp is mcp_client.go: Initialize
--   Webhook         internal/webhook/agentdeployment_webhook.go: Default and the three validations;
--                   Webhook/Fields has the rules for canaries and tools
--   Metrics         internal/metrics/prometheus.go: QueryScalar and QueryRange
--   Rollout         internal/rollout: Query and Evaluate model promql.go; Objects, Resources,
--                   Canary and Step model canary.go over the API server of Cluster
--   Controller      internal/controller: Tenants is the TenantQuota reconciler, Events the enqueue
--                   handlers; Agents is AgentDeploymentReconciler.Reconcile, over Objects (what it
--                   wants to exist), Children (Deployment, Service, ServiceMonitor, HPA), Status
--                   (updateStatus) and Registration (reconcileMCPRegistration); Crd is crd_check.go;
--                   Tenants/System has the steps of the webhook, of the store of agents and of the
--                   TenantQuota reconciler in one relation, and Tenants/Ledger the view of it in
--                   which a reconciliation is one event
--   Operator        cmd/main.go: the flags and the environment, what is put together, and in which
--                   order; Operator/Timing relates its intervals to the registry's expiry
--   Samples         concrete objects for the tests
--
-- A function of the model has the name of the Go function in lower case with underscores
-- (admit_and_reserve for AdmitAndReserve). A method that changes its receiver takes the state and
-- returns the state after it. A method under a mutex is one step; Quota/Safety puts such steps in
-- any order. An int32 or int64 is an integer whose arithmetic wraps where the source computes in
-- that width (add32, sub32, add64); time.Time and time.Duration are nanoseconds, and the clock is an
-- argument. A text that only a reader of an error sees is left out of the error. The code of
-- libraries is a parameter: resource.Quantity.Value and float64 (Api/ErrorRate.Float, with
-- strconv.ParseFloat), the ConfigMap client (Registry.Store), HTTP and JSON of the two clients
-- (Metrics.Codec, Registrar.Mcp.Wire), the webhook's read of the TenantQuota (Webhook.QuotaLookup),
-- the AgentRegistrar of the reconciler, strconv.Quote and the API server. The registrar and the
-- rollout take the answers of their client as a parameter, which Initialize and QueryScalar fill.
-- The API server (Rollout.Cluster.Api) answers each call by any function of the calls before it, so
-- that its answers range over every failure and every concurrent writer; a run records its calls.
-- CreateOrUpdate is a read of the object that it hands to its callback, the callback, and one write.
-- Rollout/Cluster/Traces has what a run may call, and the modules named Owned apply it to the calls
-- that concern one agent, from the canary's resources up to Reconcile.
-- Rollout/Cluster/Stored is a server that works and keeps the statuses that are written; over it the
-- modules named Settled follow the stored agent through Step, up to Controller/Agents/Termination.
-- What Registrar.Register answers a promotion is a parameter of Rollout.Canary.Controller.
--
-- Loops over lists and maps are structural recursion, so no fuel is needed but for the decimal
-- digits of a number, where 20 digits are more than an int64 has (Prelude/Text/Digits reads them
-- back).
--
-- The registry is one process's memory: Registry/Alive runs its heartbeats and sweeps in any order,
-- and Registry/Replicas puts a second replica with the same ConfigMap beside it.
--
-- Not modelled: in cmd/main.go the servers of metrics, tracing and health checks, TLS and the
-- registration of schemes; the timeouts of the HTTP clients; the metrics, tracing and logging of
-- internal/observability; the generated deep copies; and SetupWithManager of the reconcilers, which
-- registers watches.
pub mod Prelude
pub mod Dict
pub mod Api
pub mod Quota
pub mod Scaling
pub mod Registry
pub mod Registrar
pub mod Webhook
pub mod Metrics
pub mod Rollout
pub mod Controller
pub mod Operator
pub mod Samples
