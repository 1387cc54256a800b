-- ===== src/Rollout/Cluster.antt =====
-- The API server as the rollout and the reconcilers see it. The client and controllerutil are
-- libraries: `Api` is any way to answer their calls from what has been called so far, so that the
-- answers range over every failure and every concurrent writer. The calls are recorded, newest first.
pub mod Runs
pub mod Success
pub mod Traces
pub mod Owned
pub mod Stored
use agentrax.Prelude.{ℤ, String, Bool, true, false, Option, none, some, List, [], ◌∷◌}
use agentrax.Dict.{Dict}
use agentrax.Api.{
  AgentDeployment, AgentDeploymentStatus, TenantQuota, TenantQuotaStatus, Condition, ConditionType,
}
use agentrax.Api.Objects.{ServiceMonitor, Pod}
use agentrax.Scaling.{Hpa}
use agentrax.Rollout.Objects.{Deployment, Service, HttpRoute, RouteSpec}

pub data Kind : Type 0 where
  agents deployments services routes autoscalers tenant_quotas service_monitors pods : Kind

pub data Answer : Type 0 where
  done not_found failed : Answer

-- A call and how it ended.
pub data Call : Type 0 where
  read delete_call : Kind → String → String → Answer → Call
  write_status : AgentDeployment → Answer → Call
  write_deployment : Deployment → Answer → Call
  write_service : Service → Answer → Call
  write_route : HttpRoute → Answer → Call
  write_hpa : Hpa → Answer → Call
  write_agent : AgentDeployment → Answer → Call
  write_service_monitor : ServiceMonitor → Answer → Call
  write_tenant_status : TenantQuota → Answer → Call
  list_call : Kind → String → Bool → Call
  register_call deregister_call heartbeat_call : AgentDeployment → Bool → Call

abbrev pub History : Type 0
History = List Call

-- What a read or a status write gives back: an object, or nothing with the kind of the error.
pub data Reply (A : Type 0) : Type 0 where
  object : A → Reply A
  missing broken : Reply A

pub record Api : Type 0 where
  pub agent : History → String → String → Reply AgentDeployment
  pub deployment : History → String → String → Reply Deployment
  pub route : History → String → String → Reply HttpRoute
  pub hpa : History → String → String → Reply Hpa
  pub service : History → String → String → Reply Service
  pub tenant_quota : History → String → String → Reply TenantQuota
  -- List, of the agents of a namespace and of its pods that carry the labels
  pub agent_list : History → String → Option (List AgentDeployment)
  pub pod_list : History → String → Dict String → Option (List Pod)
  -- Status().Update, which decodes the stored object into its argument
  pub update_status : History → AgentDeployment → Reply AgentDeployment
  pub store : History → Kind → Answer
  pub delete : History → Kind → String → String → Answer
  -- what CreateOrUpdate hands to its callback: the stored object, or else one of that name
  pub deployment_to_mutate : History → String → String → Reply Deployment
  pub service_to_mutate : History → String → String → Reply Service
  pub hpa_to_mutate : History → String → String → Reply Hpa
  pub service_monitor_to_mutate : History → String → String → Reply ServiceMonitor
  -- SetControllerReference
  pub set_owner : History → AgentDeployment → Bool
  -- equality.Semantic.DeepEqual
  pub same_route : RouteSpec → RouteSpec → Bool
  pub same_status : AgentDeploymentStatus → AgentDeploymentStatus → Bool
  pub same_tenant_status : TenantQuotaStatus → TenantQuotaStatus → Bool
  -- apimeta.SetStatusCondition and RemoveStatusCondition
  pub set_condition : Condition → List Condition → List Condition
  pub remove_condition : ConditionType → List Condition → List Condition
  -- controllerutil.ContainsFinalizer, AddFinalizer and RemoveFinalizer, for the operator's finalizer
  pub has_finalizer : AgentDeployment → Bool
  pub add_finalizer : AgentDeployment → AgentDeployment
  pub remove_finalizer : AgentDeployment → AgentDeployment

-- What fails is named by the innermost message of the source's error; a nil dereference or a
-- division by zero panics.
pub data Result (A : Type 0) : Type 0 where
  ok : A → Result A
  error : String → Result A
  panic : Result A

abbrev pub Exec : Type 0 → Type 0
Exec A = Api → History → Result A × History

module _ {A : Type 0} where
  unfoldable pub pure : A → Exec A
  pure a api h = (ok a, h)

  unfoldable pub fail : String → Exec A
  fail message api h = (error message, h)

  unfoldable pub crash : Exec A
  crash api h = (panic, h)

module _ {A B : Type 0} where
  unfoldable pub continue : Result A → (A → Exec B) → Exec B
  continue (ok a) f api h = f a api h
  continue (error e) f api h = (error e, h)
  continue panic f api h = (panic, h)

  infixl 10 ◌>>=◌ ◌>>◌
  unfoldable pub ◌>>=◌ : Exec A → (A → Exec B) → Exec B
  unfolding continue pure fail crash
  ◌>>=◌ m f api h = let (r, h') = m api h in continue r f api h'

  abbrev pub ◌>>◌ : Exec A → Exec B → Exec B
  m >> n = m >>= λ _. n

unfoldable pub answer_of : {A : Type 0} → Reply A → Answer
answer_of (object a) = done
answer_of missing = not_found
answer_of broken = failed

-- A read that goes on with the reply, whatever it is.
unfoldable pub get :
    {A : Type 0}
    → Kind
    → (Api → History → String → String → Reply A)
    → String
    → String
    → Exec (Reply A)
unfolding answer_of
get k from namespace name api h =
    let reply = from api h namespace name in (ok reply, read k namespace name (answer_of reply) ∷ h)

unfoldable pub delete : Kind → String → String → Exec Answer
delete k namespace name api h =
    let a = api.delete h k namespace name in (ok a, delete_call k namespace name a ∷ h)

-- Create and Update: `call` records the object.
unfoldable pub store : Kind → (Answer → Call) → Exec Answer
store k call api h = let a = api.store h k in (ok a, call a ∷ h)

unfoldable pub update_status : AgentDeployment → Exec (Reply AgentDeployment)
unfolding answer_of
update_status ad api h =
    let reply = api.update_status h ad in (ok reply, write_status ad (answer_of reply) ∷ h)

unfoldable pub asks : {A : Type 0} → (Api → History → A) → Exec A
asks f api h = (ok (f api h), h)

-- The object, or an error in either other case.
unfoldable pub need : {A : Type 0} → String → Reply A → Exec A
unfolding pure fail
need message (object a) = pure a
need message missing = fail message
need message broken = fail message

unfoldable pub must : String → Answer → Exec (Unit {0})
unfolding pure fail
must message done = pure tt
must message not_found = fail message
must message failed = fail message

unfoldable pub require : String → Bool → Exec (Unit {0})
unfolding pure fail
require message true = pure tt
require message false = fail message

listed : {A : Type 0} → Option (List A) → Bool
listed none = false
listed (some items) = true

unfoldable pub list_items :
    {A : Type 0}
    → Kind
    → (Api → History → String → Option (List A))
    → String
    → Exec (Option (List A))
unfolding listed
list_items k from namespace api h =
    let items = from api h namespace in (ok items, list_call k namespace (listed items) ∷ h)

unfoldable pub need_list : {A : Type 0} → String → Option (List A) → Exec (List A)
unfolding pure fail
need_list message (some items) = pure items
need_list message none = fail message
