-- ===== src/Rollout/Cluster/Stored.antt =====
-- An API server that works and that keeps the status of one agent: what is written is what is read.
use agentrax.Prelude.{String, ◌≡◌, refl, sym, ap, ◌∙◌, Bool, true, false, [], ◌∷◌, if◌then◌else◌}
use agentrax.Api.{AgentDeployment}
use agentrax.Rollout.Objects.{Deployment}
use agentrax.Rollout.Cluster.{
  Kind, agents, deployments, Answer, done, Call, History, read, write_status, Reply, object, Api,
  ok, Exec, pure, continue, ◌>>=◌, get, store, update_status, asks, need, must, require, answer_of,
}
use agentrax.Rollout.Cluster.Success.{IsObject, IsAvailable}

-- The agent with the status that was written last.
abbrev pub stored : AgentDeployment → History → AgentDeployment
stored first [] = first
stored first (write_status ad done ∷ h) = ad
stored first (c ∷ h) = stored first h

-- The server keeps the agent, and has its stable Deployment.
pub record IsStoring (api : Api) (first : AgentDeployment) : Type 0 where
  pub available : IsAvailable api
  pub agent :
      (h : History)
      → api.agent h (stored first h).namespace (stored first h).name ≡ object (stored first h)
  pub update_status : (h : History) (ad : AgentDeployment) → api.update_status h ad ≡ object ad
  pub stable :
      (h : History) → IsObject (api.deployment h (stored first h).namespace (stored first h).name)
  pub deployment_to_mutate :
      (h : History) (namespace name : String) → IsObject (api.deployment_to_mutate h namespace name)
  pub service_to_mutate :
      (h : History) (namespace name : String) → IsObject (api.service_to_mutate h namespace name)

module _ (api : Api) (first : AgentDeployment) where
  -- The run succeeds, and leaves the stored agent as it was.
  abbrev pub Settles : {A : Type 0} → (A → Type 0) → Exec A → Type 0
  Settles {A} P m =
      (h : History)
      → (a : A) × (h' : History) × (m api h ≡ (ok a, h')) × P a × (stored first h' ≡ stored first h)

  -- Begun when `ad` is stored, the run succeeds with a result and a stored agent of which `Q` holds.
  abbrev pub Ends :
      AgentDeployment → {A : Type 0} → (A → AgentDeployment → Type 0) → Exec A → Type 0
  Ends ad {A} Q m =
      (h : History)
      → stored first h ≡ ad
      → (a : A) × (h' : History) × (m api h ≡ (ok a, h')) × Q a (stored first h')

  module _ {A B : Type 0} (P : A → Type 0) where
    pub Settles-bind :
        (Q : B → Type 0) (m : Exec A) (f : A → Exec B)
        → Settles P m
        → ((a : A) → P a → Settles Q (f a))
        → Settles Q (m >>= f)
    unfolding ◌>>=◌ continue
    Settles-bind Q m f km kf h =
        let (a, h1, e, p, s) = km h in
        let (b, h2, e', q, s') = kf a p h1 in
        (b, h2, ap (λ x. continue x.0 f api x.1) e ∙ e', q, s' ∙ s)

    pub Ends-settled :
        (ad : AgentDeployment) (Q : B → AgentDeployment → Type 0) (m : Exec A) (f : A → Exec B)
        → Settles P m
        → ((a : A) → P a → Ends ad Q (f a))
        → Ends ad Q (m >>= f)
    unfolding ◌>>=◌ continue
    Ends-settled ad Q m f km kf h is =
        let (a, h1, e, p, s) = km h in
        let (b, h2, e', q) = kf a p h1 (s ∙ is) in
        (b, h2, ap (λ x. continue x.0 f api x.1) e ∙ e', q)

  pub Ends-bind :
      {A B : Type 0} (ad : AgentDeployment) (P : A → AgentDeployment → Type 0)
      (Q : B → AgentDeployment → Type 0) (m : Exec A) (f : A → Exec B)
      → Ends ad P m
      → ((a : A) (next : AgentDeployment) → P a next → Ends next Q (f a))
      → Ends ad Q (m >>= f)
  unfolding ◌>>=◌ continue
  Ends-bind ad P Q m f km kf h is =
      let (a, h1, e, p) = km h is in
      let (b, h2, e', q) = kf a (stored first h1) p h1 refl in
      (b, h2, ap (λ x. continue x.0 f api x.1) e ∙ e', q)

  pub Ends-mono :
      {A : Type 0} (ad : AgentDeployment) (P Q : A → AgentDeployment → Type 0) (m : Exec A)
      → ((a : A) (next : AgentDeployment) → P a next → Q a next)
      → Ends ad P m
      → Ends ad Q m
  Ends-mono ad P Q m f km h is =
      let (a, h', run, p) = km h is in (a, h', run, f a (stored first h') p)

  -- The run gives the stored agent back.
  pub Ends-given :
      {B : Type 0} (ad : AgentDeployment) (P : AgentDeployment → Type 0)
      (Q : B → AgentDeployment → Type 0) (m : Exec AgentDeployment) (f : AgentDeployment → Exec B)
      → Ends ad (λ a next. (a ≡ next) × P next) m
      → ((a : AgentDeployment) → P a → Ends a Q (f a))
      → Ends ad Q (m >>= f)
  Ends-given ad P Q m f km kf =
      Ends-bind ad (λ a next. (a ≡ next) × P next) Q m f km
        (λ a next p h is. kf a (rw p.0 p.1) h (is ∙ sym p.0))

  -- The run has left the stored agent as it was.
  pub Ends-quiet :
      {A B : Type 0} (ad : AgentDeployment) (Q : B → AgentDeployment → Type 0) (m : Exec A)
      (f : A → Exec B)
      → Ends ad (λ a next. next ≡ ad) m
      → ((a : A) → Ends ad Q (f a))
      → Ends ad Q (m >>= f)
  Ends-quiet ad Q m f km kf =
      Ends-bind ad (λ a next. next ≡ ad) Q m f km (λ a next same h is. kf a h (is ∙ same))

  pub Ends-pure :
      {A : Type 0} (ad : AgentDeployment) (Q : A → AgentDeployment → Type 0) (a : A)
      → Q a ad
      → Ends ad Q (pure a)
  unfolding pure
  Ends-pure ad Q a q h is = (a, h, refl, rw is q)

  pub Ends-asks :
      {A B : Type 0} (ad : AgentDeployment) (Q : B → AgentDeployment → Type 0)
      (f : Api → History → A) (g : A → Exec B)
      → ((h : History) → Ends ad Q (g (f api h)))
      → Ends ad Q (asks f >>= g)
  unfolding asks ◌>>=◌ continue
  Ends-asks ad Q f g k h is = k h h is

  pub Ends-if :
      {A : Type 0} (ad : AgentDeployment) (Q : A → AgentDeployment → Type 0) (b : Bool)
      (m n : Exec A)
      → Ends ad Q m
      → Ends ad Q n
      → Ends ad Q (if b then m else n)
  Ends-if ad Q true m n km kn = km
  Ends-if ad Q false m n km kn = kn

  pub Settles-pure : {A : Type 0} (P : A → Type 0) (a : A) → P a → Settles P (pure a)
  unfolding pure
  Settles-pure P a p h = (a, h, refl, p, refl)

  pub Settles-asks :
      {A : Type 0} (P : A → Type 0) (f : Api → History → A)
      → ((h : History) → P (f api h))
      → Settles P (asks f)
  unfolding asks
  Settles-asks P f p h = (f api h, h, refl, p h, refl)

  pub Settles-if :
      {A : Type 0} (P : A → Type 0) (b : Bool) (m n : Exec A)
      → Settles P m
      → Settles P n
      → Settles P (if b then m else n)
  Settles-if P true m n km kn = km
  Settles-if P false m n km kn = kn

  pub Settles-get :
      {A : Type 0} (P : Reply A → Type 0) (k : Kind)
      (from : Api → History → String → String → Reply A) (namespace name : String)
      → ((h : History) → P (from api h namespace name))
      → Settles P (get k from namespace name)
  unfolding get
  Settles-get P k from namespace name p h = (from api h namespace name, _, refl, p h, refl)

  -- A read of an object that is there, and what is done with it.
  pub Settles-needed :
      {A B : Type 0} (Q : B → Type 0) (k : Kind) (from : Api → History → String → String → Reply A)
      (namespace name message : String) (f : A → Exec B)
      → ((h : History) → IsObject (from api h namespace name))
      → ((a : A) → Settles Q (f a))
      → Settles Q (get k from namespace name >>= λ reply. need message reply >>= f)
  unfolding get need pure ◌>>=◌ continue answer_of
  Settles-needed Q k from namespace name message f there kf h =
      let (a, e) = there h in
      let (b, h', run, q, s) = kf a (read k namespace name done ∷ h) in
      (
        b,
        h',
        ap (λ r. (need message r >>= f) api (read k namespace name (answer_of r) ∷ h)) e ∙ run,
        q,
        s,
      )

  pub Settles-require :
      (message : String) (b : Bool) → b ≡ true → Settles (λ u. Unit {0}) (require message b)
  unfolding require pure
  Settles-require message b e h = (tt, h, ap (λ b. require message b api h) e, tt, refl)

  module _ (stores : IsStoring api first) where
    -- A write that succeeds, of anything but the agent's status.
    pub Settles-stored :
        (k : Kind) (call : Answer → Call) (message : String)
        → ((h : History) → stored first (call done ∷ h) ≡ stored first h)
        → Settles (λ u. Unit {0}) (store k call >>= must message)
    unfolding store must pure ◌>>=◌ continue
    Settles-stored k call message same h = (
      tt,
      call done ∷ h,
      ap (λ a. must message a api (call a ∷ h)) (stores.available.store h k),
      tt,
      same h,
    )

    -- The stored agent is what is read.
    pub Ends-found :
        {B : Type 0} (ad : AgentDeployment) (Q : B → AgentDeployment → Type 0)
        (f : Reply AgentDeployment → Exec B)
        → Ends ad Q (f (object ad))
        → Ends ad Q (get agents (λ api. api.agent) ad.namespace ad.name >>= f)
    unfolding get ◌>>=◌ continue answer_of
    Ends-found ad Q f kf h is =
        let e : api.agent h ad.namespace ad.name ≡ object ad =
          ap (λ x. api.agent h x.namespace x.name) (sym is) ∙ stores.agent h ∙ ap object is in
        let (b, h', run, q) = kf (read agents ad.namespace ad.name done ∷ h) is in
        (b, h', ap (λ r. f r api (read agents ad.namespace ad.name (answer_of r) ∷ h)) e ∙ run, q)

    pub Ends-fetched :
        {B : Type 0} (ad : AgentDeployment) (Q : B → AgentDeployment → Type 0) (message : String)
        (f : AgentDeployment → Exec B)
        → Ends ad Q (f ad)
        → Ends ad Q (
            get agents (λ api. api.agent) ad.namespace ad.name >>= λ reply.
            need message reply >>= f)
    unfolding need pure ◌>>=◌ continue
    Ends-fetched ad Q message f kf = Ends-found ad Q (λ reply. need message reply >>= f) kf

    pub Ends-written :
        {B : Type 0} (ad next : AgentDeployment) (Q : B → AgentDeployment → Type 0)
        (message : String) (f : AgentDeployment → Exec B)
        → Ends next Q (f next)
        → Ends ad Q (update_status next >>= λ reply. need message reply >>= f)
    unfolding update_status need pure ◌>>=◌ continue answer_of
    Ends-written ad next Q message f kf h is =
        let (b, h', run, q) = kf (write_status next done ∷ h) refl in
        (
          b,
          h',
          ap (λ r. (need message r >>= f) api (write_status next (answer_of r) ∷ h))
                (stores.update_status h next)
              ∙ run,
          q,
        )

    pub Ends-updated :
        {B : Type 0} (ad next : AgentDeployment) (Q : B → AgentDeployment → Type 0)
        (f : Reply AgentDeployment → Exec B)
        → Ends next Q (f (object next))
        → Ends ad Q (update_status next >>= f)
    unfolding update_status ◌>>=◌ continue answer_of
    Ends-updated ad next Q f kf h is =
        let (b, h', run, q) = kf (write_status next done ∷ h) refl in
        (
          b,
          h',
          ap (λ r. f r api (write_status next (answer_of r) ∷ h)) (stores.update_status h next)
              ∙ run,
          q,
        )

    -- The stable Deployment is read, and what is done with it.
    pub Ends-stable :
        {B : Type 0} (ad : AgentDeployment) (Q : B → AgentDeployment → Type 0) (message : String)
        (f : Deployment → Exec B)
        → ((dep : Deployment) → Ends ad Q (f dep))
        → Ends ad Q (
            get deployments (λ api. api.deployment) ad.namespace ad.name >>= λ reply.
            need message reply >>= f)
    unfolding get need pure ◌>>=◌ continue answer_of
    Ends-stable ad Q message f kf h is =
        let there : IsObject (api.deployment h ad.namespace ad.name) =
          rw (sym is) (stores.stable h) in
        let (b, h', run, q) = kf there.0 (read deployments ad.namespace ad.name done ∷ h) is in
        (
          b,
          h',
          ap
                (λ r.
                  (need message r >>= f) api
                    (read deployments ad.namespace ad.name (answer_of r) ∷ h))
                there.1
              ∙ run,
          q,
        )
