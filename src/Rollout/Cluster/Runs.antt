-- ===== src/Rollout/Cluster/Runs.antt =====
-- Runs against the API server: what is recorded stays, and a run that succeeds is one in which each
-- of its parts did.
use agentrax.Prelude.{
  String, ◌≡◌, refl, sym, ◌∙◌, ap, ◌⊎◌, inl, inr, arith, Bool, true, false, Option, none, some,
  List, [], ◌∷◌, if◌then◌else◌,
}
use agentrax.Api.{AgentDeployment}
use agentrax.Rollout.Cluster.{
  Kind, Answer, done, not_found, failed, Call, History, read, delete_call, Reply, object, missing,
  broken, Api, Result, ok, error, panic, Exec, pure, fail, continue, ◌>>=◌, get, delete, store,
  update_status, asks, need, must, require, answer_of, write_status, agents, list_items, need_list,
}

abbrev pub Recorded : Call → History → Type 0
Recorded c [] = ⊥
Recorded c (x ∷ h) = (x ≡ c) ⊎ Recorded c h

-- The object of that kind and name was not there, or was deleted.
abbrev pub Gone : Kind → String → String → History → Type 0
Gone k namespace name h =
    Recorded (read k namespace name not_found) h
    ⊎ (Recorded (delete_call k namespace name done) h
        ⊎ Recorded (delete_call k namespace name not_found) h)

abbrev pub Keeps : {A : Type 0} → Exec A → Type 0
Keeps m = (c : Call) (api : Api) (h : History) → Recorded c h → Recorded c (m api h).1

module _ {A B : Type 0} where
  Keeps-continue : (r : Result A) (f : A → Exec B) → ((a : A) → Keeps (f a)) → Keeps (continue r f)
  unfolding continue
  Keeps-continue (ok a) f k c api h x = k a c api h x
  Keeps-continue (error e) f k c api h x = x
  Keeps-continue panic f k c api h x = x

  pub Keeps-bind :
      (m : Exec A) (f : A → Exec B) → Keeps m → ((a : A) → Keeps (f a)) → Keeps (m >>= f)
  unfolding ◌>>=◌
  Keeps-bind m f km kf c api h x = Keeps-continue (m api h).0 f kf c api (m api h).1 (km c api h x)

  pub Recorded-bind :
      (m : Exec A) (f : A → Exec B) (c : Call) (api : Api) (h : History)
      → ((a : A) → Keeps (f a))
      → Recorded c (m api h).1
      → Recorded c ((m >>= f) api h).1
  unfolding ◌>>=◌
  Recorded-bind m f c api h kf x = Keeps-continue (m api h).0 f kf c api (m api h).1 x

  continue-ok :
      (r : Result A) (f : A → Exec B) (b : B) (api : Api) (h h' : History)
      → continue r f api h ≡ (ok b, h')
      → (a : A) × (r ≡ ok a) × (f a api h ≡ (ok b, h'))
  unfolding continue
  continue-ok (ok a) f b api h h' e = (a, refl, e)
  continue-ok (error x) f b api h h' e = absurd (ground (arith, ap (λ p. p.0) e))
  continue-ok panic f b api h h' e = absurd (ground (arith, ap (λ p. p.0) e))

  pub bind-ok :
      (m : Exec A) (f : A → Exec B) (b : B) (api : Api) (h h' : History)
      → (m >>= f) api h ≡ (ok b, h')
      → (a : A) × (h1 : History) × (m api h ≡ (ok a, h1)) × (f a api h1 ≡ (ok b, h'))
  unfolding ◌>>=◌
  bind-ok m f b api h h' e =
      let (a, r, rest) = continue-ok (m api h).0 f b api (m api h).1 h' e in
      (a, (m api h).1, (λ i. (r i, (m api h).1)), rest)

pub Reply-cases :
    {A : Type 0} (r : Reply A) → ((a : A) × (r ≡ object a)) ⊎ ((r ≡ missing) ⊎ (r ≡ broken))
Reply-cases (object a) = inl (a, refl)
Reply-cases missing = inr (inl refl)
Reply-cases broken = inr (inr refl)

pub Keeps-need : {A : Type 0} (message : String) (r : Reply A) → Keeps (need message r)
unfolding need
Keeps-need message (object a) c api h x = x
Keeps-need message missing c api h x = x
Keeps-need message broken c api h x = x

pub Keeps-must : (message : String) (a : Answer) → Keeps (must message a)
unfolding must
Keeps-must message done c api h x = x
Keeps-must message not_found c api h x = x
Keeps-must message failed c api h x = x

pub Keeps-require : (message : String) (b : Bool) → Keeps (require message b)
unfolding require
Keeps-require message true c api h x = x
Keeps-require message false c api h x = x

pub Keeps-get :
    {A : Type 0} (k : Kind) (from : Api → History → String → String → Reply A)
    (namespace name : String)
    → Keeps (get k from namespace name)
unfolding get
Keeps-get k from namespace name c api h x = inr x

pub Keeps-delete : (k : Kind) (namespace name : String) → Keeps (delete k namespace name)
unfolding delete
Keeps-delete k namespace name c api h x = inr x

pub Keeps-store : (k : Kind) (call : Answer → Call) → Keeps (store k call)
unfolding store
Keeps-store k call c api h x = inr x

pub Keeps-update_status : (ad : AgentDeployment) → Keeps (update_status ad)
unfolding update_status
Keeps-update_status ad c api h x = inr x

pub Keeps-asks : {A : Type 0} (f : Api → History → A) → Keeps (asks f)
unfolding asks
Keeps-asks f c api h x = x

pub Keeps-pure : {A : Type 0} (a : A) → Keeps (pure a)
unfolding pure
Keeps-pure a c api h x = x

pub Keeps-fail : (A : Type 0) (message : String) → Keeps (fail {A = A} message)
unfolding fail
Keeps-fail A message c api h x = x

pub Keeps-list_items :
    {A : Type 0} (k : Kind) (from : Api → History → String → Option (List A)) (namespace : String)
    → Keeps (list_items k from namespace)
unfolding list_items
Keeps-list_items k from namespace c api h x = inr x

pub Keeps-need_list :
    {A : Type 0} (message : String) (items : Option (List A)) → Keeps (need_list message items)
unfolding need_list
Keeps-need_list message (some items) c api h x = x
Keeps-need_list message none c api h x = x

pub need-ok :
    {A : Type 0} (message : String) (r : Reply A) (a : A) (api : Api) (h h' : History)
    → need message r api h ≡ (ok a, h')
    → (r ≡ object a) × (h ≡ h')
unfolding need pure fail
need-ok message (object b) a api h h' e = (cc, cc)
need-ok message missing a api h h' e = absurd (ground (arith, ap (λ p. p.0) e))
need-ok message broken a api h h' e = absurd (ground (arith, ap (λ p. p.0) e))

unwrap : {A : Type 0} → A → Result A → A
unwrap d (ok a) = a
unwrap d (error e) = d
unwrap d panic = d

-- A status write that is needed to succeed is recorded as done.
pub written-ok :
    (message : String) (ad stored : AgentDeployment) (reply : Reply AgentDeployment) (api : Api)
    (h h1 h2 : History)
    → update_status ad api h ≡ (ok reply, h1)
    → need message reply api h1 ≡ (ok stored, h2)
    → (api.update_status h ad ≡ object stored) × (h2 ≡ write_status ad done ∷ h)
unfolding update_status answer_of unwrap
written-ok message ad stored reply api h h1 h2 u n =
    let (is_object, same) = need-ok message reply stored api h1 h2 n in
    let answer : api.update_status h ad ≡ object stored =
      ap (λ p. unwrap missing p.0) u ∙ is_object in
    (answer, sym same ∙ sym (ap (λ p. p.1) u) ∙ ap (λ r. write_status ad (answer_of r) ∷ h) answer)

pub Gone-kept :
    {A : Type 0} (m : Exec A) (k : Kind) (namespace name : String) (api : Api) (h : History)
    → Keeps m
    → Gone k namespace name h
    → Gone k namespace name (m api h).1
Gone-kept m k namespace name api h keeps (inl x) = inl (keeps _ api h x)
Gone-kept m k namespace name api h keeps (inr (inl x)) = inr (inl (keeps _ api h x))
Gone-kept m k namespace name api h keeps (inr (inr x)) = inr (inr (keeps _ api h x))

pub Recorded-after :
    {A : Type 0} (m : Exec A) (c : Call) (api : Api) (h h' : History) (r : Result A)
    → Keeps m
    → m api h ≡ (r, h')
    → Recorded c h
    → Recorded c h'
Recorded-after m c api h h' r keeps e x = rw (sym (ap (λ p. p.1) e)) (keeps c api h x)

pub Gone-after :
    {A : Type 0} (m : Exec A) (k : Kind) (namespace name : String) (api : Api) (h h' : History)
    (r : Result A)
    → Keeps m
    → m api h ≡ (r, h')
    → Gone k namespace name h
    → Gone k namespace name h'
Gone-after m k namespace name api h h' r keeps e x =
    rw (sym (ap (λ p. p.1) e)) (Gone-kept m k namespace name api h keeps x)

-- A write whose reply is needed: the server gave back an object, and the write is on record.
pub stored-ok :
    {B : Type 0} (message : String) (ad : AgentDeployment) (k : AgentDeployment → Exec B) (b : B)
    (api : Api) (h h' : History)
    → (update_status ad >>= λ written. need message written >>= k) api h ≡ (ok b, h')
    → (stored : AgentDeployment) × (api.update_status h ad ≡ object stored)
      × (k stored api (write_status ad done ∷ h) ≡ (ok b, h'))
stored-ok message ad k b api h h' e =
    let (reply, h1, u, e1) = bind-ok _ _ b api h h' e in
    let (stored, h2, n, e2) = bind-ok _ _ b api h1 h' e1 in
    let (answer, recorded) = written-ok message ad stored reply api h h1 h2 u n in
    (stored, answer, ap (λ x. k stored api x) (sym recorded) ∙ e2)

pub write_needed-ok :
    {B : Type 0} (message : String) (ad : AgentDeployment) (k : AgentDeployment → Exec B) (b : B)
    (api : Api) (h h' : History)
    → (update_status ad >>= λ written. need message written >>= k) api h ≡ (ok b, h')
    → (stored : AgentDeployment) × (k stored api (write_status ad done ∷ h) ≡ (ok b, h'))
write_needed-ok message ad k b api h h' e =
    let (stored, answer, rest) = stored-ok message ad k b api h h' e in (stored, rest)

-- A fetch of the agent that is needed: the server gave the agent, and the read is on record.
pub fetched-ok :
    {B : Type 0} (message namespace name : String) (k : AgentDeployment → Exec B) (b : B)
    (api : Api) (h h' : History)
    → (get agents (λ api. api.agent) namespace name >>= λ reply. need message reply >>= k) api h
      ≡ (ok b, h')
    → (latest : AgentDeployment) × (api.agent h namespace name ≡ object latest)
      × (k latest api (read agents namespace name done ∷ h) ≡ (ok b, h'))
unfolding get answer_of unwrap
fetched-ok message namespace name k b api h h' e =
    let (reply, h1, g, e1) = bind-ok _ _ b api h h' e in
    let (latest, h2, n, e2) = bind-ok _ _ b api h1 h' e1 in
    let (is_object, same) = need-ok message reply latest api h1 h2 n in
    let found : api.agent h namespace name ≡ object latest =
      ap (λ p. unwrap missing p.0) g ∙ is_object in
    let seen : read agents namespace name done ∷ h ≡ h2 =
      sym (ap (λ r. read agents namespace name (answer_of r) ∷ h) found) ∙ ap (λ p. p.1) g ∙ same in
    (latest, found, ap (λ x. k latest api x) seen ∙ e2)

pub Keeps-if :
    {A : Type 0} (b : Bool) (m n : Exec A) → Keeps m → Keeps n → Keeps (if b then m else n)
Keeps-if true m n km kn = km
Keeps-if false m n km kn = kn

-- How a run ends whose last call is a write that it needs.
abbrev pub ended : {A : Type 0} → Answer → A → String → Result A
ended done a message = ok a
ended not_found a message = error message
ended failed a message = error message
