-- ===== src/Registry/Expiry.antt =====
-- What a client of the registry sees: registrations, heartbeats and their expiry.
use agentrax.Prelude.{
  pos, ◌-ℤ◌, ◌≤ℤ◌, leb_ℤ, -ℤ_parts, String, true, false, ◌||◌, Option, none, some, ◌≡◌, ◌≢◌, ◌↔◌,
  refl, sym, arith, ◌==◌, eq_iff, Bool-cases, Option-cases, inl, inr, if◌then◌else◌,
}
use agentrax.Dict.{
  lookup, lookup-insert, lookup-delete, lookup-keep, IsMap, IsMap-insert, IsMap-delete, IsMap-keep,
}
use agentrax.Api.{Duration, Time}
use agentrax.Registry.{
  Registry, Entry, not_found, key, ttl_of, is_live, sweep_expired, register, stamp, deregister,
  deregister_found, heartbeat, heartbeat_found, get,
}

-- A registry's map holds each key once.
abbrev pub IsValid : Registry → Type 0
IsValid r = IsMap r.entries

module _ (r : Registry) (v : IsValid r) (now : Time) where
  pub register-IsValid : (e : Entry) → IsValid (register r now e).0
  unfolding register
  register-IsValid e = elim (Bool-cases (e.namespace == "" || e.name == "" || e.endpoint == "")) [
    | inl bad ↦ rw bad v
    | inr fine ↦ rw fine (IsMap-insert (key e.namespace e.name) (stamp r now e) r.entries v)
  ]

  pub sweep_expired-IsValid : IsValid (sweep_expired r now).0
  unfolding sweep_expired
  sweep_expired-IsValid = IsMap-keep (is_live r.default_ttl now) r.entries v

  pub deregister-IsValid : (namespace name : String) → IsValid (deregister r namespace name).0
  unfolding deregister
  deregister-IsValid namespace name = elim (Option-cases (lookup (key namespace name) r.entries)) [
    | inl gone ↦ rw gone v
    | inr (e, found) ↦ rw found (IsMap-delete (key namespace name) r.entries v)
  ]

  pub heartbeat-IsValid : (namespace name : String) → IsValid (heartbeat r now namespace name).0
  unfolding heartbeat
  heartbeat-IsValid namespace name = elim (Option-cases (lookup (key namespace name) r.entries)) [
    | inl gone ↦ rw gone v
    | inr (e, found) ↦ rw found (IsMap-insert (key namespace name) _ r.entries v)
  ]

-- What has expired stays expired.
is_live-later :
    (d : Duration) (now later : Time) (e : Entry)
    → now ≤ℤ later
    → is_live d later e ≡ true
    → is_live d now e ≡ true
unfolding is_live
is_live-later d now later e t h =
    ground (arith, -ℤ_parts now e.heartbeat_at, -ℤ_parts later e.heartbeat_at)

-- The sweeper is not observable: after a sweep, now or later, every lookup has the result that it
-- would have had without it.
pub get-sweep_expired :
    (r : Registry) (now later : Time) (namespace name : String)
    → IsValid r
    → now ≤ℤ later
    → get (sweep_expired r now).0 later namespace name ≡ get r later namespace name
unfolding get sweep_expired
get-sweep_expired r now later namespace name v t =
    rw (lookup-keep (is_live r.default_ttl now) (key namespace name) r.entries v)
      (elim (Option-cases (lookup (key namespace name) r.entries)) [
        | inl gone ↦ rw gone refl
        | inr (e, found) ↦ rw found (ground (arith, is_live-later r.default_ttl now later e t))
      ])

-- The lifetime that a registration is given.
abbrev pub granted_ttl : Registry → Entry → Duration
granted_ttl r e = if leb_ℤ e.ttl (pos 0) then r.default_ttl else e.ttl

-- The time of the first registration under the key, or `now`.
abbrev pub first_registered : Registry → Time → Entry → Time
first_registered r now e = elim (lookup (key e.namespace e.name) r.entries) [
  | none ↦ now
  | some existing ↦ existing.registered_at
]

-- A registration with namespace, name and endpoint is found from then on for as long as its TTL
-- has not passed since it was made, with the time of the first registration kept; lookups of other
-- keys give what they gave before.
pub get-register :
    (r : Registry) (now later : Time) (e : Entry) (namespace name : String)
    → (e.namespace == "" || e.name == "" || e.endpoint == "") ≡ false
    → get (register r now e).0 later namespace name ≡ (
        if key e.namespace e.name == key namespace name
        then if leb_ℤ (later -ℤ now) (granted_ttl r e)
          then some (record e {
            registered_at = first_registered r now e;
            heartbeat_at = now;
            ttl = granted_ttl r e;
          })
          else none
        else get r later namespace name)
unfolding get register is_live
get-register r now later e namespace name fields = rw fields (
    rw lookup-insert (elim (Bool-cases (key e.namespace e.name == key namespace name)) [
      | inl same ↦ rw same (ground arith)
      | inr other ↦ rw other refl
    ]))

ne→false : (a b : String) → a ≢ b → (a == b) ≡ false
ne→false a b h = ground (arith, eq_iff a b)

-- What a lookup finds of an entry that a heartbeat has met.
abbrev pub refreshed : Registry → Time → Time → Option Entry → Option Entry
refreshed r now later none = none
refreshed r now later (some e) =
    if leb_ℤ (later -ℤ now) (ttl_of r.default_ttl e)
    then some (record e { heartbeat_at = now })
    else none

pub heartbeat_missing :
    (r : Registry) (now : Time) (namespace name : String)
    → lookup (key namespace name) r.entries ≡ none
    → heartbeat r now namespace name ≡ (r, some (not_found (key namespace name)))
unfolding heartbeat
heartbeat_missing r now namespace name gone = rw (gone, heartbeat_found) refl

-- A heartbeat fails exactly if the agent is not in the store; else it lets the agent be found,
-- expired or not, until its TTL has passed since the heartbeat. Lookups of other keys give what
-- they gave before.
pub get-heartbeat :
    (r : Registry) (now later : Time) (namespace name namespace' name' : String)
    → let k = key namespace name in
      let (r', error) = heartbeat r now namespace name in
      ((error ≡ none) ↔ (lookup k r.entries ≢ none))
      × (get r' later namespace' name' ≡ (
          if k == key namespace' name'
          then refreshed r now later (lookup k r.entries)
          else get r later namespace' name'))
unfolding get heartbeat is_live
get-heartbeat r now later namespace name namespace' name' =
    let k = key namespace name in
    let same = (eq_iff k (key namespace' name')).0 in
    elim (Option-cases (lookup k r.entries)) [
      | inl gone ↦
          rw (gone, heartbeat_found)
            (
              ((λ h. cc), (λ h. absurd (h refl))),
              elim (Bool-cases (k == key namespace' name')) [
                | inl is ↦ rw is (rw (sym (same is)) (rw gone refl))
                | inr other ↦ rw other refl
              ],
            )
      | inr (e, found) ↦
          rw (found, heartbeat_found)
            (
              ((λ h. λ q. cc), (λ h. refl)),
              rw lookup-insert (elim (Bool-cases (k == key namespace' name')) [
                | inl is ↦ rw is refl
                | inr other ↦ rw other refl
              ]),
            )
    ]

-- After a deregistration the agent is not found, and lookups of other keys give what they gave
-- before.
pub get-deregister :
    (r : Registry) (later : Time) (namespace name namespace' name' : String)
    → get (deregister r namespace name).0 later namespace' name'
      ≡ (if key namespace name == key namespace' name' then none else get r later namespace' name')
unfolding get deregister
get-deregister r later namespace name namespace' name' =
    let k = key namespace name in
    let same = (eq_iff k (key namespace' name')).0 in
    elim (Option-cases (lookup k r.entries)) [
      | inl gone ↦
          rw (gone, deregister_found)
            (elim (Bool-cases (k == key namespace' name')) [
              | inl is ↦ rw is (rw (sym (same is)) (rw gone refl))
              | inr other ↦ rw other refl
            ])
      | inr (e, found) ↦
          rw (found, deregister_found)
            (rw lookup-delete (elim (Bool-cases (k == key namespace' name')) [
              | inl is ↦ rw is refl
              | inr other ↦ rw other refl
            ]))
    ]
