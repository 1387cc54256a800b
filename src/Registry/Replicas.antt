-- ===== src/Registry/Replicas.antt =====
-- Two replicas of the operator with one ConfigMap: the leader registers agents and probes them, and
-- every replica serves the registry and sweeps it (cmd/main.go, NeedLeaderElection of the server).
use agentrax.Prelude.{
  pos, ◌-ℤ◌, leb_ℤ, eqb, String, ◌==◌, eq_refl, ◌≡◌, refl, ap, ◌∙◌, arith, ◌||◌, true, false, Bool,
  inl, inr, Bool-cases, none, some, [], ◌∷◌, if◌then◌else◌,
}
use agentrax.Dict.{
  insert, Dict, IsMap, IsMap-insert, lookup, lookup-insert, lookup-keep, keep, keep_option,
  IsMap-keep,
}
use agentrax.Api.{Duration, Time}
use agentrax.Registry.{
  persist_to_config_map, insert_all, start_with, load_from, default_ttl_value, heartbeat, stamp,
  ttl_of, Registry, Entry, Store, Loaded, entries_of, key, is_live, removed, sweep_expired,
  new_registry, start, get, register,
}
use agentrax.Registry.Expiry.{register-IsValid, granted_ttl, refreshed, get-heartbeat}
use agentrax.Registry.Restart.{lookup-insert_all, or_else-none}

-- The ConfigMap after a tick of the sweeper that has read it: a tick that removes nothing writes
-- nothing, and the writes succeed.
unfoldable pub config_map_after : Loaded → Registry → Time → Loaded
config_map_after content r now =
    let (r', n) = sweep_expired r now in if eqb n 0 then content else entries_of r'.entries

-- A client of the ConfigMap with that content.
unfoldable pub client_of : Loaded → Store
client_of content = record { save = λ entries. none; load = content }

removed-pos :
    (live : Entry → Bool) (k : String) (e : Entry) (m : Dict Entry)
    → lookup k m ≡ some e
    → live e ≡ false
    → eqb (removed live m) 0 ≡ false
unfolding removed lookup
removed-pos live k e [] h dead = absurd (ground arith)
removed-pos live k e ((j, v) ∷ m) h dead = elim (Bool-cases (j == k)) [
  | inl here ↦
      let same : v ≡ e = ground (arith, here) in
      let gone : live v ≡ false = ap live same ∙ dead in rw gone (ground arith)
  | inr there ↦ ground (arith, removed-pos live k e m, there)
]

IsMap-insert_all : (loaded m : Dict Entry) → IsMap m → IsMap (insert_all loaded m)
unfolding insert_all
IsMap-insert_all [] m h = h
IsMap-insert_all ((k, e) ∷ loaded) m h = IsMap-insert_all loaded _ (IsMap-insert k e m h)

module _ (config_namespace : String) (ttl : Duration) where
  -- A replica that starts with that ConfigMap.
  abbrev pub started : Loaded → Registry
  started content = start (new_registry (some (client_of content)) config_namespace ttl)

  started-lookup :
      (k : String) (m : Dict Entry)
      → IsMap m
      → lookup k (started (entries_of m)).entries ≡ lookup k m
  unfolding start start_with load_from new_registry client_of lookup
  started-lookup k m h = lookup-insert_all k m [] h ∙ or_else-none (lookup k m)

  started-IsMap : (m : Dict Entry) → IsMap (started (entries_of m)).entries
  unfolding start start_with load_from new_registry client_of
  started-IsMap m = IsMap-insert_all m [] tt

  started-default :
      (m : Dict Entry)
      → (started (entries_of m)).default_ttl
        ≡ (if leb_ℤ ttl (pos 0) then default_ttl_value else ttl)
  unfolding start start_with load_from new_registry client_of
  started-default m = refl

  module _ (leader : Registry) (e : Entry) (t0 t1 t2 : Time) where
    -- The leader, after it has registered the agent and after the agent's heartbeat.
    abbrev pub leader_registered : Registry
    leader_registered = (register leader t0 e).0

    abbrev pub leader_beaten : Registry
    leader_beaten = (heartbeat leader_registered t1 e.namespace e.name).0

    abbrev pub written : Loaded
    written = entries_of leader_registered.entries

    -- The other replica, which has started after the registration.
    abbrev pub follower : Registry
    follower = started written

    -- The agent's fields are there, and it expires unless its heartbeat counts.
    pub record IsOverdue : Type 0 where
      pub fields : (e.namespace == "" || e.name == "" || e.endpoint == "") ≡ false
      pub one_each : IsMap leader.entries
      pub positive : leb_ℤ (granted_ttl leader e) (pos 0) ≡ false
      pub overdue : leb_ℤ (t2 -ℤ t0) (granted_ttl leader e) ≡ false
      pub in_time : leb_ℤ (t2 -ℤ t1) (granted_ttl leader e) ≡ true

    abbrev k : String
    k = key e.namespace e.name

    abbrev with_entry : Registry
    with_entry = record leader { entries = insert k (stamp leader t0 e) leader.entries }

    module _ (o : IsOverdue) where
      register-with_entry : (register leader t0 e).0 ≡ with_entry
      unfolding register
      register-with_entry =
          let both : register leader t0 e ≡ (with_entry, persist_to_config_map with_entry) =
            rw o.fields refl in
          ap (λ p. p.0) both

      registered : lookup k leader_registered.entries ≡ some (stamp leader t0 e)
      registered =
          ap (λ r. lookup k r.entries) register-with_entry
          ∙ lookup-insert k k (stamp leader t0 e) leader.entries
          ∙ rw (eq_refl k) refl

      registered-IsMap : IsMap leader_registered.entries
      registered-IsMap = register-IsValid leader o.one_each t0 e

      -- The TTL that was granted counts at every replica.
      granted : (default : Duration) → ttl_of default (stamp leader t0 e) ≡ granted_ttl leader e
      unfolding ttl_of stamp
      granted default = rw o.positive refl

      leader_finds : (found : Entry) × (get leader_beaten t2 e.namespace e.name ≡ some found)
      unfolding stamp
      leader_finds =
          let answer =
            (get-heartbeat leader_registered t1 t2 e.namespace e.name e.namespace e.name).1 in
          (
            record (stamp leader t0 e) { heartbeat_at = t1 },
            answer
                ∙ rw (eq_refl k) (
                    ap (refreshed leader_registered t1 t2) registered
                    ∙ rw (granted leader_registered.default_ttl, o.in_time) refl),
          )

      dead : (default : Duration) → is_live default t2 (stamp leader t0 e) ≡ false
      unfolding is_live stamp
      dead default = rw (granted default) o.overdue

      follower_has : lookup k follower.entries ≡ some (stamp leader t0 e)
      follower_has = started-lookup k leader_registered.entries registered-IsMap ∙ registered

      follower_drops : lookup k (keep (is_live follower.default_ttl t2) follower.entries) ≡ none
      follower_drops =
          lookup-keep (is_live follower.default_ttl t2) k follower.entries
            (started-IsMap leader_registered.entries)
          ∙ ap (keep_option (is_live follower.default_ttl t2)) follower_has
          ∙ rw (dead follower.default_ttl) refl

      after-written :
          config_map_after written follower t2
          ≡ entries_of (keep (is_live follower.default_ttl t2) follower.entries)
      unfolding config_map_after sweep_expired
      after-written =
          rw
            (removed-pos (is_live follower.default_ttl t2) k (stamp leader t0 e) follower.entries
              follower_has (dead follower.default_ttl))
            refl

    -- The replica has the entry as it was registered, and no heartbeat reaches it. When the TTL has
    -- passed since the registration, and not since the last heartbeat, the leader finds the agent,
    -- and the sweep of the other replica removes it from the ConfigMap: a replica that starts from
    -- it does not find the agent, at any time.
    pub follower_sweep_forgets :
        (later : Time)
        → IsOverdue
        → (found : Entry) × (get leader_beaten t2 e.namespace e.name ≡ some found)
          × (get (started (config_map_after written follower t2)) later e.namespace e.name ≡ none)
    unfolding get
    follower_sweep_forgets later o =
        let (found, finds) = leader_finds o in
        let m = keep (is_live follower.default_ttl t2) follower.entries in
        let gone : lookup k (started (entries_of m)).entries ≡ none =
          started-lookup k m (IsMap-keep _ _ (started-IsMap leader_registered.entries))
          ∙ follower_drops o in
        (found, finds, rw (after-written o) (rw gone refl))
