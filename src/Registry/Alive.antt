-- ===== src/Registry/Alive.antt =====
-- An agent whose heartbeats come in time, while the sweeper runs.
use agentrax.Prelude.{◌-ℤ◌, ◌≤ℤ◌, String, eq_refl, ◌≡◌, refl, ◌∙◌, arith, some, List, [], ◌∷◌}
use agentrax.Dict.{IsMap-insert, IsMap-keep, lookup, lookup-insert, lookup-keep}
use agentrax.Api.{Duration, Time}
use agentrax.Registry.{
  Registry, Entry, key, ttl_of, is_live, sweep_expired, get, heartbeat, heartbeat_found,
}
use agentrax.Registry.Expiry.{IsValid}

-- A heartbeat of the agent, or a sweep of the registry, with its time.
pub data Event : Type 0 where
  beat sweep : Time → Event

module _ (namespace name : String) where
  pub run : Registry → List Event → Registry
  run r [] = r
  run r (beat t ∷ events) = run (heartbeat r t namespace name).0 events
  run r (sweep t ∷ events) = run (sweep_expired r t).0 events

  -- Each sweep and each lookup comes within `d` of the last heartbeat.
  abbrev pub InTime : Duration → Time → List Event → Time → Type 0
  InTime d last [] later = later -ℤ last ≤ℤ d
  InTime d last (beat t ∷ events) later = InTime d t events later
  InTime d last (sweep t ∷ events) later = (t -ℤ last ≤ℤ d) × InTime d last events later

  -- The agent's entry, with its last heartbeat and a TTL that is not below `d`.
  pub record Holds (d : Duration) (last : Time) (r : Registry) : Type 0 where
    pub valid : IsValid r
    pub entry : Entry
    pub is_stored : lookup (key namespace name) r.entries ≡ some entry
    pub last_beat : entry.heartbeat_at ≡ last
    pub long : d ≤ℤ ttl_of r.default_ttl entry

  heartbeat-Holds :
      (d : Duration) (last t : Time) (r : Registry)
      → Holds d last r
      → Holds d t (heartbeat r t namespace name).0
  unfolding heartbeat heartbeat_found ttl_of
  heartbeat-Holds d last t r h = rw h.is_stored (record {
    valid = IsMap-insert (key namespace name) _ r.entries h.valid;
    entry = record h.entry { heartbeat_at = t };
    is_stored =
        lookup-insert (key namespace name) (key namespace name) _ r.entries
        ∙ rw (eq_refl (key namespace name)) refl;
    last_beat = refl;
    long = h.long;
  })

  sweep_expired-Holds :
      (d : Duration) (last t : Time) (r : Registry)
      → t -ℤ last ≤ℤ d
      → Holds d last r
      → Holds d last (sweep_expired r t).0
  unfolding sweep_expired is_live
  sweep_expired-Holds d last t r soon h =
      let age : t -ℤ h.entry.heartbeat_at ≤ℤ d = rw h.last_beat soon in
      record {
        valid = IsMap-keep (is_live r.default_ttl t) r.entries h.valid;
        entry = h.entry;
        is_stored =
            lookup-keep (is_live r.default_ttl t) (key namespace name) r.entries h.valid
            ∙ rw h.is_stored (ground (arith, age, h.long));
        last_beat = h.last_beat;
        long = h.long;
      }

  get-Holds :
      (d : Duration) (last later : Time) (r : Registry)
      → later -ℤ last ≤ℤ d
      → Holds d last r
      → (e : Entry) × (get r later namespace name ≡ some e)
  unfolding get is_live
  get-Holds d last later r soon h =
      let age : later -ℤ h.entry.heartbeat_at ≤ℤ d = rw h.last_beat soon in
      (h.entry, rw h.is_stored (ground (arith, age, h.long)))

  -- An agent whose entry has a TTL of `d` or more: if each sweep, and the lookup at the end, comes
  -- within `d` of the last heartbeat before it, the lookup finds the agent.
  pub get-run :
      (d : Duration) (last : Time) (r : Registry) (events : List Event) (later : Time)
      → Holds d last r
      → InTime d last events later
      → (e : Entry) × (get (run r events) later namespace name ≡ some e)
  unfolding run
  get-run d last r [] later h soon = get-Holds d last later r soon h
  get-run d last r (beat t ∷ events) later h soon =
      get-run d t _ events later (heartbeat-Holds d last t r h) soon
  get-run d last r (sweep t ∷ events) later h (soon, rest) =
      get-run d last _ events later (sweep_expired-Holds d last t r soon h) rest
