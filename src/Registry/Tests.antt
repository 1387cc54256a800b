-- ===== src/Registry/Tests.antt =====
-- The registry theorems at a concrete registry.
use agentrax.Prelude.{pos, ◌-ℤ◌, ◌≡◌, ◌≢◌, refl, none, some, [], ◌∷◌}
use agentrax.Dict.{lookup}
use agentrax.Registry.{Registry, Entry, Store, Loaded, key, new_registry, get, register, heartbeat}
use agentrax.Registry.Expiry.{IsValid}
use agentrax.Registry.Replicas.{
  config_map_after, started, written, follower, follower_sweep_forgets,
}
use agentrax.Registry.Http.{handle, post_agent, status, failed_write_registers}

abbrev entry : Entry
entry = record {
  namespace = "team-a";
  name = "agent";
  endpoint = "http://agent.team-a.svc:8080";
  tools = "search" ∷ [];
  registered_at = pos 0;
  heartbeat_at = pos 0;
  ttl = pos 60;
}

abbrev broken_store : Store
broken_store = record { load = Loaded.nothing; save = λ entries. some "conflict" }

abbrev broken : Registry
broken = new_registry (some broken_store) "agentrax-system" (pos 0)

abbrev one_agent : Registry
one_agent = record (new_registry none "agentrax-system" (pos 30)) {
  entries = (key "team-a" "agent", entry) ∷ [];
}

one_agent-IsValid : IsValid one_agent
one_agent-IsValid = (unfold lookup in refl, tt)

failed_write_registers_example :
    let (r', response) = handle broken (pos 10) (post_agent (some entry)) in
    (status response ≡ 400) × (lookup (key "team-a" "agent") r'.entries ≢ none)
unfolding new_registry
failed_write_registers_example =
    failed_write_registers broken (pos 10) entry broken_store "conflict" refl refl (λ entries. refl)

follower_sweep_forgets_example :
    (found : Entry) × (get
        (heartbeat (register one_agent (pos 0) entry).0 (pos 50) "team-a" "agent").0
        (pos 100)
        "team-a"
        "agent"
      ≡ some found)
    × (get
          (started "agentrax-system" (pos 30) (
            config_map_after
              (written "agentrax-system" (pos 30) one_agent entry (pos 0) (pos 50) (pos 100))
              (follower "agentrax-system" (pos 30) one_agent entry (pos 0) (pos 50) (pos 100))
              (pos 100)))
          (pos 60)
          "team-a"
          "agent"
        ≡ none)
unfolding lookup ◌-ℤ◌
follower_sweep_forgets_example =
    follower_sweep_forgets "agentrax-system" (pos 30) one_agent entry (pos 0) (pos 50) (pos 100)
      (pos 60)
      (record {
        fields = refl;
        one_each = (refl, tt);
        positive = refl;
        overdue = refl;
        in_time = refl;
      })
