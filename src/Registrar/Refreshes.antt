-- ===== src/Registrar/Refreshes.antt =====
-- Heartbeats: a good probe keeps an agent registered, or registers it again.
use Prim.Native.String.append
use Prim.Native.String.{◌++◌ as str_append}
use text.Mathlib.TextLemmas.{cons≢nil}
use agentrax.Prelude.{
  pos, String, ◌≡◌, ◌≢◌, refl, sym, ◌∙◌, ap, false, Option, none, some, List, ◌==◌, eq_iff, eq_refl,
  Bool-cases, Option-cases, inl, inr,
}
use agentrax.Dict.{lookup, insert, lookup-insert, lookup-delete}
use agentrax.Api.{Time, AgentDeployment}
use agentrax.Registry
use agentrax.Registry.{Registry, RegistryError, Entry, not_found, key}
use agentrax.Registry.Expiry.{heartbeat_missing}
use agentrax.Registrar.{
  Registrar, Probe, advertised, endpoint_for_agent, reset_failures, merge_tools, registered_or,
  heartbeat_in, register, heartbeat, heartbeat_probed, refreshed,
}

http_nonempty : (t : String) → (str_append "http://" t == "") ≡ false
http_nonempty t = elim (Bool-cases (str_append "http://" t == "")) [
  | inl bad ↦
      absurd
        (cons≢nil (sym (append.cons "h" "ttp://" t) ∙ (eq_iff (str_append "http://" t) "").0 bad))
  | inr fine ↦ fine
]

endpoint_nonempty : (ad : AgentDeployment) → (endpoint_for_agent ad == "") ≡ false
unfolding endpoint_for_agent
endpoint_nonempty ad = http_nonempty _

-- The store holds what it is given.
register_stores :
    (r : Registry) (now : Time) (e : Entry)
    → (e.namespace == "") ≡ false
    → (e.name == "") ≡ false
    → (e.endpoint == "") ≡ false
    → lookup (key e.namespace e.name) (Registry.register r now e).0.entries ≢ none
unfolding Registry.register
register_stores r now e a b c =
    rw (a, b, c) (rw (lookup-insert, eq_refl (key e.namespace e.name)) (λ h. cc))

-- What is wanted of a registrar after a good probe.
abbrev IsRegistered : Registrar → AgentDeployment → Type 0
IsRegistered g' ad =
    (lookup (key ad.namespace ad.name) g'.failures ≡ none)
    × ((r' : Registry) × (g'.registry ≡ some r')
        × (lookup (key ad.namespace ad.name) r'.entries ≢ none))

good_probe :
    (g : Registrar) (r : Registry) (now : Time) (initialize again : String → Probe)
    (ad : AgentDeployment) (tools : List String)
    → g.registry ≡ some r
    → initialize (endpoint_for_agent ad) ≡ advertised tools
    → heartbeat g now initialize again ad
      ≡ refreshed
          (reset_failures g ad.namespace ad.name)
          now
          again
          ad
          (Registry.heartbeat r now ad.namespace ad.name)
unfolding heartbeat
good_probe g r now initialize again ad tools reg up =
    ap (λ o. heartbeat_in g o now initialize again ad) reg
    ∙ ap (λ p. heartbeat_probed g r now p again ad) up

heartbeat_known :
    (r : Registry) (now : Time) (ad : AgentDeployment) (e : Entry)
    → lookup (key ad.namespace ad.name) r.entries ≡ some e
    → Registry.heartbeat r now ad.namespace ad.name ≡ (
      record r {
        entries = insert (key ad.namespace ad.name) (record e { heartbeat_at = now }) r.entries;
      },
      none,
    )
unfolding Registry.heartbeat
heartbeat_known r now ad e known = rw known refl

refreshed_known :
    (g : Registrar) (r : Registry) (ad : AgentDeployment) (now : Time) (again : String → Probe)
    (e : Entry)
    → IsRegistered
        (refreshed (reset_failures g ad.namespace ad.name) now again ad (
          record r {
            entries = insert (key ad.namespace ad.name) (record e { heartbeat_at = now }) r.entries;
          },
          none,
        )).0
        ad
unfolding refreshed reset_failures
refreshed_known g r ad now again e = (
  rw (lookup-delete, eq_refl (key ad.namespace ad.name)) refl,
  (_, refl, rw (lookup-insert, eq_refl (key ad.namespace ad.name)) (λ h. cc)),
)

registered_or-IsRegistered :
    (g : Registrar) (ad : AgentDeployment) (r : Registry) (e : Option RegistryError)
    → lookup (key ad.namespace ad.name) g.failures ≡ none
    → lookup (key ad.namespace ad.name) r.entries ≢ none
    → IsRegistered (registered_or g ad (r, e)).0 ad
unfolding registered_or reset_failures
registered_or-IsRegistered g ad r none f h =
    (rw (lookup-delete, eq_refl (key ad.namespace ad.name)) refl, (r, refl, h))
registered_or-IsRegistered g ad r (some e) f h = (f, (r, refl, h))

refreshed-IsRegistered :
    (g : Registrar) (r : Registry) (ad : AgentDeployment) (now : Time) (again : String → Probe)
    (more : List String)
    → again (endpoint_for_agent ad) ≡ advertised more
    → (ad.namespace == "") ≡ false
    → (ad.name == "") ≡ false
    → lookup (key ad.namespace ad.name) g.failures ≡ none
    → IsRegistered (refreshed g now again ad (r, some (not_found (key ad.namespace ad.name)))).0 ad
unfolding refreshed register
refreshed-IsRegistered g r ad now again more up ns nm f = rw up (
    registered_or-IsRegistered (record g { registry = some r }) ad _ _ f
      (register_stores r now
        (record {
          namespace = ad.namespace;
          name = ad.name;
          endpoint = endpoint_for_agent ad;
          tools = merge_tools more ad.spec.mcp.tools;
          registered_at = pos 0;
          heartbeat_at = pos 0;
          ttl = pos 0;
        })
        ns nm (endpoint_nonempty ad)))

-- A good probe clears the failures of the agent and leaves it registered: a known agent by its
-- heartbeat, and one that the registry has lost by a new registration, for which the agent is
-- probed again.
pub good_probe_registers :
    (g : Registrar) (r : Registry) (ad : AgentDeployment) (now : Time)
    (initialize again : String → Probe) (tools more : List String)
    → g.registry ≡ some r
    → initialize (endpoint_for_agent ad) ≡ advertised tools
    → again (endpoint_for_agent ad) ≡ advertised more
    → (ad.namespace == "") ≡ false
    → (ad.name == "") ≡ false
    → let g' = (heartbeat g now initialize again ad).0 in
      (lookup (key ad.namespace ad.name) g'.failures ≡ none)
      × ((r' : Registry) × (g'.registry ≡ some r')
          × (lookup (key ad.namespace ad.name) r'.entries ≢ none))
good_probe_registers g r ad now initialize again tools more reg up up' ns nm =
    rw (good_probe g r now initialize again ad tools reg up)
      (elim (Option-cases (lookup (key ad.namespace ad.name) r.entries)) [
        | inl lost ↦ rw (heartbeat_missing r now ad.namespace ad.name lost) (
            refreshed-IsRegistered (reset_failures g ad.namespace ad.name) r ad now again more up'
              ns nm
              (unfold reset_failures in
                rw (lookup-delete, eq_refl (key ad.namespace ad.name)) refl))
        | inr (e, known) ↦
            rw (heartbeat_known r now ad e known) (refreshed_known g r ad now again e)
      ])
