-- ===== src/Application/Accepted.antt =====
-- What the routing table of the watcher of src/config_watcher.rs is built from.
use mathlib.Core.List.{Memᴰ}
use mathlib.Core.Path.{subst}
use konnector.Prelude.{
  ◌≡◌, refl, true, List, [], ◌∷◌, arith, ok, Result-cases, inl, inr, ◌⊎◌, ◌∙◌, ◌++◌, append_assoc,
  All,
}
use konnector.Configs.Types.{SiteConfig}
use konnector.Configs.Root.{server}
use konnector.Configs.Loading.{load_sites_from_lenient}
use konnector.Validation.Site.{ClaimMap, validate_site, filter_from, filter_valid_sites}
use konnector.Validation.Exclusive.{
  Exclusive, accept, skip, filter_step, filter_valid_sites-Exclusive,
}
use konnector.Validation.Server.{validate_server, IsReady, validate_server-IsReady}
use konnector.Proxy.Routing.{ProxyRouting, build_proxy_routing}
use konnector.Application.{
  Sources, valid_sites, reload_routing, access, change, WatchEvent, watch_error, event, Running,
  on_event, watch,
}

-- A site that the validation accepted, beside the domains that were claimed before it.
abbrev pub IsValidated : Sources → SiteConfig → Type 0
IsValidated s site =
    (site.enabled ≡ true)
    × (claimed : ClaimMap) × (claimed' : ClaimMap) × (validate_site s.view.is_file site claimed
        ≡ ok claimed')

-- A routing table that a server may run with: that of the settings and the sites which one of the
-- events found, a change, where all of them were accepted.
pub record IsAccepted (events : List (Sources × WatchEvent)) (routing : ProxyRouting) : Type 0 where
  pub sources : Sources
  pub change : Memᴰ (sources, event change) events
  pub built :
      routing
      ≡ build_proxy_routing
          (valid_sites sources)
          (server sources.machine).root_proxy
          (server sources.machine).logging
  pub loaded :
      All
        (λ site. Memᴰ site (load_sites_from_lenient sources.parse_site sources.names))
        (valid_sites sources)
  pub validated : All (IsValidated sources) (valid_sites sources)
  pub exclusive : Exclusive (valid_sites sources)
  pub ready : IsReady sources.view (server sources.machine) (valid_sites sources)

-- The sites that are left are some of those that were loaded, and were validated.
filter_from_sound :
    (s : Sources) (sites all_sites : List SiteConfig) (m : ClaimMap)
    → All (λ site. Memᴰ site all_sites) sites
    → All (λ site. Memᴰ site all_sites) (filter_from s.view.is_file sites m)
      × All (IsValidated s) (filter_from s.view.is_file sites m)
unfolding filter_from
filter_from_sound s [] all_sites m within = (tt, tt)
filter_from_sound s (site ∷ rest) all_sites m (here, later) =
    elim (filter_step s.view.is_file site m rest) [
      | accept m' on accepted step ↦
          let (found, valid) = filter_from_sound s rest all_sites m' later in
          rw step ((here, found), ((on, m, m', accepted), valid))
      | skip step ↦ rw step (filter_from_sound s rest all_sites m later)
    ]

Memᴰ-behind :
    (more : List SiteConfig) (site : SiteConfig) (sites : List SiteConfig)
    → Memᴰ site (more ++ site ∷ sites)
Memᴰ-behind [] site sites = Memᴰ.head refl
Memᴰ-behind (s ∷ more) site sites = Memᴰ.tail (Memᴰ-behind more site sites)

All-Memᴰ : (more sites : List SiteConfig) → All (λ site. Memᴰ site (more ++ sites)) sites
All-Memᴰ more [] = tt
All-Memᴰ more (site ∷ sites) = (
  Memᴰ-behind more site sites,
  subst (λ all_sites. All (λ s. Memᴰ s all_sites) sites) (append_assoc more (site ∷ []) sites)
      (All-Memᴰ (more ++ site ∷ []) sites),
)

valid_sites_sound :
    (s : Sources)
    → All (λ site. Memᴰ site (load_sites_from_lenient s.parse_site s.names)) (valid_sites s)
      × All (IsValidated s) (valid_sites s)
unfolding filter_valid_sites
valid_sites_sound s =
    let loaded = load_sites_from_lenient s.parse_site s.names in
    filter_from_sound s loaded loaded [] (All-Memᴰ [] loaded)

-- What a change of the directory leaves, if it does not leave the routing table as it was.
reload_routing-cases :
    (s : Sources) (events : List (Sources × WatchEvent)) (routing : ProxyRouting)
    → Memᴰ (s, event change) events
    → (reload_routing s routing ≡ routing) ⊎ IsAccepted events (reload_routing s routing)
unfolding reload_routing
reload_routing-cases s events routing seen =
    let root = server s.machine in
    let (loaded, validated) = valid_sites_sound s in
    elim (Result-cases (validate_server s.view root (valid_sites s))) [
      | inl (_, accepted) ↦ inr (record {
        sources = s;
        change = seen;
        built = ground (arith, accepted);
        loaded = loaded;
        validated = validated;
        exclusive =
            filter_valid_sites-Exclusive s.view.is_file
              (load_sites_from_lenient s.parse_site s.names);
        ready = validate_server-IsReady s.view root (valid_sites s) accepted;
      })
      | inr (e, refused) ↦ inl (ground (arith, refused))
    ]

on_event-cases :
    (s : Sources) (e : WatchEvent) (events : List (Sources × WatchEvent)) (running : Running)
    → Memᴰ (s, e) events
    → ((on_event s e running).routing ≡ running.routing)
      ⊎ IsAccepted events (on_event s e running).routing
unfolding on_event
on_event-cases s watch_error events running seen = inl refl
on_event-cases s (event access) events running seen = inl refl
on_event-cases s (event change) events running seen =
    reload_routing-cases s events running.routing seen

later_events :
    (s : Sources) (e : WatchEvent) (events : List (Sources × WatchEvent)) (routing : ProxyRouting)
    → IsAccepted events routing
    → IsAccepted ((s, e) ∷ events) routing
later_events s e events routing a = record {
  sources = a.sources;
  change = Memᴰ.tail a.change;
  built = a.built;
  loaded = a.loaded;
  validated = a.validated;
  exclusive = a.exclusive;
  ready = a.ready;
}

-- Whatever happens to the configuration directory, and in whatever order: the routing table is the
-- one that the watcher started with, or that of the settings and the sites which were read at one of
-- the changes, where the server was accepted with them; each of those sites was loaded and validated
-- then, and no two of them answer for one host name on one listener and for one kind of traffic.
pub watch-IsAccepted :
    (events : List (Sources × WatchEvent)) (running : Running)
    → ((watch events running).routing ≡ running.routing)
      ⊎ IsAccepted events (watch events running).routing
unfolding watch
watch-IsAccepted [] running = inl refl
watch-IsAccepted ((s, e) ∷ events) running = elim (watch-IsAccepted events (on_event s e running)) [
  | inr accepted ↦ inr (later_events s e events _ accepted)
  | inl kept ↦ elim (on_event-cases s e ((s, e) ∷ events) running (Memᴰ.head refl)) [
    | inl same ↦ inl (kept ∙ same)
    | inr accepted ↦ inr (rw kept accepted)
  ]
]
