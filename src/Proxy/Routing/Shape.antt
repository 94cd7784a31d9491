-- ===== src/Proxy/Routing/Shape.antt =====
-- Which index of the table is which site.
use konnector.Prelude.{
  ℕ, zero, suc, ◌≡◌, refl, ap, ◌⊎◌, inl, inr, Option, none, some, List, [], ◌∷◌, ◌++◌, map, length,
  get_elem?,
}
use konnector.Configs.Types.{SiteConfig, ProxyTarget, LogLevel}
use konnector.Proxy.Runtime.{SiteRuntime}
use konnector.Proxy.Routing.{site_runtime, root_runtime, build_proxy_routing}

get_elem?-map {ℓ κ} :
    {A : Type ℓ} {B : Type κ} (f : A → B) (xs : List A) (i : ℕ) {b : B}
    → get_elem? (map f xs) i ≡ some b
    → (a : A) × (get_elem? xs i ≡ some a) × (f a ≡ b)
get_elem?-map f [] i h = cc
get_elem?-map f (x ∷ xs) zero h = (x, refl, cc)
get_elem?-map f (x ∷ xs) (suc i) h = get_elem?-map f xs i h

get_elem?-append_last {ℓ} :
    {A : Type ℓ} (xs : List A) (a : A) (i : ℕ) {b : A}
    → get_elem? (xs ++ a ∷ []) i ≡ some b
    → (get_elem? xs i ≡ some b) ⊎ ((i ≡ length xs) × (b ≡ a))
get_elem?-append_last [] a zero h = inr (refl, cc)
get_elem?-append_last [] a (suc i) h = cc
get_elem?-append_last (x ∷ xs) a zero h = inl h
get_elem?-append_last (x ∷ xs) a (suc i) h = elim (get_elem?-append_last xs a i h) [
  | inl e ↦ inl e
  | inr (at, e) ↦ inr (ap suc at, e)
]

get_elem?-last {ℓ} :
    {A : Type ℓ} (xs : List A) (a : A) → get_elem? (xs ++ a ∷ []) (length xs) ≡ some a
get_elem?-last [] a = refl
get_elem?-last (x ∷ xs) a = get_elem?-last xs a

pub length-map {ℓ κ} :
    {A : Type ℓ} {B : Type κ} (f : A → B) (xs : List A) → length (map f xs) ≡ length xs
length-map f [] = refl
length-map f (x ∷ xs) = ap suc (length-map f xs)

-- A site of the table is the site of the configuration at its index, or the root proxy behind them.
pub build_proxy_routing-sites :
    (configs : List SiteConfig) (root : Option ProxyTarget) (default : LogLevel) (i : ℕ)
    {site : SiteRuntime}
    → get_elem? (build_proxy_routing configs root default).sites i ≡ some site
    → ((c : SiteConfig) × (get_elem? configs i ≡ some c) × (site_runtime default c ≡ site))
      ⊎ ((target : ProxyTarget) × (root ≡ some target)
          × (i ≡ length configs)
          × (site ≡ root_runtime default target))
unfolding build_proxy_routing
build_proxy_routing-sites configs none default i h =
    inl (get_elem?-map (site_runtime default) configs i h)
build_proxy_routing-sites configs (some target) default i h =
    elim (get_elem?-append_last (map (site_runtime default) configs) (root_runtime default target) i
      h) [
        | inl e ↦ inl (get_elem?-map (site_runtime default) configs i e)
        | inr (at, e) ↦ inr (target, refl, rw (length-map (site_runtime default) configs) at at, e)
      ]

-- With a root proxy the table's root index is the number of the sites, and the root proxy is there.
pub build_proxy_routing-root :
    (configs : List SiteConfig) (target : ProxyTarget) (default : LogLevel)
    → ((build_proxy_routing configs (some target) default).root_site ≡ some (length configs))
      × (get_elem? (build_proxy_routing configs (some target) default).sites (length configs)
          ≡ some (root_runtime default target))
unfolding build_proxy_routing
build_proxy_routing-root configs target default = (
  ap some (length-map (site_runtime default) configs),
  rw (← length-map (site_runtime default) configs)
      (get_elem?-last (map (site_runtime default) configs) (root_runtime default target)),
)
