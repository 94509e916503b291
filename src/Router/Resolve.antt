-- ===== src/Router/Resolve.antt =====
-- Which route answers for a host.
use mathlib.Core.Path.{subst}
use mathlib.Core.List.{Mem, mem-cons_self, mem-cons_of_mem}
use propylea.Prelude.{
  Bool, Bool-cases, List, Option, Option-cases, Text, [], any, arith, head?, if◌then◌else◌, inl,
  inr, none, refl, some, text_eq, ◌∙◌, ◌∷◌, ◌≡◌,
}
use propylea.Config.{RouteConfig}
use propylea.Router.{
  HostMap, UpstreamRouter, UpstreamTarget, add_hosts, add_route, add_routes, clean_domain,
  clean_host, get, insert, new, or_target, resolve, target_of,
}

-- The route serves the cleaned host.
abbrev pub serves : Text → RouteConfig → Bool
serves host r = any (λ d. text_eq (clean_domain d) host) r.domains

-- The last route of the list that serves the host.
abbrev pub last_serving : Text → List RouteConfig → Option RouteConfig
last_serving host [] = none
last_serving host (r ∷ rs) = elim (last_serving host rs) [
  | some found ↦ some found
  | none ↦ if serves host r then some r else none
]

-- The specification: the last route that serves the host, else the first route of all.
abbrev pub chosen_route : Text → List RouteConfig → Option RouteConfig
chosen_route host rs = elim (last_serving host rs) [ some found ↦ some found | none ↦ head? rs ]

get-add_hosts :
    (host : Text) (t : UpstreamTarget) (ds : List Text) (m : HostMap)
    → get host (add_hosts t ds m)
      ≡ (if any (λ d. text_eq (clean_domain d) host) ds then some t else get host m)
unfolding add_hosts
get-add_hosts host t [] m = refl
get-add_hosts host t (d ∷ ds) m =
    get-add_hosts host t ds (insert (clean_domain d) t m) ∙ (unfold get in ground arith)

abbrev pub hit : Option RouteConfig → Option UpstreamTarget → Option UpstreamTarget
hit none d = d
hit (some r) d = some (target_of r)

get-add_routes :
    (host : Text) (u : UpstreamRouter) (rs : List RouteConfig)
    → get host (add_routes u rs).routes ≡ hit (last_serving host rs) (get host u.routes)
unfolding add_routes
get-add_routes host u [] = refl
get-add_routes host u (r ∷ rs) =
    get-add_routes host (add_route u r) rs
    ∙ (unfold add_route in ground (arith, get-add_hosts host (target_of r) r.domains u.routes))

default-add_routes :
    (u : UpstreamRouter) (rs : List RouteConfig)
    → (add_routes u rs).default_target ≡ or_target u.default_target (hit (head? rs) none)
unfolding add_routes
default-add_routes u [] = ground arith
default-add_routes u (r ∷ rs) =
    default-add_routes (add_route u r) rs ∙ (unfold add_route in ground arith)

-- A host goes to the last of the configured routes that lists it, and a host that no route lists
-- goes to the first route.
pub resolve-chosen_route :
    (rs : List RouteConfig) (raw_host : Text)
    → resolve (new rs) raw_host ≡ hit (chosen_route (clean_host raw_host) rs) none
unfolding resolve new
resolve-chosen_route rs raw_host =
    let start : UpstreamRouter = record { routes = []; default_target = none } in
    let table = get-add_routes (clean_host raw_host) start rs in
    let first = default-add_routes start rs in ground (arith, table, first)

mem-last_serving :
    (host : Text) (r : RouteConfig) (rs : List RouteConfig)
    → last_serving host rs ≡ some r
    → Mem r rs
mem-last_serving host r [] h = cc
mem-last_serving host r (x ∷ rs) h = elim (Option-cases (last_serving host rs)) [
  | inl none_later ↦
      let first : (if serves host x then some x else none) ≡ some r = rw none_later at h in
      elim (Bool-cases (serves host x)) [
        | inl e ↦
            let same : some x ≡ some r = rw e at first in
            let eq : x ≡ r = cc in subst (λ y. Mem y (x ∷ rs)) eq mem-cons_self
        | inr e ↦ let clash : ◌≡◌ {A = Option RouteConfig} none (some r) = rw e at first in cc
      ]
  | inr (found, later) ↦ mem-cons_of_mem x (mem-last_serving host r rs (later ∙ (rw later at h)))
]

mem-head? : (r : RouteConfig) (rs : List RouteConfig) → head? rs ≡ some r → Mem r rs
mem-head? r [] h = cc
mem-head? r (x ∷ rs) h = let eq : x ≡ r = cc in subst (λ y. Mem y (x ∷ rs)) eq mem-cons_self

mem-chosen :
    (host : Text) (r : RouteConfig) (rs : List RouteConfig) (o : Option RouteConfig)
    → last_serving host rs ≡ o
    → (elim o [ some found ↦ some found | none ↦ head? rs ]) ≡ some r
    → Mem r rs
mem-chosen host r rs none later h = mem-head? r rs h
mem-chosen host r rs (some found) later h = mem-last_serving host r rs (later ∙ h)

pub mem-chosen_route :
    (host : Text) (r : RouteConfig) (rs : List RouteConfig)
    → chosen_route host rs ≡ some r
    → Mem r rs
mem-chosen_route host r rs h = mem-chosen host r rs (last_serving host rs) refl h
