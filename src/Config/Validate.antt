-- ===== src/Config/Validate.antt =====
-- What `validate` and the loader guarantee.
use propylea.Prelude.{
  >>=-eq-ok, All, Bool, Bool-cases, List, Option, Result, Text, [], arith, err, false,
  if◌then◌else◌, inl, inr, is_empty, map_err, none, ok, refl, some, true, ℕ, ◌++◌, ◌+◌, ◌>>=◌, ◌>>◌,
  ◌↔◌, ◌∷◌, ◌≡◌, ◌≢◌, ◌⊎◌,
}
use mathlib.Core.List.{concat-ne-nil}
use propylea.Config.Addr.{SocketAddr, addr_mem}
use propylea.Config.{
  ConfigError, Loader, PropyleaConfig, RouteConfig, from_str, io, list_or_nil, load_from_file,
  opt_list, push_new, resolved_upstreams, toml, validate, validate_route, validate_routes,
}

-- A route with a domain and an upstream.
pub record IsRoute (r : RouteConfig) : Type 0 where
  pub has_domain : r.domains ≢ []
  pub has_upstream : (r.upstream ≢ none) ⊎ (list_or_nil r.upstreams ≢ [])

push_new-ne-nil : (list ups : List SocketAddr) → list ≢ [] → push_new list ups ≢ []
unfolding push_new
push_new-ne-nil list [] h = h
push_new-ne-nil list (u ∷ ups) h = elim (Bool-cases (addr_mem u list)) [
  | inl old ↦ rw old (push_new-ne-nil list ups h)
  | inr fresh ↦ rw fresh (push_new-ne-nil (list ++ (u ∷ [])) ups (concat-ne-nil u list))
]

push_new-nil : (ups : List SocketAddr) → ups ≢ [] → push_new [] ups ≢ []
unfolding push_new addr_mem
push_new-nil [] h = h
push_new-nil (u ∷ ups) h = push_new-ne-nil (u ∷ []) ups (λ e. cc)

push_new-ne-nil_iff :
    (o : Option SocketAddr) (ups : List SocketAddr)
    → (push_new (opt_list o) ups ≢ []) ↔ ((o ≢ none) ⊎ (ups ≢ []))
push_new-ne-nil_iff (some u) ups =
    ((λ h. inl (λ e. cc)), λ h. push_new-ne-nil (u ∷ []) ups (λ e. cc))
push_new-ne-nil_iff none [] = ((λ h. absurd (h (unfold push_new in refl))), λ h. ground arith)
push_new-ne-nil_iff none (u ∷ ups) = ((λ h. inr (λ e. cc)), λ h. push_new-nil (u ∷ ups) (λ e. cc))

nonempty_iff :
    (xs : List SocketAddr) (e : ConfigError)
    → ((list : List SocketAddr) × ((if is_empty xs then err e else ok xs) ≡ ok list)) ↔ (xs ≢ [])
nonempty_iff [] e = ((λ h. let (l, q) = h in cc), (λ h. absurd (h refl)))
nonempty_iff (x ∷ xs) e = ((λ h z. cc), (λ h. (x ∷ xs, refl)))

pub resolved_upstreams_iff :
    (r : RouteConfig)
    → ((list : List SocketAddr) × (resolved_upstreams r ≡ ok list))
      ↔ ((r.upstream ≢ none) ⊎ (list_or_nil r.upstreams ≢ []))
unfolding resolved_upstreams
resolved_upstreams_iff r =
    let found = push_new-ne-nil_iff r.upstream (list_or_nil r.upstreams) in
    let both = nonempty_iff (push_new (opt_list r.upstream) (list_or_nil r.upstreams)) _ in
    ((λ h. found.0 (both.0 h)), (λ h. both.1 (found.1 h)))

abbrev accepted : Result (Unit {0}) ConfigError
accepted = ok tt

route_checks :
    (empty : Bool) (m : Result (List SocketAddr) ConfigError) (e : ConfigError)
    (f : ConfigError → ConfigError)
    → ((if empty then err e else (map_err f m >>= λ _. accepted)) ≡ accepted)
      ↔ ((empty ≡ false) × ((list : List SocketAddr) × (m ≡ ok list)))
route_checks true m e f = ((λ h. cc), (λ h. cc))
route_checks false (ok l) e f = ((λ h. (refl, (l, refl))), (λ h. refl))
route_checks false (err x) e f = ((λ h. cc), (λ h. let (l, q) = h.1 in cc))

-- A route is accepted just when it is well formed.
validate_route_iff : (i : ℕ) (r : RouteConfig) → (validate_route i r ≡ ok tt) ↔ IsRoute r
unfolding validate_route
validate_route_iff i r =
    let found = resolved_upstreams_iff r in
    let checks = route_checks (is_empty r.domains) (resolved_upstreams r) _ _ in
    (
      (λ h.
          let p = checks.0 h in
          record { has_domain = ground (arith, p.0); has_upstream = found.0 p.1 }),
      (λ w. checks.1 (ground (arith, w.has_domain), found.1 w.has_upstream)),
    )

validate_routes_iff :
    (i : ℕ) (rs : List RouteConfig) → (validate_routes i rs ≡ ok tt) ↔ All IsRoute rs
unfolding validate_routes
validate_routes_iff i [] = ((λ h. tt), (λ h. refl))
validate_routes_iff i (r ∷ rs) =
    let first = validate_route_iff i r in
    let later = validate_routes_iff (i + 1) rs in
    (
      (λ h.
          let (u, e, e') = >>=-eq-ok (validate_route i r) (λ _. validate_routes (i + 1) rs) h in
          (first.0 e, later.0 e')),
      (λ w. rw (first.1 w.0) (later.1 w.1)),
    )

-- A configuration is accepted exactly when it has a route, and each route has a domain and at
-- least one upstream address.
pub validate_iff :
    (c : PropyleaConfig) → (validate c ≡ ok tt) ↔ ((c.routes ≢ []) × All IsRoute c.routes)
unfolding validate
validate_iff c = (
  (λ h. (ground arith, (validate_routes_iff 0 c.routes).0 (ground arith))),
  (λ w. ground (arith, w.0, (validate_routes_iff 0 c.routes).1 w.1)),
)

checked : PropyleaConfig → Result PropyleaConfig ConfigError
checked config = validate config >> ok config

checked_ok : (config c : PropyleaConfig) → checked config ≡ ok c → validate c ≡ ok tt
unfolding checked
checked_ok config c h =
    let (u, e, same) = >>=-eq-ok (validate config) (λ _. ok config) h in
    let eq : config ≡ c = cc in rw (← eq) e

parsed_ok :
    (m : Result PropyleaConfig Text) (c : PropyleaConfig)
    → elim m [ ok config ↦ checked config | err e ↦ err (toml e) ] ≡ ok c
    → validate c ≡ ok tt
parsed_ok (ok config) c h = checked_ok config c h
parsed_ok (err e) c h = cc

from_str_ok :
    (l : Loader) (s : Text) (c : PropyleaConfig) → from_str l s ≡ ok c → validate c ≡ ok tt
from_str_ok l s c h = parsed_ok (l.parse_toml s) c (unfold from_str checked in h)

loaded_ok :
    (l : Loader) (path : Text) (m : Result Text Text) (c : PropyleaConfig)
    → elim m [ ok content ↦ from_str l content | err e ↦ err (io path e) ] ≡ ok c
    → validate c ≡ ok tt
loaded_ok l path (ok content) c h = from_str_ok l content c h
loaded_ok l path (err e) c h = cc

-- Whatever text or file is loaded, a configuration that comes out has passed the validation.
pub load_from_file-IsRoute :
    (l : Loader) (path : Text) (c : PropyleaConfig)
    → load_from_file l path ≡ ok c
    → (c.routes ≢ []) × All IsRoute c.routes
unfolding load_from_file
load_from_file-IsRoute l path c h =
    (validate_iff c).0 (loaded_ok l path (l.read_to_string path) c h)
