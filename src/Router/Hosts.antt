-- ===== src/Router/Hosts.antt =====
-- Spellings of a host that the router does not tell apart, and where a request goes.
use mathlib.Core.Path.{subst}
use mathlib.Core.Logic.Or
use mathlib.Core.List.{Mem, mem-cons, mem-cons_self, mem-cons_of_mem, not-mem-nil}
use propylea.Prelude.{
  All, All-append, Bool-cases, List, NoChar, Option-cases, Text, [], ap, arith, before_char,
  before_char-append, err, false, inl, inr, is_ascii_upper, is_whitespace, ok, refl, some, sym,
  to_ascii_lowercase, to_lower, trim, trim_end_by, trim_end_step, trim_start, true, ℕ, ◌++◌, ◌+◌,
  ◌==◌, ◌∙◌, ◌∷◌, ◌≡◌, ◌≢◌,
}
use propylea.Config.Addr.{SocketAddr, addr_eq_iff, addr_mem, addr_mem-append, addr_mem-cons}
use propylea.Config.{
  PropyleaConfig, RouteConfig, first_or, list_or_nil, opt_list, primary_upstream,
  resolved_upstreams, validate,
}
use propylea.Config.Upstreams.{resolved_upstreams-Resolves}
use propylea.Config.Validate.{IsRoute, resolved_upstreams_iff, validate_iff}
use propylea.Router.{UpstreamRouter, clean_host, new, resolve, target_of}
use propylea.Router.Resolve.{chosen_route, hit, last_serving, resolve-chosen_route, serves}

to_lower-space : (c : ℕ) → is_whitespace (to_lower c) ≡ is_whitespace c
to_lower-space c = elim (Bool-cases (is_ascii_upper c)) [
  | inl up ↦ rw (up, upper-space c up, upper-space_low c up)
  | inr other ↦ rw other
]
  where
    upper-space : (c : ℕ) → is_ascii_upper c ≡ true → is_whitespace c ≡ false
    upper-space c h = ground arith

    upper-space_low : (c : ℕ) → is_ascii_upper c ≡ true → is_whitespace (c + 32) ≡ false
    upper-space_low c h = ground arith

to_lower-colon : (c : ℕ) → (to_lower c == b':') ≡ (c == b':')
to_lower-colon c = ground arith

to_lower_idem : (c : ℕ) → to_lower (to_lower c) ≡ to_lower c
to_lower_idem c = ground arith

lowercase_idem : (s : Text) → to_ascii_lowercase (to_ascii_lowercase s) ≡ to_ascii_lowercase s
lowercase_idem [] = refl
lowercase_idem (c ∷ s) = cc (to_lower_idem c, lowercase_idem s)

trim_start-lowercase :
    (s : Text) → trim_start (to_ascii_lowercase s) ≡ to_ascii_lowercase (trim_start s)
trim_start-lowercase [] = refl
trim_start-lowercase (c ∷ s) = elim (Bool-cases (is_whitespace c)) [
  | inl sp ↦ rw (to_lower-space c, sp) (trim_start-lowercase s)
  | inr no_sp ↦ rw (to_lower-space c, no_sp)
]

trim_end_step-lowercase :
    (c : ℕ) (s : Text)
    → trim_end_step is_whitespace (to_lower c) (to_ascii_lowercase s)
      ≡ to_ascii_lowercase (trim_end_step is_whitespace c s)
trim_end_step-lowercase c [] = elim (Bool-cases (is_whitespace c)) [
  | inl sp ↦ rw (to_lower-space c, sp)
  | inr no_sp ↦ rw (to_lower-space c, no_sp)
]
trim_end_step-lowercase c (d ∷ s) = refl

trim_end-lowercase :
    (s : Text)
    → trim_end_by is_whitespace (to_ascii_lowercase s)
      ≡ to_ascii_lowercase (trim_end_by is_whitespace s)
trim_end-lowercase [] = refl
trim_end-lowercase (c ∷ s) =
    ap (trim_end_step is_whitespace (to_lower c)) (trim_end-lowercase s)
    ∙ trim_end_step-lowercase c (trim_end_by is_whitespace s)

before_colon-lowercase :
    (s : Text) → before_char b':' (to_ascii_lowercase s) ≡ to_ascii_lowercase (before_char b':' s)
before_colon-lowercase [] = refl
before_colon-lowercase (c ∷ s) = elim (Bool-cases (c == b':')) [
  | inl e ↦ rw (to_lower-colon c, e)
  | inr n ↦ rw (to_lower-colon c, n, before_colon-lowercase s)
]

clean_host-lowercase : (s : Text) → clean_host (to_ascii_lowercase s) ≡ clean_host s
unfolding clean_host
clean_host-lowercase s =
    rw (trim_start-lowercase s, trim_end-lowercase (trim_start s), before_colon-lowercase (trim s))
      (lowercase_idem (before_char b':' (trim s)))

-- A host is matched whatever its letter case.
pub resolve-lowercase :
    (u : UpstreamRouter) (raw : Text) → resolve u (to_ascii_lowercase raw) ≡ resolve u raw
unfolding resolve
resolve-lowercase u raw = rw (clean_host-lowercase raw)

abbrev pub NoSpace : Text → Type 0
NoSpace s = All (λ c. is_whitespace c ≡ false) s

trim_end-NoSpace : (s : Text) → NoSpace s → trim_end_by is_whitespace s ≡ s
trim_end-NoSpace [] h = refl
trim_end-NoSpace (c ∷ []) h = rw (h.0)
trim_end-NoSpace (c ∷ d ∷ s) h = ap (trim_end_step is_whitespace c) (trim_end-NoSpace (d ∷ s) h.1)

trim-NoSpace : (s : Text) → NoSpace s → trim s ≡ s
trim-NoSpace [] h = refl
trim-NoSpace (c ∷ s) h = rw (h.0) (trim_end-NoSpace (c ∷ s) h)

before_char-NoChar_self : (d : ℕ) (s : Text) → NoChar d s → before_char d s ≡ s
before_char-NoChar_self d [] h = refl
before_char-NoChar_self d (c ∷ s) h = ground (arith, before_char-NoChar_self d s h.1)

-- A port behind the host does not matter: for a host and a port with no spaces, and a host with
-- no colon, `host:port` goes where `host` goes.
pub resolve_port :
    (u : UpstreamRouter) (host port : Text)
    → NoSpace host
    → NoSpace port
    → NoChar b':' host
    → resolve u (host ++ (b':' ∷ port)) ≡ resolve u host
unfolding resolve clean_host
resolve_port u host port h k n = rw (
  trim-NoSpace (host ++ (b':' ∷ port))
      (All-append (λ c. is_whitespace c ≡ false) host (b':' ∷ port) h (refl, k)),
  trim-NoSpace host h,
  before_char-append b':' host port n,
  before_char-NoChar_self b':' host n,
)

last_serving-mem :
    (host : Text) (rs : List RouteConfig) (r : RouteConfig)
    → last_serving host rs ≡ some r
    → Mem r rs
last_serving-mem host [] r h = cc
last_serving-mem host (x ∷ rs) r h = elim (Option-cases (last_serving host rs)) [
  | inl missed ↦ elim (Bool-cases (serves host x)) [
    | inl here ↦ let e : x ≡ r = ground arith in rw e mem-cons_self
    | inr not_here ↦ absurd (ground arith)
  ]
  | inr (found, e) ↦ mem-cons_of_mem x (last_serving-mem host rs r (ground arith))
]

chosen_route-mem :
    (host : Text) (rs : List RouteConfig)
    → rs ≢ []
    → (r : RouteConfig) × (chosen_route host rs ≡ some r) × Mem r rs
chosen_route-mem host [] h = absurd (h refl)
chosen_route-mem host (x ∷ rs) h = elim (Option-cases (last_serving host (x ∷ rs))) [
  | inl missed ↦ (x, rw (missed, chosen_route) refl, mem-cons_self)
  | inr (found, e) ↦ (found, rw (e, chosen_route) refl, last_serving-mem host (x ∷ rs) found e)
]

first_or-mem :
    (d : SocketAddr) (xs : List SocketAddr) → xs ≢ [] → addr_mem (first_or d xs) xs ≡ true
first_or-mem d [] h = absurd (h refl)
first_or-mem d (x ∷ xs) h = addr_mem-cons x x xs ∙ ground (arith, addr_eq_iff x x)

-- The address of the target is one that the route configures.
abbrev pub IsConfigured : RouteConfig → Type 0
IsConfigured r = addr_mem (target_of r).addr (opt_list r.upstream ++ list_or_nil r.upstreams) ≡ true

target_addr_ok :
    (r : RouteConfig) (list : List SocketAddr)
    → resolved_upstreams r ≡ ok list
    → (target_of r).addr ≡ first_or (primary_upstream r) list
unfolding target_of
target_addr_ok r list e =
    ap (λ m. first_or (primary_upstream r) (elim m [ ok l ↦ l | err x ↦ primary_upstream r ∷ [] ]))
      e

target_addr-IsConfigured : (r : RouteConfig) → IsRoute r → IsConfigured r
target_addr-IsConfigured r w =
    let (list, e) = (resolved_upstreams_iff r).1 w.has_upstream in
    let known = resolved_upstreams-Resolves r list e in
    let first = first_or-mem (primary_upstream r) list known.nonempty in
    let at : (target_of r).addr ≡ first_or (primary_upstream r) list = target_addr_ok r list e in
    rw
      (
        at,
        addr_mem-append (first_or (primary_upstream r) list) (opt_list r.upstream)
            (list_or_nil r.upstreams),
      )
      (sym (known.members (first_or (primary_upstream r) list)) ∙ first)

All-IsConfigured : (rs : List RouteConfig) → All IsRoute rs → All IsConfigured rs
All-IsConfigured [] h = tt
All-IsConfigured (r ∷ rs) h = (target_addr-IsConfigured r h.0, All-IsConfigured rs h.1)

IsConfigured-prop : (r : RouteConfig) → IsProp (IsConfigured r)
IsConfigured-prop r = hlevel

mem-IsConfigured :
    (rs : List RouteConfig) (r : RouteConfig) → All IsConfigured rs → Mem r rs → IsConfigured r
mem-IsConfigured [] r h m = absurd (not-mem-nil m)
mem-IsConfigured (x ∷ rs) r h m =
    Or.elim (IsConfigured-prop r) (mem-cons.0 m) (λ e. subst IsConfigured (sym e) h.0)
      (mem-IsConfigured rs r h.1)

-- Under a configuration that passes validation, every host, known or not, goes to a configured
-- route, at an address that this route configures.
pub resolve_of_valid :
    (c : PropyleaConfig) (raw : Text)
    → validate c ≡ ok tt
    → (r : RouteConfig) × Mem r c.routes
      × (resolve (new c.routes) raw ≡ some (target_of r))
      × IsConfigured r
resolve_of_valid c raw v =
    let (nonempty, well) = (validate_iff c).0 v in
    let (r, chosen, listed) = chosen_route-mem (clean_host raw) c.routes nonempty in
    (
      r,
      listed,
      resolve-chosen_route c.routes raw ∙ rw (chosen, hit),
      mem-IsConfigured c.routes r (All-IsConfigured c.routes well) listed,
    )
