-- ===== src/Config/Upstreams.antt =====
-- The list of upstreams that a route resolves to.
use propylea.Prelude.{
  Bool-cases, List, Option, [], arith, err, false, if◌then◌else◌, inl, inr, is_empty, none, ok,
  refl, some, ◌++◌, ◌||◌, ◌∷◌, ◌≡◌, ◌≢◌,
}
use propylea.Config.Addr.{
  SocketAddr, addr_eq, addr_eq_iff, addr_mem, addr_mem-append, addr_mem-cons,
}
use propylea.Config.{
  ConfigError, RouteConfig, first_or, list_or_nil, opt_list, push_new, resolved_upstreams,
}

-- No address stands twice.
abbrev pub IsNodup : List SocketAddr → Type 0
IsNodup [] = Unit
IsNodup (x ∷ xs) = (addr_mem x xs ≡ false) × IsNodup xs

IsNodup-concat :
    (u : SocketAddr) (xs : List SocketAddr)
    → IsNodup xs
    → addr_mem u xs ≡ false
    → IsNodup (xs ++ (u ∷ []))
IsNodup-concat u [] h k = (unfold addr_mem in refl, tt)
IsNodup-concat u (x ∷ xs) h k =
    let (head_ne, rest) : (addr_eq x u ≡ false) × (addr_mem u xs ≡ false) =
      unfold addr_mem in ground arith in
    (
      rw (addr_mem-append x xs (u ∷ []), h.0)
          (unfold addr_mem in ground (arith, addr_eq_iff x u, addr_eq_iff u x)),
      IsNodup-concat u xs h.1 rest,
    )

-- What `push_new` does: it keeps the list free of repetitions, and adds all the rest.
push_new-IsNodup : (list ups : List SocketAddr) → IsNodup list → IsNodup (push_new list ups)
unfolding push_new
push_new-IsNodup list [] h = h
push_new-IsNodup list (u ∷ ups) h = elim (Bool-cases (addr_mem u list)) [
  | inl old ↦ rw old (push_new-IsNodup list ups h)
  | inr fresh ↦ rw fresh (push_new-IsNodup (list ++ (u ∷ [])) ups (IsNodup-concat u list h fresh))
]

addr_mem-nil : (a : SocketAddr) → addr_mem a [] ≡ false
unfolding addr_mem
addr_mem-nil a = refl

mem-push_new :
    (a : SocketAddr) (list ups : List SocketAddr)
    → addr_mem a (push_new list ups) ≡ (addr_mem a list || addr_mem a ups)
unfolding push_new
mem-push_new a list [] = unfold addr_mem in ground arith
mem-push_new a list (u ∷ ups) = elim (Bool-cases (addr_mem u list)) [
  | inl old ↦
      rw (old, mem-push_new a list ups) (ground (arith, addr_mem-cons a u ups, addr_eq_iff u a))
  | inr fresh ↦
      rw (fresh, mem-push_new a (list ++ (u ∷ [])) ups, addr_mem-append a list (u ∷ []))
        (ground (arith, addr_mem-cons a u ups, addr_mem-cons a u [], addr_mem-nil a))
]

-- The first address, if there is one, stays first.
push_new-head :
    (d x : SocketAddr) (xs ups : List SocketAddr) → first_or d (push_new (x ∷ xs) ups) ≡ x
unfolding push_new
push_new-head d x xs [] = refl
push_new-head d x xs (u ∷ ups) = elim (Bool-cases (addr_mem u (x ∷ xs))) [
  | inl old ↦ rw old (push_new-head d x xs ups)
  | inr fresh ↦ rw fresh (push_new-head d x (xs ++ (u ∷ [])) ups)
]

-- What a route resolves to: a list that is not empty and has no repetition, that holds exactly
-- the configured addresses, and that begins with `upstream` where it is set.
pub record Resolves (r : RouteConfig) (list : List SocketAddr) : Type 0 where
  pub nonempty : list ≢ []
  pub nodup : IsNodup list
  pub members :
      (a : SocketAddr)
      → addr_mem a list ≡ (addr_mem a (opt_list r.upstream) || addr_mem a (list_or_nil r.upstreams))
  pub primary_first : (u d : SocketAddr) → r.upstream ≡ some u → first_or d list ≡ u

-- What a non-empty result says of the list that was tested.
nonempty_ok :
    (xs : List SocketAddr) (e : ConfigError) (list : List SocketAddr)
    → (if is_empty xs then err e else ok xs) ≡ ok list
    → (list ≢ []) × (xs ≡ list)
nonempty_ok [] e list h = cc
nonempty_ok (x ∷ xs) e list h = ((λ z. cc), ground arith)

resolved-list :
    (r : RouteConfig) (list : List SocketAddr)
    → resolved_upstreams r ≡ ok list
    → (list ≢ []) × (push_new (opt_list r.upstream) (list_or_nil r.upstreams) ≡ list)
unfolding resolved_upstreams
resolved-list r list h =
    nonempty_ok (push_new (opt_list r.upstream) (list_or_nil r.upstreams)) _ list h

push_new-opt_IsNodup :
    (o : Option SocketAddr) (ups : List SocketAddr) → IsNodup (push_new (opt_list o) ups)
push_new-opt_IsNodup none ups = push_new-IsNodup [] ups tt
push_new-opt_IsNodup (some u) ups = push_new-IsNodup (u ∷ []) ups ((unfold addr_mem in refl), tt)

-- Whatever a route resolves to is as `Resolves` says.
pub resolved_upstreams-Resolves :
    (r : RouteConfig) (list : List SocketAddr) → resolved_upstreams r ≡ ok list → Resolves r list
resolved_upstreams-Resolves r list h =
    let (ne, e) = resolved-list r list h in
    record {
      nonempty = ne;
      nodup = rw (← e) (push_new-opt_IsNodup r.upstream (list_or_nil r.upstreams));
      members = λ a. rw (← e) (mem-push_new a (opt_list r.upstream) (list_or_nil r.upstreams));
      primary_first = λ u d p. rw (← e, p) (push_new-head d u [] (list_or_nil r.upstreams));
    }
