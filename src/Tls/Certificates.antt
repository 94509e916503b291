-- ===== src/Tls/Certificates.antt =====
-- src/tls.rs and src/router.rs: which certificate a client is shown, and which route it takes.
use mathlib.Core.Path.{subst}
use mathlib.Core.List.{Mem}
use propylea.Tls.{
  CertifiedKey, Setup, TlsAcceptor, TlsApi, add_domains, add_route, add_routes,
  build_sni_tls_acceptor, certified_key, no_fallback, or_fallback, or_first, resolve_cert,
}
use propylea.Config.{RouteConfig}
use propylea.Router
use propylea.Router.{clean_domain, clean_host, new, resolve, target_of}
use propylea.Router.Resolve.{
  chosen_route, hit, last_serving, mem-chosen_route, resolve-chosen_route, serves,
}
use propylea.Prelude.{
  >>=-eq-ok, Bool-cases, List, Option, Text, [], any, ap, arith, codes, head?, if◌then◌else◌, inl,
  inr, map_err-ok, none, ok, ok_or, ok_or-some, refl, some, sym, text_eq, ◌∙◌, ◌∷◌, ◌≡◌,
}

module _ (api : TlsApi) (name : Text) where
  open api use {SniResolver, resolve_name, resolve-add}

  resolve-add_domains :
      (key : CertifiedKey api) (domains : List Text) (before after : SniResolver)
      → add_domains api key domains before ≡ ok after
      → resolve_name after (some name) ≡ (
          if any (λ d. text_eq (clean_domain d) name) domains
          then some key
          else resolve_name before (some name))
  unfolding add_domains
  resolve-add_domains key [] before after h =
      let same : before ≡ after = cc in ap (λ r. resolve_name r (some name)) (sym same)
  resolve-add_domains key (d ∷ ds) before after h =
      let (added, adds, rest) = >>=-eq-ok _ (add_domains api key ds) h in
      let one = resolve-add (clean_domain d) key before added (map_err-ok _ _ added adds) name in
      ground (arith, one, resolve-add_domains key ds added after rest)

  -- Where the setup has a key for the name, or still the one it had.
  abbrev Found : Option RouteConfig → SniResolver → SniResolver → Type 0
  Found none before after = resolve_name after (some name) ≡ resolve_name before (some name)
  Found (some r) before after =
      (key : CertifiedKey api) × (certified_key api r ≡ ok key)
      × (resolve_name after (some name) ≡ some key)

  Found-if :
      (key : CertifiedKey api) (r : RouteConfig) (before after : SniResolver)
      → certified_key api r ≡ ok key
      → resolve_name after (some name)
        ≡ (if serves name r then some key else resolve_name before (some name))
      → Found (if serves name r then some r else none) before after
  Found-if key r before after has_key found = elim (Bool-cases (serves name r)) [
    | inl this ↦ rw this (key, has_key, rw this at found)
    | inr other ↦ rw other (rw other at found)
  ]

  -- What a round that succeeds did.
  pub add_route-made :
      (st next : Setup api) (r : RouteConfig)
      → add_route api st r ≡ ok next
      → (key : CertifiedKey api) × (certified_key api r ≡ ok key)
        × (add_domains api key r.domains st.resolver ≡ ok next.resolver)
        × (next.fallback_key ≡ or_first api st.fallback_key key)
  unfolding add_route
  add_route-made st next r h =
      let (key, has_key, more) = >>=-eq-ok (certified_key api r) _ h in
      let (resolver, adds, made) = >>=-eq-ok (add_domains api key r.domains st.resolver) _ more in
      let same : next
          ≡ record { resolver = resolver; fallback_key = or_first api st.fallback_key key } =
        cc in
      (key, has_key, adds ∙ ap (λ x. ok x.resolver) (sym same), ap (λ x. x.fallback_key) same)

  add_route-Found :
      (st next : Setup api) (r : RouteConfig)
      → add_route api st r ≡ ok next
      → Found (if serves name r then some r else none) st.resolver next.resolver
  add_route-Found st next r h =
      let (key, has_key, adds, first) = add_route-made st next r h in
      Found-if key r st.resolver next.resolver has_key
        (resolve-add_domains key r.domains st.resolver next.resolver adds)

  Found-kept :
      (o : Option RouteConfig) (before between after : SniResolver)
      → Found o before between
      → Found none between after
      → Found o before after
  Found-kept none before between after f g = g ∙ f
  Found-kept (some r) before between after (key, has_key, found) g = (key, has_key, g ∙ found)

  -- A route in front of the others: it counts where none of them serves the name.
  Found-first :
      (later : Option RouteConfig) (r : RouteConfig) (before between after : SniResolver)
      → Found (if serves name r then some r else none) before between
      → Found later between after
      → Found
          (elim later [ some found ↦ some found | none ↦ if serves name r then some r else none ])
          before
          after
  Found-first (some found) r before between after f g = g
  Found-first none r before between after f g = Found-kept _ before between after f g

  add_routes-Found :
      (st last : Setup api) (rs : List RouteConfig)
      → add_routes api st rs ≡ ok last
      → Found (last_serving name rs) st.resolver last.resolver
  unfolding add_routes
  add_routes-Found st last [] h =
      let same : st ≡ last = cc in ap (λ x. resolve_name x.resolver (some name)) (sym same)
  add_routes-Found st last (r ∷ rs) h =
      let (next, first, rest) = >>=-eq-ok (add_route api st r) _ h in
      Found-first (last_serving name rs) r st.resolver next.resolver last.resolver
        (add_route-Found st next r first) (add_routes-Found next last rs rest)

  -- The first route's key is kept as the fallback.
  fallback-add_routes :
      (st last : Setup api) (rs : List RouteConfig) (key : CertifiedKey api)
      → st.fallback_key ≡ some key
      → add_routes api st rs ≡ ok last
      → last.fallback_key ≡ some key
  unfolding add_routes
  fallback-add_routes st last [] key k h =
      let same : st ≡ last = cc in ap (λ x. x.fallback_key) (sym same) ∙ k
  fallback-add_routes st last (r ∷ rs) key k h =
      let (next, first, rest) = >>=-eq-ok (add_route api st r) _ h in
      let (new_key, has_key, adds, kept) = add_route-made st next r first in
      fallback-add_routes next last rs key (kept ∙ ap (λ o. or_first api o new_key) k) rest

  abbrev pub unset : Setup api
  unset = record { resolver = api.new_resolver; fallback_key = none }

  -- The certificate that is shown for the name is the key of this route, which has one.
  abbrev pub ShowsKeyOf : TlsAcceptor api → RouteConfig → Type 0
  ShowsKeyOf acceptor r =
      (key : CertifiedKey api) × (certified_key api r ≡ ok key)
      × (resolve_cert api acceptor.cert_resolver (some name) ≡ some key)

  -- The chosen route's key, from what is known of the table and of the fallback.
  chosen-shown :
      (o first : Option RouteConfig) (acceptor : TlsAcceptor api)
      → Found o api.new_resolver acceptor.cert_resolver.sni_resolver
      → ((r : RouteConfig) × (first ≡ some r)
          × (certified_key api r ≡ ok acceptor.cert_resolver.fallback))
      → (r : RouteConfig) × ((elim o [ some found ↦ some found | none ↦ first ]) ≡ some r)
        × ShowsKeyOf acceptor r
  unfolding resolve_cert
  chosen-shown none first acceptor found (r, is_first, has_key) = (
    r,
    is_first,
    (
      acceptor.cert_resolver.fallback,
      has_key,
      ap (λ o. or_fallback api o acceptor.cert_resolver.fallback)
          (found ∙ api.resolve-new_resolver (some name)),
    ),
  )
  chosen-shown (some r) first acceptor (key, has_key, found) fallback =
      (r, refl, (key, has_key, ap (λ o. or_fallback api o acceptor.cert_resolver.fallback) found))

  -- What a build that succeeds has done.
  pub build-made :
      (routes : List RouteConfig) (acceptor : TlsAcceptor api)
      → build_sni_tls_acceptor api routes ≡ ok acceptor
      → (last : Setup api) × (add_routes api unset routes ≡ ok last)
        × (last.resolver ≡ acceptor.cert_resolver.sni_resolver)
        × (last.fallback_key ≡ some acceptor.cert_resolver.fallback)
  unfolding build_sni_tls_acceptor
  build-made [] acceptor h = cc
  build-made (r ∷ rs) acceptor h =
      let (last, adds, more) = >>=-eq-ok (add_routes api unset (r ∷ rs)) _ h in
      let (fallback, has_one, made) =
        >>=-eq-ok (ok_or last.fallback_key (no_fallback api)) _ more in
      let same : record {
        cert_resolver = record { sni_resolver = last.resolver; fallback = fallback };
        alpn_protocols = codes "h2" ∷ codes "http/1.1" ∷ [];
      }
          ≡ acceptor =
        cc in
      (
        last,
        adds,
        ap (λ a. a.cert_resolver.sni_resolver) same,
        ok_or-some last.fallback_key (no_fallback api) fallback has_one
            ∙ ap (λ a. some a.cert_resolver.fallback) same,
      )

  first-fallback :
      (last : Setup api) (routes : List RouteConfig) (key : CertifiedKey api)
      → add_routes api unset routes ≡ ok last
      → last.fallback_key ≡ some key
      → (r : RouteConfig) × (head? routes ≡ some r) × (certified_key api r ≡ ok key)
  unfolding add_routes
  first-fallback last [] key h k =
      let clash : ◌≡◌ {A = Option (CertifiedKey api)} none (some key) =
        (let same : unset ≡ last = cc in ap (λ x. x.fallback_key) same ∙ k) in
      cc
  first-fallback last (r ∷ rs) key h k =
      let (next, first, rest) = >>=-eq-ok (add_route api unset r) _ h in
      let (own, has_key, adds, kept) = add_route-made unset next r first in
      let same : some own ≡ some key = sym (fallback-add_routes next last rs own kept rest) ∙ k in
      (r, refl, has_key ∙ ap ok (let eq : own ≡ key = cc in eq))

  shown :
      (routes : List RouteConfig) (acceptor : TlsAcceptor api)
      → build_sni_tls_acceptor api routes ≡ ok acceptor
      → (r : RouteConfig) × (chosen_route name routes ≡ some r) × ShowsKeyOf acceptor r
  shown routes acceptor h =
      let (last, adds, table, fallback) = build-made routes acceptor h in
      chosen-shown (last_serving name routes) (head? routes) acceptor
        (subst (Found (last_serving name routes) api.new_resolver) table
          (add_routes-Found unset last routes adds))
        (first-fallback last routes acceptor.cert_resolver.fallback adds fallback)

-- Once the acceptor is built, every client is shown a certificate: for whatever host its requests
-- will name, the server name being the host as the router cleans it, one route of the list, the last
-- that lists the host or else the first, is the one whose key is shown and the one to which the
-- router sends the host.
pub resolve_cert-resolve :
    (api : TlsApi) (routes : List RouteConfig) (acceptor : TlsAcceptor api) (raw_host : Text)
    → build_sni_tls_acceptor api routes ≡ ok acceptor
    → (r : RouteConfig) × Mem r routes
      × (chosen_route (clean_host raw_host) routes ≡ some r)
      × (Router.resolve (Router.new routes) raw_host ≡ some (target_of r))
      × ShowsKeyOf api (clean_host raw_host) acceptor r
resolve_cert-resolve api routes acceptor raw_host h =
    let (r, chosen, shows) = shown api (clean_host raw_host) routes acceptor h in
    (
      r,
      mem-chosen_route (clean_host raw_host) r routes chosen,
      chosen,
      resolve-chosen_route routes raw_host ∙ ap (λ o. hit o none) chosen,
      shows,
    )
