-- ===== src/Startup/Checked.antt =====
-- src/cli.rs and src/tls.rs: the check of a configuration against the start of the daemon.
use propylea.Startup.{
  Fatal, Running, bad_config, cert_error, check_route, check_routes, fatal_config, fatal_tls,
  key_error, run_check, run_serve, started,
}
use propylea.Tls.{
  CertifiedKey, Setup, TlsAcceptor, TlsApi, TlsError, add_domains, add_route, add_routes,
  build_sni_tls_acceptor, certificate_parse, certified_key, io, key_parse, load_certs,
  load_private_key, no_routes, or_first, private_key_parse, rustls,
}
use propylea.Tls.Certificates.{add_route-made, build-made, unset}
use propylea.Config.{Loader, PropyleaConfig, RouteConfig, load_from_file}
use propylea.Config.Validate.{load_from_file-IsRoute}
use propylea.Prelude.{
  >>=-eq-ok, All, List, Option, Result, Text, [], err, false, map_err, map_err-ok, none, ok, refl,
  some, ℕ, ◌+◌, ◌>>=◌, ◌↔◌, ◌∷◌, ◌≡◌, ◌≢◌,
}

-- A success of this kind, or the failure to make a signing key or to register a name.
abbrev pub StopsAtKey : {A : Type 0} → (A → Type 0) → Result A TlsError → Type 0
StopsAtKey P (ok a) = P a
StopsAtKey P (err (key_parse e)) = Unit
StopsAtKey P (err other) = ⊥

>>=-StopsAtKey :
    {A B : Type 0} (P : A → Type 0) (Q : B → Type 0) (step : Result A TlsError)
    (next : A → Result B TlsError)
    → StopsAtKey P step
    → ((a : A) → P a → StopsAtKey Q (next a))
    → StopsAtKey Q (step >>= next)
>>=-StopsAtKey P Q (ok a) next h k = k a h
>>=-StopsAtKey P Q (err (key_parse e)) next h k = tt
>>=-StopsAtKey P Q (err (io p e)) next h k = absurd h
>>=-StopsAtKey P Q (err (rustls e)) next h k = absurd h
>>=-StopsAtKey P Q (err (certificate_parse e)) next h k = absurd h
>>=-StopsAtKey P Q (err (private_key_parse e)) next h k = absurd h
>>=-StopsAtKey P Q (err no_routes) next h k = absurd h

abbrev Any : {A : Type 0} → A → Type 0
Any a = Unit

map_err-StopsAtKey :
    {A : Type 0} (g : Text → Text) (r : Result A Text)
    → StopsAtKey Any (map_err (λ e. key_parse (g e)) r)
map_err-StopsAtKey g (ok a) = tt
map_err-StopsAtKey g (err e) = tt

module _ (api : TlsApi) where
  -- The route's chain and private key load.
  abbrev pub Loads : RouteConfig → Type 0
  Loads r =
      ((c : List api.Certificate) × (load_certs api r.cert ≡ ok c))
      × ((k : api.PrivateKey) × (load_private_key api r.key ≡ ok k))

  certified_key-Loads :
      (r : RouteConfig) (key : CertifiedKey api) → certified_key api r ≡ ok key → Loads r
  unfolding certified_key
  certified_key-Loads r key h =
      let (c, has_chain, more) = >>=-eq-ok (load_certs api r.cert) _ h in
      let (k, has_key, made) = >>=-eq-ok (load_private_key api r.key) _ more in
      ((c, has_chain), (k, has_key))

  add_routes-Loads :
      (st last : Setup api) (rs : List RouteConfig) → add_routes api st rs ≡ ok last → All Loads rs
  unfolding add_routes
  add_routes-Loads st last [] h = tt
  add_routes-Loads st last (r ∷ rs) h =
      let (next, first, rest) = >>=-eq-ok (add_route api st r) _ h in
      let (key, has_key, adds, kept) = add_route-made api [] st next r first in
      (certified_key-Loads r key has_key, add_routes-Loads next last rs rest)

  certified_key-StopsAtKey : (r : RouteConfig) → Loads r → StopsAtKey Any (certified_key api r)
  unfolding certified_key
  certified_key-StopsAtKey r ((c, has_chain), (k, has_key)) =
      rw (has_chain, has_key)
        (>>=-StopsAtKey Any Any (map_err key_parse (api.any_supported_type k)) _
          (map_err-StopsAtKey (λ e. e) (api.any_supported_type k)) (λ s h. tt))

  add_domains-StopsAtKey :
      (key : CertifiedKey api) (ds : List Text) (resolver : api.SniResolver)
      → StopsAtKey Any (add_domains api key ds resolver)
  unfolding add_domains
  add_domains-StopsAtKey key [] resolver = tt
  add_domains-StopsAtKey key (d ∷ ds) resolver =
      >>=-StopsAtKey Any Any _ (add_domains api key ds) (map_err-StopsAtKey _ _)
        (λ added h. add_domains-StopsAtKey key ds added)

  abbrev HasFallback : Setup api → Type 0
  HasFallback st = (k : CertifiedKey api) × (st.fallback_key ≡ some k)

  or_first-some :
      (o : Option (CertifiedKey api)) (key : CertifiedKey api)
      → (k : CertifiedKey api) × (or_first api o key ≡ some k)
  or_first-some none key = (key, refl)
  or_first-some (some first) key = (first, refl)

  add_route-StopsAtKey :
      (st : Setup api) (r : RouteConfig) → Loads r → StopsAtKey HasFallback (add_route api st r)
  unfolding add_route
  add_route-StopsAtKey st r loads =
      >>=-StopsAtKey Any HasFallback (certified_key api r) _ (certified_key-StopsAtKey r loads)
        (λ key h.
          >>=-StopsAtKey Any HasFallback (add_domains api key r.domains st.resolver) _
            (add_domains-StopsAtKey key r.domains st.resolver)
            (λ resolver h'. or_first-some st.fallback_key key))

  add_routes-StopsAtKey :
      (st : Setup api) (rs : List RouteConfig)
      → HasFallback st
      → All Loads rs
      → StopsAtKey HasFallback (add_routes api st rs)
  unfolding add_routes
  add_routes-StopsAtKey st [] has loads = has
  add_routes-StopsAtKey st (r ∷ rs) has loads =
      >>=-StopsAtKey HasFallback HasFallback (add_route api st r) _
        (add_route-StopsAtKey st r loads.0)
        (λ next has'. add_routes-StopsAtKey next rs has' loads.1)

  build-StopsAtKey :
      (rs : List RouteConfig)
      → rs ≢ []
      → All Loads rs
      → StopsAtKey Any (build_sni_tls_acceptor api rs)
  unfolding build_sni_tls_acceptor add_routes
  build-StopsAtKey [] some_route loads = absurd (some_route refl)
  build-StopsAtKey (r ∷ rs) some_route loads =
      >>=-StopsAtKey HasFallback Any (add_routes api (unset api []) (r ∷ rs)) _
        (>>=-StopsAtKey HasFallback HasFallback (add_route api (unset api []) r) _
          (add_route-StopsAtKey (unset api []) r loads.0)
          (λ next has. add_routes-StopsAtKey next rs has loads.1))
        (λ last has. rw has.1 tt)

module _ (l : Loader) (api : TlsApi) where
  check_routes_iff :
      (i : ℕ) (rs : List RouteConfig) → (check_routes l api false i rs ≡ ok tt) ↔ All (Loads api) rs
  unfolding check_routes check_route
  check_routes_iff i [] = ((λ h. tt), (λ h. refl))
  check_routes_iff i (r ∷ rs) = (
    (λ h.
        let (u, here, later) = >>=-eq-ok (check_route l api i r) _ h in
        let (c, has_chain, more) =
          >>=-eq-ok (map_err (cert_error i r.domains) (load_certs api r.cert)) _ here in
        let (k, has_key, done) =
          >>=-eq-ok (map_err (key_error i r.domains) (load_private_key api r.key)) _ more in
        (
          ((c, map_err-ok _ _ c has_chain), (k, map_err-ok _ _ k has_key)),
          (check_routes_iff (i + 1) rs).0 later,
        )),
    (λ h. rw (h.0.0.1, h.0.1.1) ((check_routes_iff (i + 1) rs).1 h.1)),
  )

  -- The start goes through, or stops at a signing key or the registration of a name.
  abbrev pub StartsOrStopsAtKey : Result (Running l api) Fatal → Type 0
  StartsOrStopsAtKey (ok r) = Unit
  StartsOrStopsAtKey (err (fatal_tls (key_parse e))) = Unit
  StartsOrStopsAtKey (err other) = ⊥

  built-Starts :
      (config : PropyleaConfig) (r : Result (TlsAcceptor api) TlsError)
      → StopsAtKey Any r
      → StartsOrStopsAtKey (map_err fatal_tls r >>= λ acceptor. ok (started l api config acceptor))
  built-Starts config (ok acceptor) h = tt
  built-Starts config (err (key_parse e)) h = tt
  built-Starts config (err (io p e)) h = absurd h
  built-Starts config (err (rustls e)) h = absurd h
  built-Starts config (err (certificate_parse e)) h = absurd h
  built-Starts config (err (private_key_parse e)) h = absurd h
  built-Starts config (err no_routes) h = absurd h

  checked-Starts :
      (path : Text) → run_check l api path false ≡ ok tt → StartsOrStopsAtKey (run_serve l api path)
  unfolding run_check run_serve
  checked-Starts path h =
      let (config, loaded, more) = >>=-eq-ok (map_err bad_config (load_from_file l path)) _ h in
      let from_file = map_err-ok _ _ config loaded in
      rw from_file (
        built-Starts config (build_sni_tls_acceptor api config.routes) (
          build-StopsAtKey api config.routes (load_from_file-IsRoute l path config from_file).0
            ((check_routes_iff 0 config.routes).0 more)))

  started-checked :
      (path : Text) (r : Running l api)
      → run_serve l api path ≡ ok r
      → run_check l api path false ≡ ok tt
  unfolding run_check run_serve
  started-checked path r h =
      let (config, loaded, more) = >>=-eq-ok (map_err fatal_config (load_from_file l path)) _ h in
      let (acceptor, built, same) =
        >>=-eq-ok (map_err fatal_tls (build_sni_tls_acceptor api config.routes)) _ more in
      let (last, adds, table, fallback) =
        build-made api [] config.routes acceptor (map_err-ok _ _ acceptor built) in
      rw (map_err-ok _ _ config loaded) (
        (check_routes_iff 0 config.routes).1
          (add_routes-Loads api (unset api []) last config.routes adds))

-- The check and the start agree. A configuration with which the daemon starts passes the check; and
-- with one that passes the check the daemon starts, or exits because a private key makes no signing
-- key or a name is not registered, which the check does not try.
pub run_check-run_serve :
    (l : Loader) (api : TlsApi) (path : Text)
    → ((r : Running l api) → run_serve l api path ≡ ok r → run_check l api path false ≡ ok tt)
      × (run_check l api path false ≡ ok tt → StartsOrStopsAtKey l api (run_serve l api path))
run_check-run_serve l api path = (started-checked l api path, checked-Starts l api path)
