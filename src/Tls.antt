-- ===== src/Tls.antt =====
-- src/tls.rs: the certificates of the routes and the table of server names. PEM files, signing
-- keys and the table itself are those of `rustls` and `rustls_pemfile`, which are an interface; its
-- laws are the table's documented behaviour. A path is its text.
pub mod Certificates
pub mod Tests
use propylea.Config.{RouteConfig}
use propylea.Router.{clean_domain}
use propylea.Prelude.{
  Bytes, List, Option, Result, Text, [], codes, err, if◌then◌else◌, is_empty, map_err, none, ok,
  ok_or, some, text_eq, ◌++◌, ◌>>=◌, ◌>>◌, ◌∷◌, ◌≡◌,
}

pub data TlsError : Type 0 where
  io : Text → Text → TlsError
  rustls certificate_parse private_key_parse key_parse : Text → TlsError
  no_routes : TlsError

-- `rustls_pemfile::Item`
pub data PemItem (Key : Type 0) : Type 0 where
  pkcs1_key pkcs8_key sec1_key : Key → PemItem Key
  other_item : PemItem Key

pub record TlsApi : Type 1 where
  pub Certificate : Type 0
  pub PrivateKey : Type 0
  pub SigningKey : Type 0
  pub SniResolver : Type 0
  -- `File::open`, and what `certs` and `read_one` yield from the file, to its end.
  pub open_file : Text → Result Bytes Text
  pub certs : Bytes → List (Result Certificate Text)
  pub read_items : Bytes → List (Result (PemItem PrivateKey) Text)
  pub any_supported_type : PrivateKey → Result SigningKey Text
  pub new_resolver : SniResolver
  pub add : Text → List Certificate × SigningKey → SniResolver → Result SniResolver Text
  pub resolve_name : SniResolver → Option Text → Option (List Certificate × SigningKey)
  pub resolve-new_resolver : (name : Option Text) → resolve_name new_resolver name ≡ none
  pub resolve-add :
      (domain : Text) (key : List Certificate × SigningKey) (before after : SniResolver)
      → add domain key before ≡ ok after
      → (name : Text)
      → resolve_name after (some name)
        ≡ (if text_eq domain name then some key else resolve_name before (some name))

module _ (api : TlsApi) where
  open api use {
    Certificate, PrivateKey, SigningKey, SniResolver, open_file, certs, read_items,
    any_supported_type, new_resolver, add, resolve_name,
  }

  abbrev pub CertifiedKey : Type 0
  CertifiedKey = List Certificate × SigningKey

  -- `collect::<Result<Vec<_>, _>>()`: the first error ends it.
  abbrev pub collect : {A : Type 0} → List (Result A Text) → Result (List A) Text
  collect [] = ok []
  collect (item ∷ items) = do a ← item; rest ← collect items; ok (a ∷ rest)

  abbrev non_empty_chain : Text → List Certificate → Result (List Certificate) TlsError
  non_empty_chain path chain =
      if is_empty chain
      then err (certificate_parse (codes "No valid certificates found in " ++ path))
      else ok chain

  unfoldable pub load_certs : Text → Result (List Certificate) TlsError
  load_certs path = do
    file ← map_err (io path) (open_file path)
    chain ← map_err (λ e. certificate_parse path) (collect (certs file))
    non_empty_chain path chain

  abbrev no_key : Text → TlsError
  no_key path = private_key_parse (codes "No valid private key found in " ++ path)

  -- The loop over the items of the file: the first key is taken.
  unfoldable pub first_key :
      Text → List (Result (PemItem PrivateKey) Text) → Result PrivateKey TlsError
  first_key path [] = err (no_key path)
  first_key path (err e ∷ items) = err (io path e)
  first_key path (ok (pkcs1_key key) ∷ items) = ok key
  first_key path (ok (pkcs8_key key) ∷ items) = ok key
  first_key path (ok (sec1_key key) ∷ items) = ok key
  first_key path (ok other_item ∷ items) = first_key path items

  unfoldable pub load_private_key : Text → Result PrivateKey TlsError
  unfolding first_key
  load_private_key path = do
    file ← map_err (io path) (open_file path)
    first_key path (read_items file)

  unfoldable pub certified_key : RouteConfig → Result CertifiedKey TlsError
  unfolding load_certs load_private_key
  certified_key route = do
    cert_chain ← load_certs route.cert
    private_key ← load_private_key route.key
    signing_key ← map_err key_parse (any_supported_type private_key)
    ok (cert_chain, signing_key)

  abbrev not_registered : Text → Text → TlsError
  not_registered domain e =
      key_parse (codes "Failed to register SNI " ++ (domain ++ (codes ": " ++ e)))

  -- `for domain in &route.domains`
  unfoldable pub add_domains : CertifiedKey → List Text → SniResolver → Result SniResolver TlsError
  add_domains key [] resolver = ok resolver
  add_domains key (domain ∷ domains) resolver = do
    added ← map_err (not_registered (clean_domain domain)) (add (clean_domain domain) key resolver)
    add_domains key domains added

  pub record Setup : Type 0 where
    pub resolver : SniResolver
    pub fallback_key : Option CertifiedKey

  abbrev pub or_first : Option CertifiedKey → CertifiedKey → Option CertifiedKey
  or_first none key = some key
  or_first (some first) key = some first

  -- One round of `for route in routes`.
  unfoldable pub add_route : Setup → RouteConfig → Result Setup TlsError
  unfolding certified_key add_domains
  add_route st route = do
    key ← certified_key route
    resolver ← add_domains key route.domains st.resolver
    ok (record { resolver = resolver; fallback_key = or_first st.fallback_key key })

  unfoldable pub add_routes : Setup → List RouteConfig → Result Setup TlsError
  unfolding add_route
  add_routes st [] = ok st
  add_routes st (route ∷ routes) = do added ← add_route st route; add_routes added routes

  pub record SovereignSniResolver : Type 0 where
    pub sni_resolver : SniResolver
    pub fallback : CertifiedKey

  -- `ResolvesServerCert::resolve`
  abbrev or_fallback : Option CertifiedKey → CertifiedKey → Option CertifiedKey
  or_fallback (some cert) fallback = some cert
  or_fallback none fallback = some fallback

  unfoldable pub resolve_cert : SovereignSniResolver → Option Text → Option CertifiedKey
  resolve_cert r server_name = or_fallback (resolve_name r.sni_resolver server_name) r.fallback

  pub record TlsAcceptor : Type 0 where
    pub cert_resolver : SovereignSniResolver
    pub alpn_protocols : List Text

  abbrev pub no_fallback : TlsError
  no_fallback = certificate_parse (codes "No routes available for TLS fallback")

  unfoldable pub build_sni_tls_acceptor : List RouteConfig → Result TlsAcceptor TlsError
  unfolding add_routes
  build_sni_tls_acceptor routes = if is_empty routes then err no_routes else (do
    st ← add_routes (record { resolver = new_resolver; fallback_key = none }) routes
    fallback ← ok_or st.fallback_key no_fallback
    ok (record {
      cert_resolver = record { sni_resolver = st.resolver; fallback = fallback };
      alpn_protocols = codes "h2" ∷ codes "http/1.1" ∷ [];
    }))
