-- ===== src/Tls/Tests.antt =====
-- Certificates that are their files, in a table of names, and an instance of what is proved.
use mathlib.Core.List.{Mem}
use propylea.Router.Resolve.{chosen_route}
use propylea.Tls.{TlsAcceptor, TlsApi, build_sni_tls_acceptor, other_item, pkcs8_key, resolve_cert}
use propylea.Tls.Certificates.{ShowsKeyOf, resolve_cert-resolve}
use propylea.Config.{RouteConfig}
use propylea.Config.Addr.{v4}
use propylea.Router
use propylea.Router.{clean_host, new, resolve, target_of}
use propylea.Prelude.{
  List, Option, Result, Text, [], ap, codes, err, false, if◌then◌else◌, is_empty, none, ok, refl,
  some, sym, text_eq, ◌∷◌, ◌≡◌,
}

abbrev pub KeyPair : Type 0
KeyPair = List Text × Text

abbrev pub find_name : Text → List (Text × KeyPair) → Option KeyPair
find_name name [] = none
find_name name ((domain, key) ∷ table) =
    if text_eq domain name then some key else find_name name table

abbrev pub by_name : List (Text × KeyPair) → Option Text → Option KeyPair
by_name table none = none
by_name table (some name) = find_name name table

pub empty_table : (name : Option Text) → by_name [] name ≡ none
empty_table none = refl
empty_table (some name) = refl

pub find_added :
    (domain : Text) (key : KeyPair) (before after : List (Text × KeyPair))
    → ◌≡◌ {A = Result (List (Text × KeyPair)) Text} (ok ((domain, key) ∷ before)) (ok after)
    → (name : Text)
    → find_name name after ≡ (if text_eq domain name then some key else find_name name before)
find_added domain key before after h name =
    let same : (domain, key) ∷ before ≡ after = cc in ap (find_name name) (sym same)

abbrev pub text_files : TlsApi
text_files = record {
  Certificate = Text;
  PrivateKey = Text;
  SigningKey = Text;
  SniResolver = List (Text × KeyPair);
  open_file = λ path. if is_empty path then err (codes "no such file") else ok path;
  certs = λ file. ok file ∷ [];
  read_items = λ file. ok other_item ∷ ok (pkcs8_key file) ∷ [];
  any_supported_type = λ key. ok key;
  new_resolver = [];
  add = λ domain key table. ok ((domain, key) ∷ table);
  resolve_name = by_name;
  resolve-new_resolver = empty_table;
  resolve-add = find_added;
}

abbrev route_with : Text → Text → RouteConfig
route_with domain file = record {
  domains = domain ∷ [];
  upstream = some (v4 127 0 0 1 8001);
  upstreams = none;
  cert = file;
  key = file;
  websocket = false;
  hedged_racing = none;
}

abbrev two_routes : List RouteConfig
two_routes =
    route_with (codes "a.example") (codes "a.pem")
    ∷ route_with (codes "B.example") (codes "b.pem")
    ∷ []

abbrev key_a : KeyPair
key_a = (codes "a.pem" ∷ [], codes "a.pem")

abbrev key_b : KeyPair
key_b = (codes "b.pem" ∷ [], codes "b.pem")

abbrev acceptor : TlsAcceptor text_files
acceptor = record {
  cert_resolver = record {
    sni_resolver = (codes "b.example", key_b) ∷ (codes "a.example", key_a) ∷ [];
    fallback = key_a;
  };
  alpn_protocols = codes "h2" ∷ codes "http/1.1" ∷ [];
}

acceptor_built : build_sni_tls_acceptor text_files two_routes ≡ ok acceptor
unfolding build_sni_tls_acceptor
acceptor_built = refl

unknown_name_answered :
    resolve_cert text_files acceptor.cert_resolver (some (codes "c.example")) ≡ some key_a
unfolding resolve_cert
unknown_name_answered = refl

resolve_cert-resolve_example :
    (r : RouteConfig) × Mem r two_routes
    × (chosen_route (clean_host (codes "b.EXAMPLE:443")) two_routes ≡ some r)
    × (Router.resolve (Router.new two_routes) (codes "b.EXAMPLE:443") ≡ some (target_of r))
    × ShowsKeyOf text_files (clean_host (codes "b.EXAMPLE:443")) acceptor r
resolve_cert-resolve_example =
    resolve_cert-resolve text_files two_routes acceptor (codes "b.EXAMPLE:443") acceptor_built
