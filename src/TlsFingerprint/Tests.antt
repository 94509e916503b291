-- ===== src/TlsFingerprint/Tests.antt =====
-- A ClientHello, what the parser makes of it, and an instance of what is proved of the parser.
use propylea.Prelude.{Bytes, [], ok, refl, true, ◌∷◌, ◌≡◌}
use propylea.TlsFingerprint.{ClientTlsProfile, parse_client_hello}
use propylea.TlsFingerprint.Safety.{IsProfile, parse_client_hello-Ends}

-- A ClientHello of TLS 1.3 with no session id, five cipher suites of which the first is GREASE, and
-- the extensions GREASE, server name `a.io` and ALPN `h2`.
abbrev hello : Bytes
hello =
    22 ∷ 3 ∷ 1 ∷ 0 ∷ 81 ∷ 1 ∷ 0 ∷ 0 ∷ 77 ∷ 3 ∷ 3 ∷ 0 ∷ 1 ∷ 2 ∷ 3 ∷ 4 ∷ 5 ∷ 6 ∷ 7 ∷ 8 ∷ 9 ∷ 10 ∷ 11
    ∷ 12 ∷ 13 ∷ 14 ∷ 15 ∷ 16 ∷ 17 ∷ 18 ∷ 19 ∷ 20 ∷ 21 ∷ 22 ∷ 23 ∷ 24 ∷ 25 ∷ 26 ∷ 27 ∷ 28 ∷ 29 ∷ 30
    ∷ 31 ∷ 0 ∷ 0 ∷ 10 ∷ 26 ∷ 26 ∷ 19 ∷ 1 ∷ 19 ∷ 2 ∷ 19 ∷ 3 ∷ 192 ∷ 43 ∷ 1 ∷ 0 ∷ 0 ∷ 26 ∷ 42 ∷ 42 ∷ 0
    ∷ 0 ∷ 0 ∷ 0 ∷ 0 ∷ 9 ∷ 0 ∷ 7 ∷ 0 ∷ 0 ∷ 4 ∷ 97 ∷ 46 ∷ 105 ∷ 111 ∷ 0 ∷ 16 ∷ 0 ∷ 5 ∷ 0 ∷ 3 ∷ 2 ∷ 104
    ∷ 50 ∷ []

abbrev hello_profile : ClientTlsProfile
hello_profile = record {
  has_grease = true;
  cipher_count = 5;
  offers_h2 = true;
  has_sni = true;
  primary_ciphers = 0x1301 ∷ 0x1302 ∷ 0x1303 ∷ [];
}

hello_parsed : parse_client_hello hello ≡ ok hello_profile
unfolding parse_client_hello
hello_parsed = refl

parse_client_hello-Ends_example : IsProfile hello hello_profile
unfolding parse_client_hello
parse_client_hello-Ends_example = parse_client_hello-Ends hello
