-- ===== src/Redirect/Tests.antt =====
-- Redirections of test requests, and an instance of what is proved of them.
use propylea.Http.Assoc.{assoc_headers}
use propylea.Http.{IsVisible}
use propylea.Acme.{FileSystem, try_serve_acme_challenge}
use propylea.Config.{SecurityConfig}
use propylea.Redirect.{RedirectRequest, answer_plain_http, target_url}
use propylea.Redirect.Location.{IsRedirection, answer-IsRedirection}
use propylea.Prelude.{All, [], arith, codes, false, none, refl, some, true, ◌∷◌, ◌≡◌}

abbrev no_files : FileSystem
no_files = record { is_file = λ p. false; metadata_file_len = λ p. none; read = λ p. none }

abbrev security : SecurityConfig
security = record {
  enable_defense = true;
  abuseipdb_api_key = none;
  webhook_url = none;
  syslog_cef = false;
  server_banner = codes "edge";
  hsts = true;
  frame_options = codes "DENY";
  quarantine_db = none;
  control_socket = none;
  persist_quarantine = true;
  trusted_cidrs = [];
}

abbrev request : RedirectRequest assoc_headers
request = record {
  uri_host = none;
  raw_path = codes "/a";
  path_and_query = some (codes "/a?b=1");
  headers = (codes "host", codes "a.example:8080") ∷ [];
}

request_sent_to : target_url assoc_headers request ≡ codes "https://a.example/a?b=1"
unfolding target_url
request_sent_to = refl

-- An address in brackets is cut at its first colon.
abbrev ipv6_request : RedirectRequest assoc_headers
ipv6_request = record request { headers = (codes "host", codes "[2001:db8::1]:80") ∷ [] }

ipv6_cut : target_url assoc_headers ipv6_request ≡ codes "https://[2001/a?b=1"
unfolding target_url
ipv6_cut = refl

request_unserved : try_serve_acme_challenge no_files request.raw_path none ≡ none
unfolding try_serve_acme_challenge
request_unserved = refl

url-IsVisible : All IsVisible (target_url assoc_headers request)
unfolding target_url
url-IsVisible = ground arith

banner-IsVisible : All IsVisible security.server_banner
banner-IsVisible = ground arith

frame-IsVisible : All IsVisible security.frame_options
frame-IsVisible = ground arith

answer-IsRedirection_example :
    IsRedirection assoc_headers security request
      (answer_plain_http assoc_headers no_files none security request)
answer-IsRedirection_example =
    answer-IsRedirection assoc_headers no_files none security request request_unserved url-IsVisible
      banner-IsVisible frame-IsVisible
