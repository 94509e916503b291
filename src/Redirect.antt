-- ===== src/Redirect.antt =====
-- src/http_redirect.rs: the answer to a plain HTTP request, a redirection to HTTPS or that of the ACME
-- responder. The listener is I/O.
pub mod Location
mod Tests
use propylea.Acme.{FileSystem, Response, try_serve_acme_challenge}
use propylea.Acme
use propylea.Config.{SecurityConfig}
use propylea.Headers.{inject_downstream_security_headers, insert_str}
use propylea.Http.{HeaderApi, get_str}
use propylea.Prelude.{
  Bytes, Option, Text, [], before_char, codes, none, some, unwrap_or_text, ℕ, ◌++◌,
}

module _ (api : HeaderApi) where
  open api use {HeaderMap, insert, from_static, empty_map}

  pub record RedirectRequest : Type 0 where
    pub uri_host : Option Text
    pub raw_path : Text
    pub path_and_query : Option Text
    pub headers : HeaderMap

  pub record RedirectResponse : Type 0 where
    pub status : ℕ
    pub headers : HeaderMap
    pub body : Bytes

  -- `or_else` and `unwrap_or`
  abbrev or_header : Option Text → Option Text → Text
  or_header (some host) header = host
  or_header none header = unwrap_or_text (codes "localhost") header

  abbrev pub host_of : RedirectRequest → Text
  host_of req = or_header req.uri_host (get_str api (codes "host") req.headers)

  -- `split(':').next()`: what stands before the first colon.
  unfoldable pub target_url : RedirectRequest → Text
  target_url req =
      codes "https://"
      ++ (before_char b':' (host_of req) ++ unwrap_or_text (codes "/") req.path_and_query)

  abbrev redirection : SecurityConfig → RedirectRequest → RedirectResponse
  redirection security req = record {
    status = 301;
    headers =
        inject_downstream_security_headers api security
          (insert_str api (codes "location") (target_url req) empty_map);
    body = [];
  }

  abbrev challenge_headers : Option Text → HeaderMap
  challenge_headers none = empty_map
  challenge_headers (some t) = insert (codes "content-type") (from_static t) empty_map

  abbrev pub on_challenge :
      SecurityConfig → RedirectRequest → Option Acme.Response → RedirectResponse
  on_challenge security req none = redirection security req
  on_challenge security req (some res) = record {
    status = res.status;
    headers = inject_downstream_security_headers api security (challenge_headers res.content_type);
    body = res.body;
  }

  unfoldable pub answer_plain_http :
      FileSystem → Option Text → SecurityConfig → RedirectRequest → RedirectResponse
  unfolding try_serve_acme_challenge target_url
  answer_plain_http fs webroot security req =
      on_challenge security req (try_serve_acme_challenge fs req.raw_path webroot)
