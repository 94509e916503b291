-- ===== src/Redirect/Location.antt =====
-- src/http_redirect.rs: where a plain request is sent.
use mathlib.Core.Path.{subst}
use propylea.Acme
use propylea.Redirect.{
  RedirectRequest, RedirectResponse, answer_plain_http, host_of, on_challenge, redirection,
  target_url,
}
use propylea.Acme.{FileSystem, Response, try_serve_acme_challenge}
use propylea.Config.{SecurityConfig}
use propylea.Headers.{
  insert_str, referrer_policy, server, strict_transport_security, x_content_type_options,
  x_frame_options,
}
use propylea.Headers.Keep.{IsOnly, insert_str-IsOnly}
use propylea.Headers.Downstream.{
  inject_downstream-IsOnly, inject_downstream-hsts, inject_downstream_other,
}
use propylea.Http.{HeaderApi, IsVisible}
use propylea.Prelude.{
  All, NoChar, Option, Text, [], before_char, before_char-NoChar, codes, none, refl, sym, true,
  unwrap_or_text, ◌++◌, ◌∙◌, ◌≡◌,
}

module _ (api : HeaderApi) where
  abbrev location : Text
  location = codes "location"

  -- The answer is a redirection to the same path and query of a host with no port, over HTTPS, with
  -- an empty body and every hardening header once, Strict-Transport-Security where the configuration
  -- asks for it.
  pub record IsRedirection (security : SecurityConfig) (req : RedirectRequest api)
      (res : RedirectResponse api) : Type 0 where
    pub permanently : res.status ≡ 301
    pub no_body : res.body ≡ []
    pub host : Text
    pub portless : NoChar b':' host
    pub of_request : host ≡ before_char b':' (host_of api req)
    pub located :
        IsOnly api location
          (codes "https://" ++ (host ++ unwrap_or_text (codes "/") req.path_and_query))
          res.headers
    pub banner : IsOnly api server security.server_banner res.headers
    pub frame : IsOnly api x_frame_options security.frame_options res.headers
    pub sniffing : IsOnly api x_content_type_options (codes "nosniff") res.headers
    pub referrer : IsOnly api referrer_policy (codes "strict-origin-when-cross-origin") res.headers
    pub transport :
        security.hsts ≡ true
        → IsOnly api strict_transport_security
            (codes "max-age=31536000; includeSubDomains; preload")
            res.headers

  redirection-IsRedirection :
      (security : SecurityConfig) (req : RedirectRequest api)
      → All IsVisible (target_url api req)
      → All IsVisible security.server_banner
      → All IsVisible security.frame_options
      → IsRedirection security req (redirection api security req)
  unfolding target_url
  redirection-IsRedirection security req visible b f =
      let m = insert_str api location (target_url api req) api.empty_map in
      let (v, (only, text)) =
        insert_str-IsOnly api location (target_url api req) api.empty_map visible in
      let (banner, (frame, (sniffing, referrer))) = inject_downstream-IsOnly api security m b f in
      record {
        permanently = refl;
        no_body = refl;
        host = before_char b':' (host_of api req);
        portless = before_char-NoChar b':' (host_of api req);
        of_request = refl;
        located = (
          v,
          (
            inject_downstream_other api security location m
                  (refl, (refl, (refl, (refl, (refl, tt)))))
                ∙ only,
            text,
          ),
        );
        banner = banner;
        frame = frame;
        sniffing = sniffing;
        referrer = referrer;
        transport = (inject_downstream-hsts api security m).0;
      }

  -- A plain request that is no ACME challenge is redirected, whatever its method: permanently, to
  -- `https`, the host of its URI or else of its Host header up to the first colon, and its own path
  -- and query; the answer has exactly one Server, X-Frame-Options, X-Content-Type-Options and
  -- Referrer-Policy header, and one Strict-Transport-Security header where the configuration asks
  -- for it. The URL and the configured texts are visible.
  pub answer-IsRedirection :
      (fs : FileSystem) (webroot : Option Text) (security : SecurityConfig)
      (req : RedirectRequest api)
      → try_serve_acme_challenge fs req.raw_path webroot ≡ none
      → All IsVisible (target_url api req)
      → All IsVisible security.server_banner
      → All IsVisible security.frame_options
      → IsRedirection security req (answer_plain_http api fs webroot security req)
  unfolding answer_plain_http
  answer-IsRedirection fs webroot security req unserved visible b f =
      subst
        (λ (o : Option Acme.Response). IsRedirection security req (on_challenge api security req o))
        (sym unserved) (redirection-IsRedirection security req visible b f)
