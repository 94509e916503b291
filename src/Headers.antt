-- ===== src/Headers.antt =====
-- src/headers.rs: the headers a request carries upstream and a response carries down; and
-- `sanitize_ingress_headers` of src/framing_guard/mod.rs. The peer's address is its text.
mod Tests
pub mod Keep
pub mod Others
pub mod Upstream
pub mod Downstream
use propylea.Http.{HeaderApi, get_str}
use propylea.Prelude.{Bool, Text, codes, if◌then◌else◌, none, some, ◌++◌}
use propylea.Config.{SecurityConfig, from_str}

abbrev pub x_forwarded_for : Text
x_forwarded_for = codes "x-forwarded-for"

abbrev pub x_forwarded_proto : Text
x_forwarded_proto = codes "x-forwarded-proto"

abbrev pub x_forwarded_host : Text
x_forwarded_host = codes "x-forwarded-host"

abbrev pub x_real_ip : Text
x_real_ip = codes "x-real-ip"

abbrev pub x_client_ip : Text
x_client_ip = codes "x-client-ip"

abbrev pub cf_connecting_ip : Text
cf_connecting_ip = codes "cf-connecting-ip"

abbrev pub true_client_ip : Text
true_client_ip = codes "true-client-ip"

abbrev pub via : Text
via = codes "via"

abbrev pub via_banner : Text
via_banner = codes "1.1 Propylea-Boundary"

abbrev pub https : Text
https = codes "https"

abbrev pub server : Text
server = codes "server"

abbrev pub strict_transport_security : Text
strict_transport_security = codes "strict-transport-security"

abbrev pub x_content_type_options : Text
x_content_type_options = codes "x-content-type-options"

abbrev pub x_frame_options : Text
x_frame_options = codes "x-frame-options"

abbrev pub referrer_policy : Text
referrer_policy = codes "referrer-policy"

abbrev pub hsts_policy : Text
hsts_policy = codes "max-age=31536000; includeSubDomains; preload"

module _ (api : HeaderApi) where
  open api use {HeaderMap, HeaderValue, insert, remove, from_str, from_static}

  -- `if let Ok(hv) = HeaderValue::from_str(..) { headers.insert(..) }`
  unfoldable pub insert_str : Text → Text → HeaderMap → HeaderMap
  insert_str name value headers = elim (from_str value) [
    | none ↦ headers
    | some hv ↦ insert name hv headers
  ]

  -- The seven removals, in the order of the source.
  unfoldable pub remove_identity : HeaderMap → HeaderMap
  remove_identity headers = remove true_client_ip (
      remove cf_connecting_ip (
        remove x_client_ip (
          remove x_real_ip
            (remove x_forwarded_host (remove x_forwarded_proto (remove x_forwarded_for headers))))))

  -- The address is parsed once and inserted under both names.
  unfoldable pub insert_peer : Text → HeaderMap → HeaderMap
  insert_peer ip_val headers = elim (from_str ip_val) [
    | none ↦ headers
    | some hv ↦ insert x_real_ip hv (insert x_forwarded_for hv headers)
  ]

  unfoldable pub sanitize_ingress_headers : Text → HeaderMap → HeaderMap
  unfolding remove_identity insert_peer
  sanitize_ingress_headers ip_val headers =
      insert x_forwarded_proto (from_static https) (insert_peer ip_val (remove_identity headers))

  -- Step 1: the address goes behind what the header says already.
  unfoldable pub extend_forwarded_for : Text → HeaderMap → HeaderMap
  unfolding insert_str
  extend_forwarded_for ip_str headers = elim (get_str api x_forwarded_for headers) [
    | some existing ↦ insert_str x_forwarded_for (existing ++ (codes ", " ++ ip_str)) headers
    | none ↦ insert_str x_forwarded_for ip_str headers
  ]

  unfoldable pub prepare_upstream_headers : Text → HeaderMap → HeaderMap
  unfolding insert_str extend_forwarded_for
  prepare_upstream_headers ip_str headers =
      let forwarded = extend_forwarded_for ip_str headers in
      let real = insert_str x_real_ip ip_str forwarded in
      insert via (from_static via_banner) (insert x_forwarded_proto (from_static https) real)

  unfoldable pub insert_hsts : Bool → HeaderMap → HeaderMap
  insert_hsts hsts headers =
      if hsts then insert strict_transport_security (from_static hsts_policy) headers else headers

  unfoldable pub inject_downstream_security_headers : SecurityConfig → HeaderMap → HeaderMap
  unfolding insert_str insert_hsts
  inject_downstream_security_headers security headers =
      let banner = insert_str server security.server_banner headers in
      let sts = insert_hsts security.hsts banner in
      let sniff = insert x_content_type_options (from_static (codes "nosniff")) sts in
      let frame = insert_str x_frame_options security.frame_options sniff in
      insert referrer_policy (from_static (codes "strict-origin-when-cross-origin")) frame
