-- ===== src/Headers/Upstream.antt =====
-- src/headers.rs and src/framing_guard/mod.rs: what the upstream host is told about the client
-- by the two rewritings, which the proxy runs one after the other.
use mathlib.Core.Path.{subst}
use propylea.Http.{HeaderApi, IsVisible}
use propylea.Prelude.{All, All-append, Text, [], arith, codes, refl, sym, ◌++◌, ◌∙◌, ◌∷◌, ◌≡◌}
use propylea.Headers.{
  cf_connecting_ip, extend_forwarded_for, https, insert_peer, insert_str, prepare_upstream_headers,
  remove_identity, sanitize_ingress_headers, true_client_ip, via, via_banner, x_client_ip,
  x_forwarded_for, x_forwarded_host, x_forwarded_proto, x_real_ip,
}
use propylea.Headers.Others.{
  IsOther, claimed_names, prepare_other, remove_identity-empty, remove_identity_other,
  sanitize_other, touched_names,
}
use propylea.Headers.Keep.{
  IsOnly, get_all-insert_other, get_all-insert_same, get_str-IsOnly, insert-IsOnly,
  insert-IsOnly_other, insert_str-IsOnly, insert_str-IsOnly_other,
}

module _ (api : HeaderApi) where
  open api use {HeaderMap, HeaderValue, get_all, insert, remove, from_static}

  -- The request as it is forwarded.
  abbrev pub forwarded_headers : Text → HeaderMap → HeaderMap
  forwarded_headers ip m = prepare_upstream_headers api ip (sanitize_ingress_headers api ip m)

  claim_dropped :
      (k ip : Text) (m : HeaderMap)
      → IsOther k (x_forwarded_for ∷ x_forwarded_proto ∷ x_real_ip ∷ via ∷ [])
      → get_all k (remove_identity api m) ≡ []
      → get_all k (forwarded_headers ip m) ≡ []
  claim_dropped k ip m (hf, (hp, (hr, hv))) e =
      prepare_other api k ip (sanitize_ingress_headers api ip m) (hf, (hp, (hr, hv)))
      ∙ (sanitize_other api k ip m (hf, (hp, (hr, tt))) ∙ e)

  -- Whatever the client sends, no value of X-Forwarded-Host, X-Client-IP, CF-Connecting-IP or
  -- True-Client-IP reaches the upstream.
  pub claimed_names-dropped :
      (ip : Text) (m : HeaderMap) → All (λ k. get_all k (forwarded_headers ip m) ≡ []) claimed_names
  claimed_names-dropped ip m =
      let (host, (client, (cf, (true_ip, t)))) = remove_identity-empty api m in
      (
        claim_dropped x_forwarded_host ip m (refl, (refl, (refl, (refl, tt)))) host,
        (
          claim_dropped x_client_ip ip m (refl, (refl, (refl, (refl, tt)))) client,
          (
            claim_dropped cf_connecting_ip ip m (refl, (refl, (refl, (refl, tt)))) cf,
            (claim_dropped true_client_ip ip m (refl, (refl, (refl, (refl, tt)))) true_ip, tt),
          ),
        ),
      )

  -- A header that is none of the names the two rewritings touch reaches the upstream with the
  -- client's values, in their order.
  pub forwarded_headers_other :
      (j ip : Text) (m : HeaderMap)
      → IsOther j touched_names
      → get_all j (forwarded_headers ip m) ≡ get_all j m
  forwarded_headers_other j ip m h =
      let (hf, (hp, (hr, (hv, rest)))) = h in
      prepare_other api j ip (sanitize_ingress_headers api ip m) (hf, (hp, (hr, (hv, tt))))
      ∙ (sanitize_other api j ip m (hf, (hp, (hr, tt))) ∙ remove_identity_other api j m h)

  sanitize-x_forwarded_for :
      (ip : Text) (m : HeaderMap)
      → All IsVisible ip
      → IsOnly api x_forwarded_for ip (sanitize_ingress_headers api ip m)
  unfolding sanitize_ingress_headers insert_peer
  sanitize-x_forwarded_for ip m h =
      let (v, e) = api.from_str_ok ip h in
      let base = remove_identity api m in
      let m1 = insert x_forwarded_for v base in
      let m2 = insert x_real_ip v m1 in
      (
        v,
        (
          rw (e, insert_peer, sanitize_ingress_headers)
              (get_all-insert_other api x_forwarded_proto x_forwarded_for (from_static https) m2
                  refl
                ∙ (get_all-insert_other api x_real_ip x_forwarded_for v m1 refl
                    ∙ get_all-insert_same api x_forwarded_for v base)),
          api.to_str-from_str ip v e,
        ),
      )

  extend-sanitize :
      (ip : Text) (m : HeaderMap)
      → All IsVisible ip
      → extend_forwarded_for api ip (sanitize_ingress_headers api ip m)
        ≡ insert_str api x_forwarded_for
            (ip ++ (codes ", " ++ ip))
            (sanitize_ingress_headers api ip m)
  unfolding extend_forwarded_for
  extend-sanitize ip m h = rw (
    extend_forwarded_for,
    get_str-IsOnly api x_forwarded_for ip (sanitize_ingress_headers api ip m)
        (sanitize-x_forwarded_for ip m h),
  )

  doubled-IsVisible : (ip : Text) → All IsVisible ip → All IsVisible (ip ++ (codes ", " ++ ip))
  doubled-IsVisible ip h =
      All-append IsVisible ip (codes ", " ++ ip) h (ground arith, (ground arith, h))

  -- Where the peer's address is visible text, the upstream is told one X-Real-IP, the address,
  -- one X-Forwarded-Proto, https, one Via, the proxy, and one X-Forwarded-For, which is the
  -- address twice: the first rewriting sets it and the second appends to it.
  pub forwarded_headers-IsOnly :
      (ip : Text) (m : HeaderMap)
      → All IsVisible ip
      → IsOnly api x_real_ip ip (forwarded_headers ip m)
        × (IsOnly api x_forwarded_proto https (forwarded_headers ip m)
            × (IsOnly api via via_banner (forwarded_headers ip m)
                × IsOnly api x_forwarded_for (ip ++ (codes ", " ++ ip)) (forwarded_headers ip m)))
  unfolding prepare_upstream_headers
  forwarded_headers-IsOnly ip m h =
      let m0 = sanitize_ingress_headers api ip m in
      let m1 = extend_forwarded_for api ip m0 in
      let m2 = insert_str api x_real_ip ip m1 in
      let p = from_static https in
      let m3 = insert x_forwarded_proto p m2 in
      let b = from_static via_banner in
      let other = insert-IsOnly_other api in
      (
        other via x_real_ip ip b m3 refl (
            other x_forwarded_proto x_real_ip ip p m2 refl
              (insert_str-IsOnly api x_real_ip ip m1 h)),
        (
          other via x_forwarded_proto https b m3 refl
              (insert-IsOnly api x_forwarded_proto https m2 (ground arith)),
          (
            insert-IsOnly api via via_banner m3 (ground arith),
            other via x_forwarded_for (ip ++ (codes ", " ++ ip)) b m3 refl (
                other x_forwarded_proto x_forwarded_for (ip ++ (codes ", " ++ ip)) p m2 refl (
                  insert_str-IsOnly_other api x_real_ip x_forwarded_for (ip ++ (codes ", " ++ ip))
                    ip m1 refl
                    (subst (IsOnly api x_forwarded_for (ip ++ (codes ", " ++ ip)))
                      (sym (extend-sanitize ip m h))
                      (insert_str-IsOnly api x_forwarded_for (ip ++ (codes ", " ++ ip)) m0
                        (doubled-IsVisible ip h))))),
          ),
        ),
      )
