-- ===== src/Headers/Downstream.antt =====
-- src/headers.rs: what a response carries to the client.
use propylea.Http.{HeaderApi, IsVisible}
use propylea.Prelude.{All, Bool, Text, [], arith, codes, false, refl, text_eq, true, ◌∙◌, ◌∷◌, ◌≡◌}
use propylea.Config.{SecurityConfig}
use propylea.Headers.{
  hsts_policy, inject_downstream_security_headers, insert_hsts, insert_str, referrer_policy, server,
  strict_transport_security, x_content_type_options, x_frame_options,
}
use propylea.Headers.Others.{IsOther}
use propylea.Headers.Keep.{
  IsOnly, get_all-insert_other, get_all-insert_str_other, insert-IsOnly, insert-IsOnly_other,
  insert_str-IsOnly, insert_str-IsOnly_other,
}

module _ (api : HeaderApi) where
  open api use {HeaderMap, get_all, insert, from_static}

  insert_hsts_server :
      (b : Bool) (s : Text) (m : HeaderMap)
      → IsOnly api server s m
      → IsOnly api server s (insert_hsts api b m)
  unfolding insert_hsts
  insert_hsts_server true s m h =
      insert-IsOnly_other api strict_transport_security server s (from_static hsts_policy) m refl h
  insert_hsts_server false s m h = h

  -- An upstream's own values are replaced: with a visible banner and frame policy in the
  -- configuration, the answer has exactly one Server, X-Frame-Options, X-Content-Type-Options and
  -- Referrer-Policy header, each the configured or fixed text.
  pub inject_downstream-IsOnly :
      (security : SecurityConfig) (m : HeaderMap)
      → All IsVisible security.server_banner
      → All IsVisible security.frame_options
      → let out = inject_downstream_security_headers api security m in
        IsOnly api server security.server_banner out
        × (IsOnly api x_frame_options security.frame_options out
            × (IsOnly api x_content_type_options (codes "nosniff") out
                × IsOnly api referrer_policy (codes "strict-origin-when-cross-origin") out))
  unfolding inject_downstream_security_headers insert_hsts
  inject_downstream-IsOnly security m hb hf =
      let m1 = insert_str api server security.server_banner m in
      let m2 = insert_hsts api security.hsts m1 in
      let sniff = from_static (codes "nosniff") in
      let m3 = insert x_content_type_options sniff m2 in
      let m4 = insert_str api x_frame_options security.frame_options m3 in
      let policy = from_static (codes "strict-origin-when-cross-origin") in
      let last = insert-IsOnly_other api referrer_policy in
      let frame = insert_str-IsOnly_other api x_frame_options in
      (
        last server security.server_banner policy m4 refl (
            frame server security.server_banner security.frame_options m3 refl (
              insert-IsOnly_other api x_content_type_options server security.server_banner sniff m2
                refl
                (insert_hsts_server security.hsts security.server_banner m1
                  (insert_str-IsOnly api server security.server_banner m hb)))),
        (
          last x_frame_options security.frame_options policy m4 refl
              (insert_str-IsOnly api x_frame_options security.frame_options m3 hf),
          (
            last x_content_type_options (codes "nosniff") policy m4 refl (
                frame x_content_type_options (codes "nosniff") security.frame_options m3 refl
                  (insert-IsOnly api x_content_type_options (codes "nosniff") m2 (ground arith))),
            insert-IsOnly api referrer_policy (codes "strict-origin-when-cross-origin") m4
                (ground arith),
          ),
        ),
      )

  -- Strict-Transport-Security is the preload policy, once, where the configuration asks for it;
  -- otherwise the upstream's own values of it pass unchanged.
  pub inject_downstream-hsts :
      (security : SecurityConfig) (m : HeaderMap)
      → let out = inject_downstream_security_headers api security m in
        ((security.hsts ≡ true) → IsOnly api strict_transport_security hsts_policy out)
        × ((security.hsts ≡ false)
            → get_all strict_transport_security out ≡ get_all strict_transport_security m)
  unfolding inject_downstream_security_headers insert_hsts
  inject_downstream-hsts security m =
      let m1 = insert_str api server security.server_banner m in
      let m2 = insert_hsts api security.hsts m1 in
      let sniff = from_static (codes "nosniff") in
      let m3 = insert x_content_type_options sniff m2 in
      let m4 = insert_str api x_frame_options security.frame_options m3 in
      let policy = from_static (codes "strict-origin-when-cross-origin") in
      let sts = strict_transport_security in
      (
        λ on. insert-IsOnly_other api referrer_policy sts hsts_policy policy m4 refl (
            insert_str-IsOnly_other api x_frame_options sts hsts_policy security.frame_options m3
              refl
              (insert-IsOnly_other api x_content_type_options sts hsts_policy sniff m2 refl
                (rw (on, insert_hsts) (insert-IsOnly api sts hsts_policy m1 (ground arith))))),
        λ off.
            get_all-insert_other api referrer_policy sts policy m4 refl
            ∙ (get_all-insert_str_other api x_frame_options sts security.frame_options m3 refl
                ∙ (get_all-insert_other api x_content_type_options sts sniff m2 refl
                    ∙ rw (off, insert_hsts)
                        (get_all-insert_str_other api server sts security.server_banner m refl))),
      )

  get_all-insert_hsts_other :
      (b : Bool) (j : Text) (m : HeaderMap)
      → text_eq strict_transport_security j ≡ false
      → get_all j (insert_hsts api b m) ≡ get_all j m
  unfolding insert_hsts
  get_all-insert_hsts_other true j m h =
      get_all-insert_other api strict_transport_security j (from_static hsts_policy) m h
  get_all-insert_hsts_other false j m h = refl

  -- Every other header goes down as it came.
  pub inject_downstream_other :
      (security : SecurityConfig) (j : Text) (m : HeaderMap)
      → IsOther j (
          server ∷ strict_transport_security ∷ x_content_type_options ∷ x_frame_options
          ∷ referrer_policy ∷ [])
      → get_all j (inject_downstream_security_headers api security m) ≡ get_all j m
  unfolding inject_downstream_security_headers insert_hsts
  inject_downstream_other security j m (hs, (ht, (hc, (hf, (hr, end))))) =
      let m1 = insert_str api server security.server_banner m in
      let m2 = insert_hsts api security.hsts m1 in
      let m3 = insert x_content_type_options (from_static (codes "nosniff")) m2 in
      let m4 = insert_str api x_frame_options security.frame_options m3 in
      get_all-insert_other api referrer_policy j
        (from_static (codes "strict-origin-when-cross-origin")) m4 hr
      ∙ get_all-insert_str_other api x_frame_options j security.frame_options m3 hf
      ∙ get_all-insert_other api x_content_type_options j (from_static (codes "nosniff")) m2 hc
      ∙ get_all-insert_hsts_other security.hsts j m1 ht
      ∙ get_all-insert_str_other api server j security.server_banner m hs
