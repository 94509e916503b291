-- ===== src/Headers/Others.antt =====
-- What each step of the two rewritings does to the headers that it does not set.
use propylea.Http.{HeaderApi, get_str}
use propylea.Prelude.{
  All, List, Option-cases, Text, [], codes, false, inl, inr, text_eq, ◌++◌, ◌∙◌, ◌∷◌, ◌≡◌,
}
use propylea.Headers.{
  cf_connecting_ip, extend_forwarded_for, https, insert_peer, insert_str, prepare_upstream_headers,
  remove_identity, sanitize_ingress_headers, true_client_ip, via, via_banner, x_client_ip,
  x_forwarded_for, x_forwarded_host, x_forwarded_proto, x_real_ip,
}
use propylea.Headers.Keep.{
  get_all-insert_other, get_all-insert_str_other, get_all-remove_empty, get_all-remove_other,
  get_all-remove_same,
}

-- The names that say who the client is and that the proxy never sets itself.
abbrev pub claimed_names : List Text
claimed_names = x_forwarded_host ∷ x_client_ip ∷ cf_connecting_ip ∷ true_client_ip ∷ []

-- Every name that the two rewritings touch.
abbrev pub touched_names : List Text
touched_names = x_forwarded_for ∷ x_forwarded_proto ∷ x_real_ip ∷ via ∷ claimed_names

abbrev pub IsOther : Text → List Text → Type 0
IsOther j names = All (λ k. text_eq k j ≡ false) names

module _ (api : HeaderApi) where
  open api use {HeaderMap, HeaderValue, get_all, insert, remove, from_static}

  insert_peer_other :
      (j ip : Text) (m : HeaderMap)
      → IsOther j (x_forwarded_for ∷ x_real_ip ∷ [])
      → get_all j (insert_peer api ip m) ≡ get_all j m
  unfolding insert_peer
  insert_peer_other j ip m (hf, (hr, t)) = elim (Option-cases (api.from_str ip)) [
    | inl e ↦ rw (e, insert_peer)
    | inr (v, e) ↦
        rw (e, insert_peer)
          (get_all-insert_other api x_real_ip j v (insert x_forwarded_for v m) hr
            ∙ get_all-insert_other api x_forwarded_for j v m hf)
  ]

  pub sanitize_other :
      (j ip : Text) (m : HeaderMap)
      → IsOther j (x_forwarded_for ∷ x_forwarded_proto ∷ x_real_ip ∷ [])
      → get_all j (sanitize_ingress_headers api ip m) ≡ get_all j (remove_identity api m)
  unfolding sanitize_ingress_headers
  sanitize_other j ip m (hf, (hp, hr)) =
      get_all-insert_other api x_forwarded_proto j (from_static https)
        (insert_peer api ip (remove_identity api m)) hp
      ∙ insert_peer_other j ip (remove_identity api m) (hf, hr)

  extend_forwarded_for_other :
      (j ip : Text) (m : HeaderMap)
      → text_eq x_forwarded_for j ≡ false
      → get_all j (extend_forwarded_for api ip m) ≡ get_all j m
  unfolding extend_forwarded_for
  extend_forwarded_for_other j ip m h = elim (Option-cases (get_str api x_forwarded_for m)) [
    | inl e ↦ rw (e, extend_forwarded_for) (get_all-insert_str_other api x_forwarded_for j ip m h)
    | inr (s, e) ↦
        rw (e, extend_forwarded_for)
          (get_all-insert_str_other api x_forwarded_for j (s ++ (codes ", " ++ ip)) m h)
  ]

  pub prepare_other :
      (j ip : Text) (m : HeaderMap)
      → IsOther j (x_forwarded_for ∷ x_forwarded_proto ∷ x_real_ip ∷ via ∷ [])
      → get_all j (prepare_upstream_headers api ip m) ≡ get_all j m
  unfolding prepare_upstream_headers
  prepare_other j ip m (hf, (hp, (hr, (hv, t)))) =
      let m1 = extend_forwarded_for api ip m in
      let m2 = insert_str api x_real_ip ip m1 in
      let m3 = insert x_forwarded_proto (from_static https) m2 in
      get_all-insert_other api via j (from_static via_banner) m3 hv
      ∙ (get_all-insert_other api x_forwarded_proto j (from_static https) m2 hp
          ∙ (get_all-insert_str_other api x_real_ip j ip m1 hr
              ∙ extend_forwarded_for_other j ip m hf))

  pub remove_identity-empty :
      (m : HeaderMap) → All (λ k. get_all k (remove_identity api m) ≡ []) claimed_names
  unfolding remove_identity
  remove_identity-empty m =
      let m1 = remove x_forwarded_proto (remove x_forwarded_for m) in
      let m2 = remove x_forwarded_host m1 in
      let m3 = remove x_client_ip (remove x_real_ip m2) in
      let m4 = remove cf_connecting_ip m3 in
      let keep = get_all-remove_empty api in
      (
        keep true_client_ip x_forwarded_host m4 (
            keep cf_connecting_ip x_forwarded_host m3 (
              keep x_client_ip x_forwarded_host (remove x_real_ip m2) (
                keep x_real_ip x_forwarded_host m2 (get_all-remove_same api x_forwarded_host m1)))),
        (
          keep true_client_ip x_client_ip m4 (
              keep cf_connecting_ip x_client_ip m3
                (get_all-remove_same api x_client_ip (remove x_real_ip m2))),
          (
            keep true_client_ip cf_connecting_ip m4 (get_all-remove_same api cf_connecting_ip m3),
            (get_all-remove_same api true_client_ip m4, tt),
          ),
        ),
      )

  pub remove_identity_other :
      (j : Text) (m : HeaderMap)
      → IsOther j touched_names
      → get_all j (remove_identity api m) ≡ get_all j m
  unfolding remove_identity
  remove_identity_other j m (hf, (hp, (hr, (hv, (hh, (hc, (hcf, (ht, t)))))))) =
      let m1 = remove x_forwarded_for m in
      let m2 = remove x_forwarded_proto m1 in
      let m3 = remove x_forwarded_host m2 in
      let m4 = remove x_real_ip m3 in
      let m5 = remove x_client_ip m4 in
      let m6 = remove cf_connecting_ip m5 in
      rw (
        get_all-remove_other api true_client_ip j m6 ht,
        get_all-remove_other api cf_connecting_ip j m5 hcf,
        get_all-remove_other api x_client_ip j m4 hc,
        get_all-remove_other api x_real_ip j m3 hr,
        get_all-remove_other api x_forwarded_host j m2 hh,
        get_all-remove_other api x_forwarded_proto j m1 hp,
        get_all-remove_other api x_forwarded_for j m hf,
      )
