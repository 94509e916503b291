-- ===== src/Headers/Keep.antt =====
-- How one insertion or removal of src/headers.rs and src/framing_guard/mod.rs reads back.
use propylea.Http.{HeaderApi, IsVisible, get_str}
use propylea.Prelude.{
  All, Option-cases, Text, [], arith, false, inl, inr, none, some, text_eq, text_eq_refl, ◌∙◌, ◌∷◌,
  ◌≡◌,
}
use propylea.Headers.{insert_str}

module _ (api : HeaderApi) where
  open api use {HeaderMap, HeaderValue, get_all, insert, remove, from_str, from_static, to_str}

  -- The name has one value, and it is this text.
  abbrev pub IsOnly : Text → Text → HeaderMap → Type 0
  IsOnly k s m = (v : HeaderValue) × ((get_all k m ≡ v ∷ []) × (to_str v ≡ some s))

  pub get_all-insert_other :
      (k j : Text) (v : HeaderValue) (m : HeaderMap)
      → text_eq k j ≡ false
      → get_all j (insert k v m) ≡ get_all j m
  get_all-insert_other k j v m h = ground (arith, api.get_all-insert k j v m)

  pub get_all-insert_same :
      (k : Text) (v : HeaderValue) (m : HeaderMap) → get_all k (insert k v m) ≡ v ∷ []
  get_all-insert_same k v m = ground (arith, api.get_all-insert k k v m, text_eq_refl k)

  pub get_all-remove_other :
      (k j : Text) (m : HeaderMap) → text_eq k j ≡ false → get_all j (remove k m) ≡ get_all j m
  get_all-remove_other k j m h = ground (arith, api.get_all-remove k j m)

  pub get_all-remove_empty :
      (k j : Text) (m : HeaderMap) → get_all j m ≡ [] → get_all j (remove k m) ≡ []
  get_all-remove_empty k j m h = ground (arith, api.get_all-remove k j m)

  pub get_all-remove_same : (k : Text) (m : HeaderMap) → get_all k (remove k m) ≡ []
  get_all-remove_same k m = ground (arith, api.get_all-remove k k m, text_eq_refl k)

  pub get_all-insert_str_other :
      (k j s : Text) (m : HeaderMap)
      → text_eq k j ≡ false
      → get_all j (insert_str api k s m) ≡ get_all j m
  unfolding insert_str
  get_all-insert_str_other k j s m h = elim (Option-cases (from_str s)) [
    | inl e ↦ rw (e, insert_str)
    | inr (v, e) ↦ rw (e, insert_str) (get_all-insert_other k j v m h)
  ]

  pub insert-IsOnly :
      (k s : Text) (m : HeaderMap) → All IsVisible s → IsOnly k s (insert k (from_static s) m)
  insert-IsOnly k s m h =
      (from_static s, (get_all-insert_same k (from_static s) m, api.to_str-from_static s h))

  pub insert-some-IsOnly :
      (k s : Text) (v : HeaderValue) (m : HeaderMap)
      → from_str s ≡ some v
      → IsOnly k s (insert k v m)
  insert-some-IsOnly k s v m e = (v, (get_all-insert_same k v m, api.to_str-from_str s v e))

  pub insert_str-IsOnly :
      (k s : Text) (m : HeaderMap) → All IsVisible s → IsOnly k s (insert_str api k s m)
  unfolding insert_str
  insert_str-IsOnly k s m h =
      let found = api.from_str_ok s h in
      (
        found.0,
        (
          rw (found.1, insert_str) (get_all-insert_same k found.0 m),
          api.to_str-from_str s found.0 found.1,
        ),
      )

  pub insert-IsOnly_other :
      (k j s : Text) (v : HeaderValue) (m : HeaderMap)
      → text_eq k j ≡ false
      → IsOnly j s m
      → IsOnly j s (insert k v m)
  insert-IsOnly_other k j s v m h (w, (e, t)) = (w, (get_all-insert_other k j v m h ∙ e, t))

  pub insert_str-IsOnly_other :
      (k j s u : Text) (m : HeaderMap)
      → text_eq k j ≡ false
      → IsOnly j s m
      → IsOnly j s (insert_str api k u m)
  insert_str-IsOnly_other k j s u m h (w, (e, t)) = (w, (get_all-insert_str_other k j u m h ∙ e, t))

  pub get_str-IsOnly : (k s : Text) (m : HeaderMap) → IsOnly k s m → get_str api k m ≡ some s
  get_str-IsOnly k s m (v, (e, t)) = rw (e, t)

  pub get_str-empty : (k : Text) (m : HeaderMap) → get_all k m ≡ [] → get_str api k m ≡ none
  get_str-empty k m e = rw e
