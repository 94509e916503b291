-- ===== src/Http.antt =====
-- What the sources use of the `http` crate's header map, as an interface. Names are written in
-- lower case, as the crate keeps them. The laws are the documented behaviour of the map:
-- `insert` replaces every value of the name, `remove` drops them, and `iter` yields each value
-- under its name.
pub mod Assoc
use propylea.Prelude.{
  All, Bool, Bytes, List, Option, Text, [], filter, head?, if◌then◌else◌, is_empty, map, none, not,
  some, text_eq, ℕ, ◌<◌, ◌∷◌, ◌≡◌, ◌≤◌,
}

-- Visible ASCII, or a space: what a header value may hold as text.
abbrev pub IsVisible : ℕ → Type 0
IsVisible c = (0x20 ≤ c) × (c < 0x7f)

pub record HeaderApi : Type 1 where
  pub HeaderMap : Type 0
  pub HeaderValue : Type 0
  pub get_all : Text → HeaderMap → List HeaderValue
  pub insert : Text → HeaderValue → HeaderMap → HeaderMap
  pub remove : Text → HeaderMap → HeaderMap
  pub iter : HeaderMap → List (Text × HeaderValue)
  pub from_str : Text → Option HeaderValue
  pub from_static : Text → HeaderValue
  pub to_str : HeaderValue → Option Text
  pub as_bytes : HeaderValue → Bytes
  pub empty_map : HeaderMap
  pub get_all-insert :
      (k j : Text) (v : HeaderValue) (m : HeaderMap)
      → get_all j (insert k v m) ≡ (if text_eq k j then v ∷ [] else get_all j m)
  pub get_all-remove :
      (k j : Text) (m : HeaderMap)
      → get_all j (remove k m) ≡ (if text_eq k j then [] else get_all j m)
  pub get_all-iter :
      (k : Text) (m : HeaderMap)
      → get_all k m ≡ map (λ e. e.1) (filter (λ e. text_eq e.0 k) (iter m))
  pub from_str_ok : (s : Text) → All IsVisible s → (v : HeaderValue) × (from_str s ≡ some v)
  pub to_str-from_str : (s : Text) (v : HeaderValue) → from_str s ≡ some v → to_str v ≡ some s
  pub to_str-from_static : (s : Text) → All IsVisible s → to_str (from_static s) ≡ some s

module _ (api : HeaderApi) where
  open api use {HeaderMap, HeaderValue, get_all}

  -- `get` answers the first value.
  abbrev pub get : Text → HeaderMap → Option HeaderValue
  get k m = head? (get_all k m)

  abbrev pub contains_key : Text → HeaderMap → Bool
  contains_key k m = not (is_empty (get_all k m))

  -- `.get(k).and_then(|v| v.to_str().ok())`
  abbrev pub and_then_str : Option HeaderValue → Option Text
  and_then_str none = none
  and_then_str (some v) = api.to_str v

  abbrev pub get_str : Text → HeaderMap → Option Text
  get_str k m = and_then_str (get k m)
