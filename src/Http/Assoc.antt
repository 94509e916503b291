-- ===== src/Http/Assoc.antt =====
-- An association list that meets the header map's laws; a value is its text.
use mathlib.Core.List.{}
use propylea.Prelude.{
  All, Bool, List, Option, Text, [], all, arith, filter, if◌then◌else◌, leb, ltb, map, none, not,
  refl, some, text_eq, text_eq_iff, true, ◌&&◌, ◌∷◌, ◌≡◌,
}
use propylea.Http.{HeaderApi, IsVisible}

abbrev pub Entries : Type 0
Entries = List (Text × Text)

abbrev pub values : List (Text × Text) → List Text
values m = map (λ e. e.1) m

abbrev pub assoc_get_all : Text → Entries → List Text
assoc_get_all k m = map (λ e. e.1) (filter (λ e. text_eq e.0 k) m)

abbrev pub assoc_remove : Text → Entries → Entries
assoc_remove k m = filter (λ e. not (text_eq e.0 k)) m

abbrev pub assoc_insert : Text → Text → Entries → Entries
assoc_insert k v m = (k, v) ∷ assoc_remove k m

pub get_all-remove_lem :
    (k j : Text) (m : Entries)
    → assoc_get_all j (assoc_remove k m) ≡ (if text_eq k j then [] else assoc_get_all j m)
get_all-remove_lem k j [] = ground arith
get_all-remove_lem k j ((i, w) ∷ m) =
    ground (arith, get_all-remove_lem k j m, text_eq_iff k j, text_eq_iff i k, text_eq_iff i j)

pub get_all-insert_lem :
    (k j v : Text) (m : Entries)
    → assoc_get_all j (assoc_insert k v m) ≡ (if text_eq k j then v ∷ [] else assoc_get_all j m)
get_all-insert_lem k j v m = ground (arith, get_all-remove_lem k j m)

abbrev pub visible_text : Text → Bool
visible_text s = all (λ c. leb 0x20 c && ltb c 0x7f) s

visible_text_of : (s : Text) → All IsVisible s → visible_text s ≡ true
visible_text_of [] h = refl
visible_text_of (c ∷ s) h = ground (arith, visible_text_of s h.1)

abbrev pub checked_text : Text → Option Text
checked_text s = if visible_text s then some s else none

pub checked_ok : (s : Text) → All IsVisible s → checked_text s ≡ some s
checked_ok s h = rw (visible_text_of s h)

pub to_str_lem : (s v : Text) → checked_text s ≡ some v → checked_text v ≡ some s
to_str_lem s v h = ground arith

abbrev pub assoc_headers : HeaderApi
assoc_headers = record {
  HeaderMap = Entries;
  HeaderValue = Text;
  get_all = assoc_get_all;
  insert = assoc_insert;
  remove = assoc_remove;
  iter = λ m. m;
  from_str = checked_text;
  from_static = λ s. s;
  to_str = checked_text;
  as_bytes = λ s. s;
  empty_map = [];
  get_all-insert = get_all-insert_lem;
  get_all-remove = get_all-remove_lem;
  get_all-iter = λ k m. refl;
  from_str_ok = λ s h. (s, checked_ok s h);
  to_str-from_str = to_str_lem;
  to_str-from_static = checked_ok;
}
