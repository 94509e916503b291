-- ===== src/Telemetry/Redact.antt =====
-- No value of a sensitive parameter is left in a recorded query string.
use propylea.Prelude.{
  All, All-append, Bool-cases, List, NoChar, Text, [], ap, arith, before_char, before_char-NoChar,
  before_char-NoChar_of, before_char-append, codes, contains_char, inl, inr, join, map, refl, split,
  split-NoChar, split-join, split-ne-nil, sym, true, ◌++◌, ◌∙◌, ◌∷◌, ◌≡◌, ◌≢◌, ◌⊎◌,
}
use propylea.Telemetry.{is_sensitive, redact_pair, redacted, sanitize_query_string}

-- The query string is redacted part by part; the empty query is one empty part.
sanitize-join :
    (raw : Text) → sanitize_query_string raw ≡ join (codes "&") (map redact_pair (split b'&' raw))
unfolding sanitize_query_string
sanitize-join [] = refl
sanitize-join (c ∷ cs) = refl

before_redacted : (k : Text) → NoChar b'=' k → before_char b'=' (k ++ redacted) ≡ k
before_redacted k h = before_char-append b'=' k (codes "[REDACTED]") h

redacted-NoChar : NoChar b'&' redacted
redacted-NoChar = omega arith

redact_pair-NoChar : (pair : Text) → NoChar b'&' pair → NoChar b'&' (redact_pair pair)
unfolding redact_pair
redact_pair-NoChar pair h =
    let key = before_char b'=' pair in
    elim (Bool-cases (contains_char pair b'=')) [
      | inl has ↦ elim (Bool-cases (is_sensitive key)) [
        | inl sens ↦
            rw (has, sens)
              (All-append (λ c. c ≢ b'&') key redacted (before_char-NoChar_of b'=' b'&' pair h)
                redacted-NoChar)
        | inr plain ↦ rw (has, plain) h
      ]
      | inr bare ↦ rw bare h
    ]

map-redact-NoChar : (ws : List Text) → All (NoChar b'&') ws → All (NoChar b'&') (map redact_pair ws)
map-redact-NoChar [] h = tt
map-redact-NoChar (w ∷ ws) h = (redact_pair-NoChar w h.0, map-redact-NoChar ws h.1)

split-join_ne :
    (ws : List Text) → ws ≢ [] → All (NoChar b'&') ws → split b'&' (join (codes "&") ws) ≡ ws
split-join_ne [] n h = absurd (n refl)
split-join_ne (w ∷ ws) n h = split-join b'&' w ws h

map-ne-nil : (ws : List Text) → ws ≢ [] → map redact_pair ws ≢ []
map-ne-nil [] n = n
map-ne-nil (w ∷ ws) n = λ e. cc

-- The parts of the recorded query are the parts of the query, each redacted by itself.
pub split-sanitize :
    (raw : Text) → split b'&' (sanitize_query_string raw) ≡ map redact_pair (split b'&' raw)
split-sanitize raw = rw (sanitize-join raw) (
    split-join_ne _ (map-ne-nil _ (split-ne-nil b'&' raw))
      (map-redact-NoChar _ (split-NoChar b'&' raw)))

-- A part whose key is sensitive has the placeholder for its value.
abbrev pub IsRedacted : Text → Type 0
IsRedacted pair =
    contains_char pair b'=' ≡ true
    → is_sensitive (before_char b'=' pair) ≡ true
    → pair ≡ before_char b'=' pair ++ redacted

redact_pair-IsRedacted : (pair : Text) → IsRedacted (redact_pair pair)
unfolding redact_pair
redact_pair-IsRedacted pair =
    let key = before_char b'=' pair in
    let found = before_redacted key (before_char-NoChar b'=' pair) in
    λ has sens. ground (arith, found)

redact_of_IsRedacted : (pair : Text) → IsRedacted pair → redact_pair pair ≡ pair
unfolding redact_pair
redact_of_IsRedacted pair h = ground (arith, h)

map-IsRedacted : (ws : List Text) → All IsRedacted (map redact_pair ws)
map-IsRedacted [] = tt
map-IsRedacted (w ∷ ws) = (redact_pair-IsRedacted w, map-IsRedacted ws)

map_of_IsRedacted : (ws : List Text) → All IsRedacted ws → map redact_pair ws ≡ ws
map_of_IsRedacted [] h = refl
map_of_IsRedacted (w ∷ ws) h = cc (redact_of_IsRedacted w h.0, map_of_IsRedacted ws h.1)

-- In what is recorded, every `key=value` part with a sensitive key has the value `[REDACTED]`.
pub sanitize-IsRedacted : (raw : Text) → All IsRedacted (split b'&' (sanitize_query_string raw))
sanitize-IsRedacted raw = rw (split-sanitize raw) (map-IsRedacted (split b'&' raw))

-- Redacting what is redacted changes nothing.
pub sanitize_idem :
    (raw : Text) → sanitize_query_string (sanitize_query_string raw) ≡ sanitize_query_string raw
sanitize_idem raw =
    sanitize-join (sanitize_query_string raw)
    ∙ rw (map_of_IsRedacted _ (sanitize-IsRedacted raw), split-sanitize raw)
        (sym (sanitize-join raw))

-- Two parts that may differ in the value of one sensitive key, and in nothing else.
abbrev pub AgreesOn : Text → Text → Type 0
AgreesOn p q =
    (p ≡ q)
    ⊎ ((contains_char p b'=' ≡ true)
        × (contains_char q b'=' ≡ true)
        × (before_char b'=' p ≡ before_char b'=' q)
        × (is_sensitive (before_char b'=' p) ≡ true))

abbrev pub Agree : List Text → List Text → Type 0
Agree [] [] = Unit
Agree [] (q ∷ qs) = ⊥
Agree (p ∷ ps) [] = ⊥
Agree (p ∷ ps) (q ∷ qs) = AgreesOn p q × Agree ps qs

redact_pair-AgreesOn : (p q : Text) → AgreesOn p q → redact_pair p ≡ redact_pair q
unfolding redact_pair
redact_pair-AgreesOn p q (inl e) = ap redact_pair e
redact_pair-AgreesOn p q (inr (hp, hq, e, s)) = ground arith

map-Agree : (ps qs : List Text) → Agree ps qs → map redact_pair ps ≡ map redact_pair qs
map-Agree [] [] h = refl
map-Agree [] (q ∷ qs) h = absurd h
map-Agree (p ∷ ps) [] h = absurd h
map-Agree (p ∷ ps) (q ∷ qs) h = cc (redact_pair-AgreesOn p q h.0, map-Agree ps qs h.1)

-- Queries that differ only in the values of sensitive keys are recorded as the same text: the
-- record tells nothing of those values.
pub sanitize-Agree :
    (p q : Text)
    → Agree (split b'&' p) (split b'&' q)
    → sanitize_query_string p ≡ sanitize_query_string q
sanitize-Agree p q h =
    sanitize-join p
    ∙ ap (join (codes "&")) (map-Agree (split b'&' p) (split b'&' q) h)
    ∙ sym (sanitize-join q)
