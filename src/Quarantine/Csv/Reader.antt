-- ===== src/Quarantine/Csv/Reader.antt =====
-- A reader of CSV documents: fields between commas, records that end in a line feed, and quoted
-- fields with doubled quotes. A carriage return is a character like any other, also in front of a
-- line feed, so this is not the format of RFC 4180.
use propylea.Prelude.{
  All, Bool, Bool-cases, List, Text, [], ap, append-nil, append_assoc, arith, codes, false,
  if◌then◌else◌, inl, inr, is_empty, refl, replace_char, true, ℕ, ◌&&◌, ◌++◌, ◌==◌, ◌||◌, ◌∙◌, ◌∷◌,
  ◌≡◌,
}

pub data Mode : Type 0 where
  start plain quoted closing : Mode

pub record CsvState : Type 0 where
  pub mode : Mode
  pub field : Text
  pub row : List Text
  pub rows : List (List Text)

-- A character outside of quotes.
abbrev pub plain_step : CsvState → ℕ → CsvState
plain_step st c =
    if c == b','
    then record st { mode = start; field = []; row = st.row ++ (st.field ∷ []) }
    else if c == b'\n'
    then record {
      mode = start;
      field = [];
      row = [];
      rows = st.rows ++ ((st.row ++ (st.field ∷ [])) ∷ []);
    }
    else record st { mode = plain; field = st.field ++ (c ∷ []) }

abbrev pub step_in : Mode → CsvState → ℕ → CsvState
step_in start st c = if c == b'"' then record st { mode = quoted } else plain_step st c
step_in plain st c = plain_step st c
step_in quoted st c =
    if c == b'"' then record st { mode = closing } else record st { field = st.field ++ (c ∷ []) }
step_in closing st c =
    if c == b'"' then record st { mode = quoted; field = st.field ++ (c ∷ []) } else plain_step st c

unfoldable pub run : CsvState → Text → CsvState
run st [] = st
run st (c ∷ s) = run (step_in st.mode st c) s

-- A last record without a line feed counts.
abbrev pub finish : CsvState → List (List Text)
finish st =
    if is_empty st.row && is_empty st.field
    then st.rows
    else st.rows ++ ((st.row ++ (st.field ∷ [])) ∷ [])

abbrev pub at_start : List Text → List (List Text) → CsvState
at_start row rows = record { mode = start; field = []; row = row; rows = rows }

unfoldable pub read_csv : Text → List (List Text)
unfolding run
read_csv s = finish (run (at_start [] []) s)

abbrev pub in_mode : Mode → Text → List Text → List (List Text) → CsvState
in_mode mode field row rows = record { mode = mode; field = field; row = row; rows = rows }

-- A text that ends a field.
abbrev pub is_separator : ℕ → Bool
is_separator c = c == b',' || c == b'\n'

-- The cell is read as the value, whatever follows its separator.
abbrev pub IsField : Text × Text → Type 0
IsField (cell, value) =
    (row : List Text) (rows : List (List Text)) (sep : ℕ) (t : Text)
    → is_separator sep ≡ true
    → run (at_start row rows) (cell ++ (sep ∷ t))
      ≡ run (plain_step (in_mode plain value row rows) sep) t

abbrev pub is_special : ℕ → Bool
is_special c = c == b',' || c == b'"' || c == b'\n'

abbrev pub IsPlain : Text → Type 0
IsPlain s = All (λ c. is_special c ≡ false) s

run_plain :
    (s field : Text) (row : List Text) (rows : List (List Text)) (rest : Text)
    → IsPlain s
    → run (in_mode plain field row rows) (s ++ rest)
      ≡ run (in_mode plain (field ++ s) row rows) rest
unfolding run
run_plain [] field row rows rest h = rw append-nil refl
run_plain (c ∷ s) field row rows rest h =
    let one : plain_step (in_mode plain field row rows) c
        ≡ in_mode plain (field ++ (c ∷ [])) row rows =
      ground (arith, h.0) in
    ap (λ st. run st (s ++ rest)) one
    ∙ run_plain s (field ++ (c ∷ [])) row rows rest h.1
    ∙ ap (λ f. run (in_mode plain f row rows) rest) (append_assoc field (c ∷ []) s)

pub IsPlain-IsField : (s : Text) → IsPlain s → IsField (s, s)
unfolding run
IsPlain-IsField [] h row rows sep t k = ground arith
IsPlain-IsField (c ∷ s) h row rows sep t k =
    let one : step_in start (at_start row rows) c ≡ in_mode plain (c ∷ []) row rows =
      ground (arith, h.0) in
    ap (λ st. run st (s ++ (sep ∷ t))) one ∙ run_plain s (c ∷ []) row rows (sep ∷ t) h.1

run_quoted_char :
    (c : ℕ) (field : Text) (row : List Text) (rows : List (List Text)) (rest : Text)
    → run (in_mode quoted field row rows) ((if c == b'"' then codes "\"\"" else c ∷ []) ++ rest)
      ≡ run (in_mode quoted (field ++ (c ∷ [])) row rows) rest
unfolding run
run_quoted_char c field row rows rest = elim (Bool-cases (c == b'"')) [
  | inl quote ↦ let same : c ≡ b'"' = ground arith in rw same refl
  | inr other ↦ rw other (rw (other, run) refl)
]

run_quoted :
    (s field : Text) (row : List Text) (rows : List (List Text)) (rest : Text)
    → run (in_mode quoted field row rows) (replace_char b'"' (codes "\"\"") s ++ (b'"' ∷ rest))
      ≡ run (in_mode closing (field ++ s) row rows) rest
unfolding run
run_quoted [] field row rows rest = rw append-nil refl
run_quoted (c ∷ s) field row rows rest =
    ap (run (in_mode quoted field row rows)) (
      append_assoc (if c == b'"' then codes "\"\"" else c ∷ []) (replace_char b'"' (codes "\"\"") s)
        (b'"' ∷ rest))
    ∙ run_quoted_char c field row rows (replace_char b'"' (codes "\"\"") s ++ (b'"' ∷ rest))
    ∙ run_quoted s (field ++ (c ∷ [])) row rows rest
    ∙ ap (λ f. run (in_mode closing f row rows) rest) (append_assoc field (c ∷ []) s)

closing_separator :
    (s : Text) (row : List Text) (rows : List (List Text)) (sep : ℕ)
    → is_separator sep ≡ true
    → step_in closing (in_mode closing s row rows) sep ≡ plain_step (in_mode plain s row rows) sep
closing_separator s row rows sep k = ground arith

pub quoted-IsField :
    (s : Text) → IsField (b'"' ∷ (replace_char b'"' (codes "\"\"") s ++ (b'"' ∷ [])), s)
unfolding run
quoted-IsField s row rows sep t k =
    ap (run (in_mode quoted [] row rows))
      (append_assoc (replace_char b'"' (codes "\"\"") s) (b'"' ∷ []) (sep ∷ t))
    ∙ run_quoted s [] row rows (sep ∷ t)
    ∙ ap (λ st. run st t) (closing_separator s row rows sep k)

-- The cells of a line, and what is read from it.
unfoldable pub line : Text → List (Text × Text) → Text
line cell [] = cell ++ (b'\n' ∷ [])
line cell (next ∷ rest) = cell ++ (b',' ∷ line next.0 rest)

abbrev pub values : List (Text × Text) → List Text
values [] = []
values (cell ∷ cells) = cell.1 ∷ values cells

pub run-line :
    (cell : Text × Text) (cells : List (Text × Text)) (row : List Text) (rows : List (List Text))
    (t : Text)
    → All IsField (cell ∷ cells)
    → run (at_start row rows) (line cell.0 cells ++ t)
      ≡ run (at_start [] (rows ++ ((row ++ values (cell ∷ cells)) ∷ []))) t
unfolding line
run-line cell [] row rows t h =
    ap (run (at_start row rows)) (append_assoc cell.0 (b'\n' ∷ []) t) ∙ h.0 row rows b'\n' t refl
run-line cell (next ∷ cells) row rows t h =
    ap (run (at_start row rows)) (append_assoc cell.0 (b',' ∷ line next.0 cells) t)
    ∙ h.0 row rows b',' (line next.0 cells ++ t) refl
    ∙ run-line next cells (row ++ (cell.1 ∷ [])) rows t h.1
    ∙ ap (λ r. run (at_start [] (rows ++ (r ∷ []))) t)
        (append_assoc row (cell.1 ∷ []) (values (next ∷ cells)))
