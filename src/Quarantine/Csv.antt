-- ===== src/Quarantine/Csv.antt =====
-- src/quarantine/export/mod.rs: the CSV document, read by a reader of quoted fields.
pub mod Reader
use propylea.Quarantine.Store.{QuarantineRecord}
use propylea.Quarantine.Export.{
  bool_text, csv_header, csv_row, csv_rows, format_csv, guarded, is_dangerous, needs_quotes,
  sanitize_csv_field,
}
use propylea.Quarantine.Csv.Reader.{
  CsvState, IsField, IsPlain, IsPlain-IsField, at_start, finish, line, quoted-IsField, read_csv,
  run, run-line, step_in,
}
use propylea.Prelude.{
  All, Bool, Bool-cases, IsDigit, List, Text, [], ap, append-nil, append_assoc, arith, codes, false,
  if◌then◌else◌, inl, inr, is_whitespace, map, refl, sym, to_decimal, to_decimal-IsDigit,
  trim_start, true, unwrap_or_text, ℕ, ◌++◌, ◌==◌, ◌||◌, ◌∙◌, ◌∷◌, ◌≡◌, ◌⊎◌,
}

-- The first character that is not white space is one of `=`, `+`, `-` and `@`.
pub starts_with_operator : Text → Bool
starts_with_operator [] = false
starts_with_operator (c ∷ s) =
    if is_whitespace c
    then starts_with_operator s
    else c == b'=' || (c == b'+' || (c == b'-' || c == b'@'))

-- What a cell of this text is to be read as: the text, behind a quote mark if it starts with an
-- operator.
pub cell_value : Text → Text
cell_value v = if starts_with_operator v then codes "'" ++ v else v

is_dangerous_lem : (v : Text) → is_dangerous v ≡ starts_with_operator v
unfolding is_dangerous starts_with_operator
is_dangerous_lem [] = refl
is_dangerous_lem (c ∷ s) = elim (Bool-cases (is_whitespace c)) [
  | inl e ↦ rw (e, starts_with_operator, is_dangerous) (is_dangerous_lem s)
  | inr e ↦ rw (e, starts_with_operator, is_dangerous) (ground (arith, e))
]

guarded_lem : (v : Text) → guarded v ≡ cell_value v
unfolding guarded cell_value
guarded_lem v = ap (λ (b : Bool). if b then 0x27 ∷ v else v) (is_dangerous_lem v)

-- What the columns of a record hold.
abbrev pub csv_values : QuarantineRecord → List Text
csv_values rec =
    cell_value rec.cidr
    ∷ to_decimal rec.ip_version
    ∷ cell_value rec.trigger_ip
    ∷ cell_value rec.infraction_type
    ∷ to_decimal rec.infraction_count
    ∷ to_decimal rec.quarantined_at
    ∷ to_decimal rec.expires_at
    ∷ bool_text rec.active
    ∷ cell_value (unwrap_or_text [] rec.user_agent)
    ∷ []

abbrev written_values : QuarantineRecord → List Text
written_values rec =
    guarded rec.cidr
    ∷ to_decimal rec.ip_version
    ∷ guarded rec.trigger_ip
    ∷ guarded rec.infraction_type
    ∷ to_decimal rec.infraction_count
    ∷ to_decimal rec.quarantined_at
    ∷ to_decimal rec.expires_at
    ∷ bool_text rec.active
    ∷ guarded (unwrap_or_text [] rec.user_agent)
    ∷ []

written_values-csv_values : (rec : QuarantineRecord) → written_values rec ≡ csv_values rec
written_values-csv_values rec =
    rw
      (
        guarded_lem rec.cidr,
        guarded_lem rec.trigger_ip,
        guarded_lem rec.infraction_type,
        guarded_lem (unwrap_or_text [] rec.user_agent),
      )
      refl

-- What is written in the columns, and what it is read as.
abbrev text_cell : Text → Text × Text
text_cell s = (sanitize_csv_field s, guarded s)

abbrev bare_cell : Text → Text × Text
bare_cell s = (s, s)

abbrev later_cells : QuarantineRecord → List (Text × Text)
later_cells rec =
    bare_cell (to_decimal rec.ip_version)
    ∷ text_cell rec.trigger_ip
    ∷ text_cell rec.infraction_type
    ∷ bare_cell (to_decimal rec.infraction_count)
    ∷ bare_cell (to_decimal rec.quarantined_at)
    ∷ bare_cell (to_decimal rec.expires_at)
    ∷ bare_cell (bool_text rec.active)
    ∷ text_cell (unwrap_or_text [] rec.user_agent)
    ∷ []

csv_row-line :
    (rec : QuarantineRecord) → csv_row rec ≡ line (sanitize_csv_field rec.cidr) (later_cells rec)
unfolding csv_row line
csv_row-line rec = refl

contains-IsPlain : (s : Text) → needs_quotes s ≡ false → IsPlain s
contains-IsPlain [] h = tt
contains-IsPlain (c ∷ s) h = (ground arith, contains-IsPlain s (ground arith))

text_cell-IsField : (s : Text) → IsField (text_cell s)
unfolding sanitize_csv_field
text_cell-IsField s = elim (Bool-cases (needs_quotes (guarded s))) [
  | inl special ↦ rw special (quoted-IsField (guarded s))
  | inr bare ↦ rw bare (IsPlain-IsField (guarded s) (contains-IsPlain (guarded s) bare))
]

digits-IsPlain : (s : Text) → All IsDigit s → IsPlain s
digits-IsPlain [] h = tt
digits-IsPlain (c ∷ s) h = (ground (arith, h.0), digits-IsPlain s h.1)

decimal-IsField : (n : ℕ) → IsField (bare_cell (to_decimal n))
decimal-IsField n = IsPlain-IsField (to_decimal n) (digits-IsPlain _ (to_decimal-IsDigit n))

bool-IsField : (b : Bool) → IsField (bare_cell (bool_text b))
bool-IsField true = IsPlain-IsField (codes "true") (contains-IsPlain (codes "true") refl)
bool-IsField false = IsPlain-IsField (codes "false") (contains-IsPlain (codes "false") refl)

cells-IsField : (rec : QuarantineRecord) → All IsField (text_cell rec.cidr ∷ later_cells rec)
cells-IsField rec = (
  text_cell-IsField rec.cidr,
  (
    decimal-IsField rec.ip_version,
    (
      text_cell-IsField rec.trigger_ip,
      (
        text_cell-IsField rec.infraction_type,
        (
          decimal-IsField rec.infraction_count,
          (
            decimal-IsField rec.quarantined_at,
            (
              decimal-IsField rec.expires_at,
              (bool-IsField rec.active, (text_cell-IsField (unwrap_or_text [] rec.user_agent), tt)),
            ),
          ),
        ),
      ),
    ),
  ),
)

run-csv_rows :
    (records : List QuarantineRecord) (rows : List (List Text))
    → run (at_start [] rows) (csv_rows records) ≡ at_start [] (rows ++ map csv_values records)
unfolding csv_rows
run-csv_rows [] rows = unfold run in ap (at_start []) (sym (append-nil rows))
run-csv_rows (rec ∷ records) rows =
    ap (λ s. run (at_start [] rows) (s ++ csv_rows records)) (csv_row-line rec)
    ∙ run-line (text_cell rec.cidr) (later_cells rec) [] rows (csv_rows records) (cells-IsField rec)
    ∙ ap (λ vs. run (at_start [] (rows ++ (vs ∷ []))) (csv_rows records))
        (written_values-csv_values rec)
    ∙ run-csv_rows records (rows ++ (csv_values rec ∷ []))
    ∙ ap (at_start []) (append_assoc rows (csv_values rec ∷ []) (map csv_values records))

abbrev pub csv_columns : List Text
csv_columns =
    codes "cidr"
    ∷ codes "ip_version"
    ∷ codes "trigger_ip"
    ∷ codes "infraction_type"
    ∷ codes "infraction_count"
    ∷ codes "quarantined_at"
    ∷ codes "expires_at"
    ∷ codes "active"
    ∷ codes "user_agent"
    ∷ []

run_header : run (at_start [] []) csv_header ≡ at_start [] (csv_columns ∷ [])
unfolding run
run_header = refl

run-append : (st : CsvState) (s t : Text) → run st (s ++ t) ≡ run (run st s) t
unfolding run
run-append st [] t = refl
run-append st (c ∷ s) t = run-append (step_in st.mode st c) s t

-- The text, spaces in front of it passed over, has one of these four characters first.
abbrev pub StartsWithOperator : Text → Type 0
StartsWithOperator v =
    (c : ℕ) × (rest : Text) × (trim_start v ≡ c ∷ rest)
    × ((c ≡ b'=') ⊎ ((c ≡ b'+') ⊎ ((c ≡ b'-') ⊎ (c ≡ b'@'))))

quoted_start : (v : Text) → ¬ StartsWithOperator (0x27 ∷ v)
quoted_start v (c, rest, starts, formula) = ground arith

harmless_start : (v : Text) → is_dangerous v ≡ false → ¬ StartsWithOperator v
unfolding is_dangerous
harmless_start v h (c, rest, starts, formula) = ground arith

cell_value-safe : (v : Text) → ¬ StartsWithOperator (cell_value v)
unfolding cell_value
cell_value-safe v = elim (Bool-cases (starts_with_operator v)) [
  | inl danger ↦ rw danger (λ h. quoted_start v h)
  | inr harmless ↦ rw harmless (λ h. harmless_start v (is_dangerous_lem v ∙ harmless) h)
]

-- A reader for which fields stand between commas, records end in a line feed and a quoted field
-- doubles its quotes reads from the CSV export the column names and then one row for each record,
-- in order, with its nine values: the numbers, the flag, and the four texts, each as it is or, where
-- its first character that is not white space is `=`, `+`, `-` or `@`, behind a quote mark. None of
-- the texts that are read starts with such a character. A tab or a carriage return in front of
-- another character is not covered: it is read as it stands.
pub read-format_csv :
    (records : List QuarantineRecord)
    → (read_csv (format_csv records) ≡ csv_columns ∷ map csv_values records)
      × ((v : Text) → ¬ StartsWithOperator (cell_value v))
unfolding read_csv format_csv
read-format_csv records = (
  ap finish (
      run-append (at_start [] []) csv_header (csv_rows records)
      ∙ ap (λ st. run st (csv_rows records)) run_header
      ∙ run-csv_rows records (csv_columns ∷ [])),
  cell_value-safe,
)
