-- ===== src/Quarantine/Export/Tests.antt =====
-- Exports of a test row, and instances of what is proved of them.
use propylea.Quarantine.Store.{QuarantineRecord}
use propylea.Quarantine.Tests.{row}
use propylea.Quarantine.Export.Html.{
  format_html, html_escape, html_page, html_row, html_rows, slice_to, truncated_agent,
}
use propylea.Quarantine.Export.Escape.{IsInert, html_escape_faithful, html_unescape}
use propylea.Quarantine.Export.Counts.{count_char}
use propylea.Quarantine.Export.Markup.{format_html_markup, page_template, row_template}
use propylea.Quarantine.Export.Panics.{format_html-some}
use propylea.Quarantine.Export.{format_csv, guarded, sanitize_csv_field}
use propylea.Quarantine.Csv.{
  StartsWithOperator, cell_value, csv_columns, csv_values, read-format_csv,
}
use propylea.Quarantine.Csv.Reader.{read_csv}
use propylea.Prelude.{
  List, Text, [], arith, codes, concat, length, map, none, refl, some, ◌*◌, ◌++◌, ◌+◌, ◌∷◌, ◌≡◌,
}

abbrev one_row : List QuarantineRecord
one_row = row ∷ []

markup_escaped : html_escape (codes "<a b='&'>") ≡ codes "&lt;a b=&#39;&amp;&#39;&gt;"
unfolding html_escape
markup_escaped = refl

html_escape_faithful_example :
    IsInert (html_escape (codes "<a b='&'>"))
    × (html_unescape (html_escape (codes "<a b='&'>")) ≡ codes "<a b='&'>")
html_escape_faithful_example = html_escape_faithful (codes "<a b='&'>")

abbrev one_page : Text
unfolding html_page html_row
one_page = html_page 2000 one_row (html_row 2000 row (codes "N/A") ++ [])

one_page_made : format_html one_row 2000 ≡ some one_page
unfolding format_html html_rows truncated_agent html_escape
one_page_made = refl

format_html_markup_example :
    count_char b'<' one_page
    ≡ count_char b'<' (concat page_template)
      + length one_row * count_char b'<' (concat row_template)
format_html_markup_example = format_html_markup b'<' 2000 one_row one_page refl one_page_made

format_html-some_example : (page : Text) × (format_html one_row 2000 ≡ some page)
format_html-some_example =
    format_html-some one_row 2000 ((omega arith, (omega arith, (omega arith, tt))), tt)

-- Forty bytes end inside the two bytes of the character.
abbrev long_agent : Text
long_agent = codes "Mozilla/5.0 (compatible; a first agent)é"

agent_panics : truncated_agent long_agent ≡ none
unfolding truncated_agent slice_to
agent_panics = refl

formula_quoted : sanitize_csv_field (codes "=1,2") ≡ codes "\"'=1,2\""
unfolding sanitize_csv_field guarded
formula_quoted = refl

read-format_csv_example :
    (read_csv (format_csv one_row) ≡ csv_columns ∷ map csv_values one_row)
    × ((v : Text) → ¬ StartsWithOperator (cell_value v))
read-format_csv_example = read-format_csv one_row
