-- ===== src/Quarantine/Export.antt =====
-- src/quarantine/export/mod.rs: the formats of an export. `serde_json` is a parameter; an export
-- that panics is `none`.
pub mod Template
pub mod Html
pub mod Escape
pub mod Counts
pub mod Markup
pub mod Panics
mod Tests
use propylea.Quarantine.Store.{QuarantineRecord, is_enforced}
use Html.{format_html, remaining_text}
use propylea.Prelude.{
  Bool, List, Option, Result, Text, [], codes, concat, contains_char, err, filter, if◌then◌else◌,
  length, map_some, ok, replace_char, some, starts_with_char, take, text_eq, to_ascii_lowercase,
  to_decimal, trim_start, unwrap_or_text, ℕ, ◌++◌, ◌-◌, ◌>>=◌, ◌>>◌, ◌||◌, ◌∷◌,
}

pub data ExportFormat : Type 0 where
  txt json jsonl md csv html : ExportFormat

-- A `match` on the text in lower case, arm by arm.
unfoldable pub format_named : Text → Result ExportFormat Text
format_named s =
    if text_eq s (codes "txt") || text_eq s (codes "text")
    then ok txt
    else if text_eq s (codes "json")
    then ok json
    else if text_eq s (codes "jsonl") || text_eq s (codes "ndjson")
    then ok jsonl
    else if text_eq s (codes "md") || text_eq s (codes "markdown")
    then ok md
    else if text_eq s (codes "csv")
    then ok csv
    else if text_eq s (codes "html") || text_eq s (codes "htm")
    then ok html
    else err (
        codes "Unsupported export format '"
        ++ (s ++ codes "'. Supported: txt, json, jsonl, md, csv, html"))

unfoldable pub from_str : Text → Result ExportFormat Text
unfolding format_named
from_str s = format_named (to_ascii_lowercase s)

unfoldable pub is_dangerous : Text → Bool
is_dangerous val =
    let trimmed = trim_start val in
    starts_with_char trimmed b'='
    || starts_with_char trimmed b'+'
    || starts_with_char trimmed b'-'
    || starts_with_char trimmed b'@'
    || starts_with_char trimmed b'\t'
    || starts_with_char trimmed b'\r'

unfoldable pub guarded : Text → Text
unfolding is_dangerous
guarded val = if is_dangerous val then 0x27 ∷ val else val

abbrev pub needs_quotes : Text → Bool
needs_quotes s = contains_char s b',' || contains_char s b'"' || contains_char s b'\n'

unfoldable pub sanitize_csv_field : Text → Text
unfolding guarded
sanitize_csv_field val =
    if needs_quotes (guarded val)
    then b'"' ∷ (replace_char b'"' (codes "\"\"") (guarded val) ++ (b'"' ∷ []))
    else guarded val

unfoldable pub format_txt : List QuarantineRecord → Text
format_txt [] = []
format_txt (rec ∷ records) = rec.cidr ++ (b'\n' ∷ format_txt records)

-- `serde_json`, its error as a text.
pub record SerdeJson : Type 0 where
  pub to_string : QuarantineRecord → Result Text Text
  pub to_string_pretty : List QuarantineRecord → Result Text Text

unfoldable pub format_json : SerdeJson → List QuarantineRecord → Result Text Text
format_json serde records = serde.to_string_pretty records

unfoldable pub format_jsonl : SerdeJson → List QuarantineRecord → Result Text Text
format_jsonl serde [] = ok []
format_jsonl serde (rec ∷ records) = do
  line ← serde.to_string rec
  rest ← format_jsonl serde records
  ok (line ++ (b'\n' ∷ rest))

abbrev pub md_row : ℕ → QuarantineRecord → Text
md_row now_ms rec = concat (
    codes "| `"
    ∷ rec.cidr
    ∷ codes "` | v"
    ∷ to_decimal rec.ip_version
    ∷ codes " | `"
    ∷ rec.trigger_ip
    ∷ codes "` | `"
    ∷ rec.infraction_type
    ∷ codes "` | "
    ∷ to_decimal rec.infraction_count
    ∷ codes " | "
    ∷ (if is_enforced now_ms rec then codes "🔴 ACTIVE" else codes "⚪ EXPIRED")
    ∷ codes " | "
    ∷ remaining_text now_ms rec
    ∷ codes " | `"
    ∷ take 30 (unwrap_or_text (codes "N/A") rec.user_agent)
    ∷ codes "` |\n"
    ∷ [])

unfoldable pub md_rows : ℕ → List QuarantineRecord → Text
md_rows now_ms [] = []
md_rows now_ms (rec ∷ records) = md_row now_ms rec ++ md_rows now_ms records

unfoldable pub format_md : List QuarantineRecord → ℕ → Text
unfolding md_rows
format_md records now_ms =
    let total = length records in
    let active_count = length (filter (is_enforced now_ms) records) in
    concat (
      codes "# 🛡"
      ∷ (0xfe0f ∷ [])
      ∷ codes " Propylea Autonomous Quarantine Intelligence Briefing\n\n"
      ∷ codes "> **Generated at Unix ms**: `"
      ∷ to_decimal now_ms
      ∷ codes "` | **Zero-Cloud Local Custody**\n\n"
      ∷ codes "### 📊 Fleet Threat Metrics\n"
      ∷ codes "- **Total Monitored Subnets**: `"
      ∷ to_decimal total
      ∷ codes "`\n- **Actively Enforced Bans**: `"
      ∷ to_decimal active_count
      ∷ codes "`\n- **Historical / Expired**: `"
      ∷ to_decimal (total - active_count)
      ∷ codes "`\n\n### 📋 Quarantined Subnets\n"
      ∷ codes "| Subnet CIDR | IP Ver | Trigger IP | Infraction Vector | Violations "
      ∷ codes "| Status | Expires In | Captured UA |\n"
      ∷ codes "| :--- | :---: | :--- | :--- | :---: | :---: | :---: | :--- |\n"
      ∷ md_rows now_ms records
      ∷ [])

abbrev pub csv_header : Text
csv_header =
    codes "cidr,ip_version,trigger_ip,infraction_type,infraction_count,"
    ++ codes "quarantined_at,expires_at,active,user_agent\n"

abbrev pub bool_text : Bool → Text
bool_text b = if b then codes "true" else codes "false"

unfoldable pub csv_row : QuarantineRecord → Text
unfolding sanitize_csv_field
csv_row rec = concat (
    sanitize_csv_field rec.cidr
    ∷ codes ","
    ∷ to_decimal rec.ip_version
    ∷ codes ","
    ∷ sanitize_csv_field rec.trigger_ip
    ∷ codes ","
    ∷ sanitize_csv_field rec.infraction_type
    ∷ codes ","
    ∷ to_decimal rec.infraction_count
    ∷ codes ","
    ∷ to_decimal rec.quarantined_at
    ∷ codes ","
    ∷ to_decimal rec.expires_at
    ∷ codes ","
    ∷ bool_text rec.active
    ∷ codes ","
    ∷ sanitize_csv_field (unwrap_or_text [] rec.user_agent)
    ∷ codes "\n"
    ∷ [])

unfoldable pub csv_rows : List QuarantineRecord → Text
unfolding csv_row
csv_rows [] = []
csv_rows (rec ∷ records) = csv_row rec ++ csv_rows records

unfoldable pub format_csv : List QuarantineRecord → Text
unfolding csv_rows
format_csv records = csv_header ++ csv_rows records

unfoldable pub export_records :
    SerdeJson → List QuarantineRecord → ExportFormat → ℕ → Option (Result Text Text)
unfolding format_txt format_json format_jsonl format_md format_csv format_html
export_records serde records txt now_ms = some (ok (format_txt records))
export_records serde records json now_ms = some (format_json serde records)
export_records serde records jsonl now_ms = some (format_jsonl serde records)
export_records serde records md now_ms = some (ok (format_md records now_ms))
export_records serde records csv now_ms = some (ok (format_csv records))
export_records serde records html now_ms = map_some (λ page. ok page) (format_html records now_ms)
