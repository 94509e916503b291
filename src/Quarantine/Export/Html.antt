-- ===== src/Quarantine/Export/Html.antt =====
-- src/quarantine/export/html.rs: the page of records; its constant texts are those of Template. A
-- slice of a text that ends inside a character is a panic, `none`.
use propylea.Quarantine.Store.{QuarantineRecord, is_enforced}
use propylea.Quarantine.Export.Template.{
  html_styles, page_active, page_end, page_footer, page_head, page_rows, page_total, page_v4,
  page_v6, row_agent, row_badge, row_badge_text, row_cidr, row_class, row_end, row_infraction,
  row_remaining, row_title, row_trigger, row_version, row_violations,
}
use propylea.Prelude.{
  Bool, List, Option, Text, [], codes, concat, filter, if◌then◌else◌, leb, len_utf8, length, ltb,
  map_some, none, replace_char, some, to_decimal, unwrap_or_text, utf8_len, ℕ, ◌++◌, ◌-◌, ◌/◌, ◌==◌,
  ◌∷◌,
}

-- The five replacements, in the order of the source.
unfoldable pub html_escape : Text → Text
html_escape input = replace_char 0x27 (codes "&#39;") (
    replace_char b'"' (codes "&quot;") (
      replace_char b'>' (codes "&gt;")
        (replace_char b'<' (codes "&lt;") (replace_char b'&' (codes "&amp;") input))))

-- `&s[..n]`
unfoldable pub slice_to : ℕ → Text → Option Text
slice_to n [] = if n == 0 then some [] else none
slice_to n (c ∷ s) =
    let rest = map_some (λ t. c ∷ t) (slice_to (n - len_utf8 c) s) in
    if n == 0 then some [] else if leb (len_utf8 c) n then rest else none

abbrev pub append_dots : Option Text → Option Text
append_dots none = none
append_dots (some t) = some (t ++ codes "...")

unfoldable pub truncated_agent : Text → Option Text
unfolding slice_to
truncated_agent ua_safe =
    if ltb 40 (utf8_len ua_safe) then append_dots (slice_to 40 ua_safe) else some ua_safe

abbrev pub remaining_text : ℕ → QuarantineRecord → Text
remaining_text now_ms rec =
    if is_enforced now_ms rec
    then to_decimal ((rec.expires_at - now_ms) / 1000) ++ codes "s"
    else codes "-"

abbrev pub agent_safe : QuarantineRecord → Text
agent_safe rec = html_escape (unwrap_or_text (codes "N/A") rec.user_agent)

-- The text of one row, with the shortened agent.
unfoldable pub html_row : ℕ → QuarantineRecord → Text → Text
unfolding html_escape
html_row now_ms rec ua_truncated =
    let is_active = is_enforced now_ms rec in
    concat (
      row_class
      ∷ (if is_active then codes "filter-active" else codes "filter-expired")
      ∷ row_cidr
      ∷ html_escape rec.cidr
      ∷ row_version
      ∷ to_decimal rec.ip_version
      ∷ row_trigger
      ∷ html_escape rec.trigger_ip
      ∷ row_infraction
      ∷ html_escape rec.infraction_type
      ∷ row_violations
      ∷ to_decimal rec.infraction_count
      ∷ row_badge
      ∷ (if is_active then codes "badge-active" else codes "badge-expired")
      ∷ row_badge_text
      ∷ (if is_active then codes "ACTIVE BAN" else codes "EXPIRED")
      ∷ row_remaining
      ∷ remaining_text now_ms rec
      ∷ row_title
      ∷ agent_safe rec
      ∷ row_agent
      ∷ ua_truncated
      ∷ row_end
      ∷ [])

-- The loop over the records.
abbrev pub push_row : ℕ → QuarantineRecord → Option Text → Option Text → Option Text
push_row now_ms rec none rest = none
push_row now_ms rec (some ua) none = none
push_row now_ms rec (some ua) (some rest) = some (html_row now_ms rec ua ++ rest)

unfoldable pub html_rows : ℕ → List QuarantineRecord → Option Text
unfolding html_row truncated_agent html_escape
html_rows now_ms [] = some []
html_rows now_ms (rec ∷ records) =
    push_row now_ms rec (truncated_agent (agent_safe rec)) (html_rows now_ms records)

abbrev pub count_by : (QuarantineRecord → Bool) → List QuarantineRecord → Text
count_by p records = to_decimal (length (filter p records))

unfoldable pub html_page : ℕ → List QuarantineRecord → Text → Text
html_page now_ms records rows = concat (
    page_head
    ∷ html_styles
    ∷ page_active
    ∷ count_by (is_enforced now_ms) records
    ∷ page_total
    ∷ to_decimal (length records)
    ∷ page_v4
    ∷ count_by (λ r. r.ip_version == 4) records
    ∷ page_v6
    ∷ count_by (λ r. r.ip_version == 6) records
    ∷ page_rows
    ∷ rows
    ∷ page_footer
    ∷ to_decimal now_ms
    ∷ page_end
    ∷ [])

unfoldable pub format_html : List QuarantineRecord → ℕ → Option Text
unfolding html_rows html_page
format_html records now_ms = map_some (html_page now_ms records) (html_rows now_ms records)
