-- ===== src/Quarantine/Export/Panics.antt =====
-- src/quarantine/export/html.rs: the slice of the user agent ends between characters where the
-- agent is ASCII, so that the export of such records ends with a page.
use propylea.Quarantine.Store.{QuarantineRecord}
use propylea.Quarantine.Export.Html.{
  agent_safe, format_html, html_escape, html_page, html_row, html_rows, slice_to, truncated_agent,
}
use propylea.Quarantine.Export.Escape.{escape_char, html_escape-cons}
use propylea.Prelude.{
  All, All-append, Bool-cases, List, Text, [], arith, codes, inl, inr, len_utf8, ltb, refl, some,
  suc, unwrap_or_text, utf8_len, zero, ℕ, ◌++◌, ◌-◌, ◌<◌, ◌∷◌, ◌≡◌, ◌≤◌,
}

abbrev pub IsAscii : Text → Type 0
IsAscii s = All (λ c. c < 0x80) s

escape_char-IsAscii : (c : ℕ) → c < 0x80 → IsAscii (escape_char c)
escape_char-IsAscii c h = ground arith

html_escape-IsAscii : (s : Text) → IsAscii s → IsAscii (html_escape s)
html_escape-IsAscii [] h = unfold html_escape in tt
html_escape-IsAscii (c ∷ s) h = rw (html_escape-cons c s) (
    All-append _ (escape_char c) (html_escape s) (escape_char-IsAscii c h.0)
      (html_escape-IsAscii s h.1))

slice_to-IsAscii :
    (n : ℕ) (s : Text) → IsAscii s → n ≤ utf8_len s → (t : Text) × (slice_to n s ≡ some t)
unfolding slice_to
slice_to-IsAscii zero [] h k = ([], refl)
slice_to-IsAscii (suc n) [] h k = absurd (omega arith)
slice_to-IsAscii zero (c ∷ s) h k = ([], refl)
slice_to-IsAscii (suc n) (c ∷ s) h k =
    let one : len_utf8 c ≡ 1 = ground (arith, h.0) in
    let (t, e) = slice_to-IsAscii n s h.1 (ground (arith, one)) in
    (c ∷ t, rw one (let less : suc n - 1 ≡ n = omega arith in rw (less, e) (ground arith)))

truncated_agent-IsAscii : (s : Text) → IsAscii s → (t : Text) × (truncated_agent s ≡ some t)
unfolding truncated_agent
truncated_agent-IsAscii s h = elim (Bool-cases (ltb 40 (utf8_len s))) [
  | inl long ↦
      let (t, e) = slice_to-IsAscii 40 s h (ground arith) in (t ++ codes "...", rw (long, e) refl)
  | inr short ↦ (s, rw short refl)
]

abbrev pub HasAsciiAgent : QuarantineRecord → Type 0
HasAsciiAgent rec = IsAscii (unwrap_or_text (codes "N/A") rec.user_agent)

html_rows-some :
    (now_ms : ℕ) (records : List QuarantineRecord)
    → All HasAsciiAgent records
    → (rows : Text) × (html_rows now_ms records ≡ some rows)
unfolding html_rows
html_rows-some now_ms [] h = ([], refl)
html_rows-some now_ms (rec ∷ records) h =
    let (u, agent) = truncated_agent-IsAscii (agent_safe rec) (html_escape-IsAscii _ h.0) in
    let (r, rest) = html_rows-some now_ms records h.1 in
    (html_row now_ms rec u ++ r, rw (agent, rest) refl)

-- Where every user agent is ASCII (`N/A` stands for none), the export to HTML does not panic: it
-- ends with a page.
pub format_html-some :
    (records : List QuarantineRecord) (now_ms : ℕ)
    → All HasAsciiAgent records
    → (page : Text) × (format_html records now_ms ≡ some page)
unfolding format_html
format_html-some records now_ms h =
    let (rows, e) = html_rows-some now_ms records h in (html_page now_ms records rows, rw e refl)
