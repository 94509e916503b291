-- ===== src/Quarantine/Export/Markup.antt =====
-- src/quarantine/export/html.rs: the markup of the page, counted.
use propylea.Quarantine.Store.{QuarantineRecord, is_enforced}
use propylea.Quarantine.Export.Template.{
  html_styles, page_active, page_end, page_footer, page_head, page_rows, page_total, page_v4,
  page_v6, row_agent, row_badge, row_badge_text, row_cidr, row_class, row_end, row_infraction,
  row_remaining, row_title, row_trigger, row_version, row_violations,
}
use propylea.Quarantine.Export.Html.{
  agent_safe, count_by, format_html, html_escape, html_page, html_row, html_rows, push_row,
  remaining_text, truncated_agent,
}
use propylea.Quarantine.Export.Escape.{IsInert, html_escape-IsInert, is_markup}
use propylea.Prelude.{
  All, All-append, Bool, List, Option, Option-cases, Text, [], all, arith, codes, concat, false,
  if◌then◌else◌, inl, inr, length, none, not, refl, some, to_decimal, true, unwrap_or_text, ℕ, ◌*◌,
  ◌++◌, ◌+◌, ◌-◌, ◌/◌, ◌==◌, ◌∷◌, ◌≡◌,
}
use propylea.Quarantine.Export.Counts.{
  count-concat_inert, count-concat_skip, count-interleave, count_char, count_char-IsInert,
  count_char-append, decimal-IsInert, if-IsInert, inert, truncated_agent-IsInert,
}

-- The constant texts of a row and of the page.
unfoldable pub row_template : List Text
row_template =
    row_class ∷ row_cidr ∷ row_version ∷ row_trigger ∷ row_infraction ∷ row_violations ∷ row_badge
    ∷ row_badge_text ∷ row_remaining ∷ row_title ∷ row_agent ∷ row_end ∷ []

-- What is put between them.
abbrev row_fillings : ℕ → QuarantineRecord → Text → List Text
row_fillings now_ms rec ua =
    (if is_enforced now_ms rec then codes "filter-active" else codes "filter-expired")
    ∷ html_escape rec.cidr
    ∷ to_decimal rec.ip_version
    ∷ html_escape rec.trigger_ip
    ∷ html_escape rec.infraction_type
    ∷ to_decimal rec.infraction_count
    ∷ (if is_enforced now_ms rec then codes "badge-active" else codes "badge-expired")
    ∷ (if is_enforced now_ms rec then codes "ACTIVE BAN" else codes "EXPIRED")
    ∷ remaining_text now_ms rec
    ∷ agent_safe rec
    ∷ ua
    ∷ []

either-IsInert :
    (b : Bool) (s t : Text)
    → all (λ c. not (is_markup c)) s ≡ true
    → all (λ c. not (is_markup c)) t ≡ true
    → IsInert (if b then s else t)
either-IsInert true s t h k = inert s h
either-IsInert false s t h k = inert t k

remaining-IsInert : (now_ms : ℕ) (rec : QuarantineRecord) → IsInert (remaining_text now_ms rec)
remaining-IsInert now_ms rec =
    if-IsInert (is_enforced now_ms rec) _ _
      (All-append _ (to_decimal ((rec.expires_at - now_ms) / 1000)) (codes "s") (decimal-IsInert _)
        (inert (codes "s") refl))
      (inert (codes "-") refl)

fillings-IsInert :
    (now_ms : ℕ) (rec : QuarantineRecord) (ua : Text)
    → IsInert ua
    → All IsInert (row_fillings now_ms rec ua)
fillings-IsInert now_ms rec ua h =
    let active = is_enforced now_ms rec in
    (
      either-IsInert active (codes "filter-active") (codes "filter-expired") refl refl,
      (
        html_escape-IsInert rec.cidr,
        (
          decimal-IsInert rec.ip_version,
          (
            html_escape-IsInert rec.trigger_ip,
            (
              html_escape-IsInert rec.infraction_type,
              (
                decimal-IsInert rec.infraction_count,
                (
                  either-IsInert active (codes "badge-active") (codes "badge-expired") refl refl,
                  (
                    either-IsInert active (codes "ACTIVE BAN") (codes "EXPIRED") refl refl,
                    (
                      remaining-IsInert now_ms rec,
                      (html_escape-IsInert (unwrap_or_text (codes "N/A") rec.user_agent), (h, tt)),
                    ),
                  ),
                ),
              ),
            ),
          ),
        ),
      ),
    )

count-html_row :
    (d now_ms : ℕ) (rec : QuarantineRecord) (ua : Text)
    → is_markup d ≡ true
    → IsInert ua
    → count_char d (html_row now_ms rec ua) ≡ count_char d (concat row_template)
unfolding html_row row_template
count-html_row d now_ms rec ua m h = omega (
  arith,
  count-interleave d row_template (row_fillings now_ms rec ua),
  count-concat_inert d (row_fillings now_ms rec ua) m (fillings-IsInert now_ms rec ua h),
)

agent_safe-IsInert : (rec : QuarantineRecord) → IsInert (agent_safe rec)
agent_safe-IsInert rec = html_escape-IsInert (unwrap_or_text (codes "N/A") rec.user_agent)

-- A page's rows: each row has an agent, and the rest follows.
push_row-some :
    (now_ms : ℕ) (rec : QuarantineRecord) (ua rest : Option Text) (rows : Text)
    → push_row now_ms rec ua rest ≡ some rows
    → (u r : Text) × (ua ≡ some u) × (rest ≡ some r) × (html_row now_ms rec u ++ r ≡ rows)
push_row-some now_ms rec none rest rows h = cc
push_row-some now_ms rec (some u) none rows h = cc
push_row-some now_ms rec (some u) (some r) rows h = (u, r, refl, refl, cc)

count-html_rows :
    (d now_ms : ℕ) (records : List QuarantineRecord) (rows : Text)
    → is_markup d ≡ true
    → html_rows now_ms records ≡ some rows
    → count_char d rows ≡ length records * count_char d (concat row_template)
unfolding html_rows
count-html_rows d now_ms [] rows m h = let same : [] ≡ rows = cc in rw (← same) (omega arith)
count-html_rows d now_ms (rec ∷ records) rows m h =
    let (u, r, agent, rest, same) =
      push_row-some now_ms rec (truncated_agent (agent_safe rec)) (html_rows now_ms records) rows
        h in
    rw (← same) (
      grind (
        arith,
        count_char-append d (html_row now_ms rec u) r,
        count-html_row d now_ms rec u m
            (truncated_agent-IsInert (agent_safe rec) u (agent_safe-IsInert rec) agent),
        count-html_rows d now_ms records r m rest,
      ))

unfoldable pub page_template : List Text
page_template =
    page_head ∷ html_styles ∷ page_active ∷ page_total ∷ page_v4 ∷ page_v6 ∷ page_rows ∷ page_footer
    ∷ page_end ∷ []

count-html_page :
    (d now_ms : ℕ) (records : List QuarantineRecord) (rows : Text)
    → is_markup d ≡ true
    → count_char d (html_page now_ms records rows)
      ≡ count_char d (concat page_template) + count_char d rows
unfolding html_page page_template
count-html_page d now_ms records rows m =
    let counts : List Text =
      []
      ∷ []
      ∷ count_by (is_enforced now_ms) records
      ∷ to_decimal (length records)
      ∷ count_by (λ r. r.ip_version == 4) records
      ∷ count_by (λ r. r.ip_version == 6) records
      ∷ [] in
    let tail : List Text = rows ∷ to_decimal now_ms ∷ [] in
    omega (
      arith,
      count-interleave d page_template (counts ++ tail),
      count-concat_skip d counts tail m (
        tt,
        (
          tt,
          (decimal-IsInert _, (decimal-IsInert _, (decimal-IsInert _, (decimal-IsInert _, tt)))),
        ),
      ),
      count_char-append d rows (to_decimal now_ms ++ []),
      count_char-append d (to_decimal now_ms) [],
      count_char-IsInert d (to_decimal now_ms) m (decimal-IsInert now_ms),
    )

-- No record adds markup to the page: whatever the texts of the records, an exported page has as
-- many `<`, `>`, `"` and `'` as its constant texts, those of one row counted once for each record.
pub format_html_markup :
    (d now_ms : ℕ) (records : List QuarantineRecord) (page : Text)
    → is_markup d ≡ true
    → format_html records now_ms ≡ some page
    → count_char d page
      ≡ count_char d (concat page_template) + length records * count_char d (concat row_template)
unfolding format_html
format_html_markup d now_ms records page m h = elim (Option-cases (html_rows now_ms records)) [
  | inl panic ↦ let clash : none ≡ some page = rw panic at h in cc
  | inr (rows, done) ↦
      let same : some (html_page now_ms records rows) ≡ some page = rw done at h in
      let page_eq : html_page now_ms records rows ≡ page = cc in
      rw (← page_eq) (
        omega (
          arith,
          count-html_page d now_ms records rows m,
          count-html_rows d now_ms records rows m done,
        ))
]
