-- ===== src/Quarantine/Commands/Listed.antt =====
-- src/quarantine/cli/mod.rs with src/quarantine/store.rs and src/quarantine/export/mod.rs: what the
-- operator reads from a listing.
use mathlib.Core.Path.{subst}
use propylea.Quarantine.Commands.{
  Env, Outcome, handle_quarantine_command, list, on_opened, on_records, printed, render_records,
  select_records,
}
use propylea.Quarantine.Net.{NetApi, QuarantineApi}
use propylea.Quarantine.Store.{QuarantineRecord, QuarantineStore, get_active_bans, select_active}
use propylea.Quarantine.Store.Succession.{get_active_bans-nil}
use propylea.Quarantine.Store.Listing.{ListsActive, get_active_bans-ListsActive}
use propylea.Quarantine.Export.{csv, export_records, format_csv, format_named, from_str}
use propylea.Quarantine.Csv.{csv_columns, csv_values, read-format_csv}
use propylea.Quarantine.Csv.Reader.{read_csv}
use propylea.Prelude.{List, Text, [], ap, codes, map, ok, true, ℕ, ◌∙◌, ◌∷◌, ◌≡◌}

module _ (net : NetApi) (phylax : QuarantineApi net) where
  -- The command printed a document which is read as one row for each of these records.
  pub record PrintsCsv (outcome : Outcome) (now_ms : ℕ) (st : QuarantineStore) : Type 0 where
    pub rendered : Text
    pub found : List QuarantineRecord
    pub after : QuarantineStore
    pub is_printed : outcome ≡ printed rendered after
    pub rows_read : read_csv rendered ≡ csv_columns ∷ map csv_values found
    pub active : ListsActive now_ms st (ok found, after)

  listed :
      (env : Env) (limit : ℕ) (st after : QuarantineStore) (found : List QuarantineRecord)
      → env.opened ≡ ok st
      → get_active_bans env.now_ms st ≡ (ok found, after)
      → handle_quarantine_command net phylax env (list (codes "csv") true limit)
        ≡ printed (format_csv found) after
  unfolding handle_quarantine_command render_records from_str format_named select_records
      export_records
  listed env limit st after found opens answers =
      let done = λ (count : ℕ) (st' : QuarantineStore) (text : Text). printed text st' in
      ap (λ o. on_opened o (λ st'. on_records env csv done (get_active_bans env.now_ms st'))) opens
      ∙ ap (on_records env csv done) answers

  -- Where the database opens and does not fail, `list --format csv --active-only` prints a document
  -- from which a reader of fields between commas, records that end in a line feed and quoted fields
  -- reads the column names and then one row of values for each row of the table that is active, has
  -- not expired and has a count that is a `u32`, as many times as the table has it and for no other,
  -- newest first; no table changes.
  pub list-PrintsCsv :
      (env : Env) (limit : ℕ) (st : QuarantineStore)
      → env.opened ≡ ok st
      → st.outcomes ≡ []
      → PrintsCsv
          (handle_quarantine_command net phylax env (list (codes "csv") true limit))
          env.now_ms
          st
  list-PrintsCsv env limit st opens quiet =
      let found = select_active env.now_ms st.rows in
      let after = (get_active_bans env.now_ms st).1 in
      let answers : get_active_bans env.now_ms st ≡ (ok found, after) =
        ap (λ r. (r, after)) (get_active_bans-nil env.now_ms st quiet) in
      record {
        rendered = format_csv found;
        found = found;
        after = after;
        is_printed = listed env limit st after found opens answers;
        rows_read = (read-format_csv found).0;
        active =
            subst (ListsActive env.now_ms st) answers (get_active_bans-ListsActive env.now_ms st);
      }
