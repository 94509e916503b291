-- ===== src/Quarantine/Commands.antt =====
-- src/quarantine/cli/mod.rs: the dispatch of the quarantine's commands. Whether a daemon answers on
-- the control socket is an argument, as is the database that opens or does not. What is only said
-- about a result is left out: an outcome holds the request that is sent, or the result itself.
pub mod Unban
pub mod Listed
mod Tests
use propylea.Quarantine.Net.{NetApi, QuarantineApi}
use propylea.Quarantine.Store
use propylea.Quarantine.Store.{
  Answer, QuarantineRecord, QuarantineStore, QuarantineStoreError, get_active_bans, get_all_records,
  in_memory, unban_all,
}
use propylea.Quarantine.Offline
use propylea.Quarantine.Ingest
use propylea.Quarantine.Export.{ExportFormat, SerdeJson, export_records, from_str}
use propylea.Quarantine.Ipc.{IpcRequest}
use propylea.Quarantine.Offline.{CliBan, exec_cli_ban, stored}
use propylea.Quarantine.Ingest.{CliIngest, exec_cli_ingest}
use propylea.Prelude.{
  Bool, List, Option, Result, Text, [], codes, err, if◌then◌else◌, length, none, ok, some, ℕ, ◌++◌,
  ◌+◌, ◌∷◌,
}

pub data QuarantineCommands : Type 0 where
  list : (format : Text) (active_only : Bool) (limit : ℕ) → QuarantineCommands
  export : (file format : Text) (active_only : Bool) → QuarantineCommands
  ban : (targets : List Text) (reason duration : Text) (exact : Bool) → QuarantineCommands
  unban : (targets : List Text) → QuarantineCommands
  ingest_logs :
      (input reason duration : Text) (exclude : List Text) (exact : Bool) → QuarantineCommands
  clear : QuarantineCommands
  status : QuarantineCommands

-- The text of an error that ends the command.
pub data CommandError : Type 0 where
  invalid_format : Text → CommandError
  store_failed : QuarantineStoreError → CommandError
  not_serialized : Text → CommandError

-- How a command ends. The database that it leaves stands beside its result.
pub data Outcome : Type 0 where
  failed : CommandError → Outcome
  panicked : Outcome
  sent : IpcRequest → Outcome
  printed : (rendered : Text) → QuarantineStore → Outcome
  written : (file rendered : Text) (count : ℕ) → QuarantineStore → Outcome
  unbanned : Answer (ℕ × List Text) → Outcome
  cleared : Answer ℕ → Outcome
  banned : CliBan → Outcome
  ingested : CliIngest → Outcome
  reported : (online : Bool) (counts : Option (ℕ × ℕ)) → Outcome

pub record Env : Type 0 where
  pub is_alive : Bool
  pub opened : Result QuarantineStore QuarantineStoreError
  pub serde : SerdeJson
  pub read_lines : Text → Result (List Text) Text
  pub now_ms : ℕ

-- `QuarantineStore::open(&db_path)?`
abbrev pub on_opened :
    Result QuarantineStore QuarantineStoreError → (QuarantineStore → Outcome) → Outcome
on_opened (ok st) next = next st
on_opened (err e) next = failed (store_failed e)

abbrev pub with_store : Env → (QuarantineStore → Outcome) → Outcome
with_store env next = on_opened env.opened next

-- A ban opens the database when it first needs it, so one that does not open matters only then.
abbrev unless_stored : QuarantineStoreError → Outcome → Outcome
unless_stored e (banned (Offline.stored a)) = failed (store_failed e)
unless_stored e (ingested (Ingest.stored a)) = failed (store_failed e)
unless_stored e other = other

abbrev with_store_later : Env → (QuarantineStore → Outcome) → Outcome
with_store_later env next = elim env.opened [
  | ok st ↦ next st
  | err e ↦ unless_stored e (next in_memory)
]

-- The records that `List` and `Export` ask for.
unfoldable pub select_records : Bool → ℕ → ℕ → QuarantineStore → Answer (List QuarantineRecord)
unfolding get_active_bans get_all_records
select_records active_only limit now_ms st =
    if active_only then get_active_bans now_ms st else get_all_records limit st

-- What is done with the rendered text, the number of records and the database.
abbrev rendered_by : (Text → Outcome) → Option (Result Text Text) → Outcome
rendered_by done none = panicked
rendered_by done (some (err e)) = failed (not_serialized e)
rendered_by done (some (ok text)) = done text

abbrev pub on_records :
    Env
    → ExportFormat
    → (ℕ → QuarantineStore → Text → Outcome)
    → Answer (List QuarantineRecord)
    → Outcome
on_records env format done (err e, st) = failed (store_failed e)
on_records env format done (ok records, st) =
    rendered_by (done (length records) st) (export_records env.serde records format env.now_ms)

abbrev pub in_format :
    Env → Bool → ℕ → (ℕ → QuarantineStore → Text → Outcome) → Result ExportFormat Text → Outcome
in_format env active_only limit done (err e) = failed (invalid_format e)
in_format env active_only limit done (ok format) =
    with_store env
      (λ st. on_records env format done (select_records active_only limit env.now_ms st))

unfoldable pub render_records :
    Env → Text → Bool → ℕ → (ℕ → QuarantineStore → Text → Outcome) → Outcome
unfolding from_str select_records export_records
render_records env format active_only limit done =
    in_format env active_only limit done (from_str format)

abbrev count_of : Result (List QuarantineRecord) QuarantineStoreError → ℕ
count_of (ok records) = length records
count_of (err e) = 0

unfoldable pub report_status : Env → Outcome
unfolding get_active_bans get_all_records
report_status env = elim env.opened [
  | err e ↦ reported env.is_alive none
  | ok st ↦
      let active = get_active_bans env.now_ms st in
      let total = get_all_records 100_000 active.1 in
      reported env.is_alive (some (count_of active.0, count_of total.0))
]

module _ (net : NetApi) where
  -- One target's unban, and the targets that follow: an error ends the loop (`?`).
  abbrev pub then_unbanned :
      Answer (List Text)
      → (List Text → QuarantineStore → Answer (ℕ × List Text))
      → Answer (ℕ × List Text)
  then_unbanned (err e, st) next = (err e, st)
  then_unbanned (ok found, st) next = next found st

  unfoldable pub unban_offline :
      ℕ → ℕ → List Text → List Text → QuarantineStore → Answer (ℕ × List Text)
  unfolding Store.unban
  unban_offline now_ms total cidrs [] st = (ok (total, cidrs), st)
  unban_offline now_ms total cidrs (target ∷ targets) st =
      then_unbanned (Store.unban net target (codes "Offline CLI unban") now_ms st)
        (λ found. unban_offline now_ms (total + length found) (cidrs ++ found) targets)

  module _ (phylax : QuarantineApi net) where
    unfoldable pub handle_quarantine_command : Env → QuarantineCommands → Outcome
    unfolding render_records report_status unban_offline Store.unban_all exec_cli_ban
        exec_cli_ingest
    handle_quarantine_command env (ban targets reason duration exact) = with_store_later env (λ st.
        banned (exec_cli_ban net phylax env.is_alive targets reason duration exact env.now_ms st))
    handle_quarantine_command env (ingest_logs input reason duration exclude exact) =
        with_store_later env (λ st. ingested (
          exec_cli_ingest net phylax env.is_alive (env.read_lines input) reason duration exclude
            exact env.now_ms st))
    handle_quarantine_command env (unban targets) =
        if env.is_alive
        then sent (IpcRequest.unban targets)
        else with_store env (λ st. unbanned (unban_offline env.now_ms 0 [] targets st))
    handle_quarantine_command env clear =
        if env.is_alive
        then sent IpcRequest.unban_all
        else with_store env
            (λ st. cleared (Store.unban_all (codes "Offline CLI unban_all") env.now_ms st))
    handle_quarantine_command env (list format active_only limit) =
        render_records env format active_only limit (λ count st text. printed text st)
    handle_quarantine_command env (export file format active_only) =
        render_records env format active_only 100_000 (λ count st text. written file text count st)
    handle_quarantine_command env status = report_status env
