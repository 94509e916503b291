-- ===== src/Quarantine/Commands/Tests.antt =====
-- Runs of the commands on test data, and instances of what is proved of them.
use propylea.Quarantine.Tests.{daemon, list_engine, log_lines, one_ban, text_net}
use propylea.Quarantine.Targets.{is_excluded, parse_duration_str}
use propylea.Quarantine.Offline.{collect_targets, store_bans}
use propylea.Quarantine.Ipc.{exec_unban, expiry}
use propylea.Quarantine.Ingest
use propylea.Quarantine.Ingest.{chunks, exec_cli_ingest}
use propylea.Quarantine.Ingest.Chunked.{exec_cli_ingest-store_bans}
use propylea.Quarantine.Commands
use propylea.Quarantine.Commands.{Env, handle_quarantine_command, unban_offline}
use propylea.Quarantine.Commands.Unban.{LeavesRows, unban_offline-exec_unban}
use propylea.Quarantine.Commands.Listed.{PrintsCsv, list-PrintsCsv}
use propylea.Prelude.{
  List, Text, [], arith, codes, false, is_empty, ok, parse_u64, refl, true, ℕ, ◌∷◌, ◌≡◌,
}

three_chunks :
    chunks {A = ℕ} 2 (1 ∷ 2 ∷ 3 ∷ 4 ∷ 5 ∷ []) ≡ (1 ∷ 2 ∷ []) ∷ (3 ∷ 4 ∷ []) ∷ (5 ∷ []) ∷ []
unfolding chunks
three_chunks = refl

abbrev excluded : List Text
excluded = codes "10.0.0.1" ∷ []

ten_minutes : parse_duration_str (codes "10m") ≡ ok 600
unfolding parse_duration_str parse_u64
ten_minutes = refl

log_has_targets : is_empty (collect_targets text_net excluded log_lines []) ≡ false
unfolding collect_targets is_excluded
log_has_targets = refl

exec_cli_ingest-store_bans_example :
    exec_cli_ingest text_net list_engine false
      (ok log_lines)
      (codes "abuse")
      (codes "10m")
      excluded
      false
      2000
      one_ban
    ≡ Ingest.stored (
        store_bans text_net list_engine
          (codes "abuse")
          2000
          (expiry 2000 600)
          false
          (collect_targets text_net excluded log_lines [])
          one_ban)
exec_cli_ingest-store_bans_example =
    exec_cli_ingest-store_bans text_net list_engine log_lines (codes "abuse") (codes "10m") excluded
      false 2000 600 one_ban ten_minutes (omega arith) log_has_targets

abbrev one_target : List Text
one_target = codes "10.0.0.0/24" ∷ []

unban_offline-exec_unban_example :
    LeavesRows text_net list_engine
      (unban_offline text_net 2000 0 [] one_target daemon.store)
      (exec_unban text_net list_engine one_target 2000 daemon).1.store.rows
unban_offline-exec_unban_example =
    unban_offline-exec_unban text_net list_engine one_target 2000 daemon refl

abbrev env : Env
env = record {
  is_alive = false;
  opened = ok one_ban;
  serde = record { to_string = λ r. ok []; to_string_pretty = λ rs. ok [] };
  read_lines = λ f. ok log_lines;
  now_ms = 2000;
}

list-PrintsCsv_example :
    PrintsCsv text_net list_engine
      (handle_quarantine_command text_net list_engine env (Commands.list (codes "csv") true 100))
      2000
      one_ban
list-PrintsCsv_example = list-PrintsCsv text_net list_engine env 100 one_ban refl refl
