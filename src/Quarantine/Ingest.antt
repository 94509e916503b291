-- ===== src/Quarantine/Ingest.antt =====
-- src/quarantine/cli/parsers.rs: `exec_cli_ingest`, from the lines of a log to bans in chunks of 500.
-- The lines that can be read are an argument; what is printed is left out.
pub mod Chunked
use propylea.Quarantine.Net.{NetApi, QuarantineApi}
use propylea.Quarantine.Store.{Answer, QuarantineStore}
use propylea.Quarantine.Targets.{parse_duration_str}
use propylea.Quarantine.Ipc.{IpcRequest}
use propylea.Quarantine.Offline
use propylea.Quarantine.Offline.{CliBan, collect_targets, exec_cli_ban}
use propylea.Prelude.{
  Bool, List, Result, Text, [], err, if◌then◌else◌, is_empty, ok, suc, to_decimal, zero, ℕ, ◌++◌,
  ◌-◌, ◌∷◌,
}

pub data CliIngest : Type 0 where
  invalid_input : Text → CliIngest
  unreadable : Text → CliIngest
  no_targets : CliIngest
  sent : List IpcRequest → CliIngest
  stored : Answer (List Text) → CliIngest

-- `chunks`: `room` is what the last chunk still takes.
unfoldable pub chunks_from {ℓ} : {A : Type ℓ} → ℕ → ℕ → List A → List A → List (List A)
chunks_from size room chunk [] = chunk ∷ []
chunks_from size zero chunk (x ∷ xs) = chunk ∷ chunks_from size (size - 1) (x ∷ []) xs
chunks_from size (suc room) chunk (x ∷ xs) = chunks_from size room (chunk ++ (x ∷ [])) xs

unfoldable pub chunks {ℓ} : {A : Type ℓ} → ℕ → List A → List (List A)
unfolding chunks_from
chunks size [] = []
chunks size (x ∷ xs) = chunks_from size (size - 1) (x ∷ []) xs

-- What an ingest is with one chunk in front.
abbrev pub with_request : IpcRequest → CliIngest → CliIngest
with_request request (sent requests) = sent (request ∷ requests)
with_request request other = other

abbrev pub with_cidrs : List Text → CliIngest → CliIngest
with_cidrs cidrs (stored (ok later, st)) = stored (ok (cidrs ++ later), st)
with_cidrs cidrs other = other

-- One chunk's ban, and the ingest of the chunks that follow it: an error ends the loop (`?`).
abbrev pub and_later : QuarantineStore → CliBan → (QuarantineStore → CliIngest) → CliIngest
and_later st (Offline.invalid_input e) later = invalid_input e
and_later st (Offline.sent request) later = with_request request (later st)
and_later st (Offline.stored (err e, st')) later = stored (err e, st')
and_later st (Offline.stored (ok cidrs, st')) later = with_cidrs cidrs (later st')

module _ (net : NetApi) (phylax : QuarantineApi net) where
  unfoldable pub ban_chunks :
      Bool → Text → ℕ → Bool → ℕ → List (List Text) → QuarantineStore → CliIngest
  unfolding exec_cli_ban
  ban_chunks alive reason duration_secs exact now_ms [] st =
      if alive then sent [] else stored (ok [], st)
  ban_chunks alive reason duration_secs exact now_ms (chunk ∷ rest) st =
      and_later st
        (exec_cli_ban net phylax alive chunk reason (to_decimal duration_secs) exact now_ms st)
        (ban_chunks alive reason duration_secs exact now_ms rest)

  abbrev ban_list : Bool → Text → ℕ → Bool → ℕ → List Text → QuarantineStore → CliIngest
  ban_list alive reason duration_secs exact now_ms target_list st =
      if is_empty target_list
      then no_targets
      else ban_chunks alive reason duration_secs exact now_ms (chunks 500 target_list) st

  abbrev ingest_lines :
      Bool → Text → List Text → Bool → ℕ → QuarantineStore → Result (List Text) Text → ℕ → CliIngest
  ingest_lines alive reason exclude exact now_ms st (err e) duration_secs = unreadable e
  ingest_lines alive reason exclude exact now_ms st (ok lines) duration_secs =
      ban_list alive reason duration_secs exact now_ms (collect_targets net exclude lines []) st

  abbrev with_duration : Result ℕ Text → (ℕ → CliIngest) → CliIngest
  with_duration (err e) next = invalid_input e
  with_duration (ok duration_secs) next = next duration_secs

  unfoldable pub exec_cli_ingest :
      Bool
      → Result (List Text) Text
      → Text
      → Text
      → List Text
      → Bool
      → ℕ
      → QuarantineStore
      → CliIngest
  unfolding parse_duration_str collect_targets chunks ban_chunks
  exec_cli_ingest alive lines reason duration exclude exact now_ms st =
      with_duration (parse_duration_str duration)
        (ingest_lines alive reason exclude exact now_ms st lines)
