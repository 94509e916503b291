-- ===== src/Quarantine/Offline.antt =====
-- src/quarantine/cli/parsers.rs: `exec_cli_ban` and the collecting of `exec_cli_ingest`. What is
-- printed is left out; whether the daemon answers on its socket is an argument, and a request that
-- is sent to it is a value.
pub mod Agreement
pub mod Ingest
use propylea.Quarantine.Net.{NetApi, QuarantineApi}
use propylea.Quarantine.Store.{Answer, QuarantineRecord, QuarantineStore, record_ban}
use propylea.Quarantine.Targets.{
  extract_ips_from_line, is_excluded, parse_duration_str, resolve_target_cidr,
}
use propylea.Quarantine.Ipc.{IpcRequest, ban, expiry}
use propylea.Prelude.{
  Bool, List, Option, Result, Text, [], err, false, if◌then◌else◌, none, not, ok, some, text_eq,
  true, ℕ, ◌>>=◌, ◌∷◌,
}

pub data CliBan : Type 0 where
  invalid_input : Text → CliBan
  sent : IpcRequest → CliBan
  stored : Answer (List Text) → CliBan

-- `set.insert`: the set as a list without repetitions. Its order is not the source's, whose set
-- has none that is specified.
unfoldable pub insert_target : Text → List Text → List Text
insert_target s [] = s ∷ []
insert_target s (t ∷ ts) = if text_eq s t then t ∷ ts else t ∷ insert_target s ts

module _ (net : NetApi) where
  -- The parts of `exec_cli_ingest`'s loop: a candidate is an address, or else a network.
  abbrev pub eligible_net : List Text → Option net.IpNet → Bool
  eligible_net exclude none = false
  eligible_net exclude (some n) = not (is_excluded net (net.net_addr n) exclude)

  abbrev pub eligible_addr : List Text → Text → Option net.IpAddr → Bool
  eligible_addr exclude ip_str none = eligible_net exclude (net.parse_net ip_str)
  eligible_addr exclude ip_str (some addr) = not (is_excluded net addr exclude)

  abbrev pub is_eligible : List Text → Text → Bool
  is_eligible exclude ip_str = eligible_addr exclude ip_str (net.parse_addr ip_str)

  unfoldable pub collect_ips : List Text → List Text → List Text → List Text
  unfolding insert_target
  collect_ips exclude [] targets = targets
  collect_ips exclude (ip_str ∷ ips) targets =
      collect_ips exclude ips
        (if is_eligible exclude ip_str then insert_target ip_str targets else targets)

  unfoldable pub collect_targets : List Text → List Text → List Text → List Text
  unfolding collect_ips extract_ips_from_line
  collect_targets exclude [] targets = targets
  collect_targets exclude (line ∷ lines) targets =
      collect_targets exclude lines (collect_ips exclude (extract_ips_from_line net line) targets)

  -- The record that a ban of the command line writes.
  unfoldable pub cli_record : Text → ℕ → ℕ → net.IpNet × Text → QuarantineRecord
  cli_record reason now_ms expires_at (n, trigger_ip) = record {
    cidr = net.net_text n;
    ip_version = if net.is_ipv4 (net.net_addr n) then 4 else 6;
    trigger_ip = trigger_ip;
    infraction_type = reason;
    infraction_count = 1;
    quarantined_at = now_ms;
    expires_at = expires_at;
    user_agent = none;
    active = true;
  }

  module _ (phylax : QuarantineApi net) where
    -- The loop over the targets, with the database's answer to one write and what follows it.
    abbrev pub then_stored :
        Text → (QuarantineStore → Answer (List Text)) → Answer (Unit {0}) → Answer (List Text)
    then_stored cidr rest (err e, st) = (err e, st)
    then_stored cidr rest (ok u, st) =
        let later = rest st in ((later.0 >>= λ cidrs. ok (cidr ∷ cidrs)), later.1)

    -- A failed write ends the loop (`?`).
    unfoldable pub store_bans :
        Text → ℕ → ℕ → Bool → List Text → QuarantineStore → Answer (List Text)
    unfolding record_ban cli_record resolve_target_cidr
    store_bans reason now_ms expires_at exact [] st = (ok [], st)
    store_bans reason now_ms expires_at exact (target ∷ targets) st =
        elim (resolve_target_cidr net phylax target exact) [
          | none ↦ store_bans reason now_ms expires_at exact targets st
          | some found ↦
              then_stored (net.net_text found.0) (store_bans reason now_ms expires_at exact targets)
                (record_ban (cli_record reason now_ms expires_at found) st)
        ]

    abbrev pub ban_for :
        Bool → List Text → Text → Bool → ℕ → QuarantineStore → Result ℕ Text → CliBan
    ban_for alive targets reason exact now_ms st (err e) = invalid_input e
    ban_for true targets reason exact now_ms st (ok duration_secs) =
        sent (ban targets (some reason) (some duration_secs) exact)
    ban_for false targets reason exact now_ms st (ok duration_secs) =
        stored (store_bans reason now_ms (expiry now_ms duration_secs) exact targets st)

    unfoldable pub exec_cli_ban :
        Bool → List Text → Text → Text → Bool → ℕ → QuarantineStore → CliBan
    unfolding store_bans parse_duration_str
    exec_cli_ban alive targets reason duration exact now_ms st =
        ban_for alive targets reason exact now_ms st (parse_duration_str duration)
