-- ===== src/Quarantine/Ipc.antt =====
-- src/quarantine/ipc.rs: the requests of the control socket and how the daemon executes each. The
-- socket and the JSON text of a request are not modelled; a request that arrives is a value.
pub mod Requests
use propylea.Quarantine.Net.{NetApi, QuarantineApi}
use propylea.Quarantine.Store
use propylea.Quarantine.Store.{
  QuarantineRecord, QuarantineStore, QuarantineStoreError, get_active_bans, get_all_records,
  invalid_network, io, record_ban, sqlite,
}
use propylea.Prelude.{
  Bool, List, Option, Result, Text, [], codes, contains_char, err, if◌then◌else◌, is_empty, length,
  none, not, ok, some, trim, true, u64_mod, ℕ, ◌%◌, ◌*◌, ◌++◌, ◌+◌, ◌∷◌,
}

pub data IpcRequest : Type 0 where
  ban :
      (targets : List Text) (reason : Option Text) (duration_secs : Option ℕ) (exact : Bool)
      → IpcRequest
  unban : (targets : List Text) → IpcRequest
  unban_all : IpcRequest
  list_active : IpcRequest
  status : IpcRequest

pub data IpcResponse : Type 0 where
  banned : (count : ℕ) (banned_cidrs : List Text) → IpcResponse
  unbanned : (count : ℕ) (unbanned_cidrs : List Text) → IpcResponse
  list : (records : List QuarantineRecord) → IpcResponse
  status : (active_count total_records : ℕ) → IpcResponse
  error : (message : Text) → IpcResponse

unfoldable pub display_store_error : QuarantineStoreError → Text
display_store_error (sqlite e) = codes "SQLite database error: " ++ e
display_store_error (io e) = codes "I/O error: " ++ e
display_store_error (invalid_network e) = codes "Invalid CIDR or IP representation: " ++ e

abbrev pub unwrap_or {ℓ} : {A : Type ℓ} → A → Option A → A
unwrap_or a none = a
unwrap_or a (some b) = b

-- `now_ms + secs * 1000`, both operations at 64 bits.
abbrev pub expiry : ℕ → ℕ → ℕ
expiry now_ms secs = (now_ms + (secs * 1000) % u64_mod) % u64_mod

-- `map(|r| r.len()).unwrap_or(0)`
abbrev count_or_zero : Result (List QuarantineRecord) QuarantineStoreError → ℕ
count_or_zero (ok records) = length records
count_or_zero (err e) = 0

module _ (net : NetApi) where
  abbrev pub version_of : net.IpNet → ℕ
  version_of n = if net.is_ipv4 (net.net_addr n) then 4 else 6

  -- The record that a ban of the daemon writes.
  unfoldable pub manual_record : Text → ℕ → ℕ → net.IpNet × Text → QuarantineRecord
  manual_record reason now_ms expires_at (n, trigger) = record {
    cidr = net.net_text n;
    ip_version = version_of n;
    trigger_ip = trigger;
    infraction_type = reason;
    infraction_count = 1;
    quarantined_at = now_ms;
    expires_at = expires_at;
    user_agent = none;
    active = true;
  }

  module _ (phylax : QuarantineApi net) where
    pub record Daemon : Type 0 where
      pub engine : phylax.Engine
      pub store : QuarantineStore

    -- The body of the loop of `exec_ban`, for a target that resolves: a failed write is ignored.
    unfoldable pub ban_resolved : Text → ℕ → ℕ → net.IpNet × Text → Daemon → Daemon
    unfolding manual_record record_ban
    ban_resolved reason now_ms expires_at (n, trigger) d = record {
      engine = phylax.add_ban n expires_at d.engine;
      store = (record_ban (manual_record reason now_ms expires_at (n, trigger)) d.store).1;
    }

    abbrev pub with_trigger : Text → Option net.IpNet → Option (net.IpNet × Text)
    with_trigger target o = elim o [ some n ↦ some (n, target) | none ↦ none ]

    -- The resolution of a trimmed target, which the loop writes out itself.
    unfoldable pub resolve_named : Bool → Text → Option (net.IpNet × Text)
    resolve_named exact target =
        if contains_char target b'/'
        then with_trigger target (net.parse_net target)
        else if exact
        then elim (net.parse_addr target) [
          | some addr ↦
              if net.is_ipv4 addr
              then with_trigger target (net.new_net addr 32)
              else with_trigger target (net.new_net addr 128)
          | none ↦ none
        ]
        else with_trigger target
            (elim (phylax.derive_quarantine_cidr target) [ some c ↦ net.parse_net c | none ↦ none ])

    -- An empty target is passed over, and so is one that names no network.
    unfoldable pub resolve_target : Bool → Text → Option (net.IpNet × Text)
    unfolding resolve_named
    resolve_target exact target =
        if is_empty (trim target) then none else resolve_named exact (trim target)

    unfoldable pub ban_targets : Text → ℕ → ℕ → Bool → List Text → Daemon → List Text × Daemon
    unfolding ban_resolved resolve_target
    ban_targets reason now_ms expires_at exact [] d = ([], d)
    ban_targets reason now_ms expires_at exact (target ∷ targets) d =
        elim (resolve_target exact target) [
          | none ↦ ban_targets reason now_ms expires_at exact targets d
          | some found ↦
              let rest =
                ban_targets reason now_ms expires_at exact targets
                  (ban_resolved reason now_ms expires_at found d) in
              (net.net_text found.0 ∷ rest.0, rest.1)
        ]

    unfoldable pub exec_ban :
        List Text → Option Text → Option ℕ → Bool → ℕ → Daemon → IpcResponse × Daemon
    unfolding ban_targets
    exec_ban targets reason duration_secs exact now_ms d =
        let expires_at = expiry now_ms (unwrap_or 86400 duration_secs) in
        let reason_str = unwrap_or (codes "Manual operator ban") reason in
        let done = ban_targets reason_str now_ms expires_at exact targets d in
        (banned (length done.0) done.0, done.1)

    -- The CIDRs that one target adds to the answer, and by how much the total grows: what the
    -- database lifted, or else the target itself if the engine knew it.
    abbrev pub unban_found : Text → Bool → Result (List Text) QuarantineStoreError → ℕ × List Text
    unban_found target mem_unbanned (err e) = (0, [])
    unban_found target mem_unbanned (ok cidrs) =
        if not (is_empty cidrs)
        then (length cidrs, cidrs)
        else if mem_unbanned
        then (1, target ∷ [])
        else (0, [])

    unfoldable pub unban_each : ℕ → ℕ → List Text → List Text → Daemon → IpcResponse × Daemon
    unfolding Store.unban
    unban_each now_ms total cidrs [] d = (unbanned total cidrs, d)
    unban_each now_ms total cidrs (target ∷ targets) d =
        let mem = phylax.unban target d.engine in
        let db = Store.unban net target (codes "Live IPC command") now_ms d.store in
        let found = unban_found target mem.0 db.0 in
        unban_each now_ms (total + found.0) (cidrs ++ found.1) targets
          (record { engine = mem.1; store = db.1 })

    unfoldable pub exec_unban : List Text → ℕ → Daemon → IpcResponse × Daemon
    unfolding unban_each
    exec_unban targets now_ms d = unban_each now_ms 0 [] targets d

    abbrev unban_all_response : Result ℕ QuarantineStoreError → IpcResponse
    unban_all_response (ok count) = unbanned count []
    unban_all_response (err e) = error (display_store_error e)

    abbrev list_response : Result (List QuarantineRecord) QuarantineStoreError → IpcResponse
    list_response (ok records) = list records
    list_response (err e) = error (display_store_error e)

    -- The dispatch of `handle_connection`.
    unfoldable pub handle_request : IpcRequest → ℕ → Daemon → IpcResponse × Daemon
    unfolding exec_ban exec_unban Store.unban_all get_active_bans get_all_records
    handle_request (ban targets reason duration_secs exact) now_ms d =
        exec_ban targets reason duration_secs exact now_ms d
    handle_request (unban targets) now_ms d = exec_unban targets now_ms d
    handle_request unban_all now_ms d =
        let db = Store.unban_all (codes "Live IPC unban_all command") now_ms d.store in
        (unban_all_response db.0, record { engine = phylax.unban_all d.engine; store = db.1 })
    handle_request list_active now_ms d =
        let db = get_active_bans now_ms d.store in (list_response db.0, record d { store = db.1 })
    handle_request status now_ms d =
        let db = get_all_records 100000 d.store in
        (status (phylax.active_bans_count d.engine) (count_or_zero db.0), record d { store = db.1 })
