-- ===== src/Quarantine/Ipc/Requests.antt =====
-- src/quarantine/ipc.rs: what the daemon answers to a request, and what any sequence of requests
-- keeps true of its database.
use propylea.Quarantine.Net.{NetApi, QuarantineApi}
use propylea.Quarantine.Store
use propylea.Quarantine.Store.{
  QuarantineStore, QuarantineStoreError, get_active_bans, get_all_records, in_memory, is_readable,
  newest_first, select_active, sql_limit, transaction, unban, unban_all,
}
use propylea.Quarantine.Store.Rows.{transaction-either}
use propylea.Quarantine.Store.History.{
  IsConsistent, Reaches, Reaches-IsConsistent, and_then, at_start, step_read, step_record_ban,
  step_unban, step_unban_all,
}
use propylea.Quarantine.Ipc
use propylea.Quarantine.Ipc.{
  Daemon, IpcRequest, IpcResponse, ban, ban_resolved, ban_targets, banned, exec_ban, exec_unban,
  expiry, handle_request, list_active, manual_record, resolve_target, status, unban_each,
  unban_found, unbanned, unwrap_or,
}
use propylea.Prelude.{
  Bool, List, Option, Option-cases, Result, Text, [], ap, arith, codes, err, filter, inl, inr,
  length, length-append, none, ok, refl, some, ℕ, ◌++◌, ◌+◌, ◌∷◌, ◌≡◌,
}

-- The count of an answer that lifts bans is the length of its list.
pub IsCounted : IpcResponse → Type 0
IsCounted (unbanned count cidrs) = count ≡ length cidrs
IsCounted (banned count cidrs) = count ≡ length cidrs
IsCounted r = Unit

module _ (net : NetApi) (phylax : QuarantineApi net) where
  abbrev text_of : Option (net.IpNet × Text) → List Text → List Text
  text_of none rest = rest
  text_of (some found) rest = net.net_text found.0 ∷ rest

  -- The networks of the targets that resolve, in order.
  unfoldable pub resolved_cidrs : Bool → List Text → List Text
  resolved_cidrs exact [] = []
  resolved_cidrs exact (target ∷ targets) =
      text_of (resolve_target net phylax exact target) (resolved_cidrs exact targets)

  ban_targets-resolved :
      (reason : Text) (now_ms expires_at : ℕ) (exact : Bool) (targets : List Text)
      (d : Daemon net phylax)
      → (ban_targets net phylax reason now_ms expires_at exact targets d).0
        ≡ resolved_cidrs exact targets
  unfolding ban_targets resolved_cidrs
  ban_targets-resolved reason now_ms expires_at exact [] d = refl
  ban_targets-resolved reason now_ms expires_at exact (target ∷ targets) d =
      elim (Option-cases (resolve_target net phylax exact target)) [
        | inl e ↦
            rw (e, ban_targets, resolved_cidrs)
              (ban_targets-resolved reason now_ms expires_at exact targets d)
        | inr (found, e) ↦
            rw (e, ban_targets, resolved_cidrs)
              (ap (λ l. net.net_text found.0 ∷ l)
                (ban_targets-resolved reason now_ms expires_at exact targets
                  (ban_resolved net phylax reason now_ms expires_at found d)))
      ]

  -- A ban request is answered with the network of every target that resolves, in order and
  -- counted, whatever the database answers to the writes.
  pub exec_ban-resolved :
      (targets : List Text) (reason : Option Text) (duration_secs : Option ℕ) (exact : Bool)
      (now_ms : ℕ) (d : Daemon net phylax)
      → (exec_ban net phylax targets reason duration_secs exact now_ms d).0
        ≡ banned (length (resolved_cidrs exact targets)) (resolved_cidrs exact targets)
  unfolding exec_ban
  exec_ban-resolved targets reason duration_secs exact now_ms d =
      ap (λ l. banned (length l) l)
        (ban_targets-resolved (unwrap_or (codes "Manual operator ban") reason) now_ms
          (expiry now_ms (unwrap_or 86400 duration_secs)) exact targets d)

  unban_found-length :
      (target : Text) (known : Bool) (db : Result (List Text) QuarantineStoreError)
      → (unban_found net phylax target known db).0
        ≡ length (unban_found net phylax target known db).1
  unban_found-length target known (ok []) = ground arith
  unban_found-length target known (ok (c ∷ cs)) = refl
  unban_found-length target known (err e) = refl

  unban_each-IsCounted :
      (now_ms total : ℕ) (cidrs targets : List Text) (d : Daemon net phylax)
      → total ≡ length cidrs
      → IsCounted (unban_each net phylax now_ms total cidrs targets d).0
  unfolding unban_each IsCounted
  unban_each-IsCounted now_ms total cidrs [] d h = h
  unban_each-IsCounted now_ms total cidrs (target ∷ targets) d h =
      let mem = phylax.unban target d.engine in
      let db = Store.unban net target (codes "Live IPC command") now_ms d.store in
      let found = unban_found net phylax target mem.0 db.0 in
      unban_each-IsCounted now_ms (total + found.0) (cidrs ++ found.1) targets
        (record { engine = mem.1; store = db.1 })
        (omega (arith, h, length-append cidrs found.1, unban_found-length target mem.0 db.0))

  -- The count that an unban request is answered with is the number of CIDRs it lists.
  pub exec_unban-IsCounted :
      (targets : List Text) (now_ms : ℕ) (d : Daemon net phylax)
      → IsCounted (exec_unban net phylax targets now_ms d).0
  unfolding exec_unban
  exec_unban-IsCounted targets now_ms d = unban_each-IsCounted now_ms 0 [] targets d refl

  Reaches-trans : {a b c : QuarantineStore} → Reaches net a b → Reaches net b c → Reaches net a c
  Reaches-trans ab at_start = ab
  Reaches-trans ab (and_then bm step) = and_then (Reaches-trans ab bm) step

  ban_targets-Reaches :
      (reason : Text) (now_ms expires_at : ℕ) (exact : Bool) (targets : List Text)
      (d : Daemon net phylax)
      → Reaches net d.store
          (ban_targets net phylax reason now_ms expires_at exact targets d).1.store
  unfolding ban_targets ban_resolved
  ban_targets-Reaches reason now_ms expires_at exact [] d = at_start
  ban_targets-Reaches reason now_ms expires_at exact (target ∷ targets) d =
      elim (Option-cases (resolve_target net phylax exact target)) [
        | inl e ↦ rw (e, ban_targets) (ban_targets-Reaches reason now_ms expires_at exact targets d)
        | inr (found, e) ↦
            let d1 = ban_resolved net phylax reason now_ms expires_at found d in
            let rec = manual_record net reason now_ms expires_at found in
            rw (e, ban_targets)
              (Reaches-trans (and_then at_start (step_record_ban rec))
                (ban_targets-Reaches reason now_ms expires_at exact targets d1))
      ]

  unban_each-Reaches :
      (now_ms total : ℕ) (cidrs targets : List Text) (d : Daemon net phylax)
      → Reaches net d.store (unban_each net phylax now_ms total cidrs targets d).1.store
  unfolding unban_each
  unban_each-Reaches now_ms total cidrs [] d = at_start
  unban_each-Reaches now_ms total cidrs (target ∷ targets) d =
      let mem = phylax.unban target d.engine in
      let db = Store.unban net target (codes "Live IPC command") now_ms d.store in
      let found = unban_found net phylax target mem.0 db.0 in
      Reaches-trans (and_then at_start (step_unban target (codes "Live IPC command") now_ms)) (
        unban_each-Reaches now_ms (total + found.0) (cidrs ++ found.1) targets
          (record { engine = mem.1; store = db.1 }))

  read-Reaches :
      {A : Type 0} (st : QuarantineStore) (body : QuarantineStore → A)
      → Reaches net st (transaction st (λ begun. (body begun, begun))).1
  read-Reaches st body =
      transaction-either (λ a. Reaches net st a.1) st (λ begun. (body begun, begun))
        (and_then at_start step_read, λ e. and_then at_start step_read)

  -- What one request does to the database is a sequence of the store's calls.
  handle_request-Reaches :
      (req : IpcRequest) (now_ms : ℕ) (d : Daemon net phylax)
      → Reaches net d.store (handle_request net phylax req now_ms d).1.store
  unfolding handle_request exec_ban exec_unban get_active_bans get_all_records
  handle_request-Reaches (ban targets reason duration_secs exact) now_ms d =
      ban_targets-Reaches (unwrap_or (codes "Manual operator ban") reason) now_ms
        (expiry now_ms (unwrap_or 86400 duration_secs)) exact targets d
  handle_request-Reaches (Ipc.unban targets) now_ms d = unban_each-Reaches now_ms 0 [] targets d
  handle_request-Reaches Ipc.unban_all now_ms d =
      and_then at_start (step_unban_all (codes "Live IPC unban_all command") now_ms)
  handle_request-Reaches list_active now_ms d =
      read-Reaches d.store (λ begun. select_active now_ms begun.rows)
  handle_request-Reaches status now_ms d =
      read-Reaches d.store
        (λ begun. filter is_readable (sql_limit 100000 (newest_first begun.rows)))

  -- Requests one after the other, each with the time it is handled at.
  unfoldable pub run_requests : List (IpcRequest × ℕ) → Daemon net phylax → Daemon net phylax
  run_requests [] d = d
  run_requests ((req, now_ms) ∷ reqs) d =
      run_requests reqs (handle_request net phylax req now_ms d).1

  pub run_requests-Reaches :
      (reqs : List (IpcRequest × ℕ)) (d : Daemon net phylax)
      → Reaches net d.store (run_requests reqs d).store
  unfolding run_requests
  run_requests-Reaches [] d = at_start
  run_requests-Reaches ((req, now_ms) ∷ reqs) d =
      Reaches-trans (handle_request-Reaches req now_ms d)
        (run_requests-Reaches reqs (handle_request net phylax req now_ms d).1)

  -- A daemon that starts on an empty database keeps the primary key and the numbering of the audit
  -- log through any requests, whatever the engine and the database answer.
  pub run_requests-IsConsistent :
      (reqs : List (IpcRequest × ℕ)) (engine : phylax.Engine)
      → IsConsistent (run_requests reqs (record { engine = engine; store = in_memory })).store
  run_requests-IsConsistent reqs engine =
      let d : Daemon net phylax = record { engine = engine; store = in_memory } in
      Reaches-IsConsistent net (run_requests reqs d).store (run_requests-Reaches reqs d)
