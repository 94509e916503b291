-- ===== src/Quarantine/Offline/Agreement.antt =====
-- src/quarantine/cli/parsers.rs and src/quarantine/ipc.rs: a ban by the command line on the
-- database against the same ban by the daemon.
use propylea.Quarantine.Net.{NetApi, QuarantineApi}
use propylea.Quarantine.Store.Succession.{record_ban-nil}
use propylea.Quarantine.Targets.{
  exact_net, parse_duration_str, parse_some, resolve_target_cidr, resolve_trimmed, with_target,
}
use propylea.Quarantine.Ipc.{
  Daemon, ban_resolved, ban_targets, banned, exec_ban, expiry, manual_record, resolve_named,
  resolve_target, with_trigger,
}
use propylea.Quarantine.Offline.{cli_record, exec_cli_ban, store_bans, stored, then_stored}
use propylea.Quarantine.Store.{Answer, QuarantineStore, record_ban}
use propylea.Prelude.{
  Bool, Bool-cases, List, Option, Option-cases, Text, [], ap, contains_char, err, false,
  if◌then◌else◌, inl, inr, is_empty, length, none, ok, refl, some, trim, true, ℕ, ◌∙◌, ◌∷◌, ◌≡◌,
}

if_cong :
    {A : Type 0} (b : Bool) {x y u v : A}
    → x ≡ y
    → u ≡ v
    → (if b then x else u) ≡ (if b then y else v)
if_cong true h k = h
if_cong false h k = k

module _ (net : NetApi) (phylax : QuarantineApi net) where
  then_stored-ok :
      (cidr : Text) (rest : QuarantineStore → Answer (List Text)) (a : Answer (Unit {0}))
      {cidrs : List Text} {st : QuarantineStore}
      → a.0 ≡ ok tt
      → rest a.1 ≡ (ok cidrs, st)
      → then_stored net phylax cidr rest a ≡ (ok (cidr ∷ cidrs), st)
  then_stored-ok cidr rest (ok u, st) h e = rw e
  then_stored-ok cidr rest (err x, st) h e = cc

  with_trigger-with_target :
      (target : Text) (o : Option net.IpNet)
      → with_trigger net phylax target o ≡ with_target net target o
  with_trigger-with_target target none = refl
  with_trigger-with_target target (some n) = refl

  exact-exact_net :
      (target : Text) (o : Option net.IpAddr)
      → (elim o [
        | some addr ↦
            if net.is_ipv4 addr
            then with_trigger net phylax target (net.new_net addr 32)
            else with_trigger net phylax target (net.new_net addr 128)
        | none ↦ none
      ])
        ≡ with_target net target (exact_net net o)
  exact-exact_net target none = refl
  exact-exact_net target (some addr) = elim (Bool-cases (net.is_ipv4 addr)) [
    | inl e ↦ rw e (with_trigger-with_target target (net.new_net addr 32))
    | inr e ↦ rw e (with_trigger-with_target target (net.new_net addr 128))
  ]

  derived-parse_some :
      (target : Text) (o : Option Text)
      → with_trigger net phylax target (elim o [ some c ↦ net.parse_net c | none ↦ none ])
        ≡ with_target net target (parse_some net o)
  derived-parse_some target none = refl
  derived-parse_some target (some c) = with_trigger-with_target target (net.parse_net c)

  resolve_target-resolve_trimmed :
      (exact : Bool) (target : Text)
      → (if is_empty target then none else resolve_named net phylax exact target)
        ≡ resolve_trimmed net phylax target exact
  unfolding resolve_named resolve_trimmed
  resolve_target-resolve_trimmed exact target =
      ap (λ (o : Option (net.IpNet × Text)). if is_empty target then none else o)
        (if_cong (contains_char target b'/')
          (with_trigger-with_target target (net.parse_net target))
          (if_cong exact (exact-exact_net target (net.parse_addr target))
            (derived-parse_some target (phylax.derive_quarantine_cidr target))))

  -- The daemon's own resolution of a target against that of the command line.
  resolve_target-resolve_target_cidr :
      (exact : Bool) (target : Text)
      → resolve_target net phylax exact target ≡ resolve_target_cidr net phylax target exact
  unfolding resolve_target resolve_target_cidr
  resolve_target-resolve_target_cidr exact target =
      resolve_target-resolve_trimmed exact (trim target)

  store_bans-ban_targets :
      (reason : Text) (now_ms expires_at : ℕ) (exact : Bool) (targets : List Text)
      (d : Daemon net phylax)
      → d.store.outcomes ≡ []
      → store_bans net phylax reason now_ms expires_at exact targets d.store ≡ (
          let done = ban_targets net phylax reason now_ms expires_at exact targets d in
          (ok done.0, done.1.store))
  unfolding store_bans ban_targets ban_resolved manual_record cli_record
  store_bans-ban_targets reason now_ms expires_at exact [] d h = refl
  store_bans-ban_targets reason now_ms expires_at exact (target ∷ targets) d h =
      elim (Option-cases (resolve_target_cidr net phylax target exact)) [
        | inl e ↦
            rw (e, store_bans, resolve_target-resolve_target_cidr exact target ∙ e, ban_targets)
              (store_bans-ban_targets reason now_ms expires_at exact targets d h)
        | inr (found, e) ↦
            let rec = manual_record net reason now_ms expires_at found in
            let d1 = ban_resolved net phylax reason now_ms expires_at found d in
            let (done, quiet) = record_ban-nil rec d.store h in
            let rest = store_bans-ban_targets reason now_ms expires_at exact targets d1 quiet in
            rw (e, store_bans, resolve_target-resolve_target_cidr exact target ∙ e, ban_targets)
              (then_stored-ok (net.net_text found.0)
                (store_bans net phylax reason now_ms expires_at exact targets)
                (record_ban rec d.store) done rest)
      ]

  -- Where the duration reads and the database does not fail, the ban that the command line writes
  -- with no daemon running leaves the same tables, and names the same networks, as the ban that
  -- the daemon would have executed on the same database.
  pub exec_cli_ban-exec_ban :
      (targets : List Text) (reason duration : Text) (exact : Bool) (now_ms secs : ℕ)
      (d : Daemon net phylax)
      → d.store.outcomes ≡ []
      → parse_duration_str duration ≡ ok secs
      → let daemon = exec_ban net phylax targets (some reason) (some secs) exact now_ms d in
        (cidrs : List Text) × (exec_cli_ban net phylax false targets reason duration exact now_ms
            d.store
          ≡ stored (ok cidrs, daemon.1.store))
        × (daemon.0 ≡ banned (length cidrs) cidrs)
  unfolding exec_cli_ban exec_ban
  exec_cli_ban-exec_ban targets reason duration exact now_ms secs d h e =
      let done = ban_targets net phylax reason now_ms (expiry now_ms secs) exact targets d in
      (
        done.0,
        rw e (
            ap (λ a. stored a)
              (store_bans-ban_targets reason now_ms (expiry now_ms secs) exact targets d h)),
        refl,
      )
