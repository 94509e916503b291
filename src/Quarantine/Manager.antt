-- ===== src/Quarantine/Manager.antt =====
-- src/quarantine/mod.rs: `rehydrate_with_timestamp`, and the worker that drains the queue of
-- records. The clock is an argument.
pub mod Rehydration
use propylea.Quarantine.Net.{NetApi, QuarantineApi}
use propylea.Quarantine.Store.{
  Answer, QuarantineRecord, QuarantineStore, get_active_bans, record_ban,
}
use propylea.Prelude.{List, Option, [], err, length, none, ok, some, ℕ, ◌∷◌}

-- The queue in the order it was sent: a record that the database refuses is dropped.
unfoldable pub run_persistence_worker : List QuarantineRecord → QuarantineStore → QuarantineStore
unfolding record_ban
run_persistence_worker [] st = st
run_persistence_worker (rec ∷ queue) st = run_persistence_worker queue (record_ban rec st).1

module _ (net : NetApi) (phylax : QuarantineApi net) where
  abbrev add_parsed : ℕ → Option net.IpNet → phylax.Engine → phylax.Engine
  add_parsed expires_at none engine = engine
  add_parsed expires_at (some n) engine = phylax.add_ban n expires_at engine

  unfoldable pub add_bans : List QuarantineRecord → phylax.Engine → phylax.Engine
  add_bans [] engine = engine
  add_bans (rec ∷ records) engine =
      add_bans records (add_parsed rec.expires_at (net.parse_net rec.cidr) engine)

  abbrev pub rehydrated : phylax.Engine → Answer (List QuarantineRecord) → Answer ℕ × phylax.Engine
  rehydrated engine (err e, st) = ((err e, st), engine)
  rehydrated engine (ok active_records, st) =
      ((ok (length active_records), st), add_bans active_records engine)

  unfoldable pub rehydrate_with_timestamp :
      ℕ → QuarantineStore → phylax.Engine → Answer ℕ × phylax.Engine
  unfolding get_active_bans add_bans
  rehydrate_with_timestamp now_ms st engine = rehydrated engine (get_active_bans now_ms st)
