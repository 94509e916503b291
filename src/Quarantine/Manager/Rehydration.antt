-- ===== src/Quarantine/Manager/Rehydration.antt =====
-- src/quarantine/mod.rs: what a restart gives back to the engine.
use propylea.Quarantine.Net.{NetApi, QuarantineApi}
use propylea.Quarantine.Store.{
  Answer, QuarantineRecord, QuarantineStore, get_active_bans, select_active,
}
use propylea.Quarantine.Store.Succession.{get_active_bans-nil}
use propylea.Quarantine.Manager.{add_bans, rehydrate_with_timestamp, rehydrated}
use propylea.Prelude.{
  List, Option, Option-cases, [], err, inl, inr, length, none, ok, refl, some, ℕ, ◌∷◌, ◌≡◌,
}

module _ (net : NetApi) (phylax : QuarantineApi net) where
  -- Bans reach the engine through the same call, one after the other.
  unfoldable pub replay : List (net.IpNet × ℕ) → phylax.Engine → phylax.Engine
  replay [] engine = engine
  replay ((n, expires_at) ∷ bans) engine = replay bans (phylax.add_ban n expires_at engine)

  abbrev parsed_ban : ℕ → Option net.IpNet → List (net.IpNet × ℕ) → List (net.IpNet × ℕ)
  parsed_ban expires_at none rest = rest
  parsed_ban expires_at (some n) rest = (n, expires_at) ∷ rest

  unfoldable pub parsed_bans : List QuarantineRecord → List (net.IpNet × ℕ)
  parsed_bans [] = []
  parsed_bans (rec ∷ records) =
      parsed_ban rec.expires_at (net.parse_net rec.cidr) (parsed_bans records)

  add_bans-replay :
      (records : List QuarantineRecord) (engine : phylax.Engine)
      → add_bans net phylax records engine ≡ replay (parsed_bans records) engine
  unfolding add_bans replay parsed_bans
  add_bans-replay [] engine = refl
  add_bans-replay (rec ∷ records) engine = elim (Option-cases (net.parse_net rec.cidr)) [
    | inl e ↦ rw (e, add_bans, parsed_bans) (add_bans-replay records engine)
    | inr (n, e) ↦
        rw (e, add_bans, parsed_bans)
          (add_bans-replay records (phylax.add_ban n rec.expires_at engine))
  ]

  rehydrated-ok :
      (engine : phylax.Engine) (a : Answer (List QuarantineRecord)) {found : List QuarantineRecord}
      → a.0 ≡ ok found
      → ((rehydrated net phylax engine a).0.0 ≡ ok (length found))
        × ((rehydrated net phylax engine a).1 ≡ replay (parsed_bans found) engine)
  rehydrated-ok engine (ok rs, st) {found = found} h =
      let same : rs ≡ found = cc in rw (same) (refl, add_bans-replay found engine)
  rehydrated-ok engine (err e, st) h = cc

  -- Where the database does not fail, a restart replays into the engine, newest first, each
  -- active and unexpired ban whose CIDR reads, with its own expiry, and answers the number of
  -- active records, those whose CIDR does not read included.
  pub rehydrate-replay :
      (now_ms : ℕ) (st : QuarantineStore) (engine : phylax.Engine)
      → st.outcomes ≡ []
      → (found : List QuarantineRecord) × ((get_active_bans now_ms st).0 ≡ ok found)
        × ((rehydrate_with_timestamp net phylax now_ms st engine).0.0 ≡ ok (length found))
        × ((rehydrate_with_timestamp net phylax now_ms st engine).1
            ≡ replay (parsed_bans found) engine)
  unfolding rehydrate_with_timestamp
  rehydrate-replay now_ms st engine h =
      let found = select_active now_ms st.rows in
      let listed = get_active_bans-nil now_ms st h in
      let (counted, replayed) = rehydrated-ok engine (get_active_bans now_ms st) listed in
      (found, listed, counted, replayed)
