-- ===== src/Quarantine/Commands/Unban.antt =====
-- src/quarantine/cli/mod.rs and src/quarantine/ipc.rs: an unban by the command line on the database
-- against the same unban by the daemon.
use mathlib.Core.Path.{subst}
use propylea.Quarantine.Commands.{then_unbanned, unban_offline}
use propylea.Quarantine.Net.{NetApi, QuarantineApi}
use propylea.Quarantine.Store
use propylea.Quarantine.Store.{
  Answer, QuarantineRecord, QuarantineStore, deactivate, deactivate_each, later_outcomes, lift_bans,
  log_event, next_outcome, unban_targets,
}
use propylea.Quarantine.Store.Rows.{transaction-none}
use propylea.Quarantine.Store.Bans.{deactivate_each-rows, lift_ban}
use propylea.Quarantine.Ipc.{Daemon, exec_unban, unban_each, unban_found}
use propylea.Prelude.{
  List, Text, [], ap, codes, err, length, map, ok, refl, sym, ℕ, ◌++◌, ◌+◌, ◌∙◌, ◌∷◌, ◌≡◌,
}

deactivate_each-outcomes :
    (details : Text) (now_ms : ℕ) (cs : List Text) (st : QuarantineStore)
    → (deactivate_each details now_ms cs st).outcomes ≡ st.outcomes
unfolding deactivate_each log_event
deactivate_each-outcomes details now_ms [] st = refl
deactivate_each-outcomes details now_ms (c ∷ cs) st =
    deactivate_each-outcomes details now_ms cs
      (log_event (codes "unbanned") c now_ms details (record st { rows = deactivate c st.rows }))

module _ (net : NetApi) where
  -- What an unban on a database that does not fail answers and leaves, whatever it logs.
  unban-quiet :
      (target details : Text) (now_ms : ℕ) (st : QuarantineStore)
      → st.outcomes ≡ []
      → let done = Store.unban net target details now_ms st in
        (done.0 ≡ ok (unban_targets net target st.rows))
        × (done.1.rows ≡ map (lift_ban (unban_targets net target st.rows)) st.rows)
        × (done.1.outcomes ≡ [])
  unfolding Store.unban lift_bans
  unban-quiet target details now_ms st quiet =
      let cs = unban_targets net target st.rows in
      let start : QuarantineStore = record st { outcomes = later_outcomes st.outcomes } in
      let done =
        transaction-none st (lift_bans net target details now_ms) (ap next_outcome quiet) in
      (
        ap (λ a. a.0) done,
        ap (λ a. a.1.rows) done ∙ deactivate_each-rows details now_ms cs start,
        ap (λ a. a.1.outcomes) done
            ∙ deactivate_each-outcomes details now_ms cs start
            ∙ ap later_outcomes quiet,
      )

  module _ (phylax : QuarantineApi net) where
    -- The answer is a success that leaves these rows.
    abbrev pub LeavesRows : Answer (ℕ × List Text) → List QuarantineRecord → Type 0
    LeavesRows answer rows =
        (found : ℕ × List Text) × (answer.0 ≡ ok found) × (answer.1.rows ≡ rows)

    then_unbanned-LeavesRows :
        (a : Answer (List Text)) (next : List Text → QuarantineStore → Answer (ℕ × List Text))
        (rows : List QuarantineRecord) (found : List Text)
        → a.0 ≡ ok found
        → LeavesRows (next found a.1) rows
        → LeavesRows (then_unbanned net a next) rows
    then_unbanned-LeavesRows (err x, st) next rows found e h = cc
    then_unbanned-LeavesRows (ok more, st) next rows found e h =
        let same : more ≡ found = cc in
        subst (λ (f : List Text). LeavesRows (next f st) rows) (sym same) h

    unban_offline-unban_each :
        (targets : List Text) (now_ms total total' : ℕ) (cidrs cidrs' : List Text)
        (st : QuarantineStore) (d : Daemon net phylax)
        → st.outcomes ≡ []
        → d.store.outcomes ≡ []
        → st.rows ≡ d.store.rows
        → LeavesRows
            (unban_offline net now_ms total cidrs targets st)
            (unban_each net phylax now_ms total' cidrs' targets d).1.store.rows
    unfolding unban_offline unban_each
    unban_offline-unban_each [] now_ms total total' cidrs cidrs' st d q q' same =
        ((total, cidrs), refl, same)
    unban_offline-unban_each (target ∷ targets) now_ms total total' cidrs cidrs' st d q q' same =
        let here = Store.unban net target (codes "Offline CLI unban") now_ms st in
        let there = Store.unban net target (codes "Live IPC command") now_ms d.store in
        let (found, rows, quiet) = unban-quiet target (codes "Offline CLI unban") now_ms st q in
        let (found', rows', quiet') =
          unban-quiet target (codes "Live IPC command") now_ms d.store q' in
        let rest =
          unban_each net phylax now_ms
            (total' + (unban_found net phylax target (phylax.unban target d.engine).0 there.0).0)
            (cidrs' ++ (unban_found net phylax target (phylax.unban target d.engine).0 there.0).1)
            targets (record { engine = (phylax.unban target d.engine).1; store = there.1 }) in
        then_unbanned-LeavesRows here
          (λ more. unban_offline net now_ms (total + length more) (cidrs ++ more) targets)
          rest.1.store.rows (unban_targets net target st.rows) found
          (unban_offline-unban_each targets now_ms
            (total + length (unban_targets net target st.rows))
            (total' + (unban_found net phylax target (phylax.unban target d.engine).0 there.0).0)
            (cidrs ++ unban_targets net target st.rows)
            (cidrs' ++ (unban_found net phylax target (phylax.unban target d.engine).0 there.0).1)
            here.1 (record { engine = (phylax.unban target d.engine).1; store = there.1 }) quiet
            quiet'
            (rows ∙ ap (λ rs. map (lift_ban (unban_targets net target rs)) rs) same ∙ sym rows'))

    -- Where the database does not fail, an unban by the command line with no daemon running succeeds
    -- and leaves the same rows as the daemon would have left on the same database; the two logs name
    -- their own source.
    pub unban_offline-exec_unban :
        (targets : List Text) (now_ms : ℕ) (d : Daemon net phylax)
        → d.store.outcomes ≡ []
        → LeavesRows
            (unban_offline net now_ms 0 [] targets d.store)
            (exec_unban net phylax targets now_ms d).1.store.rows
    unfolding exec_unban
    unban_offline-exec_unban targets now_ms d quiet =
        unban_offline-unban_each targets now_ms 0 0 [] [] d.store d quiet quiet refl
