-- ===== src/Quarantine/Ingest/Chunked.antt =====
-- src/quarantine/cli/parsers.rs: banning in chunks is banning at once.
use propylea.Quarantine.Ingest.{
  CliIngest, and_later, ban_chunks, chunks, chunks_from, exec_cli_ingest, ingest_lines, no_targets,
  stored, with_cidrs, with_duration,
}
use propylea.Quarantine.Net.{NetApi, QuarantineApi}
use propylea.Quarantine.Store.{Answer, QuarantineStore, record_ban}
use propylea.Quarantine.Targets.{parse_duration_str, resolve_target_cidr}
use propylea.Quarantine.Targets.Duration.{parse_duration-to_decimal}
use propylea.Quarantine.Ipc.{expiry}
use propylea.Quarantine.Offline
use propylea.Quarantine.Offline.{
  ban_for, cli_record, collect_targets, exec_cli_ban, store_bans, then_stored,
}
use propylea.Prelude.{
  Bool, List, Option-cases, Text, [], all, ap, append_assoc, err, false, if◌then◌else◌, inl, inr,
  is_empty, ok, refl, suc, sym, to_decimal, u64_mod, zero, ℕ, ◌++◌, ◌-◌, ◌<◌, ◌>>=◌, ◌∙◌, ◌∷◌, ◌≡◌,
}

-- The chunks, one behind the other.
abbrev pub joined {ℓ} : {A : Type ℓ} → List (List A) → List A
joined [] = []
joined (chunk ∷ rest) = chunk ++ joined rest

joined-chunks_from {ℓ} :
    {A : Type ℓ} (size room : ℕ) (chunk xs : List A)
    → joined (chunks_from size room chunk xs) ≡ chunk ++ xs
unfolding chunks_from
joined-chunks_from size room chunk [] = refl
joined-chunks_from size zero chunk (x ∷ xs) =
    ap (λ t. chunk ++ t) (joined-chunks_from size (size - 1) (x ∷ []) xs)
joined-chunks_from size (suc room) chunk (x ∷ xs) =
    joined-chunks_from size room (chunk ++ (x ∷ [])) xs ∙ append_assoc chunk (x ∷ []) xs

joined-chunks {ℓ} : {A : Type ℓ} (size : ℕ) (xs : List A) → joined (chunks size xs) ≡ xs
unfolding chunks
joined-chunks size [] = refl
joined-chunks size (x ∷ xs) = joined-chunks_from size (size - 1) (x ∷ []) xs

-- What some bans leave, and the bans that follow where they succeed.
abbrev after_bans : Answer (List Text) → (QuarantineStore → Answer (List Text)) → Answer (List Text)
after_bans (err e, st) later = (err e, st)
after_bans (ok cidrs, st) later =
    let rest = later st in ((rest.0 >>= λ more. ok (cidrs ++ more)), rest.1)

after_none :
    (st : QuarantineStore) (later : QuarantineStore → Answer (List Text))
    → after_bans (ok [], st) later ≡ later st
after_none st later = kept (later st)
  where
    kept : (a : Answer (List Text)) → ((a.0 >>= λ more. ok more), a.1) ≡ a
    kept (ok cidrs, st) = refl
    kept (err e, st) = refl

module _ (net : NetApi) (phylax : QuarantineApi net) where
  abbrev prefixed : Text → Answer (List Text) → Answer (List Text)
  prefixed cidr a = ((a.0 >>= λ cidrs. ok (cidr ∷ cidrs)), a.1)

  after-prefixed :
      (cidr : Text) (a : Answer (List Text)) (later : QuarantineStore → Answer (List Text))
      → prefixed cidr (after_bans a later) ≡ after_bans (prefixed cidr a) later
  after-prefixed cidr (err e, st) later = refl
  after-prefixed cidr (ok cidrs, st) later = again (later st)
    where
      again :
          (a : Answer (List Text))
          → prefixed cidr ((a.0 >>= λ more. ok (cidrs ++ more)), a.1)
            ≡ ((a.0 >>= λ more. ok (cidr ∷ (cidrs ++ more))), a.1)
      again (ok more, st) = refl
      again (err e, st) = refl

  stored-after :
      (cidr : Text) (first all : QuarantineStore → Answer (List Text))
      (later : QuarantineStore → Answer (List Text)) (a : Answer (Unit {0}))
      → ((st : QuarantineStore) → all st ≡ after_bans (first st) later)
      → then_stored net phylax cidr all a ≡ after_bans (then_stored net phylax cidr first a) later
  stored-after cidr first all later (err e, st) h = refl
  stored-after cidr first all later (ok u, st) h =
      ap (prefixed cidr) (h st) ∙ after-prefixed cidr (first st) later

  store_bans-append :
      (reason : Text) (now_ms expires_at : ℕ) (exact : Bool) (xs ys : List Text)
      (st : QuarantineStore)
      → store_bans net phylax reason now_ms expires_at exact (xs ++ ys) st
        ≡ after_bans
            (store_bans net phylax reason now_ms expires_at exact xs st)
            (store_bans net phylax reason now_ms expires_at exact ys)
  unfolding store_bans
  store_bans-append reason now_ms expires_at exact [] ys st =
      sym (after_none st (store_bans net phylax reason now_ms expires_at exact ys))
  store_bans-append reason now_ms expires_at exact (x ∷ xs) ys st =
      elim (Option-cases (resolve_target_cidr net phylax x exact)) [
        | inl e ↦ rw (e, store_bans) (store_bans-append reason now_ms expires_at exact xs ys st)
        | inr (found, e) ↦
            rw (e, store_bans)
              (stored-after (net.net_text found.0)
                (store_bans net phylax reason now_ms expires_at exact xs)
                (store_bans net phylax reason now_ms expires_at exact (xs ++ ys))
                (store_bans net phylax reason now_ms expires_at exact ys)
                (record_ban (cli_record net reason now_ms expires_at found) st)
                (store_bans-append reason now_ms expires_at exact xs ys))
      ]

  later-stored :
      (st : QuarantineStore) (a : Answer (List Text)) (later : QuarantineStore → CliIngest)
      (bans : QuarantineStore → Answer (List Text))
      → ((st' : QuarantineStore) → later st' ≡ stored (bans st'))
      → and_later st (Offline.stored a) later ≡ stored (after_bans a bans)
  later-stored st (err e, st') later bans h = refl
  later-stored st (ok cidrs, st') later bans h = ap (with_cidrs cidrs) (h st') ∙ again (bans st')
    where
      again :
          (a : Answer (List Text))
          → with_cidrs cidrs (stored a) ≡ stored ((a.0 >>= λ more. ok (cidrs ++ more)), a.1)
      again (ok more, st) = refl
      again (err e, st) = refl

  ban_chunks-store_bans :
      (reason : Text) (secs now_ms : ℕ) (exact : Bool) (parts : List (List Text))
      (st : QuarantineStore)
      → secs < u64_mod
      → ban_chunks net phylax false reason secs exact now_ms parts st
        ≡ stored (store_bans net phylax reason now_ms (expiry now_ms secs) exact (joined parts) st)
  unfolding ban_chunks
  ban_chunks-store_bans reason secs now_ms exact [] st h = unfold store_bans in refl
  ban_chunks-store_bans reason secs now_ms exact (part ∷ parts) st h =
      let bans = λ (targets : List Text).
        store_bans net phylax reason now_ms (expiry now_ms secs) exact targets in
      let one : exec_cli_ban net phylax false part reason (to_decimal secs) exact now_ms st
          ≡ Offline.stored (bans part st) =
        unfold exec_cli_ban in
        ap (ban_for net phylax false part reason exact now_ms st)
          (parse_duration-to_decimal secs h) in
      ap (λ b. and_later st b (ban_chunks net phylax false reason secs exact now_ms parts)) one
      ∙ later-stored st (bans part st) (ban_chunks net phylax false reason secs exact now_ms parts)
          (bans (joined parts)) (λ st'. ban_chunks-store_bans reason secs now_ms exact parts st' h)
      ∙ ap (λ a. stored a)
          (sym (store_bans-append reason now_ms (expiry now_ms secs) exact part (joined parts) st))

  -- With no daemon running, an ingest that finds targets bans them in chunks of 500 as one ban of
  -- all of them would: with the same tables, the same CIDRs answered and the same error where the
  -- database fails; the duration is printed for each chunk and read back.
  pub exec_cli_ingest-store_bans :
      (lines : List Text) (reason duration : Text) (exclude : List Text) (exact : Bool)
      (now_ms secs : ℕ) (st : QuarantineStore)
      → parse_duration_str duration ≡ ok secs
      → secs < u64_mod
      → is_empty (collect_targets net exclude lines []) ≡ false
      → exec_cli_ingest net phylax false (ok lines) reason duration exclude exact now_ms st
        ≡ stored (
            store_bans net phylax reason now_ms
              (expiry now_ms secs)
              exact
              (collect_targets net exclude lines [])
              st)
  unfolding exec_cli_ingest
  exec_cli_ingest-store_bans lines reason duration exclude exact now_ms secs st parsed small
        some_found =
      let targets = collect_targets net exclude lines [] in
      ap
        (λ d.
          with_duration net phylax d
            (ingest_lines net phylax false reason exclude exact now_ms st (ok lines)))
        parsed
      ∙ ap
          (λ (b : Bool).
            if b
            then no_targets
            else ban_chunks net phylax false reason secs exact now_ms (chunks 500 targets) st)
          some_found
      ∙ ban_chunks-store_bans reason secs now_ms exact (chunks 500 targets) st small
      ∙ ap (λ ts. stored (store_bans net phylax reason now_ms (expiry now_ms secs) exact ts st))
          (joined-chunks 500 targets)
