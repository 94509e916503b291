-- ===== src/Quarantine/Offline/Ingest.antt =====
-- src/quarantine/cli/parsers.rs: which targets `exec_cli_ingest` collects from a log.
use propylea.Quarantine.Net.{NetApi}
use propylea.Quarantine.Targets.{excluded_by, extract_ips_from_line, is_excluded}
use propylea.Quarantine.Offline.{collect_ips, collect_targets, insert_target, is_eligible}
use propylea.Prelude.{
  All, Bool, Bool-cases, List, Option, Option-cases, Text, [], false, inl, inr, is_empty, none, not,
  refl, some, text_eq, trim, true, ◌∷◌, ◌≡◌, ◌⊎◌,
}

-- The exclusion, as it reads, does not hold the address.
pub Spares : (net : NetApi) → net.IpAddr → Option net.IpNet → Option net.IpAddr → Type 0
Spares net addr (some n) a = net.contains_addr n addr ≡ false
Spares net addr none (some a) = net.same_addr a addr ≡ false
Spares net addr none none = Unit

-- No repetition.
abbrev pub IsDistinct : List Text → Type 0
IsDistinct [] = Unit
IsDistinct (t ∷ ts) = All (λ s. text_eq s t ≡ false) ts × IsDistinct ts

insert_target-All {ℓ} :
    (P : Text → Type ℓ) (s : Text) (ts : List Text) → P s → All P ts → All P (insert_target s ts)
unfolding insert_target
insert_target-All P s [] h a = (h, tt)
insert_target-All P s (t ∷ ts) h (a, rest) = elim (Bool-cases (text_eq s t)) [
  | inl e ↦ rw (e, insert_target) (a, rest)
  | inr e ↦ rw (e, insert_target) (a, insert_target-All P s ts h rest)
]

insert_target-IsDistinct :
    (s : Text) (ts : List Text) → IsDistinct ts → IsDistinct (insert_target s ts)
unfolding insert_target
insert_target-IsDistinct s [] h = (tt, tt)
insert_target-IsDistinct s (t ∷ ts) (a, h) = elim (Bool-cases (text_eq s t)) [
  | inl e ↦ rw (e, insert_target) (a, h)
  | inr e ↦
      rw (e, insert_target)
        (insert_target-All (λ r. text_eq r t ≡ false) s ts e a, insert_target-IsDistinct s ts h)
]

not-true : (b : Bool) → not b ≡ true → b ≡ false
not-true true h = cc
not-true false h = refl

module _ (net : NetApi) where
  pub SparesAll : net.IpAddr → List Text → Type 0
  SparesAll addr exclude =
      All
        (λ ex.
          is_empty (trim ex) ≡ false
          → Spares net addr (net.parse_net (trim ex)) (net.parse_addr (trim ex)))
        exclude

  excluded_by-Spares :
      (addr : net.IpAddr) (ex : Text) (n : Option net.IpNet) (a : Option net.IpAddr)
      → net.parse_addr ex ≡ a
      → excluded_by net addr ex n ≡ false
      → Spares net addr n a
  unfolding Spares
  excluded_by-Spares addr ex (some n) a e h = h
  excluded_by-Spares addr ex none (some a) e h = rw e at h
  excluded_by-Spares addr ex none none e h = tt

  pub is_excluded-SparesAll :
      (addr : net.IpAddr) (exclude : List Text)
      → is_excluded net addr exclude ≡ false
      → SparesAll addr exclude
  unfolding is_excluded SparesAll
  is_excluded-SparesAll addr [] h = tt
  is_excluded-SparesAll addr (ex ∷ excludes) h = elim (Bool-cases (is_empty (trim ex))) [
    | inl e ↦ (λ f. cc, is_excluded-SparesAll addr excludes (rw (e, is_excluded) at h))
    | inr e ↦ elim (Bool-cases (excluded_by net addr (trim ex) (net.parse_net (trim ex)))) [
      | inl x ↦ let clash : true ≡ false = rw (e, x, is_excluded) at h in cc
      | inr x ↦ (
        λ f.
            excluded_by-Spares addr (trim ex) (net.parse_net (trim ex)) (net.parse_addr (trim ex))
              refl x,
        is_excluded-SparesAll addr excludes (rw (e, x, is_excluded) at h),
      )
    ]
  ]

  -- What a collected target may be: an address that every exclusion spares, or a network whose
  -- own address they spare.
  pub IsAllowed : List Text → Text → Type 0
  IsAllowed exclude s =
      ((addr : net.IpAddr) × (net.parse_addr s ≡ some addr) × SparesAll addr exclude)
      ⊎ ((n : net.IpNet) × (net.parse_net s ≡ some n) × SparesAll (net.net_addr n) exclude)

  eligible-IsAllowed :
      (exclude : List Text) (s : Text) → is_eligible net exclude s ≡ true → IsAllowed exclude s
  unfolding IsAllowed
  eligible-IsAllowed exclude s h = elim (Option-cases (net.parse_addr s)) [
    | inr (addr, e) ↦ inl (addr, e, is_excluded-SparesAll addr exclude (not-true _ (rw e at h)))
    | inl e ↦ elim (Option-cases (net.parse_net s)) [
      | inr (n, f) ↦
          inr (n, f, is_excluded-SparesAll (net.net_addr n) exclude (not-true _ (rw (e, f) at h)))
      | inl f ↦ let clash : false ≡ true = rw (e, f) at h in cc
    ]
  ]

  -- What the set of targets keeps.
  pub IsCollected : List Text → List Text → Type 0
  IsCollected exclude ts = All (IsAllowed exclude) ts × IsDistinct ts

  collect_ips-IsCollected :
      (exclude ips ts : List Text)
      → IsCollected exclude ts
      → IsCollected exclude (collect_ips net exclude ips ts)
  unfolding collect_ips IsCollected
  collect_ips-IsCollected exclude [] ts h = h
  collect_ips-IsCollected exclude (s ∷ ips) ts (a, d) =
      elim (Bool-cases (is_eligible net exclude s)) [
        | inl e ↦
            rw (e, collect_ips)
              (collect_ips-IsCollected exclude ips (insert_target s ts) (
                insert_target-All (IsAllowed exclude) s ts (eligible-IsAllowed exclude s e) a,
                insert_target-IsDistinct s ts d,
              ))
        | inr e ↦ rw (e, collect_ips) (collect_ips-IsCollected exclude ips ts (a, d))
      ]

  collect_targets-keeps :
      (exclude lines ts : List Text)
      → IsCollected exclude ts
      → IsCollected exclude (collect_targets net exclude lines ts)
  unfolding collect_targets
  collect_targets-keeps exclude [] ts h = h
  collect_targets-keeps exclude (line ∷ lines) ts h =
      collect_targets-keeps exclude lines
        (collect_ips net exclude (extract_ips_from_line net line) ts)
        (collect_ips-IsCollected exclude (extract_ips_from_line net line) ts h)

  -- Every target that is collected from a log is an address that no exclusion holds, or a network
  -- whose own address none holds, and no target stands twice.
  pub collect_targets-IsCollected :
      (exclude lines : List Text) → IsCollected exclude (collect_targets net exclude lines [])
  unfolding IsCollected
  collect_targets-IsCollected exclude lines = collect_targets-keeps exclude lines [] (tt, tt)
