-- ===== src/Defense/Boot/Restored.antt =====
-- src/defense.rs, src/proxy/mod.rs and src/quarantine/mod.rs: whom the perimeter trusts and bans once
-- it is built.
use propylea.Config.{SecurityConfig}
use mathlib.Core.Path.{subst}
use propylea.Quarantine.Net.{NetApi, QuarantineApi}
use propylea.Quarantine.Store.{QuarantineRecord, QuarantineStore, get_active_bans}
use propylea.Quarantine.Manager.Rehydration.{parsed_bans, rehydrate-replay, replay}
use propylea.Defense.Shield.{ShieldApi}
use propylea.Defense.{is_trusted}
use propylea.Defense.Boot.{
  BuiltDefense, build_edge_defense, in_memory_only, new_defense, on_opened, or_host, push_net,
  trusted_nets,
}
use propylea.Prelude.{
  Bool, List, Option, Text, [], any, ap, false, if◌then◌else◌, none, ok, refl, some, sym, true, ℕ,
  ◌||◌, ◌∙◌, ◌∷◌, ◌≡◌,
}

module _ (net : NetApi) (phylax : ShieldApi net) where
  -- A configured text trusts an address: as a network that holds it, or as an address whose own
  -- network does.
  abbrev pub trusts : net.IpAddr → Text → Bool
  trusts ip cidr = elim (net.parse_net cidr) [
    | some n ↦ net.contains_addr n ip
    | none ↦ elim (net.parse_addr cidr) [
      | some addr ↦ net.contains_addr (net.host_net addr) ip
      | none ↦ false
    ]
  ]

  any-push_net :
      (ip : net.IpAddr) (n : Option net.IpNet) (a : Option net.IpAddr) (rest : List net.IpNet)
      → any (λ m. net.contains_addr m ip) (push_net net phylax (or_host net phylax n a) rest) ≡ (
          (elim n [
            | some m ↦ net.contains_addr m ip
            | none ↦ elim a [ some addr ↦ net.contains_addr (net.host_net addr) ip | none ↦ false ]
          ])
          || any (λ m. net.contains_addr m ip) rest)
  any-push_net ip (some m) a rest = refl
  any-push_net ip none (some addr) rest = refl
  any-push_net ip none none rest = refl

  any-trusted_nets :
      (ip : net.IpAddr) (cidrs : List Text)
      → any (λ m. net.contains_addr m ip) (trusted_nets net phylax cidrs) ≡ any (trusts ip) cidrs
  unfolding trusted_nets
  any-trusted_nets ip [] = refl
  any-trusted_nets ip (cidr ∷ cidrs) =
      any-push_net ip (net.parse_net cidr) (net.parse_addr cidr) (trusted_nets net phylax cidrs)
      ∙ ap (λ b. trusts ip cidr || b) (any-trusted_nets ip cidrs)

  module _ (quarantine : QuarantineApi net) where
    -- The perimeter trusts whom the configuration names, and bans whom the database lists.
    pub record IsRestored (config : SecurityConfig) (now_ms : ℕ) (before : QuarantineStore)
        (engine : quarantine.Engine) (p : BuiltDefense net phylax quarantine) : Type 0 where
      pub trusted :
          (ip : net.IpAddr)
          → is_trusted net phylax p.defense ip ≡ any (trusts ip) config.trusted_cidrs
      pub persists : p.defense.has_manager ≡ true
      pub found : List QuarantineRecord
      pub listed : (get_active_bans now_ms before).0 ≡ ok found
      pub replayed : p.engine ≡ replay net quarantine (parsed_bans net quarantine found) engine

    -- Where persistence is on, the database opens and does not fail, the perimeter that is built at
    -- boot trusts exactly the addresses of the configured networks and addresses, queues its bans for
    -- the database, and has replayed every active and unexpired ban whose CIDR reads into its engine,
    -- with its own expiry.
    pub build-IsRestored :
        (config : SecurityConfig) (engine : quarantine.Engine) (now_ms : ℕ)
        (store : QuarantineStore)
        → config.persist_quarantine ≡ true
        → store.outcomes ≡ []
        → IsRestored config now_ms store engine
            (build_edge_defense net phylax quarantine config engine now_ms (ok store))
    unfolding build_edge_defense new_defense is_trusted
    build-IsRestored config engine now_ms store on quiet =
        let (found, listed, counted, replayed) =
          rehydrate-replay net quarantine now_ms store engine quiet in
        let restored : IsRestored config now_ms store engine
            (on_opened net phylax quarantine config engine now_ms (ok store)) =
          record {
            trusted = λ ip. any-trusted_nets ip config.trusted_cidrs;
            persists = refl;
            found = found;
            listed = listed;
            replayed = replayed;
          } in
        subst
          (λ (b : Bool). IsRestored config now_ms store engine (
            if b
            then on_opened net phylax quarantine config engine now_ms (ok store)
            else in_memory_only net phylax quarantine config engine))
          (sym on) restored
