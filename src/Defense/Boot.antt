-- ===== src/Defense/Boot.antt =====
-- src/defense.rs and src/proxy/mod.rs: the building of the perimeter at boot, from the configuration
-- and the database. The shield's own settings are those of the `phylax` crate; whether the database
-- opens is an argument, and the worker and the control socket that are spawned are left out.
pub mod Restored
mod Tests
use propylea.Config.{SecurityConfig}
use propylea.Quarantine.Net.{NetApi, QuarantineApi}
use propylea.Quarantine.Store.{QuarantineStore, QuarantineStoreError}
use propylea.Quarantine.Manager.{rehydrate_with_timestamp}
use propylea.Defense.Shield.{ShieldApi}
use propylea.Defense.{EdgeDefense}
use propylea.Prelude.{
  List, Option, Result, Text, [], err, false, if◌then◌else◌, none, ok, some, true, ℕ, ◌∷◌,
}

module _ (net : NetApi) (phylax : ShieldApi net) where
  -- A network, or else an address as the network of it alone.
  abbrev pub or_host : Option net.IpNet → Option net.IpAddr → Option net.IpNet
  or_host (some n) addr = some n
  or_host none (some addr) = some (net.host_net addr)
  or_host none none = none

  abbrev pub push_net : Option net.IpNet → List net.IpNet → List net.IpNet
  push_net none rest = rest
  push_net (some n) rest = n ∷ rest

  -- A text that reads as neither is passed over.
  unfoldable pub trusted_nets : List Text → List net.IpNet
  trusted_nets [] = []
  trusted_nets (cidr ∷ cidrs) =
      push_net (or_host (net.parse_net cidr) (net.parse_addr cidr)) (trusted_nets cidrs)

  unfoldable pub new_defense : SecurityConfig → EdgeDefense net phylax
  unfolding trusted_nets
  new_defense config = record {
    has_manager = false;
    trusted_subnets = trusted_nets config.trusted_cidrs;
  }

  abbrev pub with_quarantine_manager : EdgeDefense net phylax → EdgeDefense net phylax
  with_quarantine_manager d = record d { has_manager = true }

  module _ (quarantine : QuarantineApi net) where
    pub record BuiltDefense : Type 0 where
      pub defense : EdgeDefense net phylax
      pub engine : quarantine.Engine
      pub store : Option QuarantineStore

    abbrev in_memory_only : SecurityConfig → quarantine.Engine → BuiltDefense
    in_memory_only config engine = record {
      defense = new_defense config;
      engine = engine;
      store = none;
    }

    -- A database that fails while it is read is only warned about.
    abbrev pub on_opened :
        SecurityConfig
        → quarantine.Engine
        → ℕ
        → Result QuarantineStore QuarantineStoreError
        → BuiltDefense
    on_opened config engine now_ms (err e) = in_memory_only config engine
    on_opened config engine now_ms (ok store) =
        let done = rehydrate_with_timestamp net quarantine now_ms store engine in
        record {
          defense = with_quarantine_manager (new_defense config);
          engine = done.1;
          store = some done.0.1;
        }

    unfoldable pub build_edge_defense :
        SecurityConfig
        → quarantine.Engine
        → ℕ
        → Result QuarantineStore QuarantineStoreError
        → BuiltDefense
    unfolding new_defense rehydrate_with_timestamp
    build_edge_defense config engine now_ms opened =
        if config.persist_quarantine
        then on_opened config engine now_ms opened
        else in_memory_only config engine
