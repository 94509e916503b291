-- ===== src/Quarantine/Net.antt =====
-- What src/quarantine/ uses of the crates `ipnet` and `phylax`, and of the text form of an
-- address, as interfaces. The engine's state is passed on explicitly.
use propylea.Prelude.{Bool, Option, Text, ℕ}

pub record NetApi : Type 1 where
  pub IpNet : Type 0
  pub IpAddr : Type 0
  pub parse_net : Text → Option IpNet
  pub parse_addr : Text → Option IpAddr
  pub contains_addr : IpNet → IpAddr → Bool
  pub same_addr : IpAddr → IpAddr → Bool
  -- The network of one address: `From<IpAddr>`.
  pub host_net : IpAddr → IpNet
  -- `Ipv4Net::new` and `Ipv6Net::new` on the address and this prefix length.
  pub new_net : IpAddr → ℕ → Option IpNet
  pub net_addr : IpNet → IpAddr
  pub is_ipv4 : IpAddr → Bool
  pub net_text : IpNet → Text

-- `phylax::AutonomousQuarantine`
pub record QuarantineApi (net : NetApi) : Type 1 where
  pub Engine : Type 0
  pub derive_quarantine_cidr : Text → Option Text
  pub add_ban : net.IpNet → ℕ → Engine → Engine
  pub unban : Text → Engine → Bool × Engine
  pub unban_all : Engine → Engine
  pub active_bans_count : Engine → ℕ
