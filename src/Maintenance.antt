-- ===== src/Maintenance.antt =====
-- src/maintenance.rs: the governor's counters, which are atomic and wrap at 64 bits. One operation
-- is one step; the clock, the timer and the allocator's trimming are not modelled.
mod Tests
pub mod Connections
use propylea.Prelude.{Bool, true, u64_mod, ℕ, ◌%◌, ◌+◌, ◌-◌}

pub record MaintenanceConfig : Type 0 where
  pub interval_secs : ℕ
  pub max_retained_records : ℕ
  pub memory_vacuum : Bool

unfoldable pub default_maintenance : MaintenanceConfig
default_maintenance = record {
  interval_secs = 300;
  max_retained_records = 10000;
  memory_vacuum = true;
}

pub record GovernorMetrics : Type 0 where
  pub total_hygiene_passes : ℕ
  pub total_connections_served : ℕ
  pub current_active_connections : ℕ
  pub total_trapped_threats : ℕ

abbrev pub initial_metrics : GovernorMetrics
initial_metrics = record {
  total_hygiene_passes = 0;
  total_connections_served = 0;
  current_active_connections = 0;
  total_trapped_threats = 0;
}

-- `fetch_add(1)` and `fetch_sub(1)`
abbrev pub fetch_add : ℕ → ℕ
fetch_add n = (n + 1) % u64_mod

abbrev pub fetch_sub : ℕ → ℕ
fetch_sub n = (n + (u64_mod - 1)) % u64_mod

unfoldable pub register_connection : GovernorMetrics → GovernorMetrics
register_connection m = record m {
  total_connections_served = fetch_add m.total_connections_served;
  current_active_connections = fetch_add m.current_active_connections;
}

unfoldable pub deregister_connection : GovernorMetrics → GovernorMetrics
deregister_connection m = record m {
  current_active_connections = fetch_sub m.current_active_connections;
}

unfoldable pub record_threat : GovernorMetrics → GovernorMetrics
record_threat m = record m { total_trapped_threats = fetch_add m.total_trapped_threats }

unfoldable pub run_hygiene_pass : GovernorMetrics → GovernorMetrics
run_hygiene_pass m = record m { total_hygiene_passes = fetch_add m.total_hygiene_passes }
