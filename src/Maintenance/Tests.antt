-- ===== src/Maintenance/Tests.antt =====
-- A run of the governor's counters.
use propylea.Prelude.{refl, ◌≡◌}
use propylea.Maintenance.{
  GovernorMetrics, deregister_connection, initial_metrics, register_connection,
}
use propylea.Maintenance.Connections.{Reaches, at_start, deregistered, registered}

-- Two connections, of which one is closed.
abbrev two_then_one : GovernorMetrics
two_then_one = deregister_connection (register_connection (register_connection initial_metrics))

two_then_one_reached : Reaches 1 2 two_then_one
two_then_one_reached = deregistered (registered (registered at_start))

two_then_one_open : two_then_one.current_active_connections ≡ 1
unfolding register_connection deregister_connection
two_then_one_open = refl
