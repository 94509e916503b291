-- ===== src/Maintenance/Connections.antt =====
-- src/maintenance.rs: what the counters say of the connections, in any order of the operations.
use propylea.Maintenance.{
  GovernorMetrics, deregister_connection, initial_metrics, record_threat, register_connection,
  run_hygiene_pass,
}
use propylea.Prelude.{arith, refl, u64_mod, ℕ, ◌%◌, ◌+◌, ◌≡◌}

-- The counters reached with so many connections open and so many accepted since the start: only an
-- open connection is closed.
pub data Reaches : ℕ → ℕ → GovernorMetrics → Type 0 where
  at_start : Reaches 0 0 initial_metrics
  registered :
      {opened served : ℕ} {m : GovernorMetrics}
      → Reaches opened served m
      → Reaches (opened + 1) (served + 1) (register_connection m)
  deregistered :
      {opened served : ℕ} {m : GovernorMetrics}
      → Reaches (opened + 1) served m
      → Reaches opened served (deregister_connection m)
  threatened :
      {opened served : ℕ} {m : GovernorMetrics}
      → Reaches opened served m
      → Reaches opened served (record_threat m)
  cleaned :
      {opened served : ℕ} {m : GovernorMetrics}
      → Reaches opened served m
      → Reaches opened served (run_hygiene_pass m)

-- In any order of accepted and closed connections, threats and hygiene passes, the two connection
-- counters are the number of connections that are open and the number that were accepted, both at
-- 64 bits.
pub Reaches-counted :
    (opened served : ℕ) (m : GovernorMetrics)
    → Reaches opened served m
    → (m.current_active_connections ≡ opened % u64_mod)
      × (m.total_connections_served ≡ served % u64_mod)
unfolding register_connection deregister_connection record_threat run_hygiene_pass
Reaches-counted _ _ _ at_start = (refl, refl)
Reaches-counted _ _ _ (registered {opened} {served} {m} r) =
    let (a, b) = Reaches-counted opened served m r in (omega (arith, a), omega (arith, b))
Reaches-counted _ _ _ (deregistered {opened} {served} {m} r) =
    let (a, b) = Reaches-counted (opened + 1) served m r in (omega (arith, a), b)
Reaches-counted _ _ _ (threatened {opened} {served} {m} r) = Reaches-counted opened served m r
Reaches-counted _ _ _ (cleaned {opened} {served} {m} r) = Reaches-counted opened served m r
