-- ===== src/Proxy/System/Sound.antt =====
-- src/proxy/mod.rs, src/maintenance.rs and src/quarantine/: what holds of the daemon at any time.
use propylea.Proxy.System.Preserved.{
  IsSound, accept-IsSound, answer-IsSound, booted-IsSound, decide-IsSound, drop-IsSound,
  left_waiting, persist-IsSound, shield-IsSound, tidy-IsSound,
}
use propylea.Proxy.System.{
  Reaches, System, abandoned, accepted, answered, at_boot, closed, commanded, decided, persisted,
  shielded, tidied,
}
use propylea.Proxy.{ProxyState}
use propylea.Http.{HeaderApi}
use propylea.Quarantine.Net.{NetApi}
use propylea.Quarantine.Store.{QuarantineRecord}
use propylea.Quarantine.Store.History.{Step-IsConsistent}
use propylea.Defense.Shield.{ShieldApi}
use propylea.Prelude.{List, ℕ}

module _ (api : HeaderApi) (net : NetApi) (phylax : ShieldApi net) where
  -- In every state that the daemon reaches by accepting and closing connections, deciding about
  -- requests, answering them when their upstream has answered or abandoning them, persisting bans,
  -- commands from the control socket, changes of the shield and hygiene passes, in whatever order:
  -- the counters are the open and the accepted connections at 64 bits, the telemetry has kept its
  -- capacity and is within it (or within one entry), the bans that the requests called for are, in
  -- order, those that the persistence worker has taken up and behind them those that wait, which are
  -- active and for 24 hours, every request that waits for an upstream is one that may be handed on
  -- (its framing, headers and route, and the perimeter as it was when this was decided), and the
  -- database has one row for each CIDR and a log numbered without gaps.
  pub Reaches-IsSound :
      (st : ProxyState api net phylax) (capacity n : ℕ) (due written : List QuarantineRecord)
      (s : System api net phylax)
      → Reaches api net phylax st capacity n due written s
      → IsSound api net phylax st n due written capacity s
  Reaches-IsSound st capacity _ _ _ _ (at_boot {store} shield earlier) =
      booted-IsSound api net phylax st capacity shield store earlier
  Reaches-IsSound st capacity _ _ _ _ (accepted {n} {due} {written} {s} conn r) =
      accept-IsSound api net phylax st capacity n due written conn s
        (Reaches-IsSound st capacity n due written s r)
  Reaches-IsSound st capacity _ _ _ _ (decided {n} {due} {written} {s} req clock on_open r) =
      decide-IsSound api net phylax st capacity n due written req clock s
        (Reaches-IsSound st capacity n due written s r)
  Reaches-IsSound st capacity _ _ _ _
        (answered {n} {due} {written} {s} nw before after w clock same r) =
      answer-IsSound api net phylax st capacity n due written nw before after w clock s same
        (Reaches-IsSound st capacity n due written s r)
  Reaches-IsSound st capacity _ _ _ _ (abandoned {n} {due} {written} {s} before after w same r) =
      let h = Reaches-IsSound st capacity n due written s r in
      record {
        kept = h.kept;
        may_wait = left_waiting api net phylax st capacity n due written before after w s same h;
        none_lost = h.none_lost;
        consistent = h.consistent;
      }
  Reaches-IsSound st capacity _ _ _ _ (closed {n} {due} {written} {s} before after conn same r) =
      drop-IsSound api net phylax st capacity n due written before after conn s same
        (Reaches-IsSound st capacity n due written s r)
  Reaches-IsSound st capacity _ _ _ _ (persisted {n} {due} {written} {s} rec queue same r) =
      persist-IsSound api net phylax st capacity n due written rec queue s same
        (Reaches-IsSound st capacity n due written s r)
  Reaches-IsSound st capacity _ _ _ _ (commanded {n} {due} {written} {s} shield store step r) =
      let h =
        shield-IsSound api net phylax st capacity n due written shield s
          (Reaches-IsSound st capacity n due written s r) in
      record {
        kept = h.kept;
        may_wait = h.may_wait;
        none_lost = h.none_lost;
        consistent = Step-IsConsistent net s.store store step h.consistent;
      }
  Reaches-IsSound st capacity _ _ _ _ (shielded {n} {due} {written} {s} shield r) =
      shield-IsSound api net phylax st capacity n due written shield s
        (Reaches-IsSound st capacity n due written s r)
  Reaches-IsSound st capacity _ _ _ _ (tidied {n} {due} {written} {s} r) =
      tidy-IsSound api net phylax st capacity n due written s
        (Reaches-IsSound st capacity n due written s r)
