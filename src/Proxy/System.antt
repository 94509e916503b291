-- ===== src/Proxy/System.antt =====
-- src/proxy/mod.rs with src/quarantine/mod.rs and src/maintenance.rs: the running daemon, in which the
-- accept loop, the requests of many connections, the persistence worker, the control socket and the
-- hygiene worker take turns. A request takes two steps: what is decided about it, with no wait in
-- between, and later, when its upstream has answered, what is made of the answer; in between the
-- other tasks go on, and the shield's state may change in any way.
pub mod Kept
pub mod Due
pub mod Preserved
pub mod Sound
mod Tests
use propylea.Proxy.{Decision, Live, ProxyRequest, ProxyState, handle_proxy_request_with_tls}
use propylea.Proxy.Serve.{Clock, Network, forward_http_request, handle_websocket_upgrade, respond}
use propylea.Http.{HeaderApi}
use propylea.Proxy.System.Due.{called_for}
use propylea.TlsFingerprint.{ClientTlsProfile}
use propylea.Telemetry
use propylea.Maintenance.{
  deregister_connection, initial_metrics, register_connection, run_hygiene_pass,
}
use propylea.Quarantine.Net.{NetApi}
use propylea.Quarantine.Store.{QuarantineRecord, QuarantineStore, in_memory, record_ban}
use propylea.Quarantine.Store.History
use propylea.Defense.Shield.{ShieldApi}
use mathlib.Core.List.{Mem}
use propylea.Prelude.{List, Option, [], ℕ, ◌++◌, ◌+◌, ◌∷◌, ◌≡◌}

module _ (api : HeaderApi) (net : NetApi) (phylax : ShieldApi net) where
  -- What the task of a connection keeps: the peer, and the profile of its ClientHello.
  pub record Connection : Type 0 where
    pub peer : net.IpAddr
    pub profile : Option ClientTlsProfile

  pub record System : Type 0 where
    pub live : Live api net phylax
    pub connections : List Connection
    -- The requests whose upstream has not answered, each with what was decided about it.
    pub pending : List (ProxyRequest api net phylax × Decision api net phylax)
    pub store : QuarantineStore

  abbrev pub connection_of : ProxyRequest api net phylax → Connection
  connection_of req = record { peer = req.client_ip; profile = req.tls_profile }

  abbrev pub booted : ℕ → phylax.State → QuarantineStore → System
  booted capacity shield store = record {
    live = record {
      governor = initial_metrics;
      telemetry = Telemetry.new capacity;
      perimeter = record { shield = shield; queue = [] };
    };
    connections = [];
    pending = [];
    store = store;
  }

  unfoldable pub accept_connection : Connection → System → System
  unfolding register_connection
  accept_connection conn s = record s {
    live = record s.live { governor = register_connection s.live.governor };
    connections = conn ∷ s.connections;
  }

  -- The drop of the connection's guard; these are the connections that are left.
  unfoldable pub drop_connection : List Connection → System → System
  unfolding deregister_connection
  drop_connection others s = record s {
    live = record s.live { governor = deregister_connection s.live.governor };
    connections = others;
  }

  unfoldable pub decide_on :
      ProxyState api net phylax → ProxyRequest api net phylax → Clock → System → System
  unfolding handle_proxy_request_with_tls
  decide_on st req clock s =
      let done =
        handle_proxy_request_with_tls api net phylax st req clock.received_ms clock.decided_us
          s.live in
      record s { live = done.1; pending = (req, done.0) ∷ s.pending }

  -- The answer to a request that waits; these are the requests that still wait.
  unfoldable pub answer_on :
      ProxyState api net phylax
      → Network api net phylax
      → ProxyRequest api net phylax × Decision api net phylax
      → List (ProxyRequest api net phylax × Decision api net phylax)
      → Clock
      → System
      → System
  unfolding handle_websocket_upgrade forward_http_request
  answer_on st nw (req, decision) others clock s = record s {
    live = (respond api net phylax st nw req clock (decision, s.live)).1;
    pending = others;
  }

  -- The shield, as other tasks that share it have left it.
  abbrev pub with_shield : phylax.State → System → System
  with_shield shield s = record s {
    live = record s.live { perimeter = record s.live.perimeter { shield = shield } };
  }

  -- One round of the persistence worker, on the record at the head of the queue.
  unfoldable pub persist : QuarantineRecord → List QuarantineRecord → System → System
  unfolding record_ban
  persist rec queue s = record s {
    live = record s.live { perimeter = record s.live.perimeter { queue = queue } };
    store = (record_ban rec s.store).1;
  }

  unfoldable pub tidy : System → System
  unfolding run_hygiene_pass
  tidy s = record s { live = record s.live { governor = run_hygiene_pass s.live.governor } }

  -- The states that are reached after so many accepted connections, these bans that were called for
  -- by the requests decided about, in order, and these records that the persistence worker has taken
  -- up, with any upstreams, from a database that earlier runs have left. A command changes the database by one call and the engine,
  -- which is part of the shield's state, in any way.
  pub data Reaches (st : ProxyState api net phylax) (capacity : ℕ)
      : ℕ → List QuarantineRecord → List QuarantineRecord → System → Type 0 where
    at_boot :
        {store : QuarantineStore} (shield : phylax.State)
        → History.Reaches net in_memory store
        → Reaches st capacity 0 [] [] (booted capacity shield store)
    accepted :
        {n : ℕ} {due written : List QuarantineRecord} {s : System} (conn : Connection)
        → Reaches st capacity n due written s
        → Reaches st capacity (n + 1) due written (accept_connection conn s)
    decided :
        {n : ℕ} {due written : List QuarantineRecord} {s : System}
        (req : ProxyRequest api net phylax) (clock : Clock)
        → Mem (connection_of req) s.connections
        → Reaches st capacity n due written s
        → Reaches st capacity n
            (due ++ called_for api net phylax st req clock.received_ms)
            written
            (decide_on st req clock s)
    answered :
        {n : ℕ} {due written : List QuarantineRecord} {s : System} (nw : Network api net phylax)
        (before after : List (ProxyRequest api net phylax × Decision api net phylax))
        (waiting : ProxyRequest api net phylax × Decision api net phylax) (clock : Clock)
        → s.pending ≡ before ++ (waiting ∷ after)
        → Reaches st capacity n due written s
        → Reaches st capacity n due written (answer_on st nw waiting (before ++ after) clock s)
    abandoned :
        {n : ℕ} {due written : List QuarantineRecord} {s : System}
        (before after : List (ProxyRequest api net phylax × Decision api net phylax))
        (waiting : ProxyRequest api net phylax × Decision api net phylax)
        → s.pending ≡ before ++ (waiting ∷ after)
        → Reaches st capacity n due written s
        → Reaches st capacity n due written (record s { pending = before ++ after })
    closed :
        {n : ℕ} {due written : List QuarantineRecord} {s : System} (before after : List Connection)
        (conn : Connection)
        → s.connections ≡ before ++ (conn ∷ after)
        → Reaches st capacity n due written s
        → Reaches st capacity n due written (drop_connection (before ++ after) s)
    persisted :
        {n : ℕ} {due written : List QuarantineRecord} {s : System} (rec : QuarantineRecord)
        (queue : List QuarantineRecord)
        → s.live.perimeter.queue ≡ rec ∷ queue
        → Reaches st capacity n due written s
        → Reaches st capacity n due (written ++ (rec ∷ [])) (persist rec queue s)
    commanded :
        {n : ℕ} {due written : List QuarantineRecord} {s : System} (shield : phylax.State)
        (store : QuarantineStore)
        → History.Step net s.store store
        → Reaches st capacity n due written s
        → Reaches st capacity n due written (record (with_shield shield s) { store = store })
    shielded :
        {n : ℕ} {due written : List QuarantineRecord} {s : System} (shield : phylax.State)
        → Reaches st capacity n due written s
        → Reaches st capacity n due written (with_shield shield s)
    tidied :
        {n : ℕ} {due written : List QuarantineRecord} {s : System}
        → Reaches st capacity n due written s
        → Reaches st capacity n due written (tidy s)
