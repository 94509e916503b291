-- ===== src/Proxy/System/Tests.antt =====
-- A day of the daemon on one connection, and an instance of what is proved of it.
use mathlib.Core.List.{Mem, mem-cons_self}
use propylea.Proxy.Tests.{
  at_noon, backend_route, calm_shield, get_index, one_proxy, talkative, text_net,
}
use propylea.Http.Assoc.{assoc_headers}
use propylea.Quarantine.Store.{QuarantineRecord, in_memory, unban_all}
use propylea.Quarantine.Store.History.{at_start, step_unban_all}
use propylea.Proxy.{Decision, ProxyRequest, denied, forwarded, handle_proxy_request_with_tls}
use propylea.Headers.{sanitize_ingress_headers}
use propylea.Router
use propylea.Router.{new, target_of}
use propylea.Quarantine.Store.History
use propylea.Proxy.System.{
  Connection, System, accept_connection, accepted, answer_on, answered, at_boot, booted, closed,
  commanded, decide_on, decided, drop_connection, persist, persisted, tidied, tidy, with_shield,
}
use propylea.Proxy.System.Preserved.{IsSound}
use propylea.Proxy.System.Sound.{Reaches-IsSound}
use propylea.Proxy.System.Due.{called_for}
use propylea.Defense.Due.{bans_due}
use propylea.Defense.{is_canary, is_trusted}
use propylea.Framing.{validate_headers}
use propylea.Acme.{try_serve_acme_challenge}
use propylea.Defense.Refusals.{day_ban}
use propylea.Defense.Shield.{stealth_404_response}
use propylea.Prelude.{[], codes, none, refl, true, ◌++◌, ◌∷◌, ◌≡◌}

abbrev one_connection : Connection assoc_headers text_net calm_shield
one_connection = record { peer = codes "203.0.113.7"; profile = none }

abbrev one_open : System assoc_headers text_net calm_shield
one_open =
    accept_connection assoc_headers text_net calm_shield one_connection
      (booted assoc_headers text_net calm_shield 10 0 in_memory)

-- A request for a canary path, and the ban that it calls for.
abbrev probe : ProxyRequest assoc_headers text_net calm_shield
probe = record get_index { raw_path = codes "/decoy/canary" }

abbrev probe_ban : QuarantineRecord
probe_ban = record {
  cidr = codes "203.0.113.7/24";
  ip_version = 4;
  trigger_ip = codes "203.0.113.7";
  infraction_type = codes "canary_trap_honeylink";
  infraction_count = 1;
  quarantined_at = 1000;
  expires_at = 86_401_000;
  user_agent = none;
  active = true;
}

abbrev probed : System assoc_headers text_net calm_shield
probed = decide_on assoc_headers text_net calm_shield one_proxy probe at_noon one_open

abbrev one_written : System assoc_headers text_net calm_shield
one_written = persist assoc_headers text_net calm_shield probe_ban [] probed

abbrev one_decided : System assoc_headers text_net calm_shield
one_decided = decide_on assoc_headers text_net calm_shield one_proxy get_index at_noon one_written

abbrev denied_probe :
    ProxyRequest assoc_headers text_net calm_shield × Decision assoc_headers text_net calm_shield
denied_probe = (probe, denied stealth_404_response)

abbrev forwarded_index :
    ProxyRequest assoc_headers text_net calm_shield × Decision assoc_headers text_net calm_shield
forwarded_index = (
  get_index,
  forwarded (target_of backend_route)
      (sanitize_ingress_headers assoc_headers (codes "203.0.113.7") get_index.headers),
)

-- The control socket is used while the upstream has not answered.
abbrev one_commanded : System assoc_headers text_net calm_shield
one_commanded = record (with_shield assoc_headers text_net calm_shield 3 one_decided) {
  store = (unban_all (codes "test") 1000 one_decided.store).1;
}

abbrev one_answered : System assoc_headers text_net calm_shield
one_answered =
    answer_on assoc_headers text_net calm_shield one_proxy talkative forwarded_index
      (denied_probe ∷ []) at_noon one_commanded

is_open : Mem one_connection one_open.connections
unfolding accept_connection
is_open = mem-cons_self

written_open : Mem one_connection one_written.connections
unfolding persist decide_on accept_connection
written_open = mem-cons_self

ban_waits : probed.live.perimeter.queue ≡ probe_ban ∷ []
unfolding decide_on accept_connection handle_proxy_request_with_tls
ban_waits = refl

waits : one_commanded.pending ≡ [] ++ (forwarded_index ∷ denied_probe ∷ [])
unfolding decide_on persist accept_connection handle_proxy_request_with_tls Router.new
waits = refl

still_open : one_answered.connections ≡ [] ++ (one_connection ∷ [])
unfolding answer_on decide_on persist accept_connection
still_open = refl

Reaches-IsSound_example :
    IsSound assoc_headers text_net calm_shield one_proxy 1 (probe_ban ∷ []) (probe_ban ∷ []) 10 (
      tidy assoc_headers text_net calm_shield
        (drop_connection assoc_headers text_net calm_shield [] one_answered))
unfolding called_for bans_due day_ban validate_headers try_serve_acme_challenge is_trusted is_canary
    sanitize_ingress_headers
Reaches-IsSound_example =
    Reaches-IsSound assoc_headers text_net calm_shield one_proxy 10 1 (probe_ban ∷ [])
      (probe_ban ∷ [])
      (tidy assoc_headers text_net calm_shield
        (drop_connection assoc_headers text_net calm_shield [] one_answered))
      (tidied (
        closed [] [] one_connection still_open (
          answered talkative [] (denied_probe ∷ []) forwarded_index at_noon waits (
            commanded 3 (unban_all (codes "test") 1000 one_decided.store).1
              (step_unban_all (codes "test") 1000)
              (decided get_index at_noon written_open (
                persisted probe_ban [] ban_waits (
                  decided probe at_noon is_open
                    (accepted one_connection (at_boot 0 History.at_start)))))))))
