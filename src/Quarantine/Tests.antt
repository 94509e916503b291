-- ===== src/Quarantine/Tests.antt =====
-- Runs of the quarantine on test addresses, and instances of what is proved of it.
use mathlib.Core.List.{Mem}
use propylea.Quarantine.Net.{NetApi, QuarantineApi}
use propylea.Quarantine.Store.{
  QuarantineRecord, QuarantineStore, get_active_bans, is_readable, record_ban, unban, unban_all,
}
use propylea.Quarantine.Store.Rows.{find_row, merged}
use propylea.Quarantine.Store.Bans.{RecordsBan, Unbans, record_ban-RecordsBan, unban-Unbans}
use propylea.Quarantine.Store.Clearing.{UnbansAll, unban_all-UnbansAll}
use propylea.Quarantine.Store.Listing.{ListsActive, get_active_bans-ListsActive}
use propylea.Quarantine.Store.Succession.{get_active_bans-record_ban}
use propylea.Quarantine.Targets.{is_excluded, parse_duration_str}
use propylea.Quarantine.Ipc
use propylea.Quarantine.Ipc.{Daemon, IpcRequest, ban, banned, exec_ban, status}
use propylea.Quarantine.Offline.{collect_targets, exec_cli_ban, stored}
use propylea.Quarantine.Offline.Agreement.{exec_cli_ban-exec_ban}
use propylea.Quarantine.Offline.Ingest.{IsCollected, collect_targets-IsCollected}
use propylea.Prelude.{
  List, Text, [], arith, before_char, codes, contains_char, false, if◌then◌else◌, is_empty, length,
  none, not, ok, parse_u64, refl, some, text_eq, true, ℕ, ◌++◌, ◌||◌, ◌∷◌, ◌≡◌,
}

-- A network is a text with a slash, an address one without; a network holds the address in front
-- of the slash.
abbrev pub text_net : NetApi
text_net = record {
  IpNet = Text;
  IpAddr = Text;
  parse_net = λ s. if contains_char s b'/' then some s else none;
  parse_addr = λ s. if contains_char s b'/' || not (contains_char s b'.') then none else some s;
  contains_addr = λ n a. text_eq (before_char b'/' n) a;
  same_addr = text_eq;
  host_net = λ a. a ++ codes "/32";
  new_net = λ a prefix. some (a ++ codes "/32");
  net_addr = λ n. before_char b'/' n;
  is_ipv4 = λ a. true;
  net_text = λ n. n;
}

-- The engine is the list of its bans.
abbrev pub list_engine : QuarantineApi text_net
list_engine = record {
  Engine = List (Text × ℕ);
  derive_quarantine_cidr = λ s. some (s ++ codes "/24");
  add_ban = λ n e bans. (n, e) ∷ bans;
  unban = λ s bans. (not (is_empty bans), []);
  unban_all = λ bans. [];
  active_bans_count = λ bans. length bans;
}

abbrev pub row : QuarantineRecord
row = record {
  cidr = codes "10.0.0.0/24";
  ip_version = 4;
  trigger_ip = codes "10.0.0.9";
  infraction_type = codes "canary_trap_honeylink";
  infraction_count = 1;
  quarantined_at = 1000;
  expires_at = 5000;
  user_agent = none;
  active = true;
}

abbrev pub one_ban : QuarantineStore
one_ban = record { rows = row ∷ []; audit = []; next_id = 1; outcomes = [] }

record_ban-RecordsBan_example : RecordsBan row one_ban (record_ban row one_ban)
record_ban-RecordsBan_example = record_ban-RecordsBan row one_ban

unban-Unbans_example :
    Unbans one_ban (unban text_net (codes "10.0.0.0/24") (codes "test") 2000 one_ban)
unban-Unbans_example = unban-Unbans text_net (codes "10.0.0.0/24") (codes "test") 2000 one_ban

unban_all-UnbansAll_example : UnbansAll one_ban (unban_all (codes "test") 2000 one_ban)
unban_all-UnbansAll_example = unban_all-UnbansAll (codes "test") 2000 one_ban

get_active_bans-ListsActive_example : ListsActive 2000 one_ban (get_active_bans 2000 one_ban)
get_active_bans-ListsActive_example = get_active_bans-ListsActive 2000 one_ban

merged_readable : is_readable (merged (find_row row.cidr one_ban.rows) row) ≡ true
unfolding is_readable merged find_row
merged_readable = refl

get_active_bans-record_ban_example :
    (found : List QuarantineRecord) × ((get_active_bans 2000 (record_ban row one_ban).1).0
      ≡ ok found)
    × Mem (merged (find_row row.cidr one_ban.rows) row) found
get_active_bans-record_ban_example =
    get_active_bans-record_ban row 2000 one_ban refl (omega arith) refl merged_readable

abbrev pub daemon : Daemon text_net list_engine
daemon = record { engine = []; store = one_ban }

abbrev pub two_targets : List Text
two_targets = codes " 192.0.2.7 " ∷ codes "" ∷ codes "198.51.100.0/24" ∷ []

one_day : parse_duration_str (codes "1d") ≡ ok 86400
unfolding parse_duration_str parse_u64
one_day = refl

exec_cli_ban-exec_ban_example :
    let done =
      exec_ban text_net list_engine two_targets
        (some (codes "abuse"))
        (some 86400)
        false
        2000
        daemon in
    (cidrs : List Text) × (exec_cli_ban text_net list_engine false two_targets
        (codes "abuse")
        (codes "1d")
        false
        2000
        one_ban
      ≡ stored (ok cidrs, done.1.store))
    × (done.0 ≡ banned (length cidrs) cidrs)
exec_cli_ban-exec_ban_example =
    exec_cli_ban-exec_ban text_net list_engine two_targets (codes "abuse") (codes "1d") false 2000
      86400 daemon refl one_day

abbrev some_requests : List (IpcRequest × ℕ)
some_requests =
    (Ipc.ban two_targets none none false, 1000)
    ∷ (Ipc.unban two_targets, 2000)
    ∷ (Ipc.unban_all, 3000)
    ∷ (Ipc.status, 4000)
    ∷ []

abbrev pub log_lines : List Text
log_lines =
    codes "# a comment"
    ∷ codes "ip=192.0.2.7 GET /wp-login"
    ∷ codes "[10.0.0.1], \"192.0.2.8\""
    ∷ []

collected :
    collect_targets text_net (codes "10.0.0.1" ∷ []) log_lines []
    ≡ codes "192.0.2.7" ∷ codes "192.0.2.8" ∷ []
unfolding collect_targets is_excluded
collected = refl

collect_targets-IsCollected_example :
    IsCollected text_net
      (codes "10.0.0.1" ∷ [])
      (collect_targets text_net (codes "10.0.0.1" ∷ []) log_lines [])
collect_targets-IsCollected_example =
    collect_targets-IsCollected text_net (codes "10.0.0.1" ∷ []) log_lines
