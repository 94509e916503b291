-- ===== src/Defense/Tests.antt =====
-- A perimeter with a simple shield, and instances of what is proved of the evaluation.
use propylea.Quarantine.Net.{NetApi}
use propylea.Defense.Shield.{ShieldApi}
use propylea.Defense.{EdgeDefense, Perimeter, Request, evaluate_request_full, is_trusted}
use propylea.Defense.Verdicts.{Passes, evaluate-Passes}
use propylea.Defense.Answers.{evaluate-Judged}
use propylea.Defense.Refusals.{Judged}
use propylea.Prelude.{
  Option, Text, [], before_char, codes, contains_char, if◌then◌else◌, none, refl, some, text_eq,
  true, ℕ, ◌++◌, ◌+◌, ◌∷◌, ◌≡◌, ◌⊎◌,
}

-- Networks and addresses are texts; a network holds the address in front of its slash.
abbrev text_net : NetApi
text_net = record {
  IpNet = Text;
  IpAddr = Text;
  parse_net = λ s. some s;
  parse_addr = λ s. some s;
  contains_addr = λ n a. text_eq (before_char b'/' n) a;
  same_addr = text_eq;
  host_net = λ a. a ++ codes "/32";
  new_net = λ a prefix. some (a ++ codes "/32");
  net_addr = λ n. before_char b'/' n;
  is_ipv4 = λ a. true;
  net_text = λ n. n;
}

-- The state counts the offences; a quote in the query is a threat, and a curl is a bot.
abbrev counting_shield : ShieldApi text_net
counting_shield = record {
  State = ℕ;
  addr_text = λ a. a;
  is_loopback = λ a. text_eq a (codes "127.0.0.1");
  inspect = λ path query.
      if contains_char query 0x27
      then some (record { threat_category = codes "sqli"; description = codes "SQL injection" })
      else none;
  normalize_path = λ path. path;
  derive_quarantine_cidr = λ s. some (s ++ codes "/24");
  record_and_check = λ s now n. n + 1;
  harvest_canary_probe = λ ua m now n. n;
  record_anomalous_uri = λ path ip now n. n + 1;
  evaluate_perimeter = λ req n. (none, n);
  bot_perimeter = λ ua path n. (none, n);
}

abbrev armed : EdgeDefense text_net counting_shield
armed = record { has_manager = true; trusted_subnets = codes "10.0.0.1/32" ∷ [] }

abbrev request_with : Option Text → Request text_net counting_shield
request_with query = record {
  client_ip = codes "203.0.113.7";
  method = codes "GET";
  path = codes "/index";
  query = query;
  user_agent = none;
  tls_profile = none;
}

abbrev quiet : Perimeter text_net counting_shield
quiet = record { shield = 0; queue = [] }

let_through :
    (evaluate_request_full text_net counting_shield armed (request_with none) 1000 quiet).0 ≡ none
unfolding evaluate_request_full
let_through = refl

evaluate-Passes_example :
    (is_trusted text_net counting_shield armed (codes "203.0.113.7") ≡ true)
    ⊎ Passes text_net counting_shield (request_with none) 1000 quiet
evaluate-Passes_example =
    evaluate-Passes text_net counting_shield armed (request_with none) 1000 quiet let_through

evaluate-Judged_example :
    Judged text_net counting_shield armed (request_with (some (codes "id='1"))) 1000 [] (
      evaluate_request_full text_net counting_shield armed
        (request_with (some (codes "id='1")))
        1000
        quiet)
evaluate-Judged_example =
    evaluate-Judged text_net counting_shield armed (request_with (some (codes "id='1"))) 1000 quiet
