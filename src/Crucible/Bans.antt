-- ===== src/Crucible/Bans.antt =====
-- src/crucible.rs and src/quarantine/store.rs: whom the gate bans, and what becomes of the ban.
use propylea.Crucible.{
  GateApi, GateContext, GateRequest, GateResponse, decoy_response, enforce, framing_response,
  gate_record, handle_crucible_request, healthy_response, ip_text, is_conflicting, is_honeypot,
  on_bot, on_payload, quarantined_response, safe_agent_of, safe_path_of,
}
use propylea.Http.{HeaderApi, get_str}
use propylea.Sanitize.{max_banner_bytes, scrub_ansi_and_control}
use propylea.Quarantine.Net.{NetApi}
use propylea.Quarantine.Store.{
  QuarantineRecord, QuarantineStore, insert_ban, is_enforced, log_event, next_outcome, record_ban,
  upsert,
}
use propylea.Quarantine.Store.Rows.{find_row, find_row-upsert, merged, transaction-none}
use propylea.Prelude.{
  Bool, Option, Text, [], any, ap, arith, codes, false, if◌then◌else◌, none, not, refl, some,
  starts_with, sym, text_eq_refl, true, u64_mod, unwrap_or_text, ℕ, ◌%◌, ◌&&◌, ◌++◌, ◌+◌, ◌/◌, ◌∙◌,
  ◌∷◌, ◌≡◌, ◌≤◌,
}

-- The path starts with one of these four.
abbrev pub is_decoy : Text → Bool
is_decoy path =
    any (λ p. starts_with path p)
      (codes "/wp-" ∷ codes "/.env" ∷ codes "/.git" ∷ codes "/phpmyadmin" ∷ [])

is_decoy_lem : (path : Text) → is_honeypot path ≡ is_decoy path
unfolding is_honeypot
is_decoy_lem path = ground arith

-- Why a request is banned, the first reason that holds, and how it is answered: what the payload
-- inspection and the bot guard found, and whether the path is a decoy.
abbrev pub first_infraction : Option Text → Option Text → Bool → Option (Text × GateResponse)
first_infraction (some category) bot decoy =
    some (codes "payload_threat:" ++ category, (403, codes "{\"error\":\"forbidden_payload\"}\n"))
first_infraction none (some category) decoy =
    some (codes "bot_scanner:" ++ category, (403, codes "{\"error\":\"hostile_scanner\"}\n"))
first_infraction none none true =
    some (codes "honeypot_decoy_breach", (404, codes "{\"error\":\"not_found\"}\n"))
first_infraction none none false = none

expires-merged :
    (o : Option QuarantineRecord) (rec : QuarantineRecord)
    → (merged o rec).expires_at ≡ rec.expires_at
unfolding merged
expires-merged none rec = refl
expires-merged (some row) rec = refl

rows-record_ban :
    (rec : QuarantineRecord) (st : QuarantineStore)
    → next_outcome st.outcomes ≡ none
    → (record_ban rec st).1.rows ≡ upsert rec st.rows
unfolding record_ban insert_ban log_event
rows-record_ban rec st h = ap (λ a. a.1.rows) (transaction-none st (insert_ban rec) h)

gate_order :
    {A : Type 0} (q c : Bool) (quarantined conflicting inspected : A)
    → (if q then quarantined else if c then conflicting else inspected)
      ≡ (if not q && not c then inspected else if q then quarantined else conflicting)
gate_order true c a b x = refl
gate_order false true a b x = refl
gate_order false false a b x = refl

module _ (api : HeaderApi) (net : NetApi) (gate : GateApi net) where
  abbrev pub infraction_of : GateRequest api net gate → Option (Text × GateResponse)
  infraction_of req =
      first_infraction (gate.inspect (safe_path_of api net gate req) (unwrap_or_text [] req.query))
        (gate.bot_perimeter (safe_agent_of api net gate req) (safe_path_of api net gate req))
        (is_decoy (safe_path_of api net gate req))

  -- The request is let in to the checks that ban.
  abbrev pub is_inspected : GateRequest api net gate → ℕ → GateContext api net gate → Bool
  is_inspected req now_ms ctx =
      not (gate.is_quarantined (ip_text api net gate req) now_ms ctx.quarantine)
      && not (is_conflicting api net gate req)

  -- What a ban leaves: the client's network in the database for 3600 seconds, with this reason and
  -- the scrubbed User-Agent, and the client's address in the engine.
  abbrev pub banned_once :
      GateRequest api net gate → Text → ℕ → GateContext api net gate → GateContext api net gate
  banned_once req infraction now_ms ctx =
      let ip = gate.addr_text req.client_ip in
      let agent = unwrap_or_text [] (get_str api (codes "user-agent") req.headers) in
      let rec : QuarantineRecord = record {
        cidr = unwrap_or_text (ip ++ codes "/32") (gate.derive_quarantine_cidr ip);
        ip_version = if net.is_ipv4 req.client_ip then 4 else 6;
        trigger_ip = ip;
        infraction_type = infraction;
        infraction_count = 1;
        quarantined_at = now_ms / 1000;
        expires_at = (now_ms / 1000 + 3600) % u64_mod;
        user_agent = some (scrub_ansi_and_control agent max_banner_bytes);
        active = true;
      } in
      record {
        store = (record_ban rec ctx.store).1;
        quarantine = gate.record_and_check ip now_ms ctx.quarantine;
      }

  abbrev pub answered_by :
      GateRequest api net gate
      → ℕ
      → GateContext api net gate
      → Option (Text × GateResponse)
      → GateResponse × GateContext api net gate
  answered_by req now_ms ctx none =
      ((200, codes "{\"status\":\"healthy\",\"crucible\":\"nominal\"}\n"), ctx)
  answered_by req now_ms ctx (some (infraction, response)) =
      (response, banned_once req infraction now_ms ctx)

  honeypot-answered :
      (req : GateRequest api net gate) (now_ms : ℕ) (ctx : GateContext api net gate) (decoy : Bool)
      → (if decoy
          then (decoy_response, enforce api net gate req (codes "honeypot_decoy_breach") now_ms ctx)
          else (healthy_response, ctx))
        ≡ answered_by req now_ms ctx (first_infraction none none decoy)
  unfolding enforce gate_record
  honeypot-answered req now_ms ctx true = refl
  honeypot-answered req now_ms ctx false = refl

  bot-answered :
      (req : GateRequest api net gate) (now_ms : ℕ) (ctx : GateContext api net gate)
      (bot : Option Text)
      → on_bot api net gate req now_ms ctx bot
        ≡ answered_by req now_ms ctx
            (first_infraction none bot (is_decoy (safe_path_of api net gate req)))
  unfolding enforce gate_record
  bot-answered req now_ms ctx none =
      honeypot-answered req now_ms ctx (is_honeypot (safe_path_of api net gate req))
      ∙ ap (λ b. answered_by req now_ms ctx (first_infraction none none b))
          (is_decoy_lem (safe_path_of api net gate req))
  bot-answered req now_ms ctx (some category) = refl

  payload-answered :
      (req : GateRequest api net gate) (now_ms : ℕ) (ctx : GateContext api net gate)
      (payload : Option Text)
      → on_payload api net gate req now_ms ctx payload
        ≡ answered_by req now_ms ctx (
            first_infraction payload
              (gate.bot_perimeter (safe_agent_of api net gate req) (safe_path_of api net gate req))
              (is_decoy (safe_path_of api net gate req)))
  unfolding enforce gate_record
  payload-answered req now_ms ctx none = bot-answered req now_ms ctx _
  payload-answered req now_ms ctx (some category) = refl

  -- A client that is quarantined is answered 403 and one whose framing conflicts 400, and neither
  -- changes the state. Any other request is answered by the first of the three reasons that holds,
  -- payload and scanner with 403 and a decoy path, one with one of four prefixes, with 404; it is
  -- then banned once: the record of its network, with that reason and an end 3600 after the time in
  -- seconds, goes to the store, and its address to the engine. With no reason it is answered 200 and
  -- changes nothing.
  pub handle-infraction :
      (req : GateRequest api net gate) (now_ms : ℕ) (ctx : GateContext api net gate)
      → handle_crucible_request api net gate req now_ms ctx ≡ (
          if is_inspected req now_ms ctx
          then answered_by req now_ms ctx (infraction_of req)
          else if gate.is_quarantined (gate.addr_text req.client_ip) now_ms ctx.quarantine
          then ((403, codes "{\"error\":\"quarantined\"}\n"), ctx)
          else ((400, codes "{\"error\":\"framing_conflict\"}\n"), ctx))
  unfolding handle_crucible_request
  handle-infraction req now_ms ctx =
      let quarantined = gate.is_quarantined (ip_text api net gate req) now_ms ctx.quarantine in
      gate_order quarantined (is_conflicting api net gate req) (quarantined_response, ctx)
        (framing_response, ctx)
        (on_payload api net gate req now_ms ctx
          (gate.inspect (safe_path_of api net gate req) (unwrap_or_text [] req.query)))
      ∙ ap
          (λ x.
            if is_inspected req now_ms ctx
            then x
            else if quarantined
            then (quarantined_response, ctx)
            else (framing_response, ctx))
          (payload-answered req now_ms ctx
            (gate.inspect (safe_path_of api net gate req) (unwrap_or_text [] req.query)))

  -- A ban's row, right after it.
  abbrev pub row_after :
      GateRequest api net gate → Text → ℕ → GateContext api net gate → Option QuarantineRecord
  row_after req infraction now_ms ctx =
      find_row (gate_record api net gate req infraction now_ms).cidr
        (enforce api net gate req infraction now_ms ctx).store.rows

  -- The gate writes its times in seconds, and the store compares them with milliseconds: after a
  -- ban that the database accepts, from one hour and four seconds after the epoch on, the row of
  -- the banned network is not enforced at the time of the ban nor later, also where it was before.
  pub enforce-expired :
      (req : GateRequest api net gate) (infraction : Text) (now_ms later_ms : ℕ)
      (ctx : GateContext api net gate) (row : QuarantineRecord)
      → 3604000 ≤ now_ms
      → now_ms ≤ later_ms
      → next_outcome ctx.store.outcomes ≡ none
      → row_after req infraction now_ms ctx ≡ some row
      → is_enforced later_ms row ≡ false
  unfolding enforce
  enforce-expired req infraction now_ms later_ms ctx row late after accepted found =
      let rec = gate_record api net gate req infraction now_ms in
      let old = find_row rec.cidr ctx.store.rows in
      let kept : some (merged old rec) ≡ some row =
        sym (
          ap (find_row rec.cidr) (rows-record_ban rec ctx.store accepted)
          ∙ find_row-upsert rec.cidr rec ctx.store.rows
          ∙ ap (λ (b : Bool). if b then some (merged old rec) else old) (text_eq_refl rec.cidr))
        ∙ found in
      let is_merged : merged old rec ≡ row = cc in
      let expires : row.expires_at ≡ (now_ms / 1000 + 3600) % u64_mod =
        ap (λ r. r.expires_at) (sym is_merged)
        ∙ expires-merged old rec
        ∙ (unfold gate_record in refl) in
      ground (arith, expires)
