-- ===== src/Defense/Refusals.antt =====
-- src/defense.rs: the reasons for a refusal, the answers and the bans that go with them.
use propylea.Quarantine.Net.{NetApi}
use propylea.Quarantine.Store.{QuarantineRecord}
use propylea.TlsFingerprint.{ClientTlsProfile, spoofed, verify_user_agent_coherence}
use propylea.Defense.Shield.{
  BotBlock, DefenseResponse, ShieldApi, Threat, forbidden_bot_response, forbidden_payload_response,
  stealth_404_response,
}
use propylea.Defense.{
  EdgeDefense, Outcome, Perimeter, Request, harvest_agent, is_canary, notify_quarantine,
  shield_request,
}
use propylea.Prelude.{
  Bool-cases, List, Option, Option-cases, Text, [], append-nil, codes, if◌then◌else◌, inl, inr,
  none, refl, some, sym, to_decimal, true, u64_mod, unwrap_or_text, utf8_len, ℕ, ◌%◌, ◌++◌, ◌+◌,
  ◌∷◌, ◌≡◌,
}

-- The answer has this status, and its Content-Length is the number of bytes of its body.
abbrev pub IsAnswer : ℕ → DefenseResponse → Type 0
IsAnswer status r = (r.status ≡ status) × (r.content_length ≡ to_decimal (utf8_len r.body))

pub stealth-IsAnswer : IsAnswer 404 stealth_404_response
unfolding stealth_404_response to_decimal
stealth-IsAnswer = (refl, refl)

pub bot-IsAnswer : (c m : Text) → IsAnswer 403 (forbidden_bot_response c m)
unfolding forbidden_bot_response
bot-IsAnswer c m = (refl, refl)

pub payload-IsAnswer : (s : Text) → IsAnswer 403 (forbidden_payload_response s)
unfolding forbidden_payload_response
payload-IsAnswer s = (refl, refl)

module _ (net : NetApi) (phylax : ShieldApi net) where
  -- What an offence queues: where the quarantine is attached and the client's network is known, one
  -- active ban of that network for 24 hours, with the reason.
  unfoldable pub day_ban :
      EdgeDefense net phylax → Request net phylax → Text → ℕ → List QuarantineRecord
  day_ban d req reason now_ms =
      if d.has_manager
      then elim (phylax.derive_quarantine_cidr (phylax.addr_text req.client_ip)) [
        | some cidr ↦
            record {
              cidr = cidr;
              ip_version = if net.is_ipv4 req.client_ip then 4 else 6;
              trigger_ip = phylax.addr_text req.client_ip;
              infraction_type = reason;
              infraction_count = 1;
              quarantined_at = now_ms;
              expires_at = (now_ms + 86_400_000) % u64_mod;
              user_agent = req.user_agent;
              active = true;
            }
            ∷ []
        | none ↦ []
      ]
      else []

  -- Why a request is refused, what shows it, the status of the answer, and what is queued.
  pub data IsRefused (d : EdgeDefense net phylax) (req : Request net phylax) (now_ms : ℕ)
      (before after : List QuarantineRecord) (r : DefenseResponse) : Type 0 where
    exploit_payload :
        (t : Threat)
        → phylax.inspect req.path (unwrap_or_text [] req.query) ≡ some t
        → IsAnswer 403 r
        → after ≡ before ++ day_ban d req t.threat_category now_ms
        → IsRefused d req now_ms before after r
    spoofed_hello :
        (reason : Text) (profile : ClientTlsProfile)
        → req.tls_profile ≡ some profile
        → verify_user_agent_coherence profile req.user_agent ≡ spoofed reason
        → IsAnswer 404 r
        → after ≡ before ++ day_ban d req (codes "tls_clienthello_spoof") now_ms
        → IsRefused d req now_ms before after r
    canary_trap :
        is_canary (phylax.normalize_path req.path) ≡ true
        → IsAnswer 404 r
        → after ≡ before ++ day_ban d req (codes "canary_trap_honeylink") now_ms
        → IsRefused d req now_ms before after r
    shield_denial :
        (message : Text) (shield : phylax.State)
        → (phylax.evaluate_perimeter (shield_request net phylax req now_ms) shield).0 ≡ some message
        → IsAnswer 404 r
        → after ≡ before
        → IsRefused d req now_ms before after r
    blocked_bot :
        (b : BotBlock) (shield : phylax.State)
        → (phylax.bot_perimeter req.user_agent (phylax.normalize_path req.path) shield).0 ≡ some b
        → IsAnswer (if b.is_automation_tool then 404 else 403) r
        → after ≡ before
        → IsRefused d req now_ms before after r

  -- A request that is let through queues nothing.
  unfoldable pub Judged :
      EdgeDefense net phylax
      → Request net phylax
      → ℕ
      → List QuarantineRecord
      → Outcome net phylax
      → Type 0
  Judged d req now_ms before (none, p) = p.queue ≡ before
  Judged d req now_ms before (some r, p) = IsRefused d req now_ms before p.queue r

  pub notify-queue :
      (d : EdgeDefense net phylax) (req : Request net phylax) (reason : Text) (now_ms : ℕ)
      (p : Perimeter net phylax)
      → (notify_quarantine net phylax d req reason now_ms p).queue
        ≡ p.queue ++ day_ban d req reason now_ms
  unfolding notify_quarantine day_ban
  notify-queue d req reason now_ms p =
      let found = phylax.derive_quarantine_cidr (phylax.addr_text req.client_ip) in
      elim (Bool-cases d.has_manager) [
        | inr e ↦ rw (e, notify_quarantine, day_ban) (sym (append-nil p.queue))
        | inl e ↦ elim (Option-cases found) [
          | inl f ↦ rw (e, f, notify_quarantine, day_ban) (sym (append-nil p.queue))
          | inr (cidr, f) ↦ rw (e, f, notify_quarantine, day_ban) refl
        ]
      ]

  pub harvest-queue :
      (ua : Option Text) (message : Text) (now_ms : ℕ) (p : Perimeter net phylax)
      → (harvest_agent net phylax ua message now_ms p).queue ≡ p.queue
  harvest-queue none message now_ms p = refl
  harvest-queue (some t) message now_ms p = refl
