-- ===== src/Defense/Due.antt =====
-- src/defense.rs: the bans that a request calls for, in the order of the checks.
use propylea.Quarantine.Net.{NetApi}
use propylea.Quarantine.Store.{QuarantineRecord}
use propylea.TlsFingerprint.{Verdict, coherent, spoofed}
use propylea.Defense.Shield.{BotBlock, ShieldApi, Threat}
use propylea.Defense.Refusals.{day_ban, harvest-queue, notify-queue}
use propylea.Defense.{
  EdgeDefense, Perimeter, Request, after_canary, after_payload, after_tls, check_bots, check_canary,
  check_payload, check_shield, check_tls, evaluate_request_full, is_absent, is_canary, is_trusted,
  notify_quarantine, on_bot, on_denial, on_threat, on_verdict, or_then, record_offence,
  shield_request, verdict_of,
}
use propylea.Prelude.{
  Bool-cases, List, Option, Text, [], append-nil, codes, if◌then◌else◌, inl, inr, none, refl, some,
  sym, unwrap_or_text, ℕ, ◌&&◌, ◌++◌, ◌∙◌, ◌≡◌,
}

module _ (net : NetApi) (phylax : ShieldApi net) where
  -- For a client that is not trusted: a ban for the payload, or else for the TLS profile, or else for
  -- the canary path.
  unfoldable pub bans_due : EdgeDefense net phylax → Request net phylax → ℕ → List QuarantineRecord
  bans_due d req now_ms =
      if is_trusted net phylax d req.client_ip
      then []
      else elim (phylax.inspect req.path (unwrap_or_text [] req.query)) [
        | some t ↦ day_ban net phylax d req t.threat_category now_ms
        | none ↦ elim (verdict_of net phylax req req.tls_profile) [
          | spoofed reason ↦ day_ban net phylax d req (codes "tls_clienthello_spoof") now_ms
          | coherent ↦
              if is_canary (phylax.normalize_path req.path)
              then day_ban net phylax d req (codes "canary_trap_honeylink") now_ms
              else []
        ]
      ]

  bot-queue :
      (o : Option BotBlock) (p : Perimeter net phylax) → (on_bot net phylax o p).1.queue ≡ p.queue
  bot-queue none p = refl
  bot-queue (some b) p = refl

  bots-queue :
      (req : Request net phylax) (p : Perimeter net phylax)
      → (check_bots net phylax req p).1.queue ≡ p.queue
  unfolding check_bots
  bots-queue req p =
      let judged = phylax.bot_perimeter req.user_agent (phylax.normalize_path req.path) p.shield in
      elim (Bool-cases (phylax.is_loopback req.client_ip && is_absent net phylax req.user_agent)) [
        | inl e ↦ rw (e, check_bots) refl
        | inr e ↦ rw (e, check_bots) (bot-queue judged.0 (record p { shield = judged.1 }))
      ]

  denial-queue :
      (req : Request net phylax) (now_ms : ℕ) (o : Option Text) (p : Perimeter net phylax)
      → (or_then net phylax
          (on_denial net phylax req now_ms o p)
          (check_bots net phylax req)).1.queue
        ≡ p.queue
  denial-queue req now_ms none p = bots-queue req p
  denial-queue req now_ms (some m) p = harvest-queue net phylax req.user_agent m now_ms p

  canary_later-queue :
      (req : Request net phylax) (now_ms : ℕ) (p : Perimeter net phylax)
      → (after_canary net phylax req now_ms p).1.queue ≡ p.queue
  unfolding check_shield
  canary_later-queue req now_ms p =
      let judged = phylax.evaluate_perimeter (shield_request net phylax req now_ms) p.shield in
      denial-queue req now_ms judged.0 (record p { shield = judged.1 })

  tls_later-queue :
      (d : EdgeDefense net phylax) (req : Request net phylax) (now_ms : ℕ)
      (p : Perimeter net phylax)
      → (after_tls net phylax d req now_ms p).1.queue
        ≡ p.queue
          ++ (if is_canary (phylax.normalize_path req.path)
              then day_ban net phylax d req (codes "canary_trap_honeylink") now_ms
              else [])
  unfolding check_canary
  tls_later-queue d req now_ms p = elim (Bool-cases (is_canary (phylax.normalize_path req.path))) [
    | inl e ↦
        rw (e, check_canary)
          (notify-queue net phylax d req (codes "canary_trap_honeylink") now_ms _)
    | inr e ↦ rw (e, check_canary) (canary_later-queue req now_ms p ∙ sym (append-nil p.queue))
  ]

  payload_later-queue :
      (d : EdgeDefense net phylax) (req : Request net phylax) (now_ms : ℕ)
      (p : Perimeter net phylax) (v : Verdict)
      → (or_then net phylax
          (on_verdict net phylax d req now_ms v p)
          (after_tls net phylax d req now_ms)).1.queue
        ≡ p.queue ++ (elim v [
          | spoofed reason ↦ day_ban net phylax d req (codes "tls_clienthello_spoof") now_ms
          | coherent ↦
              if is_canary (phylax.normalize_path req.path)
              then day_ban net phylax d req (codes "canary_trap_honeylink") now_ms
              else []
        ])
  payload_later-queue d req now_ms p coherent = tls_later-queue d req now_ms p
  payload_later-queue d req now_ms p (spoofed reason) =
      let struck = record_offence net phylax req now_ms p in
      let spoof = codes "tls_clienthello_spoof" in
      let told = notify_quarantine net phylax d req spoof now_ms struck in
      harvest-queue net phylax req.user_agent reason now_ms told
      ∙ notify-queue net phylax d req spoof now_ms struck

  threat-queue :
      (d : EdgeDefense net phylax) (req : Request net phylax) (now_ms : ℕ)
      (p : Perimeter net phylax) (o : Option Threat)
      → (or_then net phylax
          (on_threat net phylax d req now_ms o p)
          (after_payload net phylax d req now_ms)).1.queue
        ≡ p.queue ++ (elim o [
          | some t ↦ day_ban net phylax d req t.threat_category now_ms
          | none ↦ elim (verdict_of net phylax req req.tls_profile) [
            | spoofed reason ↦ day_ban net phylax d req (codes "tls_clienthello_spoof") now_ms
            | coherent ↦
                if is_canary (phylax.normalize_path req.path)
                then day_ban net phylax d req (codes "canary_trap_honeylink") now_ms
                else []
          ]
        ])
  unfolding check_tls
  threat-queue d req now_ms p none =
      payload_later-queue d req now_ms p (verdict_of net phylax req req.tls_profile)
  threat-queue d req now_ms p (some t) =
      let struck = record_offence net phylax req now_ms p in
      let told = notify_quarantine net phylax d req t.threat_category now_ms struck in
      harvest-queue net phylax req.user_agent t.description now_ms told
      ∙ notify-queue net phylax d req t.threat_category now_ms struck

  -- The perimeter queues the bans that the request calls for, and nothing else.
  pub evaluate-bans_due :
      (d : EdgeDefense net phylax) (req : Request net phylax) (now_ms : ℕ)
      (p : Perimeter net phylax)
      → (evaluate_request_full net phylax d req now_ms p).1.queue ≡ p.queue ++ bans_due d req now_ms
  unfolding evaluate_request_full bans_due check_payload
  evaluate-bans_due d req now_ms p = elim (Bool-cases (is_trusted net phylax d req.client_ip)) [
    | inl e ↦ rw (e, evaluate_request_full, bans_due) (sym (append-nil p.queue))
    | inr e ↦
        rw (e, evaluate_request_full, bans_due)
          (threat-queue d req now_ms p (phylax.inspect req.path (unwrap_or_text [] req.query)))
  ]
