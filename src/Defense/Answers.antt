-- ===== src/Defense/Answers.antt =====
-- src/defense.rs: what a refused request is answered, and what is queued for the quarantine.
use propylea.Defense.Refusals.{
  IsAnswer, Judged, blocked_bot, bot-IsAnswer, canary_trap, exploit_payload, harvest-queue,
  notify-queue, payload-IsAnswer, shield_denial, spoofed_hello, stealth-IsAnswer,
}
use mathlib.Core.Path.{subst}
use propylea.Quarantine.Net.{NetApi}
use propylea.Quarantine.Store.{QuarantineRecord}
use propylea.TlsFingerprint.{
  ClientTlsProfile, Verdict, coherent, spoofed, verify_user_agent_coherence,
}
use propylea.Defense.Shield.{
  BotBlock, ShieldApi, Threat, forbidden_bot_response, stealth_404_response,
}
use propylea.Defense.{
  EdgeDefense, Outcome, Perimeter, Request, after_canary, after_payload, after_tls, check_bots,
  check_canary, check_payload, check_shield, check_tls, evaluate_request_full, is_absent, is_canary,
  is_trusted, notify_quarantine, on_bot, on_denial, on_threat, on_verdict, or_then, record_offence,
  shield_request, verdict_of,
}
use propylea.Prelude.{
  Bool, Bool-cases, List, Option, Text, [], codes, false, if◌then◌else◌, inl, inr, none, refl, some,
  true, unwrap_or_text, ℕ, ◌&&◌, ◌∙◌, ◌≡◌,
}

module _ (net : NetApi) (phylax : ShieldApi net) where
  or_then-Judged :
      (d : EdgeDefense net phylax) (req : Request net phylax) (now_ms : ℕ)
      (before : List QuarantineRecord) (m : Outcome net phylax)
      (next : Perimeter net phylax → Outcome net phylax)
      → Judged net phylax d req now_ms before m
      → ((p : Perimeter net phylax)
          → p.queue ≡ before
          → Judged net phylax d req now_ms before (next p))
      → Judged net phylax d req now_ms before (or_then net phylax m next)
  unfolding Judged
  or_then-Judged d req now_ms before (none, p) next h k = k p h
  or_then-Judged d req now_ms before (some r, p) next h k = h

  payload-Judged :
      (d : EdgeDefense net phylax) (req : Request net phylax) (now_ms : ℕ)
      (p : Perimeter net phylax) (o : Option Threat)
      → phylax.inspect req.path (unwrap_or_text [] req.query) ≡ o
      → Judged net phylax d req now_ms p.queue (on_threat net phylax d req now_ms o p)
  unfolding Judged
  payload-Judged d req now_ms p none found = refl
  payload-Judged d req now_ms p (some t) found =
      let struck = record_offence net phylax req now_ms p in
      let told = notify_quarantine net phylax d req t.threat_category now_ms struck in
      exploit_payload t found (payload-IsAnswer t.description) (
        harvest-queue net phylax req.user_agent t.description now_ms told
        ∙ notify-queue net phylax d req t.threat_category now_ms struck)

  verdict-Judged :
      (d : EdgeDefense net phylax) (req : Request net phylax) (now_ms : ℕ)
      (p : Perimeter net phylax) (profile : ClientTlsProfile) (v : Verdict)
      → req.tls_profile ≡ some profile
      → verify_user_agent_coherence profile req.user_agent ≡ v
      → Judged net phylax d req now_ms p.queue (on_verdict net phylax d req now_ms v p)
  unfolding Judged
  verdict-Judged d req now_ms p profile coherent shows judged = refl
  verdict-Judged d req now_ms p profile (spoofed reason) shows judged =
      let struck = record_offence net phylax req now_ms p in
      let spoof = codes "tls_clienthello_spoof" in
      let told = notify_quarantine net phylax d req spoof now_ms struck in
      spoofed_hello reason profile shows judged stealth-IsAnswer (
        harvest-queue net phylax req.user_agent reason now_ms told
        ∙ notify-queue net phylax d req spoof now_ms struck)

  tls-Judged :
      (d : EdgeDefense net phylax) (req : Request net phylax) (now_ms : ℕ)
      (p : Perimeter net phylax) (o : Option ClientTlsProfile)
      → req.tls_profile ≡ o
      → Judged net phylax d req now_ms p.queue
          (on_verdict net phylax d req now_ms (verdict_of net phylax req o) p)
  unfolding Judged
  tls-Judged d req now_ms p none shows = refl
  tls-Judged d req now_ms p (some profile) shows =
      verdict-Judged d req now_ms p profile (verify_user_agent_coherence profile req.user_agent)
        shows refl

  canary-Judged :
      (d : EdgeDefense net phylax) (req : Request net phylax) (now_ms : ℕ)
      (p : Perimeter net phylax)
      → Judged net phylax d req now_ms p.queue (check_canary net phylax d req now_ms p)
  unfolding Judged check_canary
  canary-Judged d req now_ms p = elim (Bool-cases (is_canary (phylax.normalize_path req.path))) [
    | inr e ↦ rw (e, check_canary, Judged) refl
    | inl e ↦
        rw (e, check_canary, Judged)
          (canary_trap e stealth-IsAnswer
            (notify-queue net phylax d req (codes "canary_trap_honeylink") now_ms _))
  ]

  denial-Judged :
      (d : EdgeDefense net phylax) (req : Request net phylax) (now_ms : ℕ) (o : Option Text)
      (shield : phylax.State) (p : Perimeter net phylax)
      → (phylax.evaluate_perimeter (shield_request net phylax req now_ms) shield).0 ≡ o
      → Judged net phylax d req now_ms p.queue (on_denial net phylax req now_ms o p)
  unfolding Judged
  denial-Judged d req now_ms none shield p judged = refl
  denial-Judged d req now_ms (some m) shield p judged =
      shield_denial m shield judged stealth-IsAnswer
        (harvest-queue net phylax req.user_agent m now_ms p)

  block-IsAnswer :
      (automation : Bool) (c m : Text)
      → IsAnswer
          (if automation then 404 else 403)
          (if automation then stealth_404_response else forbidden_bot_response c m)
  block-IsAnswer true c m = stealth-IsAnswer
  block-IsAnswer false c m = bot-IsAnswer c m

  bot-Judged :
      (d : EdgeDefense net phylax) (req : Request net phylax) (now_ms : ℕ) (o : Option BotBlock)
      (shield : phylax.State) (p : Perimeter net phylax)
      → (phylax.bot_perimeter req.user_agent (phylax.normalize_path req.path) shield).0 ≡ o
      → Judged net phylax d req now_ms p.queue (on_bot net phylax o p)
  unfolding Judged
  bot-Judged d req now_ms none shield p judged = refl
  bot-Judged d req now_ms (some b) shield p judged =
      blocked_bot b shield judged
        (block-IsAnswer b.is_automation_tool b.category_name b.matched_token) refl

  bots-Judged :
      (d : EdgeDefense net phylax) (req : Request net phylax) (now_ms : ℕ)
      (p : Perimeter net phylax)
      → Judged net phylax d req now_ms p.queue (check_bots net phylax req p)
  unfolding check_bots Judged
  bots-Judged d req now_ms p =
      let judged = phylax.bot_perimeter req.user_agent (phylax.normalize_path req.path) p.shield in
      elim (Bool-cases (phylax.is_loopback req.client_ip && is_absent net phylax req.user_agent)) [
        | inl e ↦ rw (e, check_bots, Judged) refl
        | inr e ↦
            rw (e, check_bots)
              (bot-Judged d req now_ms judged.0 p.shield (record p { shield = judged.1 }) refl)
      ]

  -- Each check on a state whose queue is known, and what follows it.
  canary_later :
      (d : EdgeDefense net phylax) (req : Request net phylax) (now_ms : ℕ)
      (qs : List QuarantineRecord) (p : Perimeter net phylax)
      → p.queue ≡ qs
      → Judged net phylax d req now_ms qs (after_canary net phylax req now_ms p)
  unfolding check_shield
  canary_later d req now_ms qs p h =
      let judged = phylax.evaluate_perimeter (shield_request net phylax req now_ms) p.shield in
      let q : Perimeter net phylax = record p { shield = judged.1 } in
      or_then-Judged d req now_ms qs (on_denial net phylax req now_ms judged.0 q)
        (check_bots net phylax req)
        (subst (λ l. Judged net phylax d req now_ms l (on_denial net phylax req now_ms judged.0 q))
          h (denial-Judged d req now_ms judged.0 p.shield q refl))
        (λ r e.
          subst (λ l. Judged net phylax d req now_ms l (check_bots net phylax req r)) e
            (bots-Judged d req now_ms r))

  tls_later :
      (d : EdgeDefense net phylax) (req : Request net phylax) (now_ms : ℕ)
      (qs : List QuarantineRecord) (p : Perimeter net phylax)
      → p.queue ≡ qs
      → Judged net phylax d req now_ms qs (after_tls net phylax d req now_ms p)
  tls_later d req now_ms qs p h =
      or_then-Judged d req now_ms qs (check_canary net phylax d req now_ms p)
        (after_canary net phylax req now_ms)
        (subst (λ l. Judged net phylax d req now_ms l (check_canary net phylax d req now_ms p)) h
          (canary-Judged d req now_ms p))
        (canary_later d req now_ms qs)

  payload_later :
      (d : EdgeDefense net phylax) (req : Request net phylax) (now_ms : ℕ)
      (qs : List QuarantineRecord) (p : Perimeter net phylax)
      → p.queue ≡ qs
      → Judged net phylax d req now_ms qs (after_payload net phylax d req now_ms p)
  unfolding check_tls
  payload_later d req now_ms qs p h =
      let v = verdict_of net phylax req req.tls_profile in
      or_then-Judged d req now_ms qs (on_verdict net phylax d req now_ms v p)
        (after_tls net phylax d req now_ms)
        (subst (λ l. Judged net phylax d req now_ms l (on_verdict net phylax d req now_ms v p)) h
          (tls-Judged d req now_ms p req.tls_profile refl))
        (tls_later d req now_ms qs)

  -- A request that is let through queues nothing. One that is refused is refused for one of five
  -- reasons, which holds of it: a payload threat, answered 403; a TLS profile that does not go with
  -- the User-Agent, a canary path and a denial by the shield, answered 404; or a blocked bot,
  -- answered 404 if it is an automation tool and 403 otherwise. The first three queue, where the
  -- quarantine is attached and the client's network is known, exactly one active ban of that network
  -- for 24 hours with the reason; the last two queue nothing. The Content-Length of the answer is
  -- the number of bytes of its body.
  pub evaluate-Judged :
      (d : EdgeDefense net phylax) (req : Request net phylax) (now_ms : ℕ)
      (p : Perimeter net phylax)
      → Judged net phylax d req now_ms p.queue (evaluate_request_full net phylax d req now_ms p)
  unfolding evaluate_request_full Judged check_payload check_tls check_shield
  evaluate-Judged d req now_ms p =
      let qs = p.queue in
      elim (Bool-cases (is_trusted net phylax d req.client_ip)) [
        | inl e ↦ rw (e, evaluate_request_full, Judged) refl
        | inr e ↦
            rw (e, evaluate_request_full)
              (or_then-Judged d req now_ms qs (check_payload net phylax d req now_ms p)
                (after_payload net phylax d req now_ms)
                (payload-Judged d req now_ms p
                  (phylax.inspect req.path (unwrap_or_text [] req.query)) refl)
                (payload_later d req now_ms qs))
      ]
