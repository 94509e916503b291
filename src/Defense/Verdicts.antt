-- ===== src/Defense/Verdicts.antt =====
-- src/defense.rs: which requests are let through, and what a request that is not leaves behind.
use mathlib.Core.Path.{subst}
use propylea.Quarantine.Net.{NetApi}
use propylea.TlsFingerprint.{Verdict, coherent, spoofed}
use propylea.Defense.Shield.{BotBlock, ShieldApi, Threat}
use propylea.Defense.{
  EdgeDefense, Outcome, Perimeter, Request, after_canary, after_payload, after_tls, check_bots,
  check_canary, check_payload, check_shield, check_tls, evaluate_request_full, is_absent, is_canary,
  is_trusted, on_bot, on_denial, on_threat, on_verdict, or_then, shield_request, unwrap_or_empty,
  verdict_of,
}
use propylea.Prelude.{
  Bool-cases, Option, Text, arith, false, inl, inr, none, refl, some, true, ℕ, ◌&&◌, ◌≡◌, ◌⊎◌,
}

module _ (net : NetApi) (phylax : ShieldApi net) where
  abbrev pub NotDenied : Request net phylax → ℕ → Perimeter net phylax → Type 0
  NotDenied req now_ms p =
      (phylax.evaluate_perimeter (shield_request net phylax req now_ms) p.shield).0 ≡ none

  -- The bot guard is asked behind the shield, unless it is a local client with no User-Agent.
  abbrev pub NoBot : Request net phylax → ℕ → Perimeter net phylax → Type 0
  NoBot req now_ms p =
      ((phylax.is_loopback req.client_ip ≡ true) × (req.user_agent ≡ none))
      ⊎ ((phylax.bot_perimeter req.user_agent (phylax.normalize_path req.path)
            (phylax.evaluate_perimeter (shield_request net phylax req now_ms) p.shield).1).0
          ≡ none)

  -- Every check finds the request harmless, each on the state it is asked in.
  pub record Passes (req : Request net phylax) (now_ms : ℕ) (p : Perimeter net phylax)
      : Type 0 where
    pub harmless_payload : phylax.inspect req.path (unwrap_or_empty req.query) ≡ none
    pub coherent_agent : verdict_of net phylax req req.tls_profile ≡ coherent
    pub no_canary : is_canary (phylax.normalize_path req.path) ≡ false
    pub not_denied : NotDenied req now_ms p
    pub no_bot : NoBot req now_ms p

  or_then-none :
      (m : Outcome net phylax) (next : Perimeter net phylax → Outcome net phylax)
      → (or_then net phylax m next).0 ≡ none
      → (m.0 ≡ none) × ((next m.1).0 ≡ none)
  or_then-none (none, p) next h = (refl, h)
  or_then-none (some r, p) next h = cc

  payload-none :
      (d : EdgeDefense net phylax) (req : Request net phylax) (now_ms : ℕ)
      (p : Perimeter net phylax) (o : Option Threat)
      → (on_threat net phylax d req now_ms o p).0 ≡ none
      → (o ≡ none) × ((on_threat net phylax d req now_ms o p).1 ≡ p)
  payload-none d req now_ms p none h = (refl, refl)
  payload-none d req now_ms p (some t) h = cc

  tls-none :
      (d : EdgeDefense net phylax) (req : Request net phylax) (now_ms : ℕ)
      (p : Perimeter net phylax) (v : Verdict)
      → (on_verdict net phylax d req now_ms v p).0 ≡ none
      → (v ≡ coherent) × ((on_verdict net phylax d req now_ms v p).1 ≡ p)
  tls-none d req now_ms p coherent h = (refl, refl)
  tls-none d req now_ms p (spoofed reason) h = cc

  canary-none :
      (d : EdgeDefense net phylax) (req : Request net phylax) (now_ms : ℕ)
      (p : Perimeter net phylax)
      → (check_canary net phylax d req now_ms p).0 ≡ none
      → (is_canary (phylax.normalize_path req.path) ≡ false)
        × ((check_canary net phylax d req now_ms p).1 ≡ p)
  unfolding check_canary
  canary-none d req now_ms p h = elim (Bool-cases (is_canary (phylax.normalize_path req.path))) [
    | inl e ↦ let clash = rw (e, check_canary) at h in cc
    | inr e ↦ (e, rw (e, check_canary))
  ]

  denial-none :
      (req : Request net phylax) (now_ms : ℕ) (o : Option Text) (p : Perimeter net phylax)
      → (on_denial net phylax req now_ms o p).0 ≡ none
      → (o ≡ none) × ((on_denial net phylax req now_ms o p).1 ≡ p)
  denial-none req now_ms none p h = (refl, refl)
  denial-none req now_ms (some m) p h = cc

  bot-none :
      (o : Option BotBlock) (p : Perimeter net phylax) → (on_bot net phylax o p).0 ≡ none → o ≡ none
  bot-none none p h = refl
  bot-none (some b) p h = cc

  absent-none : (o : Option Text) → is_absent net phylax o ≡ true → o ≡ none
  absent-none none h = refl
  absent-none (some t) h = cc

  bots-none :
      (req : Request net phylax) (p : Perimeter net phylax)
      → (check_bots net phylax req p).0 ≡ none
      → ((phylax.is_loopback req.client_ip ≡ true) × (req.user_agent ≡ none))
        ⊎ ((phylax.bot_perimeter req.user_agent (phylax.normalize_path req.path) p.shield).0 ≡ none)
  unfolding check_bots
  bots-none req p h =
      let judged = phylax.bot_perimeter req.user_agent (phylax.normalize_path req.path) p.shield in
      elim (Bool-cases (phylax.is_loopback req.client_ip && is_absent net phylax req.user_agent)) [
        | inl e ↦ inl (ground (arith, e), absent-none req.user_agent (ground (arith, e)))
        | inr e ↦ inr (bot-none judged.0 (record p { shield = judged.1 }) (rw (e, check_bots) at h))
      ]

  shield-none :
      (req : Request net phylax) (now_ms : ℕ) (p : Perimeter net phylax)
      → (after_canary net phylax req now_ms p).0 ≡ none
      → NotDenied req now_ms p × NoBot req now_ms p
  unfolding check_shield
  shield-none req now_ms p h =
      let judged = phylax.evaluate_perimeter (shield_request net phylax req now_ms) p.shield in
      let q : Perimeter net phylax = record p { shield = judged.1 } in
      let (m, later) =
        or_then-none (on_denial net phylax req now_ms judged.0 q) (check_bots net phylax req) h in
      let (passed, same) = denial-none req now_ms judged.0 q m in
      (passed, bots-none req q (subst (λ r. (check_bots net phylax req r).0 ≡ none) same later))

  canary-rest :
      (d : EdgeDefense net phylax) (req : Request net phylax) (now_ms : ℕ)
      (p : Perimeter net phylax)
      → (after_tls net phylax d req now_ms p).0 ≡ none
      → (is_canary (phylax.normalize_path req.path) ≡ false)
        × (NotDenied req now_ms p × NoBot req now_ms p)
  canary-rest d req now_ms p h =
      let (m, later) =
        or_then-none (check_canary net phylax d req now_ms p) (after_canary net phylax req now_ms)
          h in
      let (passed, same) = canary-none d req now_ms p m in
      (
        passed,
        shield-none req now_ms p
            (subst (λ r. (after_canary net phylax req now_ms r).0 ≡ none) same later),
      )

  tls-rest :
      (d : EdgeDefense net phylax) (req : Request net phylax) (now_ms : ℕ)
      (p : Perimeter net phylax)
      → (after_payload net phylax d req now_ms p).0 ≡ none
      → (verdict_of net phylax req req.tls_profile ≡ coherent)
        × ((is_canary (phylax.normalize_path req.path) ≡ false)
            × (NotDenied req now_ms p × NoBot req now_ms p))
  unfolding check_tls
  tls-rest d req now_ms p h =
      let v = verdict_of net phylax req req.tls_profile in
      let (m, later) =
        or_then-none (on_verdict net phylax d req now_ms v p) (after_tls net phylax d req now_ms)
          h in
      let (passed, same) = tls-none d req now_ms p v m in
      (
        passed,
        canary-rest d req now_ms p
            (subst (λ r. (after_tls net phylax d req now_ms r).0 ≡ none) same later),
      )

  payload-rest :
      (d : EdgeDefense net phylax) (req : Request net phylax) (now_ms : ℕ)
      (p : Perimeter net phylax)
      → (or_then net phylax
          (check_payload net phylax d req now_ms p)
          (after_payload net phylax d req now_ms)).0
        ≡ none
      → Passes req now_ms p
  unfolding check_payload
  payload-rest d req now_ms p h =
      let o = phylax.inspect req.path (unwrap_or_empty req.query) in
      let (m, later) =
        or_then-none (on_threat net phylax d req now_ms o p) (after_payload net phylax d req now_ms)
          h in
      let (passed, same) = payload-none d req now_ms p o m in
      let (agent, (canary, (denied, bot))) =
        tls-rest d req now_ms p
          (subst (λ r. (after_payload net phylax d req now_ms r).0 ≡ none) same later) in
      record {
        harmless_payload = passed;
        coherent_agent = agent;
        no_canary = canary;
        not_denied = denied;
        no_bot = bot;
      }

  -- A request that is let through comes from a trusted network, or every check passes it: the
  -- payload inspection, the coherence of its TLS profile and User-Agent, the canary paths, the
  -- shield and the bot guard.
  pub evaluate-Passes :
      (d : EdgeDefense net phylax) (req : Request net phylax) (now_ms : ℕ)
      (p : Perimeter net phylax)
      → (evaluate_request_full net phylax d req now_ms p).0 ≡ none
      → (is_trusted net phylax d req.client_ip ≡ true) ⊎ Passes req now_ms p
  unfolding evaluate_request_full
  evaluate-Passes d req now_ms p h = elim (Bool-cases (is_trusted net phylax d req.client_ip)) [
    | inl e ↦ inl e
    | inr e ↦ inr (payload-rest d req now_ms p (rw (e, evaluate_request_full) at h))
  ]
