-- ===== src/TlsFingerprint/Coherence.antt =====
-- When a User-Agent is held against its TLS profile.
use propylea.Prelude.{Text, arith, false, some, trim, true, ◌<◌, ◌↔◌, ◌≡◌, ◌≢◌, ◌⊎◌}
use propylea.TlsFingerprint.{
  ClientTlsProfile, claims_chrome, claims_edge, claims_safari, coherent, is_search_spider,
  verify_user_agent_coherence,
}

-- A User-Agent that claims one of the three browsers.
abbrev pub ClaimsBrowser : Text → Type 0
ClaimsBrowser ua = (claims_chrome ua ≡ true) ⊎ (claims_edge ua ≡ true) ⊎ (claims_safari ua ≡ true)

-- The two rules: a browser with no GREASE; Chrome or Edge with neither h2 nor ten ciphers.
abbrev pub BreaksRule : ClientTlsProfile → Text → Type 0
BreaksRule p ua =
    (ClaimsBrowser ua × (p.has_grease ≡ false))
    ⊎ (((claims_chrome ua ≡ true) ⊎ (claims_edge ua ≡ true))
        × (p.offers_h2 ≡ false)
        × (p.cipher_count < 10))

-- A User-Agent is called spoofed exactly when, trimmed, it names no search spider and breaks one
-- of the two rules.
pub verify-coherent_iff :
    (p : ClientTlsProfile) (ua : Text)
    → (verify_user_agent_coherence p (some ua) ≢ coherent)
      ↔ ((is_search_spider (trim ua) ≡ false) × BreaksRule p (trim ua))
unfolding verify_user_agent_coherence
verify-coherent_iff p ua = (λ h. ground arith, λ h. ground arith)
