-- ===== src/Sanitize/Scrub.antt =====
-- What `scrub_ansi_and_control` guarantees.
use propylea.Prelude.{
  All, All-append, Bool-cases, Text, [], append-nil, append_assoc, arith, false, if◌then◌else◌, inl,
  inr, is_control, leb, len_utf8, ltb, refl, sym, utf8_len, utf8_len-append, ℕ, ◌++◌, ◌+◌, ◌==◌,
  ◌∙◌, ◌∷◌, ◌≡◌, ◌≢◌, ◌≤◌,
}
use propylea.Sanitize.{esc, scrub_ansi_and_control, scrub_csi, scrub_escape, scrub_from, scrub_osc}

abbrev pub IsPrintable : ℕ → Type 0
IsPrintable c = is_control c ≡ false

-- Text that is printable and within the ceiling.
abbrev pub IsClean : ℕ → Text → Type 0
IsClean most s = All IsPrintable s × (utf8_len s ≤ most)

IsClean-space :
    (most : ℕ) (out : Text)
    → IsClean most out
    → leb most (utf8_len out) ≡ false
    → IsClean most (out ++ (b' ' ∷ []))
IsClean-space most out h e =
    (All-append IsPrintable out _ h.0 (refl, tt), ground (arith, utf8_len-append out (b' ' ∷ [])))

IsClean-push :
    (most : ℕ) (out : Text) (c : ℕ)
    → IsClean most out
    → is_control c ≡ false
    → ltb most (utf8_len out + len_utf8 c) ≡ false
    → IsClean most (out ++ (c ∷ []))
IsClean-push most out c h k e =
    (All-append IsPrintable out _ h.0 (k, tt), ground (arith, utf8_len-append out (c ∷ [])))

IsClean-control :
    (most : ℕ) (out : Text) (c : ℕ)
    → IsClean most out
    → leb most (utf8_len out) ≡ false
    → IsClean most (if c == b'\t' then out ++ (b' ' ∷ []) else out)
IsClean-control most out c h e = elim (Bool-cases (c == b'\t')) [
  | inl t ↦ rw t (IsClean-space most out h e)
  | inr f ↦ rw f h
]

mutual
  unfolding scrub_from

  scrub_from-IsClean :
      (most : ℕ) (out cs : Text) → IsClean most out → IsClean most (scrub_from most out cs)
  scrub_from-IsClean most out [] h = h
  scrub_from-IsClean most out (ch ∷ cs) h = ground (
    arith,
    scrub_escape-IsClean most out cs,
    scrub_from-IsClean most (if ch == b'\t' then out ++ (b' ' ∷ []) else out) cs,
    IsClean-control most out ch,
    scrub_from-IsClean most (out ++ (ch ∷ [])) cs,
    IsClean-push most out ch,
  )

  scrub_escape-IsClean :
      (most : ℕ) (out cs : Text) → IsClean most out → IsClean most (scrub_escape most out cs)
  scrub_escape-IsClean most out [] h = h
  scrub_escape-IsClean most out (c ∷ cs) h = ground (
    arith,
    scrub_csi-IsClean most out cs,
    scrub_osc-IsClean most out cs,
    scrub_from-IsClean most out cs,
  )

  scrub_csi-IsClean :
      (most : ℕ) (out cs : Text) → IsClean most out → IsClean most (scrub_csi most out cs)
  scrub_csi-IsClean most out [] h = h
  scrub_csi-IsClean most out (c ∷ cs) h =
      ground (arith, scrub_csi-IsClean most out cs, scrub_from-IsClean most out cs)

  scrub_osc-IsClean :
      (most : ℕ) (out cs : Text) → IsClean most out → IsClean most (scrub_osc most out cs)
  scrub_osc-IsClean most out [] h = h
  scrub_osc-IsClean most out (c ∷ []) h = ground arith
  scrub_osc-IsClean most out (c ∷ d ∷ cs) h = ground (
    arith,
    scrub_osc-IsClean most out (d ∷ cs),
    scrub_from-IsClean most out (d ∷ cs),
    scrub_from-IsClean most out cs,
  )

-- Whatever the input, the scrubbed text holds no control character, ESC and DEL among them, and
-- takes at most `most` bytes.
pub scrub-IsClean : (input : Text) (most : ℕ) → IsClean most (scrub_ansi_and_control input most)
unfolding scrub_ansi_and_control
scrub-IsClean input most = scrub_from-IsClean most [] input (tt, ground arith)

-- Text that is already clean goes through unchanged, character by character.
scrub_from_of_IsClean :
    (most : ℕ) (out cs : Text)
    → All IsPrintable cs
    → utf8_len out + utf8_len cs ≤ most
    → scrub_from most out cs ≡ out ++ cs
unfolding scrub_from
scrub_from_of_IsClean most out [] p h = sym (append-nil out)
scrub_from_of_IsClean most out (c ∷ cs) p h =
    let step = scrub_from_of_IsClean most (out ++ (c ∷ [])) cs in
    ground (arith, step, append_assoc out (c ∷ []) cs, utf8_len-append out (c ∷ []))

pub scrub_of_IsClean : (s : Text) (most : ℕ) → IsClean most s → scrub_ansi_and_control s most ≡ s
unfolding scrub_ansi_and_control
scrub_of_IsClean s most h = scrub_from_of_IsClean most [] s h.0 (omega (arith, h.1))

-- Scrubbing a second time under the same ceiling changes nothing.
pub scrub_idem :
    (input : Text) (most : ℕ)
    → scrub_ansi_and_control (scrub_ansi_and_control input most) most
      ≡ scrub_ansi_and_control input most
scrub_idem input most = scrub_of_IsClean _ most (scrub-IsClean input most)

-- What a reader sees of text with no ESC: control characters are dropped, and a tab is a space.
shown : ℕ → Text
shown c = if is_control c then (if c == b'\t' then b' ' ∷ [] else []) else c ∷ []

pub visible : Text → Text
visible [] = []
visible (c ∷ cs) = shown c ++ visible cs

scrub_from-step :
    (most : ℕ) (out cs : Text) (c : ℕ)
    → c ≢ esc
    → utf8_len out + len_utf8 c ≤ most
    → scrub_from most out (c ∷ cs) ≡ scrub_from most (out ++ shown c) cs
unfolding scrub_from shown
scrub_from-step most out cs c n h = ground (arith, append-nil out)

utf8_len-shown : (c : ℕ) → utf8_len (shown c) ≤ len_utf8 c
unfolding shown
utf8_len-shown c = ground arith

scrub_from-visible :
    (most : ℕ) (out cs : Text)
    → All (λ c. c ≢ esc) cs
    → utf8_len out + utf8_len cs ≤ most
    → scrub_from most out cs ≡ out ++ visible cs
unfolding visible
scrub_from-visible most out [] p h = unfold scrub_from in sym (append-nil out)
scrub_from-visible most out (c ∷ cs) p h =
    scrub_from-step most out cs c p.0 (omega arith)
    ∙ scrub_from-visible most (out ++ shown c) cs p.1
        (omega (arith, utf8_len-append out (shown c), utf8_len-shown c))
    ∙ append_assoc out (shown c) (visible cs)

-- On text with no ESC that fits the ceiling, the scrubber is the plain filter `visible`.
pub scrub-visible :
    (input : Text) (most : ℕ)
    → All (λ c. c ≢ esc) input
    → utf8_len input ≤ most
    → scrub_ansi_and_control input most ≡ visible input
unfolding scrub_ansi_and_control
scrub-visible input most p h = scrub_from-visible most [] input p (omega (arith, h))
