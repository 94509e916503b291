-- ===== src/TlsFingerprint/Safety.antt =====
-- No ClientHello makes the parser panic or loop.
use propylea.Prelude.{
  All, All-append, Bool, Bool-cases, Bytes, List, [], arith, drop, err, false, get_elem?-some, inl,
  inr, leb, length, length-append, length-drop, length-take, ltb, min, ok, ok_or, refl, suc, tests,
  true, zero, ℕ, ◌*◌, ◌+◌, ◌<◌, ◌==◌, ◌>>=◌, ◌>>◌, ◌∷◌, ◌≡◌, ◌≤◌,
}
use propylea.TlsFingerprint.{
  Ciphers, ClientTlsProfile, Extensions, Parse, be16, byte_at, is_grease_u16, note_cipher,
  out_of_fuel, panicked, parse_ciphers, parse_client_hello, parse_extensions, read_alpn,
  read_extension, rejected, require, scan_ciphers, scan_extensions, slice,
}

-- The parser ends properly: with a value that satisfies `P`, or with `None`.
abbrev pub Ends {ℓ} : {A : Type ℓ} → (A → Type 0) → Parse A → Type 0
Ends P (ok a) = P a
Ends P (err rejected) = Unit
Ends P (err panicked) = ⊥
Ends P (err out_of_fuel) = ⊥

Ends-bind {ℓ κ} :
    {A : Type ℓ} {B : Type κ} (P : A → Type 0) (Q : B → Type 0) (m : Parse A) (f : A → Parse B)
    → Ends P m
    → ((a : A) → P a → Ends Q (f a))
    → Ends Q (m >>= f)
Ends-bind P Q (ok a) f h k = k a h
Ends-bind P Q (err rejected) f h k = tt
Ends-bind P Q (err panicked) f h k = absurd h
Ends-bind P Q (err out_of_fuel) f h k = absurd h

Ends-require {ℓ} :
    {B : Type ℓ} (Q : B → Type 0) (b : Bool) (m : Parse B)
    → (b ≡ true → Ends Q m)
    → Ends Q (require b >> m)
Ends-require Q true m k = k refl
Ends-require Q false m k = tt

abbrev Any {ℓ} : {A : Type ℓ} → A → Type 0
Any a = Unit

byte_at-Ends : (buf : Bytes) (i : ℕ) → i < length buf → Ends Any (byte_at buf i)
unfolding byte_at
byte_at-Ends buf i h = let (b, found) = get_elem?-some buf i h in rw (found, ok_or) tt

be16-Ends : (buf : Bytes) (i : ℕ) → i + 2 ≤ length buf → Ends Any (be16 buf i)
unfolding be16
be16-Ends buf i h = Ends-bind Any Any (byte_at buf i) _ (byte_at-Ends buf i (omega arith)) λ hi _.
    Ends-bind Any Any (byte_at buf (i + 1)) _ (byte_at-Ends buf (i + 1) (omega arith)) λ lo _. tt

slice-Ends : (buf : Bytes) (i n : ℕ) → i + n ≤ length buf → Ends (λ b. length b ≡ n) (slice buf i n)
unfolding slice
slice-Ends buf i n h =
    let fits : leb (i + n) (length buf) ≡ true = ground arith in
    rw fits (omega (arith, length-take n (drop i buf), length-drop i buf))

read_alpn-Ends :
    (buf : Bytes) (ext_end idx n : ℕ) (s : Extensions)
    → ext_end ≤ length buf
    → Ends Any (read_alpn buf ext_end idx n s)
unfolding read_alpn
read_alpn-Ends buf ext_end idx n s h = elim (Bool-cases (leb (idx + n) ext_end)) [
  | inl fits ↦ rw fits (
      Ends-bind (λ b. length b ≡ n) Any (slice buf idx n) _ (slice-Ends buf idx n (omega tests))
        (λ alpn _. tt))
  | inr over ↦ rw over tt
]

read_extension-Ends :
    (buf : Bytes) (ext_end idx ty n : ℕ) (s : Extensions)
    → ext_end ≤ length buf
    → Ends Any (read_extension buf ext_end idx ty n s)
unfolding read_extension
read_extension-Ends buf ext_end idx ty n s h = ground (
  arith,
  read_alpn-Ends buf ext_end idx n s h,
  read_alpn-Ends buf ext_end idx n (record s { grease = true }) h,
)

scan_extensions-Ends :
    (fuel : ℕ) (buf : Bytes) (ext_end idx : ℕ) (s : Extensions)
    → ext_end ≤ length buf
    → 0 < fuel
    → ext_end < idx + fuel
    → Ends Any (scan_extensions fuel buf ext_end idx s)
unfolding scan_extensions
scan_extensions-Ends zero buf ext_end idx s h pos enough = elim pos [ ]
scan_extensions-Ends (suc fuel) buf ext_end idx s h pos enough =
    elim (Bool-cases (leb (idx + 4) ext_end)) [
      | inl more ↦
          let room : idx + 4 ≤ ext_end = omega tests in
          rw (more, scan_extensions)
            (Ends-bind Any Any (be16 buf idx) _ (be16-Ends buf idx (omega arith)) λ ty _.
              Ends-bind Any Any (be16 buf (idx + 2)) _ (be16-Ends buf (idx + 2) (omega arith))
                λ n _.
                  Ends-bind Any Any (read_extension buf ext_end (idx + 4) ty n s) _
                    (read_extension-Ends buf ext_end (idx + 4) ty n s h)
                    λ t _.
                      scan_extensions-Ends fuel buf ext_end (idx + 4 + n) t h (omega arith)
                        (omega arith))
      | inr done ↦ rw (done, scan_extensions) tt
    ]

parse_extensions-Ends :
    (buf : Bytes) (idx : ℕ) (s : Extensions) → Ends Any (parse_extensions buf idx s)
unfolding parse_extensions
parse_extensions-Ends buf idx s = elim (Bool-cases (leb (idx + 2) (length buf))) [
  | inl has ↦
      let room : idx + 2 ≤ length buf = omega tests in
      rw has (
        Ends-bind Any Any (be16 buf idx) _ (be16-Ends buf idx room) λ n _.
          scan_extensions-Ends (length buf) buf (min (idx + 2 + n) (length buf)) (idx + 2) s
            (omega arith) (omega arith) (omega arith))
  | inr bare ↦ rw bare tt
]

-- What the loop over the cipher suites keeps: at most three, none of them GREASE.
abbrev pub IsPreference : List ℕ → Type 0
IsPreference ps = (length ps ≤ 3) × All (λ c. is_grease_u16 c ≡ false) ps

note_cipher-IsPreference :
    (s : Ciphers) (c : ℕ) → IsPreference s.primary → IsPreference (note_cipher s c).primary
unfolding note_cipher
note_cipher-IsPreference s c h = elim (Bool-cases (is_grease_u16 c)) [
  | inl g ↦ rw g h
  | inr plain ↦ elim (Bool-cases (ltb (length s.primary) 3)) [
    | inl room ↦
        rw (plain, room)
          (
            omega (tests, length-append s.primary (c ∷ []), h.0),
            All-append (λ c. is_grease_u16 c ≡ false) s.primary (c ∷ []) h.1 (plain, tt),
          )
    | inr full ↦ rw (plain, full) h
  ]
]

scan_ciphers-IsPreference :
    (s : Ciphers) (bytes : Bytes)
    → IsPreference s.primary
    → IsPreference (scan_ciphers s bytes).primary
unfolding scan_ciphers
scan_ciphers-IsPreference s [] h = h
scan_ciphers-IsPreference s (a ∷ []) h = h
scan_ciphers-IsPreference s (a ∷ b ∷ bytes) h =
    scan_ciphers-IsPreference (note_cipher s (a * 256 + b)) bytes
      (note_cipher-IsPreference s (a * 256 + b) h)

-- What is known of every profile: the suites lie in the buffer.
abbrev pub IsProfile : Bytes → ClientTlsProfile → Type 0
IsProfile buf p = (2 * p.cipher_count ≤ length buf) × IsPreference p.primary_ciphers

parse_ciphers-Ends : (buf : Bytes) (idx : ℕ) → Ends (IsProfile buf) (parse_ciphers buf idx)
unfolding parse_ciphers
parse_ciphers-Ends buf idx = Ends-require (IsProfile buf) (leb (idx + 2) (length buf)) _ λ has.
    Ends-bind Any (IsProfile buf) (be16 buf idx) _ (be16-Ends buf idx (omega tests)) λ n _.
      Ends-require (IsProfile buf) (leb (idx + 2 + n) (length buf)) _ λ fits.
        Ends-bind (λ b. length b ≡ n) (IsProfile buf) (slice buf (idx + 2) n) _
          (slice-Ends buf (idx + 2) n (omega tests))
          λ suites _. Ends-require (IsProfile buf) (ltb (idx + 2 + n) (length buf)) _ λ more.
            Ends-bind Any (IsProfile buf) (byte_at buf (idx + 2 + n)) _
              (byte_at-Ends buf (idx + 2 + n) (omega tests))
              λ m _.
                Ends-bind Any (IsProfile buf) (parse_extensions buf (idx + 2 + n + 1 + m) _) _
                  (parse_extensions-Ends buf (idx + 2 + n + 1 + m) _)
                  λ exts _. (omega tests, scan_ciphers-IsPreference _ suites (omega arith, tt))

-- Whatever bytes were peeked, the parser neither reads out of range nor runs out of fuel: it
-- answers `None`, or a profile with at most three preferred ciphers, none of them a GREASE value,
-- and no more cipher suites than the buffer has room for.
pub parse_client_hello-Ends : (buf : Bytes) → Ends (IsProfile buf) (parse_client_hello buf)
unfolding parse_client_hello
parse_client_hello-Ends buf = Ends-require (IsProfile buf) (leb 43 (length buf)) _ λ long.
    let size : 43 ≤ length buf = omega tests in
    Ends-bind Any (IsProfile buf) (byte_at buf 0) _ (byte_at-Ends buf 0 (omega arith)) λ a _.
      Ends-require (IsProfile buf) (a == 0x16) _ λ _.
        Ends-bind Any (IsProfile buf) (be16 buf 3) _ (be16-Ends buf 3 (omega arith)) λ b _.
          Ends-bind Any (IsProfile buf) (byte_at buf 5) _ (byte_at-Ends buf 5 (omega arith)) λ c _.
            Ends-require (IsProfile buf) (c == 0x01) _ λ _.
              Ends-bind Any (IsProfile buf) (byte_at buf 6) _ (byte_at-Ends buf 6 (omega arith))
                λ d _.
                  Ends-bind Any (IsProfile buf) (be16 buf 7) _ (be16-Ends buf 7 (omega arith))
                    λ e _. Ends-require (IsProfile buf) (ltb 43 (length buf)) _ λ more.
                      Ends-bind Any (IsProfile buf) (byte_at buf 43) _
                        (byte_at-Ends buf 43 (omega tests))
                        λ n _. parse_ciphers-Ends buf (43 + (1 + n))
