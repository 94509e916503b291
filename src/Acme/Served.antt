-- ===== src/Acme/Served.antt =====
-- src/acme.rs: what the responder reads from the file system, and what it serves.
use propylea.Acme.{
  FileSystem, Response, acme_challenge_prefix, candidate_flat, candidate_nested, challenge_response,
  is_token_char, is_valid_token, measured_response, not_found, read_response, serve_file,
  serve_from, serve_token, try_serve_acme_challenge,
}
use propylea.Prelude.{
  All, Bool, Bool-cases, Bytes, Option, Text, [], all→All, ap, arith, false, if◌then◌else◌, inl,
  inr, is_empty, leb, leb→le, none, refl, some, strip_prefix, true, utf8_len, ℕ, ◌&&◌, ◌∙◌, ◌∷◌,
  ◌≡◌, ◌≤◌, ◌⊎◌,
}

-- The two file systems answer alike on this path.
abbrev pub AgreeOn : FileSystem → FileSystem → Text → Type 0
AgreeOn fs fs' path =
    (fs.is_file path ≡ fs'.is_file path)
    × ((fs.metadata_file_len path ≡ fs'.metadata_file_len path) × (fs.read path ≡ fs'.read path))

-- A token by RFC 8555: 1 to 128 characters, each a letter or digit of ASCII, `-` or `_`.
abbrev pub IsToken : Text → Type 0
IsToken token =
    (is_empty token ≡ false) × ((utf8_len token ≤ 128) × All (λ c. is_token_char c ≡ true) token)

valid-IsToken : (token : Text) → is_valid_token token ≡ true → IsToken token
unfolding is_valid_token
valid-IsToken [] h = cc
valid-IsToken (c ∷ s) h =
    (refl, (ground (arith, h), all→All is_token_char (c ∷ s) (ground (arith, h))))

measured-AgreeOn :
    (fs fs' : FileSystem) (path : Text) (o : Option (Bool × ℕ))
    → fs.read path ≡ fs'.read path
    → measured_response fs path o ≡ measured_response fs' path o
measured-AgreeOn fs fs' path none h = refl
measured-AgreeOn fs fs' path (some (is_file, len)) h =
    ap (λ r. if is_file && leb len 4096 then read_response r else not_found) h

serve_file-AgreeOn :
    (fs fs' : FileSystem) (path : Text)
    → AgreeOn fs fs' path
    → serve_file fs path ≡ serve_file fs' path
unfolding serve_file
serve_file-AgreeOn fs fs' path (a, (b, c)) =
    measured-AgreeOn fs fs' path (fs.metadata_file_len path) c ∙ ap (measured_response fs' path) b

choose-eq :
    {a a' b b' : Bool} {x x' y y' : Response}
    → a ≡ a'
    → b ≡ b'
    → x ≡ x'
    → y ≡ y'
    → (if a then x else (if b then y else not_found))
      ≡ (if a' then x' else (if b' then y' else not_found))
choose-eq ha hb hx hy = rw (ha, hb, hx, hy)

serve_token-AgreeOn :
    (fs fs' : FileSystem) (root token : Text)
    → AgreeOn fs fs' (candidate_nested root token)
    → AgreeOn fs fs' (candidate_flat root token)
    → serve_token fs root token ≡ serve_token fs' root token
unfolding serve_token
serve_token-AgreeOn fs fs' root token n f =
    choose-eq n.0 f.0 (serve_file-AgreeOn fs fs' (candidate_nested root token) n)
      (serve_file-AgreeOn fs fs' (candidate_flat root token) f)

abbrev pub AgreeOnTokens : FileSystem → FileSystem → Text → Type 0
AgreeOnTokens fs fs' root =
    (token : Text)
    → IsToken token
    → AgreeOn fs fs' (candidate_nested root token) × AgreeOn fs fs' (candidate_flat root token)

challenge-AgreeOn :
    (fs fs' : FileSystem) (root : Text)
    → AgreeOnTokens fs fs' root
    → (o : Option Text) → challenge_response fs (some root) o ≡ challenge_response fs' (some root) o
unfolding serve_from
challenge-AgreeOn fs fs' root h none = refl
challenge-AgreeOn fs fs' root h (some token) = elim (Bool-cases (is_valid_token token)) [
  | inl e ↦
      let (n, f) = h token (valid-IsToken token e) in
      rw e (ap (λ r. some r) (serve_token-AgreeOn fs fs' root token n f))
  | inr e ↦ rw e
]

-- The responder depends on the file system only at the two paths that a well-formed token has
-- under the webroot: two file systems that agree there for every token give the same answer to
-- every request path.
pub try_serve-AgreeOn :
    (fs fs' : FileSystem) (raw_path root : Text)
    → AgreeOnTokens fs fs' root
    → try_serve_acme_challenge fs raw_path (some root)
      ≡ try_serve_acme_challenge fs' raw_path (some root)
unfolding try_serve_acme_challenge
try_serve-AgreeOn fs fs' raw_path root h =
    challenge-AgreeOn fs fs' root h (strip_prefix raw_path acme_challenge_prefix)

abbrev IsSmallFile : FileSystem → Text → Bytes → Type 0
IsSmallFile fs path body =
    ((len : ℕ) × (fs.metadata_file_len path ≡ some (true, len)) × (len ≤ 4096))
    × (fs.read path ≡ some body)

-- What an answer with status 200 is: the request names a token, and the body is the content of one
-- of its two paths, which is a file of at most 4096 bytes.
pub ServesToken : FileSystem → Text → Text → Bytes → Type 0
ServesToken fs root raw_path body =
    (token : Text) × (strip_prefix raw_path acme_challenge_prefix ≡ some token)
    × IsToken token
    × (IsSmallFile fs (candidate_nested root token) body
        ⊎ IsSmallFile fs (candidate_flat root token) body)

read-200 : (o : Option Bytes) → (read_response o).status ≡ 200 → o ≡ some (read_response o).body
read-200 none h = absurd (omega (arith, h))
read-200 (some b) h = refl

measured-200 :
    (fs : FileSystem) (path : Text) (o : Option (Bool × ℕ))
    → fs.metadata_file_len path ≡ o
    → (measured_response fs path o).status ≡ 200
    → IsSmallFile fs path (measured_response fs path o).body
measured-200 fs path none e h = absurd (omega (arith, h))
measured-200 fs path (some (false, len)) e h = absurd (omega (arith, h))
measured-200 fs path (some (true, len)) e h = elim (Bool-cases (leb len 4096)) [
  | inl x ↦ rw x ((len, e, leb→le len 4096 x), read-200 (fs.read path) (rw x at h))
  | inr x ↦ let clash = rw x at h in absurd (omega (arith, clash))
]

abbrev pick : FileSystem → Text → Text → Bool → Bool → Response
pick fs p q a b = if a then serve_file fs p else (if b then serve_file fs q else not_found)

pick-200 :
    (fs : FileSystem) (p q : Text) (a b : Bool)
    → (pick fs p q a b).status ≡ 200
    → IsSmallFile fs p (pick fs p q a b).body ⊎ IsSmallFile fs q (pick fs p q a b).body
unfolding serve_file
pick-200 fs p q true b h = inl (measured-200 fs p (fs.metadata_file_len p) refl h)
pick-200 fs p q false true h = inr (measured-200 fs q (fs.metadata_file_len q) refl h)
pick-200 fs p q false false h = absurd (omega (arith, h))

serve_token-pick :
    (fs : FileSystem) (root token : Text)
    → serve_token fs root token
      ≡ pick fs
          (candidate_nested root token)
          (candidate_flat root token)
          (fs.is_file (candidate_nested root token))
          (fs.is_file (candidate_flat root token))
unfolding serve_token
serve_token-pick fs root token = refl

serve_token-200 :
    (fs : FileSystem) (root token : Text)
    → (serve_token fs root token).status ≡ 200
    → IsSmallFile fs (candidate_nested root token) (serve_token fs root token).body
      ⊎ IsSmallFile fs (candidate_flat root token) (serve_token fs root token).body
serve_token-200 fs root token h =
    let picked = serve_token-pick fs root token in
    rw picked (
      pick-200 fs (candidate_nested root token) (candidate_flat root token)
        (fs.is_file (candidate_nested root token)) (fs.is_file (candidate_flat root token))
        (rw picked at h))

abbrev Serves : FileSystem → Text → Text → Option Response → Type 0
Serves fs root raw_path none = Unit
Serves fs root raw_path (some r) = r.status ≡ 200 → ServesToken fs root raw_path r.body

challenge-Serves :
    (fs : FileSystem) (root raw_path : Text) (o : Option Text)
    → strip_prefix raw_path acme_challenge_prefix ≡ o
    → Serves fs root raw_path (challenge_response fs (some root) o)
unfolding serve_from ServesToken
challenge-Serves fs root raw_path none e = tt
challenge-Serves fs root raw_path (some token) e = elim (Bool-cases (is_valid_token token)) [
  | inl v ↦ rw v (λ h. (token, e, valid-IsToken token v, serve_token-200 fs root token h))
  | inr v ↦ rw v (λ h. absurd (omega (arith, h)))
]

-- A file is served only for a well-formed token behind the challenge prefix, and what is served is
-- the content of the token's file under the webroot, of at most 4096 bytes.
pub try_serve-ServesToken :
    (fs : FileSystem) (raw_path root : Text) (r : Response)
    → try_serve_acme_challenge fs raw_path (some root) ≡ some r
    → r.status ≡ 200
    → ServesToken fs root raw_path r.body
unfolding try_serve_acme_challenge
try_serve-ServesToken fs raw_path root r e =
    rw e at (challenge-Serves fs root raw_path (strip_prefix raw_path acme_challenge_prefix) refl)
