-- ===== src/TlsFingerprint.antt =====
-- src/tls_fingerprint.rs: the ClientHello parser, and the check of a User-Agent against what it
-- found. A read or a slice out of range would panic in the source, so it is an outcome here, and
-- so is a loop that runs out of fuel. The record and hello lengths are read and not used, as there.
mod Tests
pub mod Safety
pub mod Grease
pub mod Coherence
use Prim.Native.Nat.{bit_and}
use propylea.Prelude.{
  Bool, Bytes, List, Option, Result, Text, [], codes, contains, drop, err, false, get_elem?,
  if◌then◌else◌, leb, length, ltb, min, none, not, ok, ok_or, some, suc, take, trim, true, zero, ℕ,
  ◌&&◌, ◌*◌, ◌++◌, ◌+◌, ◌/◌, ◌==◌, ◌>>=◌, ◌>>◌, ◌||◌, ◌∷◌,
}

unfoldable pub is_grease_u16 : ℕ → Bool
is_grease_u16 val = bit_and val 0x0f0f == 0x0a0a && (val / 256) == bit_and val 0x00ff

pub record ClientTlsProfile : Type 0 where
  pub has_grease : Bool
  pub cipher_count : ℕ
  pub offers_h2 : Bool
  pub has_sni : Bool
  pub primary_ciphers : List ℕ

-- How the parser ends without a profile: `None` is `rejected`.
pub data Stop : Type 0 where
  rejected panicked out_of_fuel : Stop

abbrev pub Parse {ℓ} : Type ℓ → Type ℓ
Parse A = Result A Stop

-- `buf[i]`
unfoldable pub byte_at : Bytes → ℕ → Parse ℕ
byte_at buf i = ok_or (get_elem? buf i) panicked

-- `u16::from_be_bytes([buf[i], buf[i + 1]])`
unfoldable pub be16 : Bytes → ℕ → Parse ℕ
unfolding byte_at
be16 buf i = do hi ← byte_at buf i; lo ← byte_at buf (i + 1); ok (hi * 256 + lo)

-- `&buf[i..i + n]`
unfoldable pub slice : Bytes → ℕ → ℕ → Parse Bytes
slice buf i n = if leb (i + n) (length buf) then ok (take n (drop i buf)) else err panicked

abbrev pub require : Bool → Parse (Unit {0})
require true = ok tt
require false = err rejected

pub record Ciphers : Type 0 where
  pub grease : Bool
  pub primary : List ℕ

unfoldable pub note_cipher : Ciphers → ℕ → Ciphers
unfolding is_grease_u16
note_cipher s cipher =
    if is_grease_u16 cipher
    then record s { grease = true }
    else if ltb (length s.primary) 3
    then record s { primary = s.primary ++ (cipher ∷ []) }
    else s

-- The loop over `chunks_exact(2)`: an odd byte at the end is left out.
unfoldable pub scan_ciphers : Ciphers → Bytes → Ciphers
unfolding note_cipher
scan_ciphers s [] = s
scan_ciphers s (a ∷ []) = s
scan_ciphers s (a ∷ b ∷ bytes) = scan_ciphers (note_cipher s (a * 256 + b)) bytes

-- `alpn_data.windows(2).any(|w| w == b"h2")`
unfoldable pub has_h2 : Bytes → Bool
has_h2 [] = false
has_h2 (a ∷ []) = false
has_h2 (a ∷ b ∷ bytes) = (a == b'h' && b == b'2') || has_h2 (b ∷ bytes)

pub record Extensions : Type 0 where
  pub grease : Bool
  pub h2 : Bool
  pub sni : Bool

-- The body of the ALPN branch.
unfoldable pub read_alpn : Bytes → ℕ → ℕ → ℕ → Extensions → Parse Extensions
unfolding slice has_h2
read_alpn buf ext_end idx ext_len s =
    if leb (idx + ext_len) ext_end
    then (do alpn ← slice buf idx ext_len; ok (if has_h2 alpn then record s { h2 = true } else s))
    else ok s

-- What one extension, whose body is at `idx`, does to the flags.
unfoldable pub read_extension : Bytes → ℕ → ℕ → ℕ → ℕ → Extensions → Parse Extensions
unfolding read_alpn is_grease_u16
read_extension buf ext_end idx ext_type ext_len s =
    let t = if is_grease_u16 ext_type then record s { grease = true } else s in
    if ext_type == 0x0000
    then ok (record t { sni = true })
    else if ext_type == 0x0010
    then read_alpn buf ext_end idx ext_len t
    else ok t

-- `while idx + 4 <= ext_end`
unfoldable pub scan_extensions : ℕ → Bytes → ℕ → ℕ → Extensions → Parse Extensions
unfolding be16 read_extension
scan_extensions zero buf ext_end idx s = err out_of_fuel
scan_extensions (suc fuel) buf ext_end idx s = elim (leb (idx + 4) ext_end) [
  | true ↦ do
    ext_type ← be16 buf idx
    ext_len ← be16 buf (idx + 2)
    t ← read_extension buf ext_end (idx + 4) ext_type ext_len s
    scan_extensions fuel buf ext_end (idx + 4 + ext_len) t
  | false ↦ ok s
]

-- From the length of the extensions on; a hello that ends before it has none.
unfoldable pub parse_extensions : Bytes → ℕ → Extensions → Parse Extensions
unfolding be16 scan_extensions
parse_extensions buf idx s =
    if leb (idx + 2) (length buf)
    then (do
      extensions_len ← be16 buf idx
      let ext_end = min (idx + 2 + extensions_len) (length buf)
      scan_extensions (length buf) buf ext_end (idx + 2) s)
    else ok s

-- From the length of the cipher suites on.
unfoldable pub parse_ciphers : Bytes → ℕ → Parse ClientTlsProfile
unfolding be16 slice scan_ciphers byte_at parse_extensions
parse_ciphers buf idx = do
  require (leb (idx + 2) (length buf))
  cipher_suites_len ← be16 buf idx
  require (leb (idx + 2 + cipher_suites_len) (length buf))
  suites ← slice buf (idx + 2) cipher_suites_len
  let found = scan_ciphers (record { grease = false; primary = [] }) suites
  let at = idx + 2 + cipher_suites_len
  require (ltb at (length buf))
  compression_len ← byte_at buf at
  exts ←
      parse_extensions buf (at + 1 + compression_len)
        (record { grease = found.grease; h2 = false; sni = false })
  ok (record {
    has_grease = exts.grease;
    cipher_count = cipher_suites_len / 2;
    offers_h2 = exts.h2;
    has_sni = exts.sni;
    primary_ciphers = found.primary;
  })

unfoldable pub parse_client_hello : Bytes → Parse ClientTlsProfile
unfolding byte_at be16 parse_ciphers
parse_client_hello buf = do
  require (leb 43 (length buf))
  record_type ← byte_at buf 0
  require (record_type == 0x16)
  record_len ← be16 buf 3
  handshake_type ← byte_at buf 5
  require (handshake_type == 0x01)
  hello_len_high ← byte_at buf 6
  hello_len_low ← be16 buf 7
  require (ltb 43 (length buf))
  session_id_len ← byte_at buf 43
  parse_ciphers buf (43 + (1 + session_id_len))

pub data Verdict : Type 0 where
  coherent : Verdict
  spoofed : Text → Verdict

abbrev pub no_grease_reason : Text
no_grease_reason =
    codes
      "User-Agent claims modern Chrome/Safari/Edge browser, but TLS ClientHello lacks mandatory RFC 8701 GREASE signatures (Python/Go/CLI impersonation detected)"

abbrev pub no_h2_reason : Text
no_h2_reason =
    codes
      "User-Agent claims Chrome/Edge browser, but TLS ClientHello omits HTTP/2 ALPN and has truncated cipher list"

unfoldable pub claims_chrome : Text → Bool
claims_chrome ua = contains ua (codes "Chrome/") || contains ua (codes "CriOS/")

unfoldable pub claims_safari : Text → Bool
claims_safari ua =
    contains ua (codes "Safari/")
    && not (contains ua (codes "Chrome/"))
    && contains ua (codes "Version/")

unfoldable pub claims_edge : Text → Bool
claims_edge ua = contains ua (codes "Edg/") || contains ua (codes "Edge/")

unfoldable pub is_search_spider : Text → Bool
is_search_spider ua =
    contains ua (codes "Googlebot")
    || contains ua (codes "bingbot")
    || contains ua (codes "Baiduspider")
    || contains ua (codes "YandexBot")

unfoldable pub verify_user_agent_coherence : ClientTlsProfile → Option Text → Verdict
verify_user_agent_coherence p none = coherent
verify_user_agent_coherence p (some user_agent) =
    let ua = trim user_agent in
    if is_search_spider ua
    then coherent
    else if (claims_chrome ua || claims_edge ua || claims_safari ua) && not p.has_grease
    then spoofed no_grease_reason
    else if (claims_chrome ua || claims_edge ua) && not p.offers_h2 && ltb p.cipher_count 10
    then spoofed no_h2_reason
    else coherent
