-- ===== src/Acme.antt =====
-- src/acme.rs: the responder for ACME challenges. The file system is an argument: what a path is,
-- its length and its content; a path is its text, `/` between its parts.
mod Tests
pub mod Served
use propylea.Prelude.{
  Bool, Bytes, Option, Text, all, codes, ends_with, if◌then◌else◌, is_empty, leb, none, not, some,
  strip_prefix, utf8_len, ℕ, ◌&&◌, ◌++◌, ◌==◌, ◌||◌,
}

pub record FileSystem : Type 0 where
  pub is_file : Text → Bool
  pub metadata_file_len : Text → Option (Bool × ℕ)
  pub read : Text → Option Bytes

pub record Response : Type 0 where
  pub status : ℕ
  pub content_type : Option Text
  pub body : Bytes

abbrev pub acme_challenge_prefix : Text
acme_challenge_prefix = codes "/.well-known/acme-challenge/"

abbrev is_between : ℕ → ℕ → ℕ → Bool
is_between lo hi c = leb lo c && leb c hi

abbrev pub is_token_char : ℕ → Bool
is_token_char c =
    is_between b'0' b'9' c
    || is_between b'A' b'Z' c
    || is_between b'a' b'z' c
    || c == b'-'
    || c == b'_'

unfoldable pub is_valid_token : Text → Bool
is_valid_token token = not (is_empty token) && (leb (utf8_len token) 128 && all is_token_char token)

abbrev pub answer : ℕ → Text → Response
answer status body = record { status = status; content_type = none; body = body }

-- `Path::join` with a relative path.
unfoldable pub join_path : Text → Text → Text
join_path root part =
    if is_empty root
    then part
    else if ends_with root (codes "/")
    then root ++ part
    else root ++ (codes "/" ++ part)

abbrev pub candidate_nested : Text → Text → Text
candidate_nested root token =
    join_path (join_path (join_path root (codes ".well-known")) (codes "acme-challenge")) token

abbrev pub candidate_flat : Text → Text → Text
candidate_flat root token = join_path root token

abbrev pub not_found : Response
not_found = answer 404 (codes "ACME challenge token not found\n")

abbrev read_response : Option Bytes → Response
read_response none = answer 500 (codes "Failed to read challenge token\n")
read_response (some content) = record {
  status = 200;
  content_type = some (codes "text/plain; charset=utf-8");
  body = content;
}

-- The match on the metadata: a file of at most 4096 bytes is read.
abbrev measured_response : FileSystem → Text → Option (Bool × ℕ) → Response
measured_response fs path none = not_found
measured_response fs path (some (is_file, len)) =
    if is_file && leb len 4096 then read_response (fs.read path) else not_found

unfoldable pub serve_file : FileSystem → Text → Response
serve_file fs path = measured_response fs path (fs.metadata_file_len path)

unfoldable pub serve_token : FileSystem → Text → Text → Response
unfolding serve_file
serve_token fs root token =
    if fs.is_file (candidate_nested root token)
    then serve_file fs (candidate_nested root token)
    else if fs.is_file (candidate_flat root token)
    then serve_file fs (candidate_flat root token)
    else not_found

unfoldable pub serve_from : FileSystem → Text → Option Text → Response
unfolding serve_token
serve_from fs token none = answer 404 (codes "ACME challenge directory not configured\n")
serve_from fs token (some root) = serve_token fs root token

abbrev challenge_response : FileSystem → Option Text → Option Text → Option Response
challenge_response fs webroot none = none
challenge_response fs webroot (some token) = some (
    if is_valid_token token
    then serve_from fs token webroot
    else answer 400 (codes "Invalid ACME challenge token\n"))

unfoldable pub try_serve_acme_challenge : FileSystem → Text → Option Text → Option Response
unfolding is_valid_token serve_from
try_serve_acme_challenge fs raw_path webroot =
    challenge_response fs webroot (strip_prefix raw_path acme_challenge_prefix)
