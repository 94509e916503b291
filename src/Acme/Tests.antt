-- ===== src/Acme/Tests.antt =====
-- A webroot with one challenge, and instances of what is proved of the responder.
use propylea.Prelude.{Text, codes, if◌then◌else◌, none, refl, some, text_eq, true, ◌||◌, ◌≡◌}
use propylea.Acme.{FileSystem, Response, answer, join_path, try_serve_acme_challenge}
use propylea.Acme.Served.{ServesToken, try_serve-ServesToken}

abbrev token_path : Text
token_path = codes "/srv/.well-known/acme-challenge/tok-1"

-- The challenge, and a file that no token names.
abbrev webroot : FileSystem
webroot = record {
  is_file = λ p. text_eq p token_path || text_eq p (codes "/etc/passwd");
  metadata_file_len = λ p. if text_eq p token_path then some (true, 3) else none;
  read = λ p. if text_eq p token_path then some (codes "key") else none;
}

abbrev request_path : Text
request_path = codes "/.well-known/acme-challenge/tok-1"

abbrev key_response : Response
key_response = record {
  status = 200;
  content_type = some (codes "text/plain; charset=utf-8");
  body = codes "key";
}

served : try_serve_acme_challenge webroot request_path (some (codes "/srv")) ≡ some key_response
unfolding try_serve_acme_challenge join_path
served = refl

traversal :
    try_serve_acme_challenge webroot
      (codes "/.well-known/acme-challenge/../../etc/passwd")
      (some (codes "/srv"))
    ≡ some (answer 400 (codes "Invalid ACME challenge token\n"))
unfolding try_serve_acme_challenge
traversal = refl

try_serve-ServesToken_example : ServesToken webroot (codes "/srv") request_path (codes "key")
try_serve-ServesToken_example =
    try_serve-ServesToken webroot request_path (codes "/srv") key_response served refl
