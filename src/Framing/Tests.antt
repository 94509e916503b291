-- ===== src/Framing/Tests.antt =====
-- Runs of the framing guard on a list of headers, and an instance of what is proved of it.
use propylea.Prelude.{[], codes, err, parse_u64, refl, ◌∷◌, ◌≡◌}
use propylea.Http.Assoc.{Entries, assoc_headers}
use propylea.Framing.{FramingGuard, conflicting_framing, pass, payload_too_large, validate_headers}
use propylea.Framing.Accepted.{IsFramed, validate_headers-IsFramed}

abbrev repeated_length : Entries
repeated_length =
    (codes "content-length", codes "5")
    ∷ (codes "host", codes "a.example")
    ∷ (codes "content-length", codes " 5 ")
    ∷ []

abbrev small_guard : FramingGuard
small_guard = record { max_body_bytes = 100 }

accepted : validate_headers assoc_headers small_guard repeated_length (codes "POST") ≡ pass
unfolding validate_headers parse_u64
accepted = refl

smuggled :
    validate_headers assoc_headers small_guard
      ((codes "transfer-encoding", codes "chunked") ∷ repeated_length)
      (codes "POST")
    ≡ err conflicting_framing
unfolding validate_headers parse_u64
smuggled = refl

too_large :
    validate_headers assoc_headers small_guard
      ((codes "content-length", codes "101") ∷ [])
      (codes "POST")
    ≡ err (payload_too_large 100 101)
unfolding validate_headers parse_u64
too_large = refl

-- A list of equal lengths passes the test of step 5, which a single length does not.
listed_length_on_get :
    validate_headers assoc_headers small_guard
      ((codes "content-length", codes "5, 5") ∷ [])
      (codes "GET")
    ≡ pass
unfolding validate_headers parse_u64
listed_length_on_get = refl

validate_headers-IsFramed_example : IsFramed assoc_headers small_guard repeated_length
validate_headers-IsFramed_example =
    validate_headers-IsFramed assoc_headers small_guard repeated_length (codes "POST") accepted
