-- ===== src/Headers/Tests.antt =====
-- Runs of the header rewritings on a list of headers, and instances of what is proved of them.
use propylea.Prelude.{All, Text, [], arith, codes, ◌++◌, ◌∷◌}
use propylea.Http.{IsVisible}
use propylea.Http.Assoc.{Entries, assoc_headers}
use propylea.Headers.{https, via, via_banner, x_forwarded_for, x_forwarded_proto, x_real_ip}
use propylea.Headers.Keep.{IsOnly}
use propylea.Headers.Upstream.{forwarded_headers, forwarded_headers-IsOnly}

abbrev peer : Text
peer = codes "198.51.100.42"

abbrev spoofed : Entries
spoofed =
    (codes "x-forwarded-for", codes "10.0.0.1")
    ∷ (codes "true-client-ip", codes "10.0.0.1")
    ∷ (codes "accept", codes "text/html")
    ∷ []

peer-IsVisible : All IsVisible peer
peer-IsVisible = ground arith

forwarded_headers-IsOnly_example :
    IsOnly assoc_headers x_real_ip peer (forwarded_headers assoc_headers peer spoofed)
    × (IsOnly assoc_headers x_forwarded_proto https (forwarded_headers assoc_headers peer spoofed)
        × (IsOnly assoc_headers via via_banner (forwarded_headers assoc_headers peer spoofed)
            × IsOnly assoc_headers x_forwarded_for
                (peer ++ (codes ", " ++ peer))
                (forwarded_headers assoc_headers peer spoofed)))
forwarded_headers-IsOnly_example =
    forwarded_headers-IsOnly assoc_headers peer spoofed peer-IsVisible
