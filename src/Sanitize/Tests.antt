-- ===== src/Sanitize/Tests.antt =====
-- Runs of the sanitizers, and instances of what is proved of them.
use propylea.Prelude.{Text, codes, refl, ◌++◌, ◌∷◌, ◌≡◌}
use propylea.Sanitize.{scrub_ansi_and_control}
use propylea.Sanitize.Scrub.{IsClean, scrub-IsClean}

-- A red "ok", a bell, and a window title.
abbrev hostile : Text
hostile = 0x1b ∷ codes "[31mok" ++ (7 ∷ 0x1b ∷ codes "]0;title" ++ (7 ∷ codes "!"))

hostile_scrubbed : scrub_ansi_and_control hostile 512 ≡ codes "ok!"
unfolding scrub_ansi_and_control
hostile_scrubbed = refl

scrub-IsClean_example : IsClean 512 (scrub_ansi_and_control hostile 512)
scrub-IsClean_example = scrub-IsClean hostile 512
