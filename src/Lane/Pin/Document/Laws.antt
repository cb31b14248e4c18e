-- ===== src/Lane/Pin/Document/Laws.antt =====
-- What stands in the document at its keys.
use ggen_igniter.Base.{some, [], ◌∷◌, true, ◌≡◌, refl, ◌↔◌, map, string_eq, if◌then◌else◌}
use ggen_igniter.Json.{text, array_of, at}
use ggen_igniter.Lane.Pin.Commands.{commands_of, falsifiers_of}
use ggen_igniter.Lane.Exec.{standing_text_iff}
use ggen_igniter.Lane.Pin.Stated.{Facts, command_json}
use ggen_igniter.Lane.Pin.Document.{document}

module _ (f : Facts) where
  pub at-commands :
      at ("replay" ∷ "commands" ∷ []) (document f)
      ≡ some (array_of (map command_json (commands_of f.subject f.evidence)))
  unfolding at document
  at-commands = refl

  pub at-falsifiers :
      at ("falsifiers" ∷ []) (document f)
      ≡ some (array_of (map command_json (falsifiers_of f.subject f.evidence)))
  unfolding at document
  at-falsifiers = refl

  pub at-subject : at ("identity" ∷ "subject_sha" ∷ []) (document f) ≡ some (text f.subject)
  unfolding at document
  at-subject = refl

  at-standing :
      at ("standing" ∷ "value" ∷ []) (document f)
      ≡ some (text (if f.all_zero then "ALIVE" else "PARTIAL_ALIVE"))
  unfolding at document
  at-standing = refl

  pub at-standing_iff :
      (at ("standing" ∷ "value" ∷ []) (document f) ≡ some (text "ALIVE")) ↔ (f.all_zero ≡ true)
  at-standing_iff = rw at-standing (standing_text_iff f.all_zero)
