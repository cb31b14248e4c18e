-- ===== src/Lane/Probe/Document/Laws.antt =====
-- What stands in the document at its keys.
use ggen_igniter.Base.{
  some, [], ◌∷◌, ◌≡◌, refl, ◌↔◌, if◌then◌else◌, eq_of_beq, string_eq, number_eq, ◌==◌,
}
use ggen_igniter.Json.{text, array_of, at}
use ggen_igniter.Lane.Exec.{standing_text_iff}
use ggen_igniter.Lane.Probe.Document.{Facts, document}

module _ (f : Facts) where
  pub at-commands : at ("replay" ∷ "commands" ∷ []) (document f) ≡ some (array_of f.commands)
  unfolding at document
  at-commands = refl

  pub at-falsifiers : at ("falsifiers" ∷ []) (document f) ≡ some (array_of f.falsifiers)
  unfolding at document
  at-falsifiers = refl

  pub at-hosted_ci : at ("hosted_ci" ∷ []) (document f) ≡ some f.hosted_ci
  unfolding at document
  at-hosted_ci = refl

  at-standing :
      at ("standing" ∷ "value" ∷ []) (document f)
      ≡ some (text (if f.full_exit == 0 then "ALIVE" else "PARTIAL_ALIVE"))
  unfolding at document
  at-standing = refl

  pub at-standing_iff :
      (at ("standing" ∷ "value" ∷ []) (document f) ≡ some (text "ALIVE")) ↔ (f.full_exit ≡ 0)
  at-standing_iff = rw at-standing (
    λ h. eq_of_beq f.full_exit 0 ((standing_text_iff (f.full_exit == 0)).0 h),
    λ h. (standing_text_iff (f.full_exit == 0)).1 (rw h),
  )
