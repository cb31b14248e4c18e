-- ===== src/Receipt/Oracles.antt =====
-- `same` and `compare_state`, over `digest`: the SHA-256 of a file, or `none` if there is no file.
use ggen_igniter.Base.{
  String, Option, none, some, List, [], ◌∷◌, Bool, true, false, ◌≡◌, refl, ◌↔◌, arith,
  if◌then◌else◌, ◌==◌, eq_of_beq, eq_self, string_eq, option_eq,
}
use ggen_igniter.Base.Text.{after_last}

pub data Comparison : Type 0 where
  identical : Comparison
  differs : Comparison
  -- the base names of the files that are not there
  absent : List String → Comparison

-- `os.path.basename`
unfoldable pub basename : String → String
unfolding after_last
basename path = after_last b'/' path

module _ (digest : String → Option String) where
  same_digest : Option String → Option String → Bool
  same_digest none db = false
  same_digest (some da) db = some da == db

  unfoldable pub same : String → String → Bool
  unfolding same_digest
  same a b = same_digest (digest a) (digest b)

  compare_digests : String → String → Option String → Option String → Comparison
  compare_digests a b none none = absent (basename a ∷ basename b ∷ [])
  compare_digests a b none (some db) = absent (basename a ∷ [])
  compare_digests a b (some da) none = absent (basename b ∷ [])
  compare_digests a b (some da) (some db) = if da == db then identical else differs

  unfoldable pub compare_state : String → String → Comparison
  unfolding compare_digests basename
  compare_state a b = compare_digests a b (digest a) (digest b)

  -- Two artifacts are the same exactly if both exist and have one digest.
  pub same_iff :
      (a b : String)
      → (same a b ≡ true) ↔ ((d : String) × (digest a ≡ some d) × (digest b ≡ some d))
  unfolding same
  same_iff a b = (forward (digest a) (digest b), λ (d, p, q). rw (p, q, eq_self (some d)))
    where
      forward :
          (x y : Option String)
          → same_digest x y ≡ true
          → (d : String) × (x ≡ some d) × (y ≡ some d)
      forward none y h = absurd (ground (arith, h))
      forward (some d) y h = (d, refl, ground (arith, eq_of_beq (some d) y h))

  -- A comparison reads "identical" exactly of the same artifacts.
  pub compare_state-same : (a b : String) → (compare_state a b ≡ identical) ↔ (same a b ≡ true)
  unfolding compare_state same
  compare_state-same a b = go (digest a) (digest b)
    where
      go : (x y : Option String) → (compare_digests a b x y ≡ identical) ↔ (same_digest x y ≡ true)
      go none none = (λ h. (cc), λ h. (cc))
      go none (some d) = (λ h. (cc), λ h. (cc))
      go (some d) none = (λ h. (cc), λ h. (cc))
      go (some d) (some c) = (λ h. ground arith, λ h. ground arith)
