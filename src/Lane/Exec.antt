-- ===== src/Lane/Exec.antt =====
-- How the scripts of the lanes end without a receipt, and what follows the steps that may do so.
use ggen_igniter.Base.{
  String, Option, none, some, Bool, true, false, ◌≡◌, refl, ap, ◌↔◌, inl, inr, arith, Bool-cases,
  eq_iff_eq, if◌then◌else◌, string_eq,
}
use ggen_igniter.Json.{Json, text}

-- How a script ends without a receipt.
pub data Failure : Type 0 where
  usage : Failure
  assertion : Failure
  file_not_found : String → Failure

pub data Built {ℓ} (A : Type ℓ) : Type ℓ where
  built : A → Built A
  failed : Failure → Built A

module _ {ℓ κ} {A : Type ℓ} {B : Type κ} where
  infixl 5 ◌>>=◌
  abbrev pub ◌>>=◌ : Built A → (A → Built B) → Built B
  built a >>= next = next a
  failed f >>= next = failed f

unfoldable pub assert_that : Bool → Built (Unit {0})
assert_that true = built tt
assert_that false = failed assertion

-- The text of a file, if it is there.
unfoldable pub opened : String → Option String → Built String
opened path none = failed (file_not_found path)
opened path (some content) = built content

module _ {ℓ κ} {A : Type ℓ} {B : Type κ} where
  -- Code that built its result built one before what follows it.
  pub >>=-eq-built :
      (first : Built A) (next : A → Built B) {out : B}
      → (first >>= next) ≡ built out
      → (mid : A) × (first ≡ built mid) × (next mid ≡ built out)
  >>=-eq-built (built mid) next h = (mid, refl, h)
  >>=-eq-built (failed f) next h = cc

pub built_inj {ℓ} : {A : Type ℓ} {a b : A} → built a ≡ built b → a ≡ b
built_inj h = cc

pub asserted : (b : Bool) {u : Unit {0}} → assert_that b ≡ built u → b ≡ true
unfolding assert_that
asserted true h = refl
asserted false h = absurd (cc)

pub opened_iff :
    (path : String) (o : Option String) (content : String)
    → opened path o ≡ built content
    → o ≡ some content
unfolding opened
opened_iff path none content h = absurd (cc)
opened_iff path (some s) content h = ap some (built_inj h)

some_text_inj : {s t : String} → ◌≡◌ {A = Option Json} (some (text s)) (some (text t)) → s ≡ t
some_text_inj h = cc

partial_ne_alive : ◌≡◌ {A = String} "PARTIAL_ALIVE" "ALIVE" → ⊥
partial_ne_alive h = absurd (ground (arith, h, eq_iff_eq {A = String} "PARTIAL_ALIVE" "ALIVE"))

-- The text of a standing says ALIVE exactly if the test that chooses it holds.
pub standing_text_iff :
    (b : Bool)
    → (◌≡◌ {A = Option Json}
        (some (text (if b then "ALIVE" else "PARTIAL_ALIVE")))
        (some (text "ALIVE")))
      ↔ (b ≡ true)
standing_text_iff b = elim (Bool-cases b) [
  | inl e ↦ (λ h. e, λ h. rw e)
  | inr e ↦ (λ h. absurd (partial_ne_alive (some_text_inj (rw e at h))), λ h. absurd (cc))
]
