-- ===== src/Base/Equality.antt =====
-- Python's `==` on the values that the scripts compare, as an interface with lawful instances, and
-- `in` on a sequence of them.
use Prim.Native.Nat.{ℕ, suc, ◌<◌}
use Prim.Native.String.{String}
use text.Mathlib.Text.{◌==◌ as str_eq}
use text.Mathlib.TextEquality.{eq_iff}
use mathlib.Core.Path.{◌≡◌, refl, ap}
use mathlib.Core.Logic.{◌↔◌, ◌⊎◌, inl, inr}
use mathlib.Core.Bool.{Bool, true, false, ◌&&◌, ◌||◌}
use mathlib.Core.Option.{Option, none, some}
use mathlib.Core.List.{List, [], ◌∷◌, ◌++◌, map}
use native.Mathlib.Omega.{arith}
use ggen_igniter.Base.Tests.{nat_beq, nat_beq_iff, and_iff, or_iff, Bool-cases, if◌then◌else◌}

pub record Eq {ℓ} (A : Type ℓ) : Type ℓ where
  pub beq : A → A → Bool
  pub beq_iff : (a b : A) → (beq a b ≡ true) ↔ (a ≡ b)

pub eq_iff_eq {ℓ} : {A : Type ℓ} ⦃e : Eq A⦄ (a b : A) → (e.beq a b ≡ true) ↔ (a ≡ b)
eq_iff_eq ⦃e⦄ = e.beq_iff

pub eq_of_beq {ℓ} : {A : Type ℓ} ⦃e : Eq A⦄ (a b : A) → e.beq a b ≡ true → a ≡ b
eq_of_beq ⦃e⦄ a b = (e.beq_iff a b).0

pub eq_self {ℓ} : {A : Type ℓ} ⦃e : Eq A⦄ (a : A) → e.beq a a ≡ true
eq_self ⦃e⦄ a = (e.beq_iff a a).1 refl

infix 50 ◌==◌
abbrev pub ◌==◌ {ℓ} : {A : Type ℓ} ⦃e : Eq A⦄ → A → A → Bool
◌==◌ ⦃e⦄ = e.beq

instance abbrev pub number_eq : Eq ℕ
number_eq = record { beq = nat_beq; beq_iff = nat_beq_iff }

instance abbrev pub string_eq : Eq String
string_eq = record { beq = str_eq; beq_iff = eq_iff }

module _ {ℓ} {A : Type ℓ} ⦃e : Eq A⦄ where
  abbrev pub option_beq : Option A → Option A → Bool
  option_beq none none = true
  option_beq none (some b) = false
  option_beq (some a) none = false
  option_beq (some a) (some b) = a == b

  pub option_beq_iff : (a b : Option A) → (option_beq a b ≡ true) ↔ (a ≡ b)
  option_beq_iff none none = (λ h. refl, λ h. refl)
  option_beq_iff none (some b) = (λ h. (cc), λ h. (cc))
  option_beq_iff (some a) none = (λ h. (cc), λ h. (cc))
  option_beq_iff (some a) (some b) =
      (λ h. ap some ((e.beq_iff a b).0 h), λ h. (e.beq_iff a b).1 (cc))

instance abbrev pub option_eq {ℓ} : {A : Type ℓ} ⦃e : Eq A⦄ → Eq (Option A)
option_eq = record { beq = option_beq; beq_iff = option_beq_iff }

module _ {ℓ κ} {A : Type ℓ} {B : Type κ} ⦃e : Eq A⦄ ⦃f : Eq B⦄ where
  abbrev pub pair_beq : A × B → A × B → Bool
  pair_beq (a, b) (c, d) = a == c && b == d

  pub pair_beq_iff : (p q : A × B) → (pair_beq p q ≡ true) ↔ (p ≡ q)
  pair_beq_iff (a, b) (c, d) = (
    λ h.
        let g : (a == c ≡ true) × (b == d ≡ true) = (and_iff _ _).0 h in
        cc ((e.beq_iff a c).0 g.0, (f.beq_iff b d).0 g.1),
    λ h. (and_iff _ _).1 ((e.beq_iff a c).1 (ap (λ p. p.0) h), (f.beq_iff b d).1 (ap (λ p. p.1) h)),
  )

instance abbrev pub pair_eq {ℓ κ} : {A : Type ℓ} {B : Type κ} ⦃e : Eq A⦄ ⦃f : Eq B⦄ → Eq (A × B)
pair_eq = record { beq = pair_beq; beq_iff = pair_beq_iff }

-- `a in xs`
module _ {ℓ} {A : Type ℓ} ⦃e : Eq A⦄ where
  unfoldable pub contains : List A → A → Bool
  contains [] a = false
  contains (x ∷ xs) a = x == a || contains xs a

  pub contains-cons :
      (x : A) (xs : List A) (a : A)
      → (contains (x ∷ xs) a ≡ true) ↔ ((x ≡ a) ⊎ (contains xs a ≡ true))
  unfolding contains
  contains-cons x xs a = (
    λ h. elim ((or_iff _ _).0 h) [ inl p ↦ inl ((e.beq_iff x a).0 p) | inr p ↦ inr p ],
    λ h. (or_iff _ _).1 (elim h [ inl p ↦ inl ((e.beq_iff x a).1 p) | inr p ↦ inr p ]),
  )

  pub contains-append :
      (xs ys : List A) (a : A) → contains (xs ++ ys) a ≡ (contains xs a || contains ys a)
  unfolding contains
  contains-append [] ys a = refl
  contains-append (x ∷ xs) ys a = ground (arith, contains-append xs ys a)

  -- How often a value stands in a list.
  unfoldable pub count : List A → A → ℕ
  count [] a = 0
  count (x ∷ xs) a = if x == a then suc (count xs a) else count xs a

  pub contains-count : (xs : List A) (a : A) → contains xs a ≡ true → 0 < count xs a
  unfolding contains count
  contains-count [] a h = cc
  contains-count (x ∷ xs) a h = ground (arith, contains-count xs a)

  pub count-contains : (xs : List A) (a : A) → 0 < count xs a → contains xs a ≡ true
  unfolding contains count
  count-contains [] a h = absurd (omega arith)
  count-contains (x ∷ xs) a h = ground (arith, count-contains xs a)

-- What a list contains, its image contains.
-- No item stands twice.
abbrev pub Distinct {ℓ} : {A : Type ℓ} ⦃e : Eq A⦄ → List A → Type 0
Distinct [] = Unit
Distinct (x ∷ xs) = (contains xs x ≡ false) × Distinct xs

pub contains-map {ℓ κ} :
    {A : Type ℓ} {B : Type κ} ⦃e : Eq A⦄ ⦃d : Eq B⦄ (f : A → B) (xs : List A) (a : A)
    → contains xs a ≡ true
    → contains (map f xs) (f a) ≡ true
unfolding contains
contains-map f [] a h = cc
contains-map f (x ∷ xs) a h = elim (Bool-cases (x == a)) [
  | inl p ↦ rw (ap f (eq_of_beq x a p), eq_self (f a))
  | inr p ↦ ground (arith, p, contains-map f xs a)
]
