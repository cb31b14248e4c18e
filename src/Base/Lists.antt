-- ===== src/Base/Lists.antt =====
-- Lists: the loops of the scripts as combinators, and the predicates that specifications use.
use Prim.Native.Nat.{ℕ, suc, ◌+◌}
use mathlib.Core.Path.{◌≡◌, refl, subst}
use mathlib.Core.Logic.{◌↔◌, inl, inr}
use mathlib.Core.Bool.{Bool, true, false, ◌&&◌, ◌||◌}
use mathlib.Core.List.{List, [], ◌∷◌, ◌++◌, map}
use native.Mathlib.Omega.{arith}
use ggen_igniter.Base.Tests.{and_iff, Bool-cases, if◌then◌else◌}
use ggen_igniter.Base.Equality.{Eq, contains, contains-cons}

-- Every item of a list.
abbrev pub All {ℓ κ} : {A : Type ℓ} → (A → Type κ) → List A → Type κ
All P [] = Unit
All P (x ∷ xs) = P x × All P xs

module _ {ℓ} {A : Type ℓ} where
  abbrev pub length : List A → ℕ
  length [] = 0
  length (x ∷ xs) = suc (length xs)

  pub length-append : (xs ys : List A) → length (xs ++ ys) ≡ length xs + length ys
  length-append [] ys = omega arith
  length-append (x ∷ xs) ys = omega (arith, length-append xs ys)

  -- `[x for x in xs if p(x)]`
  unfoldable pub filter : (A → Bool) → List A → List A
  filter p [] = []
  filter p (x ∷ xs) = let rest = filter p xs in if p x then x ∷ rest else rest

  -- `any(p(x) for x in xs)`
  unfoldable pub any : (A → Bool) → List A → Bool
  any p [] = false
  any p (x ∷ xs) = p x || any p xs

  -- `all(p(x) for x in xs)`
  unfoldable pub all : (A → Bool) → List A → Bool
  all p [] = true
  all p (x ∷ xs) = p x && all p xs

  abbrev pub is_empty : List A → Bool
  is_empty [] = true
  is_empty (x ∷ xs) = false

  pub is_empty_iff : (xs : List A) → (is_empty xs ≡ true) ↔ (xs ≡ [])
  is_empty_iff [] = (λ h. refl, λ h. refl)
  is_empty_iff (x ∷ xs) = (λ h. (cc), λ h. (cc))

  pub cons_ne_nil : {x : A} {xs : List A} → x ∷ xs ≡ [] → ⊥
  cons_ne_nil h = cc

  pub append-eq-nil : (xs ys : List A) → (xs ++ ys ≡ []) ↔ ((xs ≡ []) × (ys ≡ []))
  append-eq-nil [] ys = (λ h. (refl, h), λ h. h.1)
  append-eq-nil (x ∷ xs) ys = (λ h. (cc), λ h. let g = h.0 in cc)

  pub append₃-eq-nil :
      (xs ys zs : List A) → (xs ++ (ys ++ zs) ≡ []) ↔ ((xs ≡ []) × (ys ≡ []) × (zs ≡ []))
  append₃-eq-nil xs ys zs = (
    λ h.
        let (p, r) = (append-eq-nil xs (ys ++ zs)).0 h in
        let (q, s) = (append-eq-nil ys zs).0 r in (p, q, s),
    λ h. (append-eq-nil xs (ys ++ zs)).1 (h.0, (append-eq-nil ys zs).1 (h.1, h.2)),
  )

  pub filter-eq-nil : (p : A → Bool) (xs : List A) → (filter p xs ≡ []) ↔ All (λ x. p x ≡ false) xs
  unfolding filter
  filter-eq-nil p [] = (λ h. tt, λ h. refl)
  filter-eq-nil p (x ∷ xs) = (
    λ h. elim (Bool-cases (p x)) [
      | inl e ↦ absurd (ground (arith, e))
      | inr e ↦ (e, (filter-eq-nil p xs).0 (ground (arith, e)))
    ],
    λ h. rw h.0 ((filter-eq-nil p xs).1 h.1),
  )

  pub all_iff : (p : A → Bool) (xs : List A) → (all p xs ≡ true) ↔ All (λ x. p x ≡ true) xs
  unfolding all
  all_iff p [] = (λ h. tt, λ h. refl)
  all_iff p (x ∷ xs) = (
    λ h. let g = (and_iff _ _).0 h in (g.0, (all_iff p xs).0 g.1),
    λ h. (and_iff _ _).1 (h.0, (all_iff p xs).1 h.1),
  )

module _ {ℓ κ μ} {A : Type ℓ} {P : A → Type κ} {Q : A → Type μ} where
  pub All-imp : ((a : A) → P a → Q a) → (xs : List A) → All P xs → All Q xs
  All-imp f [] h = tt
  All-imp f (x ∷ xs) h = (f x h.0, All-imp f xs h.1)

module _ {ℓ κ} {A : Type ℓ} {B : Type κ} where
  -- A loop over `xs` that appends the items of `f x` to one list.
  unfoldable pub flat_map : (A → List B) → List A → List B
  flat_map f [] = []
  flat_map f (x ∷ xs) = f x ++ flat_map f xs

  pub flat_map-eq-nil :
      (f : A → List B) (xs : List A) → (flat_map f xs ≡ []) ↔ All (λ x. f x ≡ []) xs
  unfolding flat_map
  flat_map-eq-nil f [] = (λ h. tt, λ h. refl)
  flat_map-eq-nil f (x ∷ xs) = (
    λ h. let g = (append-eq-nil (f x) (flat_map f xs)).0 h in (g.0, (flat_map-eq-nil f xs).0 g.1),
    λ h. (append-eq-nil (f x) (flat_map f xs)).1 (h.0, (flat_map-eq-nil f xs).1 h.1),
  )

-- What holds of all items holds of each value that the list contains, and back.
module _ {ℓ κ} {A : Type ℓ} ⦃e : Eq A⦄ (P : A → Type κ) where
  pub All-at : (xs : List A) → All P xs → (a : A) → contains xs a ≡ true → P a
  unfolding contains
  All-at [] h a m = absurd (false-true m)
    where
      false-true : false ≡ true → ⊥
      false-true m = cc
  All-at (x ∷ xs) h a m = elim ((contains-cons x xs a).0 m) [
    | inl p ↦ subst P p h.0
    | inr p ↦ All-at xs h.1 a p
  ]

  pub All-of : (xs : List A) → ((a : A) → contains xs a ≡ true → P a) → All P xs
  All-of [] h = tt
  All-of (x ∷ xs) h = (
    h x ((contains-cons x xs x).1 (inl refl)),
    All-of xs (λ a m. h a ((contains-cons x xs a).1 (inr m))),
  )

module _ {ℓ} {A : Type ℓ} ⦃e : Eq A⦄ where
  -- `all` over a list, as a statement of the values that it contains.
  pub all_at_iff :
      (p : A → Bool) (xs : List A)
      → (all p xs ≡ true) ↔ ((a : A) → contains xs a ≡ true → p a ≡ true)
  all_at_iff p xs = (
    λ h. All-at (λ a. p a ≡ true) xs ((all_iff p xs).0 h),
    λ h. (all_iff p xs).1 (All-of (λ a. p a ≡ true) xs h),
  )

  pub all_pairs_iff :
      (f : A → A → Bool) (xs : List A)
      → (all (λ a. all (f a) xs) xs ≡ true)
        ↔ ((a b : A) → contains xs a ≡ true → contains xs b ≡ true → f a b ≡ true)
  all_pairs_iff f xs = (
    λ h a b m n. (all_at_iff (f a) xs).0 ((all_at_iff (λ c. all (f c) xs) xs).0 h a m) b n,
    λ h. (all_at_iff (λ c. all (f c) xs) xs).1 (λ a m. (all_at_iff (f a) xs).1 (λ b n. h a b m n)),
  )

pub map-eq-nil {ℓ κ} : {A : Type ℓ} {B : Type κ} (f : A → B) (xs : List A) → map f xs ≡ [] → xs ≡ []
map-eq-nil f [] h = refl
map-eq-nil f (x ∷ xs) h = cc

module _ {ℓ κ μ} {A : Type ℓ} {B : Type κ} (P : B → Type μ) (f : A → B) where
  pub All-map : (xs : List A) → All (λ a. P (f a)) xs → All P (map f xs)
  All-map [] h = tt
  All-map (x ∷ xs) h = (h.0, All-map xs h.1)

  pub All-of_map : (xs : List A) → All P (map f xs) → All (λ a. P (f a)) xs
  All-of_map [] h = tt
  All-of_map (x ∷ xs) h = (h.0, All-of_map xs h.1)

-- Each item's image stands among the images.
pub All-contains-map {ℓ κ} :
    {A : Type ℓ} {B : Type κ} ⦃e : Eq B⦄ (f : A → B) (xs : List A)
    → All (λ x. contains (map f xs) (f x) ≡ true) xs
All-contains-map f [] = tt
All-contains-map f (x ∷ xs) = (
  (contains-cons (f x) (map f xs) (f x)).1 (inl refl),
  All-imp (λ y m. (contains-cons (f x) (map f xs) (f y)).1 (inr m)) xs (All-contains-map f xs),
)

-- What holds of the items of two lists, and of those of the lists that a loop appends.
module _ {ℓ κ} {A : Type ℓ} (P : A → Type κ) where
  pub All-append : (xs ys : List A) → All P xs → All P ys → All P (xs ++ ys)
  All-append [] ys h k = k
  All-append (x ∷ xs) ys (p, h) k = (p, All-append xs ys h k)

module _ {ℓ κ μ} {A : Type ℓ} {B : Type κ} (P : B → Type μ) (f : A → List B) where
  pub All-flat_map : (xs : List A) → All (λ x. All P (f x)) xs → All P (flat_map f xs)
  unfolding flat_map
  All-flat_map [] h = tt
  All-flat_map (x ∷ xs) (p, h) = All-append P (f x) (flat_map f xs) p (All-flat_map xs h)
