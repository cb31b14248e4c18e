-- ===== src/Base/Sort.antt =====
-- `sorted(xs)` and `sorted(set(xs))`, and Python's order on texts.
pub mod Unique
use Prim.Native.Nat.{ℕ, suc, compare, Ordering}
use Prim.Native.Char.{Char, code}
use Prim.Native.String.{String}
use text.Mathlib.TextEquality.{Char-path}
use mathlib.Core.Path.{◌≡◌, refl, sym, ap₂, ◌∙◌}
use mathlib.Core.Bool.{Bool, true, false, ◌||◌}
use mathlib.Core.Logic.{inl, inr, ◌↔◌}
use mathlib.Core.List.{List, [], ◌∷◌}
use native.Mathlib.Omega.{arith}
use ggen_igniter.Base.Tests.{Bool-cases, if◌then◌else◌}
use ggen_igniter.Base.Equality.{Eq, ◌==◌, contains, contains-cons}
use ggen_igniter.Base.Lists.{length, All, All-at, All-of}

-- `s <= t`: lexicographic by the code points.
unfoldable pub str_le : String → String → Bool
str_le String.[] t = true
str_le (String.◌∷◌ c s) String.[] = false
str_le (String.◌∷◌ c s) (String.◌∷◌ d t) = elim (compare (code c) (code d)) [
  | Ordering.lt ↦ true
  | Ordering.eq ↦ str_le s t
  | Ordering.gt ↦ false
]

-- A total order, as `sorted` needs one.
pub record IsOrder {ℓ} {A : Type ℓ} (le : A → A → Bool) : Type ℓ where
  pub total : (a b : A) → le a b ≡ false → le b a ≡ true
  pub trans : (a b c : A) → le a b ≡ true → le b c ≡ true → le a c ≡ true
  pub antisymm : (a b : A) → le a b ≡ true → le b a ≡ true → a ≡ b

str_le-total : (s t : String) → str_le s t ≡ false → str_le t s ≡ true
unfolding str_le
str_le-total String.[] t h = cc
str_le-total (String.◌∷◌ c s) String.[] h = refl
str_le-total (String.◌∷◌ c s) (String.◌∷◌ d t) h = ground (arith, str_le-total s t)

str_le_trans : (s t u : String) → str_le s t ≡ true → str_le t u ≡ true → str_le s u ≡ true
unfolding str_le
str_le_trans String.[] t u h k = refl
str_le_trans (String.◌∷◌ c s) String.[] u h k = cc
str_le_trans (String.◌∷◌ c s) (String.◌∷◌ d t) String.[] h k = cc
str_le_trans (String.◌∷◌ c s) (String.◌∷◌ d t) (String.◌∷◌ e u) h k =
    ground (arith, str_le_trans s t u)

str_le_antisymm : (s t : String) → str_le s t ≡ true → str_le t s ≡ true → s ≡ t
unfolding str_le
str_le_antisymm String.[] String.[] h k = refl
str_le_antisymm String.[] (String.◌∷◌ d t) h k = cc
str_le_antisymm (String.◌∷◌ c s) String.[] h k = cc
str_le_antisymm (String.◌∷◌ c s) (String.◌∷◌ d t) h k =
    let codes : code c ≡ code d = ground arith in
    let rest : s ≡ t = ground (arith, str_le_antisymm s t) in
    ap₂ String.◌∷◌ (Char-path c d codes) rest

pub str_le-IsOrder : IsOrder str_le
str_le-IsOrder = record { total = str_le-total; trans = str_le_trans; antisymm = str_le_antisymm }

module _ {ℓ} {A : Type ℓ} (le : A → A → Bool) where
  insert_sorted : A → List A → List A
  insert_sorted a [] = a ∷ []
  insert_sorted a (x ∷ xs) =
      let rest = insert_sorted a xs in if le a x then a ∷ x ∷ xs else x ∷ rest

  -- `sorted(xs)`: stable, and by `le`.
  unfoldable pub sort : List A → List A
  unfolding insert_sorted
  sort [] = []
  sort (x ∷ xs) = insert_sorted x (sort xs)

module _ {ℓ} {A : Type ℓ} where
  length-insert_sorted :
      (le : A → A → Bool) (a : A) (xs : List A) → length (insert_sorted le a xs) ≡ suc (length xs)
  unfolding insert_sorted
  length-insert_sorted le a [] = refl
  length-insert_sorted le a (x ∷ xs) = ground (arith, length-insert_sorted le a xs)

  pub length-sort : (le : A → A → Bool) (xs : List A) → length (sort le xs) ≡ length xs
  unfolding sort
  length-sort le [] = refl
  length-sort le (x ∷ xs) =
      ground (arith, length-insert_sorted le x (sort le xs), length-sort le xs)

module _ {ℓ} {A : Type ℓ} ⦃e : Eq A⦄ where
  contains-insert_sorted :
      (le : A → A → Bool) (x : A) (xs : List A) (a : A)
      → contains (insert_sorted le x xs) a ≡ (x == a || contains xs a)
  unfolding insert_sorted contains
  contains-insert_sorted le x [] a = refl
  contains-insert_sorted le x (y ∷ xs) a = ground (arith, contains-insert_sorted le x xs a)

  pub contains-sort :
      (le : A → A → Bool) (xs : List A) (a : A) → contains (sort le xs) a ≡ contains xs a
  unfolding sort contains
  contains-sort le [] a = refl
  contains-sort le (x ∷ xs) a =
      ground (arith, contains-insert_sorted le x (sort le xs) a, contains-sort le xs a)

  -- `set(xs)`, as a list with no value twice. Its order is not used: every set is sorted or searched.
  unfoldable pub to_set : List A → List A
  unfolding contains
  to_set [] = []
  to_set (x ∷ xs) = let rest = to_set xs in if contains rest x then rest else x ∷ rest

  pub contains-to_set : (xs : List A) (a : A) → contains (to_set xs) a ≡ contains xs a
  unfolding to_set contains
  contains-to_set [] a = refl
  contains-to_set (x ∷ xs) a = elim (Bool-cases (contains (to_set xs) x)) [
    | inl old ↦ elim (Bool-cases (x == a)) [
      | inl same ↦ ground (arith, old, same, (e.beq_iff x a).0 same, contains-to_set xs a)
      | inr other ↦ ground (arith, old, other, contains-to_set xs a)
    ]
    | inr new ↦ ground (arith, new, contains-to_set xs a)
  ]

  pub contains-sort-to_set :
      (le : A → A → Bool) (xs : List A) (a : A) → contains (sort le (to_set xs)) a ≡ contains xs a
  contains-sort-to_set le xs a = contains-sort le (to_set xs) a ∙ contains-to_set xs a

  -- A loop over `sorted(set(xs))` that reports nothing, and a loop over `xs` that reports nothing.
  pub All-sort-to_set {κ} :
      (P : A → Type κ) (le : A → A → Bool) (xs : List A) → All P (sort le (to_set xs)) ↔ All P xs
  All-sort-to_set P le xs = (
    λ h. All-of P xs (λ a m. All-at P (sort le (to_set xs)) h a (contains-sort-to_set le xs a ∙ m)),
    λ h.
        All-of P (sort le (to_set xs))
          (λ a m. All-at P xs h a (sym (contains-sort-to_set le xs a) ∙ m)),
  )

module _ {ℓ κ} {A : Type ℓ} (P : A → Type κ) (le : A → A → Bool) where
  All-insert_sorted : (a : A) (xs : List A) → All P (insert_sorted le a xs) ↔ (P a × All P xs)
  unfolding insert_sorted
  All-insert_sorted a [] = (λ h. h, λ h. h)
  All-insert_sorted a (x ∷ xs) = elim (Bool-cases (le a x)) [
    | inl p ↦ rw p (λ h. h, λ h. h)
    | inr p ↦ rw p (
      λ (q, r). let (s, t) = (All-insert_sorted a xs).0 r in (s, (q, t)),
      λ (s, (q, t)). (q, (All-insert_sorted a xs).1 (s, t)),
    )
  ]

  -- What holds of every item holds of every item in another order.
  pub All-sort : (xs : List A) → All P (sort le xs) ↔ All P xs
  unfolding sort
  All-sort [] = (λ h. h, λ h. h)
  All-sort (x ∷ xs) = (
    λ h. let (p, q) = (All-insert_sorted x (sort le xs)).0 h in (p, (All-sort xs).0 q),
    λ (p, q). (All-insert_sorted x (sort le xs)).1 (p, (All-sort xs).1 q),
  )
