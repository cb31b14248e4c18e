-- ===== src/Base/Sort/Unique.antt =====
-- A sorted list is determined by how often it holds each value.
use Prim.Native.Nat.{suc}
use mathlib.Core.Path.{◌≡◌, refl, sym, ap, ap₂, ◌∙◌}
use mathlib.Core.Bool.{Bool, true}
use mathlib.Core.Logic.{◌⊎◌, inl, inr, ◌↔◌}
use mathlib.Core.List.{List, [], ◌∷◌}
use native.Mathlib.Omega.{arith}
use ggen_igniter.Base.Tests.{Bool-cases, if◌then◌else◌}
use ggen_igniter.Base.Equality.{Eq, ◌==◌, eq_self, contains-cons, count, count-contains}
use ggen_igniter.Base.Lists.{All, All-imp, All-at}
use ggen_igniter.Base.Sort.{IsOrder, insert_sorted, sort}

abbrev pub IsSorted {ℓ} : {A : Type ℓ} → (A → A → Bool) → List A → Type 0
IsSorted le [] = Unit
IsSorted le (x ∷ xs) = All (λ y. le x y ≡ true) xs × IsSorted le xs

module _ {ℓ} {A : Type ℓ} {le : A → A → Bool} (o : IsOrder le) where
  All-insert_sorted :
      (a b : A) (xs : List A)
      → le a b ≡ true
      → All (λ y. le a y ≡ true) xs
      → All (λ y. le a y ≡ true) (insert_sorted le b xs)
  unfolding insert_sorted
  All-insert_sorted a b [] h k = (h, tt)
  All-insert_sorted a b (x ∷ xs) h k = elim (Bool-cases (le b x)) [
    | inl p ↦ rw p (h, k)
    | inr p ↦ rw p (k.0, All-insert_sorted a b xs h k.1)
  ]

  insert_sorted-IsSorted :
      (a : A) (xs : List A) → IsSorted le xs → IsSorted le (insert_sorted le a xs)
  unfolding insert_sorted
  insert_sorted-IsSorted a [] h = (tt, tt)
  insert_sorted-IsSorted a (x ∷ xs) h = elim (Bool-cases (le a x)) [
    | inl p ↦ rw p ((p, All-imp (λ y q. o.trans a x y p q) xs h.0), h)
    | inr p ↦ rw p (All-insert_sorted x a xs (o.total a x p) h.0, insert_sorted-IsSorted a xs h.1)
  ]

  pub sort-IsSorted : (xs : List A) → IsSorted le (sort le xs)
  unfolding sort
  sort-IsSorted [] = tt
  sort-IsSorted (x ∷ xs) = insert_sorted-IsSorted x (sort le xs) (sort-IsSorted xs)

module _ {ℓ} {A : Type ℓ} ⦃e : Eq A⦄ where
  count-insert_sorted :
      (le : A → A → Bool) (x : A) (xs : List A) (a : A)
      → count (insert_sorted le x xs) a ≡ count (x ∷ xs) a
  unfolding insert_sorted count
  count-insert_sorted le x [] a = refl
  count-insert_sorted le x (y ∷ xs) a = ground (arith, count-insert_sorted le x xs a)

  count-cons :
      (x : A) (xs : List A) (a : A)
      → count (x ∷ xs) a ≡ (if x == a then suc (count xs a) else count xs a)
  unfolding count
  count-cons x xs a = refl

  pub count-sort : (le : A → A → Bool) (xs : List A) (a : A) → count (sort le xs) a ≡ count xs a
  unfolding sort
  count-sort le [] a = refl
  count-sort le (x ∷ xs) a = ground (
    arith,
    count-insert_sorted le x (sort le xs) a,
    count-sort le xs a,
    count-cons x xs a,
    count-cons x (sort le xs) a,
  )

  count-cons_self : (x : A) (xs : List A) → count (x ∷ xs) x ≡ suc (count xs x)
  unfolding count
  count-cons_self x xs = rw (eq_self x)

module _ {ℓ} {A : Type ℓ} ⦃e : Eq A⦄ {le : A → A → Bool} (o : IsOrder le) where
  -- The head of a sorted list is below each value that a list with the same counts begins with.
  head-le :
      (x y : A) (xs ys : List A)
      → IsSorted le (x ∷ xs)
      → ((a : A) → count (x ∷ xs) a ≡ count (y ∷ ys) a)
      → (x ≡ y) ⊎ (le x y ≡ true)
  head-le x y xs ys s h =
      let there = count-contains (x ∷ xs) y (omega (arith, h y, count-cons_self y ys)) in
      elim ((contains-cons x xs y).0 there) [
        | inl p ↦ inl p
        | inr p ↦ inr (All-at (λ z. le x z ≡ true) xs s.0 y p)
      ]

  heads-eq : (x y : A) → (x ≡ y) ⊎ (le x y ≡ true) → (y ≡ x) ⊎ (le y x ≡ true) → x ≡ y
  heads-eq x y (inl p) q = p
  heads-eq x y (inr p) (inl q) = sym q
  heads-eq x y (inr p) (inr q) = o.antisymm x y p q

  tail-count :
      (x : A) (xs ys : List A)
      → ((a : A) → count (x ∷ xs) a ≡ count (x ∷ ys) a)
      → (a : A) → count xs a ≡ count ys a
  unfolding count
  tail-count x xs ys h a = ground (arith, h a)

  pub sorted_unique :
      (xs ys : List A)
      → IsSorted le xs
      → IsSorted le ys
      → ((a : A) → count xs a ≡ count ys a)
      → xs ≡ ys
  sorted_unique [] [] s t h = refl
  sorted_unique [] (y ∷ ys) s t h =
      absurd (unfold count in (omega (arith, h y, count-cons_self y ys)))
  sorted_unique (x ∷ xs) [] s t h =
      absurd (unfold count in (omega (arith, h x, count-cons_self x xs)))
  sorted_unique (x ∷ xs) (y ∷ ys) s t h =
      let p = heads-eq x y (head-le x y xs ys s h) (head-le y x ys xs t (λ a. sym (h a))) in
      let h' : (a : A) → count (x ∷ xs) a ≡ count (x ∷ ys) a =
        λ a. h a ∙ ap (λ z. count (z ∷ ys) a) (sym p) in
      ap₂ ◌∷◌ p (sorted_unique xs ys s.1 t.1 (tail-count x xs ys h'))

  -- Two lists sort alike exactly if they hold the same values as often.
  pub sort-eq_iff_count :
      (xs ys : List A) → (sort le xs ≡ sort le ys) ↔ ((a : A) → count xs a ≡ count ys a)
  sort-eq_iff_count xs ys = (
    λ h a. sym (count-sort le xs a) ∙ ap (λ l. count l a) h ∙ count-sort le ys a,
    λ h.
        sorted_unique (sort le xs) (sort le ys) (sort-IsSorted o xs) (sort-IsSorted o ys)
          (λ a. count-sort le xs a ∙ h a ∙ sym (count-sort le ys a)),
  )
