-- ===== src/Base/Dict/Items.antt =====
-- The items of a dict whose keys are distinct, as its lookups see them.
use mathlib.Core.Path.{◌≡◌, refl, sym, subst, ◌∙◌}
use mathlib.Core.Bool.{Bool, true, false}
use mathlib.Core.Logic.{inl, inr, ◌↔◌}
use mathlib.Core.Option.{none, some}
use mathlib.Core.List.{List, [], ◌∷◌}
use native.Mathlib.Omega.{arith}
use ggen_igniter.Base.Tests.{Bool-cases}
use ggen_igniter.Base.Equality.{Eq, ◌==◌, eq_of_beq, eq_self, contains}
use ggen_igniter.Base.Lists.{All, filter}
use ggen_igniter.Base.Dict.{
  Dict, keys, lookup, insert, insert_all, contains-keys, contains-keys-insert,
}

module _ {ℓ κ} {K : Type ℓ} {V : Type κ} ⦃e : Eq K⦄ where
  abbrev pub NodupKeys : Dict K V → Type 0
  NodupKeys [] = Unit
  NodupKeys ((k, v) ∷ d) = (contains (keys d) k ≡ false) × NodupKeys d

  pub insert-NodupKeys : (k : K) (v : V) (d : Dict K V) → NodupKeys d → NodupKeys (insert k v d)
  unfolding insert
  insert-NodupKeys k v [] h = (unfold keys contains in refl, tt)
  insert-NodupKeys k v ((j, w) ∷ d) h = elim (Bool-cases (j == k)) [
    | inl p ↦ rw p h
    | inr p ↦ rw p (keeps p, insert-NodupKeys k v d h.1)
  ]
    where
      keeps : (j == k) ≡ false → contains (keys (insert k v d)) j ≡ false
      keeps p = elim (Bool-cases (k == j)) [
        | inl q ↦ absurd (ground (arith, p, eq_of_beq k j q, eq_self k))
        | inr q ↦ contains-keys-insert k j v d ∙ ground (arith, q, h.0)
      ]

  -- What holds of all items and of a new one holds after its insertion.
  pub All-insert {μ} :
      (P : K × V → Type μ) (k : K) (v : V) (d : Dict K V)
      → All P d
      → P (k, v)
      → All P (insert k v d)
  unfolding insert
  All-insert P k v [] h p = (p, tt)
  All-insert P k v ((j, w) ∷ d) (q, h) p = elim (Bool-cases (j == k)) [
    | inl s ↦ rw s (subst (λ i. P (i, v)) (sym (eq_of_beq j k s)) p, h)
    | inr s ↦ rw s (q, All-insert P k v d h p)
  ]

  pub insert_all-NodupKeys :
      (d : Dict K V) (ps : List (K × V)) → NodupKeys d → NodupKeys (insert_all d ps)
  unfolding insert_all
  insert_all-NodupKeys d [] h = h
  insert_all-NodupKeys d ((k, v) ∷ ps) h =
      insert_all-NodupKeys (insert k v d) ps (insert-NodupKeys k v d h)

  -- A key that is not there has no value.
  lookup_absent : (k : K) (d : Dict K V) → contains (keys d) k ≡ false → lookup k d ≡ none
  lookup_absent k d = (contains-keys d k).0

  -- What holds of every item holds of every lookup, and back.
  pub All-items {μ} :
      (P : K × V → Type μ) (d : Dict K V)
      → NodupKeys d
      → All P d ↔ ((k : K) (v : V) → lookup k d ≡ some v → P (k, v))
  unfolding lookup
  All-items P [] n = (λ h k v m. absurd (ground (arith, m)), λ h. tt)
  All-items P ((j, w) ∷ d) n = (
    λ h k v m. elim (Bool-cases (j == k)) [
      | inl p ↦ subst P (ground (arith, p, eq_of_beq j k p, m)) h.0
      | inr p ↦ (All-items P d n.1).0 h.1 k v (ground (arith, p, m))
    ],
    λ h. (
      h j w (rw (eq_self j)),
      (All-items P d n.1).1 (λ k v m. elim (Bool-cases (j == k)) [
        | inl p ↦ absurd (ground (arith, m, eq_of_beq j k p, lookup_absent j d n.0))
        | inr p ↦ h k v (ground (arith, p, m))
      ]),
    ),
  )

  -- What the tail of a dict holds, the dict holds.
  lookup_tail :
      (j k : K) (w v : V) (d : Dict K V)
      → contains (keys d) j ≡ false
      → lookup k d ≡ some v
      → lookup k ((j, w) ∷ d) ≡ some v
  unfolding lookup
  lookup_tail j k w v d n m = elim (Bool-cases (j == k)) [
    | inl q ↦ absurd (ground (arith, m, eq_of_beq j k q, lookup_absent j d n))
    | inr q ↦ ground (arith, q, m)
  ]

  -- The keys of the items that pass a test.
  pub contains-selected :
      (p : K × V → Bool) (d : Dict K V)
      → NodupKeys d
      → (k : K)
      → (contains (keys (filter p d)) k ≡ true)
        ↔ ((v : V) × (lookup k d ≡ some v) × (p (k, v) ≡ true))
  unfolding lookup filter keys contains
  contains-selected p [] n k = (λ h. absurd (ground (arith, h)), λ h. absurd (ground (arith, h.1)))
  contains-selected p ((j, w) ∷ d) n k = (
    λ h. elim (Bool-cases (p (j, w))) [
      | inl t ↦ elim (Bool-cases (j == k)) [
        | inl q ↦ (w, rw q, subst (λ i. p (i, w) ≡ true) (eq_of_beq j k q) t)
        | inr q ↦ from_tail ((contains-selected p d n.1 k).0 (ground (arith, t, q, h)))
      ]
      | inr t ↦ from_tail ((contains-selected p d n.1 k).0 (ground (arith, t, h)))
    ],
    λ (v, m, t). elim (Bool-cases (j == k)) [
      | inl q ↦ passes q (
          subst (λ i. p (i, w) ≡ true) (sym (eq_of_beq j k q))
            (subst (λ u. p (k, u) ≡ true) (ground (arith, q, m)) t))
      | inr q ↦ beside q ((contains-selected p d n.1 k).1 (v, ground (arith, q, m), t))
    ],
  )
    where
      from_tail :
          ((v : V) × (lookup k d ≡ some v) × (p (k, v) ≡ true))
          → (v : V) × (lookup k ((j, w) ∷ d) ≡ some v) × (p (k, v) ≡ true)
      from_tail (v, m, t) = (v, lookup_tail j k w v d n.0 m, t)

      passes : (j == k) ≡ true → p (j, w) ≡ true → contains (keys (filter p ((j, w) ∷ d))) k ≡ true
      passes q t = ground (arith, q, t)

      beside :
          (j == k) ≡ false
          → contains (keys (filter p d)) k ≡ true
          → contains (keys (filter p ((j, w) ∷ d))) k ≡ true
      beside q m = ground (arith, q, m)
