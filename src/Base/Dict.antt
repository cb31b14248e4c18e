-- ===== src/Base/Dict.antt =====
-- Python's `dict`: the entries in the order of their first insertion.
pub mod Items
pub mod Groups
use mathlib.Core.Path.{◌≡◌, refl, ◌∙◌}
use mathlib.Core.Bool.{Bool, true, false, ◌||◌}
use mathlib.Core.Logic.{inl, inr, ◌↔◌, ◌≢◌}
use mathlib.Core.Option.{Option, none, some, get_or}
use mathlib.Core.List.{List, [], ◌∷◌, ◌++◌, append-nil, append_assoc}
use native.Mathlib.Omega.{arith}
use ggen_igniter.Base.Tests.{Bool-cases, if◌then◌else◌}
use ggen_igniter.Base.Equality.{Eq, ◌==◌, eq_of_beq, contains}

abbrev pub Dict {ℓ κ} : Type ℓ → Type κ → Type (ℓ ⊔ κ)
Dict K V = List (K × V)

module _ {ℓ κ} {K : Type ℓ} {V : Type κ} where
  -- `list(d)`
  unfoldable pub keys : Dict K V → List K
  keys [] = []
  keys ((k, v) ∷ d) = k ∷ keys d

module _ {ℓ κ} {K : Type ℓ} {V : Type κ} ⦃e : Eq K⦄ where
  -- `d.get(k)`
  unfoldable pub lookup : K → Dict K V → Option V
  lookup k [] = none
  lookup k ((j, v) ∷ d) = if j == k then some v else lookup k d

  -- `d[k] = v`
  unfoldable pub insert : K → V → Dict K V → Dict K V
  insert k v [] = (k, v) ∷ []
  insert k v ((j, w) ∷ d) = if j == k then (j, v) ∷ d else (j, w) ∷ insert k v d

  -- `dict(pairs)`: a later pair overwrites an earlier one of its key.
  unfoldable pub insert_all : Dict K V → List (K × V) → Dict K V
  insert_all d [] = d
  insert_all d ((k, v) ∷ ps) = insert_all (insert k v d) ps

  abbrev pub from_pairs : List (K × V) → Dict K V
  from_pairs = insert_all []

  pub lookup-insert :
      (k j : K) (v : V) (d : Dict K V)
      → lookup j (insert k v d) ≡ (if k == j then some v else lookup j d)
  unfolding lookup insert
  lookup-insert k j v [] = refl
  lookup-insert k j v ((i, w) ∷ d) = elim (Bool-cases (i == k)) [
    | inl p ↦ ground (arith, p, eq_of_beq i k p)
    | inr p ↦ elim (Bool-cases (k == j)) [
      | inl q ↦ ground (arith, p, q, eq_of_beq k j q, lookup-insert k j v d)
      | inr q ↦ ground (arith, p, q, lookup-insert k j v d)
    ]
  ]

  -- An entry that is there stays as it is.
  pub insert-present : (k : K) (v : V) (d : Dict K V) → lookup k d ≡ some v → insert k v d ≡ d
  unfolding lookup insert
  insert-present k v [] h = absurd (cc)
  insert-present k v ((j, w) ∷ d) h = elim (Bool-cases (j == k)) [
    | inl p ↦ ground (arith, p, h)
    | inr p ↦ ground (arith, p, h, insert-present k v d)
  ]

  pub contains-keys-insert :
      (k j : K) (v : V) (d : Dict K V)
      → contains (keys (insert k v d)) j ≡ (k == j || contains (keys d) j)
  unfolding keys insert contains
  contains-keys-insert k j v [] = refl
  contains-keys-insert k j v ((i, w) ∷ d) = elim (Bool-cases (i == k)) [
    | inl p ↦ ground (arith, p, eq_of_beq i k p)
    | inr p ↦ ground (arith, p, contains-keys-insert k j v d)
  ]

  -- A key is in a dict exactly if its lookup finds a value.
  pub contains-keys : (d : Dict K V) (k : K) → (contains (keys d) k ≡ false) ↔ (lookup k d ≡ none)
  unfolding keys lookup contains
  contains-keys [] k = (λ h. refl, λ h. refl)
  contains-keys ((j, v) ∷ d) k =
      (λ h. ground (arith, (contains-keys d k).0), λ h. ground (arith, (contains-keys d k).1))

module _ {ℓ κ} {K : Type ℓ} {V : Type κ} ⦃e : Eq K⦄ where
  -- `d.setdefault(k, []).append(v)`
  unfoldable pub append_at : K → V → Dict K (List V) → Dict K (List V)
  append_at k v [] = (k, v ∷ []) ∷ []
  append_at k v ((j, vs) ∷ d) =
      if j == k then (j, vs ++ (v ∷ [])) ∷ d else (j, vs) ∷ append_at k v d

  -- The loop that groups values by their keys.
  unfoldable pub group_onto : Dict K (List V) → List (K × V) → Dict K (List V)
  unfolding append_at
  group_onto d [] = d
  group_onto d ((k, v) ∷ ps) = group_onto (append_at k v d) ps

  abbrev pub group : List (K × V) → Dict K (List V)
  group = group_onto []

  -- `d.get(k, [])`
  abbrev pub get_list : K → Dict K (List V) → List V
  get_list k d = get_or (lookup k d) []

  -- The values that go with a key, in order: what a group holds.
  unfoldable pub values_of : K → List (K × V) → List V
  values_of k [] = []
  values_of k ((j, v) ∷ ps) = let rest = values_of k ps in if j == k then v ∷ rest else rest

  values_of-cons :
      (k j : K) (v : V) (ps : List (K × V))
      → values_of k ((j, v) ∷ ps) ≡ (if j == k then v ∷ values_of k ps else values_of k ps)
  unfolding values_of
  values_of-cons k j v ps = refl

  pub contains-keys-append_at :
      (k j : K) (v : V) (d : Dict K (List V))
      → contains (keys (append_at k v d)) j ≡ (k == j || contains (keys d) j)
  unfolding append_at keys contains
  contains-keys-append_at k j v [] = refl
  contains-keys-append_at k j v ((i, vs) ∷ d) = elim (Bool-cases (i == k)) [
    | inl p ↦ ground (arith, p, eq_of_beq i k p)
    | inr p ↦ ground (arith, p, contains-keys-append_at k j v d)
  ]

  pub get_list-append_at :
      (k j : K) (v : V) (d : Dict K (List V))
      → get_list j (append_at k v d) ≡ (if k == j then get_list j d ++ (v ∷ []) else get_list j d)
  unfolding append_at lookup
  get_list-append_at k j v [] = ground arith
  get_list-append_at k j v ((i, vs) ∷ d) = elim (Bool-cases (i == k)) [
    | inl p ↦ ground (arith, p, eq_of_beq i k p)
    | inr p ↦ elim (Bool-cases (k == j)) [
      | inl q ↦ ground (arith, p, q, eq_of_beq k j q, get_list-append_at k j v d)
      | inr q ↦ ground (arith, p, q, get_list-append_at k j v d)
    ]
  ]

  get_list-group_onto :
      (k : K) (d : Dict K (List V)) (ps : List (K × V))
      → get_list k (group_onto d ps) ≡ get_list k d ++ values_of k ps
  unfolding group_onto values_of
  get_list-group_onto k d [] = rw append-nil
  get_list-group_onto k d ((j, v) ∷ ps) =
      get_list-group_onto k (append_at j v d) ps
      ∙ rw get_list-append_at
          (elim (Bool-cases (j == k)) [ inl p ↦ rw (p, append_assoc) | inr p ↦ rw p ])

  contains-keys-group_onto :
      (k : K) (d : Dict K (List V)) (ps : List (K × V))
      → contains (keys (group_onto d ps)) k ≡ (contains (keys d) k || contains (keys ps) k)
  unfolding group_onto
  contains-keys-group_onto k d [] = unfold keys contains in ground arith
  contains-keys-group_onto k d ((j, v) ∷ ps) =
      contains-keys-group_onto k (append_at j v d) ps
      ∙ rw contains-keys-append_at (unfold keys contains in ground arith)

  -- A group holds the values of its key, in order.
  pub get_list-group : (k : K) (ps : List (K × V)) → get_list k (group ps) ≡ values_of k ps
  get_list-group k ps = get_list-group_onto k [] ps ∙ (unfold lookup in refl)

  pub contains-keys-group :
      (k : K) (ps : List (K × V)) → contains (keys (group ps)) k ≡ contains (keys ps) k
  contains-keys-group k ps = contains-keys-group_onto k [] ps ∙ (unfold keys contains in refl)

  pub values_of-eq-nil :
      (k : K) (ps : List (K × V)) → contains (keys ps) k ≡ false → values_of k ps ≡ []
  unfolding values_of keys contains
  values_of-eq-nil k [] h = refl
  values_of-eq-nil k ((j, v) ∷ ps) h = ground (arith, values_of-eq-nil k ps)

  pub values_of-ne-nil :
      (k : K) (ps : List (K × V)) → contains (keys ps) k ≡ true → values_of k ps ≢ []
  unfolding values_of keys contains
  values_of-ne-nil k [] h = cc
  values_of-ne-nil k ((j, v) ∷ ps) h = ground (arith, values_of-ne-nil k ps)
