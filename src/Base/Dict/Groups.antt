-- ===== src/Base/Dict/Groups.antt =====
-- The items of a dict that groups values by their keys.
use mathlib.Core.Path.{◌≡◌, refl, sym, ap, subst, ◌∙◌}
use mathlib.Core.Bool.{true, false}
use mathlib.Core.Logic.{inl, inr, ◌↔◌}
use mathlib.Core.Option.{some, get_or}
use mathlib.Core.List.{List, [], ◌∷◌}
use native.Mathlib.Omega.{arith}
use ggen_igniter.Base.Tests.{Bool-cases, Option-cases}
use ggen_igniter.Base.Equality.{Eq, ◌==◌, eq_of_beq, eq_self, contains}
use ggen_igniter.Base.Lists.{All}
use ggen_igniter.Base.Dict.{
  Dict, keys, lookup, append_at, group_onto, group, values_of, get_list-group, contains-keys,
  contains-keys-append_at, contains-keys-group,
}
use ggen_igniter.Base.Dict.Items.{NodupKeys, All-items}

module _ {ℓ κ} {K : Type ℓ} {V : Type κ} ⦃e : Eq K⦄ where
  append_at-NodupKeys :
      (k : K) (v : V) (d : Dict K (List V)) → NodupKeys d → NodupKeys (append_at k v d)
  unfolding append_at
  append_at-NodupKeys k v [] h = (unfold keys contains in refl, tt)
  append_at-NodupKeys k v ((j, vs) ∷ d) h = elim (Bool-cases (j == k)) [
    | inl p ↦ rw p h
    | inr p ↦ rw p (keeps p, append_at-NodupKeys k v d h.1)
  ]
    where
      keeps : (j == k) ≡ false → contains (keys (append_at k v d)) j ≡ false
      keeps p = elim (Bool-cases (k == j)) [
        | inl q ↦ absurd (ground (arith, p, eq_of_beq k j q, eq_self k))
        | inr q ↦ contains-keys-append_at k j v d ∙ ground (arith, q, h.0)
      ]

  group_onto-NodupKeys :
      (d : Dict K (List V)) (ps : List (K × V)) → NodupKeys d → NodupKeys (group_onto d ps)
  unfolding group_onto
  group_onto-NodupKeys d [] h = h
  group_onto-NodupKeys d ((k, v) ∷ ps) h =
      group_onto-NodupKeys (append_at k v d) ps (append_at-NodupKeys k v d h)

  -- What holds of every group holds of each key with its values, and back.
  pub All-group {μ} :
      (P : K × List V → Type μ) (ps : List (K × V))
      → All P (group ps) ↔ ((k : K) → contains (keys ps) k ≡ true → P (k, values_of k ps))
  All-group P ps = (
    λ h k m. elim (Option-cases (lookup k (group ps))) [
      | inl gone ↦
          absurd (absent (sym (contains-keys-group k ps ∙ m) ∙ (contains-keys (group ps) k).1 gone))
      | inr (v, found) ↦
          subst (λ l. P (k, l)) (values k v found) ((All-items P (group ps) unique).0 h k v found)
    ],
    λ h. (All-items P (group ps) unique).1 (λ k v found. elim (Bool-cases (contains (keys ps) k)) [
      | inl m ↦ subst (λ l. P (k, l)) (sym (values k v found)) (h k m)
      | inr m ↦ absurd (none_found k v found m)
    ]),
  )
    where
      unique : NodupKeys (group ps)
      unique = group_onto-NodupKeys [] ps tt

      absent : true ≡ false → ⊥
      absent q = cc

      values : (k : K) (v : List V) → lookup k (group ps) ≡ some v → v ≡ values_of k ps
      values k v found = sym (ap (λ o. get_or o []) found) ∙ get_list-group k ps

      none_found :
          (k : K) (v : List V) → lookup k (group ps) ≡ some v → contains (keys ps) k ≡ false → ⊥
      none_found k v found m =
          let gone = (contains-keys (group ps) k).0 (contains-keys-group k ps ∙ m) in cc
