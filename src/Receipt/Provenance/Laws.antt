-- ===== src/Receipt/Provenance/Laws.antt =====
-- The four lists of files, and that they split the files between them.
use ggen_igniter.Base.{
  some_inj, String, Option, none, some, Bool, true, false, not, ◌≡◌, ◌≢◌, sym, ◌∙◌, ◌↔◌, inl, inr,
  arith, filter, ◌==◌, eq_of_beq, eq_iff_eq, and_iff, ap, contains, Bool-cases, Option-cases,
  string_eq, option_eq,
}
use ggen_igniter.Base.Dict.{Dict, keys, lookup, contains-keys}
use ggen_igniter.Base.Dict.Items.{NodupKeys, contains-selected}
use ggen_igniter.Base.Sort.{sort, str_le, contains-sort}
use ggen_igniter.Receipt.Provenance.{
  Provenance, is_unchanged, is_modified, is_removed, is_generated, provenance,
}

unlike : (o : Option String) (h : String) → o ≡ some h → not (o == some h) ≡ true → ⊥
unlike o h e d = absurd (ground (arith, d, (eq_iff_eq o (some h)).1 e))

iff_trans {ℓ κ μ} : {A : Type ℓ} {B : Type κ} {C : Type μ} → A ↔ B → B ↔ C → A ↔ C
iff_trans f g = (λ a. g.0 (f.0 a), λ c. f.1 (g.1 c))

present_key :
    (k v : String) (d : Dict String String) → lookup k d ≡ some v → contains (keys d) k ≡ true
present_key k v d q = elim (Bool-cases (contains (keys d) k)) [
  | inl p ↦ p
  | inr p ↦ absurd (some_ne_none (sym q ∙ (contains-keys d k).0 p))
]
  where
    some_ne_none : some v ≡ none → ⊥
    some_ne_none h = cc

key_value :
    (k : String) (d : Dict String String)
    → contains (keys d) k ≡ true
    → (v : String) × (lookup k d ≡ some v)
key_value k d p = elim (Option-cases (lookup k d)) [
  | inl gone ↦ absurd (true_ne_false (sym p ∙ (contains-keys d k).1 gone))
  | inr found ↦ found
]
  where
    true_ne_false : true ≡ false → ⊥
    true_ne_false h = cc

module _ (day_zero_tree final_tree : Dict String String) where
  -- What each of the four lists should hold.
  unfoldable pub IsSplit : Provenance → Type 0
  IsSplit p =
      (path : String)
      → ((contains p.handwritten_unchanged path ≡ true) ↔ (
          (h : String) × (lookup path day_zero_tree ≡ some h) × (lookup path final_tree ≡ some h)))
        × ((contains p.handwritten_modified path ≡ true) ↔ (
            (h g : String) × (lookup path day_zero_tree ≡ some h)
            × (lookup path final_tree ≡ some g)
            × (h ≢ g)))
        × ((contains p.handwritten_removed path ≡ true) ↔ (
            (h : String) × (lookup path day_zero_tree ≡ some h) × (lookup path final_tree ≡ none)))
        × ((contains p.generated path ≡ true) ↔ (
            (h : String) × (lookup path day_zero_tree ≡ none) × (lookup path final_tree ≡ some h)))

  selected :
      (p : String × String → Bool) (d : Dict String String)
      → NodupKeys d
      → (path : String)
      → (contains (sort str_le (keys (filter p d))) path ≡ true)
        ↔ ((h : String) × (lookup path d ≡ some h) × (p (path, h) ≡ true))
  selected p d n path = (
    λ h. (contains-selected p d n path).0 (sym (contains-sort str_le (keys (filter p d)) path) ∙ h),
    λ h. contains-sort str_le (keys (filter p d)) path ∙ (contains-selected p d n path).1 h,
  )

  -- If no path stands twice in a tree, a path is unchanged exactly if both trees have it with one
  -- hash, modified if they have it with different ones, removed if only the first tree has it, and
  -- generated if only the final tree has it.
  pub provenance-IsSplit :
      NodupKeys day_zero_tree → NodupKeys final_tree → IsSplit (provenance day_zero_tree final_tree)
  unfolding provenance IsSplit is_unchanged is_modified is_removed is_generated
  provenance-IsSplit n m path = (
    iff_trans (selected (is_unchanged day_zero_tree final_tree) day_zero_tree n path) (
      λ (h, p, t). (h, p, (eq_iff_eq (lookup path final_tree) (some h)).0 t),
      λ (h, p, q). (h, p, (eq_iff_eq (lookup path final_tree) (some h)).1 q),
    ),
    iff_trans (selected (is_modified day_zero_tree final_tree) day_zero_tree n path) (
      λ (h, p, t). changed h p ((and_iff _ _).0 t),
      λ (h, g, p, q, d).
          (h, p, (and_iff _ _).1 (present_key path g final_tree q, other_hash h g q d)),
    ),
    iff_trans (selected (is_removed day_zero_tree final_tree) day_zero_tree n path) (
      λ (h, p, t). (h, p, (contains-keys final_tree path).0 (ground (arith, t))),
      λ (h, p, q). (h, p, rw ((contains-keys final_tree path).1 q)),
    ),
    iff_trans (selected (is_generated day_zero_tree final_tree) final_tree m path) (
      λ (h, p, t). (h, (contains-keys day_zero_tree path).0 (ground (arith, t)), p),
      λ (h, p, q). (h, q, rw ((contains-keys day_zero_tree path).1 p)),
    ),
  )
    where
      other_hash :
          (h g : String)
          → lookup path final_tree ≡ some g
          → h ≢ g
          → not (lookup path final_tree == some h) ≡ true
      other_hash h g q d = elim (Bool-cases (lookup path final_tree == some h)) [
        | inl t ↦ absurd (d (some_inj (sym (eq_of_beq _ _ t) ∙ q)))
        | inr t ↦ rw t
      ]

      changed :
          (h : String)
          → lookup path day_zero_tree ≡ some h
          → ((contains (keys final_tree) path ≡ true)
              × (not (lookup path final_tree == some h) ≡ true))
          → (h g : String) × (lookup path day_zero_tree ≡ some h)
            × (lookup path final_tree ≡ some g)
            × (h ≢ g)
      changed h p (there, differs) =
          let (g, q) = key_value path final_tree there in
          (h, g, p, q, λ e. unlike (lookup path final_tree) h (q ∙ ap some (sym e)) differs)
