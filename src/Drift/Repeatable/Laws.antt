-- ===== src/Drift/Repeatable/Laws.antt =====
-- What the comparison of a csv with the ontology's values accepts.
use ggen_igniter.Base.{
  String, List, [], ◌∷◌, true, not, ◌&&◌, ◌≡◌, refl, sym, ap, ◌∙◌, ◌↔◌, inl, inr, arith,
  flat_map-eq-nil, append-eq-nil, if◌then◌else◌, ◌==◌, eq_of_beq, eq_self, contains, count,
  Bool-cases, All-at, All-of, string_eq,
}
use ggen_igniter.Base.Sort.{sort, str_le, str_le-IsOrder, All-sort}
use ggen_igniter.Base.Sort.Unique.{sort-eq_iff_count, count-sort}
use ggen_igniter.Drift.{projected_order, Finding}
use ggen_igniter.Drift.Repeatable.{same_list, check_values}

pub same_list_iff : (xs ys : List String) → (same_list xs ys ≡ true) ↔ (xs ≡ ys)
unfolding same_list
same_list_iff [] [] = (λ h. refl, λ h. refl)
same_list_iff [] (y ∷ ys) = (λ h. (cc), λ h. (cc))
same_list_iff (x ∷ xs) [] = (λ h. (cc), λ h. (cc))
same_list_iff (x ∷ xs) (y ∷ ys) = (
  λ h. ground (arith, eq_of_beq x y, (same_list_iff xs ys).0),
  λ h.
      heads (ap (λ l. elim l [ [] ↦ x | a ∷ t ↦ a ]) h)
        ((same_list_iff xs ys).1 (ap (λ l. elim l [ [] ↦ [] | a ∷ t ↦ t ]) h)),
)
  where
    heads : x ≡ y → same_list xs ys ≡ true → (x == y && same_list xs ys) ≡ true
    heads p q = rw (p, eq_self y) q

module _ (missing : String → Finding) (disordered : List String → List String → Finding) where
  -- The second report of `check_values`.
  order_iff :
      (found expected : List String)
      → ((if not (same_list found expected) && same_list (sort str_le found) (sort str_le expected)
            then disordered found expected ∷ []
            else [])
          ≡ [])
        ↔ (sort str_le found ≡ sort str_le expected → found ≡ expected)
  order_iff found expected = (
    λ h e. elim (Bool-cases (same_list found expected)) [
      | inl p ↦ (same_list_iff found expected).0 p
      | inr p ↦
          let same = (same_list_iff (sort str_le found) (sort str_le expected)).1 e in
          absurd (ground (arith, p, same, h))
    ],
    λ h. elim (Bool-cases (same_list (sort str_le found) (sort str_le expected))) [
      | inl p ↦
          let e = h ((same_list_iff (sort str_le found) (sort str_le expected)).0 p) in
          ground (arith, (same_list_iff found expected).1 e)
      | inr p ↦ ground (arith, p)
    ],
  )

  -- The comparison of a csv with the ontology's values reports nothing exactly if the csv has each
  -- of the values, and, where it has each value as often as the ontology, has them in lexical order.
  pub check_values_iff :
      (found values : List String)
      → (check_values missing disordered found (projected_order values) ≡ []) ↔ (
          ((v : String) → contains values v ≡ true → contains found v ≡ true)
          × (((v : String) → count found v ≡ count values v) → found ≡ projected_order values))
  unfolding check_values projected_order
  check_values_iff found values = (
    λ h.
        let (every, ordered) = (append-eq-nil _ _).0 h in
        (
          λ v m. present v (
              All-at Quiet values
                ((All-sort Quiet str_le values).0
                  ((flat_map-eq-nil report (sort str_le values)).0 every))
                v m),
          λ c. (order_iff found (sort str_le values)).0 ordered (
              (sort-eq_iff_count str_le-IsOrder found (sort str_le values)).1
                (λ v. c v ∙ sym (count-sort str_le values v))),
        ),
    λ (every, ordered). (append-eq-nil _ _).1 (
      (flat_map-eq-nil report (sort str_le values)).1
          ((All-sort Quiet str_le values).1 (All-of Quiet values (λ v m. quiet v (every v m)))),
      (order_iff found (sort str_le values)).1 (λ e. ordered (λ v.
          (sort-eq_iff_count str_le-IsOrder found (sort str_le values)).0 e v
          ∙ count-sort str_le values v)),
    ),
  )
    where
      report : String → List Finding
      report v = if contains found v then [] else missing v ∷ []

      Quiet : String → Type 0
      Quiet v = report v ≡ []

      present : (v : String) → report v ≡ [] → contains found v ≡ true
      present v h = ground (arith, h)

      quiet : (v : String) → contains found v ≡ true → report v ≡ []
      quiet v h = rw h
