-- ===== src/Regex/Laws.antt =====
-- The matcher against a relation that says what a pattern matches: its outcomes are the ends of the
-- matches, all of them, and the bound on the rounds of a repetition loses none.
use Prim.Native.Nat.{◌+◌}
use Prim.Native.Char.{Char}
use mathlib.Core.Path.{subst}
use ggen_igniter.Base.{
  ℕ, zero, suc, String, Option, List, [], ◌∷◌, ◌++◌, Bool, true, ◌≡◌, refl, ◌∙◌, inl, inr, arith,
  filter, flat_map, if◌then◌else◌, All, All-append, All-flat_map, All-imp, All-map, Bool-cases,
  number_eq,
}
use ggen_igniter.Base.Dict.{insert}
use ggen_igniter.Regex.{
  Regex, one, at, ◌▸◌, either, greedy, lazy, group, Cursor, advance, next_char, between, moved,
  size, outcomes, one_outcomes, greedy_outcomes, lazy_outcomes,
}

-- `r` matches the text from the first place to the second.
pub data Matches : Regex → Cursor → Cursor → Type 0 where
  one_char :
      {p : Char → Bool} {c : Cursor} (d : Char) (s : String)
      → c.rest ≡ String.◌∷◌ d s
      → p d ≡ true
      → Matches (one p) c (advance c d s)
  at_place :
      {p : Option Char → Option Char → Bool} {c : Cursor}
      → p c.prev (next_char c.rest) ≡ true
      → Matches (at p) c c
  chain : {r s : Regex} {c d e : Cursor} → Matches r c d → Matches s d e → Matches (r ▸ s) c e
  on_left : {r s : Regex} {c d : Cursor} → Matches r c d → Matches (either r s) c d
  on_right : {r s : Regex} {c d : Cursor} → Matches s c d → Matches (either r s) c d
  greedy_end : {r : Regex} {c : Cursor} → Matches (greedy r) c c
  greedy_more :
      {r : Regex} {c d e : Cursor}
      → Matches r c d
      → moved c d ≡ true
      → Matches (greedy r) d e
      → Matches (greedy r) c e
  lazy_end : {r : Regex} {c : Cursor} → Matches (lazy r) c c
  lazy_more :
      {r : Regex} {c d e : Cursor}
      → Matches r c d
      → moved c d ≡ true
      → Matches (lazy r) d e
      → Matches (lazy r) c e
  captured :
      {n : ℕ} {r : Regex} {c d : Cursor}
      → Matches r c d
      → Matches (group n r) c (record d { groups = insert n (between c d) d.groups })

module _ (c : Cursor) (P : Cursor → Type 0) where
  All-moved :
      (ds : List Cursor) → All P ds → All (λ d. P d × (moved c d ≡ true)) (filter (moved c) ds)
  unfolding filter
  All-moved [] h = tt
  All-moved (d ∷ ds) (p, h) = elim (Bool-cases (moved c d)) [
    | inl q ↦ rw q ((p, q), All-moved ds h)
    | inr q ↦ rw q (All-moved ds h)
  ]

module _ (r : Regex) (sound : (c : Cursor) → All (Matches r c) (outcomes r c)) where
  greedy_sound :
      (n : ℕ) (c : Cursor) → All (Matches (greedy r) c) (greedy_outcomes (outcomes r) n c)
  unfolding greedy_outcomes
  greedy_sound zero c = (greedy_end, tt)
  greedy_sound (suc n) c =
      All-append (Matches (greedy r) c) _ (c ∷ [])
        (All-flat_map (Matches (greedy r) c) (greedy_outcomes (outcomes r) n) _ (
          All-imp (λ d (p, q). All-imp (λ e. greedy_more p q) _ (greedy_sound n d)) _
            (All-moved c (Matches r c) (outcomes r c) (sound c))))
        (greedy_end, tt)

  lazy_sound : (n : ℕ) (c : Cursor) → All (Matches (lazy r) c) (lazy_outcomes (outcomes r) n c)
  unfolding lazy_outcomes
  lazy_sound zero c = (lazy_end, tt)
  lazy_sound (suc n) c = (
    lazy_end,
    All-flat_map (Matches (lazy r) c) (lazy_outcomes (outcomes r) n) _ (
        All-imp (λ d (p, q). All-imp (λ e. lazy_more p q) _ (lazy_sound n d)) _
          (All-moved c (Matches r c) (outcomes r c) (sound c))),
  )

one_sound :
    (p : Char → Bool) (c : Cursor) (s : String)
    → c.rest ≡ s
    → All (Matches (one p) c) (one_outcomes p c s)
unfolding one_outcomes
one_sound p c String.[] e = tt
one_sound p c (String.◌∷◌ d s) e = elim (Bool-cases (p d)) [
  | inl q ↦ rw q (one_char d s e q, tt)
  | inr q ↦ rw q tt
]

-- Every outcome is the end of a match.
pub outcomes_sound : (r : Regex) (c : Cursor) → All (Matches r c) (outcomes r c)
unfolding outcomes
outcomes_sound (one p) c = one_sound p c c.rest refl
outcomes_sound (at p) c = elim (Bool-cases (p c.prev (next_char c.rest))) [
  | inl q ↦ rw q (at_place q, tt)
  | inr q ↦ rw q tt
]
outcomes_sound (r ▸ s) c =
    All-flat_map (Matches (r ▸ s) c) (outcomes s) (outcomes r c)
      (All-imp (λ d p. All-imp (λ e. chain p) _ (outcomes_sound s d)) _ (outcomes_sound r c))
outcomes_sound (either r s) c =
    All-append (Matches (either r s) c) (outcomes r c) (outcomes s c)
      (All-imp (λ d. on_left) _ (outcomes_sound r c))
      (All-imp (λ d. on_right) _ (outcomes_sound s c))
outcomes_sound (greedy r) c = greedy_sound r (outcomes_sound r) (size c.rest) c
outcomes_sound (lazy r) c = lazy_sound r (outcomes_sound r) (size c.rest) c
outcomes_sound (group n r) c =
    All-map (Matches (group n r) c) _ (outcomes r c)
      (All-imp (λ d. captured) (outcomes r c) (outcomes_sound r c))

module _ {ℓ κ} {A : Type ℓ} (P : A → Type κ) where
  pub All-of_append : (xs ys : List A) → All P (xs ++ ys) → All P xs × All P ys
  All-of_append [] ys h = (tt, h)
  All-of_append (x ∷ xs) ys (p, h) = let g = All-of_append xs ys h in ((p, g.0), g.1)

module _ {ℓ κ μ} {A : Type ℓ} {B : Type κ} (P : B → Type μ) (f : A → List B) where
  pub All-of_flat_map : (xs : List A) → All P (flat_map f xs) → All (λ x. All P (f x)) xs
  unfolding flat_map
  All-of_flat_map [] h = tt
  All-of_flat_map (x ∷ xs) h =
      let g = All-of_append P (f x) (flat_map f xs) h in (g.0, All-of_flat_map xs g.1)

module _ {ℓ κ} {A : Type ℓ} (p : A → Bool) (P : A → Type κ) where
  pub All-of_filter : (xs : List A) → All P (filter p xs) → All (λ x. p x ≡ true → P x) xs
  unfolding filter
  All-of_filter [] h = tt
  All-of_filter (x ∷ xs) h = elim (Bool-cases (p x)) [
    | inl q ↦
        let g = subst (λ b. All P (if b then x ∷ filter p xs else filter p xs)) q h in
        (λ e. g.0, All-of_filter xs g.1)
    | inr q ↦ (
      λ e. absurd (cc),
      All-of_filter xs (subst (λ b. All P (if b then x ∷ filter p xs else filter p xs)) q h),
    )
  ]

-- What is before a place and what is after it make up the text.
pub Matches-size :
    {r : Regex} {c d : Cursor} → Matches r c d → d.pos + size d.rest ≡ c.pos + size c.rest
Matches-size (one_char d s e p) = rw e (omega arith)
Matches-size (at_place p) = refl
Matches-size (chain p q) = Matches-size q ∙ Matches-size p
Matches-size (on_left p) = Matches-size p
Matches-size (on_right p) = Matches-size p
Matches-size greedy_end = refl
Matches-size (greedy_more p m q) = Matches-size q ∙ Matches-size p
Matches-size lazy_end = refl
Matches-size (lazy_more p m q) = Matches-size q ∙ Matches-size p
Matches-size (captured p) = Matches-size p
