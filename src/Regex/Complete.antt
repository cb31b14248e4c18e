-- ===== src/Regex/Complete.antt =====
-- The matcher finds every match, and `re.search` finds one wherever there is one.
use Prim.Native.Nat.{◌≤◌, ◌<◌}
use Prim.Native.Char.{Char}
use mathlib.Core.Path.{subst}
use ggen_igniter.Base.{
  ℕ, zero, suc, String, Option, none, some, List, [], ◌∷◌, Bool, true, false, ◌≡◌, refl, sym, ◌∙◌,
  ◌↔◌, inl, inr, arith, filter, flat_map, if◌then◌else◌, All, All-imp, All-of_map, Option-cases,
  none_ne_some, number_eq,
}
use ggen_igniter.Base.Dict.{insert}
use ggen_igniter.Regex.{
  Regex, one, at, ◌▸◌, either, greedy, lazy, group, Cursor, Match, advance, between, moved, size,
  outcomes, one_outcomes, greedy_outcomes, lazy_outcomes, match_at, first_match, search_from,
  search, sub_from, subn,
}
use ggen_igniter.Regex.Laws.{
  Matches, one_char, at_place, chain, on_left, on_right, greedy_end, greedy_more, lazy_end,
  lazy_more, captured, All-of_append, All-of_flat_map, All-of_filter, Matches-size, outcomes_sound,
}

-- What holds of every outcome holds of every end of a match.
Covers : Regex → Type 1
Covers r = (c d : Cursor) → Matches r c d → (P : Cursor → Type 0) → All P (outcomes r c) → P d

moved_lt : (c d : Cursor) → moved c d ≡ true → c.pos < d.pos
moved_lt c d h = ground arith

-- What moved on has less ahead of it.
smaller :
    {r : Regex} {c d : Cursor} (n : ℕ)
    → size c.rest ≤ suc n
    → Matches r c d
    → moved c d ≡ true
    → size d.rest ≤ n
smaller {c = c} {d = d} n h p m = omega (arith, Matches-size p, moved_lt c d m)

stuck : {r : Regex} {c d : Cursor} → size c.rest ≤ 0 → Matches r c d → moved c d ≡ true → ⊥
stuck {c = c} {d = d} h p m = omega (arith, Matches-size p, moved_lt c d m)

module _ (r : Regex) (covers : Covers r) (P : Cursor → Type 0) where
  -- After an outcome that moved on.
  after_moved :
      (f : Cursor → List Cursor) (c d : Cursor)
      → Matches r c d
      → moved c d ≡ true
      → All P (flat_map f (filter (moved c) (outcomes r c)))
      → All P (f d)
  unfolding Covers
  after_moved f c d p m h =
      covers c d p (λ d. moved c d ≡ true → All P (f d))
        (All-of_filter (moved c) (λ d. All P (f d)) (outcomes r c)
          (All-of_flat_map P f (filter (moved c) (outcomes r c)) h))
        m

  greedy_covers :
      {c d : Cursor} (n : ℕ)
      → size c.rest ≤ n
      → Matches (greedy r) c d
      → All P (greedy_outcomes (outcomes r) n c)
      → P d
  unfolding greedy_outcomes
  greedy_covers zero h greedy_end k = k.0
  greedy_covers zero h (greedy_more p m q) k = absurd (stuck h p m)
  greedy_covers (suc n) h greedy_end k = (All-of_append P _ (_ ∷ []) k).1.0
  greedy_covers (suc n) h (greedy_more {c} {d} p m q) k =
      greedy_covers n (smaller n h p m) q
        (after_moved (greedy_outcomes (outcomes r) n) c d p m (All-of_append P _ (c ∷ []) k).0)

  lazy_covers :
      {c d : Cursor} (n : ℕ)
      → size c.rest ≤ n
      → Matches (lazy r) c d
      → All P (lazy_outcomes (outcomes r) n c)
      → P d
  unfolding lazy_outcomes
  lazy_covers zero h lazy_end k = k.0
  lazy_covers zero h (lazy_more p m q) k = absurd (stuck h p m)
  lazy_covers (suc n) h lazy_end k = k.0
  lazy_covers (suc n) h (lazy_more {c} {d} p m q) k =
      lazy_covers n (smaller n h p m) q (after_moved (lazy_outcomes (outcomes r) n) c d p m k.1)

one_covers :
    (p : Char → Bool) (P : Cursor → Type 0) (c : Cursor) (d : Char) (s t : String)
    → t ≡ String.◌∷◌ d s
    → p d ≡ true
    → All P (one_outcomes p c t)
    → P (advance c d s)
unfolding one_outcomes
one_covers p P c d s t e q h =
    (subst (λ b. All P (if b then advance c d s ∷ [] else [])) q
      (subst (λ t. All P (one_outcomes p c t)) e h)).0

-- The outcomes are all the matches: the bound on the rounds loses none.
outcomes_complete : (r : Regex) → Covers r
unfolding outcomes Covers
outcomes_complete (one p) c d (one_char e s h q) P k = one_covers p P c e s c.rest h q k
outcomes_complete (at p) c d (at_place h) P k =
    (subst (λ b. All P (if b then c ∷ [] else [])) h k).0
outcomes_complete (r ▸ s) c d (chain {d = e} p q) P k = outcomes_complete s e d q P (
    outcomes_complete r c e p (λ e. All P (outcomes s e))
      (All-of_flat_map P (outcomes s) (outcomes r c) k))
outcomes_complete (either r s) c d (on_left p) P k =
    outcomes_complete r c d p P (All-of_append P (outcomes r c) (outcomes s c) k).0
outcomes_complete (either r s) c d (on_right p) P k =
    outcomes_complete s c d p P (All-of_append P (outcomes r c) (outcomes s c) k).1
outcomes_complete (greedy r) c d p P k =
    greedy_covers r (outcomes_complete r) P (size c.rest) (omega arith) p k
outcomes_complete (lazy r) c d p P k =
    lazy_covers r (outcomes_complete r) P (size c.rest) (omega arith) p k
outcomes_complete (group n r) c d (captured {d = e} p) P k =
    outcomes_complete r c e p (λ d. P (record d { groups = insert n (between c d) d.groups }))
      (All-of_map P _ (outcomes r c) k)

abbrev pub place : Option Char → ℕ → String → Cursor
place prev pos s = record { prev = prev; pos = pos; rest = s; groups = [] }

-- The places of a text, from a place on.
places : Option Char → ℕ → String → List Cursor
places prev pos String.[] = place prev pos "" ∷ []
places prev pos (String.◌∷◌ c s) = place prev pos (String.◌∷◌ c s) ∷ places (some c) (suc pos) s

or_else-eq-none {ℓ} :
    {A : Type ℓ} (o t : Option A)
    → ((elim o [ some m ↦ some m | none ↦ t ]) ≡ none) ↔ ((o ≡ none) × (t ≡ none))
or_else-eq-none (some m) t = (λ h. (cc), λ h. h.0)
or_else-eq-none none t = (λ h. (refl, h), λ h. h.1)

-- No match begins at any place of the text.
unfoldable pub IsAbsent : Regex → String → Type 0
unfolding places
IsAbsent r text = All (λ c. (d : Cursor) → Matches r c d → ⊥) (places none 0 text)

module _ (r : Regex) where
  first_match-eq-none : (c : Cursor) (ds : List Cursor) → (first_match c ds ≡ none) ↔ (ds ≡ [])
  unfolding first_match
  first_match-eq-none c [] = (λ h. refl, λ h. refl)
  first_match-eq-none c (d ∷ ds) = (λ h. (cc), λ h. (cc))

  no_outcome_iff : (c : Cursor) → (outcomes r c ≡ []) ↔ ((d : Cursor) → Matches r c d → ⊥)
  unfolding Covers
  no_outcome_iff c = (
    λ h d p. outcomes_complete r c d p (λ d. ⊥) (subst (All (λ d. ⊥)) (sym h) tt),
    λ h. none_left (outcomes r c) (All-imp h (outcomes r c) (outcomes_sound r c)),
  )
    where
      none_left : (ds : List Cursor) → All (λ d. ⊥) ds → ds ≡ []
      none_left [] k = refl
      none_left (d ∷ ds) k = absurd k.0

  match_at-eq-none :
      (prev : Option Char) (pos : ℕ) (s : String)
      → (match_at r (place prev pos s) ≡ none) ↔ ((d : Cursor) → Matches r (place prev pos s) d → ⊥)
  unfolding match_at
  match_at-eq-none prev pos s = (
    λ h. (no_outcome_iff _).0 ((first_match-eq-none (place prev pos s) _).0 h),
    λ h. (first_match-eq-none (place prev pos s) _).1 ((no_outcome_iff _).1 h),
  )

  search_from_iff :
      (prev : Option Char) (pos : ℕ) (s : String)
      → (search_from r prev pos s ≡ none)
        ↔ All (λ c. (d : Cursor) → Matches r c d → ⊥) (places prev pos s)
  unfolding search_from places
  search_from_iff prev pos String.[] =
      (λ h. ((match_at-eq-none prev pos "").0 h, tt), λ h. (match_at-eq-none prev pos "").1 h.0)
  search_from_iff prev pos (String.◌∷◌ c s) = (
    λ h.
        let g = (or_else-eq-none (match_at r (place prev pos (String.◌∷◌ c s))) _).0 h in
        ((match_at-eq-none prev pos _).0 g.0, (search_from_iff (some c) (suc pos) s).0 g.1),
    λ h.
        (or_else-eq-none (match_at r (place prev pos (String.◌∷◌ c s))) _).1
          ((match_at-eq-none prev pos _).1 h.0, (search_from_iff (some c) (suc pos) s).1 h.1),
  )

  -- `re.search` finds nothing exactly if no match begins at any place.
  pub search_iff : (text : String) → (search r text ≡ none) ↔ IsAbsent r text
  unfolding search IsAbsent
  search_iff text = search_from_iff none 0 text

  -- Whether `re.search` finds something, as a test.
  pub found_iff :
      (text : String)
      → ((elim (search r text) [ none ↦ false | some m ↦ true ]) ≡ false) ↔ IsAbsent r text
  found_iff text = elim (Option-cases (search r text)) [
    | inl e ↦ rw e ((λ h. (search_iff text).0 e), (λ h. refl))
    | inr (m, e) ↦
        rw e ((λ h. absurd (cc)), (λ h. absurd (none_ne_some (sym ((search_iff text).1 h) ∙ e))))
  ]

  suc_ne_zero : {n : ℕ} → suc n ≡ 0 → ⊥
  suc_ne_zero h = omega arith

  -- A replacement is made exactly if there is a match.
  sub_from_iff :
      (f : Match → String) (prev : Option Char) (pos : ℕ) (s : String)
      → ((sub_from r f prev pos 0 s).1 ≡ 0)
        ↔ All (λ c. (d : Cursor) → Matches r c d → ⊥) (places prev pos s)
  unfolding sub_from places
  sub_from_iff f prev pos String.[] = elim (Option-cases (match_at r (place prev pos ""))) [
    | inl e ↦ rw (sub_from, e) ((λ h. ((match_at-eq-none prev pos "").0 e, tt)), (λ h. refl))
    | inr (m, e) ↦
        rw (sub_from, e)
          (
            (λ h. absurd (suc_ne_zero h)),
            (λ h. absurd (none_ne_some (sym ((match_at-eq-none prev pos "").1 h.0) ∙ e))),
          )
  ]
  sub_from_iff f prev pos (String.◌∷◌ c s) =
      elim (Option-cases (match_at r (place prev pos (String.◌∷◌ c s)))) [
        | inl e ↦
            rw (sub_from, e)
              (
                (λ h. (
                  (match_at-eq-none prev pos (String.◌∷◌ c s)).0 e,
                  (sub_from_iff f (some c) (suc pos) s).0 h,
                )),
                (λ h. (sub_from_iff f (some c) (suc pos) s).1 h.1),
              )
        | inr (m, e) ↦
            rw (sub_from, e)
              (
                (λ h. absurd (suc_ne_zero h)),
                (λ h.
                    absurd (
                      none_ne_some (sym ((match_at-eq-none prev pos (String.◌∷◌ c s)).1 h.0) ∙ e))),
              )
      ]

  pub subn_iff : (f : Match → String) (text : String) → ((subn r f text).1 ≡ 0) ↔ IsAbsent r text
  unfolding subn IsAbsent
  subn_iff f text = sub_from_iff f none 0 text
