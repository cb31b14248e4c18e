-- ===== src/Regex/Captures.antt =====
-- The groups that a match has: those on every way through the pattern.
use Prim.Native.Char.{Char}
use mathlib.Core.Path.{subst}
use ggen_igniter.Base.{
  ℕ, suc, String, Option, none, some, List, [], ◌∷◌, Bool, true, false, ◌≡◌, ◌⊎◌, inl, inr, arith,
  All, Bool-cases, none_ne_some, some_inj, All-imp, ◌≢◌, ◌&&◌, ◌||◌, and_iff, or_iff, ◌==◌,
  number_eq,
}
use ggen_igniter.Base.Dict.{Dict, insert, lookup, lookup-insert}
use ggen_igniter.Regex.{
  Regex, one, at, ◌▸◌, either, greedy, lazy, group, Cursor, Match, between, match_at, first_match,
  search_from, search, group_of,
}
use ggen_igniter.Regex.Laws.{
  Matches, one_char, at_place, chain, on_left, on_right, greedy_end, greedy_more, lazy_end,
  lazy_more, captured, outcomes_sound,
}
use ggen_igniter.Regex.Complete.{place}

-- Whether a group is on every way through a pattern.
unfoldable pub captures : ℕ → Regex → Bool
captures n (one p) = false
captures n (at p) = false
captures n (r ▸ s) = captures n r || captures n s
captures n (either r s) = captures n r && captures n s
captures n (greedy r) = false
captures n (lazy r) = false
captures n (group m r) = m == n || captures n r

Has : ℕ → Dict ℕ String → Type 0
Has n d = lookup n d ≡ none → ⊥

Has-insert :
    (n m : ℕ) (v : String) (d : Dict ℕ String) → (m == n ≡ true) ⊎ Has n d → Has n (insert m v d)
unfolding Has lookup insert
Has-insert n m v d k h = elim (Bool-cases (m == n)) [
  | inl p ↦ none_ne_some {a = v} (ground (arith, h, p, lookup-insert m n v d))
  | inr p ↦ elim k [ inl q ↦ (cc) | inr l ↦ l (ground (arith, h, p, lookup-insert m n v d)) ]
]

-- A match loses no group.
keeps : {r : Regex} {c d : Cursor} (n : ℕ) → Matches r c d → Has n c.groups → Has n d.groups
keeps n (one_char e s p q) h = h
keeps n (at_place p) h = h
keeps n (chain p q) h = keeps n q (keeps n p h)
keeps n (on_left p) h = keeps n p h
keeps n (on_right p) h = keeps n p h
keeps n greedy_end h = h
keeps n (greedy_more p m q) h = keeps n q (keeps n p h)
keeps n lazy_end h = h
keeps n (lazy_more p m q) h = keeps n q (keeps n p h)
keeps n (captured {n = m} {c = c} {d = d} p) h =
    Has-insert n m (between c d) d.groups (inr (keeps n p h))

Matches-captures :
    {r : Regex} {c d : Cursor} (n : ℕ) → captures n r ≡ true → Matches r c d → Has n d.groups
unfolding captures
Matches-captures n h (one_char e s p q) = absurd (cc)
Matches-captures n h (at_place p) = absurd (cc)
Matches-captures n h (chain p q) = elim ((or_iff _ _).0 h) [
  | inl e ↦ keeps n q (Matches-captures n e p)
  | inr e ↦ Matches-captures n e q
]
Matches-captures n h (on_left p) = Matches-captures n ((and_iff _ _).0 h).0 p
Matches-captures n h (on_right p) = Matches-captures n ((and_iff _ _).0 h).1 p
Matches-captures n h greedy_end = absurd (cc)
Matches-captures n h (greedy_more p m q) = absurd (cc)
Matches-captures n h lazy_end = absurd (cc)
Matches-captures n h (lazy_more p m q) = absurd (cc)
Matches-captures n h (captured {n = m} {c = c} {d = d} p) = elim ((or_iff (m == n) _).0 h) [
  | inl e ↦ Has-insert n m (between c d) d.groups (inl e)
  | inr e ↦ Has-insert n m (between c d) d.groups (inr (Matches-captures n e p))
]

or_else_cases {ℓ} :
    {A : Type ℓ} {a : A} (o t : Option A)
    → (elim o [ some m ↦ some m | none ↦ t ]) ≡ some a
    → (o ≡ some a) ⊎ (t ≡ some a)
or_else_cases (some m) t h = inl h
or_else_cases none t h = inr h

module _ (r : Regex) (n : ℕ) (h : captures n r ≡ true) where
  first_match-captures :
      (c : Cursor) (ds : List Cursor) (m : Match)
      → All (λ d. Has n d.groups) ds
      → first_match c ds ≡ some m
      → Has n m.groups
  unfolding first_match
  first_match-captures c [] m k e = absurd (cc)
  first_match-captures c (d ∷ ds) m k e = subst (λ (m : Match). Has n m.groups) (some_inj e) k.0

  match_at-captures : (c : Cursor) (m : Match) → match_at r c ≡ some m → Has n m.groups
  unfolding match_at
  match_at-captures c m e =
      first_match-captures c _ m
        (All-imp (λ d. Matches-captures n h) _ (outcomes_sound r (record c { groups = [] }))) e

  search_from-captures :
      (prev : Option Char) (pos : ℕ) (s : String) (m : Match)
      → search_from r prev pos s ≡ some m
      → Has n m.groups
  unfolding search_from
  search_from-captures prev pos String.[] m e = match_at-captures (place prev pos "") m e
  search_from-captures prev pos (String.◌∷◌ c s) m e =
      elim (or_else_cases (match_at r (place prev pos (String.◌∷◌ c s))) _ e) [
        | inl f ↦ match_at-captures (place prev pos (String.◌∷◌ c s)) m f
        | inr f ↦ search_from-captures (some c) (suc pos) s m f
      ]

  -- Such a group has a text in every match that `re.search` finds.
  pub search-captures : (text : String) (m : Match) → search r text ≡ some m → group_of n m ≢ none
  unfolding search group_of Has
  search-captures text m e = search_from-captures none 0 text m e
