-- ===== src/Regex.antt =====
-- The part of Python's `re` that the scripts use: a backtracking matcher over a text, whose outcomes
-- stand in the order in which Python tries them, with `search`, `match`, `findall`, `finditer` and
-- `subn`. A character class is a test of a character. The body of a repetition makes progress in
-- every pattern of the scripts, so a repetition goes on only after an outcome that moved on.
pub mod Syntax
pub mod Laws
pub mod Complete
pub mod Captures
use Prim.Native.Nat.{◌-◌, ◌+◌}
use Prim.Native.Char.{Char}
use Prim.Native.String.{◌++◌ as ◌<>◌}
use ggen_igniter.Base.{
  ℕ, zero, suc, String, Option, none, some, List, [], ◌∷◌, ◌++◌, Bool, true, false, filter,
  flat_map, ltb, map, if◌then◌else◌, number_eq,
}
use ggen_igniter.Base.Dict.{Dict, insert, lookup}
use ggen_igniter.Base.Text.{take_chars}

infixr 5 ◌▸◌
pub data Regex : Type 0 where
  -- one character that passes the test
  one : (Char → Bool) → Regex
  -- the empty text, where the characters before and after pass the test
  at : (Option Char → Option Char → Bool) → Regex
  ◌▸◌ : Regex → Regex → Regex
  either : Regex → Regex → Regex
  -- `r*` and `r*?`
  greedy lazy : Regex → Regex
  -- the group of a number
  group : ℕ → Regex → Regex

-- A place in a text: the character before it, how many stand before it, the rest, and the groups
-- that were captured on the way.
pub record Cursor : Type 0 where
  pub prev : Option Char
  pub pos : ℕ
  pub rest : String
  pub groups : Dict ℕ String

abbrev pub next_char : String → Option Char
next_char String.[] = none
next_char (String.◌∷◌ c s) = some c

-- The cursor one character on.
abbrev pub advance : Cursor → Char → String → Cursor
advance c d s = record c { prev = some d; pos = suc c.pos; rest = s }

abbrev pub start : String → Cursor
start s = record { prev = none; pos = 0; rest = s; groups = [] }

one_outcomes : (Char → Bool) → Cursor → String → List Cursor
one_outcomes p c String.[] = []
one_outcomes p c (String.◌∷◌ d s) = if p d then advance c d s ∷ [] else []

-- The text between two places.
abbrev pub between : Cursor → Cursor → String
between c d = take_chars (d.pos - c.pos) c.rest

abbrev pub moved : Cursor → Cursor → Bool
moved c d = ltb c.pos d.pos

-- `n` bounds the rounds: the length of the rest is enough, since each round moves on.
module _ (step : Cursor → List Cursor) where
  greedy_outcomes : ℕ → Cursor → List Cursor
  unfolding flat_map filter
  greedy_outcomes zero c = c ∷ []
  greedy_outcomes (suc n) c = flat_map (greedy_outcomes n) (filter (moved c) (step c)) ++ (c ∷ [])

  lazy_outcomes : ℕ → Cursor → List Cursor
  unfolding flat_map filter
  lazy_outcomes zero c = c ∷ []
  lazy_outcomes (suc n) c = c ∷ flat_map (lazy_outcomes n) (filter (moved c) (step c))

abbrev pub size : String → ℕ
size String.[] = 0
size (String.◌∷◌ c s) = suc (size s)

-- Where a match from a place may end, the preferred end first.
unfoldable pub outcomes : Regex → Cursor → List Cursor
unfolding one_outcomes greedy_outcomes lazy_outcomes flat_map insert take_chars
outcomes (one p) c = one_outcomes p c c.rest
outcomes (at p) c = if p c.prev (next_char c.rest) then c ∷ [] else []
outcomes (r ▸ s) c = flat_map (outcomes s) (outcomes r c)
outcomes (either r s) c = outcomes r c ++ outcomes s c
outcomes (greedy r) c = greedy_outcomes (outcomes r) (size c.rest) c
outcomes (lazy r) c = lazy_outcomes (outcomes r) (size c.rest) c
outcomes (group n r) c =
    map (λ (d : Cursor). record d { groups = insert n (between c d) d.groups }) (outcomes r c)

-- A match object.
pub record Match : Type 0 where
  pub begin : ℕ
  pub end_pos : ℕ
  pub whole : String
  pub groups : Dict ℕ String

first_match : Cursor → List Cursor → Option Match
first_match c [] = none
first_match c (d ∷ ds) =
    some (record { begin = c.pos; end_pos = d.pos; whole = between c d; groups = d.groups })

-- `m.group(n)`
unfoldable pub group_of : ℕ → Match → Option String
unfolding lookup
group_of n m = lookup n m.groups

module _ (r : Regex) where
  unfoldable pub match_at : Cursor → Option Match
  unfolding outcomes first_match take_chars
  match_at c = first_match c (outcomes r (record c { groups = [] }))

  search_from : Option Char → ℕ → String → Option Match
  unfolding match_at
  search_from prev pos String.[] =
      match_at (record { prev = prev; pos = pos; rest = ""; groups = [] })
  search_from prev pos (String.◌∷◌ c s) =
      elim (match_at (record { prev = prev; pos = pos; rest = String.◌∷◌ c s; groups = [] })) [
        | some m ↦ some m
        | none ↦ search_from (some c) (suc pos) s
      ]

  -- `re.search(r, text)`
  unfoldable pub search : String → Option Match
  unfolding search_from
  search text = search_from none 0 text

  -- The matches from a place on, of which the next `skip` characters belong to the match before.
  find_from : Option Char → ℕ → ℕ → String → List Match
  unfolding match_at
  find_from prev pos zero String.[] =
      elim (match_at (record { prev = prev; pos = pos; rest = ""; groups = [] })) [
        | some m ↦ m ∷ []
        | none ↦ []
      ]
  find_from prev pos (suc skip) String.[] = []
  find_from prev pos zero (String.◌∷◌ c s) =
      elim (match_at (record { prev = prev; pos = pos; rest = String.◌∷◌ c s; groups = [] })) [
        | some m ↦ m ∷ find_from (some c) (suc pos) (m.end_pos - m.begin - 1) s
        | none ↦ find_from (some c) (suc pos) zero s
      ]
  find_from prev pos (suc skip) (String.◌∷◌ c s) = find_from (some c) (suc pos) skip s

  -- `re.finditer(r, text)`, for a pattern that does not match the empty text.
  unfoldable pub find_all : String → List Match
  unfolding find_from
  find_all text = find_from none 0 0 text

  sub_from : (Match → String) → Option Char → ℕ → ℕ → String → String × ℕ
  unfolding match_at
  sub_from f prev pos zero String.[] =
      elim (match_at (record { prev = prev; pos = pos; rest = ""; groups = [] })) [
        | some m ↦ (f m, 1)
        | none ↦ ("", 0)
      ]
  sub_from f prev pos (suc skip) String.[] = ("", 0)
  sub_from f prev pos zero (String.◌∷◌ c s) =
      elim (match_at (record { prev = prev; pos = pos; rest = String.◌∷◌ c s; groups = [] })) [
        | some m ↦
            let after = sub_from f (some c) (suc pos) (m.end_pos - m.begin - 1) s in
            (f m <> after.0, suc after.1)
        | none ↦ let after = sub_from f (some c) (suc pos) zero s in (String.◌∷◌ c after.0, after.1)
      ]
  sub_from f prev pos (suc skip) (String.◌∷◌ c s) = sub_from f (some c) (suc pos) skip s

  -- `re.subn(r, f, text)`: the new text and the number of replacements, for such a pattern.
  unfoldable pub subn : (Match → String) → String → String × ℕ
  unfolding sub_from
  subn f text = sub_from f none 0 0 text
