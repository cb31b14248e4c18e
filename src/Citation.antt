-- ===== src/Citation.antt =====
-- `priv/ggen/ash-manufacture-pack/bin/citation_check.py`, from the parsed citations, pins and lock
-- file on.
pub mod Laws
pub mod Parse
use Prim.Native.Nat.{◌-◌}
use ggen_igniter.Base.{
  ℕ, zero, suc, String, Option, none, some, List, [], ◌∷◌, ◌++◌, Bool, true, false, not, ◌&&◌, ◌||◌,
  flat_map, is_empty, leb, ltb, length, map, filter, if◌then◌else◌, ◌==◌, contains, string_eq,
}
use ggen_igniter.Base.Dict.{Dict, lookup}
use ggen_igniter.Base.Sort.{sort, str_le}
use ggen_igniter.Base.Text.{is_infix, join}

pub record Pin : Type 0 where
  pub dep : String
  pub version : String

-- An entry of `parse_citations`; `end_line` is the literal of `citesEndLine`, if there is one.
pub record Citation : Type 0 where
  pub id : String
  pub file : String
  pub line : Option ℕ
  pub end_literal : Option ℕ
  pub symbol : String
  pub pin : String

pub data Drift : Type 0 where
  no_lock : String → Drift
  unresolved_dep : String → String → Drift
  other_version : String → String → String → Drift

pub data Miss : Type 0 where
  no_file : String → String → Miss
  bad_range : String → Option ℕ → Option ℕ → ℕ → Miss
  no_symbol : String → Option ℕ → Option ℕ → String → Miss

pub record Report : Type 0 where
  pub pin_drift : List Drift
  pub misses : List Miss
  pub skipped : List String
  pub checked : ℕ
  pub all_anchored : Bool
  pub exit : ℕ

-- `integer(block, "citesEndLine") or start`: a zero counts as missing.
or_start : Option ℕ → Option ℕ → Option ℕ
or_start start none = start
or_start start (some zero) = start
or_start start (some (suc n)) = some (suc n)

unfoldable pub end_line : Citation → Option ℕ
unfolding or_start
end_line c = or_start c.line c.end_literal

-- What the lock file says of a pin.
pin_finding : Pin → Option String → List Drift
pin_finding pin none = unresolved_dep pin.dep pin.version ∷ []
pin_finding pin (some actual) =
    if actual == pin.version then [] else other_version pin.dep pin.version actual ∷ []

pin_findings : Dict String String → Pin → List Drift
unfolding pin_finding lookup
pin_findings resolved pin = pin_finding pin (lookup pin.dep resolved)

-- `sorted(pins.values(), key=lambda p: p["dep"])`
sorted_pins : Dict String Pin → List Pin
unfolding sort
sorted_pins pins = sort (λ (p q : Pin). str_le p.dep q.dep) (map (λ (p : String × Pin). p.1) pins)

-- `pin_drift` and `drifted_deps`. `resolved` is `none` if there is no lock file.
unfoldable pub check_pins :
    String → Option (Dict String String) → Dict String Pin → List Drift × List String
unfolding sorted_pins pin_findings flat_map filter
check_pins lock_path none pins = (no_lock lock_path ∷ [], map (λ (p : String × Pin). p.1.dep) pins)
check_pins lock_path (some resolved) pins = (
  flat_map (pin_findings resolved) (sorted_pins pins),
  map (λ (p : Pin). p.dep)
      (filter (λ p. not (is_empty (pin_findings resolved p))) (sorted_pins pins)),
)

-- `lines[first - 1 : last]`
unfoldable pub window : ℕ → ℕ → List String → List String
window first last [] = []
window zero last (l ∷ lines) = []
window (suc zero) zero (l ∷ lines) = []
window (suc zero) (suc last) (l ∷ lines) = l ∷ window (suc zero) last lines
window (suc (suc first)) zero (l ∷ lines) = []
window (suc (suc first)) (suc last) (l ∷ lines) = window (suc first) last lines

-- The tests on the lines of a file that is there.
anchor_misses : Citation → List String → Option ℕ → Option ℕ → List Miss
unfolding window is_infix join
anchor_misses c lines (some first) (some last) =
    if ltb first 1 || (ltb (length lines) last || ltb last first)
    then bad_range c.id (some first) (some last) (length lines) ∷ []
    else if is_infix c.symbol (join "\n" (window first last lines))
    then []
    else no_symbol c.id (some first) (some last) c.symbol ∷ []
anchor_misses c lines first last = bad_range c.id first last (length lines) ∷ []

file_misses : Citation → Option (List String) → List Miss
unfolding anchor_misses end_line
file_misses c none = no_file c.id c.file ∷ []
file_misses c (some lines) = anchor_misses c lines c.line (end_line c)

-- `pins.get(c["pin"], {}).get("dep", "<UNRESOLVED-PIN>")`
dep_of : Option Pin → String
dep_of none = "<UNRESOLVED-PIN>"
dep_of (some pin) = pin.dep

-- `read` gives the lines of a file of the fixture, or `none` if there is no such file.
module _ (read : String → Option (List String)) (pins : Dict String Pin) where
  is_skipped : List String → Citation → Bool
  unfolding dep_of lookup contains
  is_skipped drifted c = contains drifted (dep_of (lookup c.pin pins))

  is_read : Option (List String) → Bool
  is_read none = false
  is_read (some lines) = true

  citation_misses : List String → Citation → List Miss
  unfolding is_skipped file_misses
  citation_misses drifted c = if is_skipped drifted c then [] else file_misses c (read c.file)

  unfoldable pub citation_check : String → Option (Dict String String) → List Citation → Report
  unfolding check_pins citation_misses is_read flat_map filter
  citation_check lock_path resolved citations =
      let pinned = check_pins lock_path resolved pins in
      let misses = flat_map (citation_misses pinned.1) citations in
      let anchored = is_empty pinned.0 && is_empty misses in
      record {
        pin_drift = pinned.0;
        misses = misses;
        skipped = map (λ (c : Citation). c.id) (filter (is_skipped pinned.1) citations);
        checked =
            length (filter (λ c. not (is_skipped pinned.1 c) && is_read (read c.file)) citations);
        all_anchored = anchored;
        exit = if anchored then 0 else 1;
      }
