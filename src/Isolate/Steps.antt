-- ===== src/Isolate/Steps.antt =====
-- One configuration file: what the visit of its path leaves in the files and adds to the problems.
use ggen_igniter.Base.{
  ◌||◌, ℕ, zero, suc, String, Option, none, some, [], Bool, true, false, ◌≡◌, ◌≢◌, refl, sym, ◌↔◌,
  arith, inl, inr, is_empty, if◌then◌else◌, ◌==◌, eq_of_beq, string_eq, contains, Bool-cases,
}
use ggen_igniter.Base.Dict.{Dict, lookup, lookup-insert}
use ggen_igniter.Regex.Complete.{IsAbsent, subn_iff}
use ggen_igniter.Isolate.{database_pattern, replacement, State, rewrite_database, commit, visit}

-- The text that a configuration file should have afterwards: rewritten if it has the key.
unfoldable pub written : String → String × ℕ → String
written source (text, zero) = source
written source (text, suc n) = text

unfoldable pub isolated : String → Option String → Option String
unfolding written
isolated scoped none = none
isolated scoped (some source) = some (written source (rewrite_database scoped source))

-- The file is not there, or has a line with the key.
unfoldable pub IsIsolable : Option String → Type 0
unfolding database_pattern
IsIsolable none = Unit
IsIsolable (some source) = ¬ IsAbsent database_pattern source

pub unchanged :
    (path p : String) (o : Option String) (files : Dict String String)
    → lookup path files ≡ o
    → lookup p files ≡ (if path == p then o else lookup p files)
unchanged path p o files e = elim (Bool-cases (path == p)) [
  | inl q ↦ rw q (rw (← eq_of_beq path p q) e)
  | inr q ↦ rw q refl
]

pub commit-files :
    (path scoped p source : String) (s : State) (r : String × ℕ)
    → lookup path s.files ≡ some source
    → lookup p (commit path scoped s r).files
      ≡ (if path == p then some (written source r) else lookup p s.files)
unfolding commit written
commit-files path scoped p source s (text, zero) e = unchanged path p (some source) s.files e
commit-files path scoped p source s (text, suc n) e = lookup-insert path p text s.files

pub visit-files :
    (path scoped p : String) (s : State) (o : Option String)
    → lookup path s.files ≡ o
    → lookup p (visit path scoped s o).files
      ≡ (if path == p then isolated scoped o else lookup p s.files)
unfolding visit isolated
visit-files path scoped p s none e = unchanged path p none s.files e
visit-files path scoped p s (some source) e =
    commit-files path scoped p source s (rewrite_database scoped source) e

pub commit-problems :
    (path scoped : String) (s : State) (r : String × ℕ)
    → (is_empty (commit path scoped s r).problems ≡ true)
      ↔ ((r.1 ≢ 0) × (is_empty s.problems ≡ true))
unfolding commit
commit-problems path scoped s (text, zero) = (λ h. (cc), λ h. absurd (h.0 refl))
commit-problems path scoped s (text, suc n) = (λ h. (λ e. absurd (omega arith), h), λ h. h.1)

pub rewrite_database-eq-zero :
    (scoped source : String)
    → ((rewrite_database scoped source).1 ≡ 0) ↔ IsAbsent database_pattern source
unfolding rewrite_database
rewrite_database-eq-zero scoped source = subn_iff database_pattern (replacement scoped) source

pub visit-problems :
    (path scoped : String) (s : State) (o : Option String)
    → (is_empty (visit path scoped s o).problems ≡ true)
      ↔ (IsIsolable o × (is_empty s.problems ≡ true))
unfolding visit IsIsolable
visit-problems path scoped s none = (λ h. (tt, h), λ h. h.1)
visit-problems path scoped s (some source) =
    let by_count = commit-problems path scoped s (rewrite_database scoped source) in
    let counted = rewrite_database-eq-zero scoped source in
    (
      λ h. (λ a. (by_count.0 h).0 (counted.1 a), (by_count.0 h).1),
      λ h. by_count.1 (λ z. h.0 (counted.0 z), h.1),
    )

pub neither : (a b : Bool) → (a || b) ≡ false → (a ≡ false) × (b ≡ false)
neither a b h = (ground (arith, h), ground (arith, h))

pub true_ne_false : true ≡ false → ⊥
true_ne_false h = cc

pub nothing_in : (a : String) → contains [] a ≡ true → ⊥
unfolding contains
nothing_in a h = true_ne_false (sym h)
