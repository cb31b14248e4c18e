-- ===== src/Evidence/References/Laws.antt =====
-- Against which path a mark is resolved.
use ggen_igniter.Base.{ℕ, String, Option, none, some, List, [], ◌∷◌, ◌++◌, ◌≡◌, refl, ap, All, map}
use ggen_igniter.Base.Text.{int_from}
use ggen_igniter.Evidence.{Reference}
use ggen_igniter.Evidence.References.{
  Mark, path_at, reference_at, int_of, reference_to, references_from,
}

-- The number that a group of a match spells, if the group took part.
unfoldable pub number_of : Option String → Option ℕ
number_of none = none
number_of (some digits) = some (int_from 0 digits)

-- A mark's lines in a file.
unfoldable pub reference_of : String → Mark → Reference
reference_of path k = record { path = path; start = number_of k.first; end_line = number_of k.last }

int_of-number_of : (group : Option String) → int_of group ≡ number_of group
unfolding int_of number_of
int_of-number_of none = refl
int_of-number_of (some digits) = refl

reference_to-reference_of : (path : String) (k : Mark) → reference_to path k ≡ reference_of path k
unfolding reference_to reference_of
reference_to-reference_of path k = rw (int_of-number_of k.first, int_of-number_of k.last) refl

references_from-unresolved :
    (ks js : List Mark)
    → All (λ (k : Mark). k.path ≡ none) ks
    → references_from none (ks ++ js) ≡ references_from none js
unfolding references_from path_at reference_at
references_from-unresolved [] js h = refl
references_from-unresolved (k ∷ ks) js (e, h) = rw e (references_from-unresolved ks js h)

references_from-continued :
    (path : String) (ks js : List Mark)
    → All (λ (k : Mark). k.path ≡ none) ks
    → references_from (some path) (ks ++ js)
      ≡ map (reference_of path) ks ++ references_from (some path) js
unfolding references_from path_at reference_at reference_of
references_from-continued path [] js h = refl
references_from-continued path (k ∷ ks) js (e, h) =
    rw (e, reference_to-reference_of path k)
      (ap (λ rs. reference_of path k ∷ rs) (references_from-continued path ks js h))

-- Continuations that come before any path give no reference. A mark with a path and the continuations
-- directly after it give one reference each, in their order, to that path, whichever path came
-- before, with the lines that their groups spell; the marks after them are resolved from that path
-- on.
pub references_from-group :
    (before : Option String) (m : Mark) (ks js : List Mark) {path : String}
    → m.path ≡ some path
    → All (λ (k : Mark). k.path ≡ none) ks
    → (references_from none (ks ++ js) ≡ references_from none js)
      × (references_from before (m ∷ (ks ++ js))
          ≡ map (reference_of path) (m ∷ ks) ++ references_from (some path) js)
unfolding references_from path_at reference_at reference_of
references_from-group before m ks js {path} e h = (
  references_from-unresolved ks js h,
  rw (e, reference_to-reference_of path m)
      (ap (λ rs. reference_of path m ∷ rs) (references_from-continued path ks js h)),
)
