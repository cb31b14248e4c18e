-- ===== src/Patch/Files/Steps.antt =====
-- The edits of the files as a relation.
use ggen_igniter.Base.{
  String, none, some, List, [], ◌∷◌, Bool, true, false, ◌≡◌, refl, sym, ◌∙◌, ◌⊎◌, inl, inr,
  Bool-cases, Option-cases, arith, ◌==◌, eq_of_beq, eq_self, eq_iff_eq, string_eq, ◌||◌,
}
use ggen_igniter.Base.Dict.{Dict, insert, lookup, lookup-insert}
use ggen_igniter.Patch.{
  Edit, edited, refused, Outcome, finished, stopped, not_found, edit_files, edit_text, save,
}

pub Edit-cases : (e : Edit) → ((t : String) × (e ≡ edited t)) ⊎ ((m : String) × (e ≡ refused m))
Edit-cases (edited t) = inl (t, refl)
Edit-cases (refused m) = inr (m, refl)

-- The file is there, and its edit succeeds with a text.
unfoldable pub IsPatched : Dict String String → String → (String → Edit) → String → Type 0
IsPatched files path patch t = (s : String) × (lookup path files ≡ some s) × (patch s ≡ edited t)

-- The edit of a file that is not there, or is refused, ends the script.
unfoldable pub IsEnd : Dict String String → String → (String → Edit) → Outcome → Type 0
IsEnd files path patch out =
    ((lookup path files ≡ none) × (out ≡ not_found path))
    ⊎ ((s : String) × (m : String) × (lookup path files ≡ some s)
        × (patch s ≡ refused m)
        × (out ≡ stopped m))

-- The run of the edits from a state of the files on: after the files that are written, it either goes
-- on with what follows, or it ends at one whose edit is not possible.
pub data Runs
    : List (String × (String → Edit))
      → (Dict String String → Outcome × Dict String String)
      → Dict String String
      → Outcome × Dict String String
      → Type 0 where
  goes_on :
      {next : Dict String String → Outcome × Dict String String} {files : Dict String String}
      → Runs [] next files (next files)
  ends :
      {path : String} {patch : String → Edit} {rest : List (String × (String → Edit))}
      {next : Dict String String → Outcome × Dict String String} {files : Dict String String}
      {out : Outcome}
      → IsEnd files path patch out
      → Runs ((path, patch) ∷ rest) next files (out, files)
  writes :
      {path : String} {patch : String → Edit} {rest : List (String × (String → Edit))}
      {next : Dict String String → Outcome × Dict String String} {files : Dict String String}
      {r : Outcome × Dict String String} (t : String)
      → IsPatched files path patch t
      → Runs rest next (insert path t files) r
      → Runs ((path, patch) ∷ rest) next files r

module _ (next : Dict String String → Outcome × Dict String String) where
  pub edit_files-Runs :
      (ps : List (String × (String → Edit))) (files : Dict String String)
      → Runs ps next files (edit_files ps next files)
  unfolding edit_files edit_text save IsEnd IsPatched
  edit_files-Runs [] files = goes_on
  edit_files-Runs ((path, patch) ∷ rest) files = elim (Option-cases (lookup path files)) [
    | inl e ↦ rw (edit_files, e) (ends (inl (e, refl)))
    | inr (s, e) ↦ elim (Edit-cases (patch s)) [
      | inl (t, g) ↦
          rw (edit_files, e, g) (writes t (s, e, g) (edit_files-Runs rest (insert path t files)))
      | inr (m, g) ↦ rw (edit_files, e, g) (ends (inr (s, m, e, g, refl)))
    ]
  ]

-- A pair of a path and the edit of its file.
abbrev pub Patch : Type 0
Patch = String × (String → Edit)

abbrev pub path_of : Patch → String
path_of p = p.0

module _ where
  pub lookup-insert_other :
      (path p t : String) (files : Dict String String)
      → (path == p) ≡ false
      → lookup p (insert path t files) ≡ lookup p files
  lookup-insert_other path p t files h = rw (lookup-insert path p t files, h) refl

  pub hit :
      (path t : String) (files : Dict String String) → lookup path (insert path t files) ≡ some t
  hit path t files = rw (lookup-insert path path t files, eq_self path) refl

  pub true_ne_false : true ≡ false → ⊥
  true_ne_false h = cc

  pub apart : (p q : String) → (q == p) ≡ false → (p == q) ≡ false
  apart p q h = elim (Bool-cases (p == q)) [
    | inr e ↦ e
    | inl e ↦ absurd (true_ne_false (sym ((eq_iff_eq q p).1 (sym (eq_of_beq p q e))) ∙ h))
  ]

  pub neither : (a b : Bool) → (a || b) ≡ false → (a ≡ false) × (b ≡ false)
  neither a b h = (ground (arith, h), ground (arith, h))

  pub finished_ne_end :
      (files : Dict String String) (path : String) (patch : String → Edit)
      → IsEnd files path patch finished
      → ⊥
  unfolding IsEnd
  finished_ne_end files path patch h = elim h [
    | inl e ↦ (let g = e.1 in cc)
    | inr e ↦ (let g = e.4 in cc)
  ]

  -- An edit sees the file as it was before another file was written.
  pub IsPatched-insert :
      (path t p u : String) (patch : String → Edit) (files : Dict String String)
      → (path == p) ≡ false
      → IsPatched (insert path t files) p patch u
      → IsPatched files p patch u
  unfolding IsPatched
  IsPatched-insert path t p u patch files h (s, e, g) =
      (s, sym (lookup-insert_other path p t files h) ∙ e, g)
