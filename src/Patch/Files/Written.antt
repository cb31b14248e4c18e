-- ===== src/Patch/Files/Written.antt =====
-- The files that a run of the edits has written.
use mathlib.Core.Path.{subst}
use ggen_igniter.Base.{
  String, some, List, [], ◌∷◌, false, ◌≡◌, refl, sym, ap, ◌∙◌, inl, inr, string_eq, All, Distinct,
  contains, map, none_ne_some, some_inj,
}
use ggen_igniter.Base.Dict.{Dict, insert, lookup}
use ggen_igniter.Patch.{Edit, Outcome, finished}
use ggen_igniter.Patch.Laws.{edited_ne_refused}
use ggen_igniter.Patch.Files.Steps.{
  IsPatched, IsEnd, Runs, Patch, path_of, lookup-insert_other, hit, apart, neither, finished_ne_end,
  IsPatched-insert, goes_on, ends, writes,
}

module _ (next : Dict String String → Outcome × Dict String String) where
  -- A file that is not edited stays as it is, up to what follows.
  pub Runs-frame :
      {ps : List Patch} {files : Dict String String} {r : Outcome × Dict String String} (p : String)
      → Runs ps next files r
      → contains (map path_of ps) p ≡ false
      → ((fs : Dict String String) → lookup p (next fs).1 ≡ lookup p fs)
      → lookup p r.1 ≡ lookup p files
  unfolding contains
  Runs-frame p goes_on h k = k _
  Runs-frame p (ends e) h k = refl
  Runs-frame p (writes {path = path} {files = files} t e rest) h k =
      let (other, others) = neither _ _ h in
      Runs-frame p rest others k ∙ lookup-insert_other path p t files other

  -- The state of the files in which what follows begins.
  unfoldable pub AreWritten : List Patch → Dict String String → Dict String String → Type 0
  AreWritten ps files fs =
      All (λ (p : Patch). (t : String) × IsPatched files p.0 p.1 t × (lookup p.0 fs ≡ some t)) ps
      × ((p : String) → contains (map path_of ps) p ≡ false → lookup p fs ≡ lookup p files)

  unfoldable pub ArePatched : List Patch → Dict String String → Type 0
  ArePatched ps files = All (λ (p : Patch). (t : String) × IsPatched files p.0 p.1 t) ps

  pub written_first :
      (path t : String) (files fs : Dict String String) (ps : List Patch)
      → contains (map path_of ps) path ≡ false
      → All
          (λ (p : Patch).
            (u : String) × IsPatched (insert path t files) p.0 p.1 u × (lookup p.0 fs ≡ some u))
          ps
      → All (λ (p : Patch). (u : String) × IsPatched files p.0 p.1 u × (lookup p.0 fs ≡ some u)) ps
  unfolding contains
  written_first path t files fs [] d h = tt
  written_first path t files fs ((p, patch) ∷ ps) d ((u, e, l), h) =
      let (other, others) = neither _ _ d in
      (
        (u, IsPatched-insert path t p u patch files (apart path p other) e, l),
        written_first path t files fs ps others h,
      )

  pub Runs-finished :
      {ps : List Patch} {files : Dict String String} {r : Outcome × Dict String String}
      → Runs ps next files r
      → Distinct (map path_of ps)
      → r.0 ≡ finished
      → (fs : Dict String String) × (r ≡ next fs) × AreWritten ps files fs
  unfolding AreWritten contains
  Runs-finished (goes_on {files = files}) d h = (files, refl, (tt, λ p n. refl))
  Runs-finished (ends {path = path} {patch = patch} {files = files} e) d h =
      absurd (finished_ne_end files path patch (subst (IsEnd files path patch) h e))
  Runs-finished (writes {path = path} {patch = patch} {rest = ps} {files = files} t e rest) d h =
      let (fs, same, (written, frame)) = Runs-finished rest d.1 h in
      (
        fs,
        same,
        (
          ((t, e, frame path d.0 ∙ hit path t files), written_first path t files fs ps d.0 written),
          λ p n.
              let (other, others) = neither _ _ n in
              frame p others ∙ lookup-insert_other path p t files other,
        ),
      )

  pub patched_later :
      (path t : String) (files : Dict String String) (ps : List Patch)
      → contains (map path_of ps) path ≡ false
      → ArePatched ps files
      → ArePatched ps (insert path t files)
  unfolding contains ArePatched IsPatched
  patched_later path t files [] d h = tt
  patched_later path t files ((p, patch) ∷ ps) d ((u, (s, e, g)), h) =
      let (other, others) = neither _ _ d in
      (
        (u, (s, lookup-insert_other path p t files (apart path p other) ∙ e, g)),
        patched_later path t files ps others h,
      )

  pub end_not-patched :
      (files : Dict String String) (path t : String) (patch : String → Edit) (out : Outcome)
      → IsEnd files path patch out
      → IsPatched files path patch t
      → ⊥
  unfolding IsEnd IsPatched
  end_not-patched files path t patch out (inl (absent, h)) (s, e, g) = none_ne_some (sym absent ∙ e)
  end_not-patched files path t patch out (inr (u, m, there, fails, h)) (s, e, g) =
      edited_ne_refused (sym g ∙ (ap patch (some_inj (sym e ∙ there)) ∙ fails))

  pub Runs-patched :
      {ps : List Patch} {files : Dict String String} {r : Outcome × Dict String String}
      → Runs ps next files r
      → Distinct (map path_of ps)
      → ArePatched ps files
      → (fs : Dict String String) × (r ≡ next fs)
  unfolding ArePatched
  Runs-patched (goes_on {files = files}) d h = (files, refl)
  Runs-patched (ends {path = path} {patch = patch} {files = files} {out = out} e) d h =
      absurd (end_not-patched files path h.0.0 patch out e h.0.1)
  Runs-patched (writes {path = path} {rest = ps} {files = files} t e rest) d h =
      Runs-patched rest d.1 (patched_later path t files ps d.0 h.1)

  -- A run that does not finish leaves a file as it was that comes only after the edits.
  pub Runs-unfinished :
      {ps : List Patch} {files : Dict String String} {r : Outcome × Dict String String} (p : String)
      → Runs ps next files r
      → contains (map path_of ps) p ≡ false
      → ((fs : Dict String String) → (next fs).0 ≡ finished)
      → (r.0 ≡ finished → ⊥)
      → lookup p r.1 ≡ lookup p files
  unfolding contains
  Runs-unfinished p (goes_on {files = files}) d k h = absurd (h (k files))
  Runs-unfinished p (ends e) d k h = refl
  Runs-unfinished p (writes {path = path} {files = files} t e rest) d k h =
      let (other, others) = neither _ _ d in
      Runs-unfinished p rest others k h ∙ lookup-insert_other path p t files other

-- A file that is written later, at another path, leaves the edited texts.
pub kept_by :
    (path u : String) (files fs : Dict String String) (ps : List Patch)
    → contains (map path_of ps) path ≡ false
    → All (λ (p : Patch). (t : String) × IsPatched files p.0 p.1 t × (lookup p.0 fs ≡ some t)) ps
    → All
        (λ (p : Patch).
          (t : String) × IsPatched files p.0 p.1 t × (lookup p.0 (insert path u fs) ≡ some t))
        ps
unfolding contains
kept_by path u files fs [] d h = tt
kept_by path u files fs ((p, patch) ∷ ps) d ((t, e, l), h) =
    let (other, others) = neither _ _ d in
    (
      (t, e, lookup-insert_other path p u fs (apart path p other) ∙ l),
      kept_by path u files fs ps others h,
    )
