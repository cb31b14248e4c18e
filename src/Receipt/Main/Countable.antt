-- ===== src/Receipt/Main/Countable.antt =====
-- When the counts of the OCEL documents can be taken.
use Prim.Native.String.{◌++◌ as ◌<>◌}
use mathlib.Core.Path.{subst}
use ggen_igniter.Base.{
  String, Option, none, some, List, [], ◌∷◌, ◌≡◌, refl, sym, ap, ◌∙◌, ◌↔◌, All, string_eq,
}
use ggen_igniter.Base.Dict.{Dict, lookup}
use ggen_igniter.Base.Exec.{ok, >>=-eq-ok, ok_inj}
use ggen_igniter.Base.Sort.{sort, str_le}
use ggen_igniter.Base.Text.{path_join}
use ggen_igniter.Json.{Json}
use ggen_igniter.Receipt.World.{World, len, read_json, loaded, text_at}
use ggen_igniter.Receipt.Main.Parts.{OcelCount}
use ggen_igniter.Receipt.Main.Inputs.{
  ocel_docs, ocel_count, add_doc, add_docs, add_run, add_runs, out_path,
}
use ggen_igniter.Receipt.Main.Returns.{
  Returns, >>=-Returns, digest-Returns, read_json-Returns, text_at_iff,
}

-- What the counts are taken of: each of the four fields has a length. An empty document is skipped.
unfoldable pub HasLengths : Dict String Json → Type 0
HasLengths [] = Unit
HasLengths (m ∷ ms) =
    Returns (len (lookup "eventTypes" (m ∷ ms)))
    × Returns (len (lookup "objectTypes" (m ∷ ms)))
    × Returns (len (lookup "events" (m ∷ ms)))
    × Returns (len (lookup "objects" (m ∷ ms)))

HasLengthsIfRead : Option (Dict String Json) → Type 0
HasLengthsIfRead none = Unit
HasLengthsIfRead (some doc) = HasLengths doc

module _ (w : World) where
  ocel_count-Returns :
      (path : String) (doc : Dict String Json)
      → w.listing path ≡ none
      → Returns (ocel_count w path doc) ↔ (
          Returns (len (lookup "eventTypes" doc))
          × Returns (len (lookup "objectTypes" doc))
          × Returns (len (lookup "events" doc))
          × Returns (len (lookup "objects" doc)))
  unfolding ocel_count
  ocel_count-Returns path doc out = (
    λ (count, h).
        let (a, p, h₁) = >>=-eq-ok (len (lookup "eventTypes" doc)) _ h in
        let (b, q, h₂) = >>=-eq-ok (len (lookup "objectTypes" doc)) _ h₁ in
        let (c, r, h₃) = >>=-eq-ok (len (lookup "events" doc)) _ h₂ in
        let (d, s, h₄) = >>=-eq-ok (len (lookup "objects" doc)) _ h₃ in
        ((a, p), (b, q), (c, r), (d, s)),
    λ ((a, p), (b, q), (c, r), (d, s)).
        let (digested, u) = (digest-Returns w path).1 out in
        (
          record { event_types = a; object_types = b; events = c; objects = d; sha256 = digested },
          rw p (rw q (rw r (rw s (rw u refl)))),
        ),
  )

  add_doc-Returns :
      (key path : String) (o : Option (Dict String Json)) (docs : Dict String OcelCount)
      → w.listing path ≡ none
      → Returns (add_doc w key path o docs) ↔ HasLengthsIfRead o
  unfolding add_doc HasLengths HasLengthsIfRead
  add_doc-Returns key path none docs out = (λ h. tt, λ h. (docs, refl))
  add_doc-Returns key path (some []) docs out = (λ h. tt, λ h. (docs, refl))
  add_doc-Returns key path (some (m ∷ ms)) docs out = (
    λ h.
        let (count, p, q) = (>>=-Returns (ocel_count w path (m ∷ ms)) _).0 h in
        (ocel_count-Returns path (m ∷ ms) out).0 (count, p),
    λ h.
        let (count, p) = (ocel_count-Returns path (m ∷ ms) out).1 h in
        (>>=-Returns (ocel_count w path (m ∷ ms)) _).1 (count, p, (_, refl)),
  )

  -- The text of a document, if there is one: it is JSON, and the counts can be taken of it.
  unfoldable pub IsCountable : Option String → Type 0
  IsCountable none = Unit
  IsCountable (some t) = (doc : Dict String Json) × (w.load t ≡ ok doc) × HasLengths doc

  loaded-IsCountable :
      (content : Option String)
      → ((o : Option (Dict String Json)) × (loaded w content ≡ ok o) × HasLengthsIfRead o)
        ↔ IsCountable content
  unfolding loaded IsCountable HasLengthsIfRead
  loaded-IsCountable none = (λ h. tt, λ h. (none, refl, tt))
  loaded-IsCountable (some t) = (
    λ (o, h, l).
        let (doc, p, q) = >>=-eq-ok (w.load t) _ h in
        (doc, p, subst HasLengthsIfRead (sym (ok_inj q)) l),
    λ (doc, p, l). (some doc, rw p refl, l),
  )

  read_json-IsCountable :
      (path : String)
      → ((o : Option (Dict String Json)) × (read_json w path ≡ ok o) × HasLengthsIfRead o)
        ↔ ((w.listing path ≡ none) × IsCountable (w.contents path))
  unfolding read_json
  read_json-IsCountable path = (
    λ (o, h, l).
        let (content, p, q) = >>=-eq-ok (text_at w path) (loaded w) h in
        let (out, same) = (text_at_iff w path content).0 p in
        (out, (loaded-IsCountable (w.contents path)).0 (o, ap (loaded w) same ∙ q, l)),
    λ (out, c).
        let (o, q, l) = (loaded-IsCountable (w.contents path)).1 c in
        (o, rw ((text_at_iff w path (w.contents path)).1 (out, refl)) q, l),
  )

  -- A name in a directory of a run: it is no directory, and the counts can be taken of its text.
  unfoldable pub IsDocument : String → Type 0
  IsDocument path = (w.listing path ≡ none) × IsCountable (w.contents path)

  add_docs-Returns :
      (run d : String) (names : List String) (docs : Dict String OcelCount)
      → Returns (add_docs w run d names docs) ↔ All (λ name. IsDocument (path_join d name)) names
  unfolding add_docs IsDocument
  add_docs-Returns run d [] docs = (λ h. tt, λ h. (docs, refl))
  add_docs-Returns run d (name ∷ names) docs =
      let path = path_join d name in
      let add = λ (o : Option (Dict String Json)). add_doc w (run <> ("/" <> name)) path o docs in
      (
        λ h.
            let (o, p, h₁) = (>>=-Returns (read_json w path) _).0 h in
            let (more, q, h₂) = (>>=-Returns (add o) (add_docs w run d names)).0 h₁ in
            let out = ((read_json-Returns w path).0 (o, p)).0 in
            (
              (read_json-IsCountable path).0
                  (o, p, (add_doc-Returns (run <> ("/" <> name)) path o docs out).0 (more, q)),
              (add_docs-Returns run d names more).0 h₂,
            ),
        λ (h, hs).
            let (o, p, l) = (read_json-IsCountable path).1 h in
            let (more, q) = (add_doc-Returns (run <> ("/" <> name)) path o docs h.0).1 l in
            (>>=-Returns (read_json w path) _).1 (
              o,
              p,
              (>>=-Returns (add o) (add_docs w run d names)).1
                  (more, q, (add_docs-Returns run d names more).1 hs),
            ),
      )

  -- The documents in a directory of a run, if there is one.
  unfoldable pub AreDocuments : String → Option (List String) → Type 0
  AreDocuments d none = Unit
  AreDocuments d (some names) = All (λ name. IsDocument (path_join d name)) (sort str_le names)

  add_run-Returns :
      (run d : String) (o : Option (List String)) (docs : Dict String OcelCount)
      → Returns (add_run w run d o docs) ↔ AreDocuments d o
  unfolding add_run AreDocuments
  add_run-Returns run d none docs = (λ h. tt, λ h. (docs, refl))
  add_run-Returns run d (some names) docs = add_docs-Returns run d (sort str_le names) docs

  -- The documents of the given runs.
  unfoldable pub RunsCountable : List String → Type 0
  RunsCountable runs =
      All
        (λ run.
          AreDocuments (out_path w ("ocel-" <> run)) (w.listing (out_path w ("ocel-" <> run))))
        runs

  add_runs-Returns :
      (runs : List String) (docs : Dict String OcelCount)
      → Returns (add_runs w runs docs) ↔ RunsCountable runs
  unfolding add_runs RunsCountable
  add_runs-Returns [] docs = (λ h. tt, λ h. (docs, refl))
  add_runs-Returns (run ∷ runs) docs =
      let d = out_path w ("ocel-" <> run) in
      let first = add_run w run d (w.listing d) docs in
      (
        λ h.
            let (more, p, q) = (>>=-Returns first (add_runs w runs)).0 h in
            (
              (add_run-Returns run d (w.listing d) docs).0 (more, p),
              (add_runs-Returns runs more).0 q,
            ),
        λ (h, hs).
            let (more, p) = (add_run-Returns run d (w.listing d) docs).1 h in
            (>>=-Returns first (add_runs w runs)).1 (more, p, (add_runs-Returns runs more).1 hs),
      )

  pub ocel_docs-Returns : Returns (ocel_docs w) ↔ RunsCountable ("run1" ∷ "run2" ∷ "run3" ∷ [])
  unfolding ocel_docs
  ocel_docs-Returns = add_runs-Returns ("run1" ∷ "run2" ∷ "run3" ∷ []) []
