-- ===== src/Receipt/Main/Counts.antt =====
-- The counts of the OCEL documents: what each entry rests on.
use Prim.Native.String.{◌++◌ as ◌<>◌}
use mathlib.Core.Path.{subst}
use ggen_igniter.Base.{
  some_inj, String, Option, none, some, List, [], ◌∷◌, ◌≡◌, refl, sym, ap, ◌∙◌, All, string_eq,
}
use ggen_igniter.Base.Dict.{Dict, lookup}
use ggen_igniter.Base.Dict.Items.{All-insert}
use ggen_igniter.Base.Exec.{ok, >>=-eq-ok, ok_inj}
use ggen_igniter.Base.Sort.{sort, str_le}
use ggen_igniter.Base.Text.{path_join}
use ggen_igniter.Json.{Json}
use ggen_igniter.Receipt.World.{
  World, len, digest, read_json, digest_text, loaded, text_at, found_text,
}
use ggen_igniter.Receipt.Main.Parts.{OcelCount}
use ggen_igniter.Receipt.Main.Inputs.{
  ocel_count, add_doc, add_docs, add_run, add_runs, ocel_docs, out_path,
}

module _ (w : World) where
  -- An entry of `ocel`: the counts of a document of a run, and the digest of its file.
  unfoldable pub IsCounted : String × OcelCount → Type 0
  IsCounted (key, count) =
      (run name t : String) × (key ≡ run <> ("/" <> name))
      × (w.contents (path_join (out_path w ("ocel-" <> run)) name) ≡ some t)
      × (count.sha256 ≡ some (w.sha256 t))
      × ((doc : Dict String Json) × (w.load t ≡ ok doc)
          × (len (lookup "eventTypes" doc) ≡ ok count.event_types)
          × (len (lookup "objectTypes" doc) ≡ ok count.object_types)
          × (len (lookup "events" doc) ≡ ok count.events)
          × (len (lookup "objects" doc) ≡ ok count.objects))

  found_text-eq-ok :
      (names : Option (List String)) (content read : Option String)
      → found_text names content ≡ ok read
      → (names ≡ none) × (content ≡ read)
  unfolding found_text
  found_text-eq-ok none content read h = (refl, ok_inj h)
  found_text-eq-ok (some names) content read h = absurd (cc)

  loaded-eq-ok :
      (content : Option String) (doc : Dict String Json)
      → loaded w content ≡ ok (some doc)
      → (t : String) × (content ≡ some t) × (w.load t ≡ ok doc)
  unfolding loaded
  loaded-eq-ok none doc h = absurd (cc)
  loaded-eq-ok (some t) doc h =
      let (found, p, q) = >>=-eq-ok (w.load t) _ h in (t, refl, p ∙ ap ok (some_inj (ok_inj q)))

  -- What `read_json` of a path that gives a document has read.
  pub read_json-eq-ok :
      (path : String) (doc : Dict String Json)
      → read_json w path ≡ ok (some doc)
      → (t : String) × (w.contents path ≡ some t) × (w.load t ≡ ok doc)
  unfolding read_json text_at
  read_json-eq-ok path doc h =
      let (content, p, q) =
        >>=-eq-ok (found_text (w.listing path) (w.contents path)) (loaded w) h in
      let (t, there, decoded) = loaded-eq-ok content doc q in
      (t, (found_text-eq-ok (w.listing path) (w.contents path) content p).1 ∙ there, decoded)

  digest-eq-ok :
      (path t : String) (digested : Option String)
      → w.contents path ≡ some t
      → digest w path ≡ ok digested
      → digested ≡ some (w.sha256 t)
  unfolding digest digest_text text_at
  digest-eq-ok path t digested there h =
      let (content, p, q) = >>=-eq-ok (found_text (w.listing path) (w.contents path)) _ h in
      let (out, same) = found_text-eq-ok (w.listing path) (w.contents path) content p in
      sym (ok_inj q) ∙ ap (digest_text w) (sym same ∙ there)

  ocel_count-lem :
      (path t : String) (doc : Dict String Json) (count : OcelCount)
      → w.contents path ≡ some t
      → ocel_count w path doc ≡ ok count
      → (count.sha256 ≡ some (w.sha256 t))
        × (len (lookup "eventTypes" doc) ≡ ok count.event_types)
        × (len (lookup "objectTypes" doc) ≡ ok count.object_types)
        × (len (lookup "events" doc) ≡ ok count.events)
        × (len (lookup "objects" doc) ≡ ok count.objects)
  unfolding ocel_count
  ocel_count-lem path t doc count there h =
      let (a, p, h₁) = >>=-eq-ok (len (lookup "eventTypes" doc)) _ h in
      let (b, q, h₂) = >>=-eq-ok (len (lookup "objectTypes" doc)) _ h₁ in
      let (c, r, h₃) = >>=-eq-ok (len (lookup "events" doc)) _ h₂ in
      let (d, s, h₄) = >>=-eq-ok (len (lookup "objects" doc)) _ h₃ in
      let (digested, u, h₅) = >>=-eq-ok (digest w path) _ h₄ in
      let e = ok_inj h₅ in
      (
        ap (λ (x : OcelCount). x.sha256) (sym e) ∙ digest-eq-ok path t digested there u,
        p ∙ ap (λ (x : OcelCount). ok x.event_types) e,
        q ∙ ap (λ (x : OcelCount). ok x.object_types) e,
        r ∙ ap (λ (x : OcelCount). ok x.events) e,
        s ∙ ap (λ (x : OcelCount). ok x.objects) e,
      )

  module _ (run name : String) where
    doc_path : String
    unfolding out_path path_join
    doc_path = path_join (out_path w ("ocel-" <> run)) name

    IsCounted-one :
        (doc : Dict String Json) (count : OcelCount)
        → read_json w doc_path ≡ ok (some doc)
        → ocel_count w doc_path doc ≡ ok count
        → IsCounted (run <> ("/" <> name), count)
    unfolding IsCounted doc_path
    IsCounted-one doc count e h =
        let (t, there, decoded) = read_json-eq-ok doc_path doc e in
        let (digested, a, b, c, d) = ocel_count-lem doc_path t doc count there h in
        (run, name, t, refl, there, digested, (doc, decoded, a, b, c, d))

    add_doc-IsCounted :
        (o : Option (Dict String Json)) (docs out : Dict String OcelCount)
        → read_json w doc_path ≡ ok o
        → All IsCounted docs
        → add_doc w (run <> ("/" <> name)) doc_path o docs ≡ ok out
        → All IsCounted out
    unfolding add_doc
    add_doc-IsCounted none docs out e k h = subst (All IsCounted) (ok_inj h) k
    add_doc-IsCounted (some []) docs out e k h = subst (All IsCounted) (ok_inj h) k
    add_doc-IsCounted (some (m ∷ ms)) docs out e k h =
        let (count, counted, rest) = >>=-eq-ok (ocel_count w doc_path (m ∷ ms)) _ h in
        subst (All IsCounted) (ok_inj rest)
          (All-insert IsCounted _ count docs k (IsCounted-one (m ∷ ms) count e counted))

  add_docs-IsCounted :
      (run : String) (names : List String) (docs out : Dict String OcelCount)
      → All IsCounted docs
      → add_docs w run (out_path w ("ocel-" <> run)) names docs ≡ ok out
      → All IsCounted out
  unfolding add_docs doc_path
  add_docs-IsCounted run [] docs out k h = subst (All IsCounted) (ok_inj h) k
  add_docs-IsCounted run (name ∷ names) docs out k h =
      let (doc, read, h₁) = >>=-eq-ok (read_json w (doc_path run name)) _ h in
      let (more, first, rest) =
        >>=-eq-ok (add_doc w (run <> ("/" <> name)) (doc_path run name) doc docs)
          (add_docs w run (out_path w ("ocel-" <> run)) names) h₁ in
      add_docs-IsCounted run names more out (add_doc-IsCounted run name doc docs more read k first)
        rest

  add_run-IsCounted :
      (run : String) (o : Option (List String)) (docs out : Dict String OcelCount)
      → All IsCounted docs
      → add_run w run (out_path w ("ocel-" <> run)) o docs ≡ ok out
      → All IsCounted out
  unfolding add_run
  add_run-IsCounted run none docs out k h = subst (All IsCounted) (ok_inj h) k
  add_run-IsCounted run (some names) docs out k h =
      add_docs-IsCounted run (sort str_le names) docs out k h

  add_runs-IsCounted :
      (runs : List String) (docs out : Dict String OcelCount)
      → All IsCounted docs
      → add_runs w runs docs ≡ ok out
      → All IsCounted out
  unfolding add_runs
  add_runs-IsCounted [] docs out k h = subst (All IsCounted) (ok_inj h) k
  add_runs-IsCounted (run ∷ runs) docs out k h =
      let (more, first, rest) =
        >>=-eq-ok
          (add_run w run (out_path w ("ocel-" <> run)) (w.listing (out_path w ("ocel-" <> run)))
            docs)
          (add_runs w runs) h in
      add_runs-IsCounted runs more out
        (add_run-IsCounted run (w.listing (out_path w ("ocel-" <> run))) docs more k first) rest

  pub ocel_docs-IsCounted :
      (docs : Dict String OcelCount) → ocel_docs w ≡ ok docs → All IsCounted docs
  unfolding ocel_docs
  ocel_docs-IsCounted docs h = add_runs-IsCounted ("run1" ∷ "run2" ∷ "run3" ∷ []) [] docs tt h
