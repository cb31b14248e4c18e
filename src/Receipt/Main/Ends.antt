-- ===== src/Receipt/Main/Ends.antt =====
-- When `main` prints a receipt at all.
use ggen_igniter.Base.{String, none, some, List, [], ◌∷◌, ◌≡◌, refl, ◌↔◌, All, All-imp, string_eq}
use ggen_igniter.Base.Exec.{map_m, >>=-eq-ok}
use ggen_igniter.Receipt.World.{
  World, digest, read_json, read_text, read_stripped, read_steps, text_at, step_exits, step_record,
}
use ggen_igniter.Receipt.Main.Inputs.{
  ocel_docs, out_path, artifacts, t0, day_zero_tree, final_tree, final_manifest,
}
use ggen_igniter.Receipt.Main.Reads.{
  read_inputs, compared, ontology, ontology_path, template_path, lock_path,
}
use ggen_igniter.Receipt.Main.{main}
use ggen_igniter.Receipt.Main.Countable.{RunsCountable, ocel_docs-Returns}
use ggen_igniter.Receipt.Main.Returns.{
  Returns, >>=-Returns, map_m-Returns, text_at-Returns, digest-Returns, read_stripped-Returns,
  read_text-Returns, IsDecodable, read_json-Returns,
}
use ggen_igniter.Receipt.Main.StepLines.{
  HasStepKeys, step_exits-Returns, step_record-Returns, AreSteps, read_steps_iff,
}
use ggen_igniter.Receipt.Main.Pack.{
  HasGates, tree_at-Returns, final_manifest-file, ontology-Returns,
}

-- The paths that are opened if they are there.
unfoldable pub opened_paths : World → List String
opened_paths w =
    out_path w "steps.jsonl"
    ∷ out_path w "conformance.json"
    ∷ out_path w "drift.json"
    ∷ (artifacts w).t1
    ∷ (artifacts w).t2
    ∷ (artifacts w).t3
    ∷ (artifacts w).d1
    ∷ (artifacts w).d2
    ∷ (artifacts w).d3
    ∷ t0 w
    ∷ out_path w "db-name.txt"
    ∷ out_path w "db-isolation.txt"
    ∷ ontology_path w
    ∷ template_path w
    ∷ lock_path w
    ∷ []

-- What a receipt needs of the files that the run left: none of the paths is a directory, the lines of
-- steps.jsonl and the documents are JSON with what is taken of them, the ontology is there, and the
-- gates are the files of a directory.
pub record IsComplete (w : World) : Type 0 where
  pub files : All (λ path. w.listing path ≡ none) (opened_paths w)
  pub steps : AreSteps w (w.contents (out_path w "steps.jsonl"))
  pub conformance : IsDecodable w (w.contents (out_path w "conformance.json"))
  pub drift : IsDecodable w (w.contents (out_path w "drift.json"))
  pub documents : RunsCountable w ("run1" ∷ "run2" ∷ "run3" ∷ [])
  pub ontology_text : (t : String) × (w.contents (ontology_path w) ≡ some t)
  pub gates : HasGates w

module _ (w : World) where
  read_inputs-IsComplete : Returns (read_inputs w) → IsComplete w
  unfolding read_inputs opened_paths out_path compared day_zero_tree
  read_inputs-IsComplete (i, h) =
      let (lines, p₁, h₁) = >>=-eq-ok (read_steps w) _ h in
      let (exits, p₂, h₂) = >>=-eq-ok (map_m step_exits lines) _ h₁ in
      let (conformance, p₃, h₃) = >>=-eq-ok (read_json w (out_path w "conformance.json")) _ h₂ in
      let (drift, p₄, h₄) = >>=-eq-ok (read_json w (out_path w "drift.json")) _ h₃ in
      let (steps, p₅, h₅) = >>=-eq-ok (map_m step_record lines) _ h₄ in
      let (digests, p₆, h₆) = >>=-eq-ok (map_m (digest w) (compared w)) _ h₅ in
      let (docs, p₇, h₇) = >>=-eq-ok (ocel_docs w) _ h₆ in
      let (before, p₈, h₈) = >>=-eq-ok (day_zero_tree w) _ h₇ in
      let (after, p₉, h₉) = >>=-eq-ok (final_tree w) _ h₈ in
      let (ttl, q₁, k₁) = >>=-eq-ok (read_text w (ontology_path w)) _ h₉ in
      let (name, q₂, k₂) = >>=-eq-ok (read_stripped w (out_path w "db-name.txt")) _ k₁ in
      let (about, q₃, k₃) = >>=-eq-ok (ontology w) _ k₂ in
      let (lock, q₄, k₄) = >>=-eq-ok (text_at w (lock_path w)) _ k₃ in
      let (shown, q₅, k₅) = >>=-eq-ok (read_stripped w (out_path w "db-isolation.txt")) _ k₄ in
      let (s₁, s₂) = (read_steps_iff w).0 (
        lines,
        p₁,
        All-imp (λ s k. (step_record-Returns s).0 k) lines
            ((map_m-Returns step_record lines).0 (steps, p₅)),
      ) in
      let (c₁, c₂) = (read_json-Returns w (out_path w "conformance.json")).0 (conformance, p₃) in
      let (d₁, d₂) = (read_json-Returns w (out_path w "drift.json")).0 (drift, p₄) in
      let artifact =
        All-imp (λ path k. (digest-Returns w path).0 k) (compared w)
          ((map_m-Returns (digest w) (compared w)).0 (digests, p₆)) in
      let (there, ttl_text) = (read_text-Returns w (ontology_path w)).0 (ttl, q₁) in
      let (same, gates, template) = (ontology-Returns w).0 (about, q₃) in
      record {
        files = (
          s₁,
          (
            c₁,
            (
              d₁,
              (
                artifact.0,
                (
                  artifact.1.0,
                  (
                    artifact.1.1.0,
                    (
                      artifact.1.1.1.0,
                      (
                        artifact.1.1.1.1.0,
                        (
                          artifact.1.1.1.1.1.0,
                          (
                            (tree_at-Returns w (t0 w)).0 (before, p₈),
                            (
                              (read_stripped-Returns w (out_path w "db-name.txt")).0 (name, q₂),
                              (
                                (read_stripped-Returns w (out_path w "db-isolation.txt")).0
                                    (shown, q₅),
                                (
                                  there,
                                  (template, ((text_at-Returns w (lock_path w)).0 (lock, q₄), tt)),
                                ),
                              ),
                            ),
                          ),
                        ),
                      ),
                    ),
                  ),
                ),
              ),
            ),
          ),
        );
        steps = s₂;
        conformance = c₂;
        drift = d₂;
        documents = (ocel_docs-Returns w).0 (docs, p₇);
        ontology_text = ttl_text;
        gates = gates;
      }

  IsComplete-read_inputs : IsComplete w → Returns (read_inputs w)
  unfolding read_inputs opened_paths out_path compared day_zero_tree final_tree HasStepKeys
  IsComplete-read_inputs c =
      let (
        s₁,
        (
          c₁,
          (
            d₁,
            (
              t₁,
              (
                t₂,
                (
                  t₃,
                  (
                    e₁,
                    (e₂, (e₃, (zero_day, (named, (isolated, (there, (template, (locked, u)))))))),
                  ),
                ),
              ),
            ),
          ),
        ),
      ) =
        c.files in
      let (lines, p₁, keys) = (read_steps_iff w).1 (s₁, c.steps) in
      let (exits, p₂) = (map_m-Returns step_exits lines).1 (
        All-imp (λ s (exit, expected, label). (step_exits-Returns s).1 (exit, expected)) lines
          keys) in
      let (conformance, p₃) =
        (read_json-Returns w (out_path w "conformance.json")).1 (c₁, c.conformance) in
      let (drift, p₄) = (read_json-Returns w (out_path w "drift.json")).1 (d₁, c.drift) in
      let (steps, p₅) =
        (map_m-Returns step_record lines).1
          (All-imp (λ s k. (step_record-Returns s).1 k) lines keys) in
      let (digests, p₆) = (map_m-Returns (digest w) (compared w)).1 (
        All-imp (λ path k. (digest-Returns w path).1 k) (compared w)
          (t₁, (t₂, (t₃, (e₁, (e₂, (e₃, tt))))))) in
      let (docs, p₇) = (ocel_docs-Returns w).1 c.documents in
      let (before, p₈) = (tree_at-Returns w (t0 w)).1 zero_day in
      let (after, p₉) = (tree_at-Returns w (final_manifest w)).1 (final_manifest-file w t₂ t₃) in
      let (ttl, q₁) = (read_text-Returns w (ontology_path w)).1 (there, c.ontology_text) in
      let (name, q₂) = (read_stripped-Returns w (out_path w "db-name.txt")).1 named in
      let (about, q₃) = (ontology-Returns w).1 (there, c.gates, template) in
      let (lock, q₄) = (text_at-Returns w (lock_path w)).1 locked in
      let (shown, q₅) = (read_stripped-Returns w (out_path w "db-isolation.txt")).1 isolated in
      (
        record {
          steps = steps;
          conformance = conformance;
          drift = drift;
          docs = docs;
          before = before;
          after = after;
          ttl = ttl;
          db_name = name;
          ontology = about;
          lock = lock;
          db_evidence = shown;
        },
        rw p₁ (
            rw p₂ (
              rw p₃ (
                rw p₄ (
                  rw p₅ (
                    rw p₆ (rw p₇ (rw p₈ (rw p₉ (rw q₁ (rw q₂ (rw q₃ (rw q₄ (rw q₅ refl))))))))))))),
      )

  -- `main` prints a receipt exactly if none of the paths that it opens is a directory, each line of
  -- steps.jsonl that is not blank is JSON with an exit, an expected exit and a label that is a text,
  -- the conformance and the drift document are JSON, each name in the directories of the three runs is
  -- no directory but JSON, an empty document or one whose four fields have a length or are missing, the
  -- ontology is there, and the gates are a directory without directories. Of the files other than the
  -- ontology this is asked only where they are there.
  pub main_iff : Returns (main w) ↔ IsComplete w
  unfolding main
  main_iff = (
    λ h. let (i, p, q) = (>>=-Returns (read_inputs w) _).0 h in read_inputs-IsComplete (i, p),
    λ c.
        let (i, p) = IsComplete-read_inputs c in
        (>>=-Returns (read_inputs w) _).1 (i, p, (_, refl)),
  )
