-- ===== src/Receipt/Main/Laws.antt =====
-- What the receipt says, and what it rests on.
use mathlib.Core.Path.{subst}
use ggen_igniter.Base.{
  ℕ, String, Option, none, some, List, [], ◌∷◌, true, false, not, is_empty, ◌≡◌, ◌≢◌, refl, ◌↔◌,
  arith, ap, ◌∙◌, All, map, if◌then◌else◌, and_iff, string_eq,
}
use ggen_igniter.Base.Dict.{Dict, lookup, keys}
use ggen_igniter.Base.Dict.Items.{NodupKeys}
use ggen_igniter.Base.Exec.{ok, map_m, >>=-eq-ok, ok_inj}
use ggen_igniter.Receipt.{StepRecord}
use ggen_igniter.Json.{Json, null, boolean, number, text, array, object}
use ggen_igniter.Receipt.World.{
  World, digest, digest_value, read_json, read_steps, read_text, read_stripped, text_at, file_lines,
  step_exits, step_record,
}
use ggen_igniter.Receipt.Manifest.Laws.{manifest_paths-NodupKeys}
use ggen_igniter.Receipt.Provenance.Laws.{IsSplit, provenance-IsSplit}
use ggen_igniter.Receipt.Standing.{standing, failures, exit_code, is_conformant}
use ggen_igniter.Receipt.Standing.Laws.{standing-failed_oracles, exit_code-as_expected}
use ggen_igniter.Receipt.Main.Parts.{OcelCount, Report}
use ggen_igniter.Receipt.Main.Inputs.{
  ocel_docs, artifacts, out_path, tree_at, day_zero_tree, final_tree, t0, final_manifest,
}
use ggen_igniter.Receipt.Main.Reads.{
  Readings, read_inputs, compared, ontology, ontology_path, lock_path,
}
use ggen_igniter.Receipt.Main.{
  main, report_of, evidence, idempotency, files, oracle_text, verdict, verdict_of,
}
use ggen_igniter.Receipt.Main.Counts.{IsCounted, ocel_docs-IsCounted}

module _ (w : World) where
  -- What a printed receipt and the exit code say of the files that the run left.
  unfoldable pub IsAccount : Report → ℕ → Type 0
  IsAccount r code =
      ((code ≡ 0) ↔ All (λ (s : StepRecord). s.exit ≡ s.expected) r.commands)
      × ((code ≡ 0) ↔ (r.failures ≡ []))
      × ((r.standing.idempotency_alive ≡ true) ↔ (r.idempotency.failed_oracles ≡ []))
      × ((before after : Dict String String) × (day_zero_tree w ≡ ok before)
          × (final_tree w ≡ ok after)
          × IsSplit before after r.files.provenance)
      × All (IsCounted w) r.ocel
      × (r.standing.ocel_process_alive ≡ true
          → (r.ocel ≢ [])
            × ((doc : Dict String Json) × (r.conformance ≡ some doc)
                × (lookup "conformant" doc ≡ some (boolean true))))

  conformant_found :
      (o : Option Json) → is_conformant (some (verdict w o)) ≡ true → o ≡ some (boolean true)
  unfolding is_conformant verdict
  conformant_found (some (boolean true)) h = refl
  conformant_found (some (boolean false)) h = absurd (cc)
  conformant_found none h = absurd (cc)
  conformant_found (some null) h = absurd (cc)
  conformant_found (some (number n)) h = absurd (cc)
  conformant_found (some (text s)) h = absurd (cc)
  conformant_found (some (array es)) h = absurd (cc)
  conformant_found (some (object es)) h = absurd (cc)

  conformant_verdict :
      (o : Option (Dict String Json))
      → is_conformant (verdict_of w o) ≡ true
      → (doc : Dict String Json) × (o ≡ some doc) × (lookup "conformant" doc ≡ some (boolean true))
  unfolding is_conformant verdict_of
  conformant_verdict none h = absurd (cc)
  conformant_verdict (some doc) h = (doc, refl, conformant_found (lookup "conformant" doc) h)

  some_key : (docs : Dict String OcelCount) → not (is_empty (keys docs)) ≡ true → docs ≢ []
  unfolding keys
  some_key [] h = absurd (cc)
  some_key (d ∷ ds) h = λ e. (cc)

  map-eq-nil : {A B : Type 0} (f : A → B) (xs : List A) → (map f xs ≡ []) ↔ (xs ≡ [])
  map-eq-nil f [] = (λ h. refl, λ h. refl)
  map-eq-nil f (x ∷ xs) = (λ h. absurd (cc), λ h. absurd (cc))

  exit_zero : (xs : List StepRecord) → (◌≡◌ {A = ℕ} (if is_empty xs then 0 else 1) 0) ↔ (xs ≡ [])
  exit_zero [] = (λ h. refl, λ h. refl)
  exit_zero (x ∷ xs) = (λ h. absurd (omega arith), λ h. absurd (cc))

  tree_at-NodupKeys :
      (path : String) (tree : Dict String String) → tree_at w path ≡ ok tree → NodupKeys tree
  unfolding tree_at
  tree_at-NodupKeys path tree h =
      let (lines, p, q) = >>=-eq-ok (file_lines w path) _ h in
      subst NodupKeys (ok_inj q) (manifest_paths-NodupKeys lines)

  report_of-IsAccount :
      (i : Readings)
      → day_zero_tree w ≡ ok i.before
      → final_tree w ≡ ok i.after
      → All (IsCounted w) i.docs
      → IsAccount (report_of w i) (exit_code i.steps)
  unfolding IsAccount report_of standing idempotency files evidence exit_code day_zero_tree
      final_tree
  report_of-IsAccount i before after counted = (
    exit_code-as_expected i.steps,
    exit_zero (failures i.steps),
    (
      λ h. (map-eq-nil oracle_text _).1 (
          (standing-failed_oracles (digest_value w) (artifacts w) i.steps
              (evidence w i.docs i.conformance)).0
            h),
      λ h.
          (standing-failed_oracles (digest_value w) (artifacts w) i.steps
              (evidence w i.docs i.conformance)).1
            ((map-eq-nil oracle_text _).0 h),
    ),
    (
      i.before,
      i.after,
      before,
      after,
      provenance-IsSplit i.before i.after (tree_at-NodupKeys (t0 w) i.before before)
          (tree_at-NodupKeys (final_manifest w) i.after after),
    ),
    counted,
    λ h.
        let (there, conforms) = (and_iff _ _).0 h in
        (some_key i.docs there, conformant_verdict i.conformance conforms),
  )

  -- What was read is what the files gave.
  read_inputs-lem :
      (i : Readings)
      → read_inputs w ≡ ok i
      → (day_zero_tree w ≡ ok i.before) × (final_tree w ≡ ok i.after) × All (IsCounted w) i.docs
  unfolding read_inputs
  read_inputs-lem i h =
      let (lines, p₁, h₁) = >>=-eq-ok (read_steps w) _ h in
      let (exits, p₂, h₂) = >>=-eq-ok (map_m step_exits lines) _ h₁ in
      let (conformance, p₃, h₃) = >>=-eq-ok (read_json w (out_path w "conformance.json")) _ h₂ in
      let (drift, p₄, h₄) = >>=-eq-ok (read_json w (out_path w "drift.json")) _ h₃ in
      let (steps, p₅, h₅) = >>=-eq-ok (map_m step_record lines) _ h₄ in
      let (digests, p₆, h₆) = >>=-eq-ok (map_m (digest w) (compared w)) _ h₅ in
      let (docs, p₇, h₇) = >>=-eq-ok (ocel_docs w) _ h₆ in
      let (before, p₈, h₈) = >>=-eq-ok (day_zero_tree w) _ h₇ in
      let (after, p₉, h₉) = >>=-eq-ok (final_tree w) _ h₈ in
      let (ttl, q₁, k₁) = >>=-eq-ok (read_text w (ontology_path w)) _ h₉ in
      let (name, q₂, k₂) = >>=-eq-ok (read_stripped w (out_path w "db-name.txt")) _ k₁ in
      let (about, q₃, k₃) = >>=-eq-ok (ontology w) _ k₂ in
      let (lock, q₄, k₄) = >>=-eq-ok (text_at w (lock_path w)) _ k₃ in
      let (shown, q₅, k₅) = >>=-eq-ok (read_stripped w (out_path w "db-isolation.txt")) _ k₄ in
      let e = ok_inj k₅ in
      (
        p₈ ∙ ap (λ (x : Readings). ok x.before) e,
        p₉ ∙ ap (λ (x : Readings). ok x.after) e,
        subst (λ (x : Readings). All (IsCounted w) x.docs) e (ocel_docs-IsCounted w docs p₇),
      )

  -- The receipt of `main`: it exits with 0 exactly if each command ended as expected, that is if no
  -- failure is listed. It calls the idempotency alive exactly if it lists no failed oracle. Its lists of
  -- files split the two trees. Each entry of its OCEL counts has the digest and the counts of a
  -- document of a run, by the file of that name. It calls the OCEL process alive only if there is such
  -- an entry, and the conformance document says that it conforms.
  pub main-IsAccount : (r : Report) (code : ℕ) → main w ≡ ok (r, code) → IsAccount r code
  unfolding main
  main-IsAccount r code h =
      let (i, read, h₁) = >>=-eq-ok (read_inputs w) _ h in
      let (before, after, counted) = read_inputs-lem i read in
      subst (λ (p : Report × ℕ). IsAccount p.0 p.1) (ok_inj h₁)
        (report_of-IsAccount i before after counted)
