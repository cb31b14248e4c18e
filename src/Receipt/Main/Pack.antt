-- ===== src/Receipt/Main/Pack.antt =====
-- When the two trees and what the pack holds can be read.
use ggen_igniter.Base.{
  String, Option, none, some, List, ◌≡◌, refl, ap, ◌↔◌, All, All-imp, Bool-cases, inl, inr,
  some_inj, string_eq,
}
use ggen_igniter.Base.Exec.{ok, map_m, >>=-eq-ok, ok_inj}
use ggen_igniter.Base.Sort.{sort, str_le}
use ggen_igniter.Base.Text.{path_join}
use ggen_igniter.Receipt.World.{World, digest, listdir, listed, exists, file_lines}
use ggen_igniter.Receipt.Main.Inputs.{artifacts, tree_at, final_manifest}
use ggen_igniter.Receipt.Main.Reads.{
  ontology, ontology_path, gates_path, template_path, gate_digest, gate_digests,
}
use ggen_igniter.Receipt.Main.Returns.{
  Returns, >>=-Returns, map_m-Returns, digest-Returns, file_lines-Returns,
}

listed_iff :
    (w : World) (path : String) (o : Option (List String)) (names : List String)
    → (listed w path o ≡ ok names) ↔ (o ≡ some names)
unfolding listed
listed_iff w path none names = (λ h. absurd (cc), λ h. absurd (cc))
listed_iff w path (some found) names = (λ h. ap some (ok_inj h), λ h. ap ok (some_inj h))

module _ (w : World) where
  pub tree_at-Returns : (path : String) → Returns (tree_at w path) ↔ (w.listing path ≡ none)
  unfolding tree_at
  tree_at-Returns path = (
    λ h.
        let (lines, p, q) = (>>=-Returns (file_lines w path) _).0 h in
        (file_lines-Returns w path).0 (lines, p),
    λ h.
        let (lines, p) = (file_lines-Returns w path).1 h in
        (>>=-Returns (file_lines w path) _).1 (lines, p, (_, refl)),
  )

  -- The last manifest is the one of run 3 or that of run 2.
  pub final_manifest-file :
      w.listing (artifacts w).t2 ≡ none
      → w.listing (artifacts w).t3 ≡ none
      → w.listing (final_manifest w) ≡ none
  unfolding final_manifest
  final_manifest-file second third = elim (Bool-cases (exists w (artifacts w).t3)) [
    | inl p ↦ rw p third
    | inr p ↦ rw p second
  ]

  gate_digest-Returns :
      (name : String)
      → Returns (gate_digest w name) ↔ (w.listing (path_join (gates_path w) name) ≡ none)
  unfolding gate_digest
  gate_digest-Returns name =
      let path = path_join (gates_path w) name in
      (
        λ h.
            let (digested, p, q) = (>>=-Returns (digest w path) _).0 h in
            (digest-Returns w path).0 (digested, p),
        λ h.
            let (digested, p) = (digest-Returns w path).1 h in
            (>>=-Returns (digest w path) _).1 (digested, p, (_, refl)),
      )

  -- The gates are the files of a directory.
  unfoldable pub HasGates : Type 0
  HasGates =
      (names : List String) × (w.listing (gates_path w) ≡ some names)
      × All (λ name. w.listing (path_join (gates_path w) name) ≡ none) (sort str_le names)

  gate_digests-Returns :
      (names : List String)
      → Returns (gate_digests w names)
        ↔ All (λ name. w.listing (path_join (gates_path w) name) ≡ none) (sort str_le names)
  unfolding gate_digests
  gate_digests-Returns names = (
    λ h.
        let (pairs, p, q) = (>>=-Returns (map_m (gate_digest w) (sort str_le names)) _).0 h in
        All-imp (λ name k. (gate_digest-Returns name).0 k) (sort str_le names)
          ((map_m-Returns (gate_digest w) (sort str_le names)).0 (pairs, p)),
    λ h.
        let (pairs, p) =
          (map_m-Returns (gate_digest w) (sort str_le names)).1
            (All-imp (λ name k. (gate_digest-Returns name).1 k) (sort str_le names) h) in
        (>>=-Returns (map_m (gate_digest w) (sort str_le names)) _).1 (pairs, p, (_, refl)),
  )

  pub ontology-Returns :
      Returns (ontology w)
      ↔ ((w.listing (ontology_path w) ≡ none) × HasGates × (w.listing (template_path w) ≡ none))
  unfolding ontology listdir HasGates
  ontology-Returns = (
    λ (about, h).
        let (digested, p, h₁) = >>=-eq-ok (digest w (ontology_path w)) _ h in
        let (names, q, h₂) = >>=-eq-ok (listdir w (gates_path w)) _ h₁ in
        let (gates, r, h₃) = >>=-eq-ok (gate_digests w names) _ h₂ in
        let (template, s, h₄) = >>=-eq-ok (digest w (template_path w)) _ h₃ in
        (
          (digest-Returns w (ontology_path w)).0 (digested, p),
          (
            names,
            (listed_iff w (gates_path w) (w.listing (gates_path w)) names).0 q,
            (gate_digests-Returns names).0 (gates, r),
          ),
          (digest-Returns w (template_path w)).0 (template, s),
        ),
    λ (there, (names, found, files), given).
        let (digested, p) = (digest-Returns w (ontology_path w)).1 there in
        let q = (listed_iff w (gates_path w) (w.listing (gates_path w)) names).1 found in
        let (gates, r) = (gate_digests-Returns names).1 files in
        let (template, s) = (digest-Returns w (template_path w)).1 given in
        (>>=-Returns (digest w (ontology_path w)) _).1 (
          digested,
          p,
          (>>=-Returns (listdir w (gates_path w)) _).1 (
            names,
            q,
            (>>=-Returns (gate_digests w names) _).1
                (gates, r, (>>=-Returns (digest w (template_path w)) _).1 (template, s, (_, refl))),
          ),
        ),
  )
