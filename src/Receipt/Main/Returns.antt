-- ===== src/Receipt/Main/Returns.antt =====
-- When the reads of `receipt.py` return, and what they return.
use ggen_igniter.Base.{
  String, Option, none, some, List, [], ◌∷◌, ◌≡◌, refl, sym, ap, ◌↔◌, All, string_eq,
}
use mathlib.Core.Path.{subst}
use ggen_igniter.Base.Dict.{Dict}
use ggen_igniter.Base.Exec.{Result, ok, map_m, ◌>>=◌, >>=-eq-ok, ok_inj}
use ggen_igniter.Json.{Json}
use ggen_igniter.Receipt.World.{
  World, found_text, text_at, digest, digest_value, loaded, read_json, file_lines, read_stripped,
  read_text, opened,
}

-- The code returns, with some result.
abbrev pub Returns : {A : Type 0} → Result A → Type 0
Returns {A = A} r = (a : A) × (r ≡ ok a)

module _ {A B : Type 0} (first : Result A) (next : A → Result B) where
  -- Code returns exactly if its first part does and what follows its result.
  pub >>=-Returns : Returns (first >>= next) ↔ ((a : A) × (first ≡ ok a) × Returns (next a))
  >>=-Returns = (
    λ (b, h). let (a, p, q) = >>=-eq-ok first next h in (a, p, (b, q)),
    λ (a, p, (b, q)). (b, rw p q),
  )

module _ {A B : Type 0} (f : A → Result B) (P : B → Type 0) where
  -- `f` returns on each element, and its results have a property.
  pub map_m-All :
      (xs : List A)
      → ((ys : List B) × (map_m f xs ≡ ok ys) × All P ys)
        ↔ All (λ x. (y : B) × (f x ≡ ok y) × P y) xs
  unfolding map_m
  map_m-All [] = (λ h. tt, λ h. ([], refl, tt))
  map_m-All (x ∷ xs) = (
    λ (ys, h, ps).
        let (y, p, h₁) = >>=-eq-ok (f x) _ h in
        let (zs, q, h₂) = >>=-eq-ok (map_m f xs) _ h₁ in
        let (first, others) = subst (All P) (sym (ok_inj h₂)) ps in
        ((y, p, first), (map_m-All xs).0 (zs, q, others)),
    λ ((y, p, first), rest).
        let (zs, q, others) = (map_m-All xs).1 rest in (y ∷ zs, rw (p, q) refl, (first, others)),
  )

module _ {A B : Type 0} (f : A → Result B) where
  pub map_m-Returns : (xs : List A) → Returns (map_m f xs) ↔ All (λ x. Returns (f x)) xs
  unfolding map_m
  map_m-Returns [] = (λ h. tt, λ h. ([], refl))
  map_m-Returns (x ∷ xs) = (
    λ (ys, h).
        let (y, p, h₁) = >>=-eq-ok (f x) _ h in
        let (zs, q, h₂) = >>=-eq-ok (map_m f xs) _ h₁ in ((y, p), (map_m-Returns xs).0 (zs, q)),
    λ ((y, p), rest). let (zs, q) = (map_m-Returns xs).1 rest in (y ∷ zs, rw (p, q) refl),
  )

module _ (w : World) where
  found_text_iff :
      (names : Option (List String)) (content read : Option String)
      → (found_text names content ≡ ok read) ↔ ((names ≡ none) × (content ≡ read))
  unfolding found_text
  found_text_iff none content read = (λ h. (refl, ok_inj h), λ h. ap ok h.1)
  found_text_iff (some names) content read = (λ h. absurd (cc), λ h. absurd (cc))

  pub text_at_iff :
      (path : String) (read : Option String)
      → (text_at w path ≡ ok read) ↔ ((w.listing path ≡ none) × (w.contents path ≡ read))
  unfolding text_at
  text_at_iff path read = found_text_iff (w.listing path) (w.contents path) read

  -- Code that opens a path if it is there returns exactly if the path is no directory, and what
  -- follows its content returns.
  pub after_text :
      {B : Type 0} (path : String) (next : Option String → Result B)
      → Returns (text_at w path >>= next)
        ↔ ((w.listing path ≡ none) × Returns (next (w.contents path)))
  after_text path next = (
    λ h.
        let (content, p, q) = (>>=-Returns (text_at w path) next).0 h in
        let (out, same) = (text_at_iff path content).0 p in
        (out, subst (λ c. Returns (next c)) (sym same) q),
    λ (out, q).
        (>>=-Returns (text_at w path) next).1
          (w.contents path, (text_at_iff path (w.contents path)).1 (out, refl), q),
  )

  pub text_at-Returns : (path : String) → Returns (text_at w path) ↔ (w.listing path ≡ none)
  text_at-Returns path = (
    λ (content, h). ((text_at_iff path content).0 h).0,
    λ h. (w.contents path, (text_at_iff path (w.contents path)).1 (h, refl)),
  )

  pub digest-Returns : (path : String) → Returns (digest w path) ↔ (w.listing path ≡ none)
  unfolding digest
  digest-Returns path =
      (λ h. ((after_text path _).0 h).0, λ h. (after_text path _).1 (h, (_, refl)))

  -- Of a path that is no directory, `digest` returns what the oracles compare.
  digest-digest_value :
      (path : String) → w.listing path ≡ none → digest w path ≡ ok (digest_value w path)
  unfolding digest digest_value
  digest-digest_value path h = rw ((text_at_iff path (w.contents path)).1 (h, refl)) refl

  pub file_lines-Returns : (path : String) → Returns (file_lines w path) ↔ (w.listing path ≡ none)
  unfolding file_lines
  file_lines-Returns path =
      (λ h. ((after_text path _).0 h).0, λ h. (after_text path _).1 (h, (_, refl)))

  pub read_stripped-Returns :
      (path : String) → Returns (read_stripped w path) ↔ (w.listing path ≡ none)
  unfolding read_stripped
  read_stripped-Returns path =
      (λ h. ((after_text path _).0 h).0, λ h. (after_text path _).1 (h, (_, refl)))

  opened-Returns :
      (path : String) (content : Option String)
      → Returns (opened w path content) ↔ ((t : String) × (content ≡ some t))
  unfolding opened
  opened-Returns path none = (λ h. absurd (cc), λ h. absurd (cc))
  opened-Returns path (some t) = (λ h. (t, refl), λ h. (t, refl))

  pub read_text-Returns :
      (path : String)
      → Returns (read_text w path)
        ↔ ((w.listing path ≡ none) × ((t : String) × (w.contents path ≡ some t)))
  unfolding read_text
  read_text-Returns path = (
    λ h.
        let (out, q) = (after_text path _).0 h in
        (out, (opened-Returns path (w.contents path)).0 q),
    λ (out, q). (after_text path _).1 (out, (opened-Returns path (w.contents path)).1 q),
  )

  -- The text of a file, if there is one, is JSON.
  unfoldable pub IsDecodable : Option String → Type 0
  IsDecodable none = Unit
  IsDecodable (some t) = (doc : Dict String Json) × (w.load t ≡ ok doc)

  loaded-Returns : (content : Option String) → Returns (loaded w content) ↔ IsDecodable content
  unfolding loaded IsDecodable
  loaded-Returns none = (λ h. tt, λ h. (none, refl))
  loaded-Returns (some t) = (
    λ (out, h). let (doc, p, q) = >>=-eq-ok (w.load t) _ h in (doc, p),
    λ (doc, p). (>>=-Returns (w.load t) _).1 (doc, p, (_, refl)),
  )

  pub read_json-Returns :
      (path : String)
      → Returns (read_json w path) ↔ ((w.listing path ≡ none) × IsDecodable (w.contents path))
  unfolding read_json
  read_json-Returns path = (
    λ h. let (out, q) = (after_text path _).0 h in (out, (loaded-Returns (w.contents path)).0 q),
    λ (out, q). (after_text path _).1 (out, (loaded-Returns (w.contents path)).1 q),
  )
