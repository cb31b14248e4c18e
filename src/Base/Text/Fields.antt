-- ===== src/Base/Text/Fields.antt =====
-- The fields of a text that was joined: each of the joined texts gives its own fields.
use Prim.Native.Nat.{ℕ}
use Prim.Native.Char.{Char, code}
use Prim.Native.String.{String, ◌++◌ as ◌<>◌}
use text.Mathlib.TextLemmas.{nil-append, cons-append}
use mathlib.Core.Path.{◌≡◌, refl, sym, ap, ◌∙◌}
use mathlib.Core.Logic.{inl, inr}
use mathlib.Core.List.{List, [], ◌∷◌, ◌++◌, append-nil}
use mathlib.Core.Bool.{true}
use ggen_igniter.Base.Tests.{Bool-cases, nat_beq}
use ggen_igniter.Base.Lists.{flat_map}
use ggen_igniter.Base.Text.{push_char, split, join}

split-ne-nil : (sep : ℕ) (s : String) → (w : String) × (ws : List String) × (split sep s ≡ w ∷ ws)
unfolding split push_char
split-ne-nil sep String.[] = ("", [], refl)
split-ne-nil sep (String.◌∷◌ c s) = elim (Bool-cases (nat_beq (code c) sep)) [
  | inl p ↦ ("", split sep s, rw p refl)
  | inr p ↦ let (w, ws, e) = split-ne-nil sep s in (String.◌∷◌ c w, ws, rw (p, e) refl)
]

push_char-append :
    (c : Char) (w : String) (ws vs : List String)
    → push_char c ((w ∷ ws) ++ vs) ≡ push_char c (w ∷ ws) ++ vs
unfolding push_char
push_char-append c w ws vs = refl

split-sep :
    (sep : ℕ) (d : Char) (t : String)
    → nat_beq (code d) sep ≡ true
    → split sep (String.◌∷◌ d t) ≡ "" ∷ split sep t
unfolding split
split-sep sep d t h = rw h refl

split-append :
    (sep : ℕ) (s : String) (d : Char) (t : String)
    → nat_beq (code d) sep ≡ true
    → split sep (s <> String.◌∷◌ d t) ≡ split sep s ++ split sep t
unfolding split
split-append sep String.[] d t h =
    ap (split sep) (nil-append (String.◌∷◌ d t)) ∙ split-sep sep d t h
split-append sep (String.◌∷◌ c s) d t h =
    ap (split sep) (cons-append c s (String.◌∷◌ d t)) ∙ elim (Bool-cases (nat_beq (code c) sep)) [
      | inl p ↦ rw (p, split-append sep s d t h) refl
      | inr p ↦
          let (w, ws, e) = split-ne-nil sep s in
          rw (p, split-append sep s d t h, e) (push_char-append c w ws (split sep t))
    ]

comma : (t : String) → "," <> t ≡ String.◌∷◌ "," t
comma t = cons-append "," "" t ∙ ap (String.◌∷◌ ",") (nil-append t)

-- The fields of texts that were joined by the separator.
pub split-join :
    (w : String) (ws : List String)
    → split b',' (join "," (w ∷ ws)) ≡ flat_map (split b',') (w ∷ ws)
unfolding join flat_map
split-join w [] = sym (append-nil (split b',' w))
split-join w (v ∷ ws) =
    ap (λ t. split b',' (w <> t)) (comma (join "," (v ∷ ws)))
    ∙ (split-append b',' w "," (join "," (v ∷ ws)) refl
        ∙ ap (λ l. split b',' w ++ l) (split-join v ws))
