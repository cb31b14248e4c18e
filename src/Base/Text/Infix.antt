-- ===== src/Base/Text/Infix.antt =====
-- `in`, `startswith` and the first replacement, as equations between texts.
use Prim.Native.Nat.{suc, ◌≤◌}
use Prim.Native.Char.{Char, code}
use Prim.Native.String.{String, ◌++◌ as ◌<>◌, count as chars}
use Prim.Native.String.count as count_laws
use text.Mathlib.TextEquality.{Char-path}
use text.Mathlib.TextLemmas.{nil-append, cons-append, append-nil}
use mathlib.Core.Path.{◌≡◌, refl, sym, ap, ◌∙◌}
use mathlib.Core.Logic.{inl, inr}
use mathlib.Core.Bool.{true, false}
use native.Mathlib.Omega.{arith}
use ggen_igniter.Base.Tests.{nat_beq, nat_beq_iff, and_iff, or_iff, Bool-cases}
use ggen_igniter.Base.Text.{is_prefix, is_infix, drop_chars, replace_first}

true_ne_false : true ≡ false → ⊥
true_ne_false h = cc

pub char_eq : (c d : Char) → nat_beq (code c) (code d) ≡ true → c ≡ d
char_eq c d h = Char-path c d ((nat_beq_iff _ _).0 h)

pub is_prefix-append : (t s : String) → is_prefix t (t <> s) ≡ true
unfolding is_prefix
is_prefix-append String.[] s = refl
is_prefix-append (String.◌∷◌ c t) s =
    rw (cons-append c t s) ((and_iff _ _).1 ((nat_beq_iff _ _).1 refl, is_prefix-append t s))

pub chars-cons : (c : Char) (s : String) → chars (String.◌∷◌ c s) ≡ suc (chars s)
chars-cons c s = λ i. Prim.Native.String.count.cons c s i

is_prefix-nil : (t : String) → is_prefix t "" ≡ true → t ≡ ""
unfolding is_prefix
is_prefix-nil String.[] h = refl
is_prefix-nil (String.◌∷◌ c t) h = absurd (cc)

-- What is left of a text after a prefix of it.
pub drop_chars-prefix : (t s : String) → is_prefix t s ≡ true → s ≡ t <> drop_chars (chars t) s
unfolding is_prefix drop_chars
drop_chars-prefix String.[] s h = sym (nil-append s)
drop_chars-prefix (String.◌∷◌ c t) String.[] h = absurd (cc)
drop_chars-prefix (String.◌∷◌ c t) (String.◌∷◌ d s) h =
    let (same, rest) = (and_iff _ _).0 h in
    rw (chars-cons c t) (
      ap (λ x. String.◌∷◌ x s) (sym (char_eq c d same))
      ∙ (ap (λ u. String.◌∷◌ c u) (drop_chars-prefix t s rest) ∙ sym (cons-append c t _)))

pub prefix-is_infix : (t s : String) → is_prefix t s ≡ true → is_infix t s ≡ true
unfolding is_infix
prefix-is_infix t String.[] h = h
prefix-is_infix t (String.◌∷◌ c s) h = (or_iff _ _).1 (inl h)

-- A text stands in every text around it.
pub is_infix-append : (a t b : String) → is_infix t (a <> (t <> b)) ≡ true
unfolding is_infix
is_infix-append String.[] t b =
    rw (nil-append (t <> b)) (prefix-is_infix t (t <> b) (is_prefix-append t b))
is_infix-append (String.◌∷◌ c a) t b =
    rw (cons-append c a (t <> b)) ((or_iff _ _).1 (inr (is_infix-append a t b)))

tail_eq : {c d : Char} {s t : String} → String.◌∷◌ c s ≡ String.◌∷◌ d t → s ≡ t
tail_eq h = cc

-- A text as what stands before an occurrence of another, and what stands after it.
unfoldable pub SplitsAt : String → String → String → String → Type 0
SplitsAt t s a b = s ≡ a <> (t <> b)

-- No occurrence begins earlier.
unfoldable pub IsFirst : String → String → String → Type 0
unfolding SplitsAt
IsFirst t s a = (d e : String) → SplitsAt t s d e → chars a ≤ chars d

-- The first occurrence is one character further, if there is none at the front.
IsFirst-later :
    (t s a : String) (c : Char)
    → is_prefix t (String.◌∷◌ c s) ≡ false
    → IsFirst t s a
    → IsFirst t (String.◌∷◌ c s) (String.◌∷◌ c a)
unfolding IsFirst SplitsAt
IsFirst-later t s a c p f String.[] e h =
    absurd
      (true_ne_false (sym (is_prefix-append t e) ∙ (ap (is_prefix t) (sym (h ∙ nil-append _)) ∙ p)))
IsFirst-later t s a c p f (String.◌∷◌ d ds) e h =
    rw (chars-cons c a)
      (rw (chars-cons d ds) (omega (arith, f ds e (tail_eq (h ∙ cons-append d ds (t <> e))))))

replace_first-nil : (old new : String) → is_prefix old "" ≡ true → replace_first old new "" ≡ new
unfolding replace_first
replace_first-nil old new p = rw (replace_first, p) refl

-- The first replacement of a text that occurs: it is the text around the first occurrence that stays.
pub replace_first-splits :
    (old new s : String)
    → is_infix old s ≡ true
    → (a : String) × (b : String) × SplitsAt old s a b
      × IsFirst old s a
      × (replace_first old new s ≡ a <> (new <> b))
unfolding is_infix replace_first SplitsAt IsFirst
replace_first-splits old new String.[] h = (
  "",
  "",
  sym (nil-append _ ∙ (append-nil old ∙ is_prefix-nil old h)),
  (λ d e k. omega arith),
  replace_first-nil old new h ∙ sym (nil-append _ ∙ append-nil new),
)
replace_first-splits old new (String.◌∷◌ c s) h =
    elim (Bool-cases (is_prefix old (String.◌∷◌ c s))) [
      | inl p ↦ (
        "",
        drop_chars (chars old) (String.◌∷◌ c s),
        drop_chars-prefix old (String.◌∷◌ c s) p ∙ sym (nil-append _),
        (λ d e k. omega arith),
        rw (replace_first, p) (sym (nil-append _)),
      )
      | inr p ↦
          let (a, b, before, first, after) =
            replace_first-splits old new s (ground (arith, h, p)) in
          (
            String.◌∷◌ c a,
            b,
            ap (λ u. String.◌∷◌ c u) before ∙ sym (cons-append c a _),
            IsFirst-later old s a c p first,
            rw (replace_first, p) (ap (λ u. String.◌∷◌ c u) after ∙ sym (cons-append c a _)),
          )
    ]
