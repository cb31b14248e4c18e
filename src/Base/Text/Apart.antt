-- ===== src/Base/Text/Apart.antt =====
-- Texts of which neither can stand across a border of the other: what a replacement of the one does
-- to the occurrences of the other.
use Prim.Native.String.{String, ◌++◌ as ◌<>◌}
use text.Mathlib.TextLemmas.{nil-append, cons-append}
use mathlib.Core.Path.{◌≡◌, refl, sym, subst}
use mathlib.Core.Logic.{inl, inr}
use mathlib.Core.Bool.{Bool, true, false, ◌&&◌, ◌||◌, not}
use native.Mathlib.Omega.{arith}
use ggen_igniter.Base.Tests.{or_iff}
use ggen_igniter.Base.Text.{is_prefix, is_infix}
use ggen_igniter.Base.Text.Infix.{is_prefix-append, prefix-is_infix}

-- One of the texts begins with the other.
unfoldable pub agree : String → String → Bool
unfolding is_prefix
agree s t = is_prefix s t || is_prefix t s

-- A suffix of the first text, not empty, agrees with the second.
unfoldable pub clash : String → String → Bool
unfolding agree
clash String.[] t = false
clash (String.◌∷◌ c s) t = agree (String.◌∷◌ c s) t || clash s t

unfoldable pub are_apart : String → String → Bool
unfolding clash
are_apart s t = not (clash s t) && not (clash t s)

or_false : (a b : Bool) → (a || b) ≡ false → (a ≡ false) × (b ≡ false)
or_false a b h = (ground (arith, h), ground (arith, h))

pub are_apart-clash :
    (s t : String) → are_apart s t ≡ true → (clash s t ≡ false) × (clash t s ≡ false)
unfolding are_apart
are_apart-clash s t h = (ground (arith, h), ground (arith, h))

-- Two texts that begin the same text agree.
pub prefixes-agree :
    (s t u : String) → is_prefix s u ≡ true → is_prefix t u ≡ true → agree s t ≡ true
unfolding agree is_prefix
prefixes-agree String.[] t u p q = refl
prefixes-agree (String.◌∷◌ c s) String.[] u p q = ground arith
prefixes-agree (String.◌∷◌ c s) (String.◌∷◌ d t) String.[] p q = absurd (cc)
prefixes-agree (String.◌∷◌ c s) (String.◌∷◌ d t) (String.◌∷◌ e u) p q =
    ground (arith, p, q, prefixes-agree s t u)

-- A prefix of `a <> (t <> b)` that is apart from `t` is one of `a`, whatever follows.
prefix-moves :
    (s a t b u : String)
    → clash s t ≡ false
    → is_prefix s (a <> (t <> b)) ≡ true
    → is_prefix s (a <> u) ≡ true
unfolding is_prefix clash
prefix-moves String.[] a t b u h p = refl
prefix-moves (String.◌∷◌ c s) String.[] t b u h p =
    let q = subst (λ x. is_prefix (String.◌∷◌ c s) x ≡ true) (nil-append (t <> b)) p in
    let r = prefixes-agree (String.◌∷◌ c s) t (t <> b) q (is_prefix-append t b) in
    absurd (ground (arith, h, r))
prefix-moves (String.◌∷◌ c s) (String.◌∷◌ d a) t b u h p =
    let q = subst (λ x. is_prefix (String.◌∷◌ c s) x ≡ true) (cons-append d a (t <> b)) p in
    rw (cons-append d a u) (ground (arith, h, q, prefix-moves s a t b u))

pub infix-append : (s a t : String) → is_infix s t ≡ true → is_infix s (a <> t) ≡ true
unfolding is_infix
infix-append s String.[] t h = subst (λ x. is_infix s x ≡ true) (sym (nil-append t)) h
infix-append s (String.◌∷◌ c a) t h =
    rw (cons-append c a t) ((or_iff _ _).1 (inr (infix-append s a t h)))

prefix-extends : (s t b : String) → is_prefix s t ≡ true → is_prefix s (t <> b) ≡ true
unfolding is_prefix
prefix-extends String.[] t b h = refl
prefix-extends (String.◌∷◌ c s) String.[] b h = absurd (cc)
prefix-extends (String.◌∷◌ c s) (String.◌∷◌ d t) b h =
    rw (cons-append d t b) (ground (arith, h, prefix-extends s t b))

infix-extends : (s t b : String) → is_infix s t ≡ true → is_infix s (t <> b) ≡ true
unfolding is_infix
infix-extends s String.[] b h = prefix-is_infix s _ (prefix-extends s "" b h)
infix-extends s (String.◌∷◌ c t) b h = elim ((or_iff (is_prefix s (String.◌∷◌ c t)) _).0 h) [
  | inl p ↦ prefix-is_infix s _ (prefix-extends s (String.◌∷◌ c t) b p)
  | inr p ↦ rw (cons-append c t b) ((or_iff _ _).1 (inr (infix-extends s t b p)))
]

pub infix-around : (s a t b : String) → is_infix s t ≡ true → is_infix s (a <> (t <> b)) ≡ true
infix-around s a t b h = infix-append s a _ (infix-extends s t b h)

-- What stands in `t <> b` and is apart from `t` stands in `b`.
pub infix-drops :
    (s t b : String) → clash t s ≡ false → is_infix s (t <> b) ≡ true → is_infix s b ≡ true
unfolding is_infix clash agree
infix-drops s String.[] b h p = subst (λ x. is_infix s x ≡ true) (nil-append b) p
infix-drops s (String.◌∷◌ c t) b h p =
    let q = subst (λ x. is_infix s x ≡ true) (cons-append c t b) p in
    ground (
      arith,
      h,
      q,
      infix-drops s t b,
      prefixes-agree s (String.◌∷◌ c t) (String.◌∷◌ c (t <> b)),
      is_prefix-append (String.◌∷◌ c t) b,
      cons-append c t b,
    )

-- An occurrence that is apart from `t` outlives the replacement of `t` by another text.
pub infix-moves :
    (s a t u b : String)
    → are_apart s t ≡ true
    → is_infix s (a <> (t <> b)) ≡ true
    → is_infix s (a <> (u <> b)) ≡ true
unfolding is_infix
infix-moves s String.[] t u b h p =
    let q = subst (λ x. is_infix s x ≡ true) (nil-append _) p in
    infix-append s "" _ (infix-append s u b (infix-drops s t b (are_apart-clash s t h).1 q))
infix-moves s (String.◌∷◌ c a) t u b h p =
    let q = subst (λ x. is_infix s x ≡ true) (cons-append c a (t <> b)) p in
    elim ((or_iff (is_prefix s (String.◌∷◌ c (a <> (t <> b)))) _).0 q) [
      | inl r ↦ prefix-is_infix s _ (
          prefix-moves s (String.◌∷◌ c a) t b (u <> b) (are_apart-clash s t h).0
            (subst (λ x. is_prefix s x ≡ true) (sym (cons-append c a (t <> b))) r))
      | inr r ↦ rw (cons-append c a (u <> b)) ((or_iff _ _).1 (inr (infix-moves s a t u b h r)))
    ]
