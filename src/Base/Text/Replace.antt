-- ===== src/Base/Text/Replace.antt =====
-- `replace`: which texts occur in what it returns.
use Prim.Native.Nat.{ℕ, zero, suc, ◌-◌}
use Prim.Native.Char.{Char}
use Prim.Native.String.{String, ◌++◌ as ◌<>◌, count as chars}
use text.Mathlib.TextLemmas.{cons-append}
use mathlib.Core.Path.{◌≡◌, refl, sym, ap, ◌∙◌, subst}
use mathlib.Core.Logic.{inl, inr}
use mathlib.Core.Bool.{true, false}
use native.Mathlib.Omega.{arith}
use ggen_igniter.Base.Tests.{and_iff, or_iff, Bool-cases}
use ggen_igniter.Base.Text.{is_prefix, is_infix, drop_chars, replace_from}
use ggen_igniter.Base.Text.Infix.{
  is_prefix-append, prefix-is_infix, drop_chars-prefix, chars-cons, char_eq,
}
use ggen_igniter.Base.Text.Apart.{
  clash, are_apart, are_apart-clash, prefixes-agree, infix-append, infix-drops,
}

-- What follows an occurrence at the front, of a text that is not empty.
after-hit :
    (old : String) (c : Char) (s : String)
    → is_prefix old "" ≡ false
    → is_prefix old (String.◌∷◌ c s) ≡ true
    → String.◌∷◌ c s ≡ old <> drop_chars (chars old - 1) s
unfolding is_prefix
after-hit String.[] c s ne p = absurd (cc)
after-hit (String.◌∷◌ d o) c s ne p =
    let less : suc (chars o) - 1 ≡ chars o = omega arith in
    let (same, rest) = (and_iff _ _).0 p in
    rw (chars-cons d o, less)
      (ap (λ x. String.◌∷◌ x s) (sym (char_eq d c same))
        ∙ (ap (λ u. String.◌∷◌ d u) (drop_chars-prefix o s rest) ∙ sym (cons-append d o _)))

module _ (old new : String) where
  replace-hit :
      (c : Char) (s : String)
      → is_prefix old (String.◌∷◌ c s) ≡ true
      → replace_from old new 0 (String.◌∷◌ c s) ≡ new <> replace_from old new (chars old - 1) s
  unfolding replace_from
  replace-hit c s p = rw (replace_from, p) refl

  replace-miss :
      (c : Char) (s : String)
      → is_prefix old (String.◌∷◌ c s) ≡ false
      → replace_from old new 0 (String.◌∷◌ c s) ≡ String.◌∷◌ c (replace_from old new 0 s)
  unfolding replace_from
  replace-miss c s p = rw (replace_from, p) refl

  -- A text that is apart from the replaced one stays in its place at the front.
  replace-keeps_prefix :
      (shown s : String)
      → clash shown old ≡ false
      → is_prefix shown s ≡ true
      → is_prefix shown (replace_from old new 0 s) ≡ true
  unfolding is_prefix clash
  replace-keeps_prefix String.[] s h p = refl
  replace-keeps_prefix (String.◌∷◌ d t) String.[] h p = absurd (cc)
  replace-keeps_prefix (String.◌∷◌ d t) (String.◌∷◌ c s) h p =
      elim (Bool-cases (is_prefix old (String.◌∷◌ c s))) [
        | inl q ↦
            let r = prefixes-agree (String.◌∷◌ d t) old (String.◌∷◌ c s) p q in
            absurd (ground (arith, h, r))
        | inr q ↦ rw (replace-miss c s q) (ground (arith, h, p, replace-keeps_prefix t s))
      ]

  -- An occurrence that is apart from the replaced text outlives the replacement.
  pub replace_from-keeps :
      (shown : String) (skip : ℕ) (s : String)
      → is_prefix old "" ≡ false
      → are_apart shown old ≡ true
      → is_infix shown (drop_chars skip s) ≡ true
      → is_infix shown (replace_from old new skip s) ≡ true
  unfolding is_infix replace_from drop_chars
  replace_from-keeps shown zero String.[] ne h p = p
  replace_from-keeps shown (suc skip) String.[] ne h p = p
  replace_from-keeps shown (suc skip) (String.◌∷◌ c s) ne h p =
      replace_from-keeps shown skip s ne h p
  replace_from-keeps shown zero (String.◌∷◌ c s) ne h p =
      elim (Bool-cases (is_prefix old (String.◌∷◌ c s))) [
        | inl q ↦
            let r = subst (λ x. is_infix shown x ≡ true) (after-hit old c s ne q) p in
            rw (replace-hit c s q) (
              infix-append shown new _ (
                replace_from-keeps shown (chars old - 1) s ne h
                  (infix-drops shown old _ (are_apart-clash shown old h).1 r)))
        | inr q ↦ elim ((or_iff (is_prefix shown (String.◌∷◌ c s)) _).0 p) [
          | inl r ↦
              prefix-is_infix shown _
                (replace-keeps_prefix shown (String.◌∷◌ c s) (are_apart-clash shown old h).0 r)
          | inr r ↦
              rw (replace-miss c s q)
                ((or_iff _ _).1 (inr (replace_from-keeps shown zero s ne h r)))
        ]
      ]

  -- A text that is apart from the new one is at the front of the result only if it was there.
  replace-adds_no_prefix :
      (t s : String)
      → clash t new ≡ false
      → is_prefix t (replace_from old new 0 s) ≡ true
      → is_prefix t s ≡ true
  unfolding is_prefix clash replace_from
  replace-adds_no_prefix String.[] s h p = refl
  replace-adds_no_prefix (String.◌∷◌ d t) String.[] h p = p
  replace-adds_no_prefix (String.◌∷◌ d t) (String.◌∷◌ c s) h p =
      elim (Bool-cases (is_prefix old (String.◌∷◌ c s))) [
        | inl q ↦
            let r = subst (λ x. is_prefix (String.◌∷◌ d t) x ≡ true) (replace-hit c s q) p in
            let g = prefixes-agree (String.◌∷◌ d t) new _ r (is_prefix-append new _) in
            absurd (ground (arith, h, g))
        | inr q ↦
            let r = subst (λ x. is_prefix (String.◌∷◌ d t) x ≡ true) (replace-miss c s q) p in
            ground (arith, h, r, replace-adds_no_prefix t s)
      ]

  -- It occurs in the result only if it occurred.
  pub replace_from-adds_none :
      (t : String) (skip : ℕ) (s : String)
      → is_prefix old "" ≡ false
      → are_apart t new ≡ true
      → is_infix t (replace_from old new skip s) ≡ true
      → is_infix t (drop_chars skip s) ≡ true
  unfolding is_infix replace_from drop_chars
  replace_from-adds_none t zero String.[] ne h p = p
  replace_from-adds_none t (suc skip) String.[] ne h p = p
  replace_from-adds_none t (suc skip) (String.◌∷◌ c s) ne h p =
      replace_from-adds_none t skip s ne h p
  replace_from-adds_none t zero (String.◌∷◌ c s) ne h p =
      elim (Bool-cases (is_prefix old (String.◌∷◌ c s))) [
        | inl q ↦
            let r = subst (λ x. is_infix t x ≡ true) (replace-hit c s q) p in
            let later = infix-drops t new _ (are_apart-clash t new h).1 r in
            subst (λ x. is_infix t x ≡ true) (sym (after-hit old c s ne q))
              (infix-append t old _ (replace_from-adds_none t (chars old - 1) s ne h later))
        | inr q ↦
            elim ((or_iff (is_prefix t (String.◌∷◌ c (replace_from old new 0 s))) _).0
              (subst (λ x. is_infix t x ≡ true) (replace-miss c s q) p)) [
                | inl r ↦ (or_iff _ _).1 (
                    inl (
                      replace-adds_no_prefix t (String.◌∷◌ c s) (are_apart-clash t new h).0
                        (subst (λ x. is_prefix t x ≡ true) (sym (replace-miss c s q)) r)))
                | inr r ↦ (or_iff _ _).1 (inr (replace_from-adds_none t zero s ne h r))
              ]
      ]

  -- The replaced text does not occur in the result, if it is apart from the new one.
  pub replace_from-removes :
      (skip : ℕ) (s : String)
      → is_prefix old "" ≡ false
      → are_apart old new ≡ true
      → is_infix old (replace_from old new skip s) ≡ true
      → ⊥
  unfolding is_infix replace_from
  replace_from-removes zero String.[] ne h p = cc
  replace_from-removes (suc skip) String.[] ne h p = cc
  replace_from-removes (suc skip) (String.◌∷◌ c s) ne h p = replace_from-removes skip s ne h p
  replace_from-removes zero (String.◌∷◌ c s) ne h p =
      elim (Bool-cases (is_prefix old (String.◌∷◌ c s))) [
        | inl q ↦ replace_from-removes (chars old - 1) s ne h (
            infix-drops old new _ (are_apart-clash old new h).1
              (subst (λ x. is_infix old x ≡ true) (replace-hit c s q) p))
        | inr q ↦
            elim ((or_iff (is_prefix old (String.◌∷◌ c (replace_from old new 0 s))) _).0
              (subst (λ x. is_infix old x ≡ true) (replace-miss c s q) p)) [
                | inl r ↦
                    let front =
                      replace-adds_no_prefix old (String.◌∷◌ c s) (are_apart-clash old new h).0
                        (subst (λ x. is_prefix old x ≡ true) (sym (replace-miss c s q)) r) in
                    cc
                | inr r ↦ replace_from-removes zero s ne h r
              ]
      ]

  -- A text in which the old one does not occur stays as it is.
  pub replace-absent : (s : String) → is_infix old s ≡ false → replace_from old new 0 s ≡ s
  unfolding is_infix replace_from
  replace-absent String.[] h = refl
  replace-absent (String.◌∷◌ c s) h = ground (arith, h, replace-miss c s, replace-absent s)
