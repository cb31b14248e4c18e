-- ===== src/Citation/Parse/Laws.antt =====
-- The unescaping of `literal` undoes the escaping of Turtle's quotes and backslashes.
use Prim.Native.Nat.{◌-◌}
use Prim.Native.Char.{Char, code}
use text.Mathlib.TextEquality.{Char-path}
use Prim.Native.String.{◌++◌ as ◌<>◌, count as chars}
use text.Mathlib.TextLemmas.{nil-append, cons-append}
use ggen_igniter.Base.{
  String, some, Bool, true, false, ◌≡◌, refl, sym, ap, ◌∙◌, inl, inr, arith, nat_beq, nat_beq_iff,
  Bool-cases, if◌then◌else◌,
}
use ggen_igniter.Base.Text.{is_prefix, replace_from}
use ggen_igniter.Citation.Parse.{unescaped}

abbrev is_backslash : Char → Bool
is_backslash c = nat_beq (code c) 92

abbrev is_quote : Char → Bool
is_quote c = nat_beq (code c) 34

-- A backslash before each backslash.
doubled : String → String
doubled String.[] = ""
doubled (String.◌∷◌ c s) =
    let rest = doubled s in
    if is_backslash c then String.◌∷◌ c (String.◌∷◌ c rest) else String.◌∷◌ c rest

-- A backslash before each backslash and each quote, as a text is written in a Turtle literal.
unfoldable pub escaped : String → String
escaped String.[] = ""
escaped (String.◌∷◌ c s) =
    let rest = escaped s in
    if is_backslash c
    then String.◌∷◌ c (String.◌∷◌ c rest)
    else (if is_quote c then String.◌∷◌ "\\" (String.◌∷◌ c rest) else String.◌∷◌ c rest)

module _ (c : Char) (s : String) where
  escaped_backslash :
      is_backslash c ≡ true → escaped (String.◌∷◌ c s) ≡ String.◌∷◌ c (String.◌∷◌ c (escaped s))
  unfolding escaped
  escaped_backslash p = rw (escaped, p) refl

  escaped_quote :
      is_backslash c ≡ false
      → is_quote c ≡ true
      → escaped (String.◌∷◌ c s) ≡ String.◌∷◌ "\\" (String.◌∷◌ c (escaped s))
  unfolding escaped
  escaped_quote p q = rw (escaped, p, q) refl

  escaped_other :
      is_backslash c ≡ false
      → is_quote c ≡ false
      → escaped (String.◌∷◌ c s) ≡ String.◌∷◌ c (escaped s)
  unfolding escaped
  escaped_other p q = rw (escaped, p, q) refl

  head_test : is_quote c ≡ false → is_prefix "\"" (String.◌∷◌ c s) ≡ false
  unfolding is_prefix
  head_test q = ground (arith, q)

  no_escape : is_backslash c ≡ false → is_prefix "\\\"" (String.◌∷◌ c s) ≡ false
  unfolding is_prefix
  no_escape q = ground (arith, q)

  no_double : is_backslash c ≡ false → is_prefix "\\\\" (String.◌∷◌ c s) ≡ false
  unfolding is_prefix
  no_double q = ground (arith, q)

  not_quote : is_backslash c ≡ true → is_quote c ≡ false
  not_quote q = ground (arith, q)

  kept :
      (old new : String)
      → is_prefix old (String.◌∷◌ c s) ≡ false
      → replace_from old new 0 (String.◌∷◌ c s) ≡ String.◌∷◌ c (replace_from old new 0 s)
  unfolding replace_from
  kept old new p = rw (replace_from, p) refl

-- No escaped text begins with a quote.
escaped_start : (s : String) → is_prefix "\"" (escaped s) ≡ false
unfolding is_prefix escaped
escaped_start String.[] = refl
escaped_start (String.◌∷◌ c s) = elim (Bool-cases (is_backslash c)) [
  | inl p ↦ rw (escaped_backslash c s p) (head_test c (String.◌∷◌ c (escaped s)) (not_quote c s p))
  | inr p ↦ elim (Bool-cases (is_quote c)) [
    | inl q ↦ rw (escaped_quote c s p q) refl
    | inr q ↦ rw (escaped_other c s p q) (head_test c (escaped s) q)
  ]
]

after_any : (c : Char) (s : String) → is_prefix "\\\"" (String.◌∷◌ c (escaped s)) ≡ false
unfolding is_prefix
after_any c s = ground (arith, escaped_start s)

module _ (c : Char) (s : String) where
  taken :
      (old new : String)
      → is_prefix old (String.◌∷◌ c s) ≡ true
      → replace_from old new 0 (String.◌∷◌ c s) ≡ new <> replace_from old new (chars old - 1) s
  unfolding replace_from
  taken old new p = rw (replace_from, p) refl

  twice : is_backslash c ≡ true → is_prefix "\\\"" (String.◌∷◌ c (String.◌∷◌ c s)) ≡ false
  unfolding is_prefix
  twice p = ground (arith, p)

  double_found : is_backslash c ≡ true → is_prefix "\\\\" (String.◌∷◌ c (String.◌∷◌ c s)) ≡ true
  unfolding is_prefix
  double_found p = ground (arith, p)

  quote_found : is_quote c ≡ true → is_prefix "\\\"" (String.◌∷◌ "\\" (String.◌∷◌ c s)) ≡ true
  unfolding is_prefix
  quote_found p = ground (arith, p)

  doubled_backslash :
      is_backslash c ≡ true → doubled (String.◌∷◌ c s) ≡ String.◌∷◌ c (String.◌∷◌ c (doubled s))
  unfolding doubled
  doubled_backslash p = rw (doubled, p) refl

  doubled_other : is_backslash c ≡ false → doubled (String.◌∷◌ c s) ≡ String.◌∷◌ c (doubled s)
  unfolding doubled
  doubled_other p = rw (doubled, p) refl

  -- The character of a test in front of a text.
  in_front : (d : Char) → nat_beq (code c) (code d) ≡ true → String.◌∷◌ d "" <> s ≡ String.◌∷◌ c s
  in_front d h =
      cons-append d "" s
      ∙ (ap (λ t. String.◌∷◌ d t) (nil-append s)
          ∙ ap (λ x. String.◌∷◌ x s) (sym (Char-path c d ((nat_beq_iff _ _).0 h))))

-- The first replacement takes the backslashes before the quotes away.
quotes_unescaped : (s : String) → replace_from "\\\"" "\"" 0 (escaped s) ≡ doubled s
unfolding replace_from escaped doubled
quotes_unescaped String.[] = refl
quotes_unescaped (String.◌∷◌ c s) = elim (Bool-cases (is_backslash c)) [
  | inl p ↦ rw (escaped_backslash c s p) (
      kept c (String.◌∷◌ c (escaped s)) "\\\"" "\"" (twice c (escaped s) p)
      ∙ (ap (λ t. String.◌∷◌ c t)
            (kept c (escaped s) "\\\"" "\"" (after_any c s)
              ∙ ap (λ t. String.◌∷◌ c t) (quotes_unescaped s))
          ∙ sym (doubled_backslash c s p)))
  | inr p ↦ elim (Bool-cases (is_quote c)) [
    | inl q ↦ rw (escaped_quote c s p q) (
        taken "\\" (String.◌∷◌ c (escaped s)) "\\\"" "\"" (quote_found c (escaped s) q)
        ∙ (ap (λ t. "\"" <> t) (quotes_unescaped s)
            ∙ (in_front c (doubled s) "\"" q ∙ sym (doubled_other c s p))))
    | inr q ↦ rw (escaped_other c s p q) (
        kept c (escaped s) "\\\"" "\"" (no_escape c (escaped s) p)
        ∙ (ap (λ t. String.◌∷◌ c t) (quotes_unescaped s) ∙ sym (doubled_other c s p)))
  ]
]

-- The second one takes the backslashes before the backslashes away.
doubles_unescaped : (s : String) → replace_from "\\\\" "\\" 0 (doubled s) ≡ s
unfolding replace_from doubled
doubles_unescaped String.[] = refl
doubles_unescaped (String.◌∷◌ c s) = elim (Bool-cases (is_backslash c)) [
  | inl p ↦ rw (doubled_backslash c s p) (
      taken c (String.◌∷◌ c (doubled s)) "\\\\" "\\" (double_found c (doubled s) p)
      ∙ (ap (λ t. "\\" <> t) (doubles_unescaped s) ∙ in_front c s "\\" p))
  | inr p ↦ rw (doubled_other c s p) (
      kept c (doubled s) "\\\\" "\\" (no_double c (doubled s) p)
      ∙ ap (λ t. String.◌∷◌ c t) (doubles_unescaped s))
]

-- A text that was escaped for a Turtle literal is read back as it was.
pub unescaped-escaped : (prop s : String) → unescaped prop (some (escaped s)) ≡ s
unfolding unescaped
unescaped-escaped prop s =
    ap (replace_from "\\\\" "\\" 0) (quotes_unescaped s) ∙ doubles_unescaped s
