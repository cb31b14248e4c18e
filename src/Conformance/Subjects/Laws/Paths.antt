-- ===== src/Conformance/Subjects/Laws/Paths.antt =====
-- The characters of an underscored name.
use Prim.Native.Nat.{◌-◌, zero, suc}
use Prim.Native.Char.{Char, code}
use ggen_igniter.Base.{
  ℕ, String, Bool, true, not, ◌&&◌, ◌||◌, ◌≡◌, refl, inl, inr, nat_beq, Bool-cases, and_iff,
}
use ggen_igniter.Conformance.Subjects.{
  is_upper, is_lower, is_digit, nth_char, lower_char, lower_letters, map_text, replace_char,
  split_acronyms, split_words, underscore,
}

-- A test of every character.
unfoldable pub all_chars : (Char → Bool) → String → Bool
all_chars p String.[] = true
all_chars p (String.◌∷◌ c s) = p c && all_chars p s

-- Neither a capital, nor a dot, nor a hyphen.
unfoldable pub is_plain : Char → Bool
unfolding is_upper
is_plain c = not (is_upper (code c)) && (not (nat_beq (code c) b'.') && not (nat_beq (code c) b'-'))

is_undotted : Char → Bool
is_undotted c = not (nat_beq (code c) b'.')

is_unhyphened : Char → Bool
is_unhyphened c = not (nat_beq (code c) b'.') && not (nat_beq (code c) b'-')

module _ (p q : Char → Bool) (f : Char → Char)
    (step : (c : Char) → p c ≡ true → q (f c) ≡ true) where
  map_text-all : (s : String) → all_chars p s ≡ true → all_chars q (map_text f s) ≡ true
  unfolding all_chars map_text
  map_text-all String.[] h = refl
  map_text-all (String.◌∷◌ c s) h =
      let (a, b) = (and_iff (p c) (all_chars p s)).0 h in
      (and_iff _ _).1 (step c a, map_text-all s b)

module _ (p : Char → Bool) (bar : p "_" ≡ true) where
  split_words-all : (s : String) → all_chars p s ≡ true → all_chars p (split_words s) ≡ true
  unfolding all_chars split_words
  split_words-all String.[] h = refl
  split_words-all (String.◌∷◌ c String.[]) h = h
  split_words-all (String.◌∷◌ c (String.◌∷◌ d s)) h =
      let (a, b) = (and_iff (p c) (all_chars p (String.◌∷◌ d s))).0 h in
      let rest = split_words-all (String.◌∷◌ d s) b in
      elim (Bool-cases ((is_lower (code c) || is_digit (code c)) && is_upper (code d))) [
        | inl t ↦ rw t ((and_iff _ _).1 (a, (and_iff _ _).1 (bar, rest)))
        | inr t ↦ rw t ((and_iff _ _).1 (a, rest))
      ]

  split_acronyms-all : (s : String) → all_chars p s ≡ true → all_chars p (split_acronyms s) ≡ true
  unfolding all_chars split_acronyms
  split_acronyms-all String.[] h = refl
  split_acronyms-all (String.◌∷◌ c String.[]) h = h
  split_acronyms-all (String.◌∷◌ c (String.◌∷◌ d String.[])) h = h
  split_acronyms-all (String.◌∷◌ c (String.◌∷◌ d (String.◌∷◌ e s))) h =
      let (a, b) = (and_iff (p c) (all_chars p (String.◌∷◌ d (String.◌∷◌ e s)))).0 h in
      let rest = split_acronyms-all (String.◌∷◌ d (String.◌∷◌ e s)) b in
      elim (Bool-cases (is_upper (code c) && is_upper (code d) && is_lower (code e))) [
        | inl t ↦ rw t ((and_iff _ _).1 (a, (and_iff _ _).1 (bar, rest)))
        | inr t ↦ rw t ((and_iff _ _).1 (a, rest))
      ]

  nth_char-all : (n : ℕ) (s : String) → all_chars p s ≡ true → p (nth_char n "_" s) ≡ true
  unfolding all_chars nth_char
  nth_char-all n String.[] h = bar
  nth_char-all zero (String.◌∷◌ c s) h = ((and_iff _ _).0 h).0
  nth_char-all (suc n) (String.◌∷◌ c s) h = nth_char-all n s ((and_iff (p c) _).0 h).1

all_chars-true : (s : String) → all_chars (λ c. true) s ≡ true
unfolding all_chars
all_chars-true String.[] = refl
all_chars-true (String.◌∷◌ c s) = all_chars-true s

undot : (c : Char) → true ≡ true → is_undotted (replace_char b'.' "/" c) ≡ true
unfolding is_undotted replace_char
undot c h = elim (Bool-cases (nat_beq (code c) b'.')) [
  | inl p ↦ rw p refl
  | inr p ↦ rw p (rw p refl)
]

unhyphen : (c : Char) → is_undotted c ≡ true → is_unhyphened (replace_char b'-' "_" c) ≡ true
unfolding is_undotted is_unhyphened replace_char
unhyphen c h = elim (Bool-cases (nat_beq (code c) b'-')) [
  | inl p ↦ rw p refl
  | inr p ↦ rw p (rw (p, h) refl)
]

lowered : (c : Char) → is_unhyphened c ≡ true → is_plain (lower_char c) ≡ true
unfolding is_unhyphened is_plain lower_char all_chars
lowered c h = elim (Bool-cases (is_upper (code c))) [
  | inl p ↦ rw p (nth_char-all is_plain refl (code c - b'A') lower_letters refl)
  | inr p ↦ rw p (rw (p, h) refl)
]

-- An underscored name has no capital, no dot and no hyphen.
pub underscore-all : (s : String) → all_chars is_plain (underscore s) ≡ true
unfolding underscore is_undotted
underscore-all s = map_text-all is_unhyphened is_plain lower_char lowered _ (
    map_text-all is_undotted is_unhyphened (replace_char b'-' "_") unhyphen _ (
      split_words-all is_undotted refl _ (
        split_acronyms-all is_undotted refl _ (
          map_text-all (λ c. true) is_undotted (replace_char b'.' "/") undot s
            (all_chars-true s)))))
