-- ===== src/Base/Text.antt =====
-- Text functions of the scripts: `+`, `split`, `join`, `in`, `startswith`, `endswith`, path joins.
pub mod Fields
pub mod Infix
pub mod Apart
pub mod Decimal
pub mod Replace
use Prim.Native.Nat.{ℕ, zero, suc, ◌-◌, ◌+◌, ◌*◌}
use Prim.Native.Char.{Char, code}
use Prim.Native.String.{String, ◌++◌ as ◌<>◌, count as chars}
use mathlib.Core.Bool.{Bool, true, false, ◌&&◌, ◌||◌}
use mathlib.Core.List.{List, [], ◌∷◌}
use ggen_igniter.Base.Tests.{if◌then◌else◌, nat_beq, leb}
use ggen_igniter.Base.Equality.{◌==◌, string_eq}

-- `c in s`, for one character.
unfoldable pub has_char : ℕ → String → Bool
has_char c String.[] = false
has_char c (String.◌∷◌ d s) = nat_beq (code d) c || has_char c s

-- `s.rsplit(sep, 1)[-1]`: what stands after the last separator.
unfoldable pub after_last : ℕ → String → String
unfolding has_char
after_last c String.[] = ""
after_last c (String.◌∷◌ d s) =
    let rest = after_last c s in
    if has_char c s then rest else if nat_beq (code d) c then s else String.◌∷◌ d s

-- `s[:n]`
unfoldable pub take_chars : ℕ → String → String
take_chars zero s = ""
take_chars (suc n) String.[] = ""
take_chars (suc n) (String.◌∷◌ c s) = String.◌∷◌ c (take_chars n s)

-- `s[n:]`
unfoldable pub drop_chars : ℕ → String → String
drop_chars zero s = s
drop_chars (suc n) String.[] = ""
drop_chars (suc n) (String.◌∷◌ c s) = drop_chars n s

-- `s.startswith(t)`
unfoldable pub is_prefix : String → String → Bool
is_prefix String.[] s = true
is_prefix (String.◌∷◌ c t) String.[] = false
is_prefix (String.◌∷◌ c t) (String.◌∷◌ d s) = nat_beq (code c) (code d) && is_prefix t s

-- `t in s`
unfoldable pub is_infix : String → String → Bool
unfolding is_prefix
is_infix t String.[] = is_prefix t ""
is_infix t (String.◌∷◌ c s) = is_prefix t (String.◌∷◌ c s) || is_infix t s

-- `s.endswith(t)`
unfoldable pub is_suffix : String → String → Bool
is_suffix t String.[] = t == ""
is_suffix t (String.◌∷◌ c s) = t == String.◌∷◌ c s || is_suffix t s

-- The fields of `s.split(sep)`: never the empty list.
push_char : Char → List String → List String
push_char c [] = String.◌∷◌ c "" ∷ []
push_char c (w ∷ ws) = String.◌∷◌ c w ∷ ws

unfoldable pub split : ℕ → String → List String
unfolding push_char
split sep String.[] = "" ∷ []
split sep (String.◌∷◌ c s) =
    let rest = split sep s in if nat_beq (code c) sep then "" ∷ rest else push_char c rest

-- `s.split(sep)` for a separator that is not empty, from a place on of which the next `skip`
-- characters belong to a separator.
unfoldable pub split_on : String → ℕ → String → List String
unfolding is_prefix push_char
split_on sep skip String.[] = "" ∷ []
split_on sep (suc skip) (String.◌∷◌ c s) = split_on sep skip s
split_on sep zero (String.◌∷◌ c s) = elim (is_prefix sep (String.◌∷◌ c s)) [
  | true ↦ "" ∷ split_on sep (chars sep - 1) s
  | false ↦ push_char c (split_on sep 0 s)
]

-- `s.replace(old, new)` for a text `old` that is not empty, in the same way.
unfoldable pub replace_from : String → String → ℕ → String → String
unfolding is_prefix
replace_from old new skip String.[] = ""
replace_from old new (suc skip) (String.◌∷◌ c s) = replace_from old new skip s
replace_from old new zero (String.◌∷◌ c s) = elim (is_prefix old (String.◌∷◌ c s)) [
  | true ↦ new <> replace_from old new (chars old - 1) s
  | false ↦ String.◌∷◌ c (replace_from old new 0 s)
]

-- `s.replace(old, new, 1)`
unfoldable pub replace_first : String → String → String → String
unfolding is_prefix drop_chars
replace_first old new String.[] = elim (is_prefix old "") [ true ↦ new | false ↦ "" ]
replace_first old new (String.◌∷◌ c s) = elim (is_prefix old (String.◌∷◌ c s)) [
  | true ↦ new <> drop_chars (chars old) (String.◌∷◌ c s)
  | false ↦ String.◌∷◌ c (replace_first old new s)
]

is_blank : Char → Bool
is_blank c =
    nat_beq (code c) 32 || (leb 9 (code c) && leb (code c) 13 || leb 28 (code c) && leb (code c) 31)

-- `s.strip()`
lstrip : String → String
unfolding is_blank
lstrip String.[] = ""
lstrip (String.◌∷◌ c s) = if is_blank c then lstrip s else String.◌∷◌ c s

rstrip : String → String
unfolding is_blank
rstrip String.[] = ""
rstrip (String.◌∷◌ c s) =
    let rest = rstrip s in if rest == "" && is_blank c then "" else String.◌∷◌ c rest

unfoldable pub strip : String → String
unfolding lstrip rstrip
strip s = rstrip (lstrip s)

-- `int(s)`, for decimal digits
unfoldable pub digit_value : ℕ → ℕ → ℕ
digit_value n c = n * 10 + (c - b'0')

unfoldable pub int_from : ℕ → String → ℕ
unfolding digit_value
int_from n String.[] = n
int_from n (String.◌∷◌ c s) = int_from (digit_value n (code c)) s

-- `sep.join(ws)`
unfoldable pub join : String → List String → String
join sep [] = ""
join sep (w ∷ []) = w
join sep (w ∷ v ∷ ws) = w <> (sep <> join sep (v ∷ ws))

-- `os.path.join(a, b)`
unfoldable pub path_join : String → String → String
unfolding is_prefix is_suffix
path_join a b =
    if is_prefix "/" b then b else if a == "" || is_suffix "/" a then a <> b else a <> ("/" <> b)
