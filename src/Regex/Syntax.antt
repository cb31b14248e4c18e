-- ===== src/Regex/Syntax.antt =====
-- The pieces of the scripts' patterns. The classes are those of ASCII.
use Prim.Native.Char.{Char, code}
use ggen_igniter.Base.{
  ℕ, zero, suc, String, Option, none, some, Bool, true, false, not, ◌&&◌, ◌||◌, leb, nat_beq,
}
use ggen_igniter.Base.Text.{has_char}
use ggen_igniter.Regex.{Regex, one, at, ◌▸◌, either, greedy, group}

-- The characters of a text, one after the other.
unfoldable pub literal : String → Regex
literal String.[] = at (λ before after. true)
literal (String.◌∷◌ c String.[]) = one (λ d. nat_beq (code c) (code d))
literal (String.◌∷◌ c (String.◌∷◌ d s)) =
    one (λ e. nat_beq (code c) (code e)) ▸ literal (String.◌∷◌ d s)

-- `[...]` and `[^...]`, of listed characters
unfoldable pub is_any_of : String → Char → Bool
unfolding has_char
is_any_of s c = has_char (code c) s

unfoldable pub is_none_of : String → Char → Bool
unfolding has_char
is_none_of s c = not (has_char (code c) s)

-- `\d`
abbrev pub digit_char : Char → Bool
digit_char c = leb b'0' (code c) && leb (code c) b'9'

-- `[A-Za-z0-9_]`, which is `\w`
abbrev pub word_char : Char → Bool
word_char c =
    leb b'a' (code c) && leb (code c) b'z'
    || (leb b'A' (code c) && leb (code c) b'Z' || (digit_char c || nat_beq (code c) b'_'))

-- `\s`
abbrev pub space_char : Char → Bool
space_char c =
    nat_beq (code c) 32 || (leb 9 (code c) && leb (code c) 13 || leb 28 (code c) && leb (code c) 31)

abbrev pub non_space_char : Char → Bool
non_space_char c = not (space_char c)

-- `.` with the flag S and without it
abbrev pub any_char : Char → Bool
any_char c = true

abbrev pub line_char : Char → Bool
line_char c = not (nat_beq (code c) 10)

abbrev pub many : Regex → Regex
many r = greedy r

abbrev pub some_of : Regex → Regex
some_of r = r ▸ greedy r

abbrev pub maybe : Regex → Regex
maybe r = either r (at (λ before after. true))

-- `r{n}`
abbrev pub times : ℕ → Regex → Regex
times zero r = at (λ before after. true)
times (suc n) r = r ▸ times n r

is_newline : Option Char → Bool
is_newline none = true
is_newline (some c) = nat_beq (code c) 10

is_word : Option Char → Bool
is_word none = false
is_word (some c) = word_char c

-- `^` and `$` with the flag M
unfoldable pub line_start : Regex
unfolding is_newline
line_start = at (λ before after. is_newline before)

unfoldable pub line_end : Regex
unfolding is_newline
line_end = at (λ before after. is_newline after)

-- `\b` after a word character
unfoldable pub word_end : Regex
unfolding is_word
word_end = at (λ before after. is_word before && not (is_word after))

-- `(?<![...])`
passes_not : (Char → Bool) → Option Char → Bool
passes_not p none = true
passes_not p (some c) = not (p c)

unfoldable pub not_after : (Char → Bool) → Regex
unfolding passes_not
not_after p = at (λ before after. passes_not p before)

-- `"(?:[^"\\]|\\.)*"`, with the flag S or without it, around a group of a number
unfoldable pub quoted : ℕ → (Char → Bool) → Regex
unfolding literal is_none_of
quoted n dot =
    literal "\""
    ▸ group n (many (either (one (is_none_of "\"\\")) (literal "\\" ▸ one dot)))
    ▸ literal "\""
