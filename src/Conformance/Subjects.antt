-- ===== src/Conformance/Subjects.antt =====
-- `underscore` and `check_subjects_on_disk`. Letters and digits are ASCII: `isupper`, `lower` and
-- `\d` of other scripts are not modelled.
pub mod Laws
use Prim.Native.Nat.{◌-◌, zero, suc}
use Prim.Native.Char.{Char, code}
use Prim.Native.String.{◌++◌ as ◌<>◌}
use ggen_igniter.Base.{
  ℕ, String, Option, none, some, List, [], ◌∷◌, Bool, true, false, ◌&&◌, ◌||◌, filter, flat_map,
  leb, nat_beq, map, if◌then◌else◌, ◌==◌, string_eq,
}
use ggen_igniter.Base.Sort.{sort, to_set, str_le}
use ggen_igniter.Base.Text.{path_join}
use ggen_igniter.Ocel.{Event}
use ggen_igniter.Conformance.{Violation, missing_file}

unfoldable pub is_upper : ℕ → Bool
is_upper c = leb b'A' c && leb c b'Z'

unfoldable pub is_lower : ℕ → Bool
is_lower c = leb b'a' c && leb c b'z'

unfoldable pub is_digit : ℕ → Bool
is_digit c = leb b'0' c && leb c b'9'

-- The character at an index, or `c` past the end.
nth_char : ℕ → Char → String → Char
nth_char n c String.[] = c
nth_char zero c (String.◌∷◌ d s) = d
nth_char (suc n) c (String.◌∷◌ d s) = nth_char n c s

abbrev lower_letters : String
lower_letters = "abcdefghijklmnopqrstuvwxyz"

unfoldable pub lower_char : Char → Char
unfolding nth_char is_upper
lower_char c = if is_upper (code c) then nth_char (code c - b'A') "_" lower_letters else c

unfoldable pub map_text : (Char → Char) → String → String
map_text f String.[] = ""
map_text f (String.◌∷◌ c s) = String.◌∷◌ (f c) (map_text f s)

-- `s.replace(old, new)`, for characters.
unfoldable pub replace_char : ℕ → Char → Char → Char
replace_char old new c = if nat_beq (code c) old then new else c

-- `re.sub(r"([A-Z]+)([A-Z][a-z])", r"\1_\2", s)`: a run of capitals that a small letter follows is
-- split before its last one.
unfoldable pub split_acronyms : String → String
unfolding is_upper is_lower
split_acronyms String.[] = ""
split_acronyms (String.◌∷◌ c String.[]) = String.◌∷◌ c ""
split_acronyms (String.◌∷◌ c (String.◌∷◌ d String.[])) = String.◌∷◌ c (String.◌∷◌ d "")
split_acronyms (String.◌∷◌ c (String.◌∷◌ d (String.◌∷◌ e s))) =
    let rest = split_acronyms (String.◌∷◌ d (String.◌∷◌ e s)) in
    if is_upper (code c) && is_upper (code d) && is_lower (code e)
    then String.◌∷◌ c (String.◌∷◌ "_" rest)
    else String.◌∷◌ c rest

-- `re.sub(r"([a-z\d])([A-Z])", r"\1_\2", s)`
unfoldable pub split_words : String → String
unfolding is_upper is_lower is_digit
split_words String.[] = ""
split_words (String.◌∷◌ c String.[]) = String.◌∷◌ c ""
split_words (String.◌∷◌ c (String.◌∷◌ d s)) =
    let rest = split_words (String.◌∷◌ d s) in
    if (is_lower (code c) || is_digit (code c)) && is_upper (code d)
    then String.◌∷◌ c (String.◌∷◌ "_" rest)
    else String.◌∷◌ c rest

unfoldable pub underscore : String → String
unfolding split_words split_acronyms map_text replace_char lower_char
underscore module_name = map_text lower_char (
    map_text (replace_char b'-' "_")
      (split_words (split_acronyms (map_text (replace_char b'.' "/") module_name))))

-- `subject[:1].isupper()`
unfoldable pub starts_upper : String → Bool
unfolding is_upper
starts_upper String.[] = false
starts_upper (String.◌∷◌ c s) = is_upper (code c)

add_subject : Option String → List String → List String
add_subject none rest = rest
add_subject (some s) rest = if s == "" then rest else s ∷ rest

-- `{e["subject"] for e in composed if e["subject"]}`, before it is made a set.
unfoldable pub subjects_of : List Event → List String
unfolding add_subject
subjects_of [] = []
subjects_of (e ∷ es) = add_subject e.subject (subjects_of es)

-- `os.path.join(fixture, "lib", underscore(subject) + ".ex")`
unfoldable pub subject_path : String → String → String
unfolding underscore path_join
subject_path fixture subject = path_join (path_join fixture "lib") (underscore subject <> ".ex")

-- `is_file` is `os.path.isfile`.
module _ (is_file : String → Bool) (run fixture : String) where
  subject_violations : String → List Violation
  unfolding starts_upper subject_path
  subject_violations subject =
      if starts_upper subject
      then (if is_file (subject_path fixture subject)
          then []
          else missing_file run subject (subject_path fixture subject) ∷ [])
      else []

  unfoldable pub check_subjects_on_disk : List Event → List Violation
  unfolding subject_violations flat_map sort to_set subjects_of
  check_subjects_on_disk composed =
      flat_map subject_violations (sort str_le (to_set (subjects_of composed)))
