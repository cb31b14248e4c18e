-- ===== src/Receipt/World.antt =====
-- What `receipt.py` reads: files, directories, decoded JSON and the output of commands.
use Prim.Native.String.{count as chars}
use ggen_igniter.Base.{
  ℕ, String, Option, none, some, List, [], Bool, true, false, not, filter, ◌==◌, string_eq,
}
use ggen_igniter.Base.Dict.{Dict, lookup}
use ggen_igniter.Base.Exec.{
  Result, ok, raised, not_found, type_error, attribute_error, is_directory, subscript, map_m, ◌>>=◌,
}
use ggen_igniter.Base.Text.{split, strip, path_join}
use ggen_igniter.Ocel.{Value, null, int, text as value_text}
use ggen_igniter.Json.{Json, text, array, object, count_elements, count_members}
use ggen_igniter.Receipt.{StepRecord}

-- The world of a run: the two arguments and the directories of the script, the text of each file,
-- the names in each directory, and the parts that are not the script's own: the digest, the decoder of
-- JSON, relative paths and the shell. A path with a listing is a directory.
pub record World : Type 0 where
  pub fixture : String
  pub out_dir : String
  pub pack : String
  pub repo : String
  pub contents : String → Option String
  pub listing : String → Option (List String)
  pub sha256 : String → String
  -- `json.load` of a document, which raises if the text is not JSON, and gives an object
  pub load : String → Result (Dict String Json)
  -- `json.loads` of a line of `steps.jsonl`, alike
  pub load_step : String → Result (Dict String Value)
  pub relpath : String → String → String
  -- a command in a directory, which the script's own is if there is none
  pub sh : String → Option String → String

-- `len(doc.get(key, []))`
unfoldable pub len : Option Json → Result ℕ
unfolding count_elements count_members
len none = ok 0
len (some (array es)) = ok (count_elements es)
len (some (object es)) = ok (count_members es)
len (some (text s)) = ok (chars s)
len (some _) = raised type_error

-- A path that is there, opened and read: a directory cannot be.
unfoldable pub found_text : Option (List String) → Option String → Result (Option String)
found_text (some names) content = raised is_directory
found_text none content = ok content

-- Whether there is a file or a directory.
unfoldable pub is_there : Option (List String) → Option String → Bool
is_there (some names) content = true
is_there none (some t) = true
is_there none none = false

-- `s["exit"]` and `s["expected"]`
unfoldable pub step_exits : Dict String Value → Result (Value × Value)
unfolding lookup
step_exits s = do
  exit ← subscript (lookup "exit" s)
  expected ← subscript (lookup "expected" s)
  ok (exit, expected)

-- `s["label"]`, of which `startswith` is asked: only a text has it.
unfoldable pub label_of : Value → Result String
label_of (value_text label) = ok label
label_of null = raised attribute_error
label_of (int n) = raised attribute_error

unfoldable pub step_record : Dict String Value → Result StepRecord
unfolding step_exits label_of lookup
step_record s = do
  exits ← step_exits s
  found ← subscript (lookup "label" s)
  label ← label_of found
  ok (record { label = label; exit = exits.0; expected = exits.1 })

module _ (w : World) where
  -- The text of a file if `os.path.exists(path)`: nothing is read of a path that is not there.
  unfoldable pub text_at : String → Result (Option String)
  unfolding found_text
  text_at path = found_text (w.listing path) (w.contents path)

  -- `os.path.exists`
  unfoldable pub exists : String → Bool
  unfolding is_there
  exists path = is_there (w.listing path) (w.contents path)

  unfoldable pub digest_text : Option String → Option String
  digest_text none = none
  digest_text (some t) = some (w.sha256 t)

  -- `digest`
  unfoldable pub digest : String → Result (Option String)
  unfolding digest_text text_at
  digest path = do content ← text_at path; ok (digest_text content)

  -- What `digest` returns for a path that is no directory.
  unfoldable pub digest_value : String → Option String
  unfolding digest_text
  digest_value path = digest_text (w.contents path)

  -- The lines of a file, without their ends.
  unfoldable pub lines_of : Option String → Option (List String)
  unfolding split
  lines_of none = none
  lines_of (some t) = some (split b'\n' t)

  unfoldable pub file_lines : String → Result (Option (List String))
  unfolding lines_of text_at
  file_lines path = do content ← text_at path; ok (lines_of content)

  unfoldable pub loaded : Option String → Result (Option (Dict String Json))
  loaded none = ok none
  loaded (some t) = do doc ← w.load t; ok (some doc)

  -- `read_json`
  unfoldable pub read_json : String → Result (Option (Dict String Json))
  unfolding loaded text_at
  read_json path = do content ← text_at path; loaded content

  unfoldable pub steps_in : Option (List String) → Result (List (Dict String Value))
  unfolding strip filter map_m
  steps_in none = ok []
  steps_in (some lines) = map_m w.load_step (filter (λ line. not (strip line == "")) lines)

  -- `steps`, as the lines are decoded
  unfoldable pub read_steps : Result (List (Dict String Value))
  unfolding steps_in file_lines path_join
  read_steps = do lines ← file_lines (path_join w.out_dir "steps.jsonl"); steps_in lines

  stripped : Option String → Option String
  unfolding strip
  stripped none = none
  stripped (some t) = some (strip t)

  -- `open(path).read().strip()` if the path is there
  unfoldable pub read_stripped : String → Result (Option String)
  unfolding stripped text_at
  read_stripped path = do content ← text_at path; ok (stripped content)

  -- `open(path).read()`
  unfoldable pub opened : String → Option String → Result String
  opened path none = raised (not_found path)
  opened path (some t) = ok t

  unfoldable pub read_text : String → Result String
  unfolding opened text_at
  read_text path = do content ← text_at path; opened path content

  unfoldable pub listed : String → Option (List String) → Result (List String)
  listed path none = raised (not_found path)
  listed path (some names) = ok names

  -- `os.listdir(path)`
  unfoldable pub listdir : String → Result (List String)
  unfolding listed
  listdir path = listed path (w.listing path)
