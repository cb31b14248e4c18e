-- ===== src/Isolate.antt =====
-- `priv/ggen/ash-manufacture-pack/bin/isolate_db.py`: the files are a dict from path to text, which
-- the script reads and writes.
pub mod Steps
pub mod Laws
use Prim.Native.String.{◌++◌ as ◌<>◌}
use ggen_igniter.Base.{
  ℕ, zero, suc, String, Option, none, some, List, [], ◌∷◌, is_empty, if◌then◌else◌, string_eq,
}
use ggen_igniter.Base.Dict.{Dict, insert, lookup}
use ggen_igniter.Base.Text.{path_join}
use ggen_igniter.Regex.{Regex, one, ◌▸◌, lazy, group, Match, subn, group_of}
use ggen_igniter.Regex.Syntax.{literal, many, maybe, line_char, space_char, line_start, line_end}
use ggen_igniter.Turtle.{group_text}

-- `DATABASE`
unfoldable pub database_pattern : Regex
unfolding literal line_start line_end
database_pattern =
    line_start
    ▸ group 1 (many (one space_char))
    ▸ literal "database:"
    ▸ many (one space_char)
    ▸ lazy (one line_char)
    ▸ group 2 (maybe (literal ","))
    ▸ line_end

replacement : String → Match → String
unfolding group_of group_text
replacement scoped m =
    group_text (group_of 1 m) <> ("database: \"" <> (scoped <> ("\"" <> group_text (group_of 2 m))))

-- `DATABASE.subn(...)`: the new text and the number of rewrites.
unfoldable pub rewrite_database : String → String → String × ℕ
unfolding database_pattern replacement subn
rewrite_database scoped source = subn database_pattern (replacement scoped) source

-- What is printed for an environment, and the problem that is collected.
pub data Report : Type 0 where
  absent : String → Report
  rewritten : String → ℕ → String → Report

pub record State : Type 0 where
  pub files : Dict String String
  pub reports : List Report
  pub problems : List String

unfoldable pub config_path : String → String → String
unfolding path_join
config_path fixture env = path_join (path_join fixture "config") (env <> ".exs")

unfoldable pub scoped_name : String → String → String
scoped_name base env = base <> ("_" <> env)

-- What is done with the new text, by the number of rewrites.
pub commit : String → String → State → String × ℕ → State
unfolding insert
commit path scoped s (text, zero) = record s { problems = path ∷ s.problems }
commit path scoped s (text, suc n) = record s {
  files = insert path text s.files;
  reports = rewritten path (suc n) scoped ∷ s.reports;
}

pub visit : String → String → State → Option String → State
unfolding commit rewrite_database
visit path scoped s none = record s { reports = absent path ∷ s.reports }
visit path scoped s (some source) = commit path scoped s (rewrite_database scoped source)

module _ (fixture base : String) where
  -- The body of the loop over the environments.
  unfoldable pub isolate_env : String → State → State
  unfolding visit config_path scoped_name lookup
  isolate_env env s =
      visit (config_path fixture env) (scoped_name base env) s
        (lookup (config_path fixture env) s.files)

  unfoldable pub isolate_envs : List String → State → State
  unfolding isolate_env
  isolate_envs [] s = s
  isolate_envs (env ∷ envs) s = isolate_envs envs (isolate_env env s)

-- `sys.argv[3:] or ["dev", "test"]`
unfoldable pub default_envs : List String → List String
default_envs [] = "dev" ∷ "test" ∷ []
default_envs (env ∷ envs) = env ∷ envs

-- `main`: the state that it leaves, with the reports and the problems from the last one on, and the
-- exit code.
unfoldable pub isolate : String → String → List String → Dict String String → State × ℕ
unfolding isolate_envs default_envs
isolate fixture base envs files =
    let s =
      isolate_envs fixture base (default_envs envs)
        (record { files = files; reports = []; problems = [] }) in
    (s, if is_empty s.problems then 0 else 1)
