-- ===== src/Drift.antt =====
-- `priv/ggen/ash-manufacture-pack/bin/drift_check.py`, from the parsed ontology and the parsed
-- steps on: the facts, the rendered invocations, and the findings. `Forward` is the direction from
-- the ontology to the invocation, `Backward` the other one, `Main` the report.
pub mod Argv
pub mod Forward
pub mod Repeatable
pub mod Backward
pub mod Parse
pub mod Main
pub mod Rendered
pub mod Flags
pub mod Quiet
pub mod Csv
pub mod Lists
pub mod Parts
pub mod Exact
pub mod Truth
pub mod Tasks
use ggen_igniter.Base.{
  String, Option, none, some, List, [], ◌∷◌, ◌++◌, Bool, true, false, filter, is_empty, map, not,
  ◌&&◌, if◌then◌else◌, ◌==◌, string_eq,
}
use ggen_igniter.Base.Dict.{Dict, insert, insert_all, get_list}
use ggen_igniter.Base.Sort.{sort, str_le}

-- An attribute or a relationship: the resource, and the value that its flag must carry.
pub record Fact : Type 0 where
  pub resource : String
  pub flag : String

pub record Extension : Type 0 where
  pub resource : String
  pub name : String

pub record Support : Type 0 where
  pub module_name : String
  pub kind : String
  pub enum_values : List String

pub record DefaultAction : Type 0 where
  pub resource : String
  pub value : String

-- What `parse_ontology` returns. A parse failure is its message.
pub record Ontology : Type 0 where
  pub domains : List String
  pub resources : List String
  pub attributes : List Fact
  pub relationships : List Fact
  pub supports : List Support
  pub default_actions : List DefaultAction
  pub capabilities : Dict String Bool
  pub extensions : List Extension
  pub parse_failures : List String

-- What `parse_rendered` returns of a step.
pub record Step : Type 0 where
  pub task : String
  pub argv : List String

abbrev pub Invocations : Type 0
Invocations = Dict String (List String)

-- The entries of one task, by their first argument: a step without arguments has none.
first_arg : List String → List (String × List String)
first_arg [] = []
first_arg (a ∷ argv) = (a, a ∷ argv) ∷ []

entries_of : String → List Step → List (String × List String)
unfolding first_arg
entries_of task [] = []
entries_of task (s ∷ steps) =
    (if s.task == task then first_arg s.argv else []) ++ entries_of task steps

-- `by_resource` and `by_enum_step`: a later step of the same module overwrites an earlier one.
unfoldable pub by_module : String → List Step → Invocations
unfolding entries_of insert_all insert
by_module task steps = insert_all [] (entries_of task steps)

-- `by_resource.get(resource, [])`
abbrev pub argv_of : String → Invocations → List String
argv_of resource invocations = get_list resource invocations

-- `projected_order`
unfoldable pub projected_order : List String → List String
unfolding sort
projected_order = sort str_le

-- The findings, one constructor for each message of the script.
pub data Finding : Type 0 where
  parse_failure : String → Finding
  no_steps : Finding
  domain_missing : String → Finding
  resource_missing : String → Finding
  -- the flag, its value and the resource
  flag_missing : String → String → String → Finding
  extension_missing : String → String → Finding
  support_missing : String → String → Finding
  not_admitted_projected : String → String → Finding
  values_on_other_kind : String → String → Finding
  no_enum_values : String → Finding
  enum_value_missing : String → String → Finding
  enum_order : String → List String → List String → Finding
  no_default_actions : String → Finding
  action_missing : String → String → Finding
  action_order : String → List String → List String → Finding
  undeclared_resource : String → Finding
  flag_invented : String → String → String → Finding
  enum_csv_missing : String → Finding
  enum_value_invented : String → String → Finding
  task_undeclared : String → Finding
  task_not_admitted : String → Finding
