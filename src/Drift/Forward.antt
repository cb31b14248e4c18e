-- ===== src/Drift/Forward.antt =====
-- Direction 1 of `main`: every fact must reach an invocation.
use ggen_igniter.Base.{
  String, Option, none, some, List, [], ◌∷◌, ◌++◌, Bool, false, ◌&&◌, not, any, flat_map,
  if◌then◌else◌, ◌==◌, contains, string_eq,
}
use ggen_igniter.Base.Dict.{Dict, lookup, keys}
use ggen_igniter.Base.Text.{join, split}
use Prim.Native.String.{◌++◌ as ◌<>◌}
use ggen_igniter.Drift.{
  Fact, Extension, Support, Step, Invocations, argv_of, Finding, domain_missing, resource_missing,
  flag_missing, extension_missing, support_missing, not_admitted_projected,
}
use ggen_igniter.Drift.Argv.{values_after}

-- `any(s["task"] == task and word in s["argv"] for s in steps)`
unfoldable pub is_invoked : List Step → String → String → Bool
unfolding any contains
is_invoked steps task word = any (λ (s : Step). s.task == task && contains s.argv word) steps

unfoldable pub check_domains : List Step → List String → List Finding
unfolding is_invoked flat_map
check_domains steps domains =
    flat_map (λ d. if is_invoked steps "ash.gen.domain" d then [] else domain_missing d ∷ [])
      domains

module _ (by_resource : Invocations) where
  unfoldable pub check_resources : List String → List Finding
  unfolding flat_map contains keys
  check_resources resources =
      flat_map (λ r. if contains (keys by_resource) r then [] else resource_missing r ∷ [])
        resources

  -- The body of the loops over the attributes, with "--attribute", and over the relationships, with
  -- "--relationship".
  unfoldable pub check_flag : String → Fact → List Finding
  unfolding contains values_after lookup
  check_flag option f =
      if contains (values_after option (argv_of f.resource by_resource)) f.flag
      then []
      else flag_missing option f.flag f.resource ∷ []

  unfoldable pub check_flags : String → List Fact → List Finding
  unfolding check_flag flat_map
  check_flags option facts = flat_map (check_flag option) facts

  unfoldable pub check_extensions : List Extension → List Finding
  unfolding flat_map contains values_after lookup join split
  check_extensions extensions =
      flat_map
        (λ (x : Extension).
          if contains
            (split b',' (join "," (values_after "--extend" (argv_of x.resource by_resource))))
            x.name
          then []
          else extension_missing x.name x.resource ∷ [])
        extensions

-- `onto["capabilities"].get(task, False)`
abbrev pub is_admitted : Option Bool → Bool
is_admitted none = false
is_admitted (some b) = b

unfoldable pub support_findings : String → String → Bool → Bool → List Finding
support_findings task module_name admitted present =
    (if admitted && not present then support_missing module_name task ∷ [] else [])
    ++ (if not admitted && present then not_admitted_projected task module_name ∷ [] else [])

unfoldable pub check_supports : List Step → Dict String Bool → List Support → List Finding
unfolding support_findings is_invoked flat_map lookup
check_supports steps capabilities supports =
    flat_map
      (λ (s : Support).
        let task = "ash.gen." <> s.kind in
        support_findings task s.module_name (is_admitted (lookup task capabilities))
          (is_invoked steps task s.module_name))
      supports
