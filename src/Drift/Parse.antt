-- ===== src/Drift/Parse.antt =====
-- `parse_ontology`: the facts, and the guards against a parse that finds nothing.
pub mod Laws
use Prim.Native.String.{◌++◌ as ◌<>◌}
use ggen_igniter.Base.{
  String, Option, none, some, List, [], ◌∷◌, ◌++◌, Bool, true, false, not, ◌&&◌, map, flat_map,
  filter, is_empty, if◌then◌else◌, ◌==◌, string_eq,
}
use ggen_igniter.Base.Dict.{Dict, insert_all, lookup, keys}
use ggen_igniter.Base.Text.{join}
use ggen_igniter.Regex.{Regex, one, ◌▸◌, either, group, Match, search, find_all, group_of}
use ggen_igniter.Regex.Syntax.{
  literal, some_of, many, word_char, space_char, is_none_of, line_char, line_start, word_end,
  quoted,
}
use ggen_igniter.Turtle.{group_text, blocks, plain_literal, ref, truth}
use ggen_igniter.Drift.{Fact, Extension, Support, DefaultAction, Ontology}

-- `one(block, prop)` and `ref(block, prop)` are the shared ones.
flag_of : Option Bool → Bool
flag_of none = false
flag_of (some b) = b

-- `flag(block, prop)`
flag : String → String → Bool
unfolding flag_of truth
flag block prop = flag_of (truth block prop)

-- A quoted literal, where `.` stops at a line's end.
one_literal : Regex
unfolding literal is_none_of
one_literal =
    literal "\""
    ▸ many (either (one (is_none_of "\"\\")) (literal "\\" ▸ one line_char))
    ▸ literal "\""

literals_in : Option Match → List String
unfolding find_all quoted group_of group_text
literals_in none = []
literals_in (some m) =
    map (λ l. group_text (group_of 1 l)) (find_all (quoted 1 line_char) (group_text (group_of 1 m)))

-- `many(block, prop)`
many_of : String → String → List String
unfolding literal one_literal search literals_in
many_of block prop = literals_in (
    search
      (literal ("amp:" <> prop)
        ▸ some_of (one space_char)
        ▸ group 1 (
            many (one_literal ▸ many (one space_char) ▸ literal "," ▸ many (one space_char))
            ▸ one_literal))
      block)

-- `resource_module.get(iri, "<UNRESOLVED>")`
resolved : Option String → String
resolved none = "<UNRESOLVED>"
resolved (some m) = m

mods_if : Bool → String → List String
mods_if b word = if b then word ∷ [] else []

-- The loose patterns of the guards: r"(?m)^amp:\w+ a amp:%s\b" and r'amp:%s\s+"'.
unfoldable pub class_pattern : String → Regex
unfolding literal line_start word_end
class_pattern cls =
    line_start ▸ literal "amp:" ▸ some_of (one word_char) ▸ literal (" a amp:" <> cls) ▸ word_end

unfoldable pub property_pattern : String → Regex
unfolding literal
property_pattern prop = literal ("amp:" <> prop) ▸ some_of (one space_char) ▸ literal "\""

unfoldable pub vacuous_class : String → String
vacuous_class cls =
    "PARSE VACUOUS: ontology declares amp:"
    <> (cls <> " instances but the block parse produced no rows")

unfoldable pub vacuous_property : String → String
vacuous_property prop =
    "PARSE VACUOUS: ontology asserts amp:" <> (prop <> " literals but the parse produced no rows")

module _ (text : String) where
  resource_module : Dict String String
  unfolding insert_all blocks plain_literal
  resource_module = insert_all [] (
      map (λ (b : String × String). ("amp:" <> b.0, plain_literal b.1 "resourceModule"))
        (blocks text "Resource"))

  resource_of : String → String → String
  unfolding resolved lookup resource_module ref
  resource_of block prop = resolved (lookup (ref block prop) resource_module)

  attribute_of : String → Fact
  unfolding resource_of join plain_literal flag mods_if
  attribute_of block = record {
    resource = resource_of block "attributeOf";
    flag = join ":" (
        plain_literal block "attributeName"
        ∷ plain_literal block "attributeType"
        ∷ (mods_if (flag block "isPublic") "public"
            ++ (mods_if (flag block "isRequired") "required"
                ++ mods_if (flag block "isSensitive") "sensitive")));
  }

  relationship_of : String → Fact
  unfolding resource_of join plain_literal flag mods_if
  relationship_of block =
      let kind = plain_literal block "relationshipKind" in
      record {
        resource = resource_of block "relationshipOf";
        flag = join ":" (
            kind
            ∷ plain_literal block "relationshipName"
            ∷ resource_of block "relationshipTarget"
            ∷ (mods_if (flag block "relationshipPublic") "public"
                ++ mods_if (kind == "belongs_to" && flag block "relationshipRequired") "required"));
      }

  support_of : String → Support
  unfolding plain_literal many_of
  support_of block = record {
    module_name = plain_literal block "supportModuleName";
    kind = plain_literal block "supportKind";
    enum_values = many_of block "enumValue";
  }

  actions_of : String → List DefaultAction
  unfolding plain_literal many_of
  actions_of block =
      map (λ v. record { resource = plain_literal block "resourceModule"; value = v })
        (many_of block "defaultAction")

  extension_of : String → Extension
  unfolding resource_of plain_literal
  extension_of block = record {
    resource = resource_of block "extensionOf";
    name = plain_literal block "extensionName";
  }

  -- The rows of a class: its blocks, each made into a row.
  rows {ℓ} : {A : Type ℓ} → String → (String → A) → List A
  unfolding blocks
  rows cls f = map (λ (b : String × String). f b.1) (blocks text cls)

  -- The guards' own readings of the text.
  unfoldable pub declares_class : String → Bool
  unfolding class_pattern search
  declares_class cls = elim (search (class_pattern cls) text) [ none ↦ false | some m ↦ true ]

  unfoldable pub asserts_property : String → Bool
  unfolding property_pattern search
  asserts_property prop = elim (search (property_pattern prop) text) [
    | none ↦ false
    | some m ↦ true
  ]

  -- `guard_class(cls, rows)` and `guard_property(prop, rows)`, given whether there are no rows.
  unfoldable pub guard_class : String → Bool → List String
  unfolding declares_class vacuous_class
  guard_class cls no_rows = if declares_class cls && no_rows then vacuous_class cls ∷ [] else []

  unfoldable pub guard_property : String → Bool → List String
  unfolding asserts_property vacuous_property
  guard_property prop no_rows =
      if asserts_property prop && no_rows then vacuous_property prop ∷ [] else []

  unfoldable pub parse_failures : Ontology → List String
  unfolding guard_class guard_property flat_map
  parse_failures o =
      guard_class "Domain" (is_empty o.domains)
      ++ (guard_class "Resource" (is_empty o.resources)
          ++ (guard_class "Attribute" (is_empty o.attributes)
              ++ (guard_class "Relationship" (is_empty o.relationships)
                  ++ (guard_class "Extension" (is_empty o.extensions)
                      ++ (guard_class "SupportModule" (is_empty o.supports)
                          ++ (guard_class "GeneratorCapability" (is_empty o.capabilities)
                              ++ (guard_property "enumValue" (
                                    is_empty (flat_map (λ (s : Support). s.enum_values) o.supports))
                                  ++ guard_property "defaultAction"
                                      (is_empty o.default_actions))))))))

  -- The facts, before the guards.
  unfoldable pub facts : Ontology
  unfolding rows blocks plain_literal attribute_of relationship_of support_of actions_of
      extension_of flag insert_all flat_map
  facts = record {
    domains = rows "Domain" (λ b. plain_literal b "domainModule");
    resources = rows "Resource" (λ b. plain_literal b "resourceModule");
    attributes = rows "Attribute" attribute_of;
    relationships = rows "Relationship" relationship_of;
    supports = rows "SupportModule" support_of;
    default_actions = flat_map (λ actions. actions) (rows "Resource" actions_of);
    capabilities =
        insert_all []
          (rows "GeneratorCapability" (λ b. (plain_literal b "mixTask", flag b "admitted")));
    extensions = rows "Extension" extension_of;
    parse_failures = [];
  }

  unfoldable pub parse_ontology : Ontology
  unfolding facts parse_failures
  parse_ontology = record facts { parse_failures = parse_failures facts }

  -- `unranked_repeatable`
  is_ranked : String → Bool
  unfolding literal word_end search
  is_ranked prop = elim (search (literal ("amp:" <> (prop <> "Order")) ▸ word_end) text) [
    | none ↦ false
    | some m ↦ true
  ]

  unfoldable pub unranked_repeatable : List String
  unfolding is_ranked filter
  unranked_repeatable =
      map (λ prop. "amp:" <> prop)
        (filter (λ prop. not (is_ranked prop)) ("enumValue" ∷ "defaultAction" ∷ []))
