-- ===== src/Drift/Exact.antt =====
-- What exactly the report accepts: `main`, in both directions and for every kind of fact.
use ggen_igniter.Base.{
  String, some, List, true, ◌≡◌, sym, ◌∙◌, inl, inr, contains, string_eq, pair_eq, All, Bool-cases,
  none_ne_some,
}
use ggen_igniter.Base.Dict.{lookup, keys, values_of, contains-keys}
use ggen_igniter.Drift.{Ontology, Step, by_module}
use ggen_igniter.Drift.Backward.{known_extensions, enum_facts}
use ggen_igniter.Drift.Main.Laws.{IsFaithful}
use ggen_igniter.Drift.Parts.{by_resource}
use ggen_igniter.Drift.Csv.{csv_of, IsExtended, IsTraced}
use ggen_igniter.Drift.Lists.{Lists, IsListed, IsStated, action_pairs}

-- The plan is faithful, and passes exactly the extensions, the default actions and the enum values of
-- the ontology, in order where it passes each as often as the ontology states it.
pub record IsExact (onto : Ontology) (steps : List Step) : Type 0 where
  pub faithful : IsFaithful onto steps
  pub extended : All (IsExtended (by_module "ash.gen.resource" steps)) onto.extensions
  pub extensions :
      IsTraced "--extend"
        (by_module "ash.gen.resource" steps)
        (λ r v. contains (known_extensions onto.extensions) (r, v) ≡ true)
  pub actions_given :
      (r : String)
      → contains (keys (action_pairs onto.default_actions)) r ≡ true
      → Lists
          (csv_of "--default-actions" r (by_module "ash.gen.resource" steps))
          (values_of r (action_pairs onto.default_actions))
  pub actions_known :
      IsTraced "--default-actions"
        (by_module "ash.gen.resource" steps)
        (λ r v. contains (values_of r (action_pairs onto.default_actions)) v ≡ true)
  pub enums_listed : All (IsListed (by_module "ash.gen.enum" steps)) onto.supports
  pub enums_stated :
      (m : String) (argv : List String)
      → lookup m (by_module "ash.gen.enum" steps) ≡ some argv
      → IsStated (enum_facts onto.supports) m argv

module _ (onto : Ontology) (steps : List Step) where
  pub key_found :
      (r : String) (argv : List String)
      → lookup r (by_resource onto steps) ≡ some argv
      → contains (keys (by_resource onto steps)) r ≡ true
  key_found r argv e = elim (Bool-cases (contains (keys (by_resource onto steps)) r)) [
    | inl m ↦ m
    | inr m ↦ absurd (none_ne_some (sym ((contains-keys (by_resource onto steps) r).0 m) ∙ e))
  ]
