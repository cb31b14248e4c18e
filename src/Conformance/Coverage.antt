-- ===== src/Conformance/Coverage.antt =====
-- `check_coverage`: the join of the rendered plan and the observed decisions.
pub mod Covered
pub mod Laws
use ggen_igniter.Base.{
  ℕ, suc, String, Option, none, some, List, [], ◌∷◌, ◌++◌, Bool, true, false, ◌||◌, all, filter,
  flat_map, ltb, map, length, is_empty, if◌then◌else◌, ◌==◌, contains, string_eq, pair_eq,
}
use ggen_igniter.Base.Sort.{sort, to_set, str_le}
use ggen_igniter.Base.Dict.{Dict, keys, lookup, group, get_list, group_onto}
use ggen_igniter.Base.Exec.{Result, ok, guard, type_error, ◌>>=◌, ◌>>◌}
use ggen_igniter.Ocel.{
  Value, text, Event, get_value, text_or_null, value_eq, value_le, comparable, none_as_empty,
}
use ggen_igniter.Conformance.{
  Violation, silent_phase, no_decision, double_count, unplanned_decision, Step, Key, decision_types,
}

-- `(e["attrs"].get("phase"), e["attrs"].get("step"), e["subject"])`
unfoldable pub decision_key : Event → Key
unfolding lookup
decision_key e = (
  get_value (lookup "phase" e.attrs),
  (get_value (lookup "step" e.attrs), text_or_null e.subject),
)

unfoldable pub step_key : Step → Key
step_key s = (text s.phase, (text s.step, text s.subject))

unfoldable pub is_decision : Event → Bool
unfolding contains
is_decision e = contains decision_types e.type

-- The decisions by key, in the order of the stream: `observed`.
abbrev pub decisions_of : List Event → List (Key × String)
decisions_of events = map (λ e. (decision_key e, e.id)) (filter is_decision events)

abbrev pub planned_of : List Step → List (Key × Step)
planned_of plan = map (λ s. (step_key s, s)) plan

-- `key=lambda k: tuple("" if p is None else p for p in k)`
sort_key : Key → Key
sort_key (p, (s, t)) = (none_as_empty p, (none_as_empty s, none_as_empty t))

-- The order of two tuples is that of the first components that differ.
tuple_le : Key → Key → Bool
tuple_le (a, (b, c)) (x, (y, z)) =
    if a == x then (if b == y then value_le c z else value_le b y) else value_le a x

tuple_comparable : Key → Key → Bool
tuple_comparable (a, (b, c)) (x, (y, z)) =
    if a == x then (if b == y then c == z || comparable c z else comparable b y) else comparable a x

unfoldable pub key_le : Key → Key → Bool
unfolding sort_key tuple_le
key_le j k = tuple_le (sort_key j) (sort_key k)

unfoldable pub key_comparable : Key → Key → Bool
unfolding sort_key tuple_comparable
key_comparable j k = tuple_comparable (sort_key j) (sort_key k)

-- `for phase in sorted({s["phase"] for s in plan})`: the phases of the plan without a decision.
silent_phases : List Step → List Value → List String
unfolding sort to_set filter contains
silent_phases plan observed =
    filter (λ p. if contains observed (text p) then false else true)
      (sort str_le (to_set (map (λ (s : Step). s.phase) plan)))

module _ (run : String) where
  silent_violation : List Step → String → Violation
  unfolding filter
  silent_violation plan phase =
      silent_phase run phase (length (filter (λ (s : Step). s.phase == phase) plan))

  -- The body of the loop over `planned`.
  planned_violations :
      List Value → Dict Key (List String) → Dict Key (List Step) → Key → List Violation
  unfolding contains lookup
  planned_violations silent observed planned key =
      if contains silent key.0
      then []
      else if is_empty (get_list key observed)
      then no_decision run key ∷ []
      else if ltb (length (get_list key planned)) (length (get_list key observed))
      then double_count run key (length (get_list key observed)) (length (get_list key planned))
          (get_list key observed)
        ∷ []
      else []

  -- The body of the loop over `observed`.
  observed_violations : Dict Key (List String) → Dict Key (List Step) → Key → List Violation
  unfolding contains lookup keys
  observed_violations observed planned key =
      if contains (keys planned) key
      then []
      else unplanned_decision run key (get_list key observed) ∷ []

  -- What the three loops report, where both dicts can be sorted.
  unfoldable pub coverage_violations : List Step → List Event → List Violation
  unfolding silent_phases silent_violation planned_violations observed_violations flat_map
      group_onto keys sort key_le
  coverage_violations plan events =
      let observed = group (decisions_of events) in
      let planned = group (planned_of plan) in
      let silent = silent_phases plan (map (λ (k : Key). k.0) (keys observed)) in
      map (silent_violation plan) silent
      ++ (flat_map (planned_violations (map text silent) observed planned)
            (sort key_le (keys planned))
          ++ flat_map (observed_violations observed planned) (sort key_le (keys observed)))

  unfoldable pub check_coverage : List Step → List Event → Result (List Violation)
  unfolding coverage_violations key_comparable all is_decision decision_key step_key group_onto keys
      filter
  check_coverage plan events = do
    let observed = keys (group (decisions_of events))
    guard (all (λ j. all (λ k. j == k || key_comparable j k) observed) observed) type_error
    ok (coverage_violations plan events)
