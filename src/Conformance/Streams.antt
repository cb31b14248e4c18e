-- ===== src/Conformance/Streams.antt =====
-- The checks that `main` makes on the events of one run: ADMISSION, REFUSAL and ORDER.
pub mod Laws
use ggen_igniter.Base.{
  String, Option, none, some, List, [], ◌∷◌, Bool, true, false, ◌&&◌, filter, flat_map, map, not,
  if◌then◌else◌, ◌==◌, contains, string_eq, option_eq,
}
use ggen_igniter.Base.Dict.{Dict, lookup}
use ggen_igniter.Ocel.{Value, null, text, Event, get_value, value_eq, truthy}
use ggen_igniter.Conformance.{
  Violation, undeclared_task, not_admitted_task, silently_skipped, base_after_core, Capability,
}

-- The events of one type.
unfoldable pub of_type : String → List Event → List Event
unfolding filter
of_type type events = filter (λ e. e.type == type) events

-- `caps.get(e["task"])`
unfoldable pub capability_of : Dict String Capability → Option String → Option Capability
unfolding lookup
capability_of caps none = none
capability_of caps (some task) = lookup task caps

-- The phases of the events that name one: `if e["attrs"].get("phase")` leaves out what is missing,
-- empty or zero.
unfoldable pub phases_of : List Event → List Value
unfolding filter lookup
phases_of events = filter truthy (map (λ (e : Event). get_value (lookup "phase" e.attrs)) events)

module _ (run : String) where
  admission_of : Event → Option Capability → List Violation
  admission_of e none = undeclared_task run e.task ∷ []
  admission_of e (some cap) =
      if cap.admitted then [] else not_admitted_task run e.task e.subject ∷ []

  -- 2. ADMISSION, over the composed events.
  unfoldable pub check_admission : Dict String Capability → List Event → List Violation
  unfolding admission_of capability_of flat_map
  check_admission caps composed =
      flat_map (λ e. admission_of e (capability_of caps e.task)) composed

  refusal_of : List (Option String) → String × Capability → List Violation
  refusal_of refused_tasks (task, cap) =
      if not cap.admitted && not (contains refused_tasks (some task))
      then silently_skipped run task ∷ []
      else []

  -- 3. REFUSAL, over the declared capabilities.
  unfoldable pub check_refusal : Dict String Capability → List (Option String) → List Violation
  unfolding refusal_of flat_map contains
  check_refusal caps refused_tasks = flat_map (refusal_of refused_tasks) caps

  -- 4. ORDER: the loop over the phases, until the first base after a core.
  scan_phases : Bool → List Value → List Violation
  scan_phases seen_core [] = []
  scan_phases seen_core (p ∷ ps) = elim (p == text "core") [
    | true ↦ scan_phases true ps
    | false ↦ elim (p == text "base" && seen_core) [
      | true ↦ base_after_core run ∷ []
      | false ↦ scan_phases seen_core ps
    ]
  ]

  unfoldable pub check_order : List Event → List Violation
  unfolding scan_phases phases_of
  check_order events = scan_phases false (phases_of events)
