-- ===== src/Conformance/Structure.antt =====
-- `check_structure`.
pub mod Laws
use ggen_igniter.Base.{
  ℕ, String, Option, none, some, List, [], ◌∷◌, ◌++◌, Bool, true, false, ◌&&◌, ◌||◌, all, flat_map,
  ltb, map, if◌then◌else◌, ◌==◌, contains, count, string_eq, option_eq, pair_eq,
}
use ggen_igniter.Base.Sort.{sort, to_set}
use ggen_igniter.Base.Exec.{Result, ok, guard, type_error, ◌>>=◌, ◌>>◌}
use ggen_igniter.Ocel.{Relationship, RawEvent, Object, Doc, or_empty, option_le, option_comparable}
use ggen_igniter.Conformance.{
  Violation, duplicate_event_id, undeclared_event_type, undeclared_object_id, repeated_relationship,
  undeclared_object_type,
}

-- (objectId, qualifier)
abbrev pub Edge : Type 0
Edge = Option String × Option String

abbrev pub edge : Relationship → Edge
edge r = (r.object_id, r.qualifier)

pub edge_le : Edge → Edge → Bool
edge_le (a, b) (c, d) = if a == c then option_le b d else option_le a c

-- Whether Python orders the two: it compares the first components that differ.
pub edge_comparable : Edge → Edge → Bool
edge_comparable (a, b) (c, d) =
    if a == c then b == d || option_comparable b d else option_comparable a c

-- `sorted(tuples.items())`, which raises where two of the keys have no order: the distinct edges,
-- with how often each stands in the event.
unfoldable pub sorted_tuples : List Edge → Result (List (Edge × ℕ))
unfolding edge_le edge_comparable sort to_set all contains
sorted_tuples edges = do
  let tuples = to_set edges
  guard (all (λ p. all (edge_comparable p) tuples) tuples) type_error
  ok (map (λ p. (p, count edges p)) (sort edge_le tuples))

module _ (where_ : String) where
  -- The findings of one event, given whether its id was seen before.
  identity_violations : Bool → RawEvent → List Violation
  identity_violations seen e = if seen then duplicate_event_id where_ e.id ∷ [] else []

  type_violations : List (Option String) → RawEvent → List Violation
  type_violations declared e =
      if contains declared e.type then [] else undeclared_event_type where_ e.id e.type ∷ []

  reference_violations : List (Option String) → RawEvent → Relationship → List Violation
  reference_violations declared e r =
      if contains declared r.object_id
      then []
      else undeclared_object_id where_ e.id r.object_id ∷ []

  repeat_violations : RawEvent → Edge × ℕ → List Violation
  repeat_violations e (p, n) = if ltb 1 n then repeated_relationship where_ e.id p n ∷ [] else []

  event_violations :
      List (Option String) → List (Option String) → Bool → RawEvent → Result (List Violation)
  unfolding identity_violations type_violations reference_violations repeat_violations sorted_tuples
  event_violations types ids seen e = do
    tuples ← sorted_tuples (map edge e.relationships)
    ok (
        identity_violations seen e
        ++ (type_violations types e
            ++ (flat_map (reference_violations ids e) e.relationships
                ++ flat_map (repeat_violations e) tuples)))

  -- The loop over the events, with the ids seen so far.
  events_violations :
      List (Option String)
      → List (Option String)
      → List (Option String)
      → List RawEvent
      → Result (List Violation)
  unfolding event_violations
  events_violations types ids seen [] = ok []
  events_violations types ids seen (e ∷ es) = do
    here ← event_violations types ids (contains seen e.id) e
    rest ← events_violations types ids (e.id ∷ seen) es
    ok (here ++ rest)

  object_violations : List (Option String) → Object → List Violation
  object_violations types o =
      if contains types o.type then [] else undeclared_object_type where_ o.id o.type ∷ []

  unfoldable pub check_structure : Doc → Result (List Violation)
  unfolding events_violations object_violations flat_map contains
  check_structure doc = do
    let types = or_empty doc.event_types
    let ids = map (λ (o : Object). o.id) (or_empty doc.objects)
    events ← events_violations types ids [] (or_empty doc.events)
    ok (events ++ flat_map (object_violations (or_empty doc.object_types)) (or_empty doc.objects))
