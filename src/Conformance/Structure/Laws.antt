-- ===== src/Conformance/Structure/Laws.antt =====
-- `check_structure` reports nothing exactly of a document whose graph closes.
pub mod Edges
pub use ggen_igniter.Conformance.Structure.Laws.Edges.{IsDistinct, IsOrderable}
use Prim.Native.Nat.{◌+◌}
use ggen_igniter.Base.{
  ℕ, ◌≤◌, String, Option, List, [], ◌∷◌, ◌++◌, Bool, true, false, ◌≡◌, refl, sym, ap, ◌∙◌, ◌↔◌, inl,
  inr, arith, all, flat_map, flat_map-eq-nil, append-eq-nil, append₃-eq-nil, map, if◌then◌else◌,
  ◌==◌, contains, count, eq_self, eq_of_beq, count-contains, Bool-cases, All, All-map, All-of_map,
  All-at, All-of, All-imp, all_pairs_iff, string_eq, option_eq, pair_eq,
}
use ggen_igniter.Base.Sort.{sort, to_set, contains-to_set, All-sort-to_set}
use ggen_igniter.Base.Exec.{ok, ok_inj, >>=-eq-ok}
use ggen_igniter.Ocel.{Relationship, RawEvent, Object, Doc, or_empty}
use ggen_igniter.Conformance.Structure.{
  Edge, edge, edge_le, edge_comparable, sorted_tuples, identity_violations, type_violations,
  reference_violations, repeat_violations, event_violations, events_violations, object_violations,
  check_structure,
}
use ggen_igniter.Conformance.Structure.Laws.Edges.{
  tuples_of, sorted_tuples-ok, sorted_tuples-eq-ok, IsDistinct-iff, ids_of, IsFresh, IsFresh-nil,
  IsFresh-start, IsFresh-cons,
}

-- The type is declared, and each relationship is to a declared object and stands once.
abbrev pub IsClosed : List (Option String) → List (Option String) → RawEvent → Type 0
IsClosed types ids e =
    (contains types e.type ≡ true)
    × All (λ (r : Relationship). contains ids r.object_id ≡ true) e.relationships
    × IsDistinct (count (map edge e.relationships))
    × IsOrderable (map edge e.relationships)

pub record IsStructured (doc : Doc) : Type 0 where
  pub distinct_ids : IsDistinct (count (map (λ (e : RawEvent). e.id) (or_empty doc.events)))
  pub closed :
      All
        (IsClosed (or_empty doc.event_types) (map (λ (o : Object). o.id) (or_empty doc.objects)))
        (or_empty doc.events)
  pub typed_objects :
      All
        (λ (o : Object). contains (or_empty doc.object_types) o.type ≡ true)
        (or_empty doc.objects)

module _ (place : String) where
  repeat_iff_le :
      (e : RawEvent) (p : Edge) (n : ℕ) → (repeat_violations place e (p, n) ≡ []) ↔ (n ≤ 1)
  unfolding repeat_violations
  repeat_iff_le e p n = (λ h. ground arith, λ h. ground arith)

  repeat_iff :
      (e : RawEvent) (edges : List Edge)
      → (flat_map (repeat_violations place e) (tuples_of edges) ≡ []) ↔ IsDistinct (count edges)
  repeat_iff e edges = (
    λ h. (IsDistinct-iff edges).0 (
        All-imp (λ p q. (repeat_iff_le e p (count edges p)).0 q) edges
          ((All-sort-to_set Once edge_le edges).0 (
            All-of_map Quiet (λ p. (p, count edges p)) (sort edge_le (to_set edges))
              ((flat_map-eq-nil (repeat_violations place e) (tuples_of edges)).0 h)))),
    λ h. (flat_map-eq-nil (repeat_violations place e) (tuples_of edges)).1 (
        All-map Quiet (λ p. (p, count edges p)) (sort edge_le (to_set edges))
          ((All-sort-to_set Once edge_le edges).1
            (All-of Once edges (λ p m. (repeat_iff_le e p (count edges p)).1 (h p))))),
  )
    where
      Quiet : Edge × ℕ → Type 0
      Quiet q = repeat_violations place e q ≡ []

      Once : Edge → Type 0
      Once p = repeat_violations place e (p, count edges p) ≡ []

  references_iff :
      (ids : List (Option String)) (e : RawEvent) (rels : List Relationship)
      → (flat_map (reference_violations place ids e) rels ≡ [])
        ↔ All (λ (r : Relationship). contains ids r.object_id ≡ true) rels
  unfolding reference_violations
  references_iff ids e rels = (
    λ h.
        All-imp (λ r q. ground arith) rels
          ((flat_map-eq-nil (reference_violations place ids e) rels).0 h),
    λ h.
        (flat_map-eq-nil (reference_violations place ids e) rels).1
          (All-imp (λ r q. ground arith) rels h),
  )

  event_violations-quiet :
      (types ids : List (Option String)) (seen : Bool) (e : RawEvent)
      → event_violations place types ids seen e ≡ ok []
      → (seen ≡ false) × IsClosed types ids e
  unfolding event_violations identity_violations type_violations
  event_violations-quiet types ids seen e h =
      let (ts, sorted, quiet) = >>=-eq-ok (sorted_tuples (map edge e.relationships)) _ h in
      let (orderable, same) = sorted_tuples-eq-ok (map edge e.relationships) ts sorted in
      let (fresh, typed, rest) =
        (append₃-eq-nil (identity_violations place seen e) (type_violations place types e) (
            flat_map (reference_violations place ids e) e.relationships
            ++ flat_map (repeat_violations place e) ts)).0
          (ok_inj quiet) in
      let (declared, once) =
        (append-eq-nil (flat_map (reference_violations place ids e) e.relationships)
            (flat_map (repeat_violations place e) ts)).0
          rest in
      (
        ground arith,
        (
          ground arith,
          (references_iff ids e e.relationships).0 declared,
          (repeat_iff e (map edge e.relationships)).0 (rw same at once),
          orderable,
        ),
      )

  event_violations-ok :
      (types ids : List (Option String)) (e : RawEvent)
      → IsClosed types ids e
      → event_violations place types ids false e ≡ ok []
  unfolding event_violations identity_violations type_violations
  event_violations-ok types ids e h = rw (
    sorted_tuples-ok (map edge e.relationships) h.3,
    h.0,
    (references_iff ids e e.relationships).1 h.1,
    (repeat_iff e (map edge e.relationships)).1 h.2,
  )

  events_violations-quiet :
      (types ids seen : List (Option String)) (es : List RawEvent)
      → events_violations place types ids seen es ≡ ok []
      → IsFresh seen (ids_of es) × All (IsClosed types ids) es
  unfolding events_violations
  events_violations-quiet types ids seen [] h = (IsFresh-nil seen, tt)
  events_violations-quiet types ids seen (e ∷ es) h =
      let (here, ran, later) =
        >>=-eq-ok (event_violations place types ids (contains seen e.id) e) _ h in
      let (rest, ran_rest, all_quiet) =
        >>=-eq-ok (events_violations place types ids (e.id ∷ seen) es) (λ r. ok (here ++ r))
          later in
      let (quiet, quiet_rest) = (append-eq-nil here rest).0 (ok_inj all_quiet) in
      let (fresh, closed) =
        event_violations-quiet types ids (contains seen e.id) e (ran ∙ ap ok quiet) in
      let (fresh_rest, closed_rest) =
        events_violations-quiet types ids (e.id ∷ seen) es (ran_rest ∙ ap ok quiet_rest) in
      ((IsFresh-cons seen e.id (ids_of es)).1 (fresh, fresh_rest), (closed, closed_rest))

  events_violations-ok :
      (types ids seen : List (Option String)) (es : List RawEvent)
      → IsFresh seen (ids_of es)
      → All (IsClosed types ids) es
      → events_violations place types ids seen es ≡ ok []
  unfolding events_violations
  events_violations-ok types ids seen [] f h = refl
  events_violations-ok types ids seen (e ∷ es) f h =
      let (fresh, fresh_rest) = (IsFresh-cons seen e.id (ids_of es)).0 f in
      rw (
        fresh,
        event_violations-ok types ids e h.0,
        events_violations-ok types ids (e.id ∷ seen) es fresh_rest h.1,
      )

  objects_iff :
      (types : List (Option String)) (os : List Object)
      → (flat_map (object_violations place types) os ≡ [])
        ↔ All (λ (o : Object). contains types o.type ≡ true) os
  unfolding object_violations
  objects_iff types os = (
    λ h.
        All-imp (λ o q. ground arith) os ((flat_map-eq-nil (object_violations place types) os).0 h),
    λ h.
        (flat_map-eq-nil (object_violations place types) os).1 (All-imp (λ o q. ground arith) os h),
  )

-- The structural check of a document returns, and with no finding, exactly if the event ids are
-- distinct, every event has a declared type, every relationship names a declared object, no event
-- repeats a relationship, Python can order the relationships of each event, and every object has a
-- declared type.
pub check_structure_iff :
    (place : String) (doc : Doc) → (check_structure place doc ≡ ok []) ↔ IsStructured doc
unfolding check_structure
check_structure_iff place doc = (
  λ h.
      let (events, ran, quiet) = >>=-eq-ok (events_violations place types ids [] es) _ h in
      let (no_events, no_objects) =
        (append-eq-nil events (flat_map (object_violations place declared) os)).0 (ok_inj quiet) in
      let (fresh, closed) = events_violations-quiet place types ids [] es (ran ∙ ap ok no_events) in
      record {
        distinct_ids = (IsFresh-start (ids_of es)).0 fresh;
        closed = closed;
        typed_objects = (objects_iff place declared os).0 no_objects;
      },
  λ h. rw (
    events_violations-ok place types ids [] es ((IsFresh-start (ids_of es)).1 h.distinct_ids)
        h.closed,
    (objects_iff place declared os).1 h.typed_objects,
  ),
)
  where
    types : List (Option String)
    types = or_empty doc.event_types

    ids : List (Option String)
    ids = map (λ (o : Object). o.id) (or_empty doc.objects)

    es : List RawEvent
    es = or_empty doc.events

    declared : List (Option String)
    declared = or_empty doc.object_types

    os : List Object
    os = or_empty doc.objects
