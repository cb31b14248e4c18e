-- ===== src/Conformance/Structure/Laws/Edges.antt =====
-- The edges of an event, and the ids that were seen.
use Prim.Native.Nat.{◌+◌}
use ggen_igniter.Base.{
  ℕ, ◌≤◌, String, Option, List, [], ◌∷◌, true, false, ◌≡◌, sym, ◌∙◌, ◌↔◌, inl, inr, arith, all, map,
  if◌then◌else◌, ◌==◌, contains, count, eq_self, eq_of_beq, count-contains, Bool-cases, All, All-at,
  All-of, all_pairs_iff, string_eq, option_eq, pair_eq,
}
use ggen_igniter.Base.Sort.{sort, to_set, contains-to_set}
use ggen_igniter.Base.Exec.{ok}
use ggen_igniter.Ocel.{RawEvent}
use ggen_igniter.Conformance.Structure.{Edge, edge_le, edge_comparable, sorted_tuples}

-- No value stands twice.
abbrev pub IsDistinct {ℓ} : {A : Type ℓ} → (A → ℕ) → Type ℓ
IsDistinct {A} n = (a : A) → n a ≤ 1

-- Python can sort the edges.
abbrev pub IsOrderable : List Edge → Type 0
IsOrderable edges =
    (p q : Edge) → contains edges p ≡ true → contains edges q ≡ true → edge_comparable p q ≡ true

abbrev pub tuples_of : List Edge → List (Edge × ℕ)
tuples_of edges = map (λ p. (p, count edges p)) (sort edge_le (to_set edges))

-- The sort goes through exactly if each pair of the edges has an order.
pub sorted_tuples-ok :
    (edges : List Edge) → IsOrderable edges → sorted_tuples edges ≡ ok (tuples_of edges)
unfolding sorted_tuples
sorted_tuples-ok edges h = rw (
    (all_pairs_iff edge_comparable (to_set edges)).1
      (λ a b m n. h a b (sym (contains-to_set edges a) ∙ m) (sym (contains-to_set edges b) ∙ n)))

pub sorted_tuples-eq-ok :
    (edges : List Edge) (ts : List (Edge × ℕ))
    → sorted_tuples edges ≡ ok ts
    → IsOrderable edges × (ts ≡ tuples_of edges)
unfolding sorted_tuples
sorted_tuples-eq-ok edges ts h =
    elim (Bool-cases (all (λ p. all (edge_comparable p) (to_set edges)) (to_set edges))) [
      | inl p ↦ (
        λ a b m n.
            (all_pairs_iff edge_comparable (to_set edges)).0 p a b (contains-to_set edges a ∙ m)
              (contains-to_set edges b ∙ n),
        ground (arith, p),
      )
      | inr p ↦ absurd (ground (arith, p))
    ]

-- All edges stand at most once exactly if those of the event do.
pub IsDistinct-iff :
    (edges : List Edge) → All (λ p. count edges p ≤ 1) edges ↔ IsDistinct (count edges)
IsDistinct-iff edges = (
  λ h p. elim (Bool-cases (contains edges p)) [
    | inl m ↦ All-at (λ p. count edges p ≤ 1) edges h p m
    | inr m ↦ omega (arith, absent p m)
  ],
  λ h. All-of (λ p. count edges p ≤ 1) edges (λ p m. h p),
)
  where
    absent : (p : Edge) → contains edges p ≡ false → count edges p ≤ 0
    absent p m = ground (arith, count-contains edges p)

abbrev pub ids_of : List RawEvent → List (Option String)
ids_of es = map (λ (e : RawEvent). e.id) es

-- The ids are distinct, and none was seen before.
pub IsFresh : List (Option String) → List (Option String) → Type 0
IsFresh seen ids = (a : Option String) → count ids a + (if contains seen a then 1 else 0) ≤ 1

pub IsFresh-nil : (seen : List (Option String)) → IsFresh seen []
unfolding IsFresh count
IsFresh-nil seen a = ground arith

pub IsFresh-start : (ids : List (Option String)) → IsFresh [] ids ↔ IsDistinct (count ids)
unfolding IsFresh contains
IsFresh-start ids = (λ h a. omega (arith, h a), λ h a. omega (arith, h a))

pub IsFresh-cons :
    (seen : List (Option String)) (i : Option String) (is : List (Option String))
    → IsFresh seen (i ∷ is) ↔ ((contains seen i ≡ false) × IsFresh (i ∷ seen) is)
unfolding IsFresh count contains
IsFresh-cons seen i is = (
  λ h. (
    ground (arith, h i, eq_self i),
    λ a. elim (Bool-cases (i == a)) [
      | inl p ↦ ground (arith, p, h a)
      | inr p ↦ ground (arith, p, h a)
    ],
  ),
  λ h a. elim (Bool-cases (i == a)) [
    | inl p ↦ ground (arith, p, eq_of_beq i a p, h.0, h.1 a)
    | inr p ↦ ground (arith, p, h.1 a)
  ],
)
