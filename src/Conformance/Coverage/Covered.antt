-- ===== src/Conformance/Coverage/Covered.antt =====
-- The keys that the three loops of `check_coverage` accept.
use ggen_igniter.Base.{
  ℕ, ◌≤◌, ◌<◌, String, List, [], ◌∷◌, true, false, ◌≡◌, refl, sym, ap, ◌∙◌, ◌↔◌, inl, inr, arith,
  filter, flat_map, flat_map-eq-nil, filter-eq-nil, map-eq-nil, contains-map, All-contains-map,
  append₃-eq-nil, map, length, if◌then◌else◌, contains, count, contains-count, count-contains,
  Bool-cases, All-map, All-at, All-of, All-imp, string_eq, pair_eq, Eq,
}
use ggen_igniter.Base.Sort.{sort, to_set, str_le, All-sort, All-sort-to_set}
use ggen_igniter.Base.Dict.{
  Dict, keys, group, get_list, values_of, get_list-group, contains-keys-group,
}
use ggen_igniter.Ocel.{Value, text, Event, value_eq}
use ggen_igniter.Conformance.{Step, Key}
use ggen_igniter.Conformance.Coverage.{
  decision_key, step_key, is_decision, decisions_of, planned_of, key_le, silent_phases,
  silent_violation, planned_violations, observed_violations, coverage_violations,
}

length-values_of {ℓ κ} :
    {K : Type ℓ} {V : Type κ} ⦃e : Eq K⦄ (k : K) (ps : List (K × V))
    → length (values_of k ps) ≡ count (keys ps) k
unfolding values_of keys count
length-values_of k [] = refl
length-values_of k ((j, v) ∷ ps) = ground (arith, length-values_of k ps)

keys-map {ℓ κ μ} :
    {A : Type ℓ} {K : Type κ} {V : Type μ} (f : A → K) (g : A → V) (xs : List A)
    → keys (map (λ a. (f a, g a)) xs) ≡ map f xs
unfolding keys
keys-map f g [] = refl
keys-map f g (x ∷ xs) = ap (λ ks. f x ∷ ks) (keys-map f g xs)

-- The keys of the decisions in the stream, and of the steps in the plan.
pub decision_keys : List Event → List Key
decision_keys events = map decision_key (filter is_decision events)

pub plan_keys : List Step → List Key
plan_keys plan = map step_key plan

-- A key has no more decisions than the plan has steps, and at least one if the plan has a step.
pub IsCovered : List Step → List Event → Type 0
IsCovered plan events =
    (k : Key)
    → (count (decision_keys events) k ≤ count (plan_keys plan) k)
      × (0 < count (plan_keys plan) k → 0 < count (decision_keys events) k)

module _ (plan : List Step) (events : List Event) where
  abbrev decided : Key → ℕ
  decided k = length (get_list k (group (decisions_of events)))

  abbrev wanted : Key → ℕ
  wanted k = length (get_list k (group (planned_of plan)))

  decided-eq : (k : Key) → decided k ≡ count (decision_keys events) k
  unfolding decision_keys
  decided-eq k =
      ap length (get_list-group k (decisions_of events))
      ∙ length-values_of k (decisions_of events)
      ∙ ap (λ ks. count ks k)
          (keys-map decision_key (λ (e : Event). e.id) (filter is_decision events))

  wanted-eq : (k : Key) → wanted k ≡ count (plan_keys plan) k
  unfolding plan_keys
  wanted-eq k =
      ap length (get_list-group k (planned_of plan))
      ∙ length-values_of k (planned_of plan)
      ∙ ap (λ ks. count ks k) (keys-map step_key (λ s. s) plan)

  pub contains-observed :
      (k : Key)
      → contains (keys (group (decisions_of events))) k ≡ contains (decision_keys events) k
  unfolding decision_keys
  contains-observed k =
      contains-keys-group k (decisions_of events)
      ∙ ap (λ ks. contains ks k)
          (keys-map decision_key (λ (e : Event). e.id) (filter is_decision events))

  contains-planned :
      (k : Key) → contains (keys (group (planned_of plan))) k ≡ contains (plan_keys plan) k
  unfolding plan_keys
  contains-planned k =
      contains-keys-group k (planned_of plan)
      ∙ ap (λ ks. contains ks k) (keys-map step_key (λ s. s) plan)

  abbrev observed_values : List Value
  observed_values = map (λ (k : Key). k.0) (keys (group (decisions_of events)))

  -- No phase is silent where every step of the plan has a decision.
  silent-eq-nil :
      ((k : Key) → 0 < count (plan_keys plan) k → 0 < count (decision_keys events) k)
      → silent_phases plan observed_values ≡ []
  unfolding silent_phases plan_keys step_key
  silent-eq-nil h = (filter-eq-nil _ (sort str_le (to_set (map (λ (s : Step). s.phase) plan)))).1 (
      (All-sort-to_set Heard str_le (map (λ (s : Step). s.phase) plan)).1 (
        All-map Heard (λ (s : Step). s.phase) plan
          (All-imp heard plan (All-contains-map step_key plan))))
    where
      Heard : String → Type 0
      Heard p = (if contains observed_values (text p) then false else true) ≡ false

      heard : (s : Step) → contains (plan_keys plan) (step_key s) ≡ true → Heard s.phase
      heard s m =
          let decided_too =
            count-contains (decision_keys events) (step_key s)
              (h (step_key s) (contains-count (plan_keys plan) (step_key s) m)) in
          let phase_seen : contains observed_values (text s.phase) ≡ true =
            contains-map (λ (k : Key). k.0) (keys (group (decisions_of events))) (step_key s)
              (contains-observed (step_key s) ∙ decided_too) in
          rw phase_seen

  module _ (run : String) where
    abbrev observed : Dict Key (List String)
    observed = group (decisions_of events)

    abbrev planned : Dict Key (List Step)
    planned = group (planned_of plan)

    planned_iff :
        (k : Key)
        → (planned_violations run [] observed planned k ≡ [])
          ↔ ((0 < decided k) × (decided k ≤ wanted k))
    unfolding planned_violations contains
    planned_iff k = (λ h. ground arith, λ h. ground arith)

    observed_iff :
        (k : Key)
        → (observed_violations run observed planned k ≡ []) ↔ (contains (keys planned) k ≡ true)
    unfolding observed_violations
    observed_iff k = (λ h. ground arith, λ h. ground arith)

    planned_loop :
        (flat_map (planned_violations run [] observed planned) (sort key_le (keys planned)) ≡ [])
        ↔ ((k : Key)
            → contains (plan_keys plan) k ≡ true
            → (0 < decided k) × (decided k ≤ wanted k))
    planned_loop = (
      λ h k m. (planned_iff k).0 (
          All-at Quiet (keys planned)
            ((All-sort Quiet key_le (keys planned)).0 (
              (flat_map-eq-nil (planned_violations run [] observed planned)
                  (sort key_le (keys planned))).0
                h))
            k (contains-planned k ∙ m)),
      λ h.
          (flat_map-eq-nil (planned_violations run [] observed planned)
              (sort key_le (keys planned))).1
            ((All-sort Quiet key_le (keys planned)).1 (
              All-of Quiet (keys planned)
                (λ k m. (planned_iff k).1 (h k (sym (contains-planned k) ∙ m))))),
    )
      where
        Quiet : Key → Type 0
        Quiet k = planned_violations run [] observed planned k ≡ []

    observed_loop :
        (flat_map (observed_violations run observed planned) (sort key_le (keys observed)) ≡ []) ↔ (
          (k : Key) → contains (decision_keys events) k ≡ true → contains (plan_keys plan) k ≡ true)
    observed_loop = (
      λ h k m.
          sym (contains-planned k)
          ∙ (observed_iff k).0 (
              All-at Quiet (keys observed)
                ((All-sort Quiet key_le (keys observed)).0 (
                  (flat_map-eq-nil (observed_violations run observed planned)
                      (sort key_le (keys observed))).0
                    h))
                k (contains-observed k ∙ m)),
      λ h.
          (flat_map-eq-nil (observed_violations run observed planned)
              (sort key_le (keys observed))).1
            ((All-sort Quiet key_le (keys observed)).1 (
              All-of Quiet (keys observed) (λ k m.
                (observed_iff k).1 (contains-planned k ∙ h k (sym (contains-observed k) ∙ m))))),
    )
      where
        Quiet : Key → Type 0
        Quiet k = observed_violations run observed planned k ≡ []

  -- What the two loops ask of each key is that it is covered.
  IsCovered-of :
      ((k : Key) → contains (plan_keys plan) k ≡ true → (0 < decided k) × (decided k ≤ wanted k))
      → ((k : Key) → contains (decision_keys events) k ≡ true → contains (plan_keys plan) k ≡ true)
      → IsCovered plan events
  unfolding IsCovered
  IsCovered-of f g k = elim (Bool-cases (contains (plan_keys plan) k)) [
    | inl m ↦
        let (some_, few) = f k m in
        (omega (arith, few, decided-eq k, wanted-eq k), λ _. omega (arith, some_, decided-eq k))
    | inr absent ↦
        let none_decided : contains (decision_keys events) k ≡ false =
          elim (Bool-cases (contains (decision_keys events) k)) [
            | inl m ↦ absurd (ground (arith, g k m, absent))
            | inr m ↦ m
          ] in
        (
          ground (arith, none_decided, count-contains (decision_keys events) k),
          λ w. absurd (ground (arith, absent, count-contains (plan_keys plan) k w)),
        )
  ]

  at_key :
      IsCovered plan events
      → (k : Key)
      → (count (decision_keys events) k ≤ count (plan_keys plan) k)
        × (0 < count (plan_keys plan) k → 0 < count (decision_keys events) k)
  unfolding IsCovered
  at_key c = c

  -- The three loops report nothing exactly if every key is covered.
  pub coverage_iff :
      (run : String) → (coverage_violations run plan events ≡ []) ↔ IsCovered plan events
  unfolding coverage_violations
  coverage_iff run = (
    λ h.
        let (no_silent, planned_quiet, observed_quiet) =
          (append₃-eq-nil (map (silent_violation run plan) silent)
              (flat_map (planned_violations run (map text silent) (observed run) (planned run))
                (sort key_le (keys (planned run))))
              (flat_map (observed_violations run (observed run) (planned run))
                (sort key_le (keys (observed run))))).0
            h in
        let all_heard : silent ≡ [] = map-eq-nil (silent_violation run plan) silent no_silent in
        IsCovered-of ((planned_loop run).0 (rw all_heard at planned_quiet))
          ((observed_loop run).0 observed_quiet),
    λ c.
        let all_heard : silent ≡ [] = silent-eq-nil (λ k. (at_key c k).1) in
        (append₃-eq-nil (map (silent_violation run plan) silent)
            (flat_map (planned_violations run (map text silent) (observed run) (planned run))
              (sort key_le (keys (planned run))))
            (flat_map (observed_violations run (observed run) (planned run))
              (sort key_le (keys (observed run))))).1
          (
            rw all_heard,
            rw all_heard (
                (planned_loop run).1 (λ k m.
                  let wanted_pos = contains-count (plan_keys plan) k m in
                  let decided_pos = (at_key c k).1 wanted_pos in
                  (
                    omega (arith, decided_pos, decided-eq k),
                    omega (arith, (at_key c k).0, decided-eq k, wanted-eq k),
                  ))),
            (observed_loop run).1 (λ k m.
                let decided_pos = contains-count (decision_keys events) k m in
                count-contains (plan_keys plan) k (omega (arith, decided_pos, (at_key c k).0))),
          ),
  )
    where
      silent : List String
      silent = silent_phases plan observed_values
