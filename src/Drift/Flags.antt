-- ===== src/Drift/Flags.antt =====
-- The two directions on the attributes and on the relationships, together.
use ggen_igniter.Base.{
  String, none, some, List, [], true, ◌≡◌, ◌↔◌, ◌⊎◌, inl, inr, arith, flat_map-eq-nil, contains,
  Option-cases, All, All-imp, All-at, All-of, All-map, All-contains-map, string_eq, pair_eq,
}
use ggen_igniter.Base.Dict.{lookup}
use ggen_igniter.Base.Dict.Items.{NodupKeys, insert_all-NodupKeys, All-items}
use ggen_igniter.Drift.{Fact, Step, Invocations, argv_of, by_module, entries_of}
use ggen_igniter.Drift.Argv.{values_after}
use ggen_igniter.Drift.Forward.{check_flag, check_flags}
use ggen_igniter.Drift.Backward.{known_flags, trace, check_values_traced}

-- One invocation is kept for each module.
pub by_module-NodupKeys : (task : String) (steps : List Step) → NodupKeys (by_module task steps)
unfolding by_module
by_module-NodupKeys task steps = insert_all-NodupKeys [] (entries_of task steps) tt

-- The option carries exactly the values that the ontology has for the resource.
abbrev pub Agrees : String → List Fact → Invocations → Type 0
Agrees option facts invocations =
    (resource v : String)
    → (contains (known_flags facts) (resource, v) ≡ true)
      ↔ (contains (values_after option (argv_of resource invocations)) v ≡ true)

module _ (option : String) (facts : List Fact) (invocations : Invocations) where
  Passed : String × String → Type 0
  Passed p = contains (values_after option (argv_of p.0 invocations)) p.1 ≡ true

  flag_iff : (f : Fact) → (check_flag invocations option f ≡ []) ↔ Passed (f.resource, f.flag)
  unfolding check_flag Passed
  flag_iff f = (λ h. ground arith, λ h. ground arith)

  check_flags_iff : (check_flags invocations option facts ≡ []) ↔ (
      (resource v : String)
      → contains (known_flags facts) (resource, v) ≡ true
      → contains (values_after option (argv_of resource invocations)) v ≡ true)
  unfolding check_flags Passed
  check_flags_iff = (
    λ h resource v m.
        All-at Passed (known_flags facts)
          (All-map Passed (λ (f : Fact). (f.resource, f.flag)) facts
            (All-imp (λ f q. (flag_iff f).0 q) facts
              ((flat_map-eq-nil (check_flag invocations option) facts).0 h)))
          (resource, v) m,
    λ h. (flat_map-eq-nil (check_flag invocations option) facts).1 (
        All-imp (λ f q. (flag_iff f).1 (h f.resource f.flag q)) facts
          (All-contains-map (λ (f : Fact). (f.resource, f.flag)) facts)),
  )

  trace_iff :
      (resource v : String)
      → (trace option (known_flags facts) resource v ≡ [])
        ↔ (contains (known_flags facts) (resource, v) ≡ true)
  unfolding trace
  trace_iff resource v = (λ h. ground arith, λ h. ground arith)

  traced_iff :
      (resource : String) (argv : List String)
      → (check_values_traced option (known_flags facts) (resource, argv) ≡ []) ↔ (
          (v : String)
          → contains (values_after option argv) v ≡ true
          → contains (known_flags facts) (resource, v) ≡ true)
  unfolding check_values_traced
  traced_iff resource argv = (
    λ h v m. (trace_iff resource v).0 (
        All-at (λ u. trace option (known_flags facts) resource u ≡ []) (values_after option argv)
          ((flat_map-eq-nil (trace option (known_flags facts) resource)
              (values_after option argv)).0
            h)
          v m),
    λ h.
        (flat_map-eq-nil (trace option (known_flags facts) resource) (values_after option argv)).1 (
          All-of (λ u. trace option (known_flags facts) resource u ≡ []) (values_after option argv)
            (λ u m. (trace_iff resource u).1 (h u m))),
  )

  -- The two loops on an option report nothing exactly if every resource passes with the option the
  -- values that the ontology has for it, and no others, where of several invocations for one
  -- resource the last one counts.
  pub flags_agree :
      NodupKeys invocations
      → ((check_flags invocations option facts ≡ [])
          × All (λ p. check_values_traced option (known_flags facts) p ≡ []) invocations)
        ↔ Agrees option facts invocations
  flags_agree n = (
    λ (f, b) resource v. (
      (check_flags_iff).0 f resource v,
      back resource v ((All-items Traced' invocations n).0 b)
          (Option-cases (lookup resource invocations)),
    ),
    λ h. (
      (check_flags_iff).1 (λ resource v. (h resource v).0),
      (All-items Traced' invocations n).1
          (λ resource argv m. (traced_iff resource argv).1 (λ v p. (h resource v).1 (rw m p))),
    ),
  )
    where
      Traced' : String × List String → Type 0
      Traced' p = check_values_traced option (known_flags facts) p ≡ []

      back :
          (resource v : String)
          → ((k : String) (argv : List String)
              → lookup k invocations ≡ some argv
              → Traced' (k, argv))
          → (lookup resource invocations ≡ none)
            ⊎ ((argv : List String) × (lookup resource invocations ≡ some argv))
          → contains (values_after option (argv_of resource invocations)) v ≡ true
          → contains (known_flags facts) (resource, v) ≡ true
      back resource v t (inl gone) p = absurd (absent (rw gone at p))
        where
          absent : contains (values_after option []) v ≡ true → ⊥
          absent q = unfold contains values_after in cc
      back resource v t (inr (argv, found)) p =
          (traced_iff resource argv).0 (t resource argv found) v (rw found at p)
