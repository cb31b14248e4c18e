-- ===== src/Drift/Csv.antt =====
-- The two directions on the options that take a csv: the extensions and the default actions.
use ggen_igniter.Base.{
  String, none, some, List, [], ◌∷◌, ◌++◌, true, ◌≡◌, refl, sym, ap, ◌∙◌, ◌↔◌, ◌⊎◌, inl, inr,
  flat_map, append_assoc, contains, contains-cons, Option-cases, string_eq, pair_eq, All, All-at,
  All-of, is_empty,
}
use ggen_igniter.Base.Dict.{Dict, lookup, get_list}
use ggen_igniter.Base.Dict.Items.{NodupKeys, All-items}
use ggen_igniter.Base.Text.{split, join}
use ggen_igniter.Base.Text.Fields.{split-join}
use ggen_igniter.Drift.{Extension, Invocations, argv_of, Finding}
use ggen_igniter.Drift.Argv.{values_after}
use ggen_igniter.Drift.Forward.{check_extensions}
use ggen_igniter.Drift.Backward.{trace, check_csv_traced, check_actions_traced}
use ggen_igniter.Drift.Quiet.{quiet_iff, unless_iff}

-- The fields of all csvs that an argv passes with an option.
abbrev pub csv_fields : String → List String → List String
csv_fields option argv = flat_map (split b',') (values_after option argv)

-- Those of the invocation for a resource.
abbrev pub csv_of : String → String → Invocations → List String
csv_of option resource invocations = csv_fields option (argv_of resource invocations)

module _ {ℓ} {A : Type ℓ} where
  flat_map-append :
      (f : A → List Finding) (xs ys : List A)
      → flat_map f (xs ++ ys) ≡ flat_map f xs ++ flat_map f ys
  unfolding flat_map
  flat_map-append f [] ys = refl
  flat_map-append f (x ∷ xs) ys =
      rw (flat_map-append f xs ys) (sym (append_assoc (f x) (flat_map f xs) (flat_map f ys)))

-- A loop in a loop, as one loop.
flat_map_assoc :
    (f : String → List Finding) (h : String → List String) (gs : List String)
    → flat_map (λ g. flat_map f (h g)) gs ≡ flat_map f (flat_map h gs)
unfolding flat_map
flat_map_assoc f h [] = refl
flat_map_assoc f h (g ∷ gs) =
    rw (flat_map_assoc f h gs) (sym (flat_map-append f (h g) (flat_map h gs)))

-- Such a loop reports nothing exactly if its body reports nothing for any field.
nested_iff :
    (f : String → List Finding) (P : String → Type 0)
    → ((v : String) → (f v ≡ []) ↔ P v)
    → (h : String → List String) (gs : List String)
    → (flat_map (λ g. flat_map f (h g)) gs ≡ []) ↔ All P (flat_map h gs)
nested_iff f P q h gs = rw (flat_map_assoc f h gs) (quiet_iff f P q (flat_map h gs))

-- The fields of the joined csvs: without a csv, they are the empty text.
pub joined_iff :
    (groups : List String) (v : String)
    → (contains (split b',' (join "," groups)) v ≡ true)
      ↔ ((contains (flat_map (split b',') groups) v ≡ true) ⊎ ((v ≡ "") × (is_empty groups ≡ true)))
unfolding join split flat_map
joined_iff [] v = (
  λ h. elim ((contains-cons "" [] v).0 h) [
    | inl e ↦ inr (sym e, refl)
    | inr m ↦ absurd (none_in m)
  ],
  λ h. elim h [ inl m ↦ absurd (none_in m) | inr (e, n) ↦ (contains-cons "" [] v).1 (inl (sym e)) ],
)
  where
    none_in : contains [] v ≡ true → ⊥
    none_in m = unfold contains in cc
joined_iff (w ∷ ws) v = (
  λ h. inl (ap (λ l. contains l v) (sym (split-join w ws)) ∙ h),
  λ h. elim h [ inl m ↦ ap (λ l. contains l v) (split-join w ws) ∙ m | inr (e, n) ↦ (cc) ],
)

-- The invocation for the resource passes the name with "--extend", or the name is empty and there is
-- no "--extend".
abbrev pub IsExtended : Invocations → Extension → Type 0
IsExtended invocations x =
    (contains (csv_of "--extend" x.resource invocations) x.name ≡ true)
    ⊎ ((x.name ≡ "") × (is_empty (values_after "--extend" (argv_of x.resource invocations)) ≡ true))

pub check_extensions_iff :
    (invocations : Invocations) (xs : List Extension)
    → (check_extensions invocations xs ≡ []) ↔ All (IsExtended invocations) xs
unfolding check_extensions
check_extensions_iff invocations xs =
    quiet_iff _ (IsExtended invocations)
      (λ x.
        let (u₀, u₁) = unless_iff _ _ in
        let (j₀, j₁) =
          joined_iff (values_after "--extend" (argv_of x.resource invocations)) x.name in
        (λ h. j₀ (u₀ h), λ h. u₁ (j₁ h)))
      xs

-- Every csv value that an option passes for a resource has the property.
abbrev pub IsTraced : String → Invocations → (String → String → Type 0) → Type 0
IsTraced option invocations K =
    (resource v : String) → contains (csv_of option resource invocations) v ≡ true → K resource v

module _ (option : String) (K : String → String → Type 0) where
  pub traced_iff :
      (invocations : Invocations)
      → NodupKeys invocations
      → All (λ p. All (K p.0) (csv_fields option p.1)) invocations ↔ IsTraced option invocations K
  traced_iff invocations n = (
    λ h resource v m.
        found resource v ((All-items P invocations n).0 h)
          (Option-cases (lookup resource invocations)) m,
    λ h. (All-items P invocations n).1 (λ resource argv e.
        All-of (K resource) (csv_fields option argv) (λ v m. h resource v (rw e m))),
  )
    where
      P : String × List String → Type 0
      P p = All (K p.0) (csv_fields option p.1)

      found :
          (resource v : String)
          → ((k : String) (argv : List String) → lookup k invocations ≡ some argv → P (k, argv))
          → (lookup resource invocations ≡ none)
            ⊎ ((argv : List String) × (lookup resource invocations ≡ some argv))
          → contains (csv_of option resource invocations) v ≡ true
          → K resource v
      found resource v t (inl gone) m = absurd (absent (rw gone at m))
        where
          absent : contains (csv_fields option []) v ≡ true → ⊥
          absent q = unfold contains values_after flat_map in cc
      found resource v t (inr (argv, e)) m =
          All-at (K resource) (csv_fields option argv) (t resource argv e) v (rw e at m)

-- The loop over the csvs of an option.
pub check_csv_traced_iff :
    (option : String) (known : List (String × String)) (p : String × List String)
    → (check_csv_traced option known p ≡ [])
      ↔ All (λ v. contains known (p.0, v) ≡ true) (csv_fields option p.1)
unfolding check_csv_traced trace
check_csv_traced_iff option known (resource, argv) =
    nested_iff (trace option known resource) (λ v. contains known (resource, v) ≡ true)
      (λ v. unless_iff _ _) (split b',') (values_after option argv)

-- The loop over the csvs of the default actions.
pub check_actions_traced_iff :
    (actions : Dict String (List String)) (p : String × List String)
    → (check_actions_traced actions p ≡ [])
      ↔ All (λ v. contains (get_list (p.0) actions) v ≡ true) (csv_fields "--default-actions" p.1)
unfolding check_actions_traced
check_actions_traced_iff actions (resource, argv) =
    nested_iff _ (λ v. contains (get_list resource actions) v ≡ true) (λ v. unless_iff _ _)
      (split b',') (values_after "--default-actions" argv)
