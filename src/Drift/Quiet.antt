-- ===== src/Drift/Quiet.antt =====
-- What each loop of the report accepts: the domains, the resources, the support modules, and the
-- options that take a csv.
use Prim.Native.String.{◌++◌ as ◌<>◌}
use ggen_igniter.Base.{
  String, List, [], ◌∷◌, Bool, true, false, ◌≡◌, refl, ◌↔◌, arith, flat_map, flat_map-eq-nil,
  if◌then◌else◌, contains, string_eq, pair_eq, All, All-imp,
}
use ggen_igniter.Base.Dict.{Dict, lookup, keys}
use ggen_igniter.Drift.{Support, Step, Invocations, Finding}
use ggen_igniter.Drift.Forward.{
  is_invoked, check_domains, check_resources, check_supports, is_admitted, support_findings,
}

-- A loop reports nothing exactly if its body reports nothing for any item.
pub quiet_iff {ℓ κ μ} :
    {A : Type ℓ} {B : Type κ} (f : A → List B) (P : A → Type μ)
    → ((a : A) → (f a ≡ []) ↔ P a)
    → (xs : List A) → (flat_map f xs ≡ []) ↔ All P xs
quiet_iff f P q xs = (
  λ h. All-imp (λ a. (q a).0) xs ((flat_map-eq-nil f xs).0 h),
  λ h. (flat_map-eq-nil f xs).1 (All-imp (λ a. (q a).1) xs h),
)

-- A report under a test, and without one.
pub unless_iff : (b : Bool) (x : Finding) → ((if b then [] else x ∷ []) ≡ []) ↔ (b ≡ true)
unless_iff b x = (λ h. ground (arith, h), λ h. ground (arith, h))

pub when_iff : (b : Bool) (x : Finding) → ((if b then x ∷ [] else []) ≡ []) ↔ (b ≡ false)
when_iff b x = (λ h. ground (arith, h), λ h. ground (arith, h))

pub check_domains_iff :
    (steps : List Step) (ds : List String)
    → (check_domains steps ds ≡ []) ↔ All (λ d. is_invoked steps "ash.gen.domain" d ≡ true) ds
unfolding check_domains
check_domains_iff steps ds =
    quiet_iff _ (λ d. is_invoked steps "ash.gen.domain" d ≡ true) (λ d. unless_iff _ _) ds

pub check_resources_iff :
    (by_resource : Invocations) (rs : List String)
    → (check_resources by_resource rs ≡ []) ↔ All (λ r. contains (keys by_resource) r ≡ true) rs
unfolding check_resources
check_resources_iff by_resource rs =
    quiet_iff _ (λ r. contains (keys by_resource) r ≡ true) (λ r. unless_iff _ _) rs

support_iff :
    (task m : String) (admitted present : Bool)
    → (support_findings task m admitted present ≡ []) ↔ (present ≡ admitted)
unfolding support_findings
support_iff task m true true = (λ h. refl, λ h. refl)
support_iff task m true false = (λ h. absurd (ground (arith, h)), λ h. (cc))
support_iff task m false true = (λ h. absurd (ground (arith, h)), λ h. (cc))
support_iff task m false false = (λ h. refl, λ h. refl)

pub check_supports_iff :
    (steps : List Step) (capabilities : Dict String Bool) (ss : List Support)
    → (check_supports steps capabilities ss ≡ [])
      ↔ All
          (λ (s : Support).
            is_invoked steps ("ash.gen." <> s.kind) s.module_name
            ≡ is_admitted (lookup ("ash.gen." <> s.kind) capabilities))
          ss
unfolding check_supports
check_supports_iff steps capabilities ss =
    quiet_iff _
      (λ (s : Support).
        is_invoked steps ("ash.gen." <> s.kind) s.module_name
        ≡ is_admitted (lookup ("ash.gen." <> s.kind) capabilities))
      (λ s. support_iff _ _ _ _) ss
