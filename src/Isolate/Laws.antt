-- ===== src/Isolate/Laws.antt =====
-- What the rewrite leaves in the files.
use mathlib.Core.Path.{subst}
use ggen_igniter.Base.{
  contains-map, ℕ, String, List, [], ◌∷◌, Bool, true, false, ◌≡◌, refl, sym, ap, ◌∙◌, ◌↔◌, arith,
  inl, inr, is_empty, if◌then◌else◌, ◌==◌, eq_of_beq, eq_self, string_eq, contains, contains-cons,
  map, Bool-cases, Distinct,
}
use ggen_igniter.Base.Dict.{Dict, lookup}
use ggen_igniter.Isolate.{
  State, config_path, scoped_name, isolate_env, isolate_envs, isolate, default_envs,
}
use ggen_igniter.Isolate.Steps.{
  isolated, IsIsolable, visit-files, visit-problems, neither, true_ne_false, nothing_in,
}

module _ (fixture base : String) where
  env-problems :
      (env : String) (s : State)
      → (is_empty (isolate_env fixture base env s).problems ≡ true)
        ↔ (IsIsolable (lookup (config_path fixture env) s.files) × (is_empty s.problems ≡ true))
  unfolding isolate_env
  env-problems env s =
      visit-problems (config_path fixture env) (scoped_name base env) s
        (lookup (config_path fixture env) s.files)

  env-files :
      (env p : String) (s : State)
      → lookup p (isolate_env fixture base env s).files ≡ (
          if config_path fixture env == p
          then isolated (scoped_name base env) (lookup (config_path fixture env) s.files)
          else lookup p s.files)
  unfolding isolate_env
  env-files env p s =
      visit-files (config_path fixture env) (scoped_name base env) p s
        (lookup (config_path fixture env) s.files) refl

  -- Another file stays as it is.
  env_frame :
      (env p : String) (s : State)
      → (config_path fixture env == p) ≡ false
      → lookup p (isolate_env fixture base env s).files ≡ lookup p s.files
  env_frame env p s h =
      env-files env p s
      ∙ ap
          (λ b.
            if b
            then isolated (scoped_name base env) (lookup (config_path fixture env) s.files)
            else lookup p s.files)
          h

  envs_frame :
      (envs : List String) (p : String) (s : State)
      → contains (map (config_path fixture) envs) p ≡ false
      → lookup p (isolate_envs fixture base envs s).files ≡ lookup p s.files
  unfolding isolate_envs contains
  envs_frame [] p s h = refl
  envs_frame (env ∷ envs) p s h =
      let (first, rest) = neither _ _ h in
      envs_frame envs p (isolate_env fixture base env s) rest ∙ env_frame env p s first

  -- The path of a later environment is another one.
  other_path :
      (e env : String) (envs : List String)
      → contains (map (config_path fixture) envs) (config_path fixture e) ≡ false
      → contains envs env ≡ true
      → (config_path fixture e == config_path fixture env) ≡ false
  other_path e env envs d m = elim (Bool-cases (config_path fixture e == config_path fixture env)) [
    | inr q ↦ q
    | inl q ↦ absurd (
        true_ne_false (
          sym (contains-map (config_path fixture) envs env m)
          ∙ (ap (contains (map (config_path fixture) envs)) (sym (eq_of_beq _ _ q)) ∙ d)))
  ]

  envs-files :
      (envs : List String) (s : State)
      → Distinct (map (config_path fixture) envs)
      → (env : String) → contains envs env ≡ true
      → lookup (config_path fixture env) (isolate_envs fixture base envs s).files
        ≡ isolated (scoped_name base env) (lookup (config_path fixture env) s.files)
  unfolding isolate_envs
  envs-files [] s d env m = absurd (nothing_in env m)
  envs-files (e ∷ envs) s d env m = elim ((contains-cons e envs env).0 m) [
    | inl p ↦ subst (Written s) p (
        envs_frame envs (config_path fixture e) (isolate_env fixture base e s) d.0
        ∙ (env-files e (config_path fixture e) s ∙ rw (eq_self (config_path fixture e)) refl))
    | inr p ↦
        envs-files envs (isolate_env fixture base e s) d.1 env p
        ∙ ap (isolated (scoped_name base env))
            (env_frame e (config_path fixture env) s (other_path e env envs d.0 p))
  ]
    where
      Written : State → String → Type 0
      Written s env =
          lookup (config_path fixture env)
            (isolate_envs fixture base envs (isolate_env fixture base e s)).files
          ≡ isolated (scoped_name base env) (lookup (config_path fixture env) s.files)

  -- Every listed environment's file is absent or has the key.
  abbrev pub AreIsolable : List String → Dict String String → Type 0
  AreIsolable envs files =
      (env : String)
      → contains envs env ≡ true
      → IsIsolable (lookup (config_path fixture env) files)

  envs-problems :
      (envs : List String) (s : State)
      → Distinct (map (config_path fixture) envs)
      → (is_empty (isolate_envs fixture base envs s).problems ≡ true)
        ↔ (AreIsolable envs s.files × (is_empty s.problems ≡ true))
  unfolding isolate_envs
  envs-problems [] s d = (λ h. (λ env m. absurd (nothing_in env m), h), λ h. h.1)
  envs-problems (e ∷ envs) s d = (
    λ h.
        let (later, first) = (envs-problems envs (isolate_env fixture base e s) d.1).0 h in
        let (here, none_before) = (env-problems e s).0 first in
        (
          λ env m. elim ((contains-cons e envs env).0 m) [
            | inl p ↦ subst (λ x. IsIsolable (lookup (config_path fixture x) s.files)) p here
            | inr p ↦ subst IsIsolable (same_file env p) (later env p)
          ],
          none_before,
        ),
    λ (h, none_before). (envs-problems envs (isolate_env fixture base e s) d.1).1 (
      λ env m.
          subst IsIsolable (sym (same_file env m)) (h env ((contains-cons e envs env).1 (inr m))),
      (env-problems e s).1 (h e ((contains-cons e envs e).1 (inl refl)), none_before),
    ),
  )
    where
      same_file :
          (env : String)
          → contains envs env ≡ true
          → lookup (config_path fixture env) (isolate_env fixture base e s).files
            ≡ lookup (config_path fixture env) s.files
      same_file env m = env_frame e (config_path fixture env) s (other_path e env envs d.0 m)

  -- If the listed environments have different files, the script leaves every one of these files
  -- rewritten, where it is there and has the key, and every other file as it was, and it exits with 0
  -- exactly if each of them is absent or has the key.
  pub isolate-files :
      (envs : List String) (files : Dict String String)
      → Distinct (map (config_path fixture) (default_envs envs))
      → ((env : String)
          → contains (default_envs envs) env ≡ true
          → lookup (config_path fixture env) (isolate fixture base envs files).0.files
            ≡ isolated (scoped_name base env) (lookup (config_path fixture env) files))
        × ((p : String)
            → contains (map (config_path fixture) (default_envs envs)) p ≡ false
            → lookup p (isolate fixture base envs files).0.files ≡ lookup p files)
        × (((isolate fixture base envs files).1 ≡ 0) ↔ AreIsolable (default_envs envs) files)
  unfolding isolate
  isolate-files envs files d = (
    envs-files (default_envs envs) (before files) d,
    λ p h. envs_frame (default_envs envs) p (before files) h,
    (
      λ h. ((envs-problems (default_envs envs) (before files) d).0 (quiet _ h)).0,
      λ h. rw ((envs-problems (default_envs envs) (before files) d).1 (h, refl)) refl,
    ),
  )
    where
      before : Dict String String → State
      before files = record { files = files; reports = []; problems = [] }

      quiet : (b : Bool) → ◌≡◌ {A = ℕ} (if b then 0 else 1) 0 → b ≡ true
      quiet b h = ground (arith, h)
