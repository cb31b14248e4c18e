-- ===== src/Lane/Pin/Laws/Logs.antt =====
-- The logs that `main` reads and what it asserts of them.
use mathlib.Core.Path.{subst}
use ggen_igniter.Base.{
  String, some, List, [], ◌∷◌, ◌≡◌, sym, all_iff, map, All, All-imp, ◌==◌, eq_of_beq, option_eq,
  string_eq, number_eq,
}
use ggen_igniter.Base.Text.{path_join}
use ggen_igniter.Lane.Exec.{built, opened, >>=-eq-built, built_inj, asserted, opened_iff}
use ggen_igniter.Lane.Log.{Log, log_of}
use ggen_igniter.Lane.Pin.Records.{
  logs, base, pre_fix, round0_gate_head, World, Evidence, at_base, killed,
}
use ggen_igniter.Lane.Pin.{witness_name, parse, assert_heads, read_logs, assert_logs}

-- A log is what `parse` reads of a file that is there.
IsLogged : World → String → Log → Type 0
IsLogged w name entry =
    (text : String) × (w.read (path_join logs name) ≡ some text)
    × (entry ≡ log_of w.sha256 (path_join logs name) text)

-- The logs of the names, in their order, with their head.
AreBound : World → String → List String → List Log → Type 0
unfolding IsLogged
AreBound w head [] [] = Unit
AreBound w head [] (e ∷ es) = ⊥
AreBound w head (n ∷ ns) [] = ⊥
AreBound w head (n ∷ ns) (e ∷ es) = IsLogged w n e × (e.head ≡ some head) × AreBound w head ns es

module _ (w : World) where
  parse-IsLogged : (name : String) (e : Log) → parse w name ≡ built e → IsLogged w name e
  unfolding parse IsLogged
  parse-IsLogged name e h =
      let (content, there, made) =
        >>=-eq-built (opened (path_join logs name) (w.read (path_join logs name))) _ h in
      (content, opened_iff _ _ content there, sym (built_inj made))

  heads-All :
      (head : String) (es : List Log) {u : Unit {0}}
      → assert_heads head es ≡ built u
      → All (λ (e : Log). e.head ≡ some head) es
  unfolding assert_heads
  heads-All head es h =
      All-imp (λ (e : Log). eq_of_beq e.head (some head)) es
        ((all_iff (λ (e : Log). e.head == some head) es).0 (asserted _ h))

-- The logs of the receipt, each read from the file of its name, with the head that it has to have.
unfoldable pub AreLogs : World → String → String → Evidence → Type 0
unfolding AreBound
AreLogs w subject gate_log e =
    AreBound w subject (gate_log ∷ []) (e.gate ∷ [])
    × AreBound w base
        ("01-format-3ed6a7a.log" ∷ "00-deps-compile-dev.log" ∷ "02-compile-3ed6a7a.log"
          ∷ "03-credo-3ed6a7a.log" ∷ "04a-deps-compile-test.log" ∷ "04b-compile-test.log"
          ∷ "04-test-3ed6a7a.log" ∷ [])
        (at_base e)
    × AreBound w pre_fix ("06-falsifier-format-3937a4f.log" ∷ []) (e.fals ∷ [])
    × AreBound w round0_gate_head ("10-lane-gate-7e8bfa3.log" ∷ []) (e.gate0 ∷ [])
    × AreBound w subject
        (map (witness_name subject) (
          "20-witness-baseline-" ∷ "21-witness-revert-mutation-" ∷ "22-witness-log-tamper-"
          ∷ "23-witness-pin-bump-" ∷ "24-witness-ambient-" ∷ []))
        (e.w_base ∷ killed e)

HasHead : String → Log → Type 0
HasHead head e = e.head ≡ some head

-- The heads that `assert_logs` asserts.
unfoldable pub HaveHeads : String → Evidence → Type 0
unfolding HasHead
HaveHeads subject e =
    All (HasHead base) (at_base e)
    × HasHead pre_fix e.fals
    × HasHead round0_gate_head e.gate0
    × HasHead subject e.w_base
    × All (HasHead subject) (killed e)

module _ (w : World) (subject : String) where
  pub assert_logs-HaveHeads :
      (e : Evidence) {u : Unit {0}} → assert_logs w subject e ≡ built u → HaveHeads subject e
  unfolding assert_logs HaveHeads HasHead
  assert_logs-HaveHeads e k =
      let (v₁, at₁, k₁) = >>=-eq-built (assert_heads base (at_base e)) _ k in
      let (v₂, at₂, k₂) = >>=-eq-built (assert_heads pre_fix (e.fals ∷ [])) _ k₁ in
      let (v₃, at₃, at₄) = >>=-eq-built (assert_heads round0_gate_head (e.gate0 ∷ [])) _ k₂ in
      let of_subject = heads-All w subject (e.w_base ∷ killed e) at₄ in
      (
        heads-All w base (at_base e) at₁,
        (heads-All w pre_fix (e.fals ∷ []) at₂).0,
        (heads-All w round0_gate_head (e.gate0 ∷ []) at₃).0,
        of_subject.0,
        of_subject.1,
      )

  pub read_logs-AreLogs :
      (gate_log : String) (e : Evidence)
      → read_logs w subject gate_log ≡ built e
      → HaveHeads subject e
      → AreLogs w subject gate_log e
  unfolding read_logs AreLogs AreBound HaveHeads HasHead
  read_logs-AreLogs gate_log out h k =
      let (gate, p, h₁) = >>=-eq-built (parse w gate_log) _ h in
      let (u, gh, h₂) = >>=-eq-built (assert_heads subject (gate ∷ [])) _ h₁ in
      let (fmt, fmt_log, h₃) = >>=-eq-built (parse w "01-format-3ed6a7a.log") _ h₂ in
      let (dep_dev, dep_dev_log, h₄) = >>=-eq-built (parse w "00-deps-compile-dev.log") _ h₃ in
      let (comp, comp_log, h₅) = >>=-eq-built (parse w "02-compile-3ed6a7a.log") _ h₄ in
      let (credo, credo_log, h₆) = >>=-eq-built (parse w "03-credo-3ed6a7a.log") _ h₅ in
      let (dep_test, dep_test_log, h₇) = >>=-eq-built (parse w "04a-deps-compile-test.log") _ h₆ in
      let (comp_test, comp_test_log, h₈) = >>=-eq-built (parse w "04b-compile-test.log") _ h₇ in
      let (test, test_log, h₉) = >>=-eq-built (parse w "04-test-3ed6a7a.log") _ h₈ in
      let (fals, fals_log, h₁₀) = >>=-eq-built (parse w "06-falsifier-format-3937a4f.log") _ h₉ in
      let (gate0, gate0_log, h₁₁) = >>=-eq-built (parse w "10-lane-gate-7e8bfa3.log") _ h₁₀ in
      let (w_base, w_base_log, h₁₂) =
        >>=-eq-built (parse w (witness_name subject "20-witness-baseline-")) _ h₁₁ in
      let (w_revert, w_revert_log, h₁₃) =
        >>=-eq-built (parse w (witness_name subject "21-witness-revert-mutation-")) _ h₁₂ in
      let (w_tamper, w_tamper_log, h₁₄) =
        >>=-eq-built (parse w (witness_name subject "22-witness-log-tamper-")) _ h₁₃ in
      let (w_bump, w_bump_log, h₁₅) =
        >>=-eq-built (parse w (witness_name subject "23-witness-pin-bump-")) _ h₁₄ in
      let (w_amb, w_amb_log, h₁₆) =
        >>=-eq-built (parse w (witness_name subject "24-witness-ambient-")) _ h₁₅ in
      subst (λ out. HaveHeads subject out → AreLogs w subject gate_log out) (built_inj h₁₆)
        (λ (k₁, k₂, k₃, k₄, k₅). (
          (parse-IsLogged w gate_log gate p, (heads-All w subject (gate ∷ []) gh).0, tt),
          (
            parse-IsLogged w "01-format-3ed6a7a.log" fmt fmt_log,
            k₁.0,
            (
              parse-IsLogged w "00-deps-compile-dev.log" dep_dev dep_dev_log,
              k₁.1.0,
              (
                parse-IsLogged w "02-compile-3ed6a7a.log" comp comp_log,
                k₁.1.1.0,
                (
                  parse-IsLogged w "03-credo-3ed6a7a.log" credo credo_log,
                  k₁.1.1.1.0,
                  (
                    parse-IsLogged w "04a-deps-compile-test.log" dep_test dep_test_log,
                    k₁.1.1.1.1.0,
                    (
                      parse-IsLogged w "04b-compile-test.log" comp_test comp_test_log,
                      k₁.1.1.1.1.1.0,
                      (parse-IsLogged w "04-test-3ed6a7a.log" test test_log, k₁.1.1.1.1.1.1.0, tt),
                    ),
                  ),
                ),
              ),
            ),
          ),
          (parse-IsLogged w "06-falsifier-format-3937a4f.log" fals fals_log, k₂, tt),
          (parse-IsLogged w "10-lane-gate-7e8bfa3.log" gate0 gate0_log, k₃, tt),
          (
            parse-IsLogged w (witness_name subject "20-witness-baseline-") w_base w_base_log,
            k₄,
            (
              parse-IsLogged w (witness_name subject "21-witness-revert-mutation-") w_revert
                  w_revert_log,
              k₅.0,
              (
                parse-IsLogged w (witness_name subject "22-witness-log-tamper-") w_tamper
                    w_tamper_log,
                k₅.1.0,
                (
                  parse-IsLogged w (witness_name subject "23-witness-pin-bump-") w_bump w_bump_log,
                  k₅.1.1.0,
                  (
                    parse-IsLogged w (witness_name subject "24-witness-ambient-") w_amb w_amb_log,
                    k₅.1.1.1.0,
                    tt,
                  ),
                ),
              ),
            ),
          ),
        ))
        k
