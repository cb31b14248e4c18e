-- ===== src/Lane/Pin/Laws.antt =====
-- What a receipt of the lane rests on.
pub mod Logs
use mathlib.Core.Path.{subst}
use ggen_igniter.Base.{
  ◌∙◌, String, none, some, List, [], ◌∷◌, true, false, ◌≡◌, ◌≢◌, refl, sym, ◌↔◌, inl, inr, arith,
  not, all_iff, map, All, All-imp, Bool-cases, ◌==◌, eq_of_beq, eq_iff_eq, option_eq, string_eq,
  number_eq,
}
use ggen_igniter.Base.Text.{path_join, after_last}
use ggen_igniter.Lane.Exec.{built, opened, >>=-eq-built, built_inj, asserted, opened_iff}
use ggen_igniter.Lane.Log.{Log, log_of}
use ggen_igniter.Json.{text, array_of, at}
use ggen_igniter.Lane.Pin.Records.{
  logs, base, pre_fix, round0_gate_head, World, Command, Evidence, at_base, killed,
}
use ggen_igniter.Lane.Pin.Commands.{commands_of, falsifiers_of}
use ggen_igniter.Lane.Pin.Stated.{
  ident_path, diff_path, ident0_path, diff0_path, Facts, command_json,
}
use ggen_igniter.Lane.Pin.Document.{document}
use ggen_igniter.Lane.Pin.Document.Laws.{at-commands, at-falsifiers, at-subject, at-standing_iff}
use ggen_igniter.Lane.Pin.{
  facts_of, witness_name, alive, partial_alive, Receipt, parse, sha, assert_heads, assert_killed,
  all_zero, standing_of, broken_term_of, read_logs, assert_logs, receipt_of, build_from,
  build_receipt,
}
use ggen_igniter.Lane.Pin.Laws.Logs.{AreLogs, HaveHeads, assert_logs-HaveHeads, read_logs-AreLogs}

-- What is written to the file: the commands and falsifiers of the receipt, its standing and its
-- subject stand in the document at their keys.
unfoldable pub IsWritten : String → Receipt → Type 0
IsWritten subject r =
    (at ("replay" ∷ "commands" ∷ []) r.document ≡ some (array_of (map command_json r.commands)))
    × (at ("falsifiers" ∷ []) r.document ≡ some (array_of (map command_json r.falsifiers)))
    × ((at ("standing" ∷ "value" ∷ []) r.document ≡ some (text "ALIVE")) ↔ (r.standing ≡ alive))
    × (at ("identity" ∷ "subject_sha" ∷ []) r.document ≡ some (text subject))

-- What a receipt states, from the logs that it was built from.
unfoldable pub IsReceiptOf : World → String → String → Receipt → Type 0
unfolding AreLogs commands_of falsifiers_of
IsReceiptOf w subject gate_log r =
    (e : Evidence) × AreLogs w subject gate_log e
    × (r.commands ≡ commands_of subject e)
    × (r.falsifiers ≡ falsifiers_of subject e)
    × All (λ (k : Log). k.exit ≢ some 0) (killed e)
    × ((r.standing ≡ alive) ↔ All (λ (c : Command). c.entry.exit ≡ some 0) r.commands)
    × ((r.broken_term ≡ none) ↔ (r.standing ≡ alive))
    × IsWritten subject r

zeros_iff :
    (cs : List Command) → (all_zero cs ≡ true) ↔ All (λ (c : Command). c.entry.exit ≡ some 0) cs
unfolding all_zero
zeros_iff cs = (
  λ h.
      All-imp (λ (c : Command). eq_of_beq c.entry.exit (some 0)) cs
        ((all_iff (λ (c : Command). c.entry.exit == some 0) cs).0 h),
  λ h.
      (all_iff (λ (c : Command). c.entry.exit == some 0) cs).1
        (All-imp (λ (c : Command). (eq_iff_eq c.entry.exit (some 0)).1) cs h),
)

standing_iff : (cs : List Command) → (standing_of cs ≡ alive) ↔ (all_zero cs ≡ true)
unfolding standing_of
standing_iff cs = elim (Bool-cases (all_zero cs)) [
  | inl e ↦ ((λ h. e), (λ h. rw (standing_of, e) refl))
  | inr e ↦ ((λ h. absurd (let g = only_then e in cc)), (λ h. absurd (cc)))
]
  where
    only_then : all_zero cs ≡ false → standing_of cs ≡ partial_alive
    only_then e = rw (standing_of, e) refl

broken_term_iff : (cs : List Command) → (broken_term_of cs ≡ none) ↔ (all_zero cs ≡ true)
unfolding broken_term_of
broken_term_iff cs = elim (Bool-cases (all_zero cs)) [
  | inl e ↦ ((λ h. e), (λ h. rw (broken_term_of, e) refl))
  | inr e ↦ ((λ h. absurd (let g = only_then e in cc)), (λ h. absurd (cc)))
]
  where
    only_then : all_zero cs ≡ false → broken_term_of cs ≡ some "mu_unlawful"
    only_then e = rw (broken_term_of, e) refl

killed-All :
    (es : List Log) {u : Unit {0}}
    → assert_killed es ≡ built u
    → All (λ (e : Log). e.exit ≢ some 0) es
unfolding assert_killed
killed-All es h =
    All-imp nonzero es ((all_iff (λ (e : Log). not (e.exit == some 0)) es).0 (asserted _ h))
  where
    nonzero : (e : Log) → not (e.exit == some 0) ≡ true → e.exit ≢ some 0
    nonzero e n z = ground (arith, n, (eq_iff_eq e.exit (some 0)).1 z)

module _ (w : World) (subject : String) (lane_commits : List String) where
  receipt_of-IsReceiptOf :
      (gate_log ident_text : String) (e : Evidence) (r : Receipt)
      → AreLogs w subject gate_log e
      → receipt_of w subject lane_commits ident_text e ≡ built r
      → IsReceiptOf w subject gate_log r
  unfolding receipt_of facts_of IsReceiptOf IsWritten
  receipt_of-IsReceiptOf gate_log ident_text e out a h =
      let (diff, d₁, h₁) = >>=-eq-built (sha w (diff_path subject)) _ h in
      let (diff0, d₂, h₂) = >>=-eq-built (sha w diff0_path) _ h₁ in
      let (u, k, h₃) = >>=-eq-built (assert_killed (killed e)) _ h₂ in
      let (ident, d₃, h₄) = >>=-eq-built (sha w (ident_path subject)) _ h₃ in
      let (ident0, d₄, h₅) = >>=-eq-built (sha w ident0_path) _ h₄ in
      let (lock, d₅, h₆) = >>=-eq-built (sha w "mix.lock") _ h₅ in
      subst (IsReceiptOf w subject gate_log) (built_inj h₆) (
        e,
        a,
        refl,
        refl,
        killed-All (killed e) k,
        standing,
        broken,
        written (facts_of w subject lane_commits ident_text e diff diff0 ident ident0 lock) refl
            refl refl,
      )
    where
      cs : List Command
      cs = commands_of subject e

      standing : (standing_of cs ≡ alive) ↔ All (λ (c : Command). c.entry.exit ≡ some 0) cs
      standing = (
        λ h. (zeros_iff cs).0 ((standing_iff cs).0 h),
        λ h. (standing_iff cs).1 ((zeros_iff cs).1 h),
      )

      written :
          (f : Facts)
          → f.subject ≡ subject
          → f.evidence ≡ e
          → f.all_zero ≡ all_zero cs
          → (at ("replay" ∷ "commands" ∷ []) (document f) ≡ some (array_of (map command_json cs)))
            × (at ("falsifiers" ∷ []) (document f)
                ≡ some (array_of (map command_json (falsifiers_of subject e))))
            × ((at ("standing" ∷ "value" ∷ []) (document f) ≡ some (text "ALIVE"))
                ↔ (standing_of cs ≡ alive))
            × (at ("identity" ∷ "subject_sha" ∷ []) (document f) ≡ some (text subject))
      written f s v z = (
        at-commands f ∙ cc (s, v),
        at-falsifiers f ∙ cc (s, v),
        (
          λ h. (standing_iff cs).1 (sym z ∙ (at-standing_iff f).0 h),
          λ h. (at-standing_iff f).1 (z ∙ (standing_iff cs).0 h),
        ),
        at-subject f ∙ cc (s),
      )

      broken : (broken_term_of cs ≡ none) ↔ (standing_of cs ≡ alive)
      broken = (
        λ h. (standing_iff cs).1 ((broken_term_iff cs).0 h),
        λ h. (broken_term_iff cs).1 ((standing_iff cs).0 h),
      )

-- A receipt that is built rests on fourteen logs and the gate's, each read from the file of its name
-- and taken at the head that it has to have: the subject, the base, the head before the fix or that of
-- round 0. None of the logs of the four falsifiers ended with 0. The standing is ALIVE exactly if every command
-- of the receipt ended with 0, and only then there is no broken term. The document has the commands, the
-- falsifiers, the standing and the subject at their keys.
pub build_receipt-IsReceiptOf :
    (w : World) (script gate subject commit : String) (commits : List String) (r : Receipt)
    → build_receipt w (script ∷ gate ∷ subject ∷ commit ∷ commits) ≡ built r
    → IsReceiptOf w subject (after_last b'/' gate) r
unfolding build_receipt build_from
build_receipt-IsReceiptOf w script gate subject commit commits r h =
    let gate_log = after_last b'/' gate in
    let (e, reads, h₁) = >>=-eq-built (read_logs w subject gate_log) _ h in
    let (ident, there, h₂) =
      >>=-eq-built (opened (ident_path subject) (w.read (ident_path subject))) _ h₁ in
    let (u, asserts, h₃) = >>=-eq-built (assert_logs w subject e) _ h₂ in
    receipt_of-IsReceiptOf w subject (commit ∷ commits) gate_log ident e r
      (read_logs-AreLogs w subject gate_log e reads (assert_logs-HaveHeads w subject e asserts)) h₃
