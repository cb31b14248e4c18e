-- ===== src/Receipt/Main/StepLines.antt =====
-- Which lines of `steps.jsonl` the script can use.
use ggen_igniter.Base.{
  String, Option, none, some, List, [], not, filter, ◌==◌, ◌≡◌, refl, ap, ◌∙◌, ◌↔◌, All, string_eq,
  some_inj,
}
use ggen_igniter.Base.Dict.{Dict, lookup}
use ggen_igniter.Base.Exec.{ok, subscript, >>=-eq-ok, ok_inj}
use ggen_igniter.Base.Text.{split, strip, path_join}
use ggen_igniter.Ocel.{Value, null, int, text as value_text}
use ggen_igniter.Receipt.World.{
  World, text_at, read_steps, steps_in, file_lines, lines_of, step_exits, step_record, label_of,
}
use ggen_igniter.Receipt.Main.Returns.{Returns, >>=-Returns, map_m-All, text_at_iff}

subscript_iff : {A : Type 0} (o : Option A) (a : A) → (subscript o ≡ ok a) ↔ (o ≡ some a)
subscript_iff none a = (λ h. absurd (cc), λ h. absurd (cc))
subscript_iff (some b) a = (λ h. ap some (ok_inj h), λ h. ap ok (some_inj h))

label_of_iff : (v : Value) (label : String) → (label_of v ≡ ok label) ↔ (v ≡ value_text label)
unfolding label_of
label_of_iff (value_text s) label = (λ h. ap value_text (ok_inj h), λ h. (cc))
label_of_iff null label = (λ h. absurd (cc), λ h. absurd (cc))
label_of_iff (int n) label = (λ h. absurd (cc), λ h. absurd (cc))

-- A decoded line has the three keys that the script subscripts, and its label is a text.
unfoldable pub HasStepKeys : Dict String Value → Type 0
HasStepKeys s =
    ((exit : Value) × (lookup "exit" s ≡ some exit))
    × ((expected : Value) × (lookup "expected" s ≡ some expected))
    × ((label : String) × (lookup "label" s ≡ some (value_text label)))

pub step_exits-Returns :
    (s : Dict String Value)
    → Returns (step_exits s) ↔ (
        ((exit : Value) × (lookup "exit" s ≡ some exit))
        × ((expected : Value) × (lookup "expected" s ≡ some expected)))
unfolding step_exits
step_exits-Returns s = (
  λ (out, h).
      let (a, p, h₁) = >>=-eq-ok (subscript (lookup "exit" s)) _ h in
      let (b, q, h₂) = >>=-eq-ok (subscript (lookup "expected" s)) _ h₁ in
      ((a, (subscript_iff _ a).0 p), (b, (subscript_iff _ b).0 q)),
  λ ((a, p), (b, q)). (>>=-Returns (subscript (lookup "exit" s)) _).1 (
    a,
    (subscript_iff _ a).1 p,
    (>>=-Returns (subscript (lookup "expected" s)) _).1 (b, (subscript_iff _ b).1 q, (_, refl)),
  ),
)

pub step_record-Returns : (s : Dict String Value) → Returns (step_record s) ↔ HasStepKeys s
unfolding step_record HasStepKeys label_of
step_record-Returns s = (
  λ (out, h).
      let (exits, p, h₁) = >>=-eq-ok (step_exits s) _ h in
      let (found, q, h₂) = >>=-eq-ok (subscript (lookup "label" s)) _ h₁ in
      let (label, r, h₃) = >>=-eq-ok (label_of found) _ h₂ in
      let (exit, expected) = (step_exits-Returns s).0 (exits, p) in
      (
        exit,
        expected,
        (label, (subscript_iff _ found).0 q ∙ ap some ((label_of_iff found label).0 r)),
      ),
  λ (exit, expected, (label, p)).
      let (exits, q) = (step_exits-Returns s).1 (exit, expected) in
      (>>=-Returns (step_exits s) _).1 (
        exits,
        q,
        (>>=-Returns (subscript (lookup "label" s)) _).1
            (value_text label, (subscript_iff _ _).1 p, (_, refl)),
      ),
)

module _ (w : World) where
  file_lines_iff :
      (path : String) (lines : Option (List String))
      → (file_lines w path ≡ ok lines)
        ↔ ((w.listing path ≡ none) × (lines_of w (w.contents path) ≡ lines))
  unfolding file_lines
  file_lines_iff path lines = (
    λ h.
        let (content, p, q) = >>=-eq-ok (text_at w path) _ h in
        let (out, same) = (text_at_iff w path content).0 p in
        (out, ap (lines_of w) same ∙ ok_inj q),
    λ (out, same). rw ((text_at_iff w path (w.contents path)).1 (out, refl), same) refl,
  )

  -- A line of `steps.jsonl` that the script can use: it is JSON, with the three keys.
  unfoldable pub IsStepLine : String → Type 0
  IsStepLine line = (s : Dict String Value) × (w.load_step line ≡ ok s) × HasStepKeys s

  -- Every line of the file that is not blank can be used.
  unfoldable pub AreSteps : Option String → Type 0
  AreSteps none = Unit
  AreSteps (some t) = All IsStepLine (filter (λ line. not (strip line == "")) (split b'\n' t))

  steps_in_iff :
      (content : Option String)
      → ((ss : List (Dict String Value)) × (steps_in w (lines_of w content) ≡ ok ss)
          × All HasStepKeys ss)
        ↔ AreSteps content
  unfolding steps_in lines_of AreSteps IsStepLine
  steps_in_iff none = (λ h. tt, λ h. ([], refl, tt))
  steps_in_iff (some t) =
      map_m-All w.load_step HasStepKeys (filter (λ line. not (strip line == "")) (split b'\n' t))

  pub read_steps_iff :
      ((ss : List (Dict String Value)) × (read_steps w ≡ ok ss) × All HasStepKeys ss) ↔ (
        (w.listing (path_join w.out_dir "steps.jsonl") ≡ none)
        × AreSteps (w.contents (path_join w.out_dir "steps.jsonl")))
  unfolding read_steps
  read_steps_iff =
      let path = path_join w.out_dir "steps.jsonl" in
      (
        λ (ss, h, keys).
            let (lines, p, q) = >>=-eq-ok (file_lines w path) (steps_in w) h in
            let (out, same) = (file_lines_iff path lines).0 p in
            (out, (steps_in_iff (w.contents path)).0 (ss, ap (steps_in w) same ∙ q, keys)),
        λ (out, steps).
            let (ss, q, keys) = (steps_in_iff (w.contents path)).1 steps in
            (ss, rw ((file_lines_iff path (lines_of w (w.contents path))).1 (out, refl)) q, keys),
      )
