-- ===== src/Editor/Drafts/Question/Marks.antt =====
-- The marks of a question's draft under the reducer of
-- apps/web/src/modules/presentations/editor/model/questionDraft.ts.
use pro_slides_go.Base.{
  if◌then◌else◌, ◌≤◌, ◌≡◌, refl, false, not, List, [], ◌∷◌, ◌==◌, String, map, length, keep, arith,
  ap, inl, inr, str_eq, Bool-cases, Option-cases, sym, ◌++◌, eq_iff, leb, length-append, length-map,
  length-map_from, count-append,
}
use mathlib.Core.Path.{subst}
use pro_slides_go.Editor.Model.{QuestionType, single, multiple, EvaluationMode, correctness}
use pro_slides_go.Editor.Slides.Laws.{Marked}
use pro_slides_go.Editor.Drafts.Question.{
  has_key, marked, QuestionDraftOption, QuestionDraft, correct_options, ensure_correct_option,
  on_option, find_option, toggled, toggle, QuestionDraftAction, reset, saved, add_option,
  delete_option, toggle_correct, option_text, option_image, move_option, next_option,
  question_draft_reducer,
}
use pro_slides_go.Editor.Drafts.{DraftState}
use pro_slides_go.Editor.Drafts.Question.Counts.{
  carriers, Apart, length-remaining, carriers-keep, carriers-on, carriers-mark, correct-on, ensured,
  flip, toggle-Marked, carriers-toggle, moved, length-move,
}

pub record IsSound (d : QuestionDraft) : Type 0 where
  pub enough : 2 ≤ length d.options
  pub apart : Apart d.options
  pub marks : Marked d.evaluation_mode d.type (correct_options d.options)

-- What an action may bring in: a sound draft, or an identifier that no option carries.
abbrev pub IsFit : QuestionDraft → QuestionDraftAction → Type 0
IsFit d (reset e) = IsSound e
IsFit d (saved e) = IsSound e
IsFit d (add_option id) = carriers id d.options ≡ 0
IsFit d _ = Unit

resound :
    (d : QuestionDraft) (os : List QuestionDraftOption)
    → 2 ≤ length os
    → Apart os
    → Marked d.evaluation_mode d.type (correct_options os)
    → IsSound (record d { options = os })
resound d os e a m = record { enough = e; apart = a; marks = m }

appended :
    (m : EvaluationMode) (t : QuestionType) (os : List QuestionDraftOption)
    (o : QuestionDraftOption)
    → o.is_correct ≡ false
    → Marked m t (correct_options os)
    → Marked m t (correct_options (os ++ o ∷ []))
appended m t os o h k =
    subst (Marked m t)
      (sym (ground (arith, h, count-append (λ x. QuestionDraftOption.is_correct x) os (o ∷ [])))) k

apart_added :
    (key id : String) (os : List QuestionDraftOption) (o : QuestionDraftOption)
    → o.id ≡ id
    → carriers id os ≡ 0
    → carriers key os ≤ 1
    → carriers key (os ++ o ∷ []) ≤ 1
apart_added key id os o e h k = elim (Bool-cases (str_eq id key)) [
  | inl f ↦ ground (
    arith,
    count-append (has_key key) os (o ∷ []),
    h,
    ap (λ x. carriers x os) ((eq_iff id key).0 f),
  )
  | inr f ↦ ground (arith, count-append (has_key key) os (o ∷ []), f, k, ap (λ x. str_eq x key) e)
]

added :
    (d : QuestionDraft) (id : String)
    → carriers id d.options ≡ 0
    → IsSound d
    → IsSound (record d { options = d.options ++ next_option d id ∷ [] })
added d id h s =
    resound d _ (ground (arith, s.enough, length-append d.options (next_option d id ∷ [])))
      (λ key. apart_added key id d.options (next_option d id) refl h (s.apart key))
      (appended d.evaluation_mode d.type d.options (next_option d id) (ground (arith, s.enough))
        s.marks)

carriers-unmarked :
    (key : String) (os : List QuestionDraftOption)
    → carriers key (map (marked false) os) ≡ carriers key os
carriers-unmarked key [] = refl
carriers-unmarked key (o ∷ os) = ground (arith, carriers-unmarked key os)

carriers-ensured :
    (key : String) (os : List QuestionDraftOption) (t : QuestionType) (m : EvaluationMode)
    → carriers key (ensure_correct_option os t m) ≡ carriers key os
carriers-ensured key os t EvaluationMode.none = carriers-unmarked key os
carriers-ensured key os single correctness = ground (arith, carriers-mark 0 key (λ i o. i == 0) os)
carriers-ensured key os multiple correctness =
    ground (arith, carriers-mark 0 key (λ i o. i == 0) os)

length-ensured :
    (os : List QuestionDraftOption) (t : QuestionType) (m : EvaluationMode)
    → length (ensure_correct_option os t m) ≡ length os
length-ensured os t EvaluationMode.none = length-map (marked false) os
length-ensured os single correctness =
    ground (arith, length-map_from 0 (λ index o. marked (index == 0) o) os)
length-ensured os multiple correctness =
    ground (arith, length-map_from 0 (λ index o. marked (index == 0) o) os)

deleted :
    (d : QuestionDraft) (id : String)
    → leb (length d.options) 2 ≡ false
    → IsSound d
    → IsSound (record d {
      options =
          ensure_correct_option (keep (λ o. not (has_key id o)) d.options) d.type d.evaluation_mode;
    })
deleted d id h s =
    let rest : List QuestionDraftOption = keep (λ o. not (has_key id o)) d.options in
    let left : 2 ≤ length rest = ground (arith, h, s.apart id, length-remaining id d.options) in
    resound d _ (ground (arith, left, length-ensured rest d.type d.evaluation_mode))
      (λ key. ground (
        arith,
        carriers-ensured key rest d.type d.evaluation_mode,
        carriers-keep (λ o. not (has_key id o)) key d.options,
        s.apart key,
      ))
      (ensured rest d.type d.evaluation_mode (omega (arith, left)))

rewritten :
    (d : QuestionDraft) (id : String) (f : QuestionDraftOption → QuestionDraftOption)
    → ((o : QuestionDraftOption) → (f o).id ≡ o.id)
    → ((o : QuestionDraftOption) → (f o).is_correct ≡ o.is_correct)
    → IsSound d
    → IsSound (record d { options = on_option id f d.options })
rewritten d id f e g s =
    resound d _
      (ground (arith, length-map (λ o. if has_key id o then f o else o) d.options, s.enough))
      (λ key. ground (arith, carriers-on id key f e d.options, s.apart key))
      (subst (Marked d.evaluation_mode d.type) (sym (correct-on id f g d.options)) s.marks)

length-toggled :
    (t : QuestionType) (id : String) (o : QuestionDraftOption) (os : List QuestionDraftOption)
    → length (toggled t id o os) ≡ length os
length-toggled single id o os = length-map (λ x. marked (has_key id x) x) os
length-toggled multiple id o os =
    ground (arith, length-map (λ x. if has_key id x then flip x else x) os)

length-toggle :
    (m : EvaluationMode) (t : QuestionType) (id : String) (os : List QuestionDraftOption)
    → length (toggle m t id os) ≡ length os
length-toggle EvaluationMode.none t id os = refl
length-toggle correctness t id os = elim (Option-cases (find_option id os)) [
  | inl e ↦ rw (toggle, e) refl
  | inr (o, e) ↦ rw (toggle, e) (length-toggled t id o os)
]

-- The reducer keeps a draft sound, for every action that brings in a sound draft or a fresh
-- identifier: two options or more, no identifier twice, and none, one or at least one option
-- marked as correct, as the evaluation mode and the type ask.
pub question_draft_reducer-IsSound :
    (state : DraftState QuestionDraft) (action : QuestionDraftAction)
    → IsSound state.draft
    → IsFit state.draft action
    → IsSound (question_draft_reducer state action).draft
unfolding question_draft_reducer
question_draft_reducer-IsSound state (reset e) s f = f
question_draft_reducer-IsSound state (saved e) s f = f
question_draft_reducer-IsSound state (add_option id) s f =
    elim (Bool-cases (leb 100 (length state.draft.options))) [
      | inl e ↦ rw e s
      | inr e ↦ rw e (added state.draft id f s)
    ]
question_draft_reducer-IsSound state (delete_option id) s f =
    elim (Bool-cases (leb (length state.draft.options) 2)) [
      | inl e ↦ rw e s
      | inr e ↦ rw e (deleted state.draft id e s)
    ]
question_draft_reducer-IsSound state (option_text id value) s f =
    rewritten state.draft id _ (λ o. refl) (λ o. refl) s
question_draft_reducer-IsSound state (option_image id value) s f =
    rewritten state.draft id _ (λ o. refl) (λ o. refl) s
question_draft_reducer-IsSound state (toggle_correct id) s f =
    let d = state.draft in
    resound d _ (ground (arith, length-toggle d.evaluation_mode d.type id d.options, s.enough))
      (λ key.
        ground (arith, carriers-toggle key d.evaluation_mode d.type id d.options, s.apart key))
      (toggle-Marked d.evaluation_mode d.type id d.options (s.apart id) s.marks)
question_draft_reducer-IsSound state (move_option from to) s f =
    let d = state.draft in
    resound d _ (ground (arith, length-move d.options from to, s.enough))
      (λ key. ground (arith, moved (has_key key) d.options from to, s.apart key))
      (subst (Marked d.evaluation_mode d.type)
        (sym (moved (λ o. QuestionDraftOption.is_correct o) d.options from to)) s.marks)
question_draft_reducer-IsSound state action s f = record {
  enough = s.enough;
  apart = s.apart;
  marks = s.marks;
}
