-- ===== src/Editor/Validation/Question/Laws.antt =====
-- The validator of questions against its meaning, for `validateEditorQuestion` of
-- apps/web/src/modules/presentations/model/editor.ts.
use pro_slides_go.Base.{
  ℕ, ◌≤◌, String, ◌≡◌, ◌≢◌, refl, ◌↔◌, false, Option, none, some, List, [], ◌∷◌, inl, inr, length,
  All, not, map, keep, arith, str_eq, eq_iff, Bool-cases, ◌/◌, Bool, true, pos, negsuc, is_true,
  sym, eq_of_some,
}
use pro_slides_go.Js.Text.{is_empty}
use pro_slides_go.Editor.Model.{
  OptionLike, QuestionType, single, multiple, Tag, known, other, EvaluationMode, correctness,
  ScoringMode, QuestionLike,
}
use pro_slides_go.Editor.Validation.{
  append-eq-nil, gather, gather_iff, is_empty_iff, no_issue_if, outside_iff,
}
use pro_slides_go.Editor.Validation.Question.{
  member, set_size, duplicated, option_key, evaluation_issues, option_caption, option_issues,
  scoring_invalid, unevaluated, points_wrong, points_issues, type_invalid, is_single, asked_text,
  given_options, evaluation, scoring, duration, question_issues, given_ids,
  validate_editor_question,
}
use pro_slides_go.Editor.Validation.Question.Meaning.{
  Distinct, IsOffered, IsMarked, IsPriced, IsRunnable,
}
use mathlib.Core.Path.{subst}
use pro_slides_go.Js.Number.{int, num_eq, Number, milli, to_number}

member_iff : (x : String) (xs : List String) → (member x xs ≡ false) ↔ All (λ y. x ≢ y) xs
member_iff x [] = (λ h. tt, λ h. refl)
member_iff x (y ∷ ys) = (
  λ h. (λ e. ground (arith, h, (eq_iff x y).1 e), (member_iff x ys).0 (ground (arith, h))),
  λ (n, r). elim (Bool-cases (str_eq x y)) [
    | inl e ↦ absurd (n ((eq_iff x y).0 e))
    | inr e ↦ ground (arith, e, (member_iff x ys).1 r)
  ],
)

set_size-le : (xs : List String) → set_size xs ≤ length xs
set_size-le [] = omega arith
set_size-le (x ∷ xs) = ground (arith, set_size-le xs)

pub duplicated_iff : (xs : List String) → (duplicated xs ≡ false) ↔ Distinct xs
duplicated_iff [] = (λ h. tt, λ h. refl)
duplicated_iff (x ∷ xs) = (
  λ h. (
    (member_iff x xs).0 (ground (arith, h, set_size-le xs)),
    (duplicated_iff xs).0 (ground (arith, h, set_size-le xs)),
  ),
  λ (n, d). ground (arith, (member_iff x xs).1 n, (duplicated_iff xs).1 d),
)

-- An option has no issue exactly if it may be offered.
offered_sound : (o : OptionLike) → gather (option_issues o) ≡ [] → IsOffered o
offered_sound o h =
    let (a, (b, (c, _))) = (gather_iff (option_issues o)).0 h in
    record {
      captioned = λ e. ground (arith, a, (is_empty_iff (option_caption o)).1 e);
      caption_fits = ground (arith, a);
      keyed = λ e. ground (arith, b, (is_empty_iff (option_key o)).1 e);
      key_fits = ground (arith, b);
      picture_fits = ground (arith, c);
    }

nonempty : (s : String) → s ≢ "" → is_empty s ≡ false
nonempty s h = ground (arith, h, (is_empty_iff s).0)

offered_complete : (o : OptionLike) → IsOffered o → gather (option_issues o) ≡ []
offered_complete o s = (gather_iff (option_issues o)).1 (
  ground (arith, nonempty (option_caption o) s.captioned, s.caption_fits),
  (
    ground (arith, nonempty (option_key o) s.keyed, s.key_fits),
    (ground (arith, s.picture_fits), tt),
  ),
)

pub offered_iff :
    (os : List OptionLike)
    → (gather (map (λ o. gather (option_issues o)) os) ≡ []) ↔ All IsOffered os
offered_iff [] = (λ h. tt, λ h. refl)
offered_iff (o ∷ os) = (
  λ h. let (a, b) = append-eq-nil _ _ h in (offered_sound o a, (offered_iff os).0 b),
  λ (a, b). rw (offered_complete o a) ((offered_iff os).1 b),
)

-- Options that may be offered have no blank identifier, so none is filtered out.
pub keep-all :
    (os : List OptionLike)
    → All IsOffered os
    → keep (λ id. not (is_empty id)) (map option_key os) ≡ map option_key os
keep-all [] h = refl
keep-all (o ∷ os) (a, b) = ground (arith, nonempty (option_key o) a.keyed, keep-all os b)

pub marked_iff :
    (e : Tag EvaluationMode) (t : Option (Tag QuestionType)) (n : ℕ)
    → (evaluation_issues e t n ≡ []) ↔ IsMarked e t n
marked_iff (other mode) t n = (λ h. cc, λ h. absurd h)
marked_iff (known EvaluationMode.none) t n = (λ h. ground arith, λ h. ground arith)
marked_iff (known correctness) none n = (λ h. (ground arith, λ e. cc), λ (h, _). ground arith)
marked_iff (known correctness) (some (other x)) n =
    (λ h. (ground arith, λ e. cc), λ (h, _). ground arith)
marked_iff (known correctness) (some (known single)) n =
    (λ h. (ground arith, λ e. ground arith), λ (h, k). ground (arith, k refl))
marked_iff (known correctness) (some (known multiple)) n =
    (λ h. (ground arith, λ e. cc), λ (h, _). ground arith)

wrong_sound :
    (low high : Number)
    → points_wrong low high ≡ false
    → (a : ℕ) × (b : ℕ) × (low ≡ int a)
      × (high ≡ int b)
      × (a ≤ b)
      × (1 ≤ b)
      × (b ≤ 9007199254740991)
wrong_sound (milli (pos m)) (milli (pos n)) h =
    (m / 1000, n / 1000, ground arith, ground arith, ground arith, ground arith, ground arith)
wrong_sound (milli (negsuc m)) high h = absurd (ground arith)
wrong_sound (milli (pos m)) (milli (negsuc n)) h = absurd (ground arith)
wrong_sound (milli (pos m)) high h = absurd (ground arith)
wrong_sound low high h = absurd (ground arith)

wrong_complete :
    (a b : ℕ) → a ≤ b → 1 ≤ b → b ≤ 9007199254740991 → points_wrong (int a) (int b) ≡ false
wrong_complete a b h i j = ground arith

zero_of : (n : Number) → num_eq n (int 0) ≡ true → n ≡ int 0
zero_of (milli (pos m)) h = ground arith
zero_of (milli (negsuc m)) h = absurd (ground arith)
zero_of n h = cc

unscored_complete :
    (low high : Number) (faster partial : Bool)
    → low ≡ int 0
    → high ≡ int 0
    → faster ≡ false
    → partial ≡ false
    → points_issues (known ScoringMode.none) low high faster partial ≡ []
unscored_complete low high faster partial l h f p = rw l (rw h (rw f (rw p refl)))

scored_complete :
    (low high : Number) (faster partial : Bool) (a b : ℕ)
    → low ≡ int a
    → high ≡ int b
    → points_wrong (int a) (int b) ≡ false
    → points_issues (known ScoringMode.points) low high faster partial ≡ []
scored_complete low high faster partial a b l h w = rw l (rw h (ground (arith, w)))

abbrev IsSilent : Tag ScoringMode → Tag EvaluationMode → Number → Number → Bool → Bool → Type 0
IsSilent s e low high faster partial =
    (scoring_invalid s ≡ false)
    × (unevaluated s e ≡ false)
    × (points_issues s low high faster partial ≡ [])

pub IsPriced-iff :
    (s : Tag ScoringMode) (e : Tag EvaluationMode) (low high : Number) (faster partial : Bool)
    → IsSilent s e low high faster partial ↔ IsPriced s e low high faster partial
IsPriced-iff (other x) e low high faster partial = (λ (h, g, k). absurd (cc), λ h. absurd h)
IsPriced-iff (known ScoringMode.none) e low high faster partial = (
  λ (_, _, h). (
    zero_of low (ground (arith, h)),
    zero_of high (ground (arith, h)),
    ground (arith, h),
    ground (arith, h),
  ),
  λ (l, h, f, p). (refl, refl, unscored_complete low high faster partial l h f p),
)
IsPriced-iff (known ScoringMode.points) (known correctness) low high faster partial = (
  λ (_, _, h). (refl, wrong_sound low high (ground (arith, h))),
  λ (_, (a, b, l, h, i, j, k)).
      (refl, refl, scored_complete low high faster partial a b l h (wrong_complete a b i j k)),
)
IsPriced-iff (known ScoringMode.points) e low high faster partial =
    (λ (_, h, _). absurd (cc), λ (h, _). absurd (cc))

single_iff : (t : Option (Tag QuestionType)) → (is_single t ≡ true) ↔ (t ≡ some (known single))
single_iff none = (λ h. cc, λ h. cc)
single_iff (some (other x)) = (λ h. cc, λ h. cc)
single_iff (some (known single)) = (λ h. refl, λ h. refl)
single_iff (some (known multiple)) = (λ h. cc, λ h. cc)

typed_iff :
    (t : Option (Tag QuestionType))
    → (type_invalid t ≡ false) ↔ ((k : QuestionType) × (t ≡ some (known k)))
typed_iff none = (λ h. absurd (cc), λ (k, h). cc)
typed_iff (some (other x)) = (λ h. absurd (cc), λ (k, h). cc)
typed_iff (some (known k)) = (λ h. (k, refl), λ h. refl)

module _ (q : QuestionLike) where
  IsRunnable-of : All (λ xs. xs ≡ []) (question_issues q) → IsRunnable q
  IsRunnable-of
        (t, (l, (p, (few, (many, (os, (ids, (ty, (ev, (sc, (un, (pa, (du, (pt, _)))))))))))))) =
      let offered : All IsOffered (given_options q) = (offered_iff (given_options q)).0 os in
      record {
        asked = λ e. ground (arith, t, (is_empty_iff (asked_text q)).1 e);
        text_fits = ground (arith, t);
        title_fits = ground (arith, l);
        picture_fits = ground (arith, p);
        enough_options = ground (arith, few);
        few_options = ground (arith, many);
        offered = offered;
        distinct_ids =
            subst Distinct (keep-all (given_options q) offered)
              ((duplicated_iff (given_ids q)).0 ((no_issue_if _ _).0 ids));
        typed = (typed_iff q.question_type).0 ((no_issue_if _ _).0 ty);
        marked = (marked_iff _ _ _).0 ev;
        priced = (IsPriced-iff _ _ _ _ _ _).0 ((no_issue_if _ _).0 sc, (no_issue_if _ _).0 un, pt);
        partial_only_multiple = λ e. ground (arith, pa, (single_iff q.question_type).1 e);
        time_bounds = (outside_iff 1 86400 (duration q)).0 ((no_issue_if _ _).0 du);
      }

  nothing_of : IsRunnable q → All (λ xs. xs ≡ []) (question_issues q)
  nothing_of s =
      let silent : IsSilent (scoring q) (evaluation q) (to_number q.min_point)
          (to_number q.max_point) (is_true q.faster_answers_more_points)
          (is_true q.partial_scoring) =
        (IsPriced-iff _ _ _ _ _ _).1 s.priced in
      (
        ground (arith, nonempty (asked_text q) s.asked, s.text_fits),
        (
          ground (arith, s.title_fits),
          (
            ground (arith, s.picture_fits),
            (
              ground (arith, s.enough_options),
              (
                ground (arith, s.few_options),
                (
                  (offered_iff (given_options q)).1 s.offered,
                  (
                    (no_issue_if _ _).1 (
                        (duplicated_iff (given_ids q)).1 (
                          subst Distinct (sym (keep-all (given_options q) s.offered))
                            s.distinct_ids)),
                    (
                      (no_issue_if _ _).1 ((typed_iff q.question_type).1 s.typed),
                      (
                        (marked_iff _ _ _).1 s.marked,
                        (
                          (no_issue_if _ _).1 silent.0,
                          (
                            (no_issue_if _ _).1 silent.1,
                            (
                              ground
                                  (arith, (single_iff q.question_type).0, s.partial_only_multiple),
                              (
                                (no_issue_if _ _).1
                                    ((outside_iff 1 86400 (duration q)).1 s.time_bounds),
                                (silent.2, tt),
                              ),
                            ),
                          ),
                        ),
                      ),
                    ),
                  ),
                ),
              ),
            ),
          ),
        ),
      )

-- The validator has nothing to report exactly for a question that is there and may be run: its
-- text, title, picture, options with their identifiers, type, marks, points and duration are
-- within the bounds, and the modes agree.
pub validate_editor_question_iff :
    (q : Option QuestionLike)
    → (validate_editor_question q ≡ []) ↔ ((b : QuestionLike) × (q ≡ some b) × IsRunnable b)
unfolding validate_editor_question
validate_editor_question_iff none = (λ h. absurd (cc), λ (b, e, h). cc)
validate_editor_question_iff (some a) = (
  λ h. (a, refl, IsRunnable-of a ((gather_iff (question_issues a)).0 h)),
  λ (b, e, h).
      (gather_iff (question_issues a)).1 (nothing_of a (subst IsRunnable (sym (eq_of_some e)) h)),
)
