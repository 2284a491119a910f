-- ===== src/Live/Participant/Attempt/Sent.antt =====
-- The answer that is built from a selection, for `buildParticipantAnswer` of
-- apps/web/src/modules/live/participant/answerAttempt.ts, on its way through `submitAnswer` of
-- runtime/LiveRuntime.ts.
use pro_slides_go.Base.{
  ℕ, ◌+◌, ◌≤◌, ◌<◌, String, Bool, true, false, not, ◌&&◌, ◌≡◌, refl, ap, none, some, List, [], ◌∷◌,
  ◌==◌, arith, any, keep, length, map, map_from, get_elem?, ltb, inl, inr, Bool-cases, zero, suc,
  ◌∙◌, if◌then◌else◌, ==_iff, length-map_from,
}
use pro_slides_go.Js.Number.{int, Number}
use pro_slides_go.Js.Value.{Value, Coercion, num, Fields, str, items, get}
use pro_slides_go.Live.Participant.Attempt.{
  unique, present, includes, declared_index, build_participant_answer, answer_with,
}
use pro_slides_go.Live.Projection.Views.{LegacyQuestionOption}
use pro_slides_go.Live.Runtime.Answer.{
  has_duplicate, is_bad_index, is_refused, same_value, selected_option_indexes, LiveAnswerInput,
  requested, submit_answer_start,
}
use pro_slides_go.Live.Participant.Attempt.Selection.{includes-keep}
use pro_slides_go.Live.Projection.Slides.{
  option_to_legacy, ProtocolSession, choice_activity_to_legacy, record_value,
}
use pro_slides_go.Live.Runtime.State.{Runtime}
use pro_slides_go.Js.Text.{is_empty}
use pro_slides_go.Live.Result.{array_items, string_of}

-- No position twice.
abbrev NoRepeat : List ℕ → Type 0
NoRepeat [] = Unit
NoRepeat (x ∷ xs) = (includes xs x ≡ false) × NoRepeat xs

includes-filter :
    (p : ℕ → Bool) (j : ℕ) (xs : List ℕ) → includes (keep p xs) j ≡ (p j && includes xs j)
includes-filter p j [] = ground arith
includes-filter p j (x ∷ xs) = elim (Bool-cases (x == j)) [
  | inl e ↦ rw ((==_iff x j).0 e) (ground (arith, includes-filter p j xs))
  | inr e ↦ ground (arith, e, includes-filter p j xs)
]

keep-NoRepeat : (p : ℕ → Bool) (xs : List ℕ) → NoRepeat xs → NoRepeat (keep p xs)
keep-NoRepeat p [] h = tt
keep-NoRepeat p (x ∷ xs) (a, h) = elim (Bool-cases (p x)) [
  | inl e ↦ rw e (ground (arith, a, includes-filter p x xs), keep-NoRepeat p xs h)
  | inr e ↦ rw e (keep-NoRepeat p xs h)
]

unique-NoRepeat : (xs : List ℕ) → NoRepeat (unique xs)
unique-NoRepeat [] = tt
unique-NoRepeat (x ∷ xs) = (
  ground (arith, includes-keep x x (unique xs)),
  keep-NoRepeat (λ v. not (v == x)) (unique xs) (unique-NoRepeat xs),
)

includes-unique : (xs : List ℕ) (j : ℕ) → includes (unique xs) j ≡ includes xs j
includes-unique [] j = refl
includes-unique (x ∷ xs) j = ground (arith, includes-keep x j (unique xs), includes-unique xs j)

-- The indexes of positions are integers, not negative, and as distinct as the positions.
apart :
    (x : ℕ) (ps : List ℕ) → includes ps x ≡ false → any (same_value (int x)) (map int ps) ≡ false
apart x [] h = refl
apart x (p ∷ ps) h = ground (arith, h, apart x ps (ground (arith, h)))

no_duplicate : (ps : List ℕ) → NoRepeat ps → has_duplicate (map int ps) ≡ false
no_duplicate [] h = refl
no_duplicate (p ∷ ps) (a, h) = rw (apart p ps a) (no_duplicate ps h)

no_bad : (ps : List ℕ) → any is_bad_index (map int ps) ≡ false
no_bad [] = refl
no_bad (p ∷ ps) = ground (arith, no_bad ps)

sent_indexes :
    (ps : List ℕ)
    → NoRepeat ps
    → (i : ℕ) → includes ps i ≡ true
    → is_refused (selected_option_indexes (map int ps)) ≡ false
unfolding is_refused
sent_indexes [] h i e = cc
sent_indexes (p ∷ ps) h i e = ground (arith, no_duplicate (p ∷ ps) h, no_bad (p ∷ ps))

-- The options of a projected question, by their positions.
module _ (js : Coercion) (correct : List String) where
  found_at :
      (n : ℕ) (raw : List Value) (p : ℕ)
      → p < length raw
      → (o : LegacyQuestionOption) × (get_elem? (map_from n (option_to_legacy js correct) raw) p
          ≡ some o)
        × (o.option_index ≡ num (int (n + p)))
  found_at n [] p h = absurd (omega (arith, h))
  found_at n (v ∷ vs) zero h =
      (option_to_legacy js correct n v, refl, ap (λ k. num (int k)) (omega arith))
  found_at n (v ∷ vs) (suc p) h =
      let (o, found, e) = found_at (suc n) vs p (omega (arith, h)) in
      (o, found, e ∙ ap (λ k. num (int k)) (omega arith))

  past_end :
      (n : ℕ) (raw : List Value) (p : ℕ)
      → length raw ≤ p
      → get_elem? (map_from n (option_to_legacy js correct) raw) p ≡ none
  past_end n [] p h = refl
  past_end n (v ∷ vs) zero h = absurd (omega (arith, h))
  past_end n (v ∷ vs) (suc p) h = past_end (suc n) vs p (omega (arith, h))

  declared_as :
      (raw : List Value) (p : ℕ)
      → declared_index js (map_from 0 (option_to_legacy js correct) raw) p
        ≡ (if ltb p (length raw) then some (int p) else none)
  declared_as raw p = elim (Bool-cases (ltb p (length raw))) [
    | inl e ↦
        let (o, found, at) = found_at 0 raw p (ground (arith, e)) in
        rw e (rw found (ap some (rw at (ground arith))))
    | inr e ↦ rw e (rw (past_end 0 raw p (ground (arith, e))) refl)
  ]

  present_declared :
      (raw : List Value) (ps : List ℕ)
      → present (map (declared_index js (map_from 0 (option_to_legacy js correct) raw)) ps)
        ≡ map int (keep (λ p. ltb p (length raw)) ps)
  present_declared raw [] = refl
  present_declared raw (p ∷ ps) = elim (Bool-cases (ltb p (length raw))) [
    | inl e ↦ ground (arith, e, declared_as raw p, present_declared raw ps)
    | inr e ↦ ground (arith, e, declared_as raw p, present_declared raw ps)
  ]

abbrev answer_of : String → String → List ℕ → LiveAnswerInput
answer_of id request ps = record {
  request_id = some request;
  activity_item_id = str id;
  response = selected_option_indexes (map int ps);
}

answered :
    (id request : String) (ps : List ℕ) (i : ℕ)
    → includes ps i ≡ true
    → answer_with id request (map int ps) ≡ some (answer_of id request ps)
answered id request [] i h = cc
answered id request (p ∷ ps) i h = refl

asked_for :
    (js : Coercion) (fresh : String) (r : Runtime) (id request sid : String) (ps : List ℕ)
    → is_empty request ≡ false
    → r.selected_session_id ≡ some sid
    → is_empty sid ≡ false
    → is_refused (selected_option_indexes (map int ps)) ≡ false
    → submit_answer_start js fresh r (some (answer_of id request ps))
      ≡ requested (record {
        session_id = sid;
        request_id = request;
        activity_item_id = id;
        response = selected_option_indexes (map int ps);
      })
unfolding submit_answer_start
asked_for js fresh r id request sid ps k f g h =
    rw f (rw (g, submit_answer_start) (rw h (rw k refl)))

-- Of a choice question as the pages have it, with at least one of the selected positions among its
-- options, the answer that is built names the positions that are, each once, and is sent as it is
-- under the request's id by a runtime with a selected session: nothing is refused before.
pub build_participant_answer-requested :
    (js : Coercion) (parse_date : String → Number) (now : Number) (id : String) (fields : Fields)
    (session : ProtocolSession) (selected : List ℕ) (i : ℕ) (request fresh : String) (r : Runtime)
    (sid : String)
    → includes selected i ≡ true
    → i < length (choice_activity_to_legacy js parse_date now id fields session).options
    → is_empty request ≡ false
    → r.selected_session_id ≡ some sid
    → is_empty sid ≡ false
    → (a : LiveAnswerInput) × (build_participant_answer js
          (choice_activity_to_legacy js parse_date now id fields session)
          selected
          request
        ≡ some a)
      × (submit_answer_start js fresh r (some a)
          ≡ requested (record {
            session_id = sid;
            request_id = request;
            activity_item_id = id;
            response = selected_option_indexes (
                map int (
                  keep
                    (λ p. ltb p (
                      length
                        (choice_activity_to_legacy js parse_date now id fields session).options))
                    (unique selected)));
          }))
unfolding choice_activity_to_legacy build_participant_answer
build_participant_answer-requested js parse_date now id fields session selected i request fresh r
      sid e h k f g =
    let response = record_value (get "response" fields) in
    let raw = items (array_items (get "options" response)) in
    let correct =
      map (string_of js)
        (items (array_items (get "correct_option_ids" (record_value (get "evaluation" fields))))) in
    let count : length (map_from 0 (option_to_legacy js correct) raw) ≡ length raw =
      length-map_from 0 (option_to_legacy js correct) raw in
    let ps = keep (λ p. ltb p (length raw)) (unique selected) in
    let there : includes ps i ≡ true = ground (
      arith,
      e,
      h,
      count,
      includes-filter (λ p. ltb p (length raw)) i (unique selected),
      includes-unique selected i,
    ) in
    let fine : is_refused (selected_option_indexes (map int ps)) ≡ false =
      sent_indexes ps (keep-NoRepeat _ (unique selected) (unique-NoRepeat selected)) i there in
    (
      answer_of id request ps,
      rw (present_declared js correct raw (unique selected)) (answered id request ps i there),
      rw count (asked_for js fresh r id request sid ps k f g fine),
    )
