-- ===== src/Live/Result/Laws.antt =====
-- The results of `normalizeActivityResult` in apps/web/src/modules/live/runtime/LiveRuntime.ts.
use pro_slides_go.Base.{
  String, ◌≡◌, false, Option, some, List, [], ◌∷◌, ◌++◌, All, none, arith, inl, inr, ◌&&◌,
  Bool-cases, eq_of_some, refl, true, if◌then◌else◌,
}
use pro_slides_go.Js.Number.{Number, int, is_finite, le, nan, pos_inf, neg_inf, milli}
use pro_slides_go.Js.Number.Laws.{IsFinite, ◌≤#◌, ◌<#◌}
use pro_slides_go.Js.Text.{is_empty}
use pro_slides_go.Js.Value.{
  get, Value, Coercion, Items, nil, cons, Fields, number_of, is_nullish, undefined, null, bool, num,
  str, obj, arr, end, field, truthy,
}
use pro_slides_go.Live.Types.{
  ActivityResult, WordFrequencyTerm, ResultPayload, option_counts, terms, ActivityKind, choice,
  text,
}
use pro_slides_go.Live.Result.{
  normalize_activity_result, term_of, terms_of, result_of, record_payload, count_or_zero,
  text_or_empty, array_items, kind_of, payload_of, or_zero, numeric_counts,
}
use mathlib.Core.Path.{subst}

abbrev pub IsTerm : WordFrequencyTerm → Type 0
IsTerm t = (is_empty t.text ≡ false) × IsFinite t.count × (int 0 <# t.count)

-- The count that is read of a value: a finite number as it is, and 0 of a value that says nothing.
-- What the engine reads of other texts, of lists and of objects is not bounded in any way.
abbrev pub IsCountOf : Value → Number → Type 0
IsCountOf (num m) n = (IsFinite m → n ≡ m) × (m ≡ nan → n ≡ int 0)
IsCountOf (str s) n = is_empty s ≡ true → n ≡ int 0
IsCountOf (bool b) n = n ≡ (if b then int 1 else int 0)
IsCountOf undefined n = n ≡ int 0
IsCountOf null n = n ≡ int 0
IsCountOf v n = Unit

-- One count for each option of the payload, in its order.
abbrev pub AreCountsOf : Fields → List (String × Number) → Type 0
AreCountsOf end [] = Unit
AreCountsOf (field k v fs) ((name, n) ∷ rest) = (name ≡ k) × IsCountOf v n × AreCountsOf fs rest
AreCountsOf fs counts = ⊥

-- What the result holds of the payload `fs`, by its kind.
abbrev pub IsReadOf : Coercion → Fields → ActivityKind → ResultPayload → Type 0
IsReadOf js fs text (terms ts) = All IsTerm ts
IsReadOf js fs choice (option_counts counts) =
    AreCountsOf (record_payload js (get "option_counts" fs)) counts
IsReadOf js fs kind payload = ⊥

pub record IsClean (js : Coercion) (raw : Fields) (r : ActivityResult) : Type 0 where
  pub version : IsFinite r.schema_version × (int 1 ≤# r.schema_version)
  pub responses : IsFinite r.response_count × (int 0 ≤# r.response_count)
  pub payload : IsReadOf js (record_payload js (get "payload" raw)) r.activity_kind r.payload

All-append {ℓ κ} :
    {A : Type ℓ} (P : A → Type κ) (xs ys : List A) → All P xs → All P ys → All P (xs ++ ys)
All-append P [] ys h k = k
All-append P (x ∷ xs) ys (p, h) k = (p, All-append P xs ys h k)

term_of-IsTerm : (shown : String) (n : Number) → All IsTerm (term_of shown n)
term_of-IsTerm shown n = ground arith

terms_of-IsTerm : (js : Coercion) (vs : Items) → All IsTerm (terms_of js vs)
terms_of-IsTerm js nil = tt
terms_of-IsTerm js (cons v vs) =
    let shown = text_or_empty (get "text" (record_payload js v)) in
    let n = number_of js (get "count" (record_payload js v)) in
    All-append IsTerm (term_of shown n) (terms_of js vs) (term_of-IsTerm shown n)
      (terms_of-IsTerm js vs)

IsCountOf-count :
    (js : Coercion) (v : Value) → IsCountOf v (if truthy v then number_of js v else int 0)
IsCountOf-count js (num nan) = (λ h. cc, λ h. refl)
IsCountOf-count js (num (milli a)) = (λ h. ground arith, λ h. cc)
IsCountOf-count js (num pos_inf) = (λ h. cc, λ h. cc)
IsCountOf-count js (num neg_inf) = (λ h. cc, λ h. cc)
IsCountOf-count js (str s) = λ h. rw h refl
IsCountOf-count js (bool true) = refl
IsCountOf-count js (bool false) = refl
IsCountOf-count js undefined = refl
IsCountOf-count js null = refl
IsCountOf-count js (arr vs) = tt
IsCountOf-count js (obj fs) = tt

AreCountsOf-numeric_counts : (js : Coercion) (fs : Fields) → AreCountsOf fs (numeric_counts js fs)
AreCountsOf-numeric_counts js end = tt
AreCountsOf-numeric_counts js (field k v fs) =
    (refl, IsCountOf-count js v, AreCountsOf-numeric_counts js fs)

payload_of-IsReadOf :
    (js : Coercion) (kind : ActivityKind) (fs : Fields)
    → IsReadOf js fs kind (payload_of js kind fs)
payload_of-IsReadOf js choice fs =
    AreCountsOf-numeric_counts js (record_payload js (get "option_counts" fs))
payload_of-IsReadOf js text fs = terms_of-IsTerm js (array_items (get "terms" fs))

count_or_zero_bounds : (n : Number) → IsFinite (count_or_zero n) × (int 0 ≤# count_or_zero n)
count_or_zero_bounds n = ground arith

result_of-IsClean :
    (js : Coercion) (raw : Fields) (kind : Option ActivityKind) (version : Number)
    (r : ActivityResult)
    → result_of js raw kind version ≡ some r
    → IsClean js raw r
result_of-IsClean js raw none version r e = cc
result_of-IsClean js raw (some kind) version r e =
    elim (Bool-cases (is_finite version && le (int 1) version)) [
      | inr refused ↦ cc (rw refused at e)
      | inl accepted ↦ subst (IsClean js raw) (eq_of_some (rw accepted at e)) (record {
        version = ground (arith, accepted);
        responses = count_or_zero_bounds (number_of js (or_zero (get "response_count" raw)));
        payload = payload_of-IsReadOf js kind (record_payload js (get "payload" raw));
      })
    ]

-- A payload that is accepted gives a result with a finite schema version of at least 1, a finite
-- response count of at least 0, and a payload of the kind that the result names. Each term of a
-- word cloud has a text that is not empty and a finite count above 0. The counts of a choice are
-- one for each option that the payload counts, in its order: a finite number as it is, 1 or 0 for
-- a truth value, and 0 for NaN, an empty text and no value. Other counts are not bounded.
pub normalize_activity_result-IsClean :
    (js : Coercion) (payload : Value) (r : ActivityResult)
    → normalize_activity_result js payload ≡ some r
    → IsClean js (record_payload js payload) r
unfolding normalize_activity_result
normalize_activity_result-IsClean js payload r e =
    let raw = record_payload js payload in
    elim (Bool-cases (is_nullish (get "activity_item_id" raw))) [
      | inl missing ↦ cc (rw missing at e)
      | inr named ↦
          result_of-IsClean js raw (kind_of (get "activity_kind" raw))
            (number_of js (get "schema_version" raw)) r (rw named at e)
    ]
