-- ===== src/Live/Result.antt =====
-- `normalizeActivityResult` of apps/web/src/modules/live/runtime/LiveRuntime.ts: the payload of an
-- `activity.result_updated` event, read as an activity's result.
pub mod Laws
use pro_slides_go.Base.{
  if◌then◌else◌, ℕ, suc, String, not, ◌&&◌, Option, none, some, List, [], ◌∷◌, ◌++◌, str_eq,
}
use pro_slides_go.Js.Number.{Number, int, is_finite, lt, le}
use pro_slides_go.Js.Text.{is_empty}
use pro_slides_go.Js.Value.{
  Value, arr, obj, str, num, nil, cons, end, field, Items, Fields, get, Coercion, number_of, truthy,
  is_nullish,
}
use pro_slides_go.Live.Types.{
  ActivityResult, WordFrequencyTerm, ResultPayload, option_counts, terms, ActivityKind, choice,
  text,
}

-- `recordPayload`: objects as they are, arrays by their indices, and nothing for the rest.
abbrev pub index_fields : Coercion → ℕ → Items → Fields
index_fields js n nil = end
index_fields js n (cons v vs) = field (js.to_text (num (int n))) v (index_fields js (suc n) vs)

abbrev pub record_payload : Coercion → Value → Fields
record_payload js (obj fs) = fs
record_payload js (arr vs) = index_fields js 0 vs
record_payload js v = end

-- `String(value)`.
abbrev pub string_of : Coercion → Value → String
string_of js (str s) = s
string_of js v = js.to_text v

abbrev pub or_zero : Value → Value
or_zero v = if is_nullish v then num (int 0) else v

abbrev pub count_or_zero : Number → Number
count_or_zero n = if is_finite n && le (int 0) n then n else int 0

-- `Number(value || 0)` of each count.
abbrev pub numeric_counts : Coercion → Fields → List (String × Number)
numeric_counts js end = []
numeric_counts js (field k v fs) =
    (k, if truthy v then number_of js v else int 0) ∷ numeric_counts js fs

abbrev pub text_or_empty : Value → String
text_or_empty (str s) = s
text_or_empty v = ""

abbrev pub term_of : String → Number → List WordFrequencyTerm
term_of shown n =
    if not (is_empty shown) && (is_finite n && lt (int 0) n)
    then record { text = shown; count = n } ∷ []
    else []

abbrev pub terms_of : Coercion → Items → List WordFrequencyTerm
terms_of js nil = []
terms_of js (cons v vs) =
    term_of (text_or_empty (get "text" (record_payload js v)))
      (number_of js (get "count" (record_payload js v)))
    ++ terms_of js vs

abbrev pub array_items : Value → Items
array_items (arr vs) = vs
array_items v = nil

-- The two kinds that the client knows; any other is refused.
abbrev pub kind_of : Value → Option ActivityKind
kind_of (str s) =
    if str_eq s "choice" then some choice else if str_eq s "text" then some text else none
kind_of v = none

abbrev pub payload_of : Coercion → ActivityKind → Fields → ResultPayload
payload_of js choice fs =
    option_counts (numeric_counts js (record_payload js (get "option_counts" fs)))
payload_of js text fs = terms (terms_of js (array_items (get "terms" fs)))

abbrev pub result_of : Coercion → Fields → Option ActivityKind → Number → Option ActivityResult
result_of js raw none version = none
result_of js raw (some kind) version =
    if is_finite version && le (int 1) version
    then some (record {
      activity_item_id = string_of js (get "activity_item_id" raw);
      activity_kind = kind;
      schema_version = version;
      response_count = count_or_zero (number_of js (or_zero (get "response_count" raw)));
      payload = payload_of js kind (record_payload js (get "payload" raw));
    })
    else none

unfoldable pub normalize_activity_result : Coercion → Value → Option ActivityResult
unfolding get
normalize_activity_result js payload =
    let raw = record_payload js payload in
    if is_nullish (get "activity_item_id" raw)
    then none
    else result_of js raw (kind_of (get "activity_kind" raw))
        (number_of js (get "schema_version" raw))
