-- ===== src/Live/Participant/Storage.antt =====
-- apps/web/src/modules/live/participant/pendingAnswerStorage.ts: the answers and selections that
-- survive a reload of the page. `sessionStorage` is a map of texts, or `none` where each access
-- throws; `JSON` is a parameter, whose `parse` is `none` where it throws.
pub mod Laws
use Prim.Native.String.{◌++◌ as join}
use pro_slides_go.Base.{
  String, Bool, false, not, ◌&&◌, ◌||◌, Option, none, some, List, [], ◌∷◌, str_eq, any,
  if◌then◌else◌, map,
}
use pro_slides_go.Js.Number.{Number, int, is_integer, lt}
use pro_slides_go.Js.Text.{is_blank, is_empty}
use pro_slides_go.Js.Value.{
  Value, Fields, Items, Coercion, obj, arr, str, num, field, end, cons, nil, get, items, is_nullish,
}
use pro_slides_go.Js.TextMap.{lookup, insert, delete}
use pro_slides_go.Live.Result.{string_of}
use pro_slides_go.Live.Runtime.Answer.{LiveAnswerInput, AnswerResponse, selected_option_indexes}

pub record Json : Type 0 where
  pub stringify : Value → String
  pub parse : String → Option Value

pub data ParticipantAnswerDraft : Type 0 where
  selected_indexes : List Number → ParticipantAnswerDraft
  written : String → ParticipantAnswerDraft

abbrev pub Storage : Type 0
Storage = Option (List (String × String))

-- `String(roomId ?? "unknown")`.
abbrev pub room_text : Coercion → Value → String
room_text js room = if is_nullish room then "unknown" else string_of js room

unfoldable pub storage_key : Coercion → Value → String → String
storage_key js room identity =
    join "proslides_live_pending_answer_v1:" (join (room_text js room) (join ":" identity))

unfoldable pub draft_storage_key : Coercion → Value → String → String
draft_storage_key js room identity =
    join "proslides_live_answer_draft_v1:" (join (room_text js room) (join ":" identity))

-- `isRecord(value)`: an array is a record too, with none of the names that are read here.
abbrev pub record_of : Value → Option Fields
record_of (obj fs) = some fs
record_of (arr vs) = some end
record_of v = none

-- `Number.isInteger(index) && Number(index) >= 0`.
abbrev pub is_index : Value → Bool
is_index (num n) = is_integer n && not (lt n (int 0))
is_index v = false

abbrev pub is_no_index : Value → Bool
is_no_index v = not (is_index v)

-- `indexes.map(Number)`, where each is a number.
abbrev pub to_num : Value → Number
to_num (num n) = n
to_num v = int 0

abbrev pub parse_indexes : List Value → Option (List Number)
parse_indexes [] = none
parse_indexes (v ∷ vs) = if any is_no_index (v ∷ vs) then none else some (map to_num (v ∷ vs))

abbrev pub selection_of : Option (List Number) → Option AnswerResponse
selection_of none = none
selection_of (some indexes) = some (selected_option_indexes indexes)

abbrev pub parse_text : Value → Option AnswerResponse
parse_text (str s) = if is_blank s then none else some (AnswerResponse.text s)
parse_text v = none

abbrev pub parse_response : Value → Value → Option AnswerResponse
parse_response (arr indexes) answer = selection_of (parse_indexes (items indexes))
parse_response other answer = parse_text answer

abbrev pub answer_from : String → String → Option AnswerResponse → Option LiveAnswerInput
answer_from request item none = none
answer_from request item (some response) =
    some (record { request_id = some request; activity_item_id = str item; response = response })

abbrev pub parse_parts : Value → Value → Option Fields → Option LiveAnswerInput
parse_parts (str request) (str item) (some response) =
    answer_from request item
      (parse_response (get "selected_option_indexes" response) (get "text" response))
parse_parts request item response = none

abbrev parse_fields : Option Fields → Option LiveAnswerInput
parse_fields none = none
parse_fields (some fs) =
    parse_parts (get "request_id" fs) (get "activity_item_id" fs) (record_of (get "response" fs))

unfoldable pub parse_answer : Value → Option LiveAnswerInput
unfolding get
parse_answer v = parse_fields (record_of v)

abbrev is_text : String → Value → Bool
is_text s (str t) = str_eq t s
is_text s v = false

-- `String(parsed.room_id ?? "")`.
abbrev text_or_nothing : Coercion → Value → String
text_or_nothing js v = if is_nullish v then "" else string_of js v

-- `if (!raw) return null`, and the item that is parsed; what throws is caught as null.
abbrev pub stored_value : Json → String → Storage → Option Value
stored_value json key none = none
stored_value json key (some held) = elim (lookup key held) [
  | none ↦ none
  | some raw ↦ if is_empty raw then none else json.parse raw
]

abbrev pub read_fields : Coercion → Value → String → Option Fields → Option LiveAnswerInput
read_fields js room identity none = none
read_fields js room identity (some fs) =
    if not (str_eq (text_or_nothing js (get "room_id" fs)) (room_text js room))
      || not (is_text identity (get "identity" fs))
    then none
    else parse_answer (get "answer" fs)

abbrev pub read_value : Coercion → Value → String → Option Value → Option LiveAnswerInput
read_value js room identity none = none
read_value js room identity (some v) = read_fields js room identity (record_of v)

abbrev pub items_of : List Number → Items
items_of [] = nil
items_of (n ∷ ns) = cons (num n) (items_of ns)

abbrev pub response_fields : AnswerResponse → Fields
response_fields (selected_option_indexes indexes) =
    field "selected_option_indexes" (arr (items_of indexes)) end
response_fields (AnswerResponse.text s) = field "text" (str s) end

-- What is undefined is left out.
abbrev pub with_request : Option String → Fields → Fields
with_request none fs = fs
with_request (some id) fs = field "request_id" (str id) fs

abbrev pub answer_value : LiveAnswerInput → Value
answer_value a = obj (
    with_request a.request_id (
      field "activity_item_id" a.activity_item_id
        (field "response" (obj (response_fields a.response)) end)))

abbrev remove : String → Storage → Storage
remove key none = none
remove key (some held) = some (delete key held)

abbrev draft_selection : Option (List Number) → Option ParticipantAnswerDraft
draft_selection none = none
draft_selection (some indexes) = some (selected_indexes indexes)

abbrev draft_text : Value → Option ParticipantAnswerDraft
draft_text (str s) = some (written s)
draft_text v = none

abbrev draft_parts : Value → Value → Option ParticipantAnswerDraft
draft_parts (arr indexes) answer = draft_selection (parse_indexes (items indexes))
draft_parts other answer = draft_text answer

abbrev draft_fields : Option Fields → Option ParticipantAnswerDraft
draft_fields none = none
draft_fields (some fs) = draft_parts (get "selectedIndexes" fs) (get "text" fs)

abbrev pub draft_of : Option Value → Option ParticipantAnswerDraft
draft_of none = none
draft_of (some v) = draft_fields (record_of v)

abbrev pub draft_value : ParticipantAnswerDraft → Value
draft_value (selected_indexes indexes) = obj (field "selectedIndexes" (arr (items_of indexes)) end)
draft_value (written s) = obj (field "text" (str s) end)

abbrev pub pending_payload : Coercion → Value → String → LiveAnswerInput → Value
pending_payload js room identity answer = obj (
    field "room_id" (str (room_text js room))
      (field "identity" (str identity) (field "answer" (answer_value answer) end)))

abbrev put : Json → String → Value → Storage → Storage
put json key value none = none
put json key value (some held) = some (insert key (json.stringify value) held)

unfoldable pub clear_pending_answer : Coercion → Value → String → Storage → Storage
unfolding storage_key
clear_pending_answer js room identity storage = remove (storage_key js room identity) storage

unfoldable pub clear_answer_draft : Coercion → Value → String → Storage → Storage
unfolding draft_storage_key
clear_answer_draft js room identity storage = remove (draft_storage_key js room identity) storage

module _ (js : Coercion) (json : Json) where
  unfoldable pub read_pending_answer : Value → String → Storage → Option LiveAnswerInput
  unfolding storage_key get parse_answer lookup
  read_pending_answer room identity storage =
      read_value js room identity (stored_value json (storage_key js room identity) storage)

  unfoldable pub save_pending_answer : Value → String → LiveAnswerInput → Storage → Storage
  unfolding storage_key
  save_pending_answer room identity answer storage =
      put json (storage_key js room identity) (pending_payload js room identity answer) storage

  unfoldable pub read_answer_draft : Value → String → Storage → Option ParticipantAnswerDraft
  unfolding draft_storage_key get lookup
  read_answer_draft room identity storage =
      draft_of (stored_value json (draft_storage_key js room identity) storage)

  unfoldable pub save_answer_draft : Value → String → ParticipantAnswerDraft → Storage → Storage
  unfolding draft_storage_key
  save_answer_draft room identity draft storage =
      put json (draft_storage_key js room identity) (draft_value draft) storage
