-- ===== src/Live/Participant/Storage/Laws.antt =====
-- What is read back, for apps/web/src/modules/live/participant/pendingAnswerStorage.ts.
use pro_slides_go.Js.TextMap.{insert, lookup-insert}
use pro_slides_go.Base.{
  false, ◌≡◌, some, String, refl, ap, List, [], ◌∷◌, map, arith, any, inl, inr, ◌&&◌, none, str_eq,
  if◌then◌else◌, Bool-cases,
}
use pro_slides_go.Js.Value.{Value, str, items, get, Coercion}
use pro_slides_go.Live.Participant.Storage.{
  Json, is_no_index, to_num, parse_indexes, items_of, parse_response, parse_answer, response_fields,
  answer_value, room_text, storage_key, stored_value, read_value, pending_payload,
  read_pending_answer, save_pending_answer,
}
use pro_slides_go.Js.Text.{is_empty}
use pro_slides_go.Live.Runtime.Answer.{
  LiveAnswerInput, is_bad_index, is_refused, selected_option_indexes, AnswerResponse,
}
use pro_slides_go.Js.Number.{Number}

-- `JSON` reads this value back from its text, which is not empty.
pub record Keeps (json : Json) (v : Value) : Type 0 where
  pub back : json.parse (json.stringify v) ≡ some v
  pub something : is_empty (json.stringify v) ≡ false

-- An answer that is not refused before it is sent, under an id and for an item of texts.
pub record IsStorable (a : LiveAnswerInput) : Type 0 where
  pub request : String
  pub asked : a.request_id ≡ some request
  pub item : String
  pub named : a.activity_item_id ≡ str item
  pub sendable : is_refused a.response ≡ false

same_test : (ns : List Number) → any is_no_index (items (items_of ns)) ≡ any is_bad_index ns
same_test [] = refl
same_test (n ∷ ns) = ground (arith, same_test ns)

same_numbers : (ns : List Number) → map to_num (items (items_of ns)) ≡ ns
same_numbers [] = refl
same_numbers (n ∷ ns) = ap (◌∷◌ n) (same_numbers ns)

indexes_back :
    (ns : List Number)
    → is_refused (selected_option_indexes ns) ≡ false
    → parse_indexes (items (items_of ns)) ≡ some ns
unfolding is_refused
indexes_back [] h = cc
indexes_back (n ∷ ns) h = ground (arith, h, same_test (n ∷ ns), ap some (same_numbers (n ∷ ns)))

response_back :
    (response : AnswerResponse)
    → is_refused response ≡ false
    → parse_response
        (get "selected_option_indexes" (response_fields response))
        (get "text" (response_fields response))
      ≡ some response
unfolding get is_refused
response_back (selected_option_indexes ns) h = rw (indexes_back ns h) refl
response_back (AnswerResponse.text s) h = rw h refl

answer_back : (a : LiveAnswerInput) → IsStorable a → parse_answer (answer_value a) ≡ some a
unfolding parse_answer get
answer_back a h = rw h.asked (rw h.named (rw (response_back a.response h.sendable) refl))

read_payload :
    (js : Coercion) (room room' : Value) (identity identity' : String) (a : LiveAnswerInput)
    → IsStorable a
    → read_value js room' identity' (some (pending_payload js room identity a)) ≡ (
        if str_eq (room_text js room) (room_text js room') && str_eq identity identity'
        then some a
        else none)
unfolding get
read_payload js room room' identity identity' a h =
    elim (Bool-cases (str_eq (room_text js room) (room_text js room'))) [
      | inl e ↦ elim (Bool-cases (str_eq identity identity')) [
        | inl f ↦ rw e (rw f (answer_back a h))
        | inr f ↦ rw e (rw f refl)
      ]
      | inr e ↦ rw e refl
    ]

-- What a later reading finds where `raw` was stored under `key`.
found_after :
    (json : Json) (key key' : String) (v : Value) (held : List (String × String))
    → Keeps json v
    → stored_value json key' (some (insert key (json.stringify v) held))
      ≡ (if str_eq key key' then some v else stored_value json key' (some held))
found_after json key key' v held k = elim (Bool-cases (str_eq key key')) [
  | inl e ↦ ground (arith, e, lookup-insert key key' (json.stringify v) held, k.back, k.something)
  | inr e ↦ ground (arith, e, lookup-insert key key' (json.stringify v) held)
]

-- After an answer is saved for a question of a room, a reading for the same question and room gives
-- it back, one whose key is the same for another question or room gives nothing, and any other
-- reading gives what it gave before; for an answer that is sent under an id and for an item, and
-- where `JSON` reads its own text back.
pub read_pending_answer-save :
    (js : Coercion) (json : Json) (room room' : Value) (identity identity' : String)
    (a : LiveAnswerInput) (held : List (String × String))
    → IsStorable a
    → Keeps json (pending_payload js room identity a)
    → read_pending_answer js json room' identity'
        (save_pending_answer js json room identity a (some held))
      ≡ (if str_eq (storage_key js room identity) (storage_key js room' identity')
          then (if str_eq (room_text js room) (room_text js room') && str_eq identity identity'
              then some a
              else none)
          else read_pending_answer js json room' identity' (some held))
unfolding read_pending_answer save_pending_answer
read_pending_answer-save js json room room' identity identity' a held h k =
    let key = storage_key js room identity in
    let key' = storage_key js room' identity' in
    elim (Bool-cases (str_eq key key')) [
      | inl e ↦
          rw (found_after json key key' (pending_payload js room identity a) held k)
            (rw e (read_payload js room room' identity identity' a h))
      | inr e ↦
          rw (found_after json key key' (pending_payload js room identity a) held k) (rw e refl)
    ]
