-- ===== src/Js/Value.antt =====
-- The values of type `unknown` in the source, and the conversions that it applies to them.
use pro_slides_go.Base.{if◌then◌else◌, String, Bool, true, false, List, [], ◌∷◌, str_eq}
use pro_slides_go.Js.Number.{Number, nan, int, num_eq}
use pro_slides_go.Js.Text.{is_empty}

mutual
  pub data Value : Type 0 where
    undefined null : Value
    bool : Bool → Value
    num : Number → Value
    str : String → Value
    obj : Fields → Value
    arr : Items → Value

  pub data Fields : Type 0 where
    end : Fields
    field : String → Value → Fields → Fields

  pub data Items : Type 0 where
    cons : Value → Items → Items
    nil : Items

abbrev pub items : Items → List Value
items nil = []
items (cons v vs) = v ∷ items vs

abbrev pub entries : Fields → List (String × Value)
entries end = []
entries (field k v fs) = (k, v) ∷ entries fs

-- `record[key]`; a missing key reads as `undefined`.
unfoldable pub get : String → Fields → Value
get key end = undefined
get key (field k v fs) = if str_eq k key then v else get key fs

-- What `Number(…)` and `String(…)` do to texts and objects is the engine's: the decimal syntax of
-- numbers, and the methods `valueOf` and `toString`.
pub record Coercion : Type 0 where
  pub parse_number : String → Number
  pub object_number : Value → Number
  pub to_text : Value → String

-- `Number(value)`.
abbrev pub number_of : Coercion → Value → Number
number_of js undefined = nan
number_of js null = int 0
number_of js (bool true) = int 1
number_of js (bool false) = int 0
number_of js (num x) = x
number_of js (str s) = js.parse_number s
number_of js (arr vs) = js.object_number (arr vs)
number_of js (obj fs) = js.object_number (obj fs)

-- `Boolean(value)`.
abbrev pub truthy : Value → Bool
truthy undefined = false
truthy null = false
truthy (bool b) = b
truthy (num nan) = false
truthy (num x) = if num_eq x (int 0) then false else true
truthy (str s) = if is_empty s then false else true
truthy (arr vs) = true
truthy (obj fs) = true

-- `value == null`.
abbrev pub is_nullish : Value → Bool
is_nullish undefined = true
is_nullish null = true
is_nullish v = false
