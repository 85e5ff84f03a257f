-- ===== src/Js/Values.antt =====
-- Dynamic values: what `JSON.parse` returns, and the coercions that the source applies to them.
-- An object is the list of its own properties; of two equal keys the first counts.
use dms_bitwarden_cli.Common.{
  zero, Bool, true, false, not, Option, none, some, List, [], ◌∷◌, ◌++◌, if◌then◌else◌, is_empty,
  pos, Str, codes, ◌===◌,
}
use dms_bitwarden_cli.Js.Numbers.{
  Number, nan, infinite, fin, nat, num_eq, floor, string_to_number, number_to_string, num_or_zero,
}

mutual
  pub data Value : Type 0 where
    undefined : Value
    null : Value
    boolean : Bool → Value
    number : Number → Value
    string : Str → Value
    array : Items → Value
    object : Fields → Value

  pub data Items : Type 0 where
    nil : Items
    cons : Value → Items → Items

  pub data Fields : Type 0 where
    end : Fields
    field : Str → Value → Fields → Fields

unfoldable pub items_list : Items → List Value
items_list nil = []
items_list (cons v vs) = v ∷ items_list vs

unfoldable pub field_value : Str → Fields → Value
unfolding ◌===◌
field_value k end = undefined
field_value k (field j v fs) = let rest = field_value k fs in if j === k then v else rest

-- `value[k]` where `value` is an object; any other value has no property that the source reads.
unfoldable pub prop : Str → Value → Value
unfolding field_value
prop k (object fs) = field_value k fs
prop k _ = undefined

-- Boolean(value).
unfoldable pub truthy : Value → Bool
truthy undefined = false
truthy null = false
truthy (boolean b) = b
truthy (number nan) = false
truthy (number (infinite s)) = true
truthy (number (fin (pos zero) [])) = false
truthy (number (fin z ds)) = true
truthy (string s) = not (is_empty s)
truthy (array vs) = true
truthy (object fs) = true

-- `typeof v === "object"` of a truthy value.
abbrev pub is_object_like : Value → Bool
is_object_like (array vs) = true
is_object_like (object fs) = true
is_object_like _ = false

-- An object that is no array.
abbrev pub is_plain_object : Value → Bool
is_plain_object (object fs) = true
is_plain_object _ = false

abbrev pub is_true : Value → Bool
is_true (boolean b) = b
is_true _ = false

-- The text of a value of type string.
abbrev pub string? : Value → Option Str
string? (string s) = some s
string? _ = none

-- `a === b`. Objects compare by identity, and two parsed values never share one.
unfoldable pub strict_eq : Value → Value → Bool
unfolding num_eq ◌===◌
strict_eq undefined undefined = true
strict_eq null null = true
strict_eq (boolean true) (boolean b) = b
strict_eq (boolean false) (boolean b) = not b
strict_eq (number n) (number m) = num_eq n m
strict_eq (string s) (string t) = s === t
strict_eq _ _ = false

-- String(value). An array joins its elements by commas, with "" for undefined and null.
mutual
  unfolding number_to_string

  value_to_string : Value → Str
  value_to_string undefined = codes "undefined"
  value_to_string null = codes "null"
  value_to_string (boolean true) = codes "true"
  value_to_string (boolean false) = codes "false"
  value_to_string (number n) = number_to_string n
  value_to_string (string s) = s
  value_to_string (array vs) = items_to_string vs
  value_to_string (object fs) = codes "[object Object]"

  element_to_string : Value → Str
  element_to_string undefined = []
  element_to_string null = []
  element_to_string (boolean true) = codes "true"
  element_to_string (boolean false) = codes "false"
  element_to_string (number n) = number_to_string n
  element_to_string (string s) = s
  element_to_string (array vs) = items_to_string vs
  element_to_string (object fs) = codes "[object Object]"

  items_to_string : Items → Str
  items_to_string nil = []
  items_to_string (cons v nil) = element_to_string v
  items_to_string (cons v (cons w vs)) = element_to_string v ++ b',' ∷ items_to_string (cons w vs)

unfoldable pub to_string : Value → Str
unfolding value_to_string
to_string v = value_to_string v

-- Number(value).
unfoldable pub to_number : Value → Number
unfolding string_to_number items_to_string
to_number undefined = nan
to_number null = nat 0
to_number (boolean true) = nat 1
to_number (boolean false) = nat 0
to_number (number n) = n
to_number (string s) = string_to_number s
to_number (array vs) = string_to_number (items_to_string vs)
to_number (object fs) = nan

-- `Math.floor(Number(value)) || 0`.
unfoldable pub whole_or_zero : Value → Number
unfolding floor num_or_zero to_number
whole_or_zero v = num_or_zero (floor (to_number v))

-- `(v === undefined || v === null) ? "" : String(v)`.
unfoldable pub text_or_empty : Value → Str
unfolding to_string
text_or_empty undefined = []
text_or_empty null = []
text_or_empty v = to_string v
