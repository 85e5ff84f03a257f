-- ===== src/Js/Json.antt =====
-- `JSON.stringify` of a dynamic value, in its well-formed variant: lone surrogates are escaped.
pub mod Control
use dms_bitwarden_cli.Common.{
  ℕ, ◌+◌, ◌-◌, ◌/◌, ◌%◌, Bool, true, false, ◌&&◌, ◌||◌, [], ◌∷◌, ◌++◌, ltb, leb, ◌==◌,
  if◌then◌else◌, Str, codes,
}
use dms_bitwarden_cli.Js.Numbers.{Number, is_finite, number_to_string}
use dms_bitwarden_cli.Js.Values.{
  Value, undefined, null, boolean, number, string, array, object, Items, nil, cons, Fields, end,
  field,
}

unfoldable pub hex_digit : ℕ → ℕ
hex_digit n = if ltb n 10 then b'0' + n else b'a' + (n - 10)

-- Four lower-case hexadecimal digits of a code unit.
unfoldable pub hex4 : ℕ → Str
hex4 c =
    hex_digit (c / 4096 % 16)
    ∷ hex_digit (c / 256 % 16)
    ∷ hex_digit (c / 16 % 16)
    ∷ hex_digit (c % 16)
    ∷ []

unfoldable pub unicode_escape : ℕ → Str
unicode_escape c = 92 ∷ b'u' ∷ hex4 c

-- A unit that is no surrogate, inside quotes.
unfoldable pub quote_unit : ℕ → Str
quote_unit c =
    if c == 34
    then 92 ∷ 34 ∷ []
    else if c == 92
    then 92 ∷ 92 ∷ []
    else if c == 8
    then 92 ∷ b'b' ∷ []
    else if c == 9
    then 92 ∷ b't' ∷ []
    else if c == 10
    then 92 ∷ b'n' ∷ []
    else if c == 12
    then 92 ∷ b'f' ∷ []
    else if c == 13
    then 92 ∷ b'r' ∷ []
    else if ltb c 32
    then unicode_escape c
    else c ∷ []

abbrev pub is_high : ℕ → Bool
is_high c = leb 0xd800 c && leb c 0xdbff

abbrev pub is_low : ℕ → Bool
is_low c = leb 0xdc00 c && leb c 0xdfff

-- A unit on its own: a lone surrogate is escaped.
unfoldable pub quote_single : ℕ → Str
quote_single c = if is_high c || is_low c then unicode_escape c else quote_unit c

unfoldable pub quote_body : Str → Str
quote_body [] = []
quote_body (c ∷ []) = quote_single c
quote_body (c ∷ d ∷ s) =
    let pair = c ∷ d ∷ quote_body s in
    let single = quote_single c ++ quote_body (d ∷ s) in
    if is_high c && is_low d then pair else single

unfoldable pub quote : Str → Str
quote s = 34 ∷ (quote_body s ++ 34 ∷ [])

unfoldable pub number_json : Number → Str
number_json n = if is_finite n then number_to_string n else codes "null"

-- `has_text` tells whether a value is written at all: an undefined property is left out.
abbrev pub is_defined : Value → Bool
is_defined undefined = false
is_defined _ = true

abbrev pub separated : Bool → Str → Str
separated true s = b',' ∷ s
separated false s = s

unfoldable mutual
  pub stringify : Value → Str
  stringify undefined = codes "null"
  stringify null = codes "null"
  stringify (boolean true) = codes "true"
  stringify (boolean false) = codes "false"
  stringify (number n) = number_json n
  stringify (string s) = quote s
  stringify (array vs) = 91 ∷ (stringify_items vs false ++ 93 ∷ [])
  stringify (object fs) = 123 ∷ (stringify_fields fs false ++ 125 ∷ [])

  pub stringify_items : Items → Bool → Str
  stringify_items nil more = []
  stringify_items (cons v vs) more = separated more (stringify v) ++ stringify_items vs true

  pub stringify_fields : Fields → Bool → Str
  stringify_fields end more = []
  stringify_fields (field k v fs) more =
      if is_defined v
      then separated more (quote k ++ b':' ∷ stringify v) ++ stringify_fields fs true
      else stringify_fields fs more
