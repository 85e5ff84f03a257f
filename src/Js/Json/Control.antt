-- ===== src/Js/Json/Control.antt =====
-- The text of `JSON.stringify` holds no control unit, so it is one line whatever the value holds.
use dms_bitwarden_cli.Common.{
  ℕ, zero, suc, ◌/◌, ◌%◌, ◌≤◌, inl, inr, Bool, true, false, ◌&&◌, List, [], ◌∷◌, ◌++◌, arith, ltb,
  Bool-cases, All, All-append, pos, negsuc, Str,
}
use dms_bitwarden_cli.Js.Numbers.{Number, nan, infinite, fin, decimal, number_to_string}
use dms_bitwarden_cli.Js.Values.{
  Value, undefined, null, boolean, number, string, array, object, Items, nil, cons, Fields, end,
  field,
}
use dms_bitwarden_cli.Js.Numbers.{decimal_from, digit_codes, complement}
use dms_bitwarden_cli.Js.Json.{
  hex_digit, hex4, unicode_escape, quote_unit, quote_single, quote_body, quote, number_json,
  stringify, stringify_items, stringify_fields, is_high, is_low, separated, is_defined,
}

-- No unit below U+0020: no line break, no NUL.
abbrev pub Printable : Str → Type 0
Printable = All (λ c. 32 ≤ c)

pub Printable-append : (s t : Str) → Printable s → Printable t → Printable (s ++ t)
Printable-append = All-append (λ c. 32 ≤ c)

hex_digit-le : (n : ℕ) → 32 ≤ hex_digit n
unfolding hex_digit
hex_digit-le n = ground arith

unicode_escape-Printable : (c : ℕ) → Printable (unicode_escape c)
unfolding unicode_escape hex4
unicode_escape-Printable c = ground (
  arith,
  hex_digit-le (c / 4096 % 16),
  hex_digit-le (c / 256 % 16),
  hex_digit-le (c / 16 % 16),
  hex_digit-le (c % 16),
)

quote_unit-Printable : (c : ℕ) → Printable (quote_unit c)
unfolding quote_unit
quote_unit-Printable c = ground (arith, unicode_escape-Printable c)

quote_single-Printable : (c : ℕ) → Printable (quote_single c)
unfolding quote_single
quote_single-Printable c = ground (arith, unicode_escape-Printable c, quote_unit-Printable c)

quote_body-Printable : (s : Str) → Printable (quote_body s)
unfolding quote_body
quote_body-Printable [] = tt
quote_body-Printable (c ∷ []) = quote_single-Printable c
quote_body-Printable (c ∷ d ∷ s) = elim (Bool-cases (is_high c && is_low d)) [
  | inl e ↦ rw e (ground arith, (ground arith, quote_body-Printable s))
  | inr e ↦ rw e (
      Printable-append (quote_single c) _ (quote_single-Printable c) (quote_body-Printable (d ∷ s)))
]

quote-Printable : (s : Str) → Printable (quote s)
unfolding quote
quote-Printable s =
    (omega arith, Printable-append (quote_body s) _ (quote_body-Printable s) (omega arith))

pub decimal_from-Printable : (f n : ℕ) → Printable (decimal_from f n)
unfolding decimal_from
decimal_from-Printable zero n = tt
decimal_from-Printable (suc f) n = elim (Bool-cases (ltb n 10)) [
  | inl e ↦ rw e (omega arith)
  | inr e ↦ rw e (
      Printable-append (decimal_from f (n / 10)) _ (decimal_from-Printable f (n / 10))
        (omega arith))
]

pub decimal-Printable : (n : ℕ) → Printable (decimal n)
unfolding decimal
decimal-Printable n = decimal_from-Printable (suc n) n

digit_codes-Printable : (ds : List ℕ) → Printable (digit_codes ds)
unfolding digit_codes
digit_codes-Printable [] = tt
digit_codes-Printable (d ∷ ds) = (omega arith, digit_codes-Printable ds)

pub number_to_string-Printable : (n : Number) → Printable (number_to_string n)
unfolding number_to_string
number_to_string-Printable nan = omega arith
number_to_string-Printable (infinite true) = omega arith
number_to_string-Printable (infinite false) = omega arith
number_to_string-Printable (fin (pos n) []) = decimal-Printable n
number_to_string-Printable (fin (pos n) (d ∷ ds)) =
    Printable-append (decimal n) _ (decimal-Printable n)
      (omega arith, digit_codes-Printable (d ∷ ds))
number_to_string-Printable (fin (negsuc n) []) = (omega arith, decimal-Printable (suc n))
number_to_string-Printable (fin (negsuc n) (d ∷ ds)) = (
  omega arith,
  Printable-append (decimal n) _ (decimal-Printable n)
      (omega arith, digit_codes-Printable (complement (d ∷ ds))),
)

number_json-Printable : (n : Number) → Printable (number_json n)
unfolding number_json
number_json-Printable nan = omega arith
number_json-Printable (infinite s) = omega arith
number_json-Printable (fin z ds) = number_to_string-Printable (fin z ds)

separated-Printable : (b : Bool) (s : Str) → Printable s → Printable (separated b s)
separated-Printable true s h = (omega arith, h)
separated-Printable false s h = h

mutual
  unfolding stringify stringify_items stringify_fields

  value-Printable : (v : Value) → Printable (stringify v)
  value-Printable undefined = omega arith
  value-Printable null = omega arith
  value-Printable (boolean true) = omega arith
  value-Printable (boolean false) = omega arith
  value-Printable (number n) = number_json-Printable n
  value-Printable (string s) = quote-Printable s
  value-Printable (array vs) = (
    omega arith,
    Printable-append (stringify_items vs false) _ (items-Printable vs false) (omega arith),
  )
  value-Printable (object fs) = (
    omega arith,
    Printable-append (stringify_fields fs false) _ (fields-Printable fs false) (omega arith),
  )

  items-Printable : (vs : Items) (more : Bool) → Printable (stringify_items vs more)
  items-Printable nil more = tt
  items-Printable (cons v vs) more =
      Printable-append (separated more (stringify v)) _
        (separated-Printable more (stringify v) (value-Printable v)) (items-Printable vs true)

  fields-Printable : (fs : Fields) (more : Bool) → Printable (stringify_fields fs more)
  fields-Printable end more = tt
  fields-Printable (field k v fs) more = elim (Bool-cases (is_defined v)) [
    | inl e ↦ rw e (
        Printable-append (separated more (quote k ++ b':' ∷ stringify v)) _
          (separated-Printable more _
            (Printable-append (quote k) _ (quote-Printable k) (omega arith, value-Printable v)))
          (fields-Printable fs true))
    | inr e ↦ rw e (fields-Printable fs more)
  ]

-- `JSON.stringify` writes no unit below U+0020, whatever the value holds.
pub stringify-Printable : (v : Value) → Printable (stringify v)
stringify-Printable v = value-Printable v
