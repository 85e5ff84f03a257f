-- ===== src/Js/Numbers.antt =====
-- JavaScript numbers, `Number(text)` and `String(number)`. A finite number is an integer and the
-- decimal digits of what is above it, with no trailing zero: -1.5 is `fin (negsuc 1) [5]`. Rounding
-- to 53 bits, and the exponent form that `String` takes from 1e21 on, are not modelled; -0 is 0.
use dms_bitwarden_cli.Common.{
  ℕ, zero, suc, ◌+◌, ◌-◌, ◌*◌, ◌/◌, ◌%◌, Bool, true, false, ◌&&◌, ◌||◌, not, Option, none, some,
  List, [], ◌∷◌, ◌++◌, map, ltb, leb, ◌==◌, if◌then◌else◌, length, take, drop, replicate, is_empty,
  ℤ, pos, negsuc, sub_ℕ, ltb_ℤ, leb_ℤ, ◌+ℤ◌, Str, codes, ◌===◌, trim, is_digit, str_lt, starts_with,
  pos_part, neg_part,
}

pub data Number : Type 0 where
  nan : Number
  infinite : (negative : Bool) → Number
  fin : ℤ → List ℕ → Number

abbrev pub int : ℤ → Number
int z = fin z []

abbrev pub nat : ℕ → Number
nat n = int (pos n)

-- `Math.floor`.
unfoldable pub floor : Number → Number
floor nan = nan
floor (infinite s) = infinite s
floor (fin z ds) = int z

-- `isFinite`.
abbrev pub is_finite : Number → Bool
is_finite nan = false
is_finite (infinite s) = false
is_finite (fin z ds) = true

abbrev eq_ℤ : ℤ → ℤ → Bool
eq_ℤ a b = leb_ℤ a b && leb_ℤ b a

-- `a === b` on numbers.
unfoldable pub num_eq : Number → Number → Bool
unfolding ◌===◌
num_eq (infinite true) (infinite true) = true
num_eq (infinite false) (infinite false) = true
num_eq (fin z ds) (fin w es) = eq_ℤ z w && ds === es
num_eq _ _ = false

-- `a < b` on numbers.
unfoldable pub num_lt : Number → Number → Bool
unfolding str_lt
num_lt nan b = false
num_lt (infinite s) nan = false
num_lt (infinite true) (infinite s) = not s
num_lt (infinite true) (fin z ds) = true
num_lt (infinite false) b = false
num_lt (fin z ds) nan = false
num_lt (fin z ds) (infinite s) = not s
num_lt (fin z ds) (fin w es) = ltb_ℤ z w || (eq_ℤ z w && str_lt ds es)

-- `n || 0`: NaN and 0 are falsy.
unfoldable pub num_or_zero : Number → Number
num_or_zero nan = nat 0
num_or_zero n = n

-- `Math.max(0, n)` of a number that is not NaN.
unfoldable pub max_zero : Number → Number
unfolding num_lt
max_zero n = if num_lt n (nat 0) then nat 0 else n

-- The decimal digits of a number, most significant first; the fuel `suc n` is enough.
unfoldable pub decimal_from : ℕ → ℕ → Str
decimal_from zero n = []
decimal_from (suc f) n =
    let rest = decimal_from f (n / 10) in
    let last = (b'0' + n % 10) ∷ [] in if ltb n 10 then last else rest ++ last

-- `String(n)` of a natural number.
unfoldable pub decimal : ℕ → Str
unfolding decimal_from
decimal n = decimal_from (suc n) n

-- 1 - 0.d₁d₂…, digit by digit.
unfoldable pub complement : List ℕ → List ℕ
complement [] = []
complement (d ∷ []) = (10 - d) ∷ []
complement (d ∷ e ∷ ds) = (9 - d) ∷ complement (e ∷ ds)

unfoldable pub digit_codes : List ℕ → Str
digit_codes ds = map (λ d. b'0' + d) ds

-- The magnitude and sign of `z + 0.ds`.
unfoldable pub number_to_string : Number → Str
unfolding decimal complement digit_codes
number_to_string nan = codes "NaN"
number_to_string (infinite s) = if s then codes "-Infinity" else codes "Infinity"
number_to_string (fin (pos n) ds) =
    if is_empty ds then decimal n else decimal n ++ b'.' ∷ digit_codes ds
number_to_string (fin (negsuc n) ds) =
    if is_empty ds
    then b'-' ∷ decimal (suc n)
    else b'-' ∷ (decimal n ++ b'.' ∷ digit_codes (complement ds))

-- The value of a run of digits.
unfoldable pub digits_value : ℕ → Str → ℕ
digits_value acc [] = acc
digits_value acc (c ∷ s) = digits_value (acc * 10 + (c - b'0')) s

-- The longest run of digits, and what follows it.
unfoldable pub span_digits : Str → Str × Str
unfolding is_digit
span_digits [] = ([], [])
span_digits (c ∷ s) =
    let (ds, rest) = span_digits s in if is_digit c then (c ∷ ds, rest) else ([], c ∷ s)

strip_zeros : List ℕ → List ℕ
strip_zeros [] = []
strip_zeros (d ∷ ds) = let rest = strip_zeros ds in if is_empty rest && d == 0 then [] else d ∷ rest

-- The number `0.digits * 10 ^ point`, `point` an integer.
scaled : Str → ℤ → Number
unfolding digits_value strip_zeros
scaled ds (pos p) =
    if leb (length ds) p
    then nat (digits_value 0 (ds ++ replicate (p - length ds) b'0'))
    else fin (pos (digits_value 0 (take p ds))) (strip_zeros (map (λ c. c - b'0') (drop p ds)))
scaled ds (negsuc p) = fin (pos 0) (strip_zeros (replicate (suc p) 0 ++ map (λ c. c - b'0') ds))

-- The exponent part, `[eE][+-]?digits` or nothing; `none` if the text is no such part.
exponent : Str → Option ℤ
unfolding span_digits digits_value
exponent [] = some (pos 0)
exponent (e ∷ s) =
    if not (e == b'e' || e == b'E')
    then none
    else let negative = starts_with (codes "-") s in
      let body = if negative || starts_with (codes "+") s then drop 1 s else s in
      let (ds, rest) = span_digits body in
      if is_empty ds || not (is_empty rest)
      then none
      else some (if negative then sub_ℕ 0 (digits_value 0 ds) else pos (digits_value 0 ds))

-- An unsigned decimal literal: digits, an optional fraction, an optional exponent.
unsigned_decimal : Str → Number
unfolding span_digits scaled exponent ◌===◌ ◌+ℤ◌
unsigned_decimal s =
    if s === codes "Infinity"
    then infinite false
    else let (whole, rest) = span_digits s in
      let dotted = starts_with (codes ".") rest in
      let (part, tail) = span_digits (drop 1 rest) in
      let fraction = if dotted then part else [] in
      let after = if dotted then tail else rest in
      if is_empty (whole ++ fraction) then nan else elim (exponent after) [
        | none ↦ nan
        | some e ↦ scaled (whole ++ fraction) (pos (length whole) +ℤ e)
      ]

unfoldable pub negate : Number → Number
unfolding complement
negate nan = nan
negate (infinite s) = infinite (not s)
negate (fin z []) = int (sub_ℕ (neg_part z) (pos_part z))
negate (fin (pos n) (d ∷ ds)) = fin (negsuc n) (complement (d ∷ ds))
negate (fin (negsuc n) (d ∷ ds)) = fin (pos n) (complement (d ∷ ds))

-- A digit of a `0x`, `0o` or `0b` literal, or the base itself if it is none.
radix_digit : ℕ → ℕ → ℕ
unfolding is_digit
radix_digit base c =
    let d =
      if is_digit c
      then c - b'0'
      else if leb b'a' c && leb c b'f'
      then c - b'a' + 10
      else if leb b'A' c && leb c b'F'
      then c - b'A' + 10
      else base in
    if ltb d base then d else base

radix_value : ℕ → ℕ → Str → Option ℕ
unfolding radix_digit
radix_value base acc [] = some acc
radix_value base acc (c ∷ s) =
    let rest = radix_value base (acc * base + radix_digit base c) s in
    if radix_digit base c == base then none else rest

radix_literal : ℕ → Str → Number
unfolding radix_value
radix_literal base [] = nan
radix_literal base (c ∷ s) = elim (radix_value base 0 (c ∷ s)) [ none ↦ nan | some n ↦ nat n ]

-- `Number(text)`: the grammar StringNumericLiteral.
unfoldable pub string_to_number : Str → Number
unfolding trim starts_with unsigned_decimal negate radix_literal
string_to_number text =
    let s = trim text in
    if is_empty s
    then nat 0
    else if starts_with (codes "0x") s || starts_with (codes "0X") s
    then radix_literal 16 (drop 2 s)
    else if starts_with (codes "0o") s || starts_with (codes "0O") s
    then radix_literal 8 (drop 2 s)
    else if starts_with (codes "0b") s || starts_with (codes "0B") s
    then radix_literal 2 (drop 2 s)
    else if starts_with (codes "-") s
    then negate (unsigned_decimal (drop 1 s))
    else if starts_with (codes "+") s
    then unsigned_decimal (drop 1 s)
    else unsigned_decimal s
