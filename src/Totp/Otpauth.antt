-- ===== src/Totp/Otpauth.antt =====
-- The reader of keys (TotpModel.js, `parseKey`, `parseOtpauth` and `formDecode`). `decodeURIComponent`
-- is written out as the ECMAScript standard has it; `none` is the URIError that it throws.
use dms_bitwarden_cli.Common.{
  lower_ascii, ℕ, zero, suc, ◌+◌, ◌*◌, ◌-◌, ◌/◌, ◌%◌, min, max, Bool, false, not, ◌&&◌, ◌||◌,
  Option, none, some, List, [], ◌∷◌, ◌++◌, map, ltb, leb, ◌==◌, if◌then◌else◌, drop, is_empty, any,
  all, Str, codes, ◌===◌, is_space, starts_with, split, is_digit, is_lower_alnum,
}
use dms_bitwarden_cli.Js.Values.{Value, string?}
use dms_bitwarden_cli.Totp.{Algorithm, sha1, sha256, steam, Params, decode_base32, parse_u32}

abbrev pub default_digits : ℕ
default_digits = 6

abbrev pub default_period : ℕ
default_period = 30

unfoldable pub hex_value : ℕ → Option ℕ
unfolding is_digit
hex_value c =
    if is_digit c
    then some (c - b'0')
    else if leb b'a' c && leb c b'f'
    then some (c - b'a' + 10)
    else if leb b'A' c && leb c b'F'
    then some (c - b'A' + 10)
    else none

-- A unit on its own, or the byte of a `%XX`.
pub data Token : Type 0 where
  unit byte : ℕ → Token

abbrev add_token : Token → Option (List Token) → Option (List Token)
add_token t none = none
add_token t (some ts) = some (t ∷ ts)

abbrev hex_byte : Option ℕ → Option ℕ → Option Token
hex_byte (some high) (some low) = some (byte (high * 16 + low))
hex_byte _ _ = none

abbrev add_byte : Option Token → Option (List Token) → Option (List Token)
add_byte none ts = none
add_byte (some t) ts = add_token t ts

unfoldable pub tokens : Str → Option (List Token)
unfolding hex_value
tokens [] = some []
tokens (c ∷ []) = if c == b'%' then none else some (unit c ∷ [])
tokens (c ∷ d ∷ []) =
    let rest = tokens (d ∷ []) in if c == b'%' then none else add_token (unit c) rest
tokens (c ∷ d ∷ e ∷ s) =
    let after = add_byte (hex_byte (hex_value d) (hex_value e)) (tokens s) in
    let rest = add_token (unit c) (tokens (d ∷ e ∷ s)) in if c == b'%' then after else rest

unfoldable pub utf16 : ℕ → Str
utf16 v =
    if ltb v 0x10000
    then v ∷ []
    else (0xd800 + (v - 0x10000) / 1024) ∷ (0xdc00 + (v - 0x10000) % 1024) ∷ []

abbrev is_scalar : ℕ → ℕ → Bool
is_scalar least v = leb least v && leb v 0x10ffff && not (leb 0xd800 v && leb v 0xdfff)

abbrev prepend : Str → Option Str → Option Str
prepend units none = none
prepend units (some s) = some (units ++ s)

-- The UTF-8 decoder: `wanted` bytes are still to come of a character of which `v` is read, and which
-- is at least `least`.
unfoldable pub utf8 : ℕ → ℕ → ℕ → List Token → Option Str
unfolding utf16
utf8 zero v least [] = some []
utf8 (suc wanted) v least [] = none
utf8 zero v least (unit c ∷ ts) = prepend (c ∷ []) (utf8 0 0 0 ts)
utf8 (suc wanted) v least (unit c ∷ ts) = none
utf8 zero v least (byte b ∷ ts) =
    let plain = prepend (b ∷ []) (utf8 0 0 0 ts) in
    let two = utf8 1 (b % 32) 0x80 ts in
    let three = utf8 2 (b % 16) 0x800 ts in
    let four = utf8 3 (b % 8) 0x10000 ts in
    if ltb b 0x80
    then plain
    else if ltb b 0xc0
    then none
    else if ltb b 0xe0
    then two
    else if ltb b 0xf0
    then three
    else if ltb b 0xf8
    then four
    else none
utf8 (suc wanted) v least (byte b ∷ ts) =
    let next = v * 64 + b % 64 in
    let more = utf8 wanted next least ts in
    let whole = prepend (utf16 next) (utf8 0 0 0 ts) in
    if not (b / 64 == 2)
    then none
    else if not (wanted == 0)
    then more
    else if is_scalar least next
    then whole
    else none

unfoldable pub decode_uri_component : Str → Option Str
unfolding tokens utf8
decode_uri_component s = elim (tokens s) [ none ↦ none | some ts ↦ utf8 0 0 0 ts ]

unfoldable pub form_decode : Str → Option Str
unfolding decode_uri_component
form_decode s = decode_uri_component (map (λ c. if c == b'+' then b' ' else c) s)

-- The units before the first `c`, and those after it, if there is one.
unfoldable pub before : ℕ → Str → Str
before c [] = []
before c (d ∷ s) = let rest = before c s in if d == c then [] else d ∷ rest

unfoldable pub after : ℕ → Str → Str
after c [] = []
after c (d ∷ s) = let rest = after c s in if d == c then s else rest

-- The object `parts`, the pair that was set last first.
abbrev pub Parts : Type 0
Parts = List (Str × Str)

unfoldable pub part : Str → Parts → Option Str
unfolding ◌===◌
part k [] = none
part k ((j, v) ∷ parts) = let rest = part k parts in if j === k then some v else rest

abbrev pub add_part : Option Str → Option Str → Parts → Option Parts
add_part (some name) (some value) parts = some ((name, value) ∷ parts)
add_part _ _ parts = none

unfoldable pub read_pairs : List Str → Parts → Option Parts
unfolding form_decode before after
read_pairs [] parts = some parts
read_pairs (p ∷ ps) parts =
    let skipped = read_pairs ps parts in
    let set : Option Parts =
      elim (add_part (form_decode (before b'=' p)) (form_decode (after b'=' p)) parts) [
        | none ↦ none
        | some next ↦ read_pairs ps next
      ] in
    if is_empty p then skipped else set

abbrev pub is_authority_unit : ℕ → Bool
is_authority_unit c = is_lower_alnum c || c == b'.' || c == b'_' || c == b'~' || c == b'-'

abbrev pub is_blank_unit : ℕ → Bool
is_blank_unit c = is_space c || ltb c 32 || c == 127

abbrev pub says : Str → Option Str → Bool
says s none = false
says s (some t) = t === s

abbrev pub digit_count : Option ℕ → ℕ
digit_count none = default_digits
digit_count (some n) = min n 10

abbrev pub period_of : Option ℕ → ℕ
period_of none = default_period
period_of (some n) = max n 1

unfoldable pub otpauth_params : Parts → Option Params
unfolding part parse_u32 decode_base32 ◌===◌
otpauth_params parts = elim (part (codes "secret") parts) [
  | none ↦ none
  | some secret ↦
      let algorithm = part (codes "algorithm") parts in
      let digits = digit_count (parse_u32 (part (codes "digits") parts)) in
      if says (codes "sha512") algorithm
      then none
      else if ltb digits 1 || ltb 9 digits
      then none
      else some (record {
        algorithm = if says (codes "sha256") algorithm then sha256 else sha1;
        digits = digits;
        period = period_of (parse_u32 (part (codes "period") parts));
        secret = decode_base32 secret;
      })
]

unfoldable pub parse_otpauth : Str → Option Params
unfolding before after read_pairs otpauth_params split all any is_space is_lower_alnum
parse_otpauth k =
    let rest = before b'#' (drop 10 k) in
    let authority = before b'/' (before b'?' rest) in
    if not (all is_authority_unit authority) || any is_blank_unit rest
    then none
    else elim (read_pairs (split b'&' (after b'?' rest)) []) [
      | none ↦ none
      | some parts ↦ otpauth_params parts
    ]

unfoldable pub plain_params : Algorithm → ℕ → Str → Params
unfolding decode_base32
plain_params algorithm digits text = record {
  algorithm = algorithm;
  digits = digits;
  period = default_period;
  secret = decode_base32 text;
}

unfoldable pub parse_text : Str → Option Params
unfolding parse_otpauth starts_with decode_base32 any
parse_text key =
    let k = lower_ascii key in
    if is_empty key || any (λ c. ltb 127 c) key
    then none
    else if starts_with (codes "otpauth://") k
    then parse_otpauth k
    else if starts_with (codes "steam://") k
    then some (plain_params steam 5 (drop 8 k))
    else some (plain_params sha1 default_digits k)

unfoldable pub parse_key : Value → Option Params
unfolding parse_text
parse_key key = elim (string? key) [ none ↦ none | some text ↦ parse_text text ]
