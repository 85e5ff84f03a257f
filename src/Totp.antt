-- ===== src/Totp.antt =====
-- One-time codes (TotpModel.js): the base32 reader, the numbers of an otpauth URI, the padding of a
-- message for the hash, and the code that a hash gives. Bytes are numbers below 256.
pub mod Codes
pub mod Bytes
pub mod Words
pub mod Sha1
pub mod Sha256
pub mod Derive
pub mod Otpauth
pub mod Hashes
pub mod Generated
use dms_bitwarden_cli.Common.{
  ℕ, zero, suc, ◌+◌, ◌*◌, ◌-◌, ◌/◌, ◌%◌, ◌^◌, ◌<◌, not, ◌&&◌, ◌||◌, Option, none, some, List, [],
  ◌∷◌, ◌++◌, ltb, leb, ◌==◌, if◌then◌else◌, length, get_or, replicate, is_empty, all, Str, codes,
  is_digit,
}
use dms_bitwarden_cli.Js.Numbers.{decimal}

-- The ASCII letters of `toUpperCase` of a unit: the letters a to z, and the units beyond ASCII whose
-- upper case holds such a letter. The rest of an upper case is no base32 character.
unfoldable pub upper_unit : ℕ → Str
upper_unit c =
    if leb b'a' c && leb c b'z'
    then (c - 32) ∷ []
    else if ltb c 128
    then c ∷ []
    else if c == 0xdf
    then codes "SS"
    else if c == 0x131
    then codes "I"
    else if c == 0x149
    then codes "N"
    else if c == 0x17f
    then codes "S"
    else if c == 0x1f0
    then codes "J"
    else if leb 0x1e96 c && leb c 0x1e9a
    then (get_or (codes "HTWYA") (c - 0x1e96) 0) ∷ []
    else if leb 0xfb00 c && leb c 0xfb06
    then get_or
        (codes "FF"
          ∷ codes "FI"
          ∷ codes "FL"
          ∷ codes "FFI"
          ∷ codes "FFL"
          ∷ codes "ST"
          ∷ codes "ST"
          ∷ [])
        (c - 0xfb00) []
    else []

unfoldable pub upper : Str → Str
unfolding upper_unit
upper [] = []
upper (c ∷ s) = upper_unit c ++ upper s

-- The place of a unit in "ABCDEFGHIJKLMNOPQRSTUVWXYZ234567".
unfoldable pub base32_index : ℕ → Option ℕ
base32_index c =
    if leb b'A' c && leb c b'Z'
    then some (c - b'A')
    else if leb b'2' c && leb c b'7'
    then some (c - b'2' + 26)
    else none

-- `(buffer >>> bits) & 0xff`.
abbrev pub byte_at : ℕ → ℕ → ℕ
byte_at buffer bits = (buffer / 2 ^ bits) % 256

-- The loop of `decodeBase32`, with the buffer and its count of bits.
unfoldable pub decode_from : ℕ → ℕ → Str → List ℕ
unfolding base32_index
decode_from buffer bits [] = []
decode_from buffer bits (c ∷ s) = elim (base32_index c) [
  | none ↦ decode_from buffer bits s
  | some i ↦
      let next = (buffer * 32 + i) % 65536 in
      let more = decode_from next (bits + 5) s in
      let less = decode_from next (bits + 5 - 8) s in
      if leb 8 (bits + 5) then byte_at next (bits + 5 - 8) ∷ less else more
]

unfoldable pub decode_base32 : Str → List ℕ
unfolding decode_from upper
decode_base32 s = decode_from 0 0 (upper s)

-- The value of decimal digits.
unfoldable pub digits_number : ℕ → Str → ℕ
digits_number acc [] = acc
digits_number acc (c ∷ s) = digits_number (acc * 10 + (c - b'0')) s

abbrev drop_plus : Str → Str
drop_plus [] = []
drop_plus (c ∷ s) = if c == b'+' then s else c ∷ s

unfoldable pub parse_u32 : Option Str → Option ℕ
unfolding all is_digit digits_number
parse_u32 none = none
parse_u32 (some v) =
    let ds = drop_plus v in
    if is_empty ds || not (all is_digit ds)
    then none
    else if leb (digits_number 0 ds) 4294967295
    then some (digits_number 0 ds)
    else none

pub data Algorithm : Type 0 where
  sha1 sha256 steam : Algorithm

pub record Params : Type 0 where
  pub algorithm : Algorithm
  pub digits : ℕ
  pub period : ℕ
  pub secret : List ℕ

abbrev pub steam_chars : Str
steam_chars = codes "23456789BCDFGHJKMNPQRTVWXY"

abbrev hash_at : List ℕ → ℕ → ℕ
hash_at hash i = get_or hash i 0

-- The 31 bits that the last byte's low half points at.
unfoldable pub truncated : List ℕ → ℕ
truncated hash =
    let offset = hash_at hash (length hash - 1) % 16 in
    (hash_at hash offset % 128) * 16777216
    + hash_at hash (offset + 1) * 65536
    + hash_at hash (offset + 2) * 256
    + hash_at hash (offset + 3)

unfoldable pub steam_code : ℕ → ℕ → Str
steam_code zero full = []
steam_code (suc d) full = get_or steam_chars (full % 26) 0 ∷ steam_code d (full / 26)

-- `while (otp.length < digits) otp = "0" + otp`.
unfoldable pub pad_zeros : ℕ → Str → Str
pad_zeros digits otp = replicate (digits - length otp) b'0' ++ otp

-- The code of the 31 bits.
unfoldable pub code_of : Algorithm → ℕ → ℕ → Str
unfolding steam_code pad_zeros decimal
code_of steam digits binary = steam_code digits binary
code_of sha1 digits binary = pad_zeros digits (decimal (binary % 10 ^ digits))
code_of sha256 digits binary = pad_zeros digits (decimal (binary % 10 ^ digits))

-- The code that `deriveOtp` makes of a hash.
unfoldable pub otp_of_hash : Params → List ℕ → Str
unfolding truncated code_of
otp_of_hash params hash = code_of params.algorithm params.digits (truncated hash)

-- The eight bytes of a counter below 2 ^ 53, the highest first.
unfoldable pub counter_bytes : ℕ → List ℕ
counter_bytes n =
    (n / 72057594037927936) % 256
    ∷ (n / 281474976710656) % 256
    ∷ (n / 1099511627776) % 256
    ∷ (n / 4294967296) % 256
    ∷ (n / 16777216) % 256
    ∷ (n / 65536) % 256
    ∷ (n / 256) % 256
    ∷ n % 256
    ∷ []

-- `while (padded.length % 64 !== 56) padded.push(0)`; 63 zeros are the most that it takes.
unfoldable pub zeros_until : ℕ → ℕ → List ℕ
zeros_until zero len = []
zeros_until (suc f) len =
    let more = 0 ∷ zeros_until f (len + 1) in if len % 64 == 56 then [] else more

unfoldable pub pad_message : List ℕ → List ℕ
unfolding counter_bytes zeros_until
pad_message bytes =
    bytes ++ 0x80 ∷ [] ++ zeros_until 63 (length bytes + 1) ++ counter_bytes (length bytes * 8)
