-- ===== src/Totp/Generated.antt =====
-- The code of a key at a time (TotpModel.js, `generate`), and what it is.
use dms_bitwarden_cli.Common.{
  lower_ascii, ℕ, ◌-◌, ◌/◌, ◌≤◌, ◌≡◌, refl, inl, inr, Bool, true, false, ◌||◌, Option, none, some,
  arith, ltb, Bool-cases, Option-cases, pos, negsuc, Str, codes, if◌then◌else◌, is_empty, any,
  starts_with, drop, split, all, not, [],
}
use dms_bitwarden_cli.Js.Numbers.{Number, nan, infinite, fin, nat}
use dms_bitwarden_cli.Js.Values.{Value, string?}
use dms_bitwarden_cli.Totp.{Algorithm, sha1, steam, Params, counter_bytes, parse_u32}
use dms_bitwarden_cli.Totp.Codes.{IsCode, otp_of_hash-IsCode}
use dms_bitwarden_cli.Totp.Derive.{hmac, hash_of, derive_otp}
use dms_bitwarden_cli.Totp.Otpauth.{
  Parts, part, read_pairs, otpauth_params, parse_otpauth, parse_text, parse_key, says, digit_count,
  period_of, plain_params, before, after, is_authority_unit, is_blank_unit,
}
use mathlib.Core.Path.{subst}

-- `Math.floor(Math.floor(nowMs / 1000) / period)`, if it is finite and not negative.
unfoldable pub counter_at : Number → ℕ → Option ℕ
counter_at nan period = none
counter_at (infinite s) period = none
counter_at (fin (negsuc n) ds) period = none
counter_at (fin (pos n) ds) period = some (n / 1000 / period)

pub record Code : Type 0 where
  pub code : Str
  pub period : ℕ

unfoldable pub code_at : Params → Option ℕ → Option Code
unfolding derive_otp
code_at params none = none
code_at params (some counter) =
    some (record { code = derive_otp params counter; period = params.period })

-- `nowMs` is the number that `Number(nowMs)` gives.
unfoldable pub generate : Value → Number → Option Code
unfolding parse_key counter_at code_at
generate key now = elim (parse_key key) [
  | none ↦ none
  | some params ↦ code_at params (counter_at now params.period)
]

-- What `deriveOtp` relies on.
pub record IsUsable (params : Params) : Type 0 where
  pub one_digit : 1 ≤ params.digits
  pub nine_digits : params.digits ≤ 9
  pub one_second : 1 ≤ params.period

-- A result that, if there is one, is usable.
abbrev pub MayBe : Option Params → Type 0
MayBe none = Unit
MayBe (some params) = IsUsable params

period_of-le : (n : Option ℕ) → 1 ≤ period_of n
period_of-le none = omega arith
period_of-le (some n) = omega arith

MayBe-if : (b : Bool) (r : Option Params) → MayBe r → MayBe (if b then none else r)
MayBe-if true r h = tt
MayBe-if false r h = h

otpauth_params-IsUsable : (parts : Parts) → MayBe (otpauth_params parts)
unfolding otpauth_params
otpauth_params-IsUsable parts = elim (Option-cases (part (codes "secret") parts)) [
  | inl e ↦ rw (otpauth_params, e) tt
  | inr (secret, e) ↦
      let algorithm = part (codes "algorithm") parts in
      let digits = digit_count (parse_u32 (part (codes "digits") parts)) in
      rw (otpauth_params, e)
        (MayBe-if (says (codes "sha512") algorithm) _
          (elim (Bool-cases (ltb digits 1 || ltb 9 digits)) [
            | inl bad ↦ rw bad tt
            | inr good ↦ rw good (record {
              one_digit = ground (arith, good);
              nine_digits = ground (arith, good);
              one_second = period_of-le (parse_u32 (part (codes "period") parts));
            })
          ]))
]

parse_otpauth-IsUsable : (k : Str) → MayBe (parse_otpauth k)
unfolding parse_otpauth
parse_otpauth-IsUsable k =
    let rest = before b'#' (drop 10 k) in
    let authority = before b'/' (before b'?' rest) in
    MayBe-if (not (all is_authority_unit authority) || any is_blank_unit rest) _
      (elim (Option-cases (read_pairs (split b'&' (after b'?' rest)) [])) [
        | inl e ↦ rw e tt
        | inr (parts, e) ↦ rw e (otpauth_params-IsUsable parts)
      ])

plain-IsUsable :
    (a : Algorithm) (d : ℕ) (text : Str) → 1 ≤ d → d ≤ 9 → IsUsable (plain_params a d text)
unfolding plain_params
plain-IsUsable a d text one nine = record {
  one_digit = one;
  nine_digits = nine;
  one_second = omega arith;
}

parse_text-IsUsable : (key : Str) → MayBe (parse_text key)
unfolding parse_text
parse_text-IsUsable key =
    let k = lower_ascii key in
    MayBe-if (is_empty key || any (λ c. ltb 127 c) key) _
      (elim (Bool-cases (starts_with (codes "otpauth://") k)) [
        | inl e ↦ rw e (parse_otpauth-IsUsable k)
        | inr e ↦ rw e (elim (Bool-cases (starts_with (codes "steam://") k)) [
          | inl s ↦ rw s (plain-IsUsable steam 5 (drop 8 k) (omega arith) (omega arith))
          | inr s ↦ rw s (plain-IsUsable sha1 6 k (omega arith) (omega arith))
        ])
      ])

parse_key-MayBe : (key : Value) → MayBe (parse_key key)
unfolding parse_key
parse_key-MayBe key = elim (Option-cases (string? key)) [
  | inl e ↦ rw (parse_key, e) tt
  | inr (text, e) ↦ rw (parse_key, e) (parse_text-IsUsable text)
]

-- Every key that is read at all asks for one to nine digits and for a period of a second or more.
pub parse_key-IsUsable :
    (key : Value) (params : Params) → parse_key key ≡ some params → IsUsable params
parse_key-IsUsable key params e = subst MayBe e (parse_key-MayBe key)

derive_otp-IsCode :
    (params : Params) (counter : ℕ)
    → IsUsable params
    → IsCode params.algorithm params.digits (derive_otp params counter)
unfolding derive_otp
derive_otp-IsCode params counter u =
    otp_of_hash-IsCode params (params.digits - 1)
      (hmac (hash_of params.algorithm) params.secret (counter_bytes counter))
      (omega (arith, u.one_digit))

-- A key that is read has a code at every time from 1970 on: it is the code of the period that the
-- time lies in, it has the digits that the key asks for, one to nine, and each is a decimal digit,
-- or a unit of Steam's alphabet for a Steam key.
pub generate-IsCode :
    (key : Value) (params : Params) (ms : ℕ)
    → parse_key key ≡ some params
    → (generate key (nat ms)
        ≡ some (record {
          code = derive_otp params (ms / 1000 / params.period);
          period = params.period;
        }))
      × IsCode params.algorithm params.digits (derive_otp params (ms / 1000 / params.period))
      × IsUsable params
unfolding generate counter_at code_at
generate-IsCode key params ms e =
    let u = parse_key-IsUsable key params e in
    (rw (generate, e) refl, derive_otp-IsCode params _ u, u)
