-- ===== src/Examples/Otp.antt =====
-- One-time codes on concrete data.
use dms_bitwarden_cli.Common.{◌/◌, ◌≡◌, refl, [], ◌∷◌, codes, some, none, Str, ◌++◌}
use dms_bitwarden_cli.Js.Numbers.{nat}
use dms_bitwarden_cli.Js.Values.{string}
use dms_bitwarden_cli.Totp.{Params, sha1, sha256, decode_base32}
use dms_bitwarden_cli.Totp.Codes.{IsCode}
use dms_bitwarden_cli.Totp.Derive.{derive_otp}
use dms_bitwarden_cli.Totp.Otpauth.{parse_key, form_decode}
use dms_bitwarden_cli.Totp.Generated.{IsUsable, generate, generate-IsCode}

-- The secret of RFC 6238, in base32.
abbrev rfc_secret : Str
rfc_secret = codes "GEZDGNBVGY3TQOJQGEZDGNBVGY3TQOJQ"

abbrev rfc_key : Str
rfc_key = codes "otpauth://totp/rfc?digits=8&secret=" ++ rfc_secret

abbrev rfc_params : Params
rfc_params = record {
  algorithm = sha1;
  digits = 8;
  period = 30;
  secret = codes "12345678901234567890";
}

rfc_key_read : parse_key (string rfc_key) ≡ some rfc_params
unfolding parse_key
rfc_key_read = refl

generate-IsCode_example :
    (generate (string rfc_key) (nat 59000)
      ≡ some (record { code = derive_otp rfc_params (59000 / 1000 / 30); period = 30 }))
    × IsCode sha1 8 (derive_otp rfc_params (59000 / 1000 / 30))
    × IsUsable rfc_params
generate-IsCode_example = generate-IsCode (string rfc_key) rfc_params 59000 rfc_key_read

-- The codes of RFC 6238 at 59 s.
rfc_code :
    generate (string rfc_key) (nat 59000) ≡ some (record { code = codes "94287082"; period = 30 })
unfolding generate
rfc_code = refl

rfc_code_sha256 :
    derive_otp
      (record {
        algorithm = sha256;
        digits = 8;
        period = 30;
        secret = codes "12345678901234567890123456789012";
      })
      1
    ≡ codes "46119246"
unfolding derive_otp
rfc_code_sha256 = refl

-- "foo" in base32, with a blank inside.
foo_decoded : decode_base32 (codes "mzxw 6===") ≡ 102 ∷ 111 ∷ 111 ∷ []
unfolding decode_base32
foo_decoded = refl

-- Percent signs and UTF-8.
form_decoded :
    form_decode (codes "a+%c3%bc%F0%9F%98%80") ≡ some (97 ∷ 32 ∷ 252 ∷ 0xd83d ∷ 0xde00 ∷ [])
unfolding form_decode
form_decoded = refl

form_refused : form_decode (codes "%c0%80") ≡ none
unfolding form_decode
form_refused = refl
