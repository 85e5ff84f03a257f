-- ===== src/Totp/Derive.antt =====
-- From a secret and a counter to a code (TotpModel.js, `hmac` and `deriveOtp`).
use dms_bitwarden_cli.Common.{
  ℕ, ◌-◌, List, ◌++◌, map, ltb, if◌then◌else◌, length, replicate, Str, take,
}
use dms_bitwarden_cli.Totp.{Algorithm, sha1, sha256, steam, Params, counter_bytes, otp_of_hash}
use dms_bitwarden_cli.Totp.Sha1.{sha1_hash}
use dms_bitwarden_cli.Totp.Sha256.{sha256_hash}
use Prim.Native.Nat.{bit_xor}

-- `while (k.length < block) k.push(0)`.
abbrev pub fill_block : List ℕ → List ℕ
fill_block k = k ++ replicate (64 - length k) 0

-- The first 64 bytes of the key, each mixed with the pad.
abbrev pub mixed : ℕ → List ℕ → List ℕ
mixed pad k = map (λ b. bit_xor b pad) (take 64 k)

module _ (hash_fn : List ℕ → List ℕ) where
  unfoldable pub hmac_key : List ℕ → List ℕ
  hmac_key key = fill_block (if ltb 64 (length key) then hash_fn key else key)

  unfoldable pub hmac : List ℕ → List ℕ → List ℕ
  unfolding hmac_key
  hmac key message =
      let k = hmac_key key in hash_fn (mixed 0x5c k ++ hash_fn (mixed 0x36 k ++ message))

unfoldable pub hash_of : Algorithm → List ℕ → List ℕ
unfolding sha1_hash sha256_hash
hash_of sha256 bytes = sha256_hash bytes
hash_of sha1 bytes = sha1_hash bytes
hash_of steam bytes = sha1_hash bytes

unfoldable pub derive_otp : Params → ℕ → Str
unfolding hmac hash_of counter_bytes otp_of_hash
derive_otp params counter =
    otp_of_hash params (hmac (hash_of params.algorithm) params.secret (counter_bytes counter))
