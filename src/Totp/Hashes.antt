-- ===== src/Totp/Hashes.antt =====
-- The bytes of the hashes and of an HMAC.
use dms_bitwarden_cli.Common.{
  ℕ, zero, suc, ◌^◌, ◌+◌, ◌/◌, ◌%◌, ◌-◌, ◌<◌, ◌≤◌, ◌≡◌, refl, List, [], ◌∷◌, ◌++◌, arith, length,
  All, get_or,
}
use dms_bitwarden_cli.Totp.{Algorithm, sha1, sha256, steam, truncated, pad_message}
use dms_bitwarden_cli.Totp.Words.{words_to_bytes}
use dms_bitwarden_cli.Totp.Sha1.{initial, blocks, digest, sha1_hash}
use dms_bitwarden_cli.Totp.Sha256
use dms_bitwarden_cli.Totp.Sha256.{sha256_hash}
use dms_bitwarden_cli.Totp.Derive.{hash_of, hmac_key, hmac, mixed}

-- The bytes that a hash of an algorithm has.
unfoldable pub hash_length : Algorithm → ℕ
hash_length sha256 = 32
hash_length _ = 20

words_to_bytes-bytes : (ws : List ℕ) → All (λ b. b < 256) (words_to_bytes ws)
unfolding words_to_bytes
words_to_bytes-bytes [] = tt
words_to_bytes-bytes (w ∷ ws) =
    (omega arith, (omega arith, (omega arith, (omega arith, words_to_bytes-bytes ws))))

-- A list of so many bytes.
abbrev pub IsHash : ℕ → List ℕ → Type 0
IsHash n bytes = (length bytes ≡ n) × All (λ b. b < 256) bytes

hash_of-IsHash : (a : Algorithm) (bytes : List ℕ) → IsHash (hash_length a) (hash_of a bytes)
unfolding hash_of sha1_hash sha256_hash digest Sha256.digest words_to_bytes hash_length
hash_of-IsHash sha1 bytes =
    let h = blocks (length (pad_message bytes) / 64) (pad_message bytes) 0 initial in
    (refl, words_to_bytes-bytes (h.a ∷ h.b ∷ h.c ∷ h.d ∷ h.e ∷ []))
hash_of-IsHash steam bytes =
    let h = blocks (length (pad_message bytes) / 64) (pad_message bytes) 0 initial in
    (refl, words_to_bytes-bytes (h.a ∷ h.b ∷ h.c ∷ h.d ∷ h.e ∷ []))
hash_of-IsHash sha256 bytes =
    let s = Sha256.blocks (length (pad_message bytes) / 64) (pad_message bytes) 0 Sha256.initial in
    (refl, words_to_bytes-bytes (s.a ∷ s.b ∷ s.c ∷ s.d ∷ s.e ∷ s.f ∷ s.g ∷ s.h ∷ []))

hmac-IsHash :
    (a : Algorithm) (key message : List ℕ) → IsHash (hash_length a) (hmac (hash_of a) key message)
unfolding hmac
hmac-IsHash a key message =
    let k = hmac_key (hash_of a) key in
    hash_of-IsHash a (mixed 0x5c k ++ hash_of a (mixed 0x36 k ++ message))

get_or-byte : (l : List ℕ) (i : ℕ) → All (λ b. b < 256) l → get_or l i 0 < 256
get_or-byte [] i h = omega arith
get_or-byte (b ∷ l) zero h = h.0
get_or-byte (b ∷ l) (suc i) h = get_or-byte l i h.1

-- The place in a hash that its last byte points at.
abbrev pub offset : List ℕ → ℕ
offset hash = get_or hash (length hash - 1) 0 % 16

truncated-lt : (hash : List ℕ) → All (λ b. b < 256) hash → truncated hash < 2 ^ 31
unfolding truncated
truncated-lt hash h = omega (
  arith,
  get_or-byte hash (offset hash + 1) h,
  get_or-byte hash (offset hash + 2) h,
  get_or-byte hash (offset hash + 3) h,
)

hash_length-le : (a : Algorithm) → 20 ≤ hash_length a
unfolding hash_length
hash_length-le sha1 = omega arith
hash_length-le sha256 = omega arith
hash_length-le steam = omega arith

-- Whatever the key and the message are, their HMAC has the bytes of the algorithm's hash, 20 or 32;
-- the four bytes that a code is made of all lie in it, and their number has 31 bits.
pub hmac-truncated :
    (a : Algorithm) (key message : List ℕ)
    → IsHash (hash_length a) (hmac (hash_of a) key message)
      × (offset (hmac (hash_of a) key message) + 3 < length (hmac (hash_of a) key message))
      × (truncated (hmac (hash_of a) key message) < 2 ^ 31)
hmac-truncated a key message =
    let h = hmac-IsHash a key message in
    (h, omega (arith, h.0, hash_length-le a), truncated-lt (hmac (hash_of a) key message) h.1)
