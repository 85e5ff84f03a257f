-- ===== src/Totp/Bytes.antt =====
-- The bytes that a secret and a padded message consist of.
use dms_bitwarden_cli.Common.{
  ℕ, zero, suc, ◌+◌, ◌*◌, ◌-◌, ◌/◌, ◌%◌, ◌^◌, ◌≤◌, ◌<◌, ◌≡◌, refl, ap, ◌∙◌, inl, inr, none, some,
  List, [], ◌∷◌, ◌++◌, arith, leb, ◌==◌, if◌then◌else◌, leb→le, Bool-cases, Option-cases, length,
  All, length-append, All-append, Str,
}
use dms_bitwarden_cli.Totp.{
  upper, base32_index, decode_from, decode_base32, counter_bytes, pad_message, byte_at, zeros_until,
}

-- The units of a text that base32 has.
unfoldable pub base32_count : Str → ℕ
base32_count [] = 0
base32_count (c ∷ s) = elim (base32_index c) [
  | none ↦ base32_count s
  | some i ↦ suc (base32_count s)
]

base32_count-none :
    (c : ℕ) (s : Str) → base32_index c ≡ none → base32_count (c ∷ s) ≡ base32_count s
unfolding base32_count
base32_count-none c s e = rw (base32_count, e) refl

base32_count-some :
    (c i : ℕ) (s : Str) → base32_index c ≡ some i → base32_count (c ∷ s) ≡ suc (base32_count s)
unfolding base32_count
base32_count-some c i s e = rw (base32_count, e) refl

decode_from-none :
    (buffer bits c : ℕ) (s : Str)
    → base32_index c ≡ none
    → decode_from buffer bits (c ∷ s) ≡ decode_from buffer bits s
unfolding decode_from
decode_from-none buffer bits c s e = rw (decode_from, e) refl

decode_from-some :
    (buffer bits c i : ℕ) (s : Str)
    → base32_index c ≡ some i
    → decode_from buffer bits (c ∷ s) ≡ (
        if leb 8 (bits + 5)
        then byte_at ((buffer * 32 + i) % 65536) (bits + 5 - 8)
          ∷ decode_from ((buffer * 32 + i) % 65536) (bits + 5 - 8) s
        else decode_from ((buffer * 32 + i) % 65536) (bits + 5) s)
unfolding decode_from
decode_from-some buffer bits c i s e = rw (decode_from, e) refl

-- What the loop leaves of a text, with fewer than eight bits in the buffer.
IsDecoded : ℕ → ℕ → List ℕ → Type 0
IsDecoded bits count out = (length out ≡ (bits + 5 * count) / 8) × All (λ b. b < 256) out

decode_from-IsDecoded :
    (buffer bits : ℕ) (s : Str)
    → bits < 8
    → IsDecoded bits (base32_count s) (decode_from buffer bits s)
unfolding IsDecoded
decode_from-IsDecoded buffer bits [] h = unfold decode_from base32_count in (omega (arith, h), tt)
decode_from-IsDecoded buffer bits (c ∷ s) h = elim (Option-cases (base32_index c)) [
  | inl e ↦
      rw (decode_from-none buffer bits c s e, base32_count-none c s e)
        (decode_from-IsDecoded buffer bits s h)
  | inr found ↦
      rw (decode_from-some buffer bits c found.0 s found.1, base32_count-some c found.0 s found.1)
        (elim (Bool-cases (leb 8 (bits + 5))) [
          | inl full ↦
              let rest =
                decode_from-IsDecoded ((buffer * 32 + found.0) % 65536) (bits + 5 - 8) s
                  (omega (arith, h)) in
              rw full (omega (arith, rest.0, leb→le _ _ full), (omega arith, rest.1))
          | inr room ↦
              let rest =
                decode_from-IsDecoded ((buffer * 32 + found.0) % 65536) (bits + 5) s
                  (ground arith) in
              rw room (omega (arith, rest.0), rest.1)
        ])
]

-- A text is decoded to bytes, as many as the base32 units of its upper case fill: the other units are skipped, and
-- the bits that fill no byte are dropped.
pub decode_base32_fills :
    (s : Str)
    → (length (decode_base32 s) ≡ (5 * base32_count (upper s)) / 8)
      × All (λ b. b < 256) (decode_base32 s)
unfolding decode_base32 IsDecoded
decode_base32_fills s =
    let d = decode_from-IsDecoded 0 0 (upper s) (omega arith) in (omega (arith, d.0), d.1)

zeros-bytes : (f len : ℕ) → All (λ b. b < 256) (zeros_until f len)
unfolding zeros_until
zeros-bytes zero len = tt
zeros-bytes (suc f) len = elim (Bool-cases (len % 64 == 56)) [
  | inl e ↦ rw e tt
  | inr e ↦ rw e (omega arith, zeros-bytes f (len + 1))
]

-- The zeros that are wanting at a length.
abbrev wanting : ℕ → ℕ
wanting len = (120 - len % 64) % 64

zeros-length : (f len : ℕ) → wanting len ≤ f → length {A = ℕ} (zeros_until f len) ≡ wanting len
unfolding zeros_until
zeros-length zero len h = omega (arith, h)
zeros-length (suc f) len h = elim (Bool-cases (len % 64 == 56)) [
  | inl e ↦ rw e (ground arith)
  | inr e ↦
      let one_less : suc (wanting (len + 1)) ≡ wanting len = ground arith in
      rw e (ap suc (zeros-length f (len + 1) (omega (arith, h, one_less))) ∙ one_less)
]

counter_bytes-bytes : (n : ℕ) → All (λ b. b < 256) (counter_bytes n)
unfolding counter_bytes
counter_bytes-bytes n = (
  omega arith,
  (
    omega arith,
    (omega arith, (omega arith, (omega arith, (omega arith, (omega arith, (omega arith, tt)))))),
  ),
)

-- The number that eight bytes spell, the highest first.
abbrev pub big_endian : ℕ → List ℕ → ℕ
big_endian acc [] = acc
big_endian acc (b ∷ bs) = big_endian (acc * 256 + b) bs

counter_bytes-value : (n : ℕ) → n < 2 ^ 64 → big_endian 0 (counter_bytes n) ≡ n
unfolding counter_bytes
counter_bytes-value n h = omega (arith, h)

length-counter_bytes : (n : ℕ) → length (counter_bytes n) ≡ 8
unfolding counter_bytes
length-counter_bytes n = refl

-- A padded message fills whole blocks of 64 bytes, with at most 72 bytes added, and consists of
-- bytes if the message does.
pub pad_message_fills :
    (bytes : List ℕ)
    → All (λ b. b < 256) bytes
    → (length (pad_message bytes) % 64 ≡ 0)
      × (length (pad_message bytes) ≤ length bytes + 72)
      × All (λ b. b < 256) (pad_message bytes)
unfolding pad_message
pad_message_fills bytes h =
    let n = length bytes in
    let head = bytes ++ 0x80 ∷ [] in
    let body = head ++ zeros_until 63 (n + 1) in
    let total : length (body ++ counter_bytes (n * 8)) ≡ n + 1 + wanting (n + 1) + 8 = omega (
      arith,
      length-append body (counter_bytes (n * 8)),
      length-append head (zeros_until 63 (n + 1)),
      length-append bytes (0x80 ∷ []),
      zeros-length 63 (n + 1) (omega arith),
      length-counter_bytes (n * 8),
    ) in
    (
      omega (arith, total),
      omega (arith, total),
      All-append (λ b. b < 256) body (counter_bytes (n * 8))
          (All-append (λ b. b < 256) head (zeros_until 63 (n + 1))
            (All-append (λ b. b < 256) bytes (0x80 ∷ []) h (omega arith, tt))
            (zeros-bytes 63 (n + 1)))
          (counter_bytes-bytes (n * 8)),
    )
