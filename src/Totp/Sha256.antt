-- ===== src/Totp/Sha256.antt =====
-- SHA-256 (TotpModel.js, `sha256`).
use dms_bitwarden_cli.Common.{ℕ, zero, suc, ◌+◌, ◌-◌, ◌/◌, ◌^◌, List, [], ◌∷◌, ◌++◌, length, get_or}
use dms_bitwarden_cli.Totp.{pad_message}
use dms_bitwarden_cli.Totp.Words.{word, bit_not, rotr, words_to_bytes, words_from}
use Prim.Native.Nat.{bit_and, bit_xor}

pub record State : Type 0 where
  pub a : ℕ
  pub b : ℕ
  pub c : ℕ
  pub d : ℕ
  pub e : ℕ
  pub f : ℕ
  pub g : ℕ
  pub h : ℕ

abbrev pub initial : State
initial = record {
  a = 0x6a09e667;
  b = 0xbb67ae85;
  c = 0x3c6ef372;
  d = 0xa54ff53a;
  e = 0x510e527f;
  f = 0x9b05688c;
  g = 0x1f83d9ab;
  h = 0x5be0cd19;
}

abbrev pub sha256_k : List ℕ
sha256_k =
    0x428a2f98 ∷ 0x71374491 ∷ 0xb5c0fbcf ∷ 0xe9b5dba5 ∷ 0x3956c25b ∷ 0x59f111f1 ∷ 0x923f82a4
    ∷ 0xab1c5ed5 ∷ 0xd807aa98 ∷ 0x12835b01 ∷ 0x243185be ∷ 0x550c7dc3 ∷ 0x72be5d74 ∷ 0x80deb1fe
    ∷ 0x9bdc06a7 ∷ 0xc19bf174 ∷ 0xe49b69c1 ∷ 0xefbe4786 ∷ 0x0fc19dc6 ∷ 0x240ca1cc ∷ 0x2de92c6f
    ∷ 0x4a7484aa ∷ 0x5cb0a9dc ∷ 0x76f988da ∷ 0x983e5152 ∷ 0xa831c66d ∷ 0xb00327c8 ∷ 0xbf597fc7
    ∷ 0xc6e00bf3 ∷ 0xd5a79147 ∷ 0x06ca6351 ∷ 0x14292967 ∷ 0x27b70a85 ∷ 0x2e1b2138 ∷ 0x4d2c6dfc
    ∷ 0x53380d13 ∷ 0x650a7354 ∷ 0x766a0abb ∷ 0x81c2c92e ∷ 0x92722c85 ∷ 0xa2bfe8a1 ∷ 0xa81a664b
    ∷ 0xc24b8b70 ∷ 0xc76c51a3 ∷ 0xd192e819 ∷ 0xd6990624 ∷ 0xf40e3585 ∷ 0x106aa070 ∷ 0x19a4c116
    ∷ 0x1e376c08 ∷ 0x2748774c ∷ 0x34b0bcb5 ∷ 0x391c0cb3 ∷ 0x4ed8aa4a ∷ 0x5b9cca4f ∷ 0x682e6ff3
    ∷ 0x748f82ee ∷ 0x78a5636f ∷ 0x84c87814 ∷ 0x8cc70208 ∷ 0x90befffa ∷ 0xa4506ceb ∷ 0xbef9a3f7
    ∷ 0xc67178f2 ∷ []

-- `for (var t = 16; t < 64; t++)`: the next words of the schedule, from place `t` on.
unfoldable pub extend : ℕ → ℕ → List ℕ → List ℕ
unfolding word rotr
extend zero t w = w
extend (suc n) t w =
    let early = get_or w (t - 15) 0 in
    let late = get_or w (t - 2) 0 in
    let s0 = bit_xor (bit_xor (rotr early 7) (rotr early 18)) (early / 2 ^ 3) in
    let s1 = bit_xor (bit_xor (rotr late 17) (rotr late 19)) (late / 2 ^ 10) in
    extend n (suc t) (w ++ word (get_or w (t - 16) 0 + s0 + get_or w (t - 7) 0 + s1) ∷ [])

-- `temp1` of round `r`.
unfoldable pub temp1 : List ℕ → ℕ → State → ℕ
unfolding word rotr bit_not
temp1 w r s =
    let S1 = bit_xor (bit_xor (rotr s.e 6) (rotr s.e 11)) (rotr s.e 25) in
    let ch = bit_xor (bit_and s.e s.f) (bit_and (bit_not s.e) s.g) in
    word (s.h + S1 + ch + get_or sha256_k r 0 + get_or w r 0)

unfoldable pub temp2 : State → ℕ
unfolding word rotr
temp2 s =
    let S0 = bit_xor (bit_xor (rotr s.a 2) (rotr s.a 13)) (rotr s.a 22) in
    let maj = bit_xor (bit_xor (bit_and s.a s.b) (bit_and s.a s.c)) (bit_and s.b s.c) in
    word (S0 + maj)

unfoldable pub round : List ℕ → ℕ → State → State
unfolding word temp1 temp2
round w r s = record {
  a = word (temp1 w r s + temp2 s);
  b = s.a;
  c = s.b;
  d = s.c;
  e = word (s.d + temp1 w r s);
  f = s.e;
  g = s.f;
  h = s.g;
}

-- `n` rounds, from round `r` on.
unfoldable pub rounds : ℕ → List ℕ → ℕ → State → State
unfolding round
rounds zero w r s = s
rounds (suc n) w r s = rounds n w (suc r) (round w r s)

unfoldable pub add_state : State → State → State
unfolding word
add_state s r = record {
  a = word (s.a + r.a);
  b = word (s.b + r.b);
  c = word (s.c + r.c);
  d = word (s.d + r.d);
  e = word (s.e + r.e);
  f = word (s.f + r.f);
  g = word (s.g + r.g);
  h = word (s.h + r.h);
}

-- The block at `off`.
unfoldable pub block : List ℕ → ℕ → State → State
unfolding extend words_from rounds add_state
block m off s = add_state s (rounds 64 (extend 48 16 (words_from 16 m off)) 0 s)

-- `n` blocks, from `off` on.
unfoldable pub blocks : ℕ → List ℕ → ℕ → State → State
unfolding block
blocks zero m off s = s
blocks (suc n) m off s = blocks n m (off + 64) (block m off s)

unfoldable pub digest : State → List ℕ
unfolding words_to_bytes
digest s = words_to_bytes (s.a ∷ s.b ∷ s.c ∷ s.d ∷ s.e ∷ s.f ∷ s.g ∷ s.h ∷ [])

unfoldable pub sha256_hash : List ℕ → List ℕ
unfolding pad_message blocks digest
sha256_hash bytes = let m = pad_message bytes in digest (blocks (length m / 64) m 0 initial)
