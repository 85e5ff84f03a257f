-- ===== src/Totp/Sha1.antt =====
-- SHA-1 (TotpModel.js, `sha1`).
use dms_bitwarden_cli.Common.{
  ℕ, zero, suc, ◌+◌, ◌-◌, ◌/◌, List, [], ◌∷◌, ◌++◌, ltb, if◌then◌else◌, length, get_or,
}
use dms_bitwarden_cli.Totp.{pad_message}
use dms_bitwarden_cli.Totp.Words.{word, bit_not, rotl, words_to_bytes, words_from}
use Prim.Native.Nat.{bit_and, bit_or, bit_xor}

-- The five words of the hash, and of the rounds.
pub record State : Type 0 where
  pub a : ℕ
  pub b : ℕ
  pub c : ℕ
  pub d : ℕ
  pub e : ℕ

abbrev pub initial : State
initial = record { a = 0x67452301; b = 0xefcdab89; c = 0x98badcfe; d = 0x10325476; e = 0xc3d2e1f0 }

-- `for (var t = 16; t < 80; t++)`: the next words of the schedule, from place `t` on.
unfoldable pub extend : ℕ → ℕ → List ℕ → List ℕ
unfolding rotl
extend zero t w = w
extend (suc n) t w =
    let mixed =
      bit_xor (bit_xor (bit_xor (get_or w (t - 3) 0) (get_or w (t - 8) 0)) (get_or w (t - 14) 0))
        (get_or w (t - 16) 0) in
    extend n (suc t) (w ++ rotl mixed 1 ∷ [])

-- `f` and `k` of round `s`.
unfoldable pub choice : ℕ → State → ℕ
unfolding bit_not
choice s h =
    if ltb s 20
    then bit_or (bit_and h.b h.c) (bit_and (bit_not h.b) h.d)
    else if ltb s 40
    then bit_xor (bit_xor h.b h.c) h.d
    else if ltb s 60
    then bit_or (bit_or (bit_and h.b h.c) (bit_and h.b h.d)) (bit_and h.c h.d)
    else bit_xor (bit_xor h.b h.c) h.d

unfoldable pub round_constant : ℕ → ℕ
round_constant s =
    if ltb s 20
    then 0x5a827999
    else if ltb s 40
    then 0x6ed9eba1
    else if ltb s 60
    then 0x8f1bbcdc
    else 0xca62c1d6

unfoldable pub round : List ℕ → ℕ → State → State
unfolding word rotl choice round_constant
round w s h = record {
  a = word (rotl h.a 5 + choice s h + h.e + round_constant s + get_or w s 0);
  b = h.a;
  c = rotl h.b 30;
  d = h.c;
  e = h.d;
}

-- `n` rounds, from round `s` on.
unfoldable pub rounds : ℕ → List ℕ → ℕ → State → State
unfolding round
rounds zero w s h = h
rounds (suc n) w s h = rounds n w (suc s) (round w s h)

unfoldable pub add_state : State → State → State
unfolding word
add_state h r = record {
  a = word (h.a + r.a);
  b = word (h.b + r.b);
  c = word (h.c + r.c);
  d = word (h.d + r.d);
  e = word (h.e + r.e);
}

-- The block at `off`.
unfoldable pub block : List ℕ → ℕ → State → State
unfolding extend words_from rounds add_state
block m off h = add_state h (rounds 80 (extend 64 16 (words_from 16 m off)) 0 h)

-- `n` blocks, from `off` on.
unfoldable pub blocks : ℕ → List ℕ → ℕ → State → State
unfolding block
blocks zero m off h = h
blocks (suc n) m off h = blocks n m (off + 64) (block m off h)

unfoldable pub digest : State → List ℕ
unfolding words_to_bytes
digest h = words_to_bytes (h.a ∷ h.b ∷ h.c ∷ h.d ∷ h.e ∷ [])

unfoldable pub sha1_hash : List ℕ → List ℕ
unfolding pad_message blocks digest
sha1_hash bytes = let m = pad_message bytes in digest (blocks (length m / 64) m 0 initial)
