-- ===== src/Totp/Words.antt =====
-- The 32-bit words that the hashes work on (TotpModel.js, `rotl`, `rotr`, `wordsToBytes` and the
-- words of a block). A word is its bit pattern, a number below 2 ^ 32: the signed numbers that the
-- bit operators of JavaScript give differ from it by a multiple of 2 ^ 32, which `| 0` and the
-- shifts do not see.
use dms_bitwarden_cli.Common.{ℕ, zero, suc, ◌+◌, ◌*◌, ◌-◌, ◌/◌, ◌%◌, ◌^◌, List, [], ◌∷◌, get_or}
use Prim.Native.Nat.{bit_or}

-- `x | 0`.
unfoldable pub word : ℕ → ℕ
word x = x % 2 ^ 32

-- `x << n` and `~x`.
unfoldable pub shl : ℕ → ℕ → ℕ
unfolding word
shl x n = word (x * 2 ^ n)

unfoldable pub bit_not : ℕ → ℕ
bit_not x = 0xffffffff - x

unfoldable pub rotl : ℕ → ℕ → ℕ
unfolding shl
rotl x n = bit_or (shl x n) (x / 2 ^ (32 - n))

unfoldable pub rotr : ℕ → ℕ → ℕ
unfolding shl
rotr x n = bit_or (x / 2 ^ n) (shl x (32 - n))

unfoldable pub words_to_bytes : List ℕ → List ℕ
words_to_bytes [] = []
words_to_bytes (w ∷ ws) =
    (w / 2 ^ 24) % 256 ∷ (w / 2 ^ 16) % 256 ∷ (w / 2 ^ 8) % 256 ∷ w % 256 ∷ words_to_bytes ws

-- The word at four bytes of a message, the highest byte first.
unfoldable pub word_at : List ℕ → ℕ → ℕ
unfolding shl
word_at m i =
    bit_or
      (bit_or (bit_or (shl (get_or m i 0) 24) (shl (get_or m (i + 1) 0) 16))
        (shl (get_or m (i + 2) 0) 8))
      (get_or m (i + 3) 0)

-- The `n` words from place `i` on.
unfoldable pub words_from : ℕ → List ℕ → ℕ → List ℕ
unfolding word_at
words_from zero m i = []
words_from (suc n) m i = word_at m i ∷ words_from n m (i + 4)
