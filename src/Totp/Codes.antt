-- ===== src/Totp/Codes.antt =====
-- What a code looks like.
use dms_bitwarden_cli.Common.{
  ℕ, zero, suc, ◌+◌, ◌*◌, ◌-◌, ◌/◌, ◌%◌, ◌^◌, ◌≤◌, ◌<◌, ◌≡◌, refl, ap, inl, inr, Bool, true, List,
  [], ◌∷◌, arith, ltb, ◌==◌, Bool-cases, length, get_or, replicate, any, All, length-append,
  All-append, Str, is_digit,
}
use dms_bitwarden_cli.Js.Numbers.{decimal, decimal_from}
use native.Mathlib.Nat.{mod-lt}
use dms_bitwarden_cli.Totp.{
  steam_chars, Algorithm, steam, sha1, sha256, Params, truncated, steam_code, pad_zeros, code_of,
  otp_of_hash,
}

div_ten-lt : (n p : ℕ) → n < 10 * p → n / 10 < p
div_ten-lt n p h = omega arith

decimal_from-length : (f d n : ℕ) → n < 10 ^ (suc d) → length (decimal_from f n) ≤ suc d
unfolding decimal_from
decimal_from-length zero d n h = omega arith
decimal_from-length (suc f) zero n h = ground arith
decimal_from-length (suc f) (suc d) n h = ground (
  arith,
  length-append (decimal_from f (n / 10)) ((b'0' + n % 10) ∷ []),
  decimal_from-length f d (n / 10) (div_ten-lt n (10 ^ suc d) (omega (arith, h))),
)

last_digit : (n : ℕ) → is_digit (b'0' + n % 10) ≡ true
unfolding is_digit
last_digit n = ground arith

decimal_from-digits : (f n : ℕ) → All (λ c. is_digit c ≡ true) (decimal_from f n)
unfolding decimal_from
decimal_from-digits zero n = tt
decimal_from-digits (suc f) n = elim (Bool-cases (ltb n 10)) [
  | inl e ↦ rw e (last_digit n, tt)
  | inr e ↦ rw e (
      All-append (λ c. is_digit c ≡ true) (decimal_from f (n / 10)) ((b'0' + n % 10) ∷ [])
        (decimal_from-digits f (n / 10)) (last_digit n, tt))
]

zeros-digits : (k : ℕ) → All (λ c. is_digit c ≡ true) (replicate k b'0')
unfolding is_digit
zeros-digits zero = tt
zeros-digits (suc k) = (refl, zeros-digits k)

length-replicate : (k c : ℕ) → length (replicate k c) ≡ k
length-replicate zero c = refl
length-replicate (suc k) c = ap suc (length-replicate k c)

pad_zeros-length : (d : ℕ) (s : Str) → length s ≤ d → length (pad_zeros d s) ≡ d
unfolding pad_zeros
pad_zeros-length d s h = omega (
  arith,
  h,
  length-append (replicate (d - length s) b'0') s,
  length-replicate (d - length s) b'0',
)

pad_zeros-digits :
    (d : ℕ) (s : Str)
    → All (λ c. is_digit c ≡ true) s
    → All (λ c. is_digit c ≡ true) (pad_zeros d s)
unfolding pad_zeros
pad_zeros-digits d s h =
    All-append (λ c. is_digit c ≡ true) (replicate (d - length s) b'0') s
      (zeros-digits (d - length s)) h

get_or-any : (l : List ℕ) (i : ℕ) → i < length l → any (λ c. c == get_or l i 0) l ≡ true
unfolding any
get_or-any [] i h = absurd (omega (arith, h))
get_or-any (c ∷ l) zero h = ground arith
get_or-any (c ∷ l) (suc i) h = ground (arith, get_or-any l i (omega (arith, h)))

-- A unit that a code of the algorithm may hold.
abbrev pub is_code_unit : Algorithm → ℕ → Bool
is_code_unit steam c = any (λ d. d == c) steam_chars
is_code_unit _ c = is_digit c

steam_code-units : (d full : ℕ) → All (λ c. is_code_unit steam c ≡ true) (steam_code d full)
unfolding steam_code
steam_code-units zero full = tt
steam_code-units (suc d) full =
    (get_or-any steam_chars (full % 26) (omega arith), steam_code-units d (full / 26))

steam_code-length : (d full : ℕ) → length (steam_code d full) ≡ d
unfolding steam_code
steam_code-length zero full = refl
steam_code-length (suc d) full = ap suc (steam_code-length d (full / 26))

pow_pos : (d : ℕ) → 0 < 10 ^ d
pow_pos zero = omega arith
pow_pos (suc d) = omega (arith, pow_pos d)

digit_code :
    (d n : ℕ)
    → (length (pad_zeros (suc d) (decimal (n % 10 ^ suc d))) ≡ suc d)
      × All (λ c. is_digit c ≡ true) (pad_zeros (suc d) (decimal (n % 10 ^ suc d)))
unfolding decimal
digit_code d n =
    let m = n % 10 ^ suc d in
    (
      pad_zeros-length (suc d) (decimal_from (suc m) m)
          (decimal_from-length (suc m) d m (mod-lt n (pow_pos (suc d)))),
      pad_zeros-digits (suc d) (decimal_from (suc m) m) (decimal_from-digits (suc m) m),
    )

-- A code of `d` units.
abbrev pub IsCode : Algorithm → ℕ → Str → Type 0
IsCode a d s = (length s ≡ d) × All (λ c. is_code_unit a c ≡ true) s

code_of-IsCode : (a : Algorithm) (d n : ℕ) → IsCode a (suc d) (code_of a (suc d) n)
unfolding code_of
code_of-IsCode steam d n = (steam_code-length (suc d) n, steam_code-units (suc d) n)
code_of-IsCode sha1 d n = digit_code d n
code_of-IsCode sha256 d n = digit_code d n

-- Whatever the hash holds, the code has exactly the digits that the key asks for, at least one, and
-- they are decimal digits, or units of Steam's alphabet for a Steam key.
pub otp_of_hash-IsCode :
    (params : Params) (d : ℕ) (hash : List ℕ)
    → params.digits ≡ suc d
    → IsCode params.algorithm params.digits (otp_of_hash params hash)
unfolding otp_of_hash
otp_of_hash-IsCode params d hash h = rw h (code_of-IsCode params.algorithm d (truncated hash))
