-- ===== src/Common/Text.antt =====
-- JavaScript strings as lists of UTF-16 code units, with the operations of `String.prototype` that
-- the source calls.
use Prim.Native.Nat.{ℕ, suc, ◌+◌}
use Prim.Native.Char.{code}
use Prim.Native.String.{String}
use mathlib.Core.Path.{◌≡◌, refl}
use mathlib.Core.Logic.{◌↔◌}
use mathlib.Core.Bool.{Bool, true, false, ◌&&◌, ◌||◌}
use mathlib.Core.Option.{Option, none, some}
use mathlib.Core.List.{List, [], ◌∷◌, ◌++◌, map, reverse}
use native.Mathlib.Omega.{arith}
use dms_bitwarden_cli.Common.Tests.{ltb, leb, ◌==◌, if◌then◌else◌}
use dms_bitwarden_cli.Common.Lists.{is_empty}

abbrev pub Str : Type 0
Str = List ℕ

-- A literal: its code points are its code units, since every literal here is ASCII.
abbrev pub codes : String → Str
codes String.[] = []
codes (String.◌∷◌ c s) = code c ∷ codes s

-- `a === b` on strings.
infix 50 ◌===◌
unfoldable pub ◌===◌ : Str → Str → Bool
[] === [] = true
[] === (d ∷ t) = false
(c ∷ s) === [] = false
(c ∷ s) === (d ∷ t) = (c == d) && (s === t)

pub ===_refl : (s : Str) → (s === s) ≡ true
unfolding ◌===◌
===_refl [] = refl
===_refl (c ∷ s) = ground (arith, ===_refl s)

pub ===_eq : (s t : Str) → (s === t) ≡ true → s ≡ t
unfolding ◌===◌
===_eq [] [] h = refl
===_eq [] (d ∷ t) h = cc
===_eq (c ∷ s) [] h = cc
===_eq (c ∷ s) (d ∷ t) h = ground (arith, ===_eq s t)

pub ===_iff : (s t : Str) → ((s === t) ≡ true) ↔ (s ≡ t)
===_iff s t = (===_eq s t, λ e. rw e (===_refl t))

-- White space of `trim` and `\s`: the WhiteSpace and LineTerminator productions.
unfoldable pub is_space : ℕ → Bool
is_space c =
    (leb 9 c && leb c 13)
    || c == 32
    || c == 0xa0
    || c == 0x1680
    || (leb 0x2000 c && leb c 0x200a)
    || c == 0x2028
    || c == 0x2029
    || c == 0x202f
    || c == 0x205f
    || c == 0x3000
    || c == 0xfeff

unfoldable pub trim_start : Str → Str
trim_start [] = []
trim_start (c ∷ s) = let rest = trim_start s in if is_space c then rest else c ∷ s

unfoldable pub trim_end : Str → Str
trim_end [] = []
trim_end (c ∷ s) = let rest = trim_end s in if is_empty rest && is_space c then [] else c ∷ rest

unfoldable pub trim : Str → Str
unfolding trim_start trim_end is_space
trim s = trim_end (trim_start s)

unfoldable pub starts_with : Str → Str → Bool
starts_with [] s = true
starts_with (c ∷ p) [] = false
starts_with (c ∷ p) (d ∷ s) = (c == d) && starts_with p s

-- `s.indexOf(p)`, with `none` for -1.
unfoldable pub index_of : Str → Str → Option ℕ
unfolding starts_with
index_of p [] = if is_empty p then some 0 else none
index_of p (c ∷ s) =
    let rest = index_of p s in
    if starts_with p (c ∷ s) then some 0 else elim rest [ none ↦ none | some i ↦ some (suc i) ]

-- `s.indexOf(p) !== -1`.
unfoldable pub includes : Str → Str → Bool
unfolding index_of
includes p s = elim (index_of p s) [ none ↦ false | some i ↦ true ]

-- `s.lastIndexOf(c)` for a single unit, with `none` for -1.
unfoldable pub last_index_of : ℕ → Str → Option ℕ
last_index_of c [] = none
last_index_of c (d ∷ s) = elim (last_index_of c s) [
  | some i ↦ some (suc i)
  | none ↦ if c == d then some 0 else none
]

-- The loop of `s.split(c)`: `piece` holds the current piece in reverse.
unfoldable pub split_from : ℕ → Str → Str → List Str
split_from c piece [] = reverse piece ∷ []
split_from c piece (d ∷ s) = elim (c == d) [
  | true ↦ reverse piece ∷ split_from c [] s
  | false ↦ split_from c (d ∷ piece) s
]

-- `s.split(c)` at a single unit.
unfoldable pub split : ℕ → Str → List Str
unfolding split_from
split c s = split_from c [] s

-- `pieces.join(sep)`.
unfoldable pub join : Str → List Str → Str
join sep [] = []
join sep (p ∷ []) = p
join sep (p ∷ q ∷ ps) = p ++ sep ++ join sep (q ∷ ps)

unfoldable pub is_digit : ℕ → Bool
is_digit c = leb b'0' c && leb c b'9'

-- Lower-case ASCII letters or digits: `[a-z0-9]`.
unfoldable pub is_lower_alnum : ℕ → Bool
unfolding is_digit
is_lower_alnum c = is_digit c || (leb b'a' c && leb c b'z')

-- The lexical order `a < b` on strings, by code units.
unfoldable pub str_lt : Str → Str → Bool
str_lt [] [] = false
str_lt [] (d ∷ t) = true
str_lt (c ∷ s) [] = false
str_lt (c ∷ s) (d ∷ t) = ltb c d || ((c == d) && str_lt s t)

-- `toLowerCase` of ASCII letters.
abbrev pub lower_unit : ℕ → ℕ
lower_unit c = if leb b'A' c && leb c b'Z' then c + 32 else c

abbrev pub lower_ascii : Str → Str
lower_ascii s = map lower_unit s
