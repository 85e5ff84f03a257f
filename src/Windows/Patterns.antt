-- ===== src/Windows/Patterns.antt =====
-- Regular expressions as JavaScript matches them: the matches of a pattern at a place, the preferred
-- first. A class of units is a test; with the flag `i` the tests are of the units in lower case.
use dms_bitwarden_cli.Common.{
  ℕ, zero, suc, Bool, true, false, not, ◌&&◌, ◌||◌, Option, none, some, List, [], ◌∷◌, ◌++◌,
  reverse, if◌then◌else◌, ltb, ◌==◌, length, is_empty, Str, lower_unit, is_digit,
}

pub data Pattern : Type 0 where
  unit : (ℕ → Bool) → Pattern
  seq : Pattern → Pattern → Pattern
  alt : Pattern → Pattern → Pattern
  many : Pattern → Pattern
  nothing start stop edge : Pattern

-- A place: the unit before it, and the text after it.
pub record Place : Type 0 where
  pub before : Option ℕ
  pub after : Str

-- `\w`.
abbrev pub is_word : ℕ → Bool
unfolding is_digit
is_word c = is_digit c || (ltb 64 c && ltb c 91) || (ltb 96 c && ltb c 123) || c == b'_'

abbrev pub word_before : Option ℕ → Bool
word_before none = false
word_before (some c) = is_word c

abbrev pub word_after : Str → Bool
word_after [] = false
word_after (c ∷ s) = is_word c

abbrev pub differ : Bool → Bool → Bool
differ true b = not b
differ false b = b

abbrev pub is_none : Option ℕ → Bool
is_none none = true
is_none (some c) = false

abbrev pub when : Bool → Place → List Place
when true q = q ∷ []
when false q = []

abbrev pub step_unit : (ℕ → Bool) → Str → List Place
step_unit p [] = []
step_unit p (c ∷ s) = when (p c) (record { before = some c; after = s })

unfoldable pub collect : (Place → List Place) → List Place → List Place
collect f [] = []
collect f (q ∷ qs) = f q ++ collect f qs

-- `f*`, with fuel for each turn; a turn that reads nothing ends it.
unfoldable pub repeat : ℕ → (Place → List Place) → Place → List Place
unfolding collect
repeat zero f q = q ∷ []
repeat (suc n) f q =
    collect (λ r. if ltb (length r.after) (length q.after) then repeat n f r else []) (f q)
    ++ q ∷ []

unfoldable pub ends : Pattern → Place → List Place
unfolding collect repeat
ends (unit p) q = step_unit p q.after
ends (seq a b) q = collect (ends b) (ends a q)
ends (alt a b) q = ends a q ++ ends b q
ends (many a) q = repeat (length q.after) (ends a) q
ends nothing q = q ∷ []
ends start q = when (is_none q.before) q
ends stop q = when (is_empty q.after) q
ends edge q = when (differ (word_before q.before) (word_after q.after)) q

-- The text before the first match, in reverse, and the place after it.
unfoldable pub find_from : Pattern → Str → Option ℕ → Str → Option (Str × Place)
unfolding ends
find_from a read before [] = elim (ends a (record { before = before; after = [] })) [
  | [] ↦ none
  | q ∷ qs ↦ some (read, q)
]
find_from a read before (c ∷ s) = elim (ends a (record { before = before; after = c ∷ s })) [
  | [] ↦ find_from a (c ∷ read) (some c) s
  | q ∷ qs ↦ some (read, q)
]

-- `s.replace(pattern, "")`.
unfoldable pub remove : Pattern → Str → Str
unfolding find_from
remove a s = elim (find_from a [] none s) [ none ↦ s | some (read, q) ↦ reverse read ++ q.after ]

-- `s.split(pattern)` for a pattern that reads something; fuel for each unit.
unfoldable pub split_at : ℕ → Pattern → Str → Place → List Str
unfolding ends
split_at zero a piece q = reverse piece ∷ []
split_at (suc n) a piece q = elim (ends a q) [
  | r ∷ rs ↦ reverse piece ∷ split_at n a [] r
  | [] ↦ elim q.after [
    | [] ↦ reverse piece ∷ []
    | c ∷ s ↦ split_at n a (c ∷ piece) (record { before = some c; after = s })
  ]
]

abbrev pub optional : Pattern → Pattern
optional a = alt a nothing

abbrev pub some_of : Pattern → Pattern
some_of a = seq a (many a)

-- A literal text, letters in either case.
abbrev pub text_of_codes : Str → Pattern
text_of_codes [] = nothing
text_of_codes (c ∷ s) = seq (unit (λ d. lower_unit d == lower_unit c)) (text_of_codes s)

abbrev pub any_text : List Str → Pattern
any_text [] = unit (λ d. false)
any_text (s ∷ []) = text_of_codes s
any_text (s ∷ t ∷ ss) = alt (text_of_codes s) (any_text (t ∷ ss))
