-- ===== src/Shell/Reading.antt =====
-- How a shell reads the words of a simple command, up to its end or a pipe: blanks between words,
-- single quotes, and a backslash before a unit. Anything else that a shell treats on its own
-- (expansions, double quotes, globs, lists, redirections) is refused here.
use mathlib.Core.Option
use dms_bitwarden_cli.Common.{
  ℕ, Option, none, some, List, [], ◌∷◌, reverse, ◌==◌, if◌then◌else◌, Str, any, codes,
}

pub data Mode : Type 0 where
  between : Mode
  word quoted escaped : (read : Str) → Mode

pub data Role : Type 0 where
  blank pipe quote backslash special ordinary : Role

unfoldable pub role : ℕ → Role
unfolding any
role c =
    if c == b' '
    then blank
    else if c == b'|'
    then pipe
    else if c == 39
    then quote
    else if c == 92
    then backslash
    else if any (λ d. d == c) (9 ∷ 10 ∷ codes "&;()<>$`\"*?[]#~!{}")
    then special
    else ordinary

-- What a unit does: on to a mode, the end of a word, the end of the command, or no command.
pub data Turn : Type 0 where
  on : Mode → Turn
  ends : Str → Turn
  done : List Str → Turn
  fails : Turn

unfoldable pub turn : Mode → Role → ℕ → Turn
turn between blank c = on between
turn between pipe c = done []
turn between quote c = on (quoted [])
turn between backslash c = on (escaped [])
turn between special c = fails
turn between ordinary c = on (word (c ∷ []))
turn (word read) blank c = ends (reverse read)
turn (word read) pipe c = done (reverse read ∷ [])
turn (word read) quote c = on (quoted read)
turn (word read) backslash c = on (escaped read)
turn (word read) special c = fails
turn (word read) ordinary c = on (word (c ∷ read))
turn (quoted read) quote c = on (word read)
turn (quoted read) _ c = on (quoted (c ∷ read))
turn (escaped read) r c = if c == 10 then fails else on (word (c ∷ read))

-- The words at the end of the text.
unfoldable pub at_end : Mode → Option (List Str)
at_end between = some []
at_end (word read) = some (reverse read ∷ [])
at_end _ = none

unfoldable pub read_words : Mode → Str → Option (List Str)
unfolding turn role at_end
read_words m [] = at_end m
read_words m (c ∷ s) = elim (turn m (role c) c) [
  | on n ↦ read_words n s
  | ends w ↦ Option.map (w ∷◌) (read_words between s)
  | done ws ↦ some ws
  | fails ↦ none
]

abbrev pub shell_words : Str → Option (List Str)
shell_words s = read_words between s
