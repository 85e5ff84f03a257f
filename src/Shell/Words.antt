-- ===== src/Shell/Words.antt =====
-- What a shell reads of a command.
use mathlib.Core.Option
use mathlib.Core.List.{reverse_aux, reverse-reverse, append_assoc}
use mathlib.Core.Bool.{and-eq-true_iff, true≢false}
use dms_bitwarden_cli.Common.{
  ℕ, true, false, not, ◌&&◌, ◌≡◌, refl, sym, ◌∙◌, ap, some, List, [], ◌∷◌, ◌++◌, reverse, arith,
  ◌==◌, ==_iff, Bool-cases, inl, inr, is_empty, all, any, Str, codes,
}
use dms_bitwarden_cli.Shell.{
  escape_quotes, shell_quote, is_plain_unit, argument_text, arguments_text, capped_by, bw_command,
}
use dms_bitwarden_cli.Shell.Reading.{
  Mode, between, word, quoted, role, read_words, shell_words, turn, on, at_end,
}

turn-quoted :
    (c : ℕ) (read : Str)
    → (c == 39) ≡ false
    → turn (quoted read) (role c) c ≡ on (quoted (c ∷ read))
unfolding turn role any
turn-quoted c read h = ground (arith, h)

turn-word :
    (c : ℕ) (read : Str)
    → is_plain_unit c ≡ true
    → turn (word read) (role c) c ≡ on (word (c ∷ read))
unfolding turn role any
turn-word c read h = ground (arith, h)

turn-between : (c : ℕ) → is_plain_unit c ≡ true → turn between (role c) c ≡ on (word (c ∷ []))
unfolding turn role any
turn-between c h = ground (arith, h)

read_on :
    (m n : Mode) (c : ℕ) (s : Str)
    → turn m (role c) c ≡ on n
    → read_words m (c ∷ s) ≡ read_words n s
unfolding read_words
read_on m n c s h = rw (h, read_words) refl

escaped_quote :
    (read s : Str)
    → read_words (quoted read) (39 ∷ 92 ∷ 39 ∷ 39 ∷ s) ≡ read_words (quoted (39 ∷ read)) s
unfolding read_words turn role any
escaped_quote read s = refl

in_quotes_cons :
    (c : ℕ) (s read t : Str)
    → read_words (quoted (c ∷ read)) (escape_quotes s ++ 39 ∷ t)
      ≡ read_words (word (reverse_aux s (c ∷ read))) t
    → read_words (quoted read) (escape_quotes (c ∷ s) ++ 39 ∷ t)
      ≡ read_words (word (reverse_aux s (c ∷ read))) t
unfolding escape_quotes
in_quotes_cons c s read t h = elim (Bool-cases (c == 39)) [
  | inl e ↦
      let same : c ≡ 39 = (==_iff c 39).0 e in
      rw e (
        escaped_quote read (escape_quotes s ++ 39 ∷ t)
        ∙ ap (λ d. read_words (quoted (d ∷ read)) (escape_quotes s ++ 39 ∷ t)) (sym same)
        ∙ h)
  | inr e ↦ rw e (read_on (quoted read) (quoted (c ∷ read)) c _ (turn-quoted c read e) ∙ h)
]

in_quotes :
    (s read t : Str)
    → read_words (quoted read) (escape_quotes s ++ 39 ∷ t)
      ≡ read_words (word (reverse_aux s read)) t
unfolding read_words escape_quotes turn role any
in_quotes [] read t = refl
in_quotes (c ∷ s) read t = in_quotes_cons c s read t (in_quotes s (c ∷ read) t)

in_word :
    (s read t : Str)
    → all is_plain_unit s ≡ true
    → read_words (word read) (s ++ t) ≡ read_words (word (reverse_aux s read)) t
unfolding all
in_word [] read t h = refl
in_word (c ∷ s) read t h =
    let (first, rest) = (and-eq-true_iff (is_plain_unit c) (all is_plain_unit s)).0 h in
    read_on (word read) (word (c ∷ read)) c (s ++ t) (turn-word c read first)
    ∙ in_word s (c ∷ read) t rest

opening_quote : (s : Str) → read_words between (39 ∷ s) ≡ read_words (quoted []) s
unfolding read_words turn role any
opening_quote s = refl

-- A quoted argument is one word, whatever it holds.
quote_read :
    (arg t : Str)
    → read_words between (shell_quote arg ++ t) ≡ read_words (word (reverse_aux arg [])) t
unfolding shell_quote
quote_read arg t =
    opening_quote ((escape_quotes arg ++ 39 ∷ []) ++ t)
    ∙ ap (read_words (quoted [])) (append_assoc (escape_quotes arg) (39 ∷ []) t)
    ∙ in_quotes arg [] t

plain_read :
    (arg t : Str)
    → (not (is_empty arg) && all is_plain_unit arg) ≡ true
    → read_words between (arg ++ t) ≡ read_words (word (reverse_aux arg [])) t
unfolding all
plain_read [] t h = absurd (true≢false (sym h))
plain_read (c ∷ s) t h =
    let (first, rest) = (and-eq-true_iff (is_plain_unit c) (all is_plain_unit s)).0 h in
    read_on between (word (c ∷ [])) c (s ++ t) (turn-between c first) ∙ in_word s (c ∷ []) t rest

argument_read :
    (arg t : Str)
    → read_words between (argument_text arg ++ t) ≡ read_words (word (reverse_aux arg [])) t
unfolding argument_text
argument_read arg t = elim (Bool-cases (not (is_empty arg) && all is_plain_unit arg)) [
  | inl e ↦ rw e (plain_read arg t e)
  | inr e ↦ rw e (quote_read arg t)
]

after_word :
    (read s : Str)
    → read_words (word read) (b' ' ∷ s)
      ≡ Option.map (λ ws. reverse read ∷ ws) (read_words between s)
unfolding read_words turn role any
after_word read s = refl

-- The cap of the output is no word of the command.
capped_by_end :
    (read : Str) (max_bytes : ℕ)
    → read_words (word read) (capped_by max_bytes) ≡ some (reverse read ∷ [])
unfolding capped_by read_words turn role any at_end
capped_by_end read max_bytes = elim (Bool-cases (max_bytes == 0)) [
  | inl e ↦ rw e refl
  | inr e ↦ rw e refl
]

arguments_read :
    (args : List Str) (read : Str) (max_bytes : ℕ)
    → read_words (word read) (arguments_text args ++ capped_by max_bytes)
      ≡ some (reverse read ∷ args)
unfolding arguments_text
arguments_read [] read max_bytes = capped_by_end read max_bytes
arguments_read (arg ∷ args) read max_bytes =
    let tail = arguments_text args ++ capped_by max_bytes in
    after_word read ((argument_text arg ++ arguments_text args) ++ capped_by max_bytes)
    ∙ ap (λ u. Option.map (λ ws. reverse read ∷ ws) (read_words between u))
        (append_assoc (argument_text arg) (arguments_text args) (capped_by max_bytes))
    ∙ ap (Option.map (λ ws. reverse read ∷ ws)) (
        argument_read arg tail
        ∙ arguments_read args (reverse_aux arg []) max_bytes
        ∙ ap (λ a. some (a ∷ args)) (reverse-reverse arg))

bw_read :
    (s : Str) → read_words between (codes "bw" ++ s) ≡ read_words (word (reverse (codes "bw"))) s
unfolding read_words turn role any
bw_read s = refl

-- The shell reads from the command exactly `bw` and the arguments, each as one word, whatever they
-- hold: quotes, blanks, expansions and line ends included. The cap of the output adds no word.
pub bw_command_read :
    (args : List Str) (max_stdout_bytes : ℕ)
    → shell_words (bw_command args max_stdout_bytes) ≡ some (codes "bw" ∷ args)
unfolding bw_command
bw_command_read args max_stdout_bytes =
    bw_read (arguments_text args ++ capped_by max_stdout_bytes)
    ∙ arguments_read args (reverse (codes "bw")) max_stdout_bytes
