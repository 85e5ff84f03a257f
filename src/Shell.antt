-- ===== src/Shell.antt =====
-- The text of the commands that bash runs (BitwardenModel.js, `shellQuote`, `cappedScript` and
-- `buildCappedCommand`).
pub mod Reading
pub mod Words
use dms_bitwarden_cli.Common.{
  ℕ, Bool, not, ◌&&◌, ◌||◌, List, [], ◌∷◌, ◌++◌, leb, ◌==◌, if◌then◌else◌, is_empty, all, Str,
  codes, is_digit,
}
use dms_bitwarden_cli.Js.Numbers.{decimal}

-- `.replace(/'/g, "'\\''")`.
unfoldable pub escape_quotes : Str → Str
escape_quotes [] = []
escape_quotes (c ∷ s) =
    let rest = escape_quotes s in if c == 39 then 39 ∷ 92 ∷ 39 ∷ 39 ∷ rest else c ∷ rest

unfoldable pub shell_quote : Str → Str
unfolding escape_quotes
shell_quote value = 39 ∷ escape_quotes value ++ 39 ∷ []

-- `[a-zA-Z0-9_\-\.\/]`.
abbrev pub is_plain_unit : ℕ → Bool
is_plain_unit c =
    (leb b'a' c && leb c b'z')
    || (leb b'A' c && leb c b'Z')
    || (leb b'0' c && leb c b'9')
    || c == b'_'
    || c == b'-'
    || c == b'.'
    || c == b'/'

unfoldable pub argument_text : Str → Str
unfolding shell_quote all
argument_text arg = if not (is_empty arg) && all is_plain_unit arg then arg else shell_quote arg

unfoldable pub arguments_text : List Str → Str
unfolding argument_text
arguments_text [] = []
arguments_text (arg ∷ args) = b' ' ∷ argument_text arg ++ arguments_text args

-- The reading end of a pipe that caps the output, unless the limit is 0.
unfoldable pub capped_by : ℕ → Str
unfolding decimal
capped_by max_stdout_bytes =
    if max_stdout_bytes == 0 then [] else codes " | head -c " ++ decimal max_stdout_bytes

-- `inner` of `buildCappedCommand`.
unfoldable pub bw_command : List Str → ℕ → Str
unfolding arguments_text capped_by
bw_command args max_stdout_bytes = codes "bw" ++ (arguments_text args ++ capped_by max_stdout_bytes)

unfoldable pub capped_script : Str → ℕ → Str
unfolding decimal
capped_script script max_stderr_bytes =
    (if max_stderr_bytes == 0
      then []
      else codes "exec 2> >(head -c " ++ decimal max_stderr_bytes ++ codes " >&2); ")
    ++ codes "set -o pipefail; "
    ++ script
    ++ codes "\n__rc=$?\ncase \"$__rc\" in 141) __rc=0 ;; esac\nexit \"$__rc\""

unfoldable pub build_capped_command : List Str → ℕ → ℕ → List Str
unfolding bw_command capped_script
build_capped_command args max_stdout_bytes max_stderr_bytes =
    codes "bash"
    ∷ codes "-c"
    ∷ capped_script (bw_command args max_stdout_bytes) max_stderr_bytes
    ∷ []
