-- ===== src/Examples/Desktop.antt =====
-- The focused window on concrete data.
use dms_bitwarden_cli.Common.{
  ◌≡◌, refl, true, false, Option, none, some, List, [], ◌∷◌, ◌++◌, Str, codes, lower_ascii,
}
use dms_bitwarden_cli.Js.Numbers.{nat}
use dms_bitwarden_cli.Js.Values.{Value, null, number, string, array, object, end, field, nil, cons}
use dms_bitwarden_cli.Associations.Store.{WindowContext}
use dms_bitwarden_cli.Windows.{is_client, is_shell, active_client}
use dms_bitwarden_cli.Windows.Active.{active_client_other}
use dms_bitwarden_cli.Windows.Titles.{strip_title_noise, split_segments, remote_session}
use dms_bitwarden_cli.Windows.Context.{clean_window_context}
use mathlib.Core.List.{Memᴰ}

abbrev window_of : Str → Str → Value → Value
window_of cls title focus = object (
    field (codes "class") (string cls)
      (field (codes "title") (string title) (field (codes "focusHistoryID") focus end)))

abbrev shell_window : Value
shell_window = window_of (codes "QuickShell") (codes "panel") (number (nat 0))

abbrev browser_window : Value
browser_window =
    window_of (codes "firefox")
      (codes "(3) Sign in to GitHub | github.com " ++ 0x2014 ∷ codes " Mozilla Firefox")
      (number (nat 1))

abbrev windows : List Value
windows = browser_window ∷ null ∷ shell_window ∷ []

cleaned :
    strip_title_noise
      (codes "(3) Sign in to GitHub | github.com " ++ 0x2014 ∷ codes " Mozilla Firefox")
    ≡ codes "GitHub | github.com"
unfolding strip_title_noise
cleaned = refl

host : remote_session (codes "ssh -v root@box.example.org uptime") ≡ some (codes "box.example.org")
unfolding remote_session
host = refl

parts :
    split_segments (codes "Notes :: work - draft")
    ≡ codes "Notes" ∷ codes "work" ∷ codes "draft" ∷ []
unfolding split_segments
parts = refl

active_client_other_example :
    (w : Value) × (active_client windows ≡ some w) × (is_shell w ≡ false) × (is_client w ≡ true)
unfolding is_client is_shell
active_client_other_example = active_client_other windows browser_window (Memᴰ.head refl) refl refl

abbrev shown : Option WindowContext → Option (Str × (Str × List Str))
shown none = none
shown (some ctx) = some (ctx.title, (ctx.display_name, ctx.title_tokens))

context :
    shown (clean_window_context lower_ascii (array (cons shell_window (cons browser_window nil))))
    ≡ some (codes "GitHub | github.com", (codes "github.com", codes "github" ∷ []))
unfolding clean_window_context
context = refl
