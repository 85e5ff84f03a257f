-- ===== src/Windows.antt =====
-- The focused window (BitwardenModel.js, `getActiveWindowFromData`, `stripTitleNoise`,
-- `splitSegments`, `windowIdentity` and `cleanWindowContext`).
pub mod Patterns
pub mod Titles
pub mod Context
pub mod Active
pub mod Fuel
use dms_bitwarden_cli.Common.{
  ℕ, Bool, true, false, not, ◌&&◌, ◌||◌, Option, none, some, List, [], ◌∷◌, if◌then◌else◌, is_empty,
  filter, find?, any, sort_by, Str, codes, ◌===◌, trim, lower_ascii,
}
use dms_bitwarden_cli.Js.Numbers.{Number, nat, num_lt}
use dms_bitwarden_cli.Js.Values.{
  Value, undefined, boolean, array, prop, truthy, strict_eq, to_number, items_list,
}
use dms_bitwarden_cli.Forms.{text_or}
use dms_bitwarden_cli.Forms.Edits.{or_value}

-- `String(w[k] || w[j] || "")`.
unfoldable pub either_text : Str → Str → Value → Str
unfolding text_or prop truthy
either_text k j w = text_or [] (or_value (prop k w) (prop j w))

unfoldable pub class_of : Value → Str
unfolding either_text
class_of w = either_text (codes "class") (codes "initialClass") w

-- The classes of the shell itself: `SHELL_CLASS_RE`.
unfoldable pub is_shell : Value → Bool
unfolding class_of any ◌===◌
is_shell w =
    let cls = lower_ascii (class_of w) in
    any (λ name. name === cls)
      (codes "quickshell"
        ∷ codes "dms"
        ∷ codes "dankmaterialshell"
        ∷ codes "omarchy"
        ∷ codes "omarchy-shell"
        ∷ codes "omarchy-menu"
        ∷ [])

-- A window that is shown and has a class.
unfoldable pub is_client : Value → Bool
unfolding truthy prop strict_eq class_of trim
is_client c =
    truthy c
    && not (strict_eq (prop (codes "mapped") c) (boolean false))
    && not (is_empty (trim (class_of c)))

unfoldable pub focus_of : Value → Number
unfolding prop to_number
focus_of c = elim (prop (codes "focusHistoryID") c) [ undefined ↦ nat 999 | v ↦ to_number v ]

-- The most recently focused first.
unfoldable pub focused_before : Value → Value → Bool
unfolding focus_of num_lt
focused_before a b = num_lt (focus_of a) (focus_of b)

abbrev pub head? : List Value → Option Value
head? [] = none
head? (c ∷ cs) = some c

unfoldable pub active_client : List Value → Option Value
unfolding sort_by filter find? is_client is_shell focused_before
active_client clients =
    let sorted = sort_by focused_before (filter is_client clients) in
    elim (find? (λ c. not (is_shell c)) sorted) [ some c ↦ some c | none ↦ head? sorted ]

-- One window that the compositor names: none if it has no class and no title, or is the shell's.
unfoldable pub named_window : Value → Option Value
unfolding truthy prop is_shell
named_window w =
    let class_name = or_value (prop (codes "class") w) (prop (codes "initialClass") w) in
    if not (truthy class_name || truthy (prop (codes "title") w)) || is_shell w
    then none
    else some w

unfoldable pub get_active_window_from_data : Value → Option Value
unfolding active_client items_list named_window truthy
get_active_window_from_data (array clients) = active_client (items_list clients)
get_active_window_from_data w = if truthy w then named_window w else none
