-- ===== src/Settings/Screen.antt =====
-- The rows of the settings screen (BitwardenModel.js, `groupedSettings` to `groupLabelFor`).
use dms_bitwarden_cli.Common.{
  Bool, true, false, not, ◌&&◌, ◌||◌, Option, none, some, List, [], ◌∷◌, ◌++◌, if◌then◌else◌,
  filter, any, Bool-cases, inl, inr, Str, codes, ◌===◌, ◌≡◌, refl,
}
use dms_bitwarden_cli.Settings.{Group, general, security, ssh_agent, SchemaEntry, settings_schema}
use mathlib.Core.Path.{fun_ext}
use mathlib.Core.Bool.{and-true}
use dms_bitwarden_cli.Versions.{Dependencies, ssh_ui_available}

unfoldable pub same_group : Group → Group → Bool
same_group general general = true
same_group security security = true
same_group ssh_agent ssh_agent = true
same_group _ _ = false

abbrev pub group_label : Group → Str
group_label general = codes "General"
group_label security = codes "Security"
group_label ssh_agent = codes "SSH Agent"

-- In screen order.
abbrev pub settings_groups : List Group
settings_groups = general ∷ security ∷ ssh_agent ∷ []

unfoldable pub in_group : Group → List SchemaEntry
unfolding filter settings_schema same_group
in_group group = filter (λ e. same_group e.group group) settings_schema

-- Less `groupLabel`, which `visibleSettings` makes "" in every row.
unfoldable pub grouped_settings : List SchemaEntry
unfolding in_group
grouped_settings = in_group general ++ in_group security ++ in_group ssh_agent

-- `shownWhen`, which one setting has; `value` reads another setting.
unfoldable pub shown_when : Str → (Str → Bool) → Bool
unfolding ◌===◌
shown_when key value =
    if key === codes "sshAgentApprovalWindowSec"
    then value (codes "sshAgentEnabled") && not (value (codes "sshAgentApprovalUntilScreenLock"))
    else true

unfoldable pub is_shown : Bool → Option (Str → Bool) → SchemaEntry → Bool
unfolding shown_when same_group
is_shown show_ssh none e = show_ssh || not (same_group e.group ssh_agent)
is_shown show_ssh (some value) e =
    (show_ssh || not (same_group e.group ssh_agent)) && shown_when e.key value

pub data ScreenRow : Type 0 where
  heading : (group : Group) (label : Str) → ScreenRow
  setting : (entry : SchemaEntry) (last_in_group : Bool) → ScreenRow

abbrev is_last : Group → List SchemaEntry → Bool
unfolding same_group
is_last group [] = true
is_last group (e ∷ rest) = not (same_group e.group group)

-- The loop, with the groups that have their heading.
unfoldable pub screen_rows : List Group → List SchemaEntry → List ScreenRow
unfolding same_group any
screen_rows seen [] = []
screen_rows seen (e ∷ rest) =
    let row = setting e (is_last e.group rest) in
    elim (any (λ g. same_group g e.group) seen) [
      | true ↦ row ∷ screen_rows seen rest
      | false ↦ heading e.group (group_label e.group) ∷ row ∷ screen_rows (e.group ∷ seen) rest
    ]

unfoldable pub visible_settings : Option Dependencies → Bool → Option (Str → Bool) → List ScreenRow
unfolding filter is_shown grouped_settings screen_rows ssh_ui_available
visible_settings deps checked value =
    screen_rows [] (filter (is_shown (ssh_ui_available deps checked) value) grouped_settings)

-- One group's settings, the last of them marked.
abbrev pub marked : List SchemaEntry → List ScreenRow
marked [] = []
marked (e ∷ []) = setting e true ∷ []
marked (e ∷ d ∷ rest) = setting e false ∷ marked (d ∷ rest)

abbrev pub titled : Group → List SchemaEntry → List ScreenRow
titled group [] = []
titled group (e ∷ rest) = heading group (group_label group) ∷ marked (e ∷ rest)

abbrev pub section_of : Bool → Option (Str → Bool) → Group → List ScreenRow
unfolding filter is_shown in_group
section_of show_ssh value group = titled group (filter (is_shown show_ssh value) (in_group group))

-- What `shownWhen` says of the one setting that has it.
abbrev window_shown : Option (Str → Bool) → Bool
window_shown none = true
window_shown (some value) =
    value (codes "sshAgentEnabled") && not (value (codes "sshAgentApprovalUntilScreenLock"))

abbrev shown_by : Bool → Bool → SchemaEntry → Bool
unfolding same_group ◌===◌
shown_by show_ssh window e =
    (show_ssh || not (same_group e.group ssh_agent))
    && (if e.key === codes "sshAgentApprovalWindowSec" then window else true)

is_shown-shown_by :
    (show_ssh : Bool) (value : Option (Str → Bool)) (e : SchemaEntry)
    → is_shown show_ssh value e ≡ shown_by show_ssh (window_shown value) e
unfolding is_shown shown_when
is_shown-shown_by show_ssh (some value) e = refl
is_shown-shown_by show_ssh none e =
    elim (Bool-cases (e.key === codes "sshAgentApprovalWindowSec")) [
      | inl h ↦ rw (h, and-true) refl
      | inr h ↦ rw (h, and-true) refl
    ]

sections_by :
    (show_ssh window : Bool)
    → screen_rows [] (filter (shown_by show_ssh window) grouped_settings)
      ≡ titled general (filter (shown_by show_ssh window) (in_group general))
        ++ titled security (filter (shown_by show_ssh window) (in_group security))
        ++ titled ssh_agent (filter (shown_by show_ssh window) (in_group ssh_agent))
unfolding screen_rows filter grouped_settings in_group settings_schema same_group ◌===◌ any
sections_by true true = refl
sections_by true false = refl
sections_by false true = refl
sections_by false false = refl

sections :
    (show_ssh : Bool) (value : Option (Str → Bool))
    → screen_rows [] (filter (is_shown show_ssh value) grouped_settings)
      ≡ section_of show_ssh value general
        ++ section_of show_ssh value security
        ++ section_of show_ssh value ssh_agent
unfolding shown_by section_of filter
sections show_ssh value =
    rw (fun_ext (is_shown-shown_by show_ssh value)) (sections_by show_ssh (window_shown value))

-- The screen has the groups in order, each that has a shown setting under one heading, and its last
-- setting marked.
pub visible_settings_sections :
    (deps : Option Dependencies) (checked : Bool) (value : Option (Str → Bool))
    → visible_settings deps checked value
      ≡ section_of (ssh_ui_available deps checked) value general
        ++ section_of (ssh_ui_available deps checked) value security
        ++ section_of (ssh_ui_available deps checked) value ssh_agent
unfolding visible_settings
visible_settings_sections deps checked value = sections (ssh_ui_available deps checked) value
