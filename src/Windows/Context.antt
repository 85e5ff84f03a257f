-- ===== src/Windows/Context.antt =====
-- What the panel makes of the focused window (BitwardenModel.js, `windowIdentity` and
-- `cleanWindowContext`). `lower` is `toLowerCase`.
use dms_bitwarden_cli.Common.{
  ℕ, zero, suc, ◌-◌, Bool, true, false, ◌&&◌, ◌||◌, Option, none, some, List, [], ◌∷◌, ◌++◌, leb,
  if◌then◌else◌, length, take, is_empty, any, Str, codes, ◌===◌, starts_with, includes, trim,
  lower_ascii,
}
use dms_bitwarden_cli.Js.Values.{Value}
use dms_bitwarden_cli.Associations.{max_title_chars}
use dms_bitwarden_cli.Associations.Store.{WindowContext}
use dms_bitwarden_cli.Sites.{Domain, has_text, aliases_for}
use dms_bitwarden_cli.Sites.Names.{generic_labels, is_listed}
use dms_bitwarden_cli.Sites.Hosts.{squash, extract_tokens, parse_host, detect_domain_in_text}
use dms_bitwarden_cli.Windows.{either_text, class_of, get_active_window_from_data}
use dms_bitwarden_cli.Windows.Titles.{strip_title_noise, split_segments, remote_session}

abbrev names_one : List Str → Str → Bool
unfolding any includes
names_one names cls = any (λ name. includes name (lower_ascii cls)) names

-- `BROWSER_CLASS_RE` and `TERMINAL_CLASS_RE`.
unfoldable pub is_browser_class : Str → Bool
unfolding names_one
is_browser_class = names_one (
    codes "chrome"
    ∷ codes "chromium"
    ∷ codes "firefox"
    ∷ codes "brave"
    ∷ codes "zen"
    ∷ codes "vivaldi"
    ∷ codes "edge"
    ∷ codes "opera"
    ∷ codes "epiphany"
    ∷ codes "qutebrowser"
    ∷ codes "librewolf"
    ∷ codes "floorp"
    ∷ codes "waterfox"
    ∷ codes "thorium"
    ∷ codes "helium"
    ∷ [])

unfoldable pub is_terminal_class : Str → Bool
unfolding names_one
is_terminal_class = names_one (
    codes "foot"
    ∷ codes "alacritty"
    ∷ codes "kitty"
    ∷ codes "ghostty"
    ∷ codes "terminal"
    ∷ codes "konsole"
    ∷ codes "wezterm"
    ∷ codes "xterm"
    ∷ codes "rxvt"
    ∷ codes "tilix"
    ∷ codes "st-256color"
    ∷ [])

pub record WindowIdentity : Type 0 where
  pub clean_title : Str
  pub detected_domain : Option Domain
  pub display_name : Str
  pub is_browser : Bool
  pub is_terminal : Bool

abbrev first_of : List Str → Str
first_of [] = []
first_of (s ∷ ss) = s

abbrev name_or : Str → Str → Str
name_or [] t = t
name_or (c ∷ s) t = c ∷ s

abbrev shown_domain : Option Domain → Str → Str
shown_domain none title = title
shown_domain (some d) title = d.base_domain

-- The host in the text becomes a blank, everywhere; `skip` units of it are still to pass.
unfoldable pub blank_out : Str → ℕ → Str → Str
unfolding starts_with
blank_out host skip [] = []
blank_out host (suc skip) (c ∷ s) = blank_out host skip s
blank_out host zero (c ∷ s) = elim (starts_with (lower_ascii host) (lower_ascii (c ∷ s))) [
  | true ↦ b' ' ∷ blank_out host (length host - 1) s
  | false ↦ c ∷ blank_out host zero s
]

unfoldable pub match_text_of : Option Domain → Str → Str
unfolding blank_out trim
match_text_of none title = title
match_text_of (some d) title = trim (blank_out d.host 0 title)

-- The site's own name counts as a word of the title.
unfoldable pub with_root : Option Domain → List Str → List Str
unfolding any ◌===◌
with_root none tokens = tokens
with_root (some d) tokens =
    if is_empty d.root_name || is_listed generic_labels d.root_name || has_text d.root_name tokens
    then tokens
    else tokens ++ d.root_name ∷ []

unfoldable pub clipped_name : Str → Str
clipped_name name = if leb (length name) 40 then name else take 37 name ++ codes "..."

module _ (lower : Str → Str) where
  unfoldable pub browser_identity : Str → Bool → WindowIdentity
  unfolding strip_title_noise detect_domain_in_text
  browser_identity title is_terminal =
      let clean = strip_title_noise title in
      let domain = detect_domain_in_text lower clean in
      record {
        clean_title = clean;
        detected_domain = domain;
        display_name = shown_domain domain clean;
        is_browser = true;
        is_terminal = is_terminal;
      }

  -- Only remote sessions: a local shell's title describes this machine.
  unfoldable pub terminal_identity : Str → Option WindowIdentity
  unfolding remote_session parse_host
  terminal_identity title = elim (remote_session title) [
    | none ↦ none
    | some host ↦ some (record {
      clean_title = host;
      detected_domain = parse_host lower host;
      display_name = codes "SSH: " ++ host;
      is_browser = false;
      is_terminal = true;
    })
  ]

  unfoldable pub window_identity : Str → Str → Option WindowIdentity
  unfolding browser_identity terminal_identity is_browser_class is_terminal_class strip_title_noise
      split_segments
  window_identity cls title =
      let app_title = first_of (split_segments (strip_title_noise title)) in
      if is_browser_class cls
      then some (browser_identity title (is_terminal_class cls))
      else if is_terminal_class cls
      then terminal_identity title
      else some (record {
        clean_title = app_title;
        detected_domain = none;
        display_name = name_or app_title cls;
        is_browser = false;
        is_terminal = false;
      })

  unfoldable pub context_of : Str → WindowIdentity → WindowContext
  unfolding squash extract_tokens aliases_for with_root match_text_of clipped_name split_segments
  context_of cls identity =
      let text = match_text_of identity.detected_domain identity.clean_title in
      let tokens = with_root identity.detected_domain (extract_tokens lower text) in
      let aliases = aliases_for tokens in
      record {
        cls_squashed = squash lower cls;
        title = identity.clean_title;
        match_text = text;
        squashed_title = squash lower identity.clean_title;
        squashed_match_text = squash lower text;
        segments = split_segments identity.clean_title;
        title_tokens = tokens ++ aliases;
        alias_tokens = aliases;
        display_name = clipped_name identity.display_name;
        detected_domain = identity.detected_domain;
        is_browser = identity.is_browser;
        is_terminal = identity.is_terminal;
      }

  -- Of a class and a title that are not both "".
  unfoldable pub identified_context : Str → Option WindowIdentity → Option WindowContext
  unfolding context_of
  identified_context cls none = none
  identified_context cls (some identity) =
      if is_empty identity.clean_title && is_empty cls then none else some (context_of cls identity)

  unfoldable pub window_context : Value → Option WindowContext
  unfolding class_of either_text trim identified_context window_identity
  window_context w =
      let cls = take max_title_chars (trim (lower (class_of w))) in
      let title =
        take max_title_chars (trim (either_text (codes "title") (codes "initialTitle") w)) in
      if is_empty cls && is_empty title
      then none
      else identified_context cls (window_identity cls title)

  unfoldable pub clean_window_context : Value → Option WindowContext
  unfolding get_active_window_from_data window_context
  clean_window_context window_data = elim (get_active_window_from_data window_data) [
    | none ↦ none
    | some w ↦ window_context w
  ]
