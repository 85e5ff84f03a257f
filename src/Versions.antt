-- ===== src/Versions.antt =====
-- Releases of the Bitwarden CLI and the probe of the tools that the panel needs (BitwardenModel.js,
-- `probeFields` to `vaultListFailureMessage`, without the vault's own SSH capability).
pub mod Ordered
use dms_bitwarden_cli.Common.{
  ℕ, ◌+◌, ◌-◌, Bool, true, false, not, ◌&&◌, ◌||◌, Option, none, some, List, [], ◌∷◌, ◌++◌, map,
  ltb, leb, ◌==◌, if◌then◌else◌, length, get_or, is_empty, filter, find?, all, any, Str, codes,
  ◌===◌, trim, split, is_digit,
}
use dms_bitwarden_cli.Js.Numbers.{digits_value, decimal}
use dms_bitwarden_cli.Totp.Otpauth.{before, after}

abbrev without_v : Str → Str
without_v [] = []
without_v (c ∷ s) = if c == b'v' then s else c ∷ s

abbrev is_digits : ℕ → ℕ → Str → Bool
is_digits least most s = leb least (length s) && leb (length s) most && all is_digit s

-- `Number(part)` of digits, and its text.
abbrev number_text : Str → Str
unfolding decimal digits_value
number_text s = decimal (digits_value 0 s)

-- The parts of `/^v?(\d{4})\.(\d{1,2})\.(\d{1,6})$/`, or "".
unfoldable pub normalize_release_version : Str → Str
unfolding trim split all is_digit decimal digits_value
normalize_release_version raw =
    let parts = split b'.' (without_v (trim raw)) in
    let year = get_or parts 0 [] in
    let month = get_or parts 1 [] in
    let build = get_or parts 2 [] in
    if length parts == 3 && is_digits 4 4 year && is_digits 1 2 month && is_digits 1 6 build
    then number_text year ++ codes "." ++ number_text month ++ codes "." ++ number_text build
    else []

pub data Order : Type 0 where
  less same more : Order

unfoldable pub compare_numbers : ℕ → ℕ → Order → Order
compare_numbers a b then_by = if ltb a b then less else if ltb b a then more else then_by

abbrev version_part : List Str → ℕ → ℕ
unfolding digits_value
version_part parts i = digits_value 0 (get_or parts i [])

-- The three parts, one after the other.
unfoldable pub compare_parts : List Str → List Str → Order
unfolding compare_numbers digits_value
compare_parts la ra = compare_numbers (version_part la 0) (version_part ra 0) (
    compare_numbers (version_part la 1) (version_part ra 1)
      (compare_numbers (version_part la 2) (version_part ra 2) same))

-- `none` is the null for a text that is no version.
unfoldable pub compare_release_versions : Str → Str → Option Order
unfolding normalize_release_version compare_parts split
compare_release_versions a b =
    let left = normalize_release_version a in
    let right = normalize_release_version b in
    if is_empty left || is_empty right
    then none
    else some (compare_parts (split b'.' left) (split b'.' right))

abbrev pub is_less : Option Order → Bool
is_less (some less) = true
is_less _ = false

-- The object of the probe's lines, the line that came last first.
abbrev pub Probe : Type 0
Probe = List (Str × Str)

unfoldable pub probe_lines : List Str → Probe → Probe
unfolding trim before after any
probe_lines [] found = found
probe_lines (l ∷ ls) found =
    let line = trim l in
    let skipped = probe_lines ls found in
    let set = probe_lines ls ((before b'=' line, after b'=' line) ∷ found) in
    if is_empty (before b'=' line) || not (any (λ c. c == b'=') line) then skipped else set

unfoldable pub probe_fields : Str → Probe
unfolding probe_lines split
probe_fields raw = probe_lines (split 10 raw) []

unfoldable pub probed : Str → Probe → Option Str
unfolding ◌===◌
probed k [] = none
probed k ((j, v) ∷ found) = let rest = probed k found in if j === k then some v else rest

abbrev or_blank : Option Str → Str
or_blank none = []
or_blank (some s) = s

abbrev pub is_one : Option Str → Bool
unfolding ◌===◌
is_one none = false
is_one (some s) = s === codes "1"

abbrev is_id_part : Str → Bool
is_id_part s = is_digits 1 20 s

-- Device, inode, size and time of the CLI's file, or "".
unfoldable pub dependency_bw_id : Str → Str
unfolding probe_fields probed trim split all is_digit
dependency_bw_id raw =
    let id = trim (or_blank (probed (codes "bw_id") (probe_fields raw))) in
    let parts = split b':' id in if length parts == 4 && all is_id_part parts then id else []

unfoldable pub parse_bw_version_probe : Str → Str
unfolding probe_fields probed normalize_release_version
parse_bw_version_probe raw =
    normalize_release_version (or_blank (probed (codes "bw_version") (probe_fields raw)))

pub data CliStatus : Type 0 where
  missing checking supported unsupported unknown : CliStatus

abbrev pub ssh_cli_min_version : Str
ssh_cli_min_version = codes "2025.1.2"

abbrev pub ssh_malformed_item_fix_version : Str
ssh_malformed_item_fix_version = codes "2026.8.0"

unfoldable pub ssh_cli_support : Str → CliStatus
unfolding normalize_release_version compare_release_versions
ssh_cli_support version =
    let normalized = normalize_release_version version in
    if is_empty normalized
    then unknown
    else if is_less (compare_release_versions normalized ssh_cli_min_version)
    then unsupported
    else supported

pub record Tool : Type 0 where
  pub key : Str
  pub label : Str
  pub binary : Str
  pub pkg : Str
  pub required : Bool
  pub setup : Bool
  pub purpose : Str

unfoldable pub tools : List Tool
tools =
    record {
      key = codes "wlcopy";
      label = codes "Wayland clipboard";
      binary = codes "wl-copy";
      pkg = codes "wl-clipboard";
      required = false;
      setup = false;
      purpose = codes "Copies and safely clears clipboard values using wl-copy and wl-paste.";
    }
    ∷ record {
      key = codes "bw";
      label = codes "Bitwarden CLI";
      binary = codes "bw";
      pkg = codes "bitwarden-cli";
      required = true;
      setup = false;
      purpose = codes "Reads and writes your vault. The panel installs it for you on first run.";
    }
    ∷ record {
      key = codes "jq";
      label = codes "jq";
      binary = codes "jq";
      pkg = codes "jq";
      required = true;
      setup = false;
      purpose = codes "Safely strips SSH private keys before the panel reads your vault.";
    }
    ∷ record {
      key = codes "cargo";
      label = codes "Rust/Cargo";
      binary = codes "cargo";
      pkg = codes "rust";
      required = false;
      setup = false;
      purpose = codes "Builds all three local helpers after installation or an update.";
    }
    ∷ record {
      key = codes "fprintd";
      label = codes "Fingerprint unlock";
      binary = codes "fprintd-list";
      pkg = codes "fprintd";
      required = false;
      setup = true;
      purpose = codes "Unlock with an enrolled fingerprint using the DMS PAM configuration.";
    }
    ∷ []

pub record Dependency : Type 0 where
  pub tool : Tool
  pub applicable : Bool
  pub installed : Bool
  pub ready : Bool
  pub version : Str
  pub note : Str

pub record Dependencies : Type 0 where
  pub items : List Dependency
  pub has_omarchy : Bool
  pub has_fingerprint_reader : Bool
  pub has_clipboard : Bool
  pub bw_version : Str
  pub bw_id : Str
  pub ssh_cli_status : CliStatus

unfoldable pub cli_note : CliStatus → Str → Str
cli_note unsupported version =
    codes "SSH keys need Bitwarden CLI "
    ++ ssh_cli_min_version
    ++ codes " or newer"
    ++ (if is_empty version then codes "." else codes "; found " ++ version ++ codes ".")
cli_note unknown version =
    codes
      "Could not read the Bitwarden CLI version. SSH support stays unconfirmed until that is fixed."
cli_note _ version = []

unfoldable pub dependency_of : Probe → CliStatus → Str → Tool → Dependency
unfolding probed ◌===◌ cli_note
dependency_of found status version tool =
    let installed = is_one (probed tool.key found) in
    let is_fingerprint = tool.key === codes "fprintd" in
    let is_cli = tool.key === codes "bw" in
    record {
      tool = tool;
      applicable = if is_fingerprint then is_one (probed (codes "fingerprint_hw") found) else true;
      installed = installed;
      ready =
          if is_fingerprint then is_one (probed (codes "fingerprint_ready") found) else installed;
      version = if is_cli then version else [];
      note = if is_cli && installed then cli_note status version else [];
    }

abbrev pub is_some : Option Str → Bool
is_some none = false
is_some (some s) = true

-- The version that the probe's own line gives, or the one that was asked for before.
abbrev pub known_version : Option Str → Option Str → Str
known_version (some inline) probed_version = inline
known_version none probed_version = or_blank probed_version

-- `probed_version` is `none` while the version is still being asked for.
unfoldable pub cli_status : Probe → Option Str → CliStatus
unfolding probed ssh_cli_support normalize_release_version trim ◌===◌
cli_status found probed_version =
    let inline = probed (codes "bw_version") found in
    let version = normalize_release_version (trim (known_version inline probed_version)) in
    if not (is_one (probed (codes "bw") found))
    then missing
    else if not (is_some inline) && not (is_some probed_version)
    then checking
    else ssh_cli_support version

unfoldable pub parse_dependencies : Str → Option Str → Dependencies
unfolding probe_fields probed cli_status dependency_of tools dependency_bw_id trim
    normalize_release_version ◌===◌
parse_dependencies raw probed_version =
    let found = probe_fields raw in
    let status = cli_status found probed_version in
    let version =
      normalize_release_version
        (trim (known_version (probed (codes "bw_version") found) probed_version)) in
    record {
      items = map (dependency_of found status version) tools;
      has_omarchy = is_one (probed (codes "omarchy") found);
      has_fingerprint_reader = is_one (probed (codes "fingerprint_hw") found);
      has_clipboard = is_one (probed (codes "wlcopy") found);
      bw_version = version;
      bw_id = dependency_bw_id raw;
      ssh_cli_status = status;
    }

-- The functions below also take the panel's state before the first probe, `none`.
unfoldable pub applicable_dependencies : Option Dependencies → List Dependency
unfolding filter
applicable_dependencies none = []
applicable_dependencies (some deps) = filter (λ d. d.applicable) deps.items

unfoldable pub missing_required : Option Dependencies → List Dependency
unfolding filter
missing_required none = []
missing_required (some deps) = filter (λ d. d.tool.required && not d.installed) deps.items

unfoldable pub dependency_by_key : Option Dependencies → Str → Option Dependency
unfolding find? ◌===◌
dependency_by_key none key = none
dependency_by_key (some deps) key = find? (λ d. d.tool.key === key) deps.items

unfoldable pub dependency_installed : Option Dependencies → Str → Bool
unfolding dependency_by_key
dependency_installed deps key = elim (dependency_by_key deps key) [
  | none ↦ false
  | some d ↦ d.installed
]

pub data ListMode : Type 0 where
  sanitized blocked : ListMode

unfoldable pub vault_list_mode : Option Dependencies → ListMode
unfolding dependency_installed
vault_list_mode deps =
    if dependency_installed deps (codes "bw") && dependency_installed deps (codes "jq")
    then sanitized
    else blocked

unfoldable pub vault_list_blocked_message : Option Dependencies → Str
unfolding dependency_installed
vault_list_blocked_message deps =
    if not (dependency_installed deps (codes "bw"))
    then codes "Bitwarden CLI is not installed yet."
    else if not (dependency_installed deps (codes "jq"))
    then codes "jq is required to safely read vault items. Finish setup to continue."
    else codes "Could not determine how to safely read vault items."

unfoldable pub clipboard_copy_blocked : Option Dependencies → Bool → Bool
clipboard_copy_blocked none checked = false
clipboard_copy_blocked (some deps) checked = checked && not deps.has_clipboard

abbrev pub is_supported : CliStatus → Bool
is_supported supported = true
is_supported _ = false

unfoldable pub ssh_ui_available : Option Dependencies → Bool → Bool
ssh_ui_available none checked = false
ssh_ui_available (some deps) checked = checked && is_supported deps.ssh_cli_status

abbrev sanitized_list_error : Str
sanitized_list_error = codes "Could not safely read vault items."

abbrev sanitized_list_ssh_fix_hint : Str
sanitized_list_ssh_fix_hint =
    codes " Bitwarden CLI before "
    ++ ssh_malformed_item_fix_version
    ++ codes " can fail on malformed SSH key items. Upgrading to "
    ++ ssh_malformed_item_fix_version
    ++ codes " or newer may fix this."

abbrev probed_bw_version : Option Dependencies → Str
probed_bw_version none = []
probed_bw_version (some deps) = deps.bw_version

unfoldable pub vault_list_failure_message : Option Dependencies → ListMode → Str
unfolding vault_list_blocked_message compare_release_versions
vault_list_failure_message deps blocked = vault_list_blocked_message deps
vault_list_failure_message deps sanitized =
    if is_less (compare_release_versions (probed_bw_version deps) ssh_malformed_item_fix_version)
    then sanitized_list_error ++ sanitized_list_ssh_fix_hint
    else sanitized_list_error
