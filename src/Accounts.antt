-- ===== src/Accounts.antt =====
-- Account slots (BitwardenModel.js, "Accounts"): which texts name a slot, and the keyring entry and
-- data directory of a slot.
pub mod Registry
pub mod Selection
pub mod Keyring
pub mod Valid
pub mod Update
pub mod Parsing
pub mod Noting
pub mod Choice
pub mod RoundTrip
use dms_bitwarden_cli.Common.{
  ℕ, ◌+◌, ◌*◌, ◌-◌, ◌/◌, Bool, false, ◌&&◌, ◌||◌, none, [], ◌∷◌, ◌++◌, leb, ◌==◌, if◌then◌else◌,
  length, is_empty, all, Str, codes, ◌===◌,
}

abbrev pub default_slot : Str
default_slot = codes "default"

abbrev pub is_lower_hex : ℕ → Bool
is_lower_hex c = (leb b'0' c && leb c b'9') || (leb b'a' c && leb c b'f')

-- ACCOUNT_SLOT_RE, `/^[0-9a-f]{16}$/`.
unfoldable pub is_private_slot : Str → Bool
unfolding all
is_private_slot s = (length s == 16) && all is_lower_hex s

unfoldable pub is_account_slot : Str → Bool
unfolding is_private_slot ◌===◌
is_account_slot s = s === default_slot || is_private_slot s

-- Anything that is not a slot means the default one.
unfoldable pub account_slot : Str → Str
unfolding is_account_slot
account_slot s = if is_account_slot s then s else default_slot

unfoldable pub keyring_entry_name : Str → Str → Str
unfolding account_slot ◌===◌
keyring_entry_name base slot =
    let s = account_slot slot in if s === default_slot then base else base ++ codes "@" ++ s

-- `path.replace(/\/+$/, "")`.
unfoldable pub strip_slashes : Str → Str
strip_slashes [] = []
strip_slashes (c ∷ s) =
    let rest = strip_slashes s in if is_empty rest && c == b'/' then [] else c ∷ rest

abbrev pub accounts_subdir : Str
accounts_subdir = codes "qs-bitwarden-cli/accounts"

abbrev is_absolute : Str → Bool
is_absolute [] = false
is_absolute (c ∷ s) = c == b'/'

-- The base directory of the slots, or "" without an absolute one.
unfoldable pub data_home : Str → Str → Str
unfolding strip_slashes
data_home xdg_data_home home =
    if is_absolute xdg_data_home
    then xdg_data_home
    else if is_absolute home
    then strip_slashes home ++ codes "/.local/share"
    else []

unfoldable pub account_app_data_dir : Str → Str → Str → Str
unfolding account_slot ◌===◌ data_home strip_slashes
account_app_data_dir slot xdg_data_home home =
    let s = account_slot slot in
    let base = data_home xdg_data_home home in
    if s === default_slot
    then []
    else if is_empty base
    then []
    else strip_slashes base ++ codes "/" ++ accounts_subdir ++ codes "/" ++ s
