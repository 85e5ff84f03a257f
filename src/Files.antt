-- ===== src/Files.antt =====
-- Names and places that come from the vault or from the shell's interface and end up in the file
-- system (BitwardenModel.js, `safeAttachmentFileName`, `parentDirectory`, `baseName`,
-- `cleanAbsoluteDir`, `sshExportFileName`, `sshExportIdentities`).
pub mod Safe
pub mod Exports
use dms_bitwarden_cli.Common.{
  ℕ, zero, suc, ◌+◌, ◌-◌, Bool, true, false, not, ◌&&◌, ◌||◌, Option, none, some, List, [], ◌∷◌,
  ◌++◌, map, ltb, leb, ◌==◌, if◌then◌else◌, length, take, drop, is_empty, any, filter, Str, codes,
  ◌===◌, is_space, is_digit, trim, trim_end, starts_with, includes, index_of, last_index_of, split,
}
use dms_bitwarden_cli.Js.Values.{Value}
use dms_bitwarden_cli.Agent.Prompts.{is_base64_unit}
use dms_bitwarden_cli.Vault.{text_of}

-- `[\\/]`.
abbrev pub is_separator : ℕ → Bool
is_separator c = c == b'/' || c == 92

-- `[\x00-\x1f\x7f\\/]`.
abbrev pub is_unsafe : ℕ → Bool
is_unsafe c = leb c 31 || c == 127 || is_separator c

-- What `.` does not match.
abbrev is_line_end : ℕ → Bool
is_line_end c = c == 10 || c == 13 || c == 0x2028 || c == 0x2029

-- What follows the last separator of the first line, if that has one.
unfoldable pub after_separator : Str → Option Str
after_separator [] = none
after_separator (c ∷ s) =
    let rest = after_separator s in
    if is_line_end c
    then none
    else elim rest [ some name ↦ some name | none ↦ if is_separator c then some s else none ]

abbrev pub or_whole : Option Str → Str → Str
or_whole none s = s
or_whole (some t) s = t

abbrev pub inert : ℕ → ℕ
inert c = if is_unsafe c then b'_' else c

-- `[\s.\-]`.
unfoldable pub is_lead : ℕ → Bool
unfolding is_space
is_lead c = is_space c || c == b'.' || c == b'-'

unfoldable pub drop_lead : Str → Str
unfolding is_lead
drop_lead [] = []
drop_lead (c ∷ s) = let rest = drop_lead s in if is_lead c then rest else c ∷ s

-- The ending that a cut keeps: at most twelve units, its dot included.
unfoldable pub extension_at : Str → Option ℕ → Str
extension_at name none = []
extension_at name (some dot) = if ltb 0 dot && leb (length name - dot) 12 then drop dot name else []

unfoldable pub cut_name : Str → Str
unfolding extension_at last_index_of
cut_name name =
    let extension = extension_at name (last_index_of b'.' name) in
    if leb (length name) 128 then name else take (128 - length extension) name ++ extension

unfoldable pub safe_attachment_file_name : Str → Str
unfolding after_separator drop_lead trim_end cut_name
safe_attachment_file_name raw =
    let base = map inert (or_whole (after_separator raw) raw) in
    let name = cut_name (trim_end (drop_lead base)) in
    if is_empty name then codes "attachment" else name

unfoldable pub parent_of : Str → Option ℕ → Str
parent_of path none = []
parent_of path (some zero) = codes "/"
parent_of path (some (suc cut)) = take (suc cut) path

unfoldable pub parent_directory : Str → Str
unfolding parent_of last_index_of
parent_directory path = parent_of path (last_index_of b'/' path)

unfoldable pub base_name : Str → Str
unfolding last_index_of
base_name path = elim (last_index_of b'/' path) [ none ↦ path | some cut ↦ drop (cut + 1) path ]

-- Less the slashes at the end, but for one that is all there is.
unfoldable pub without_end_slashes : Str → Str
without_end_slashes [] = []
without_end_slashes (c ∷ s) =
    let rest = without_end_slashes s in if is_empty rest && c == b'/' then [] else c ∷ rest

abbrev pub is_traversal : Str → Bool
unfolding ◌===◌
is_traversal part = part === codes "." || part === codes ".."

-- An absolute path: after the first slash, what is left of the others at the end.
unfoldable pub clean_absolute_dir : Str → Str
unfolding without_end_slashes split any ◌===◌
clean_absolute_dir [] = []
clean_absolute_dir (c ∷ s) =
    let base = b'/' ∷ without_end_slashes s in
    if not (c == b'/') then [] else if any is_traversal (split b'/' base) then [] else base

abbrev is_key_unit : ℕ → Bool
unfolding is_base64_unit
is_key_unit c = is_base64_unit c || c == b'='

-- `[A-Za-z0-9+/=]*(\s|$)`: a unit of the key is no space, so the run of them is as long as it can be.
unfoldable pub key_rest : Str → Bool
unfolding is_base64_unit is_space
key_rest [] = true
key_rest (c ∷ s) = let rest = key_rest s in if is_key_unit c then rest else is_space c

unfoldable pub key_units : Str → Bool
unfolding is_base64_unit key_rest
key_units [] = false
key_units (c ∷ s) = is_key_unit c && key_rest s

abbrev pub key_after : Str → Str → Bool
unfolding starts_with key_units
key_after algorithm s = starts_with algorithm s && key_units (drop (length algorithm) s)

-- `SSH_PUBLIC_KEY_RE`.
unfoldable pub is_public_key : Str → Bool
unfolding starts_with key_units
is_public_key s = key_after (codes "ssh-ed25519 ") s || key_after (codes "ssh-rsa ") s

pub record Exported : Type 0 where
  pub item_id : Str
  pub name : Str
  pub fingerprint : Str
  pub public_key : Str

unfoldable pub exported_of : Value → Exported
unfolding text_of trim
exported_of identity = record {
  item_id = text_of (codes "itemId") identity;
  name = text_of (codes "name") identity;
  fingerprint = text_of (codes "fingerprint") identity;
  public_key = trim (text_of (codes "publicKey") identity);
}

unfoldable pub is_exportable : Exported → Bool
unfolding is_public_key includes
is_exportable e =
    is_public_key e.public_key
    && not (includes (codes "PRIVATE") e.public_key)
    && not (is_empty e.item_id)

unfoldable pub ssh_export_identities : List Value → List Exported
unfolding filter exported_of is_exportable
ssh_export_identities identities = filter is_exportable (map exported_of identities)

-- The names that are taken, with the item of each, the latest first.
abbrev pub Taken : Type 0
Taken = List (Str × Str)

unfoldable pub is_taken_by_other : Str → Str → Taken → Bool
unfolding ◌===◌
is_taken_by_other candidate item_id [] = false
is_taken_by_other candidate item_id ((name, owner) ∷ taken) =
    let rest = is_taken_by_other candidate item_id taken in
    if name === candidate then not (owner === item_id) else rest

unfoldable pub export_base : Str → Str
unfolding safe_attachment_file_name ◌===◌
export_base name =
    let base = safe_attachment_file_name name in
    if base === codes "attachment" then codes "ssh-key" else base

abbrev pub or_key : Str → Str
or_key [] = codes "key"
or_key (c ∷ s) = c ∷ s

-- The end of a name that another item has.
unfoldable pub own_ending : Str → Str
unfolding safe_attachment_file_name
own_ending item_id =
    codes "." ++ or_key (take 64 (safe_attachment_file_name item_id)) ++ codes ".pub"

unfoldable pub ssh_export_file_name : Str → Str → Taken → Str
unfolding export_base own_ending is_taken_by_other
ssh_export_file_name name item_id taken =
    let base = export_base name in
    if is_taken_by_other (base ++ codes ".pub") item_id taken
    then base ++ own_ending item_id
    else base ++ codes ".pub"

-- The entries of `sshExportPayload`: a file's name and its key.
unfoldable pub export_entries : Taken → List Exported → List (Str × Str)
unfolding ssh_export_file_name
export_entries taken [] = []
export_entries taken (e ∷ es) =
    let file_name = ssh_export_file_name e.name e.item_id taken in
    (file_name, e.public_key) ∷ export_entries ((file_name, e.item_id) ∷ taken) es

unfoldable pub ssh_export_entries : List Value → List (Str × Str)
unfolding export_entries ssh_export_identities
ssh_export_entries identities = export_entries [] (ssh_export_identities identities)
