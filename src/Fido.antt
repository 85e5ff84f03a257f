-- ===== src/Fido.antt =====
-- The report of the probe for FIDO2 security keys (FidoModel.js, `parseFidoProbe`).
pub mod Laws
use dms_bitwarden_cli.Common.{
  ℕ, zero, suc, ◌+◌, Bool, true, false, not, ◌&&◌, ◌||◌, Option, none, some, List, [], ◌∷◌, ◌++◌,
  leb, ◌==◌, if◌then◌else◌, length, take, drop, is_empty, filter, any, all, Str, codes, ◌===◌,
  is_digit, trim, starts_with, index_of, split,
}
use dms_bitwarden_cli.Agent.Prompts.{is_base64_unit}

pub record Credential : Type 0 where
  pub cred : Str
  pub options : Str
  pub device : Str
  pub needs_pin : Bool

pub record FidoProbe : Type 0 where
  pub installed : Bool
  pub registered : Bool
  pub token_present : Bool
  pub rp : Str
  pub credentials : List Credential
  pub usable : List Credential
  pub pin_only : Bool
  pub ready : Bool
  pub applicable : Bool

abbrev is_letter : ℕ → Bool
is_letter c = (leb b'a' c && leb c b'z') || (leb b'A' c && leb c b'Z')

abbrev is_padding : Str → Bool
is_padding [] = true
is_padding (a ∷ []) = a == b'='
is_padding (a ∷ b ∷ []) = a == b'=' && b == b'='
is_padding _ = false

-- `[A-Za-z0-9+/]*={0,2}` to the end.
unfoldable base64_rest : Str → Bool
unfolding is_base64_unit
base64_rest [] = true
base64_rest (c ∷ s) =
    let rest = base64_rest s in if is_base64_unit c then rest else is_padding (c ∷ s)

-- `/^[A-Za-z0-9+/]+={0,2}$/`.
unfoldable pub is_base64_text : Str → Bool
unfolding base64_rest is_base64_unit
is_base64_text [] = false
is_base64_text (c ∷ s) = is_base64_unit c && base64_rest s

-- A word starts the text and ends there: `\b` after its last letter.
abbrev ends_word : Str → Bool
ends_word [] = true
ends_word (c ∷ s) = not (is_letter c || is_digit c || c == b'_')

unfoldable has_option : Str → Str → Bool
unfolding starts_with is_digit
has_option word [] = false
has_option word (c ∷ s) =
    let rest = has_option word s in
    (starts_with word (c ∷ s) && ends_word (drop (length word) (c ∷ s))) || rest

-- `/\+(pin|verification)\b/`.
unfoldable pub asks_pin : Str → Bool
unfolding has_option
asks_pin options = has_option (codes "+pin") options || has_option (codes "+verification") options

-- The parts of a `cred` line, of which there must be three.
unfoldable pub credential_parts : List Str → Option Credential
unfolding is_base64_text asks_pin ◌===◌
credential_parts (cred ∷ options ∷ device ∷ []) =
    if is_base64_text cred
    then some (record {
      cred = cred;
      options = options;
      device = if device === codes "-" then [] else device;
      needs_pin = asks_pin options;
    })
    else none
credential_parts _ = none

-- What the lines have set, the latest first, and the credentials in their order.
pub record Report : Type 0 where
  pub found : List (Str × Str)
  pub creds : List Credential

unfoldable pub with_credential : Report → Option Credential → Report
with_credential r none = r
with_credential r (some c) = record r { creds = r.creds ++ c ∷ [] }

unfoldable pub probe_set : Report → Str → Str → Report
unfolding split credential_parts with_credential ◌===◌
probe_set r key value =
    if key === codes "cred"
    then with_credential r (credential_parts (split b'|' value))
    else record r { found = (key, value) ∷ r.found }

-- What a line with its first `=` there does.
unfoldable pub probe_at : Report → Str → Option ℕ → Report
unfolding trim probe_set
probe_at r line none = r
probe_at r line (some zero) = r
probe_at r line (some (suc i)) = probe_set r (take (suc i) line) (trim (drop (suc i + 1) line))

unfoldable pub fido_line : Report → Str → Report
unfolding trim index_of probe_at
fido_line r text = let line = trim text in probe_at r line (index_of (codes "=") line)

unfoldable pub fido_lines : Report → List Str → Report
unfolding fido_line
fido_lines r [] = r
fido_lines r (line ∷ lines) = fido_lines (fido_line r line) lines

-- `found[key]`, or "" where it is not set.
unfoldable pub found_value : Str → List (Str × Str) → Str
unfolding ◌===◌
found_value key [] = []
found_value key ((k, v) ∷ found) = let rest = found_value key found in if k === key then v else rest

-- `found[key] === "1"`.
unfoldable pub is_set : Str → List (Str × Str) → Bool
unfolding found_value ◌===◌
is_set key found = found_value key found === codes "1"

abbrev is_party_unit : ℕ → Bool
is_party_unit c = is_letter c || is_digit c || c == b'.' || c == b'-'

-- `/^pam:\/\/[A-Za-z0-9.-]+$/`.
unfoldable pub is_relying_party : Str → Bool
unfolding starts_with is_digit all
is_relying_party s =
    let host = drop (length (codes "pam://")) s in
    starts_with (codes "pam://") s && not (is_empty host) && all is_party_unit host

abbrev has_device : Credential → Bool
has_device c = not (is_empty c.device)

abbrev pub is_usable : Credential → Bool
is_usable c = has_device c && not c.needs_pin

unfoldable pub probe_of : Report → FidoProbe
unfolding found_value is_set is_relying_party filter any
probe_of r =
    let installed = is_set (codes "fido_installed") r.found in
    let registered = is_set (codes "fido_registered") r.found in
    let token_present = is_set (codes "fido_token") r.found in
    let said = found_value (codes "rp") r.found in
    let rp = if is_relying_party said then said else [] in
    let usable = filter is_usable r.creds in
    record {
      installed = installed;
      registered = registered;
      token_present = token_present;
      rp = rp;
      credentials = r.creds;
      usable = usable;
      pin_only = any (λ c. has_device c && c.needs_pin) r.creds && is_empty usable;
      ready =
          installed && registered && token_present && not (is_empty rp) && not (is_empty usable);
      applicable = installed || registered || token_present;
    }

-- The text of the probe, "" for `undefined` and `null`.
unfoldable pub parse_fido_probe : Str → FidoProbe
unfolding split fido_lines probe_of
parse_fido_probe raw = probe_of (fido_lines (record { found = []; creds = [] }) (split b'\n' raw))
