-- ===== src/Vault/Envelope.antt =====
-- The sanitized document that the vault helper prints (BitwardenModel.js, `parseSanitizedEnvelope`,
-- `spliceSavedItem`, `sshCapabilityOf`). `parse_json` is `JSON.parse`, with `none` where it throws.
use dms_bitwarden_cli.Common.{
  ℕ, Bool, true, false, not, ◌&&◌, Option, none, some, List, [], ◌∷◌, ◌++◌, ◌==◌, if◌then◌else◌,
  length, is_empty, sort_by, Str, codes,
}
use dms_bitwarden_cli.Js.Numbers.{decimal}
use dms_bitwarden_cli.Js.Values.{Value, undefined, string, array, items_list, prop, strict_eq}
use dms_bitwarden_cli.Items.{Item, item_before, replace_item_by_id}
use dms_bitwarden_cli.Vault.Rows.{Row, row_before, parse_items, parse_ssh_keys}

pub data Capability : Type 0 where
  confirmed unconfirmed : Capability

abbrev pub capability_text : Capability → Str
capability_text confirmed = codes "confirmed"
capability_text unconfirmed = codes "unconfirmed"

pub record Envelope : Type 0 where
  pub items : List Row
  pub ssh_keys : List Row
  pub ssh_capability : Capability

abbrev pub array? : Value → Option (List Value)
unfolding items_list
array? (array vs) = some (items_list vs)
array? _ = none

abbrev pub is_missing : Value → Bool
is_missing undefined = true
is_missing _ = false

-- What the list of keys says, which the document's own flag must not contradict.
abbrev pub expected_capability : List Value → Capability
expected_capability [] = unconfirmed
expected_capability (k ∷ ks) = confirmed

unfoldable pub flag_contradicts : Value → List Value → Bool
unfolding strict_eq
flag_contradicts flag keys =
    not (is_missing flag)
    && not (strict_eq flag (string (capability_text (expected_capability keys))))

module _ (names_before : Str → Str → Bool) where
  unfoldable pub envelope_of : List Value → List Value → Envelope
  unfolding parse_items parse_ssh_keys sort_by item_before
  envelope_of items keys =
      let ssh_rows = parse_ssh_keys names_before keys in
      record {
        items = sort_by (row_before names_before) (parse_items names_before items ++ ssh_rows);
        ssh_keys = ssh_rows;
        ssh_capability = expected_capability keys;
      }

  unfoldable pub checked_envelope :
      Value → Option (List Value) → Option (List Value) → Option Envelope
  unfolding envelope_of flag_contradicts
  checked_envelope flag (some items) (some keys) =
      if flag_contradicts flag keys then none else some (envelope_of items keys)
  checked_envelope flag _ _ = none

  -- `none` is the null of a document that is refused.
  unfoldable pub parse_sanitized_envelope : (Str → Option Value) → Str → Option Envelope
  unfolding checked_envelope prop
  parse_sanitized_envelope parse_json raw = elim (parse_json raw) [
    | none ↦ none
    | some envelope ↦
        checked_envelope (prop (codes "sshCapability") envelope)
          (array? (prop (codes "items") envelope)) (array? (prop (codes "sshKeys") envelope))
  ]

  -- The saved item takes the place of the row with the id, on a create the provisional row's. The
  -- list holds of a row what Items reads of it.
  unfoldable pub splice_one : List Item → Str → List Row → Option (List Item)
  unfolding replace_item_by_id
  splice_one items replacing_id (one ∷ []) =
      let id = if is_empty replacing_id then one.item.id else replacing_id in
      if is_empty one.item.id
      then none
      else some (replace_item_by_id names_before items id (some one.item))
  splice_one items replacing_id _ = none

  unfoldable pub splice_saved_item :
      (Str → Option Value) → List Item → Str → Str → Option (List Item)
  unfolding parse_sanitized_envelope splice_one
  splice_saved_item parse_json items raw replacing_id =
      elim (parse_sanitized_envelope parse_json raw) [
        | none ↦ none
        | some envelope ↦ splice_one items replacing_id (envelope.items ++ envelope.ssh_keys)
      ]

abbrev pub keys_text : ℕ → Str
unfolding decimal
keys_text n = if n == 1 then codes "1 SSH key found." else decimal n ++ codes " SSH keys found."

pub record SshCapability : Type 0 where
  pub state : Str
  pub key_count : ℕ
  pub message : Str

unfoldable pub ssh_capability_of : Option Envelope → SshCapability
unfolding decimal
ssh_capability_of none = record {
  state = codes "unknown";
  key_count = 0;
  message = codes "SSH key availability has not been checked yet.";
}
ssh_capability_of (some e) = elim e.ssh_capability [
  | confirmed ↦ record {
    state = codes "confirmed";
    key_count = length e.ssh_keys;
    message = keys_text (length e.ssh_keys);
  }
  | unconfirmed ↦ record {
    state = codes "unconfirmed";
    key_count = 0;
    message = codes "No SSH keys were returned. Server support remains unconfirmed.";
  }
]
