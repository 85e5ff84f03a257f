-- ===== src/Vault/Public.antt =====
-- An item's detail, with its secrets and without them (BitwardenModel.js, `itemDetailFromObject`,
-- `publicItemDetail`, `detailSecretValue`). A detail is a row with no subtitle.
use dms_bitwarden_cli.Common.{
  Bool, true, false, not, ◌||◌, Option, none, some, List, [], ◌∷◌, map, if◌then◌else◌, ◌==◌, length,
  drop, is_empty, Str, codes, ◌===◌, starts_with,
}
use mathlib.Core.Option
use dms_bitwarden_cli.Js.Numbers.{Number, nat, num_eq, string_to_number}
use dms_bitwarden_cli.Js.Values.{Value, undefined, number, prop, truthy, is_object_like, to_number}
use dms_bitwarden_cli.Items.{to_list}
use dms_bitwarden_cli.Vault.{text_of, id_list, parse_attachments, or_text}
use dms_bitwarden_cli.Vault.Details.{
  CardDetail, card_detail, IdentityDetail, identity_detail, CustomField, item_custom_fields,
}
use dms_bitwarden_cli.Vault.Rows.{Row, ssh_row_of, item_of, type_code_of, card_of, identity_of}

unfoldable pub detail_of : Value → Row
unfolding item_of prop id_list type_code_of text_of truthy parse_attachments card_detail
    identity_detail item_custom_fields
detail_of it =
    let login = prop (codes "login") it in
    record {
      item = item_of it;
      collection_ids = id_list (prop (codes "collectionIds") it);
      type_code = type_code_of (prop (codes "type") it);
      password = text_of (codes "password") login;
      has_password = truthy (prop (codes "password") login);
      has_totp = truthy (prop (codes "totp") login);
      totp_key = text_of (codes "totp") login;
      attachments = parse_attachments (prop (codes "attachments") it);
      subtitle = [];
      card = card_detail (prop (codes "card") it);
      identity = identity_detail (prop (codes "identity") it);
      has_notes = truthy (prop (codes "notes") it);
      fields = item_custom_fields (prop (codes "fields") it) it;
      held = none;
      raw_object = some it;
    }

-- An SSH key's detail is its row, but that the whole item is kept.
unfoldable pub item_detail_from_object : Value → Option Row
unfolding detail_of ssh_row_of prop to_number num_eq
item_detail_from_object it =
    if not (is_object_like it)
    then none
    else if num_eq (to_number (prop (codes "type") it)) (nat 5)
    then some (record (ssh_row_of it) { subtitle = []; raw_object = some it })
    else some (detail_of it)

abbrev pub withheld : Str
withheld = codes "•"

-- A row is drawn where the flag says so; without the flag, where the value or the helper may have it.
unfoldable pub has_secret : Option Value → Str → Str → Bool
unfolding prop truthy
has_secret none flag value = not (is_empty value)
has_secret (some flags) flag value = elim (prop flag flags) [ undefined ↦ true | v ↦ truthy v ]

abbrev mark : Bool → Str
mark true = withheld
mark false = []

unfoldable pub public_card : Option Value → CardDetail → CardDetail
unfolding has_secret
public_card held c = record c {
  card = record (c.card) { number = mark (not (is_empty c.card.number)) };
  code = mark (has_secret held (codes "cardCode") c.code);
}

unfoldable pub public_identity : Option Value → IdentityDetail → IdentityDetail
unfolding has_secret
public_identity held i = record i {
  ssn = mark (has_secret held (codes "ssn") i.ssn);
  passport_number = mark (has_secret held (codes "passportNumber") i.passport_number);
  license_number = mark (has_secret held (codes "licenseNumber") i.license_number);
}

unfoldable pub public_field : CustomField → CustomField
public_field f = record f { value = if f.sensitive then withheld else f.value }

abbrev some_code : Number → Number
some_code n = if truthy (number n) then n else nat 1

-- Of a row or a detail.
unfoldable pub public_item_detail : Row → Row
unfolding public_card public_identity public_field truthy
public_item_detail src =
    let card = Option.map (public_card src.held) src.card in
    let identity = Option.map (public_identity src.held) src.identity in
    record {
      item = record (src.item) {
        name = or_text src.item.name (codes "Untitled");
        uris = to_list src.item.uris;
        reprompt = if src.item.reprompt == 1 then 1 else 0;
        public_key = [];
        fingerprint = [];
        card = card_of card;
        identity = identity_of identity;
        notes = [];
      };
      collection_ids = to_list src.collection_ids;
      type_code = some_code src.type_code;
      password = [];
      has_password = src.has_password;
      has_totp = src.has_totp;
      totp_key = [];
      attachments = to_list src.attachments;
      subtitle = [];
      card = card;
      identity = identity;
      has_notes = src.has_notes || not (is_empty src.item.notes);
      fields = map public_field (to_list src.fields);
      held = none;
      raw_object = none;
    }

-- The last field with the index.
unfoldable pub field_at : Number → List CustomField → Option Str → Option Str
unfolding num_eq
field_at index [] found = found
field_at index (f ∷ fs) found =
    let later = field_at index fs (some f.value) in
    let past = field_at index fs found in if num_eq (nat f.index) index then later else past

abbrev pub custom_prefix : Str
custom_prefix = codes "customField:"

-- The secrets by their names.
unfoldable pub named_secret : Row → Str → Option Str
unfolding ◌===◌
named_secret detail key =
    if key === codes "password"
    then some detail.password
    else if key === codes "notes"
    then some detail.item.notes
    else if key === codes "cardNumber"
    then Option.map (λ c. c.card.number) detail.card
    else if key === codes "cardCode"
    then Option.map (λ c. c.code) detail.card
    else if key === codes "ssn"
    then Option.map (λ i. i.ssn) detail.identity
    else if key === codes "passportNumber"
    then Option.map (λ i. i.passport_number) detail.identity
    else if key === codes "licenseNumber"
    then Option.map (λ i. i.license_number) detail.identity
    else none

-- `none` for `null`.
unfoldable pub detail_secret_value : Row → Str → Option Str
unfolding named_secret field_at starts_with string_to_number
detail_secret_value detail key =
    if starts_with custom_prefix key
    then field_at (string_to_number (drop (length custom_prefix) key)) (to_list detail.fields) none
    else named_secret detail key
