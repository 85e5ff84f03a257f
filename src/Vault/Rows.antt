-- ===== src/Vault/Rows.antt =====
-- The rows of the item list (BitwardenModel.js, `parseItems` and `parseSshKeys`).
use dms_bitwarden_cli.Common.{
  ℕ, Bool, false, not, ◌&&◌, ◌||◌, Option, none, some, List, [], ◌∷◌, ◌++◌, map, leb, ◌==◌,
  if◌then◌else◌, length, drop, is_empty, filter, any, sort_by, Str, codes, starts_with,
}
use dms_bitwarden_cli.Js.Numbers.{Number, nat}
use dms_bitwarden_cli.Js.Values.{
  Value, null, boolean, number, string, array, object, end, field, prop, truthy, is_object_like,
  strict_eq, to_string, to_number,
}
use dms_bitwarden_cli.Forms.{text_or, list_items}
use dms_bitwarden_cli.Forms.Edits.{or_value}
use dms_bitwarden_cli.Items.{Item, Card, Identity, item_before, last_four}
use dms_bitwarden_cli.Vault.{
  text_of, id_list, item_type_name, Attachment, parse_attachments, login_uris, or_text,
  is_identified,
}
use dms_bitwarden_cli.Vault.Details.{
  CardDetail, card_detail, IdentityDetail, identity_detail, full_name_of, CustomField,
  item_custom_fields, reprompt_value,
}

-- A row: what the list reads of it is `item`, where an absent id is "".
pub record Row : Type 0 where
  pub item : Item
  pub collection_ids : List Str
  pub type_code : Number
  pub password : Str
  pub has_password : Bool
  pub has_totp : Bool
  pub totp_key : Str
  pub attachments : List Attachment
  pub subtitle : Str
  pub card : Option CardDetail
  pub identity : Option IdentityDetail
  pub has_notes : Bool
  pub fields : List CustomField
  pub held : Option Value
  pub raw_object : Option Value

-- The id `o[k]`, or "" for none.
unfoldable pub owner_id : Str → Value → Str
unfolding prop truthy to_string
owner_id k v = if truthy (prop k v) then to_string (prop k v) else []

unfoldable pub type_code_of : Value → Number
unfolding truthy to_number
type_code_of type = if truthy type then to_number type else nat 1

-- From the vault helper: which secrets it took out.
unfoldable pub held_of : Value → Option Value
unfolding prop
held_of it =
    let held = prop (codes "qsbwHeld") it in if is_object_like held then some held else none

abbrev pub holds : Str → Option Value → Bool
unfolding prop truthy
holds k none = false
holds k (some held) = truthy (prop k held)

unfoldable pub card_subtitle : Value → Str
unfolding truthy text_of prop to_string last_four
card_subtitle card =
    let digits = text_of (codes "number") card in
    let last = if leb 4 (length digits) then last_four digits else digits in
    let brand = prop (codes "brand") card in
    if not (truthy card)
    then []
    else (if truthy brand then to_string brand ++ codes " " else [])
      ++ (if is_empty last then [] else codes "•••• " ++ last)

unfoldable pub identity_subtitle : Value → Str
unfolding identity_detail text_of
identity_subtitle identity =
    or_text (full_name_of (identity_detail identity)) (text_of (codes "email") identity)

abbrev is_line_end : ℕ → Bool
is_line_end c = c == 10 || c == 13 || c == 0x2028 || c == 0x2029

-- `.replace(/\/.*$/, "")`.
unfoldable pub without_path : Str → Str
unfolding any
without_path [] = []
without_path (c ∷ s) =
    let rest = without_path s in if c == b'/' && not (any is_line_end s) then [] else c ∷ rest

-- `.replace(/^https?:\/\//, "")`.
unfoldable pub without_scheme : Str → Str
unfolding starts_with
without_scheme s =
    if starts_with (codes "https://") s
    then drop 8 s
    else if starts_with (codes "http://") s
    then drop 7 s
    else s

unfoldable pub uri_subtitle : List Str → Str → Str
unfolding without_path without_scheme
uri_subtitle [] other = other
uri_subtitle (u ∷ us) other = without_path (without_scheme u)

unfoldable pub subtitle_of : Value → List Str → Str
unfolding prop truthy to_string uri_subtitle card_subtitle identity_subtitle strict_eq
subtitle_of it uris =
    let username = prop (codes "username") (prop (codes "login") it) in
    let note =
      if strict_eq (prop (codes "type") it) (number (nat 2)) then codes "Secure Note" else [] in
    let identity = or_text (identity_subtitle (prop (codes "identity") it)) note in
    if truthy username
    then to_string username
    else uri_subtitle uris (or_text (card_subtitle (prop (codes "card") it)) identity)

abbrev pub card_of : Option CardDetail → Option Card
card_of none = none
card_of (some d) = some d.card

abbrev pub identity_of : Option IdentityDetail → Option Identity
identity_of none = none
identity_of (some d) = some d.identity

-- What the list shows and searches of an item.
unfoldable pub item_of : Value → Item
unfolding prop text_of owner_id text_or item_type_name truthy login_uris reprompt_value card_detail
    identity_detail
item_of it = record {
  id = text_of (codes "id") it;
  organization_id = owner_id (codes "organizationId") it;
  folder_id = owner_id (codes "folderId") it;
  name = text_or (codes "Untitled") (prop (codes "name") it);
  type = item_type_name (prop (codes "type") it);
  favorite = truthy (prop (codes "favorite") it);
  username = text_of (codes "username") (prop (codes "login") it);
  uris = login_uris (prop (codes "login") it);
  reprompt = reprompt_value (prop (codes "reprompt") it);
  public_key = [];
  fingerprint = [];
  card = card_of (card_detail (prop (codes "card") it));
  identity = identity_of (identity_detail (prop (codes "identity") it));
  notes = text_of (codes "notes") it;
}

abbrev pub fields_of : Option Value → Value → List CustomField
unfolding item_custom_fields prop
fields_of none it = []
fields_of (some held) it = item_custom_fields (prop (codes "fields") it) it

abbrev pub raw_of : Option Value → Value → Option Value
raw_of none it = some it
raw_of (some held) it = none

unfoldable pub row_of : Value → Row
unfolding item_of held_of prop id_list type_code_of text_of truthy parse_attachments subtitle_of
    login_uris card_detail identity_detail
row_of it =
    let login = prop (codes "login") it in
    let held = held_of it in
    record {
      item = item_of it;
      collection_ids = id_list (prop (codes "collectionIds") it);
      type_code = type_code_of (prop (codes "type") it);
      password = text_of (codes "password") login;
      has_password = truthy (prop (codes "password") login) || holds (codes "password") held;
      has_totp = truthy (prop (codes "totp") login) || holds (codes "totp") held;
      totp_key = text_of (codes "totp") login;
      attachments = parse_attachments (prop (codes "attachments") it);
      subtitle = subtitle_of it (login_uris login);
      card = card_detail (prop (codes "card") it);
      identity = identity_detail (prop (codes "identity") it);
      has_notes = truthy (prop (codes "notes") it) || holds (codes "notes") held;
      fields = fields_of held it;
      held = held;
      raw_object = raw_of held it;
    }

abbrev id_value : Str → Value
id_value s = if is_empty s then null else string s

-- The object that stands for a key in its row: nothing else of the item is kept.
unfoldable pub ssh_raw : Value → Str → Str → Value
unfolding text_of text_or prop owner_id id_list list_items truthy reprompt_value
ssh_raw it public_key fingerprint =
    let key =
      field (codes "publicKey") (string public_key)
        (field (codes "fingerprint") (string fingerprint) end) in
    object (
      field (codes "id") (string (text_of (codes "id") it)) (
        field (codes "name") (string (text_or (codes "Untitled") (prop (codes "name") it))) (
          field (codes "type") (number (nat 5)) (
            field (codes "organizationId") (id_value (owner_id (codes "organizationId") it)) (
              field (codes "collectionIds")
                (array (list_items (map string (id_list (prop (codes "collectionIds") it)))))
                (field (codes "folderId") (id_value (owner_id (codes "folderId") it)) (
                  field (codes "favorite") (boolean (truthy (prop (codes "favorite") it))) (
                    field (codes "reprompt")
                      (number (nat (reprompt_value (prop (codes "reprompt") it))))
                      (field (codes "sshKey") (object key) end)))))))))

-- An SSH key has its fingerprint and its public key in `sshKey` or in the item itself.
unfoldable pub ssh_row_of : Value → Row
unfolding prop text_of owner_id text_or truthy reprompt_value id_list ssh_raw
ssh_row_of it =
    let key = prop (codes "sshKey") it in
    let public_key =
      text_or [] (or_value (prop (codes "publicKey") key) (prop (codes "publicKey") it)) in
    let fingerprint = text_or [] (
      or_value (prop (codes "fingerprint") key) (
        or_value (prop (codes "keyFingerprint") key)
          (or_value (prop (codes "fingerprint") it) (prop (codes "keyFingerprint") it)))) in
    record {
      item = record {
        id = text_of (codes "id") it;
        organization_id = owner_id (codes "organizationId") it;
        folder_id = owner_id (codes "folderId") it;
        name = text_or (codes "Untitled") (prop (codes "name") it);
        type = codes "sshKey";
        favorite = truthy (prop (codes "favorite") it);
        username = [];
        uris = [];
        reprompt = reprompt_value (prop (codes "reprompt") it);
        public_key = public_key;
        fingerprint = fingerprint;
        card = none;
        identity = none;
        notes = [];
      };
      collection_ids = id_list (prop (codes "collectionIds") it);
      type_code = nat 5;
      password = [];
      has_password = false;
      has_totp = false;
      totp_key = [];
      attachments = [];
      subtitle = or_text fingerprint (or_text public_key (codes "SSH Key"));
      card = none;
      identity = none;
      has_notes = false;
      fields = [];
      held = none;
      raw_object = some (ssh_raw it public_key fingerprint);
    }

abbrev pub is_ssh_value : Value → Bool
is_ssh_value it = is_object_like it && is_identified it

-- `names_before` is `compareNames(a, b) < 0`.
module _ (names_before : Str → Str → Bool) where
  abbrev pub row_before : Row → Row → Bool
  unfolding item_before
  row_before a b = item_before names_before a.item b.item

  unfoldable pub parse_items : List Value → List Row
  unfolding filter row_of sort_by item_before
  parse_items values = sort_by row_before (map row_of (filter is_object_like values))

  unfoldable pub parse_ssh_keys : List Value → List Row
  unfolding filter ssh_row_of sort_by item_before is_identified
  parse_ssh_keys values = sort_by row_before (map ssh_row_of (filter is_ssh_value values))
