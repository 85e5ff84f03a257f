-- ===== src/Examples/Forms.antt =====
-- Item forms on concrete data.
use dms_bitwarden_cli.Common.{true, ◌≡◌, refl, none, some, [], ◌∷◌, codes, filter, ◌===◌}
use dms_bitwarden_cli.Js.Numbers.{nat}
use dms_bitwarden_cli.Js.Values.{
  Value, undefined, null, boolean, number, string, array, object, nil, cons, Fields, end, field,
  field_value, prop,
}
use dms_bitwarden_cli.Forms.{value_list, array_of, list_items, validate_item_form}
use dms_bitwarden_cli.Forms.Payloads.{Form, build_create_payload}
use dms_bitwarden_cli.Forms.Edits.{stored_fields, build_edit_payload}
use dms_bitwarden_cli.Forms.Kept.{build_edit_payload_keeps}
use dms_bitwarden_cli.Forms.Logins.{build_edit_payload_keeps_login}
use dms_bitwarden_cli.Forms.Websites.{WebsitesKept, edited_uris_keeps}

abbrev website : Fields
website =
    field (codes "match") (number (nat 3))
      (field (codes "uri") (string (codes "https://a.org")) end)

abbrev other_website : Value
other_website = object (field (codes "uri") (string (codes "https://b.org")) end)

abbrev stored_login : Fields
stored_login = field (codes "username") (string (codes "me")) (
    field (codes "password") (string (codes "old ")) (
      field (codes "fido2Credentials") (array (cons (string (codes "passkey")) nil))
        (field (codes "uris") (array_of (object website ∷ other_website ∷ [])) end)))

abbrev stored_item : Fields
stored_item = field (codes "id") (string (codes "1")) (
    field (codes "type") (number (nat 1)) (
      field (codes "name") (string (codes "bank")) (
        field (codes "collectionIds") (array nil)
          (field (codes "login") (object stored_login) end))))

abbrev row : Value
row =
    object (
      field (codes "typeCode") (number (nat 1))
        (field (codes "rawObject") (object stored_item) end))

abbrev form : Form
form = record {
  name = string (codes "bank ");
  username = string (codes "me");
  password = string (codes " new");
  totp = string [];
  uri = string (codes "https://c.org");
  notes = undefined;
  favorite = boolean true;
  organization_id = string (codes "personal");
  folder_id = null;
  collection_ids = array nil;
  type_fields = undefined;
  custom_fields = undefined;
}

abbrev new_website : Fields
new_website =
    field (codes "match") (number (nat 3))
      (field (codes "uri") (string (codes "https://c.org")) end)

abbrev payload : Fields
payload = field (codes "id") (string (codes "1")) (
    field (codes "type") (number (nat 1)) (
      field (codes "name") (string (codes "bank")) (
        field (codes "login")
          (object (
            field (codes "username") (string (codes "me")) (
              field (codes "password") (string (codes " new")) (
                field (codes "fido2Credentials") (array (cons (string (codes "passkey")) nil)) (
                  field (codes "uris") (array_of (object new_website ∷ other_website ∷ []))
                    (field (codes "totp") (string []) end))))))
          (field (codes "notes") (string []) (
            field (codes "favorite") (boolean true)
              (field (codes "organizationId") null (field (codes "folderId") null end)))))))

edited : build_edit_payload row form ≡ some payload
unfolding build_edit_payload list_items
edited = refl

build_edit_payload_keeps_example :
    field_value (codes "type") payload ≡ field_value (codes "type") (stored_fields row)
unfolding ◌===◌
build_edit_payload_keeps_example =
    build_edit_payload_keeps (codes "type") row form payload edited
      (refl, (refl, (refl, (refl, (refl, (refl, tt)))))) (refl, (refl, (refl, (refl, tt))))

build_edit_payload_keeps_login_example :
    prop (codes "fido2Credentials") (field_value (codes "login") payload)
    ≡ prop (codes "fido2Credentials") (field_value (codes "login") (stored_fields row))
unfolding ◌===◌
build_edit_payload_keeps_login_example =
    build_edit_payload_keeps_login row form payload (codes "fido2Credentials") edited
      (refl, (refl, (refl, (refl, tt))))

edited_uris_keeps_example :
    WebsitesKept
      (array_of (object website ∷ other_website ∷ []))
      (string (codes "https://c.org"))
      website
      (other_website ∷ [])
      (codes "note")
unfolding value_list filter list_items ◌===◌
edited_uris_keeps_example =
    edited_uris_keeps (array_of (object website ∷ other_website ∷ []))
      (string (codes "https://c.org")) website (other_website ∷ []) (codes "note") refl
      (refl, (refl, tt))

no_title : validate_item_form (string (codes "  ")) null null null ≡ codes "Item title is required"
unfolding validate_item_form
no_title = refl

ssh_key_refused : build_create_payload (string (codes "5")) form ≡ none
unfolding build_create_payload
ssh_key_refused = refl
