-- ===== src/Forms/Edits.antt =====
-- The payload of an edit (BitwardenModel.js, `buildEditPayload`): the stored item with the form
-- written over it. `existing` is a row of the list; the item in its `rawObject` comes from JSON, so
-- that its clone is an equal value, and one that is no object counts as none.
use dms_bitwarden_cli.Common.{Bool, not, ◌&&◌, ◌||◌, Option, none, some, if◌then◌else◌, codes}
use dms_bitwarden_cli.Js.Numbers.{nat, num_eq}
use dms_bitwarden_cli.Js.Values.{
  Value, boolean, number, string, array, object, nil, Fields, end, field_value, prop, truthy,
  strict_eq, to_number,
}
use dms_bitwarden_cli.Forms.{
  text_or, set_field, delete_field, updated, selected_organization_id, selected_folder_id,
  selected_collection_ids, as_typed, trimmed_text, update_field, update_login_fields,
  update_card_fields, update_identity_fields,
}
use dms_bitwarden_cli.Forms.Payloads.{Form, edited_uris, with_custom_fields}

abbrev pub or_value : Value → Value → Value
unfolding truthy
or_value a b = if truthy a then a else b

abbrev pub is_five : Value → Bool
unfolding to_number num_eq
is_five v = num_eq (to_number v) (nat 5)

-- An SSH key, which the form cannot write.
unfoldable pub is_ssh_row : Value → Bool
unfolding truthy prop to_number num_eq
is_ssh_row existing =
    let raw = prop (codes "rawObject") existing in
    truthy existing
    && (is_five (or_value (prop (codes "typeCode") existing) (prop (codes "type") existing))
        || (truthy raw && is_five (prop (codes "type") raw)))

abbrev pub object_fields : Value → Fields
object_fields (object fs) = fs
object_fields _ = end

-- The stored item that the form is written over.
unfoldable pub stored_fields : Value → Fields
unfolding prop
stored_fields existing = object_fields (prop (codes "rawObject") existing)

unfoldable pub edit_collections : Value → Fields → Fields
unfolding truthy selected_collection_ids field_value set_field delete_field
edit_collections collection_ids payload =
    let chosen =
      or_value (selected_collection_ids collection_ids)
        (or_value (field_value (codes "collectionIds") payload) (array nil)) in
    if truthy (field_value (codes "organizationId") payload)
    then set_field (codes "collectionIds") chosen payload
    else delete_field (codes "collectionIds") payload

-- The fields that every type has.
unfoldable pub edit_common : Form → Fields → Fields
unfolding edit_collections set_field selected_folder_id selected_organization_id truthy update_field
    text_or trimmed_text
edit_common form stored =
    let named =
      update_field (codes "name") (string (text_or (codes "Untitled") form.name)) trimmed_text
        stored in
    let noted = update_field (codes "notes") form.notes as_typed named in
    let starred = set_field (codes "favorite") (boolean (truthy form.favorite)) noted in
    let owned =
      set_field (codes "organizationId") (selected_organization_id form.organization_id) starred in
    edit_collections form.collection_ids
      (set_field (codes "folderId") (selected_folder_id form.folder_id) owned)

-- `updateLoginFields`, then the websites of what it left.
unfoldable pub edit_login : Form → Fields → Fields
unfolding update_login_fields set_field edited_uris field_value
edit_login form login =
    let written = update_login_fields form.username form.password form.totp login in
    set_field (codes "uris") (edited_uris (field_value (codes "uris") written) form.uri) written

-- What an edit writes for the item's type.
unfoldable pub edit_type : Form → Fields → Fields
unfolding edit_login set_field updated field_value strict_eq truthy update_card_fields
    update_identity_fields
edit_type form payload =
    let type = field_value (codes "type") payload in
    if strict_eq type (number (nat 1)) || not (truthy type)
    then set_field (codes "login") (updated (edit_login form) (field_value (codes "login") payload))
        payload
    else if strict_eq type (number (nat 3)) && truthy form.type_fields
    then set_field (codes "card")
        (updated (update_card_fields form.type_fields) (field_value (codes "card") payload)) payload
    else if strict_eq type (number (nat 4)) && truthy form.type_fields
    then set_field (codes "identity")
        (updated (update_identity_fields form.type_fields) (field_value (codes "identity") payload))
        payload
    else payload

unfoldable pub build_edit_payload : Value → Form → Option Fields
unfolding is_ssh_row with_custom_fields edit_type edit_common stored_fields
build_edit_payload existing form =
    if is_ssh_row existing
    then none
    else some (
        with_custom_fields form.custom_fields
          (edit_type form (edit_common form (stored_fields existing))))
