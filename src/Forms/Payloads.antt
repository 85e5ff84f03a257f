-- ===== src/Forms/Payloads.antt =====
-- The payloads that a save sends (BitwardenModel.js, `editedUris`, `customFieldsPayload`,
-- `buildCreatePayload` and `buildEditPayload`).
use dms_bitwarden_cli.Common.{
  lower_ascii, ℕ, suc, Bool, true, false, not, ◌&&◌, ◌||◌, Option, none, some, List, [], ◌∷◌, map,
  if◌then◌else◌, is_empty, filter, Str, codes, ◌===◌, trim,
}
use dms_bitwarden_cli.Js.Numbers.{Number, nan, nat, num_eq, num_lt, decimal}
use dms_bitwarden_cli.Js.Values.{
  Value, undefined, null, boolean, number, string, array, object, Items, nil, cons, Fields, end,
  field, prop, truthy, is_object_like, is_true, to_string, to_number, text_or_empty,
}
use dms_bitwarden_cli.Forms.{
  value_list, array_of, text_or, set_field, selected_organization_id, selected_folder_id,
  selected_collection_ids, update_login_fields, update_card_fields, update_identity_fields,
}

-- The own properties that `for (k in o)` copies.
unfoldable pub indexed_fields : ℕ → Items → Fields
unfolding decimal
indexed_fields i nil = end
indexed_fields i (cons v vs) = field (decimal i) v (indexed_fields (suc i) vs)

unfoldable pub own_fields : Value → Fields
unfolding indexed_fields
own_fields (object fs) = fs
own_fields (array vs) = indexed_fields 0 vs
own_fields _ = end

abbrev pub or_null : Value → Value
or_null undefined = null
or_null v = v

-- The first website with its address replaced.
unfoldable pub replaced_uri : Value → Str → Value
unfolding own_fields set_field prop trim
replaced_uri first text = object (
    set_field (codes "uri") (string (trim text))
      (set_field (codes "match") (or_null (prop (codes "match") first)) (own_fields first)))

abbrev pub new_uri : Str → Value
new_uri t = object (field (codes "match") null (field (codes "uri") (string t) end))

abbrev pub or_empty_array : Value → Value
or_empty_array undefined = array nil
or_empty_array v = v

unfoldable pub edited_kept : Value → List Value → Str → Value
unfolding replaced_uri text_or_empty prop trim ◌===◌
edited_kept stored [] text =
    if is_empty (trim text) then or_empty_array stored else array_of (new_uri (trim text) ∷ [])
edited_kept stored (first ∷ rest) text =
    if text === text_or_empty (prop (codes "uri") first)
    then array_of (first ∷ rest)
    else if is_empty (trim text)
    then array_of rest
    else array_of (replaced_uri first text ∷ rest)

unfoldable pub edited_uris : Value → Value → Value
unfolding edited_kept value_list filter text_or_empty
edited_uris stored typed =
    edited_kept stored (filter is_object_like (value_list stored)) (text_or_empty typed)

-- The type of a custom field: 0 for one out of range.
unfoldable pub field_type : Number → Number
unfolding num_lt
field_type nan = nat 0
field_type n = if num_lt n (nat 0) || num_lt (nat 3) n then nat 0 else n

-- `toLowerCase` of a text is "true" only if the text is made of these ASCII letters.
unfoldable pub is_true_text : Value → Bool
unfolding to_string ◌===◌
is_true_text v = is_true v || lower_ascii (to_string v) === codes "true"

abbrev pub is_nullish : Value → Bool
is_nullish undefined = true
is_nullish null = true
is_nullish _ = false

unfoldable pub field_payload : Value → Value
unfolding field_type is_true_text to_string to_number text_or_empty prop num_eq
field_payload f =
    let type = field_type (to_number (prop (codes "type") f)) in
    let linked = prop (codes "linkedId") f in
    let value =
      if num_eq type (nat 3)
      then null
      else if num_eq type (nat 2)
      then string (if is_true_text (prop (codes "value") f) then codes "true" else codes "false")
      else string (text_or_empty (prop (codes "value") f)) in
    let link =
      if num_eq type (nat 3) && not (is_nullish linked)
      then field (codes "linkedId") (number (to_number linked)) end
      else end in
    object (
      field (codes "name") (string (to_string (prop (codes "name") f)))
        (field (codes "type") (number type) (field (codes "value") value link)))

abbrev pub is_labelled : Value → Bool
unfolding truthy text_or prop trim
is_labelled f = truthy f && not (is_empty (trim (text_or [] (prop (codes "name") f))))

unfoldable pub custom_fields_payload : Value → Value
unfolding field_payload value_list filter truthy text_or prop trim
custom_fields_payload fields = array_of (map field_payload (filter is_labelled (value_list fields)))

-- The arguments of the builders, in their order.
pub record Form : Type 0 where
  pub name : Value
  pub username : Value
  pub password : Value
  pub totp : Value
  pub uri : Value
  pub notes : Value
  pub favorite : Value
  pub organization_id : Value
  pub folder_id : Value
  pub collection_ids : Value
  pub type_fields : Value
  pub custom_fields : Value

abbrev pub is_left_out : Value → Bool
is_left_out undefined = true
is_left_out _ = false

-- `if (customFields !== undefined) payload.fields = …`.
unfoldable pub with_custom_fields : Value → Fields → Fields
unfolding set_field custom_fields_payload
with_custom_fields fields payload =
    if is_left_out fields
    then payload
    else set_field (codes "fields") (custom_fields_payload fields) payload

unfoldable pub new_login : Form → Fields
unfolding update_login_fields set_field edited_uris
new_login form =
    set_field (codes "uris") (edited_uris undefined form.uri)
      (update_login_fields form.username form.password form.totp end)

-- What the new item has of its type.
unfoldable pub with_new_type : Number → Form → Fields → Fields
unfolding new_login set_field update_card_fields update_identity_fields num_eq
with_new_type type form payload =
    if num_eq type (nat 1)
    then set_field (codes "login") (object (new_login form)) payload
    else if num_eq type (nat 2)
    then set_field (codes "secureNote") (object (field (codes "type") (number (nat 0)) end)) payload
    else if num_eq type (nat 3)
    then set_field (codes "card") (object (update_card_fields form.type_fields end)) payload
    else if num_eq type (nat 4)
    then set_field (codes "identity") (object (update_identity_fields form.type_fields end)) payload
    else payload

abbrev pub or_login : Value → Number
unfolding truthy to_number
or_login type = if truthy type then to_number type else nat 1

unfoldable pub new_payload : Value → Form → Fields
unfolding truthy text_or trim to_number text_or_empty selected_organization_id selected_folder_id
new_payload type_code form = field (codes "type") (number (or_login type_code)) (
    field (codes "name") (string (trim (text_or (codes "Untitled") form.name))) (
      field (codes "notes") (string (text_or_empty form.notes)) (
        field (codes "favorite") (boolean (truthy form.favorite)) (
          field (codes "organizationId") (selected_organization_id form.organization_id)
            (field (codes "folderId") (selected_folder_id form.folder_id) end)))))

unfoldable pub with_new_collections : Form → Fields → Fields
unfolding selected_organization_id selected_collection_ids set_field truthy
with_new_collections form payload =
    if truthy (selected_organization_id form.organization_id)
      && truthy (selected_collection_ids form.collection_ids)
    then set_field (codes "collectionIds") (selected_collection_ids form.collection_ids) payload
    else payload

-- `none` is the null for an SSH key, which the form cannot write.
unfoldable pub build_create_payload : Value → Form → Option Fields
unfolding with_custom_fields with_new_type with_new_collections new_payload to_number num_eq
build_create_payload type_code form =
    if num_eq (to_number type_code) (nat 5)
    then none
    else some (
        with_custom_fields form.custom_fields (
          with_new_type (to_number type_code) form
            (with_new_collections form (new_payload type_code form))))
