-- ===== src/Forms.antt =====
-- Item forms (BitwardenModel.js, `toList`, `validateItemForm`, `selectedOrganizationId` to
-- `customFieldsPayload`): what a form's values become. Stored items and form values are dynamic
-- values.
pub mod Payloads
pub mod Edits
pub mod Kept
pub mod Websites
pub mod Logins
use dms_bitwarden_cli.Common.{
  ℕ, zero, suc, ◌+◌, ◌-◌, min, Bool, true, false, not, ◌&&◌, ◌||◌, none, List, [], ◌∷◌, ◌++◌, ◌==◌,
  if◌then◌else◌, length, take, is_empty, pos, Str, codes, ◌===◌, trim,
}
use dms_bitwarden_cli.Js.Numbers.{Number, nan, infinite, fin, decimal}
use dms_bitwarden_cli.Js.Values.{
  Value, undefined, null, number, string, array, object, Items, nil, cons, Fields, end, field,
  items_list, field_value, prop, truthy, strict_eq, to_string, text_or_empty,
}
use dms_bitwarden_cli.Items.{max_list_entries}
use Prim.Native.String.{String}

-- `value[0]` to `value[n - 1]`, from index `i` on.
unfoldable pub indexed : ℕ → ℕ → Value → List Value
unfolding prop decimal
indexed zero i v = []
indexed (suc n) i v = prop (decimal i) v ∷ indexed n (suc i) v

unfoldable pub list_like : Value → Number → List Value
unfolding indexed
list_like v (fin (pos n) []) = indexed (min n max_list_entries) 0 v
list_like v (infinite false) = indexed max_list_entries 0 v
list_like v _ = []

abbrev number? : Value → Number
number? (number n) = n
number? _ = nan

-- `toList(value)`.
unfoldable pub value_list : Value → List Value
unfolding items_list list_like prop
value_list (array vs) = take max_list_entries (items_list vs)
value_list (object fs) = list_like (object fs) (number? (prop (codes "length") (object fs)))
value_list _ = []

unfoldable pub list_items : List Value → Items
list_items [] = nil
list_items (v ∷ vs) = cons v (list_items vs)

abbrev pub array_of : List Value → Value
array_of vs = array (list_items vs)

-- `String(v || d)`.
unfoldable pub text_or : Str → Value → Str
unfolding truthy to_string
text_or d v = if truthy v then to_string v else d

-- `o[k] = v`: in place where the property is there, else at the end.
unfoldable pub set_field : Str → Value → Fields → Fields
unfolding ◌===◌
set_field k v end = field k v end
set_field k v (field j w fs) =
    let later = set_field k v fs in if j === k then field j v fs else field j w later

-- `delete o[k]`.
unfoldable pub delete_field : Str → Fields → Fields
unfolding ◌===◌
delete_field k end = end
delete_field k (field j w fs) =
    let later = delete_field k fs in if j === k then later else field j w later

-- What `if (!o.k) o.k = {}` and assignments to properties of `o.k` make of its value; those to a
-- primitive, or to an array, do not show in JSON.
unfoldable pub updated : (Fields → Fields) → Value → Value
unfolding truthy
updated f (object fs) = object (f fs)
updated f v = if truthy v then v else object (f end)

abbrev pub equals_text : Str → Value → Bool
equals_text t v = strict_eq v (string t)

abbrev is_array : Value → Bool
is_array (array vs) = true
is_array _ = false

abbrev is_filled_array : Value → Bool
is_filled_array (array (cons v vs)) = true
is_filled_array _ = false

unfoldable pub selected_organization_id : Value → Value
unfolding truthy strict_eq to_string
selected_organization_id id =
    if not (truthy id) || equals_text (codes "personal") id || equals_text (codes "all") id
    then null
    else string (to_string id)

unfoldable pub selected_folder_id : Value → Value
unfolding truthy strict_eq to_string
selected_folder_id id =
    if not (truthy id) || equals_text (codes "all") id || equals_text (codes "none") id
    then null
    else string (to_string id)

unfoldable pub selected_collection_ids : Value → Value
selected_collection_ids ids = if is_filled_array ids then ids else null

-- "" where the form is in order. The first custom field without a label is named by its place.
unfoldable pub unlabelled : ℕ → List Value → Str
unfolding truthy text_or prop trim decimal
unlabelled i [] = []
unlabelled i (f ∷ fs) =
    let rest = unlabelled (suc i) fs in
    if not (truthy f) || is_empty (trim (text_or [] (prop (codes "name") f)))
    then codes "Custom field " ++ decimal (suc i) ++ codes " needs a label"
    else rest

unfoldable pub validate_item_form : Value → Value → Value → Value → Str
unfolding unlabelled value_list text_or trim truthy strict_eq
validate_item_form name organization_id collection_ids custom_fields =
    let is_org =
      truthy organization_id
      && not (equals_text (codes "personal") organization_id)
      && not (equals_text (codes "all") organization_id) in
    if is_empty (trim (text_or [] name))
    then codes "Item title is required"
    else if is_org && not (is_filled_array collection_ids)
    then codes "Pick at least one collection for an organization item"
    else unlabelled 0 (value_list custom_fields)

-- What is made of a changed text.
abbrev pub as_typed : Str → Value
as_typed s = string s

unfoldable pub trimmed_text : Str → Value
unfolding trim
trimmed_text s = string (trim s)

unfoldable pub trimmed_or_null : Str → Value
unfolding trim
trimmed_or_null s = if is_empty (trim s) then null else string (trim s)

abbrev pub or_string : Value → Str → Value
or_string undefined s = string s
or_string v s = v

-- `formValue(stored, typed, clean)`, with `as_typed` for a `clean` of null.
unfoldable pub form_value : Value → Value → (Str → Value) → Value
unfolding text_or_empty ◌===◌
form_value stored typed clean =
    let value = text_or_empty typed in
    if value === text_or_empty stored then or_string stored value else clean value

unfoldable pub update_field : Str → Value → (Str → Value) → Fields → Fields
unfolding set_field form_value field_value
update_field k typed clean fs = set_field k (form_value (field_value k fs) typed clean) fs

unfoldable pub update_login_fields : Value → Value → Value → Fields → Fields
unfolding update_field trimmed_text trimmed_or_null
update_login_fields username password totp fs = update_field (codes "totp") totp trimmed_or_null (
    update_field (codes "password") password as_typed
      (update_field (codes "username") username trimmed_text fs))

unfoldable pub update_fields : List String → Value → Fields → Fields
unfolding update_field prop trimmed_text
update_fields [] f fs = fs
update_fields (k ∷ ks) f fs =
    update_fields ks f (update_field (codes k) (prop (codes k) f) trimmed_text fs)

abbrev pub card_keys : List String
card_keys = "cardholderName" ∷ "brand" ∷ "number" ∷ "expMonth" ∷ "expYear" ∷ "code" ∷ []

abbrev pub identity_keys : List String
identity_keys =
    "title" ∷ "firstName" ∷ "middleName" ∷ "lastName" ∷ "username" ∷ "company" ∷ "email" ∷ "phone"
    ∷ "ssn" ∷ "passportNumber" ∷ "licenseNumber" ∷ "address1" ∷ "address2" ∷ "address3" ∷ "city"
    ∷ "state" ∷ "postalCode" ∷ "country" ∷ []

-- `updateCardFields` and `updateIdentityFields`, by their keys.
unfoldable pub update_card_fields : Value → Fields → Fields
unfolding update_fields
update_card_fields f fs = update_fields card_keys f fs

unfoldable pub update_identity_fields : Value → Fields → Fields
unfolding update_fields
update_identity_fields f fs = update_fields identity_keys f fs
