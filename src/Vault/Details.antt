-- ===== src/Vault/Details.antt =====
-- Cards, identities and custom fields (BitwardenModel.js, `cardDetail`, `identityDetail`,
-- `linkedCustomFieldValue` to `repromptValue`).
use dms_bitwarden_cli.Common.{
  ℕ, suc, Bool, ◌&&◌, ◌||◌, Option, none, some, List, [], ◌∷◌, if◌then◌else◌, Str, codes, any,
}
use dms_bitwarden_cli.Js.Numbers.{Number, nat, num_eq}
use dms_bitwarden_cli.Js.Values.{Value, undefined, null, prop, truthy, to_number, text_or_empty}
use Prim.Native.String.{String}
use dms_bitwarden_cli.Forms.{value_list}
use dms_bitwarden_cli.Items.{Card, Identity, identity_full_name}
use dms_bitwarden_cli.Vault.{text_of}

pub record CardDetail : Type 0 where
  pub card : Card
  pub exp_month : Str
  pub exp_year : Str
  pub code : Str

unfoldable pub card_detail : Value → Option CardDetail
unfolding truthy text_of
card_detail card =
    if truthy card
    then some (record {
      card = record {
        brand = text_of (codes "brand") card;
        cardholder_name = text_of (codes "cardholderName") card;
        number = text_of (codes "number") card;
      };
      exp_month = text_of (codes "expMonth") card;
      exp_year = text_of (codes "expYear") card;
      code = text_of (codes "code") card;
    })
    else none

pub record IdentityDetail : Type 0 where
  pub identity : Identity
  pub phone : Str
  pub ssn : Str
  pub passport_number : Str
  pub license_number : Str
  pub address1 : Str
  pub address2 : Str
  pub address3 : Str
  pub city : Str
  pub state : Str
  pub postal_code : Str
  pub country : Str

unfoldable pub identity_detail : Value → Option IdentityDetail
unfolding truthy text_of
identity_detail i =
    if truthy i
    then some (record {
      identity = record {
        title = text_of (codes "title") i;
        first_name = text_of (codes "firstName") i;
        middle_name = text_of (codes "middleName") i;
        last_name = text_of (codes "lastName") i;
        email = text_of (codes "email") i;
        username = text_of (codes "username") i;
        company = text_of (codes "company") i;
      };
      phone = text_of (codes "phone") i;
      ssn = text_of (codes "ssn") i;
      passport_number = text_of (codes "passportNumber") i;
      license_number = text_of (codes "licenseNumber") i;
      address1 = text_of (codes "address1") i;
      address2 = text_of (codes "address2") i;
      address3 = text_of (codes "address3") i;
      city = text_of (codes "city") i;
      state = text_of (codes "state") i;
      postal_code = text_of (codes "postalCode") i;
      country = text_of (codes "country") i;
    })
    else none

-- What a linked field may point at, by its id, but for the identity's full name.
abbrev pub linked_keys : List (ℕ × (String × String))
linked_keys =
    (100, ("login", "username"))
    ∷ (101, ("login", "password"))
    ∷ (300, ("card", "cardholderName"))
    ∷ (301, ("card", "expMonth"))
    ∷ (302, ("card", "expYear"))
    ∷ (303, ("card", "code"))
    ∷ (304, ("card", "brand"))
    ∷ (305, ("card", "number"))
    ∷ (400, ("identity", "title"))
    ∷ (401, ("identity", "middleName"))
    ∷ (402, ("identity", "address1"))
    ∷ (403, ("identity", "address2"))
    ∷ (404, ("identity", "address3"))
    ∷ (405, ("identity", "city"))
    ∷ (406, ("identity", "state"))
    ∷ (407, ("identity", "postalCode"))
    ∷ (408, ("identity", "country"))
    ∷ (409, ("identity", "company"))
    ∷ (410, ("identity", "email"))
    ∷ (411, ("identity", "phone"))
    ∷ (412, ("identity", "ssn"))
    ∷ (413, ("identity", "username"))
    ∷ (414, ("identity", "passportNumber"))
    ∷ (415, ("identity", "licenseNumber"))
    ∷ (416, ("identity", "firstName"))
    ∷ (417, ("identity", "lastName"))
    ∷ []

unfoldable pub linked_at : List (ℕ × (String × String)) → Number → Value → Value
unfolding prop num_eq
linked_at [] id item = undefined
linked_at ((n, (part, key)) ∷ keys) id item =
    let rest = linked_at keys id item in
    if num_eq id (nat n) then prop (codes key) (prop (codes part) item) else rest

abbrev pub full_name_of : Option IdentityDetail → Str
unfolding identity_full_name
full_name_of none = []
full_name_of (some d) = identity_full_name d.identity

unfoldable pub linked_custom_field_value : Value → Number → Str
unfolding linked_at text_or_empty prop identity_detail num_eq identity_full_name
linked_custom_field_value item id =
    if num_eq id (nat 418)
    then full_name_of (identity_detail (prop (codes "identity") item))
    else text_or_empty (linked_at linked_keys id item)

unfoldable pub linked_custom_field_is_sensitive : Number → Bool
unfolding num_eq any
linked_custom_field_is_sensitive id =
    any (λ n. num_eq id (nat n)) (101 ∷ 303 ∷ 305 ∷ 412 ∷ 414 ∷ 415 ∷ [])

pub record CustomField : Type 0 where
  pub name : Str
  pub index : ℕ
  pub value : Str
  pub type : Number
  pub linked_id : Option Number
  pub sensitive : Bool

abbrev linked_id_of : Value → Option Number
unfolding to_number
linked_id_of undefined = none
linked_id_of null = none
linked_id_of v = some (to_number v)

-- `Number(null)` is 0, which is no id of a linked field.
abbrev or_zero : Option Number → Number
or_zero none = nat 0
or_zero (some n) = n

unfoldable pub custom_field : Value → ℕ → Value → CustomField
unfolding prop text_of truthy to_number num_eq linked_custom_field_value
    linked_custom_field_is_sensitive text_or_empty
custom_field item i f =
    let type_value = prop (codes "type") f in
    let type = if truthy type_value then to_number type_value else nat 0 in
    let linked = linked_id_of (prop (codes "linkedId") f) in
    record {
      name = text_of (codes "name") f;
      index = i;
      value =
          if num_eq type (nat 3)
          then linked_custom_field_value item (or_zero linked)
          else text_or_empty (prop (codes "value") f);
      type = type;
      linked_id = linked;
      sensitive =
          num_eq type (nat 1)
          || (num_eq type (nat 3) && linked_custom_field_is_sensitive (or_zero linked));
    }

-- The loop, from index `i` on; a field without a name is skipped.
unfoldable pub custom_fields_from : Value → ℕ → List Value → List CustomField
unfolding custom_field truthy prop
custom_fields_from item i [] = []
custom_fields_from item i (f ∷ fs) =
    let rest = custom_fields_from item (suc i) fs in
    if truthy f && truthy (prop (codes "name") f) then custom_field item i f ∷ rest else rest

unfoldable pub item_custom_fields : Value → Value → List CustomField
unfolding custom_fields_from value_list
item_custom_fields fields item = custom_fields_from item 0 (value_list fields)

unfoldable pub reprompt_value : Value → ℕ
unfolding to_number num_eq
reprompt_value v = if num_eq (to_number v) (nat 1) then 1 else 0
