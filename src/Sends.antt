-- ===== src/Sends.antt =====
-- The vault's smaller lists and the texts that the panel shows of them (BitwardenModel.js,
-- `parseOrganizations`, `parseCollections`, `parseFolders`, `nameById`, `parseSends`,
-- `sendExpiryLabel`, `sendAccessLabel`, `clipLabel`, `presenterIndex`).
pub mod Labels
use dms_bitwarden_cli.Common.{
  ℕ, suc, ◌+◌, ◌-◌, ◌/◌, max, Bool, not, ◌&&◌, Option, none, some, List, [], ◌∷◌, ◌++◌, map, ltb,
  leb, ◌==◌, if◌then◌else◌, length, take, is_empty, filter, sort_by, ℤ, pos, ◌-ℤ◌, Str, codes,
  ◌===◌,
}
use dms_bitwarden_cli.Js.Numbers.{Number, nat, num_eq, decimal, number_to_string}
use dms_bitwarden_cli.Js.Values.{Value, undefined, null, prop, truthy, is_object_like, to_number}
use dms_bitwarden_cli.Forms.{text_or}
use dms_bitwarden_cli.Vault.{text_of}

-- `Number(v || 0)`.
abbrev number_of : Value → Number
unfolding truthy to_number
number_of v = if truthy v then to_number v else nat 0

pub record Organization : Type 0 where
  pub id : Str
  pub name : Str
  pub status : Number

unfoldable pub parse_organizations : List Value → List Organization
unfolding filter text_of text_or prop truthy to_number
parse_organizations values =
    map
      (λ o. record {
        id = text_of (codes "id") o;
        name = text_or (codes "Organization") (prop (codes "name") o);
        status = number_of (prop (codes "status") o);
      })
      (filter is_object_like values)

pub record Folder : Type 0 where
  pub id : Str
  pub name : Str

-- An entry with no id is the CLI's "no folder".
abbrev has_id : Value → Bool
unfolding prop truthy
has_id f = is_object_like f && truthy (prop (codes "id") f)

unfoldable pub folder_of : Value → Folder
unfolding text_of text_or prop
folder_of f = record {
  id = text_of (codes "id") f;
  name = text_or (codes "Folder") (prop (codes "name") f);
}

pub record Collection : Type 0 where
  pub id : Str
  pub name : Str
  pub organization_id : Str

unfoldable collection_of : Value → Collection
unfolding text_of text_or prop
collection_of c = record {
  id = text_of (codes "id") c;
  name = text_or (codes "Collection") (prop (codes "name") c);
  organization_id = text_of (codes "organizationId") c;
}

-- "" where no entry has the id.
unfoldable pub name_by_id : List Folder → Str → Str
unfolding ◌===◌
name_by_id [] id = []
name_by_id (e ∷ entries) id =
    let rest = name_by_id entries id in
    if is_empty id then [] else if e.id === id then e.name else rest

pub record Send : Type 0 where
  pub id : Str
  pub name : Str
  pub type : Number
  pub is_file : Bool
  pub access_url : Str
  pub access_count : Number
  pub max_access_count : Option Number
  pub deletion_date : Str
  pub expiration_date : Str
  pub password_set : Bool
  pub disabled : Bool
  pub notes : Str
  pub text_preview : Str
  pub text_hidden : Bool
  pub file_name : Str

abbrev optional_number : Value → Option Number
unfolding to_number
optional_number undefined = none
optional_number null = none
optional_number v = some (to_number v)

unfoldable send_of : Value → Send
unfolding text_of text_or prop truthy to_number num_eq
send_of s = record {
  id = text_of (codes "id") s;
  name = text_or (codes "Untitled Send") (prop (codes "name") s);
  type = number_of (prop (codes "type") s);
  is_file = num_eq (to_number (prop (codes "type") s)) (nat 1);
  access_url = text_of (codes "accessUrl") s;
  access_count = number_of (prop (codes "accessCount") s);
  max_access_count = optional_number (prop (codes "maxAccessCount") s);
  deletion_date = text_of (codes "deletionDate") s;
  expiration_date = text_of (codes "expirationDate") s;
  password_set = truthy (prop (codes "passwordSet") s);
  disabled = truthy (prop (codes "disabled") s);
  notes = text_of (codes "notes") s;
  text_preview = text_of (codes "text") (prop (codes "text") s);
  text_hidden = truthy (prop (codes "hidden") (prop (codes "text") s));
  file_name = text_of (codes "fileName") (prop (codes "file") s);
}

-- `before` is `localeCompare` below 0: of names, and of dates.
module _ (before : Str → Str → Bool) where
  unfoldable pub parse_folders : List Value → List Folder
  unfolding filter folder_of sort_by prop truthy
  parse_folders values =
      sort_by (λ a b. before a.name b.name) (map folder_of (filter has_id values))

  unfoldable pub parse_collections : List Value → List Collection
  unfolding filter collection_of sort_by prop truthy
  parse_collections values =
      sort_by (λ a b. before a.name b.name) (map collection_of (filter has_id values))

  unfoldable pub parse_sends : List Value → List Send
  unfolding filter send_of sort_by
  parse_sends values =
      sort_by (λ a b. before a.deletion_date b.deletion_date)
        (map send_of (filter is_object_like values))

unfoldable pub in_units : ℕ → Str → Str
unfolding decimal
in_units n unit =
    codes "in " ++ decimal n ++ codes " " ++ unit ++ (if n == 1 then [] else codes "s")

-- The time that is left, in milliseconds above 0.
unfoldable pub time_left_label : ℕ → Str
unfolding in_units
time_left_label ms =
    let mins = ms / 60000 in
    let hours = mins / 60 in
    if ltb mins 60
    then in_units mins (codes "minute")
    else if ltb hours 24
    then in_units hours (codes "hour")
    else in_units (hours / 24) (codes "day")

unfoldable pub expiry_label : ℤ → Str
unfolding time_left_label
expiry_label (pos (suc ms)) = time_left_label (suc ms)
expiry_label _ = codes "expired"

-- `parse_date` is `Date.parse`, `none` for NaN; the time of asking is after 1970.
unfoldable pub send_expiry_label : (Str → Option ℤ) → Option Send → ℕ → Str
unfolding expiry_label ◌-ℤ◌
send_expiry_label parse_date none now = []
send_expiry_label parse_date (some send) now =
    if is_empty send.deletion_date then [] else elim (parse_date send.deletion_date) [
      | none ↦ []
      | some target ↦ expiry_label (target -ℤ pos now)
    ]

unfoldable pub send_access_label : Option Send → Str
unfolding number_to_string
send_access_label none = []
send_access_label (some send) = elim send.max_access_count [
  | none ↦ number_to_string send.access_count ++ codes " views"
  | some limit ↦
      number_to_string send.access_count ++ codes " of " ++ number_to_string limit ++ codes " views"
]

-- `max` is a whole number.
unfoldable pub clip_label : Str → ℕ → Str
clip_label text max_units =
    let limit = max 1 max_units in
    if leb (length text) limit
    then text
    else if leb limit 3
    then take limit text
    else take (limit - 3) text ++ codes "..."

pub record View : Type 0 where
  pub opened : Bool
  pub screen : Str

-- The first view that passes, from `i` on; an entry may be `null`.
unfoldable pub first_view : (View → Bool) → ℕ → List (Option View) → Option ℕ
first_view p i [] = none
first_view p i (none ∷ views) = first_view p (i + 1) views
first_view p i (some v ∷ views) =
    let rest = first_view p (i + 1) views in if p v then some i else rest

abbrev pub is_focused : Str → View → Bool
unfolding ◌===◌
is_focused focused v = not (is_empty focused) && v.screen === focused

abbrev pub or_first : Option ℕ → Option ℕ → Option ℕ
or_first (some i) _ = some i
or_first none (some j) = some j
or_first none none = some 0

-- `none` for -1.
unfoldable pub presenter_index : List (Option View) → Str → Option ℕ
unfolding first_view ◌===◌
presenter_index [] focused = none
presenter_index (v ∷ views) focused =
    or_first (first_view (λ w. w.opened) 0 (v ∷ views))
      (first_view (is_focused focused) 0 (v ∷ views))
