-- ===== src/Items.antt =====
-- The item list (BitwardenModel.js, "matchesQuery" to "filterItems", "findItemById" and
-- "replaceItemById"): search and filters, and the splice of a saved item. An absent text is "".
pub mod Hidden
pub mod Splice
use dms_bitwarden_cli.Common.{
  sort_by, ℕ, ◌+◌, ◌-◌, Bool, true, false, not, ◌&&◌, ◌||◌, Option, none, some, List, [], ◌∷◌, ◌++◌,
  map, leb, ◌==◌, if◌then◌else◌, length, take, drop, is_empty, filter, find?, any, all, Str, codes,
  ◌===◌, trim, includes, join, is_digit,
}

pub record Card : Type 0 where
  pub brand : Str
  pub cardholder_name : Str
  pub number : Str

pub record Identity : Type 0 where
  pub title : Str
  pub first_name : Str
  pub middle_name : Str
  pub last_name : Str
  pub email : Str
  pub username : Str
  pub company : Str

-- An item as `parseItems` leaves it, with what the list reads of it.
pub record Item : Type 0 where
  pub id : Str
  pub organization_id : Str
  pub folder_id : Str
  pub name : Str
  pub type : Str
  pub favorite : Bool
  pub username : Str
  pub uris : List Str
  pub reprompt : ℕ
  pub public_key : Str
  pub fingerprint : Str
  pub card : Option Card
  pub identity : Option Identity
  pub notes : Str

abbrev pub max_list_entries : ℕ
max_list_entries = 4096

-- `toList` of an array.
abbrev pub to_list : {A : Type 0} → List A → List A
to_list l = take max_list_entries l

unfoldable pub non_empty_parts : List Str → List Str
unfolding trim filter
non_empty_parts parts = filter (λ p. not (is_empty p)) (map trim parts)

unfoldable pub identity_full_name : Identity → Str
unfolding non_empty_parts join
identity_full_name i =
    join (codes " ") (non_empty_parts (i.title ∷ i.first_name ∷ i.middle_name ∷ i.last_name ∷ []))

-- `s.replace(/\D/g, "")`.
unfoldable pub digits_of : Str → Str
unfolding filter is_digit
digits_of s = filter is_digit s

-- `s.slice(-4)`.
unfoldable pub last_four : Str → Str
last_four s = drop (length s - 4) s

-- The end of a card number that the list shows, or nothing of one with fewer than four digits.
unfoldable pub shown_digits : Str → Option Str
unfolding digits_of last_four
shown_digits n = if leb 4 (length (digits_of n)) then some (last_four (digits_of n)) else none

unfoldable pub digits_match : Option Str → Str → Bool
unfolding includes
digits_match none q = false
digits_match (some shown) q = includes q shown && not (is_empty q)

unfoldable pub matches_organization_filter : Item → Str → Bool
unfolding ◌===◌
matches_organization_filter item organization =
    if organization === codes "personal"
    then is_empty item.organization_id
    else organization === codes "all" || item.organization_id === organization

unfoldable pub matches_folder_filter : Item → Str → Bool
unfolding ◌===◌
matches_folder_filter item folder =
    if folder === codes "none"
    then is_empty item.folder_id
    else folder === codes "all" || item.folder_id === folder

abbrev pub or_all : Str → Str
or_all s = if is_empty s then codes "all" else s

-- `lower` is `String.prototype.toLowerCase`.
module _ (lower : Str → Str) where
  unfoldable pub has : Str → Str → Bool
  unfolding includes
  has q value = includes q (lower value)

  unfoldable pub card_matches : Str → Option Card → Bool
  unfolding has shown_digits digits_match digits_of
  card_matches q none = false
  card_matches q (some c) =
      has q c.brand || has q c.cardholder_name || digits_match (shown_digits c.number) (digits_of q)

  unfoldable pub identity_matches : Str → Option Identity → Bool
  unfolding has identity_full_name
  identity_matches q none = false
  identity_matches q (some i) =
      has q (identity_full_name i) || has q i.email || has q i.username || has q i.company

  -- The fields that a search reads; the notes only of an item without a master password re-prompt.
  unfoldable pub item_matches : Str → Item → Bool
  unfolding has card_matches identity_matches any
  item_matches q item =
      has q item.name
      || has q item.username
      || (not (item.reprompt == 1) && has q item.notes)
      || has q item.public_key
      || has q item.fingerprint
      || card_matches q item.card
      || identity_matches q item.identity
      || any (has q) (to_list item.uris)

  unfoldable pub matches_query : Item → Str → Bool
  unfolding item_matches trim
  matches_query item query =
      let q = trim (lower query) in
      if is_empty query || is_empty q then true else item_matches q item

  unfoldable pub matches_category_filter : Item → Str → Bool
  unfolding ◌===◌
  matches_category_filter item category =
      if category === codes "favorite"
      then item.favorite
      else category === codes "all" || lower item.type === lower category

  unfoldable pub passes : Str → Str → Str → Str → Item → Bool
  unfolding matches_query matches_organization_filter matches_folder_filter matches_category_filter
  passes q category org folder item =
      matches_organization_filter item org
      && matches_folder_filter item folder
      && matches_category_filter item category
      && (is_empty q || matches_query item q)

  unfoldable pub filter_items : List Item → Str → Str → Str → Str → List Item
  unfolding filter passes trim
  filter_items items query category selected_org selected_folder =
      filter
        (passes (trim (lower query)) (lower (or_all category)) (or_all selected_org)
          (or_all selected_folder))
        items

unfoldable pub find_item_by_id : List Item → Str → Option Item
unfolding find? ◌===◌
find_item_by_id items id = find? (λ a. a.id === id) (to_list items)

-- What an item of the list becomes, and whether one was replaced.
unfoldable pub replaced : Str → Option Item → List Item → List Item
unfolding ◌===◌
replaced id replacement [] = []
replaced id replacement (a ∷ rest) =
    let later = replaced id replacement rest in
    if a.id === id then elim replacement [ none ↦ later | some r ↦ r ∷ later ] else a ∷ later

-- `out.push(replacement)` where nothing was replaced.
abbrev pub added : Bool → Option Item → List Item
added false (some r) = r ∷ []
added _ _ = []

-- `names_before` is `compareNames(a, b) < 0`, by the locale's collation.
module _ (names_before : Str → Str → Bool) where
  unfoldable pub item_before : Item → Item → Bool
  item_before a b = elim a.favorite [
    | true ↦ if b.favorite then names_before a.name b.name else true
    | false ↦ if b.favorite then false else names_before a.name b.name
  ]

  unfoldable pub replace_item_by_id : List Item → Str → Option Item → List Item
  unfolding replaced sort_by item_before any ◌===◌
  replace_item_by_id items id replacement =
      let existing = to_list items in
      sort_by item_before
        (replaced id replacement existing ++ added (any (λ a. a.id === id) existing) replacement)
