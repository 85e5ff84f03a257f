-- ===== src/Items/Hidden.antt =====
-- What a search cannot tell apart.
use dms_bitwarden_cli.Common.{
  ◌≡◌, refl, ◌⊎◌, inl, inr, Bool, not, ◌&&◌, Option, none, some, List, [], ◌∷◌, arith, ◌==◌,
  Bool-cases, filter, Str, trim,
}
use dms_bitwarden_cli.Items.{
  Card, Item, shown_digits, has, card_matches, item_matches, matches_query,
  matches_organization_filter, matches_folder_filter, matches_category_filter, passes, or_all,
  filter_items,
}

-- Two cards of which the list shows the same.
abbrev pub CardLike : Option Card → Option Card → Type 0
CardLike none none = Unit
CardLike (some c) (some d) =
    (c.brand ≡ d.brand)
    × (c.cardholder_name ≡ d.cardholder_name)
    × (shown_digits c.number ≡ shown_digits d.number)
CardLike _ _ = ⊥

-- Two items that differ only in what the list must not give away: the notes of an item that asks
-- for the master password, and the digits of a card number before the four that are shown.
pub record LooksLike (a b : Item) : Type 0 where
  pub id : a.id ≡ b.id
  pub organization_id : a.organization_id ≡ b.organization_id
  pub folder_id : a.folder_id ≡ b.folder_id
  pub name : a.name ≡ b.name
  pub type : a.type ≡ b.type
  pub favorite : a.favorite ≡ b.favorite
  pub username : a.username ≡ b.username
  pub uris : a.uris ≡ b.uris
  pub reprompt : a.reprompt ≡ b.reprompt
  pub public_key : a.public_key ≡ b.public_key
  pub fingerprint : a.fingerprint ≡ b.fingerprint
  pub identity : a.identity ≡ b.identity
  pub card : CardLike a.card b.card
  pub notes : (a.reprompt ≡ 1) ⊎ (a.notes ≡ b.notes)

module _ (lower : Str → Str) where
  card_matches-like :
      (q : Str) (c d : Option Card) → CardLike c d → card_matches lower q c ≡ card_matches lower q d
  unfolding card_matches
  card_matches-like q none none h = refl
  card_matches-like q (some c) (some d) (b, n, s) = rw (b, n, s) refl
  card_matches-like q none (some d) h = absurd h
  card_matches-like q (some c) none h = absurd h

  notes-like :
      (q : Str) (a b : Item)
      → LooksLike a b
      → (not (a.reprompt == 1) && has lower q a.notes)
        ≡ (not (b.reprompt == 1) && has lower q b.notes)
  notes-like q a b l = elim l.notes [
    | inl asks ↦ ground (arith, l.reprompt)
    | inr same ↦ rw (l.reprompt, same) refl
  ]

  item_matches-like :
      (q : Str) (a b : Item) → LooksLike a b → item_matches lower q a ≡ item_matches lower q b
  unfolding item_matches
  item_matches-like q a b l =
      rw
        (
          l.name,
          l.username,
          l.public_key,
          l.fingerprint,
          l.identity,
          l.uris,
          card_matches-like q a.card b.card l.card,
          notes-like q a b l,
        )
        refl

  matches_query-like :
      (a b : Item) (query : Str)
      → LooksLike a b
      → matches_query lower a query ≡ matches_query lower b query
  unfolding matches_query
  matches_query-like a b query l = rw (item_matches-like (trim (lower query)) a b l) refl

  organization-like :
      (a b : Item) (org : Str)
      → LooksLike a b
      → matches_organization_filter a org ≡ matches_organization_filter b org
  unfolding matches_organization_filter
  organization-like a b org l = rw l.organization_id refl

  folder-like :
      (a b : Item) (folder : Str)
      → LooksLike a b
      → matches_folder_filter a folder ≡ matches_folder_filter b folder
  unfolding matches_folder_filter
  folder-like a b folder l = rw l.folder_id refl

  category-like :
      (a b : Item) (category : Str)
      → LooksLike a b
      → matches_category_filter lower a category ≡ matches_category_filter lower b category
  unfolding matches_category_filter
  category-like a b category l = rw (l.favorite, l.type) refl

  passes-like :
      (q category org folder : Str) (a b : Item)
      → LooksLike a b
      → passes lower q category org folder a ≡ passes lower q category org folder b
  unfolding passes
  passes-like q category org folder a b l = ground (
    arith,
    matches_query-like a b q l,
    organization-like a b org l,
    folder-like a b folder l,
    category-like a b category l,
  )

-- Two lists whose items look alike, one by one.
abbrev pub ListsLike : List Item → List Item → Type 0
ListsLike [] [] = Unit
ListsLike (a ∷ l) (b ∷ m) = LooksLike a b × ListsLike l m
ListsLike _ _ = ⊥

filter-like :
    (p : Item → Bool) (l m : List Item)
    → ((a b : Item) → LooksLike a b → p a ≡ p b)
    → ListsLike l m
    → ListsLike (filter p l) (filter p m)
unfolding filter
filter-like p [] [] e h = tt
filter-like p (a ∷ l) (b ∷ m) e (h, hs) = elim (Bool-cases (p b)) [
  | inl stays ↦ rw (e a b h) (rw stays (h, filter-like p l m e hs))
  | inr goes ↦ rw (e a b h) (rw goes (filter-like p l m e hs))
]
filter-like p [] (b ∷ m) e h = absurd h
filter-like p (a ∷ l) [] e h = absurd h

-- A search gives nothing away of the notes of an item that asks for the master password, nor of a
-- card number but its last four digits: lists that differ in nothing else are filtered alike,
-- whatever the query, the category, the organization and the folder.
pub filter_items_hides :
    (lower : Str → Str) (l m : List Item) (query category org folder : Str)
    → ListsLike l m
    → ListsLike
        (filter_items lower l query category org folder)
        (filter_items lower m query category org folder)
unfolding filter_items
filter_items_hides lower l m query category org folder h =
    filter-like
      (passes lower (trim (lower query)) (lower (or_all category)) (or_all org) (or_all folder)) l m
      (passes-like lower (trim (lower query)) (lower (or_all category)) (or_all org)
        (or_all folder))
      h
