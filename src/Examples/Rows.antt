-- ===== src/Examples/Rows.antt =====
-- Searches and splices of the item list on concrete data.
use dms_bitwarden_cli.Common.{
  ◌+◌, refl, inl, false, ◌&&◌, none, some, [], ◌∷◌, map, leb, if◌then◌else◌, Str, codes,
}
use dms_bitwarden_cli.Items.{Item, filter_items, shown_digits}
use dms_bitwarden_cli.Items.Hidden.{ListsLike, filter_items_hides}

-- A card that asks for the master password.
abbrev card_item : Str → Str → Item
card_item number notes = record {
  id = codes "1";
  organization_id = [];
  folder_id = [];
  name = codes "bank";
  type = codes "card";
  favorite = false;
  username = [];
  uris = [];
  reprompt = 1;
  public_key = [];
  fingerprint = [];
  card = some (record { brand = codes "visa"; cardholder_name = []; number = number });
  identity = none;
  notes = notes;
}

-- Lower case of ASCII letters.
abbrev ascii_lower : Str → Str
ascii_lower s = map (λ c. if leb b'A' c && leb c b'Z' then c + 32 else c) s

abbrev known_card : Item
known_card = card_item (codes "4111 2222") (codes "pin 1234")

abbrev other_card : Item
other_card = card_item (codes "5999 2222") (codes "none")

cards_alike : ListsLike (known_card ∷ []) (other_card ∷ [])
unfolding shown_digits
cards_alike = (
  record {
    id = refl;
    organization_id = refl;
    folder_id = refl;
    name = refl;
    type = refl;
    favorite = refl;
    username = refl;
    uris = refl;
    reprompt = refl;
    public_key = refl;
    fingerprint = refl;
    identity = refl;
    card = (refl, refl, refl);
    notes = inl refl;
  },
  tt,
)

filter_items_hides_example :
    ListsLike
      (filter_items ascii_lower (known_card ∷ []) (codes "PIN") (codes "all") [] [])
      (filter_items ascii_lower (other_card ∷ []) (codes "PIN") (codes "all") [] [])
filter_items_hides_example =
    filter_items_hides ascii_lower (known_card ∷ []) (other_card ∷ []) (codes "PIN") (codes "all")
      [] [] cards_alike
