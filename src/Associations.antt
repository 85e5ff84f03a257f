-- ===== src/Associations.antt =====
-- Learned suggestions (BitwardenModel.js, "emptyAssociations" to "learnedMatchIds"): the store that
-- remembers which item was picked on which site or in which program, and the check of its file.
pub mod Store
pub mod Matches
pub mod Parsing
pub mod Learning
pub mod Forgetting
pub mod Budget
pub mod Agreement
use dms_bitwarden_cli.Common.{
  ℕ, ◌+◌, ◌-◌, min, Bool, true, false, not, ◌&&◌, ◌||◌, Option, none, some, List, [], ◌∷◌, ltb, leb,
  ◌==◌, if◌then◌else◌, length, is_empty, any, all, pos, Str, codes, ◌===◌, trim, is_lower_alnum,
}
use dms_bitwarden_cli.Js.Numbers.{Number, fin, nat, num_eq}
use dms_bitwarden_cli.Js.Values.{
  Value, undefined, null, string, array, object, Fields, end, field, prop, is_plain_object, is_true,
  string?, to_number,
}

abbrev pub assoc_version : ℕ
assoc_version = 1

abbrev pub max_title_chars : ℕ
max_title_chars = 512

abbrev pub max_assoc_bytes : ℕ
max_assoc_bytes = 1048576

-- What was picked under a key; `pinned` is false where the source has no such field.
pub record Entry : Type 0 where
  pub item_id : Str
  pub weight : ℕ
  pub count : ℕ
  pub updated : Str
  pub pinned : Bool

-- The object `keys`: its properties in the order of their insertion, each once.
abbrev pub Keys : Type 0
Keys = List (Str × Entry)

unfoldable pub lookup : Str → Keys → Option Entry
unfolding ◌===◌
lookup k [] = none
lookup k ((j, e) ∷ rest) = let later = lookup k rest in if j === k then some e else later

-- `keys[k] = entry`: in place where the property is there, else at the end.
unfoldable pub assign : Str → Entry → Keys → Keys
unfolding ◌===◌
assign k entry [] = (k, entry) ∷ []
assign k entry ((j, e) ∷ rest) =
    let later = assign k entry rest in if j === k then (j, entry) ∷ rest else (j, e) ∷ later

-- The rest of a text that starts with `p`.
unfoldable pub after_prefix : Str → Str → Option Str
after_prefix [] s = some s
after_prefix (c ∷ p) [] = none
after_prefix (c ∷ p) (d ∷ s) = let rest = after_prefix p s in if c == d then rest else none

abbrev pub is_domain_unit : ℕ → Bool
is_domain_unit c = is_lower_alnum c || c == b'.' || c == b'-'

-- `[a-z0-9][a-z0-9.-]*`.
abbrev pub is_domain_text : Option Str → Bool
is_domain_text (some (c ∷ s)) = is_lower_alnum c && all is_domain_unit s
is_domain_text _ = false

-- `[a-z0-9]+`.
abbrev pub is_word_text : Option Str → Bool
is_word_text (some (c ∷ s)) = is_lower_alnum c && all is_lower_alnum s
is_word_text _ = false

unfoldable pub association_key_weight : Str → ℕ
unfolding after_prefix
association_key_weight value =
    if ltb (max_title_chars + 16) (length value)
    then 0
    else if is_domain_text (after_prefix (codes "domain:") value)
    then 3
    else if is_word_text (after_prefix (codes "app:") value)
    then 2
    else if is_word_text (after_prefix (codes "word:") value)
    then 1
    else 0

-- `[\x00-\x1f\x7f]`.
abbrev pub is_control_unit : ℕ → Bool
is_control_unit c = ltb c 32 || c == 127

unfoldable pub is_item_id : Str → Bool
unfolding any
is_item_id s = not (is_empty s) && leb (length s) 256 && not (any is_control_unit s)

unfoldable pub clean_count : Number → ℕ
clean_count (fin (pos n) ds) = if ltb n 1 then 1 else min 1000000 n
clean_count _ = 1

unfoldable pub clean_updated : Option Str → Str
unfolding any
clean_updated none = []
clean_updated (some s) = if ltb 64 (length s) || any is_control_unit s then [] else s

-- The entry of a key with a weight, if its id is one.
unfoldable pub entry_of : ℕ → Value → Option Str → Option Entry
entry_of weight entry none = none
entry_of weight entry (some item_id) =
    if is_item_id item_id
    then some (record {
      item_id = item_id;
      weight = weight;
      count = clean_count (to_number (prop (codes "count") entry));
      updated = clean_updated (string? (prop (codes "updated") entry));
      pinned = is_true (prop (codes "pinned") entry);
    })
    else none

unfoldable pub clean_association_entry : Str → Value → Option Entry
unfolding entry_of
clean_association_entry key entry =
    let weight = association_key_weight key in
    if weight == 0 || not (is_plain_object entry)
    then none
    else entry_of weight entry (string? (prop (codes "itemId") entry))

-- One round of the parser's loop.
unfoldable pub put_clean : Str → Option Entry → Keys → Keys
unfolding assign
put_clean key none keys = keys
put_clean key (some entry) keys = assign key entry keys

unfoldable pub clean_keys : Keys → Fields → Keys
unfolding put_clean
clean_keys keys end = keys
clean_keys keys (field k v rest) = clean_keys (put_clean k (clean_association_entry k v) keys) rest

abbrev pub is_undefined : Value → Bool
is_undefined undefined = true
is_undefined _ = false

abbrev pub fields_or_end : Value → Fields
fields_or_end (object fs) = fs
fields_or_end _ = end

abbrev pub store_version : Value → Number
store_version parsed =
    if is_undefined (prop (codes "version") parsed)
    then nat assoc_version
    else to_number (prop (codes "version") parsed)

abbrev pub is_store : Value → Bool
is_store parsed =
    is_plain_object parsed
    && num_eq (store_version parsed) (nat assoc_version)
    && is_plain_object (prop (codes "keys") parsed)

-- The keys of a parsed store; a primitive but `null` has no version and gives none.
unfoldable pub stored_keys : Value → Keys
unfolding clean_keys
stored_keys parsed =
    if is_store parsed then clean_keys [] (fields_or_end (prop (codes "keys") parsed)) else []

-- `none` is the TypeError of reading `null.version`, which the source does not catch.
unfoldable pub checked_store : Option Value → Option Keys
checked_store none = some []
checked_store (some null) = none
checked_store (some v) = some (stored_keys v)

module _ (parse_json : Str → Option Value) where
  unfoldable pub parse_associations : Str → Option Keys
  unfolding trim
  parse_associations raw =
      let text = trim raw in checked_store (parse_json (if is_empty text then codes "{}" else text))
