-- ===== src/Associations/Store.antt =====
-- The changes of the store: a pick, the write budget, and forgetting.
use dms_bitwarden_cli.Common.{
  sort_by, ℕ, ◌+◌, ◌/◌, Bool, true, false, not, ◌&&◌, ◌||◌, Option, none, some, List, [], ◌∷◌, ◌++◌,
  map, ltb, leb, ◌==◌, if◌then◌else◌, length, is_empty, filter, any, Str, codes, ◌===◌, str_lt,
}
use dms_bitwarden_cli.Js.Numbers.{nat}
use dms_bitwarden_cli.Js.Values.{Value, boolean, number, string, object, end, field}
use dms_bitwarden_cli.Js.Json.{stringify}
use dms_bitwarden_cli.Sites.{Domain}
use dms_bitwarden_cli.Associations.{Entry, Keys, lookup, assign, after_prefix, max_assoc_bytes}

-- What the panel knows of the focused window.
pub record WindowContext : Type 0 where
  pub cls_squashed : Str
  pub title : Str
  pub match_text : Str
  pub squashed_title : Str
  pub squashed_match_text : Str
  pub segments : List Str
  pub title_tokens : List Str
  pub alias_tokens : List Str
  pub display_name : Str
  pub detected_domain : Option Domain
  pub is_browser : Bool
  pub is_terminal : Bool

pub record ContextKey : Type 0 where
  pub key : Str
  pub weight : ℕ

abbrev pub domain_keys : Option Domain → List ContextKey
domain_keys none = []
domain_keys (some d) =
    if not (is_empty d.base_domain) && not d.is_ip
    then record { key = codes "domain:" ++ d.base_domain; weight = 3 } ∷ []
    else []

abbrev pub app_keys : WindowContext → List ContextKey
app_keys ctx =
    if not ctx.is_browser && not ctx.is_terminal && leb 3 (length ctx.cls_squashed)
    then record { key = codes "app:" ++ ctx.cls_squashed; weight = 2 } ∷ []
    else []

abbrev pub word_key : Str → ContextKey
word_key token = record { key = codes "word:" ++ token; weight = 1 }

unfoldable pub context_keys : WindowContext → Bool → List ContextKey
context_keys ctx with_words =
    domain_keys ctx.detected_domain
    ++ app_keys ctx
    ++ (if with_words then map word_key ctx.title_tokens else [])

-- `String(key).indexOf("word:") === 0`.
unfoldable pub is_word_key : Str → Bool
unfolding after_prefix
is_word_key key = elim (after_prefix (codes "word:") key) [ none ↦ false | some s ↦ true ]

unfoldable pub association_entry_counts : Str → Option Entry → Bool
association_entry_counts key none = false
association_entry_counts key (some e) = not (is_word_key key) || e.pinned

unfoldable pub is_same : Str → Option Entry → Bool
unfolding ◌===◌
is_same item_id none = false
is_same item_id (some e) = e.item_id === item_id

-- The entry that a pick writes, after the one that stands there.
unfoldable pub picked : Str → Str → Bool → ℕ → Option Entry → Entry
picked item_id timestamp pinned weight existing =
    let same = is_same item_id existing in
    record {
      item_id = item_id;
      weight = weight;
      count = elim existing [ none ↦ 1 | some e ↦ if same then e.count + 1 else 1 ];
      updated = timestamp;
      pinned = pinned || (same && elim existing [ none ↦ false | some e ↦ e.pinned ]);
    }

unfoldable pub record_keys : Str → Str → Bool → List ContextKey → Keys → Keys
unfolding lookup assign
record_keys item_id timestamp pinned [] keys = keys
record_keys item_id timestamp pinned (c ∷ cs) keys =
    record_keys item_id timestamp pinned cs
      (assign c.key (picked item_id timestamp pinned c.weight (lookup c.key keys)) keys)

-- The object that `JSON.stringify` gets.
abbrev entry_value : Entry → Value
entry_value e = object (
    field (codes "itemId") (string e.item_id) (
      field (codes "weight") (number (nat e.weight)) (
        field (codes "count") (number (nat e.count)) (
          field (codes "updated") (string e.updated)
            (if e.pinned then field (codes "pinned") (boolean true) end else end)))))

unfoldable pub entry_cost : Str × Entry → ℕ
unfolding stringify
entry_cost (k, e) = length k + length (stringify (entry_value e)) + 4

-- The comparison of `trimAssociations`: newer first, then the larger key.
unfoldable pub goes_before : Str × Entry → Str × Entry → Bool
unfolding str_lt ◌===◌
goes_before (a, x) (b, y) =
    if x.updated === y.updated then str_lt b a else str_lt y.updated x.updated

abbrev pub max_assoc_write_bytes : ℕ
max_assoc_write_bytes = max_assoc_bytes / 2

-- The loop that keeps entries while they fit.
unfoldable pub fitting : ℕ → Keys → Keys
unfolding entry_cost
fitting used [] = []
fitting used (p ∷ rest) =
    let now = used + entry_cost p in
    let later = fitting now rest in if ltb max_assoc_write_bytes now then [] else p ∷ later

unfoldable pub trim_associations : Keys → Keys
unfolding sort_by fitting goes_before
trim_associations keys =
    let kept = fitting 0 (sort_by goes_before keys) in
    if length kept == length keys then keys else kept

unfoldable pub record_association : Keys → WindowContext → Str → Str → Bool → Keys
unfolding context_keys record_keys trim_associations
record_association keys ctx item_id timestamp pinned =
    let cs = context_keys ctx pinned in
    if is_empty cs || is_empty item_id
    then keys
    else trim_associations (record_keys item_id timestamp pinned cs keys)

abbrev pub is_dropped : List ContextKey → Str → Str × Entry → Bool
is_dropped cs item_id (k, e) =
    any (λ c. c.key === k) cs && (is_empty item_id || e.item_id === item_id)

unfoldable pub forget_association : Keys → WindowContext → Str → Keys
unfolding context_keys filter any ◌===◌
forget_association keys ctx item_id =
    filter (λ p. not (is_dropped (context_keys ctx true) item_id p)) keys
