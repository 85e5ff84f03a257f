-- ===== src/Associations/Matches.antt =====
-- What the store suggests for a window.
use dms_bitwarden_cli.Common.{
  sort_by, ℕ, ◌+◌, ◌*◌, Bool, true, false, not, ◌&&◌, ◌||◌, Option, none, some, List, [], ◌∷◌, ltb,
  ◌==◌, if◌then◌else◌, is_empty, any, Str, codes, ◌===◌,
}
use Prim.Native.String.{String}
use dms_bitwarden_cli.Associations.{Entry, Keys, lookup}
use dms_bitwarden_cli.Associations.Store.{
  WindowContext, ContextKey, context_keys, association_entry_counts, is_same,
}

unfoldable pub is_associated_in : Keys → Str → List ContextKey → Bool
unfolding lookup
is_associated_in keys item_id [] = false
is_associated_in keys item_id (c ∷ cs) =
    let entry = lookup c.key keys in
    (association_entry_counts c.key entry && is_same item_id entry)
    || is_associated_in keys item_id cs

unfoldable pub is_associated : Keys → WindowContext → Str → Bool
unfolding is_associated_in context_keys
is_associated keys ctx item_id =
    not (is_empty item_id) && is_associated_in keys item_id (context_keys ctx true)

pub record Match : Type 0 where
  pub item_id : Str
  pub rank : ℕ

-- The names that every object inherits. `best[id]` of one is a function or an object, which is truthy
-- and not less than a number.
abbrev inherited_names : List String
inherited_names =
    "constructor" ∷ "toString" ∷ "toLocaleString" ∷ "valueOf" ∷ "hasOwnProperty" ∷ "isPrototypeOf"
    ∷ "propertyIsEnumerable" ∷ "__proto__" ∷ "__defineGetter__" ∷ "__defineSetter__"
    ∷ "__lookupGetter__" ∷ "__lookupSetter__" ∷ []

unfoldable pub names_inherited : Str → Bool
unfolding any ◌===◌
names_inherited id = any (λ n. codes n === id) inherited_names

-- `best[id] = rank` where `best[id]` is not set or lower.
unfoldable pub raise : Str → ℕ → List Match → List Match
unfolding ◌===◌ names_inherited
raise id rank [] = if names_inherited id then [] else record { item_id = id; rank = rank } ∷ []
raise id rank (m ∷ ms) =
    let later = raise id rank ms in
    if m.item_id === id
    then (if ltb m.rank rank then record m { rank = rank } else m) ∷ ms
    else m ∷ later

-- `keys[i].weight * 1000 + Number(entry.count || 1)`.
unfoldable pub rank_of : ContextKey → Entry → ℕ
rank_of c e = c.weight * 1000 + (if e.count == 0 then 1 else e.count)

unfoldable pub add_match : ContextKey → Option Entry → List Match → List Match
unfolding raise
add_match c none best = best
add_match c (some e) best =
    if association_entry_counts c.key (some e) && not (is_empty e.item_id)
    then raise e.item_id (rank_of c e) best
    else best

unfoldable pub best_matches : Keys → List ContextKey → List Match → List Match
unfolding lookup add_match
best_matches keys [] best = best
best_matches keys (c ∷ cs) best = best_matches keys cs (add_match c (lookup c.key keys) best)

abbrev pub outranks : Match → Match → Bool
outranks a b = ltb b.rank a.rank

-- The matches, the highest rank first. The source lists ids that look like array indices first
-- among equal ranks; the vault's ids are UUIDs, which stand in the order of their insertion.
unfoldable pub learned_match_ids : Keys → WindowContext → List Match
unfolding best_matches context_keys sort_by
learned_match_ids keys ctx = sort_by outranks (best_matches keys (context_keys ctx true) [])
