-- ===== src/Associations/Parsing.antt =====
-- What the file of the store is read as.
use dms_bitwarden_cli.Common.{
  ℕ, ◌≤◌, ◌≡◌, refl, sym, ◌∙◌, ◌≢◌, inl, inr, true, false, not, ◌||◌, Option, none, some, [], ◌∷◌,
  arith, ◌==◌, if◌then◌else◌, Bool-cases, length, is_empty, any, All, pos, Str, codes, ◌===◌,
  ===_eq, trim,
}
use dms_bitwarden_cli.Js.Numbers.{Number, fin}
use dms_bitwarden_cli.Js.Values.{
  Value, null, Fields, end, field, prop, is_plain_object, is_true, string?, to_number,
}
use mathlib.Core.Option.{some-injective}
use mathlib.Core.Path.{subst}
use dms_bitwarden_cli.Associations.{
  Entry, Keys, lookup, assign, association_key_weight, is_control_unit, is_item_id, clean_count,
  clean_updated, entry_of, clean_association_entry, put_clean, is_store, fields_or_end, clean_keys,
  stored_keys, checked_store, parse_associations,
}

-- An entry as the check leaves it.
pub record IsClean (p : Str × Entry) : Type 0 where
  pub known : association_key_weight p.0 ≢ 0
  pub weighed : p.1.weight ≡ association_key_weight p.0
  pub named : is_item_id p.1.item_id ≡ true
  pub counted : (1 ≤ p.1.count) × (p.1.count ≤ 1000000)
  pub dated : (length p.1.updated ≤ 64) × (any is_control_unit p.1.updated ≡ false)

pub All-assign :
    (P : Str × Entry → Type 0) (k : Str) (e : Entry) (keys : Keys)
    → P (k, e)
    → All P keys
    → All P (assign k e keys)
unfolding assign
All-assign P k e [] h a = (h, tt)
All-assign P k e ((j, x) ∷ rest) h a = elim (Bool-cases (j === k)) [
  | inl same ↦ rw same (subst (λ t. P (t, e)) (sym (===_eq j k same)) h, a.1)
  | inr other ↦ rw other (a.0, All-assign P k e rest h a.1)
]

pub lookup-here :
    (k j : Str) (x : Entry) (rest : Keys) → (j === k) ≡ true → lookup k ((j, x) ∷ rest) ≡ some x
unfolding lookup
lookup-here k j x rest same = rw same refl

pub lookup-later :
    (k j : Str) (x : Entry) (rest : Keys)
    → (j === k) ≡ false
    → lookup k ((j, x) ∷ rest) ≡ lookup k rest
unfolding lookup
lookup-later k j x rest other = rw other refl

-- What is found under a key is one of the entries.
pub lookup-All :
    (P : Str × Entry → Type 0) (k : Str) (e : Entry) (keys : Keys)
    → All P keys
    → lookup k keys ≡ some e
    → P (k, e)
lookup-All P k e [] a h = unfold lookup in cc
lookup-All P k e ((j, x) ∷ rest) a h = elim (Bool-cases (j === k)) [
  | inl same ↦
      let value : x ≡ e = some-injective _ _ (sym (lookup-here k j x rest same) ∙ h) in
      subst P (λ i. (===_eq j k same i, value i)) a.0
  | inr other ↦ lookup-All P k e rest a.1 (sym (lookup-later k j x rest other) ∙ h)
]

clean_count-bounds : (n : Number) → (1 ≤ clean_count n) × (clean_count n ≤ 1000000)
unfolding clean_count
clean_count-bounds (fin (pos n) ds) = ground arith
clean_count-bounds _ = (omega arith, omega arith)

clean_updated-bounds :
    (o : Option Str)
    → (length (clean_updated o) ≤ 64) × (any is_control_unit (clean_updated o) ≡ false)
unfolding clean_updated any
clean_updated-bounds none = (omega arith, refl)
clean_updated-bounds (some s) = ground arith

entry_of-some :
    (weight : ℕ) (v : Value) (id : Str)
    → is_item_id id ≡ true
    → entry_of weight v (some id)
      ≡ some (record {
        item_id = id;
        weight = weight;
        count = clean_count (to_number (prop (codes "count") v));
        updated = clean_updated (string? (prop (codes "updated") v));
        pinned = is_true (prop (codes "pinned") v);
      })
unfolding entry_of
entry_of-some weight v id named = rw named refl

entry_of-none :
    (weight : ℕ) (v : Value) (id : Str) → is_item_id id ≡ false → entry_of weight v (some id) ≡ none
unfolding entry_of
entry_of-none weight v id named = rw named refl

abbrev IsCleanUnder : Str → Option Entry → Type 0
IsCleanUnder key none = Unit
IsCleanUnder key (some e) = IsClean (key, e)

entry_of-IsClean :
    (key : Str) (v : Value) (o : Option Str)
    → association_key_weight key ≢ 0
    → IsCleanUnder key (entry_of (association_key_weight key) v o)
unfolding entry_of
entry_of-IsClean key v none w = tt
entry_of-IsClean key v (some id) w = elim (Bool-cases (is_item_id id)) [
  | inl named ↦ rw named (record {
    known = w;
    weighed = refl;
    named = named;
    counted = clean_count-bounds (to_number (prop (codes "count") v));
    dated = clean_updated-bounds (string? (prop (codes "updated") v));
  })
  | inr not_named ↦ rw not_named tt
]

clean_entry-IsClean : (key : Str) (v : Value) → IsCleanUnder key (clean_association_entry key v)
unfolding clean_association_entry
clean_entry-IsClean key v =
    elim (Bool-cases (association_key_weight key == 0 || not (is_plain_object v))) [
      | inl bad ↦ rw bad tt
      | inr good ↦
          rw good (entry_of-IsClean key v (string? (prop (codes "itemId") v)) (ground arith))
    ]

put_clean-IsClean :
    (key : Str) (o : Option Entry) (keys : Keys)
    → IsCleanUnder key o
    → All IsClean keys
    → All IsClean (put_clean key o keys)
unfolding put_clean
put_clean-IsClean key none keys c h = h
put_clean-IsClean key (some e) keys c h = All-assign IsClean key e keys c h

clean_keys-IsClean :
    (fs : Fields) (keys : Keys) → All IsClean keys → All IsClean (clean_keys keys fs)
unfolding clean_keys
clean_keys-IsClean end keys h = h
clean_keys-IsClean (field k v rest) keys h =
    clean_keys-IsClean rest (put_clean k (clean_association_entry k v) keys)
      (put_clean-IsClean k (clean_association_entry k v) keys (clean_entry-IsClean k v) h)

stored_keys-IsClean : (v : Value) → All IsClean (stored_keys v)
unfolding stored_keys
stored_keys-IsClean v = elim (Bool-cases (is_store v)) [
  | inl e ↦ rw e (clean_keys-IsClean (fields_or_end (prop (codes "keys") v)) [] tt)
  | inr e ↦ rw e tt
]

abbrev AllClean : Option Keys → Type 0
AllClean none = Unit
AllClean (some keys) = All IsClean keys

checked_store-AllClean : (o : Option Value) → AllClean (checked_store o)
unfolding checked_store
checked_store-AllClean none = tt
checked_store-AllClean (some null) = tt
checked_store-AllClean (some v) = stored_keys-IsClean v

module _ (parse_json : Str → Option Value) where
  -- Whatever the file of the store holds, each entry that is read from it has a key of a known
  -- kind with that kind's weight, an item id of 1 to 256 units without controls, a count of 1 to
  -- 1000000 and a date of at most 64 units without controls.
  pub parse_associations-IsClean :
      (raw : Str) (keys : Keys) → parse_associations parse_json raw ≡ some keys → All IsClean keys
  unfolding parse_associations
  parse_associations-IsClean raw keys h =
      subst AllClean h
        (checked_store-AllClean (parse_json (if is_empty (trim raw) then codes "{}" else trim raw)))
