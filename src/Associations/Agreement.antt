-- ===== src/Associations/Agreement.antt =====
-- The two questions that the panel asks of the store agree: whether an item is suggested for a
-- window, and which items are.
use dms_bitwarden_cli.Common.{
  any-sort, insert-All, insert_by, sort_by, ℕ, ◌≤◌, ◌≡◌, refl, sym, ap, ◌∙◌, inl, inr, Bool, true,
  false, not, ◌&&◌, ◌||◌, Option, none, some, List, [], ◌∷◌, arith, ltb, Bool-cases, is_empty, any,
  All, All-map, Str, ◌===◌, ===_eq,
}
use dms_bitwarden_cli.Associations.{Entry, Keys, lookup}
use dms_bitwarden_cli.Associations.Store.{
  WindowContext, ContextKey, context_keys, association_entry_counts, is_same,
}
use dms_bitwarden_cli.Associations.Matches.{
  Match, names_inherited, is_associated_in, is_associated, raise, rank_of, add_match, best_matches,
  outranks, learned_match_ids,
}
use mathlib.Core.Bool.{true≢false}

abbrev pub is_match : Str → Match → Bool
is_match id m = m.item_id === id

-- Two texts that a third one may equal.
===_both : (s t u : Str) → (s === t) ≡ true → (s === u) ≡ (t === u)
===_both s t u h = ap (λ x. x === u) (===_eq s t h)

-- Only one of two texts is an inherited name.
other_name :
    (id item : Str)
    → names_inherited id ≡ true
    → names_inherited item ≡ false
    → (id === item) ≡ false
other_name id item e n = elim (Bool-cases (id === item)) [
  | inl h ↦ absurd (true≢false (sym e ∙ ap names_inherited (===_eq id item h) ∙ n))
  | inr h ↦ h
]

name_other :
    (id item : Str)
    → names_inherited id ≡ false
    → names_inherited item ≡ true
    → (id === item) ≡ false
name_other id item e n = elim (Bool-cases (id === item)) [
  | inl h ↦ absurd (true≢false (sym n ∙ sym (ap names_inherited (===_eq id item h)) ∙ e))
  | inr h ↦ h
]

any-raise :
    (id : Str) (rank : ℕ) (item : Str) (ms : List Match)
    → names_inherited item ≡ false
    → any (is_match item) (raise id rank ms) ≡ ((id === item) || any (is_match item) ms)
unfolding raise any
any-raise id rank item [] n = elim (Bool-cases (names_inherited id)) [
  | inl e ↦ rw e (rw (other_name id item e n) refl)
  | inr e ↦ rw e refl
]
any-raise id rank item (m ∷ ms) n = elim (Bool-cases (m.item_id === id)) [
  | inl same ↦ rw same (ground (arith, ===_both m.item_id id item same))
  | inr other ↦ rw other (ground (arith, any-raise id rank item ms n))
]

empty_of : (s t : Str) → (s === t) ≡ true → is_empty s ≡ is_empty t
empty_of s t h = ap is_empty (===_eq s t h)

any-add_match :
    (item : Str) (c : ContextKey) (o : Option Entry) (best : List Match)
    → is_empty item ≡ false
    → names_inherited item ≡ false
    → any (is_match item) (add_match c o best)
      ≡ ((association_entry_counts c.key o && is_same item o) || any (is_match item) best)
unfolding add_match
any-add_match item c none best h n = unfold association_entry_counts in refl
any-add_match item c (some e) best h n =
    unfold is_same in
    ground (arith, any-raise e.item_id (rank_of c e) item best n, empty_of e.item_id item)

any-raise_name :
    (id : Str) (rank : ℕ) (item : Str) (ms : List Match)
    → names_inherited item ≡ true
    → any (is_match item) (raise id rank ms) ≡ any (is_match item) ms
unfolding raise any
any-raise_name id rank item [] n = elim (Bool-cases (names_inherited id)) [
  | inl e ↦ rw e refl
  | inr e ↦ rw e (rw (name_other id item e n) refl)
]
any-raise_name id rank item (m ∷ ms) n = elim (Bool-cases (m.item_id === id)) [
  | inl same ↦ rw same (elim (Bool-cases (ltb m.rank rank)) [
    | inl higher ↦ rw higher refl
    | inr lower ↦ rw lower refl
  ])
  | inr other ↦ rw other (ground (arith, any-raise_name id rank item ms n))
]

add_match-names :
    (item : Str) (c : ContextKey) (o : Option Entry) (best : List Match)
    → names_inherited item ≡ true
    → any (is_match item) (add_match c o best) ≡ any (is_match item) best
unfolding add_match
add_match-names item c none best n = refl
add_match-names item c (some e) best n =
    elim (Bool-cases (association_entry_counts c.key (some e) && not (is_empty e.item_id))) [
      | inl counts ↦ rw counts (any-raise_name e.item_id (rank_of c e) item best n)
      | inr skipped ↦ rw skipped refl
    ]

any-best_matches :
    (keys : Keys) (item : Str) (cs : List ContextKey) (best : List Match)
    → is_empty item ≡ false
    → names_inherited item ≡ false
    → any (is_match item) (best_matches keys cs best)
      ≡ (is_associated_in keys item cs || any (is_match item) best)
unfolding best_matches is_associated_in
any-best_matches keys item [] best h n = refl
any-best_matches keys item (c ∷ cs) best h n = ground (
  arith,
  any-best_matches keys item cs (add_match c (lookup c.key keys) best) h n,
  any-add_match item c (lookup c.key keys) best h n,
)

-- No match stands before one of a higher rank.
abbrev pub Ranked : List Match → Type 0
Ranked [] = Unit
Ranked (m ∷ ms) = All (λ n. n.rank ≤ m.rank) ms × Ranked ms

All-le : (a b : ℕ) (l : List Match) → a ≤ b → All (λ n. n.rank ≤ a) l → All (λ n. n.rank ≤ b) l
All-le a b l h k = All-map (λ n g. omega arith) l k

insert-Ranked : (x : Match) (l : List Match) → Ranked l → Ranked (insert_by outranks x l)
unfolding insert_by
insert-Ranked x [] h = (tt, tt)
insert-Ranked x (y ∷ l) (top, h) = elim (Bool-cases (ltb x.rank y.rank)) [
  | inl e ↦
      rw e (insert-All (λ n. n.rank ≤ y.rank) outranks x l (ground arith) top, insert-Ranked x l h)
  | inr e ↦ rw e ((ground arith, All-le y.rank x.rank l (ground arith) top), (top, h))
]

sort-Ranked : (l : List Match) → Ranked (sort_by outranks l)
unfolding sort_by
sort-Ranked [] = tt
sort-Ranked (x ∷ l) = insert-Ranked x (sort_by outranks l) (sort-Ranked l)

any-learned :
    (keys : Keys) (ctx : WindowContext) (item : Str)
    → is_empty item ≡ false
    → names_inherited item ≡ false
    → any (is_match item) (learned_match_ids keys ctx)
      ≡ is_associated_in keys item (context_keys ctx true)
unfolding learned_match_ids any
any-learned keys ctx item h n = ground (
  arith,
  any-sort outranks (is_match item) (best_matches keys (context_keys ctx true) []),
  any-best_matches keys item (context_keys ctx true) [] h n,
)

best_matches-names :
    (keys : Keys) (item : Str) (cs : List ContextKey) (best : List Match)
    → names_inherited item ≡ true
    → any (is_match item) (best_matches keys cs best) ≡ any (is_match item) best
unfolding best_matches
best_matches-names keys item [] best n = refl
best_matches-names keys item (c ∷ cs) best n =
    best_matches-names keys item cs _ n ∙ add_match-names item c (lookup c.key keys) best n

learned-names :
    (keys : Keys) (ctx : WindowContext) (item : Str)
    → names_inherited item ≡ true
    → any (is_match item) (learned_match_ids keys ctx) ≡ false
unfolding learned_match_ids any
learned-names keys ctx item n =
    any-sort outranks (is_match item) _ ∙ best_matches-names keys item (context_keys ctx true) [] n

-- The matches of a window come in the order of their ranks, the highest first, and an item with an
-- id is among them exactly if the store has it as associated with the window and the id is not a
-- name that every object inherits, such as `toString`: such an item is associated but never listed.
pub learned_match_ids-Ranked :
    (keys : Keys) (ctx : WindowContext) (item : Str)
    → Ranked (learned_match_ids keys ctx)
      × ((not (is_empty item) && any (is_match item) (learned_match_ids keys ctx))
          ≡ (is_associated keys ctx item && not (names_inherited item)))
learned_match_ids-Ranked keys ctx item = (
  (unfold learned_match_ids in sort-Ranked (best_matches keys (context_keys ctx true) [])),
  (unfold is_associated in
      elim (Bool-cases (names_inherited item)) [
        | inl e ↦ rw e (ground (arith, learned-names keys ctx item e))
        | inr e ↦ rw e (ground (arith, any-learned keys ctx item))
      ]),
)
