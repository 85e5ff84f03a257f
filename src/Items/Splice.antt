-- ===== src/Items/Splice.antt =====
-- What the list holds after a saved item is spliced in.
use dms_bitwarden_cli.Common.{
  sort-All, insert_by, sort_by, ℕ, zero, suc, ◌≤◌, ◌<◌, ◌≡◌, refl, ap, ◌∙◌, ◌⊎◌, inl, inr, Bool,
  true, false, ◌||◌, some, List, [], ◌∷◌, ◌++◌, arith, Bool-cases, length, take, find?, any, All,
  length-append, any-append, All-append, Str, ◌===◌, ===_refl,
}
use dms_bitwarden_cli.Items.{
  Item, find_item_by_id, replaced, added, item_before, replace_item_by_id,
}

any-insert_by :
    (p : Item → Bool) (before : Item → Item → Bool) (x : Item) (l : List Item)
    → any p (insert_by before x l) ≡ (p x || any p l)
unfolding insert_by any
any-insert_by p before x [] = refl
any-insert_by p before x (y ∷ l) = elim (Bool-cases (before y x)) [
  | inl e ↦ rw e (ground (arith, any-insert_by p before x l))
  | inr e ↦ rw e refl
]

any-sort_by :
    (p : Item → Bool) (before : Item → Item → Bool) (l : List Item)
    → any p (sort_by before l) ≡ any p l
unfolding sort_by any
any-sort_by p before [] = refl
any-sort_by p before (x ∷ l) =
    ground (arith, any-insert_by p before x (sort_by before l), any-sort_by p before l)

length-insert_by :
    (before : Item → Item → Bool) (x : Item) (l : List Item)
    → length (insert_by before x l) ≡ suc (length l)
unfolding insert_by
length-insert_by before x [] = refl
length-insert_by before x (y ∷ l) = elim (Bool-cases (before y x)) [
  | inl e ↦ rw e (ap suc (length-insert_by before x l))
  | inr e ↦ rw e refl
]

length-sort_by :
    (before : Item → Item → Bool) (l : List Item) → length (sort_by before l) ≡ length l
unfolding sort_by
length-sort_by before [] = refl
length-sort_by before (x ∷ l) =
    length-insert_by before x (sort_by before l) ∙ ap suc (length-sort_by before l)

take-nil : (n : ℕ) → take {A = Item} n [] ≡ []
take-nil zero = refl
take-nil (suc n) = refl

clash : (b : Bool) → b ≡ true → b ≡ false → ⊥
clash b h k = ground arith

take-all : (n : ℕ) (l : List Item) → length l ≤ n → take n l ≡ l
take-all n [] h = take-nil n
take-all zero (x ∷ l) h = absurd (omega (arith, h))
take-all (suc n) (x ∷ l) h = ap (λ t. x ∷ t) (take-all n l (omega (arith, h)))

-- An item with the replacement's id is the replacement.
abbrev Only : Item → Item → Type 0
Only r a = ((a.id === r.id) ≡ false) ⊎ (a ≡ r)

find-Only :
    (r : Item) (l : List Item)
    → All (Only r) l
    → any (λ a. a.id === r.id) l ≡ true
    → find? (λ a. a.id === r.id) l ≡ some r
unfolding find? any
find-Only r [] h k = cc
find-Only r (a ∷ l) (o, h) k = elim (Bool-cases (a.id === r.id)) [
  | inl same ↦ rw same (elim o [ inl other ↦ cc | inr e ↦ ap some e ])
  | inr other ↦ rw other (find-Only r l h (ground arith))
]

replaced-Only :
    (id : Str) (r : Item) (l : List Item)
    → All (λ a. ((a.id === r.id) ≡ false) ⊎ ((a.id === id) ≡ true)) l
    → All (Only r) (replaced id (some r) l)
unfolding replaced
replaced-Only id r [] h = tt
replaced-Only id r (a ∷ l) (o, h) = elim (Bool-cases (a.id === id)) [
  | inl same ↦ rw same (inr refl, replaced-Only id r l h)
  | inr other ↦ rw other (
    elim o [ inl e ↦ inl e | inr e ↦ absurd (clash (a.id === id) e other) ],
    replaced-Only id r l h,
  )
]

replaced-found :
    (id : Str) (r : Item) (l : List Item)
    → any (λ a. a.id === id) l ≡ true
    → any (λ a. a.id === r.id) (replaced id (some r) l) ≡ true
unfolding replaced any
replaced-found id r [] h = cc
replaced-found id r (a ∷ l) h = elim (Bool-cases (a.id === id)) [
  | inl same ↦ rw same (rw (===_refl r.id) refl)
  | inr other ↦ rw other (ground (arith, replaced-found id r l))
]

last_found : (b c : Bool) → c ≡ true → (b || c) ≡ true
last_found b c h = ground arith

replaced-any :
    (id : Str) (r : Item) (l : List Item)
    → any (λ a. a.id === r.id) (replaced id (some r) l ++ added (any (λ a. a.id === id) l) (some r))
      ≡ true
replaced-any id r l = elim (Bool-cases (any (λ a. a.id === id) l)) [
  | inl there ↦ rw there (
      any-append (λ a. a.id === r.id) (replaced id (some r) l) []
      ∙ rw (replaced-found id r l there) refl)
  | inr missing ↦ rw missing (
      any-append (λ a. a.id === r.id) (replaced id (some r) l) (r ∷ [])
      ∙ last_found (any (λ a. a.id === r.id) (replaced id (some r) l))
          (any (λ a. a.id === r.id) (r ∷ [])) (unfold any in rw (===_refl r.id) refl))
]

replaced-length : (id : Str) (r : Item) (l : List Item) → length (replaced id (some r) l) ≡ length l
unfolding replaced
replaced-length id r [] = refl
replaced-length id r (a ∷ l) = elim (Bool-cases (a.id === id)) [
  | inl same ↦ rw same (ap suc (replaced-length id r l))
  | inr other ↦ rw other (ap suc (replaced-length id r l))
]

added-Only : (r : Item) (b : Bool) → All (Only r) (added b (some r))
added-Only r true = tt
added-Only r false = (inr refl, tt)

added-length : (r : Item) (b : Bool) → length (added b (some r)) ≤ 1
added-length r true = omega arith
added-length r false = omega arith

module _ (names_before : Str → Str → Bool) where
  -- After a save the list has the saved item under its id, whichever item it replaces and wherever
  -- the order by name puts it, given that the list is not at its cap of 4096 and no item but the
  -- one that is replaced has that id.
  pub replace_item_by_id_found :
      (items : List Item) (id : Str) (r : Item)
      → length items < 4096
      → All (λ a. ((a.id === r.id) ≡ false) ⊎ ((a.id === id) ≡ true)) items
      → find_item_by_id (replace_item_by_id names_before items id (some r)) r.id ≡ some r
  unfolding replace_item_by_id find_item_by_id
  replace_item_by_id_found items id r h apart =
      let there = any (λ a. a.id === id) items in
      let out = replaced id (some r) items ++ added there (some r) in
      let sorted = sort_by (item_before names_before) out in
      rw
        (
          take-all 4096 items (omega (arith, h)),
          take-all 4096 sorted (
              omega (
                arith,
                h,
                length-sort_by (item_before names_before) out,
                length-append (replaced id (some r) items) (added there (some r)),
                replaced-length id r items,
                added-length r there,
              )),
        )
        (find-Only r sorted
          (sort-All (Only r) (item_before names_before) out (
            All-append (Only r) (replaced id (some r) items) (added there (some r))
              (replaced-Only id r items apart) (added-Only r there)))
          (any-sort_by (λ a. a.id === r.id) (item_before names_before) out
            ∙ replaced-any id r items))
