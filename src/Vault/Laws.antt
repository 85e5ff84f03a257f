-- ===== src/Vault/Laws.antt =====
-- Nothing of the vault is lost on the way to the list.
use dms_bitwarden_cli.Common.{
  suc, ◌≡◌, refl, sym, ap, ◌∙◌, ◌⊎◌, inl, inr, Bool, true, false, Option, none, some, List, [], ◌∷◌,
  ◌++◌, map, Bool-cases, length, filter, All, insert_by, sort_by, insert-All, Str, codes,
  if◌then◌else◌,
}
use dms_bitwarden_cli.Js.Values.{Value, array, nil, cons, items_list, prop, is_object_like}
use dms_bitwarden_cli.Items.{Item, item_before}
use dms_bitwarden_cli.Vault.Rows.{
  Row, row_of, ssh_row_of, row_before, is_ssh_value, parse_items, parse_ssh_keys,
}
use dms_bitwarden_cli.Vault.Envelope.{
  Envelope, array?, flag_contradicts, envelope_of, checked_envelope, parse_sanitized_envelope,
  splice_one, splice_saved_item,
}
use mathlib.Core.Bool.{false≢true}
use mathlib.Core.List.{Memᴰ}
use mathlib.Core.Path.{subst}

-- No row that is no favorite stands before one that is.
abbrev pub FavoritesFirst : List Row → Type 0
FavoritesFirst [] = Unit
FavoritesFirst (r ∷ rs) =
    ((r.item.favorite ≡ true) ⊎ All (λ s. s.item.favorite ≡ false) rs) × FavoritesFirst rs

module _ {A : Type 0} (before : A → A → Bool) where
  insert_by-Mem-new : (x : A) (l : List A) → Memᴰ x (insert_by before x l)
  unfolding insert_by
  insert_by-Mem-new x [] = Memᴰ.head refl
  insert_by-Mem-new x (y ∷ l) = elim (Bool-cases (before y x)) [
    | inl e ↦ rw e (Memᴰ.tail (insert_by-Mem-new x l))
    | inr e ↦ rw e (Memᴰ.head refl)
  ]

  insert_by-Mem : (x a : A) (l : List A) → Memᴰ a l → Memᴰ a (insert_by before x l)
  unfolding insert_by
  insert_by-Mem x a [] m = elim m [ ]
  insert_by-Mem x a (y ∷ l) (Memᴰ.head e) = elim (Bool-cases (before y x)) [
    | inl f ↦ rw f (Memᴰ.head e)
    | inr f ↦ rw f (Memᴰ.tail (Memᴰ.head e))
  ]
  insert_by-Mem x a (y ∷ l) (Memᴰ.tail m) = elim (Bool-cases (before y x)) [
    | inl f ↦ rw f (Memᴰ.tail (insert_by-Mem x a l m))
    | inr f ↦ rw f (Memᴰ.tail (Memᴰ.tail m))
  ]

  sort_by-Mem : (a : A) (l : List A) → Memᴰ a l → Memᴰ a (sort_by before l)
  unfolding sort_by
  sort_by-Mem a [] m = elim m [ ]
  sort_by-Mem a (x ∷ l) (Memᴰ.head e) =
      subst (λ y. Memᴰ y (insert_by before x (sort_by before l))) (sym e)
        (insert_by-Mem-new x (sort_by before l))
  sort_by-Mem a (x ∷ l) (Memᴰ.tail m) = insert_by-Mem x a (sort_by before l) (sort_by-Mem a l m)

  length-insert : (x : A) (l : List A) → length (insert_by before x l) ≡ suc (length l)
  unfolding insert_by
  length-insert x [] = refl
  length-insert x (y ∷ l) = elim (Bool-cases (before y x)) [
    | inl e ↦ rw e (ap suc (length-insert x l))
    | inr e ↦ rw e refl
  ]

  length-sort : (l : List A) → length (sort_by before l) ≡ length l
  unfolding sort_by
  length-sort [] = refl
  length-sort (x ∷ l) = length-insert x (sort_by before l) ∙ ap suc (length-sort l)

module _ (names_before : Str → Str → Bool) where
  before-unfavorite :
      (s r : Row)
      → row_before names_before s r ≡ true
      → s.item.favorite ≡ false
      → r.item.favorite ≡ false
  unfolding item_before
  before-unfavorite s r h f = elim (Bool-cases (r.item.favorite)) [
    | inl e ↦ absurd (false≢true (rw (f, e) at h))
    | inr e ↦ e
  ]

  not-before-unfavorite :
      (s r : Row)
      → row_before names_before s r ≡ false
      → r.item.favorite ≡ false
      → s.item.favorite ≡ false
  unfolding item_before
  not-before-unfavorite s r h f = elim (Bool-cases (s.item.favorite)) [
    | inl e ↦ absurd (false≢true (sym (rw (e, f) at h)))
    | inr e ↦ e
  ]

  insert_by-FavoritesFirst :
      (r : Row) (l : List Row)
      → FavoritesFirst l
      → FavoritesFirst (insert_by (row_before names_before) r l)
  unfolding insert_by
  insert_by-FavoritesFirst r [] h = (inr tt, tt)
  insert_by-FavoritesFirst r (s ∷ l) (first, h) = elim (Bool-cases (row_before names_before s r)) [
    | inl before ↦ rw before (
      elim first [
        | inl favorite ↦ inl favorite
        | inr others ↦ elim (Bool-cases (s.item.favorite)) [
          | inl favorite ↦ inl favorite
          | inr plain ↦ inr (
              insert-All (λ t. t.item.favorite ≡ false) (row_before names_before) r l
                (before-unfavorite s r before plain) others)
        ]
      ],
      insert_by-FavoritesFirst r l h,
    )
    | inr after ↦ rw after (
      elim (Bool-cases (r.item.favorite)) [
        | inl favorite ↦ inl favorite
        | inr plain ↦
            let s_plain = not-before-unfavorite s r after plain in
            inr (
              s_plain,
              elim first [
                | inl favorite ↦ absurd (false≢true (sym s_plain ∙ favorite))
                | inr others ↦ others
              ],
            )
      ],
      (first, h),
    )
  ]

  sort_by-FavoritesFirst : (l : List Row) → FavoritesFirst (sort_by (row_before names_before) l)
  unfolding sort_by
  sort_by-FavoritesFirst [] = tt
  sort_by-FavoritesFirst (r ∷ l) =
      insert_by-FavoritesFirst r (sort_by (row_before names_before) l) (sort_by-FavoritesFirst l)

  kept-Mem :
      (it : Value) (vs : List Value)
      → is_object_like it ≡ true
      → Memᴰ it vs
      → Memᴰ (row_of it) (map row_of (filter is_object_like vs))
  unfolding filter
  kept-Mem it [] h m = elim m [ ]
  kept-Mem it (v ∷ vs) h (Memᴰ.head e) =
      let same : is_object_like v ≡ true = subst (λ w. is_object_like w ≡ true) e h in
      rw same (Memᴰ.head (ap row_of e))
  kept-Mem it (v ∷ vs) h (Memᴰ.tail m) = elim (Bool-cases (is_object_like v)) [
    | inl f ↦ rw f (Memᴰ.tail (kept-Mem it vs h m))
    | inr f ↦ rw f (kept-Mem it vs h m)
  ]

  length-map : (vs : List Value) → length (map row_of vs) ≡ length vs
  length-map [] = refl
  length-map (v ∷ vs) = ap suc (length-map vs)

  -- Every object of the vault's list has its row in the item list, the list has no more rows than
  -- that, and the favorites stand first, however names are compared.
  pub parse_items_complete :
      (vs : List Value) (it : Value)
      → is_object_like it ≡ true
      → Memᴰ it vs
      → Memᴰ (row_of it) (parse_items names_before vs)
        × (length (parse_items names_before vs) ≡ length (filter is_object_like vs))
        × FavoritesFirst (parse_items names_before vs)
  unfolding parse_items
  parse_items_complete vs it h m =
      let rows = map row_of (filter is_object_like vs) in
      (
        sort_by-Mem (row_before names_before) (row_of it) rows (kept-Mem it vs h m),
        length-sort (row_before names_before) rows ∙ length-map (filter is_object_like vs),
        sort_by-FavoritesFirst rows,
      )

  -- What is spliced in of a document.
  abbrev splice_read : List Item → Str → Option Envelope → Option (List Item)
  splice_read items id none = none
  splice_read items id (some e) = splice_one names_before items id (e.items ++ e.ssh_keys)

  splice_one-two :
      (items : List Item) (id : Str) (a b : Row)
      → splice_one names_before items id (a ∷ b ∷ []) ≡ none
  unfolding splice_one
  splice_one-two items id a b = refl

  parse_sanitized_envelope-read :
      (parse_json : Str → Option Value) (raw : Str) (doc : Value)
      → parse_json raw ≡ some doc
      → parse_sanitized_envelope names_before parse_json raw
        ≡ checked_envelope names_before
            (prop (codes "sshCapability") doc)
            (array? (prop (codes "items") doc))
            (array? (prop (codes "sshKeys") doc))
  unfolding parse_sanitized_envelope
  parse_sanitized_envelope-read parse_json raw doc e = rw (parse_sanitized_envelope, e) refl

  splice_saved_item-read :
      (parse_json : Str → Option Value) (items : List Item) (raw id : Str) (e : Option Envelope)
      → parse_sanitized_envelope names_before parse_json raw ≡ e
      → splice_saved_item names_before parse_json items raw id ≡ splice_read items id e
  unfolding splice_saved_item
  splice_saved_item-read parse_json items raw id none h = rw (splice_saved_item, h) refl
  splice_saved_item-read parse_json items raw id (some e) h = rw (splice_saved_item, h) refl

  one_key-twice :
      (items : List Item) (id : Str) (key : Value)
      → is_ssh_value key ≡ true
      → splice_read items id (some (envelope_of names_before [] (key ∷ []))) ≡ none
  unfolding envelope_of parse_items parse_ssh_keys filter sort_by insert_by
  one_key-twice items id key valid =
      rw valid (splice_one-two items id (ssh_row_of key) (ssh_row_of key))

  -- A saved SSH key is never spliced into the list: the rows of the document hold it already, and
  -- the keys that are added to them hold it once more, so that two rows are found instead of one.
  pub splice_saved_item-ssh :
      (parse_json : Str → Option Value) (items : List Item) (raw replacing_id : Str)
      (doc key : Value)
      → parse_json raw ≡ some doc
      → prop (codes "items") doc ≡ array nil
      → prop (codes "sshKeys") doc ≡ array (cons key nil)
      → is_ssh_value key ≡ true
      → splice_saved_item names_before parse_json items raw replacing_id ≡ none
  unfolding checked_envelope items_list
  splice_saved_item-ssh parse_json items raw replacing_id doc key parsed no_items one_key valid =
      let flag = prop (codes "sshCapability") doc in
      let keys = key ∷ [] in
      let read = parse_sanitized_envelope-read parse_json raw doc parsed in
      let checked : parse_sanitized_envelope names_before parse_json raw
          ≡ (if flag_contradicts flag keys then none else some (envelope_of names_before [] keys)) =
        read ∙ rw (no_items, one_key) refl in
      elim (Bool-cases (flag_contradicts flag keys)) [
        | inl e ↦ splice_saved_item-read parse_json items raw replacing_id none (rw e at checked)
        | inr e ↦
            splice_saved_item-read parse_json items raw replacing_id
              (some (envelope_of names_before [] keys)) (rw e at checked)
            ∙ one_key-twice items replacing_id key valid
      ]
