-- ===== src/Forms/Kept.antt =====
-- What an edit leaves alone.
use dms_bitwarden_cli.Common.{
  true, false, not, ◌&&◌, ◌||◌, ◌≡◌, refl, sym, ap, ◌∙◌, inl, inr, some, List, [], ◌∷◌, Bool-cases,
  All, if◌then◌else◌, Str, codes, ◌===◌, ===_eq, ===_refl,
}
use dms_bitwarden_cli.Js.Numbers.{nat}
use dms_bitwarden_cli.Js.Values.{
  Value, boolean, number, string, Fields, end, field, field_value, truthy, strict_eq,
}
use dms_bitwarden_cli.Forms.{
  set_field, delete_field, as_typed, form_value, text_or, trimmed_text, selected_organization_id,
  selected_folder_id, update_field,
}
use dms_bitwarden_cli.Forms.Payloads.{Form, with_custom_fields, is_left_out, custom_fields_payload}
use dms_bitwarden_cli.Forms.Edits.{
  is_ssh_row, stored_fields, edit_collections, edit_common, edit_type, build_edit_payload,
}
use mathlib.Core.Option.{some-injective, none-ne-some}
use mathlib.Core.Path.{subst}
use mathlib.Core.Bool.{true≢false}
use Prim.Native.String.{String}

apart : (i j k : Str) → (i === j) ≡ false → (i === k) ≡ true → (j === k) ≡ false
apart i j k e f = elim (Bool-cases (j === k)) [
  | inr g ↦ g
  | inl g ↦
      let same : i ≡ j = ===_eq i k f ∙ sym (===_eq j k g) in
      absurd (true≢false (sym (===_refl j) ∙ subst (λ x. (x === j) ≡ false) same e))
]

pub set_field-value :
    (k j : Str) (v : Value) (fs : Fields)
    → field_value k (set_field j v fs) ≡ (if j === k then v else field_value k fs)
unfolding field_value set_field
set_field-value k j v end = refl
set_field-value k j v (field i w fs) = elim (Bool-cases (i === j)) [
  | inl e ↦
      rw (e, ===_eq i j e) (elim (Bool-cases (j === k)) [ inl f ↦ rw f refl | inr f ↦ rw f refl ])
  | inr e ↦
      rw (e, set_field-value k j v fs)
        (elim (Bool-cases (i === k)) [ inl f ↦ rw (f, apart i j k e f) refl | inr f ↦ rw f refl ])
]

delete_field-value :
    (k j : Str) (fs : Fields)
    → (j === k) ≡ false
    → field_value k (delete_field j fs) ≡ field_value k fs
unfolding field_value delete_field
delete_field-value k j end h = refl
delete_field-value k j (field i w fs) h = elim (Bool-cases (i === j)) [
  | inl e ↦ rw (e, ===_eq i j e, h) (delete_field-value k j fs h)
  | inr e ↦ rw (e, delete_field-value k j fs h) refl
]

pub set_other :
    (k j : Str) (v : Value) (fs : Fields)
    → (j === k) ≡ false
    → field_value k (set_field j v fs) ≡ field_value k fs
set_other k j v fs h = rw (set_field-value k j v fs, h) refl

pub set_same : (k : Str) (v : Value) (fs : Fields) → field_value k (set_field k v fs) ≡ v
set_same k v fs = rw (set_field-value k k v fs, ===_refl k) refl

-- The properties that an edit may write, those of every type and the others.
abbrev pub common_keys : List String
common_keys = "name" ∷ "notes" ∷ "favorite" ∷ "organizationId" ∷ "folderId" ∷ "collectionIds" ∷ []

abbrev pub type_keys : List String
type_keys = "login" ∷ "card" ∷ "identity" ∷ "fields" ∷ []

-- Those of a login.
abbrev pub login_keys : List String
login_keys = "username" ∷ "password" ∷ "totp" ∷ "uris" ∷ []

-- A name that is none of the keys.
abbrev pub IsOther : List String → Str → Type 0
IsOther keys k = All (λ j. (codes j === k) ≡ false) keys

pub build_edit_payload-some :
    (existing : Value) (form : Form) (payload : Fields)
    → build_edit_payload existing form ≡ some payload
    → with_custom_fields form.custom_fields
        (edit_type form (edit_common form (stored_fields existing)))
      ≡ payload
unfolding build_edit_payload
build_edit_payload-some existing form payload e = elim (Bool-cases (is_ssh_row existing)) [
  | inl ssh ↦ absurd (none-ne-some payload (rw ssh at e))
  | inr other ↦ some-injective _ _ (rw other at e)
]

module _ (k : Str) where
  pub update_field-other :
      (j : Str) (typed : Value) (clean : Str → Value) (fs : Fields)
      → (j === k) ≡ false
      → field_value k (update_field j typed clean fs) ≡ field_value k fs
  unfolding update_field
  update_field-other j typed clean fs h =
      set_other k j (form_value (field_value j fs) typed clean) fs h

  pub with_custom_fields-other :
      (v : Value) (fs : Fields)
      → (codes "fields" === k) ≡ false
      → field_value k (with_custom_fields v fs) ≡ field_value k fs
  unfolding with_custom_fields
  with_custom_fields-other v fs h = elim (Bool-cases (is_left_out v)) [
    | inl e ↦ rw e refl
    | inr e ↦ rw e (set_other k (codes "fields") (custom_fields_payload v) fs h)
  ]

  pub edit_collections-other :
      (ids : Value) (fs : Fields)
      → (codes "collectionIds" === k) ≡ false
      → field_value k (edit_collections ids fs) ≡ field_value k fs
  unfolding edit_collections
  edit_collections-other ids fs h =
      elim (Bool-cases (truthy (field_value (codes "organizationId") fs))) [
        | inl e ↦ rw e (set_other k (codes "collectionIds") _ fs h)
        | inr e ↦ rw e (delete_field-value k (codes "collectionIds") fs h)
      ]

  edit_type-other :
      (form : Form) (fs : Fields)
      → (codes "login" === k) ≡ false
      → (codes "card" === k) ≡ false
      → (codes "identity" === k) ≡ false
      → field_value k (edit_type form fs) ≡ field_value k fs
  unfolding edit_type
  edit_type-other form fs login card identity =
      let type = field_value (codes "type") fs in
      elim (Bool-cases (strict_eq type (number (nat 1)) || not (truthy type))) [
        | inl a ↦ rw a (set_other k (codes "login") _ fs login)
        | inr a ↦
            rw a (elim (Bool-cases (strict_eq type (number (nat 3)) && truthy form.type_fields)) [
              | inl b ↦ rw b (set_other k (codes "card") _ fs card)
              | inr b ↦
                  rw b
                    (elim (Bool-cases
                      (strict_eq type (number (nat 4)) && truthy form.type_fields)) [
                        | inl c ↦ rw c (set_other k (codes "identity") _ fs identity)
                        | inr c ↦ rw c refl
                      ])
            ])
      ]

  pub edit_common-other :
      (form : Form) (fs : Fields)
      → IsOther common_keys k
      → field_value k (edit_common form fs) ≡ field_value k fs
  unfolding edit_common
  edit_common-other form fs
        (name, (notes, (favorite, (organization, (folder, (collections, u)))))) =
      let named =
        update_field (codes "name") (string (text_or (codes "Untitled") form.name)) trimmed_text
          fs in
      let noted = update_field (codes "notes") form.notes as_typed named in
      let starred = set_field (codes "favorite") (boolean (truthy form.favorite)) noted in
      let owned =
        set_field (codes "organizationId") (selected_organization_id form.organization_id)
          starred in
      edit_collections-other form.collection_ids
        (set_field (codes "folderId") (selected_folder_id form.folder_id) owned) collections
      ∙ set_other k (codes "folderId") (selected_folder_id form.folder_id) owned folder
      ∙ set_other k (codes "organizationId") (selected_organization_id form.organization_id) starred
          organization
      ∙ set_other k (codes "favorite") (boolean (truthy form.favorite)) noted favorite
      ∙ update_field-other (codes "notes") form.notes as_typed named notes
      ∙ update_field-other (codes "name") (string (text_or (codes "Untitled") form.name))
          trimmed_text fs name

  -- An edit leaves every property of the stored item alone but the ten that it may write: its name,
  -- notes, favorite mark, organization, folder, collections, login, card, identity and custom fields.
  pub build_edit_payload_keeps :
      (existing : Value) (form : Form) (payload : Fields)
      → build_edit_payload existing form ≡ some payload
      → IsOther common_keys k
      → IsOther type_keys k
      → field_value k payload ≡ field_value k (stored_fields existing)
  build_edit_payload_keeps existing form payload e common (login, (card, (identity, (fields, u)))) =
      let stored = stored_fields existing in
      let typed = edit_type form (edit_common form stored) in
      ap (field_value k) (sym (build_edit_payload-some existing form payload e))
      ∙ with_custom_fields-other form.custom_fields typed fields
      ∙ edit_type-other form (edit_common form stored) login card identity
      ∙ edit_common-other form stored common
