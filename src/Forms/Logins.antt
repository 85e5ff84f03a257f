-- ===== src/Forms/Logins.antt =====
-- What an edit leaves alone in a login, and what it writes as typed.
use dms_bitwarden_cli.Common.{
  true, false, not, ◌&&◌, ◌||◌, ◌≡◌, refl, sym, ap, ◌∙◌, inl, inr, some, Bool-cases, Str, codes,
  ◌===◌, ===_eq,
}
use dms_bitwarden_cli.Js.Numbers.{nat}
use dms_bitwarden_cli.Js.Values.{
  Value, undefined, null, boolean, number, string, array, object, Fields, end, field_value, prop,
  truthy, text_or_empty, strict_eq,
}
use dms_bitwarden_cli.Forms.{
  set_field, updated, as_typed, form_value, or_string, text_or, trimmed_text, trimmed_or_null,
  selected_organization_id, selected_folder_id, update_field, update_login_fields,
}
use dms_bitwarden_cli.Forms.Payloads.{Form, edited_uris, new_login, new_payload}
use dms_bitwarden_cli.Forms.Edits.{
  stored_fields, edit_common, edit_login, edit_type, build_edit_payload,
}
use dms_bitwarden_cli.Forms.Kept.{
  set_other, set_same, update_field-other, with_custom_fields-other, edit_common-other,
  edit_collections-other, build_edit_payload-some, login_keys, IsOther,
}

edit_login-other :
    (k : Str) (form : Form) (login : Fields)
    → IsOther login_keys k
    → field_value k (edit_login form login) ≡ field_value k login
unfolding edit_login update_login_fields
edit_login-other k form login (username, (password, (totp, (uris, u)))) =
    let a = update_field (codes "username") form.username trimmed_text login in
    let b = update_field (codes "password") form.password as_typed a in
    set_other k (codes "uris") _ (update_login_fields form.username form.password form.totp login)
      uris
    ∙ update_field-other k (codes "totp") form.totp trimmed_or_null b totp
    ∙ update_field-other k (codes "password") form.password as_typed a password
    ∙ update_field-other k (codes "username") form.username trimmed_text login username

updated-prop :
    (k : Str) (f : Fields → Fields) (v : Value)
    → ((fs : Fields) → field_value k (f fs) ≡ field_value k fs)
    → prop k (updated f v) ≡ prop k v
unfolding updated prop field_value
updated-prop k f (object fs) h = h fs
updated-prop k f undefined h = h end
updated-prop k f null h = h end
updated-prop k f (boolean true) h = refl
updated-prop k f (boolean false) h = h end
updated-prop k f (number n) h = elim (Bool-cases (truthy (number n))) [
  | inl e ↦ rw e refl
  | inr e ↦ rw e (h end)
]
updated-prop k f (string s) h = elim (Bool-cases (truthy (string s))) [
  | inl e ↦ rw e refl
  | inr e ↦ rw e (h end)
]
updated-prop k f (array vs) h = refl

edit_type-login :
    (k : Str) (form : Form) (fs : Fields)
    → IsOther login_keys k
    → prop k (field_value (codes "login") (edit_type form fs))
      ≡ prop k (field_value (codes "login") fs)
unfolding edit_type
edit_type-login k form fs h =
    let type = field_value (codes "type") fs in
    let login = field_value (codes "login") fs in
    elim (Bool-cases (strict_eq type (number (nat 1)) || not (truthy type))) [
      | inl a ↦ rw a (
          ap (prop k) (set_same (codes "login") (updated (edit_login form) login) fs)
          ∙ updated-prop k (edit_login form) login (λ gs. edit_login-other k form gs h))
      | inr a ↦
          rw a (elim (Bool-cases (strict_eq type (number (nat 3)) && truthy form.type_fields)) [
            | inl b ↦ rw b (ap (prop k) (set_other (codes "login") (codes "card") _ fs refl))
            | inr b ↦
                rw b
                  (elim (Bool-cases (strict_eq type (number (nat 4)) && truthy form.type_fields)) [
                    | inl c ↦
                        rw c (ap (prop k) (set_other (codes "login") (codes "identity") _ fs refl))
                    | inr c ↦ rw c refl
                  ])
          ])
    ]

-- An edit leaves every property of the stored login alone but its username, password, one-time code
-- key and websites, whatever the type of the item: passkeys and password history stay.
pub build_edit_payload_keeps_login :
    (existing : Value) (form : Form) (payload : Fields) (k : Str)
    → build_edit_payload existing form ≡ some payload
    → IsOther login_keys k
    → prop k (field_value (codes "login") payload)
      ≡ prop k (field_value (codes "login") (stored_fields existing))
unfolding ◌===◌
build_edit_payload_keeps_login existing form payload k e h =
    let stored = stored_fields existing in
    let typed = edit_type form (edit_common form stored) in
    ap (λ fs. prop k (field_value (codes "login") fs))
      (sym (build_edit_payload-some existing form payload e))
    ∙ ap (prop k) (with_custom_fields-other (codes "login") form.custom_fields typed refl)
    ∙ edit_type-login k form (edit_common form stored) h
    ∙ ap (prop k) (
        edit_common-other (codes "login") form stored
          (refl, (refl, (refl, (refl, (refl, (refl, tt)))))))

or_string-text :
    (stored : Value) (s : Str) → s ≡ text_or_empty stored → text_or_empty (or_string stored s) ≡ s
unfolding text_or_empty
or_string-text undefined s h = refl
or_string-text null s h = sym h
or_string-text (boolean b) s h = sym h
or_string-text (number n) s h = sym h
or_string-text (string t) s h = sym h
or_string-text (array vs) s h = sym h
or_string-text (object fs) s h = sym h

form_value-as_typed :
    (stored typed : Value) → text_or_empty (form_value stored typed as_typed) ≡ text_or_empty typed
unfolding form_value
form_value-as_typed stored typed =
    elim (Bool-cases (text_or_empty typed === text_or_empty stored)) [
      | inl e ↦ rw e (
          or_string-text stored (text_or_empty typed)
            (===_eq (text_or_empty typed) (text_or_empty stored) e))
      | inr e ↦ rw e refl
    ]

update_login_fields-password :
    (username password totp : Value) (login : Fields)
    → text_or_empty
        (field_value (codes "password") (update_login_fields username password totp login))
      ≡ text_or_empty password
unfolding update_login_fields update_field ◌===◌
update_login_fields-password username password totp login =
    let a = update_field (codes "username") username trimmed_text login in
    ap text_or_empty (
      update_field-other (codes "password") (codes "totp") totp trimmed_or_null
        (update_field (codes "password") password as_typed a) refl
      ∙ set_same (codes "password")
          (form_value (field_value (codes "password") a) password as_typed) a)
    ∙ form_value-as_typed (field_value (codes "password") a) password

edit_login-password :
    (form : Form) (login : Fields)
    → text_or_empty (field_value (codes "password") (edit_login form login))
      ≡ text_or_empty form.password
unfolding edit_login ◌===◌
edit_login-password form login =
    ap text_or_empty (
      set_other (codes "password") (codes "uris") _
        (update_login_fields form.username form.password form.totp login) refl)
    ∙ update_login_fields-password form.username form.password form.totp login

new_login-password :
    (form : Form)
    → text_or_empty (field_value (codes "password") (new_login form)) ≡ text_or_empty form.password
unfolding new_login ◌===◌
new_login-password form =
    ap text_or_empty (
      set_other (codes "password") (codes "uris") (edited_uris undefined form.uri)
        (update_login_fields form.username form.password form.totp end) refl)
    ∙ update_login_fields-password form.username form.password form.totp end

edit_common-notes :
    (form : Form) (fs : Fields)
    → text_or_empty (field_value (codes "notes") (edit_common form fs)) ≡ text_or_empty form.notes
unfolding edit_common update_field ◌===◌
edit_common-notes form fs =
    let named =
      update_field (codes "name") (string (text_or (codes "Untitled") form.name)) trimmed_text fs in
    let noted = update_field (codes "notes") form.notes as_typed named in
    let starred = set_field (codes "favorite") (boolean (truthy form.favorite)) noted in
    let owned =
      set_field (codes "organizationId") (selected_organization_id form.organization_id) starred in
    ap text_or_empty (
      edit_collections-other (codes "notes") form.collection_ids
        (set_field (codes "folderId") (selected_folder_id form.folder_id) owned) refl
      ∙ set_other (codes "notes") (codes "folderId") (selected_folder_id form.folder_id) owned refl
      ∙ set_other (codes "notes") (codes "organizationId")
          (selected_organization_id form.organization_id) starred refl
      ∙ set_other (codes "notes") (codes "favorite") (boolean (truthy form.favorite)) noted refl
      ∙ set_same (codes "notes")
          (form_value (field_value (codes "notes") named) form.notes as_typed) named)
    ∙ form_value-as_typed (field_value (codes "notes") named) form.notes

-- Passwords and notes are sent as they were typed, edge spaces included, whatever was stored: the
-- password of an edited and of a new login, and the notes of an edited and of a new item.
pub password_as_typed :
    (form : Form) (login stored : Fields) (type_code : Value)
    → (text_or_empty (field_value (codes "password") (edit_login form login))
        ≡ text_or_empty form.password)
      × (text_or_empty (field_value (codes "password") (new_login form))
          ≡ text_or_empty form.password)
      × (text_or_empty (field_value (codes "notes") (edit_common form stored))
          ≡ text_or_empty form.notes)
      × (text_or_empty (field_value (codes "notes") (new_payload type_code form))
          ≡ text_or_empty form.notes)
unfolding new_payload field_value ◌===◌
password_as_typed form login stored type_code =
    (edit_login-password form login, new_login-password form, edit_common-notes form stored, refl)
