-- ===== src/Forms/Websites.antt =====
-- What an edit leaves alone of an item's websites.
use dms_bitwarden_cli.Common.{
  true, ◌≡◌, refl, ap, ◌∙◌, ◌⊎◌, inl, inr, List, [], ◌∷◌, Bool-cases, filter, is_empty, Str, codes,
  ◌===◌, trim,
}
use dms_bitwarden_cli.Js.Values.{
  Value, undefined, null, string, object, Fields, field_value, is_object_like, text_or_empty,
}
use dms_bitwarden_cli.Forms.{value_list, array_of, set_field}
use dms_bitwarden_cli.Forms.Payloads.{or_null, edited_uris}
use dms_bitwarden_cli.Forms.Kept.{set_other, set_same, IsOther}
use Prim.Native.String.{String}

abbrev pub uri_keys : List String
uri_keys = "match" ∷ "uri" ∷ []

-- The websites after an edit: the rest of the stored ones, behind a first one with the match rule of
-- the first stored one and, but for its address, with the same value of the property `k`; it is
-- missing only if the typed address is blank.
abbrev pub WebsitesKept : Value → Value → Fields → List Value → Str → Type 0
WebsitesKept stored typed first rest k =
    ((is_empty (trim (text_or_empty typed)) ≡ true) × (edited_uris stored typed ≡ array_of rest))
    ⊎ ((u : Fields) × (edited_uris stored typed ≡ array_of (object u ∷ rest))
        × (or_null (field_value (codes "match") u) ≡ or_null (field_value (codes "match") first))
        × (field_value k u ≡ field_value k first))

or_null-or_null : (v : Value) → or_null (or_null v) ≡ or_null v
or_null-or_null undefined = refl
or_null-or_null null = refl
or_null-or_null v = refl

-- Where the form's address is changed, every stored website but the first stays as it is, and the
-- first keeps its match rule and every property but its address; it goes only if the form's address
-- is blank. A website that is no object is left out.
pub edited_uris_keeps :
    (stored typed : Value) (first : Fields) (rest : List Value) (k : Str)
    → filter is_object_like (value_list stored) ≡ object first ∷ rest
    → IsOther uri_keys k
    → WebsitesKept stored typed first rest k
unfolding edited_uris ◌===◌
edited_uris_keeps stored typed first rest k kept h =
    let text = text_or_empty typed in
    let (match, (uri, u)) = h in
    let first_match = or_null (field_value (codes "match") first) in
    let matched = set_field (codes "match") first_match first in
    rw kept (elim (Bool-cases (text === text_or_empty (field_value (codes "uri") first))) [
      | inl same ↦ rw same (inr (first, refl, refl, refl))
      | inr other ↦ rw other (elim (Bool-cases (is_empty (trim text))) [
        | inl blank ↦ rw blank (inl (refl, refl))
        | inr full ↦ rw full (
            inr (
              set_field (codes "uri") (string (trim text)) matched,
              refl,
              ap or_null (
                    set_other (codes "match") (codes "uri") (string (trim text)) matched refl
                    ∙ set_same (codes "match") first_match first)
                  ∙ or_null-or_null (field_value (codes "match") first),
              set_other k (codes "uri") (string (trim text)) matched uri
                  ∙ set_other k (codes "match") first_match first match,
            ))
      ])
    ])
