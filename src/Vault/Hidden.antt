-- ===== src/Vault/Hidden.antt =====
-- What a detail without its secrets gives away.
use mathlib.Core.Option
use dms_bitwarden_cli.Common.{
  ◌≡◌, refl, Option, none, some, List, [], ◌∷◌, map, is_empty, Str, codes, if◌then◌else◌, take,
  Bool-cases, inl, inr, ℕ, suc, zero,
}
use dms_bitwarden_cli.Js.Values.{Value}
use dms_bitwarden_cli.Items.{max_list_entries}
use dms_bitwarden_cli.Vault.Details.{CardDetail, IdentityDetail, CustomField}
use dms_bitwarden_cli.Vault.Rows.{Row, card_of}
use dms_bitwarden_cli.Vault.Public.{
  has_secret, public_card, public_identity, public_field, public_item_detail,
}

-- A row with other secrets: each is changed by `g`, and the object that it was read from is `raw`.
module _ (g : Str → Str) where
  abbrev pub other_card : CardDetail → CardDetail
  other_card c = record c { card = record (c.card) { number = g c.card.number }; code = g c.code }

  abbrev pub other_identity : IdentityDetail → IdentityDetail
  other_identity i = record i {
    ssn = g i.ssn;
    passport_number = g i.passport_number;
    license_number = g i.license_number;
  }

  abbrev pub other_field : CustomField → CustomField
  other_field f = record f { value = if f.sensitive then g f.value else f.value }

  abbrev pub other_secrets : Option Value → Row → Row
  other_secrets raw row =
      let card = Option.map other_card row.card in
      record row {
        item = record (row.item) { notes = g row.item.notes; card = card_of card };
        password = g row.password;
        totp_key = g row.totp_key;
        card = card;
        identity = Option.map other_identity row.identity;
        fields = map other_field row.fields;
        raw_object = raw;
      }

  module _ (keeps : (s : Str) → is_empty (g s) ≡ is_empty s) where
    has_secret-other :
        (held : Option Value) (flag value : Str)
        → has_secret held flag (g value) ≡ has_secret held flag value
    unfolding has_secret
    has_secret-other none flag value = rw (keeps value) refl
    has_secret-other (some flags) flag value = refl

    public_card-other :
        (held : Option Value) (card : Option CardDetail)
        → Option.map (public_card held) (Option.map other_card card)
          ≡ Option.map (public_card held) card
    unfolding public_card
    public_card-other held none = refl
    public_card-other held (some c) =
        rw (keeps c.card.number, has_secret-other held (codes "cardCode") c.code) refl

    public_identity-other :
        (held : Option Value) (identity : Option IdentityDetail)
        → Option.map (public_identity held) (Option.map other_identity identity)
          ≡ Option.map (public_identity held) identity
    unfolding public_identity
    public_identity-other held none = refl
    public_identity-other held (some i) =
        rw
          (
            has_secret-other held (codes "ssn") i.ssn,
            has_secret-other held (codes "passportNumber") i.passport_number,
            has_secret-other held (codes "licenseNumber") i.license_number,
          )
          refl

    public_field-other : (f : CustomField) → public_field (other_field f) ≡ public_field f
    unfolding public_field
    public_field-other f = elim (Bool-cases f.sensitive) [ inl e ↦ rw e refl | inr e ↦ rw e refl ]

    public_fields-other :
        (n : ℕ) (fs : List CustomField)
        → map public_field (take n (map other_field fs)) ≡ map public_field (take n fs)
    public_fields-other zero fs = refl
    public_fields-other (suc n) [] = refl
    public_fields-other (suc n) (f ∷ fs) = rw (public_field-other f, public_fields-other n fs) refl

    -- The detail without secrets is the same for two items that differ only in the password, the
    -- one-time code key, the notes, a card's number and code, an identity's numbers and the values of
    -- hidden fields, and in the object behind them, if the same of these are empty.
    pub public_item_detail_hides :
        (raw : Option Value) (row : Row)
        → public_item_detail (other_secrets raw row) ≡ public_item_detail row
    unfolding public_item_detail
    public_item_detail_hides raw row =
        rw
          (
            public_card-other row.held row.card,
            public_identity-other row.held row.identity,
            public_fields-other max_list_entries row.fields,
            keeps row.item.notes,
          )
          refl
