-- ===== src/Examples/Slots.antt =====
-- Registries, slots and texts on concrete data.
use dms_bitwarden_cli.Common.{
  ℕ, zero, suc, ◌%◌, ◌<◌, ◌≡◌, refl, true, not, ◌&&◌, Option, none, some, [], ◌∷◌, arith, leb,
  if◌then◌else◌, length, any, all, Str, codes, ◌===◌, ===_refl,
}
use dms_bitwarden_cli.Js.Numbers.{nat}
use dms_bitwarden_cli.Js.Values.{Value, string, object, end, field, prop}
use dms_bitwarden_cli.Accounts.{default_slot, is_account_slot, is_private_slot, account_slot}
use dms_bitwarden_cli.Accounts.Registry.{
  Registry, has_slot, is_control, clean_account_text, time_of, registry_value,
  serialize_account_registry, parse_account_registry, registry_note_account,
  registry_remove_account,
}
use dms_bitwarden_cli.Accounts.Valid.{CleanText, IsValid}
use dms_bitwarden_cli.Accounts.Noting.{NotedAs, note-NotedAs}
use dms_bitwarden_cli.Accounts.Parsing.{read, note, remove, reached-IsValid}
use dms_bitwarden_cli.Accounts.RoundTrip.{parse-serialize}

abbrev other_slot : Str
other_slot = codes "0123456789abcdef"

abbrev two : Registry
two = record {
  active = default_slot;
  accounts =
      record {
        slot = default_slot;
        email = codes "a@example.org";
        user_id = codes "u1";
        server = codes "https://vault.example.org";
        last_used = nat 100;
      }
      ∷ record {
        slot = other_slot;
        email = codes "b@example.org";
        user_id = codes "u2";
        server = [];
        last_used = nat 200;
      }
      ∷ [];
}

abbrev known_text : Str → Option Value
known_text s = if s === serialize_account_registry two then some (registry_value two) else none

abbrev info : Value
info = object (
    field (codes "userId") (string (codes "u1")) (
      field (codes "server") (string (codes "https://vault.example.org"))
        (field (codes "email") (string (codes "a@example.org")) end)))

clean_text :
    (n : ℕ) (s : Str) → leb (length s) n && all (λ c. not (is_control c)) s ≡ true → CleanText n s
unfolding all
clean_text n [] h = (omega arith, tt)
clean_text zero (c ∷ s) h = absurd (ground arith)
clean_text (suc n) (c ∷ s) h =
    let (le, rest) = clean_text n s (ground arith) in (omega (arith, le), (ground arith, rest))

two-IsValid : IsValid two
unfolding is_account_slot is_private_slot ◌===◌ has_slot all any
two-IsValid = record {
  active = refl;
  accounts = (
    record {
      slot = refl;
      email = clean_text 320 (codes "a@example.org") refl;
      user_id = clean_text 128 (codes "u1") refl;
      server = clean_text 512 (codes "https://vault.example.org") refl;
    },
    (
      record {
        slot = refl;
        email = clean_text 320 (codes "b@example.org") refl;
        user_id = clean_text 128 (codes "u2") refl;
        server = clean_text 512 [] refl;
      },
      tt,
    ),
  );
  distinct = (refl, (refl, tt));
  within = omega arith;
}

parse-serialize_example : parse_account_registry known_text (serialize_account_registry two) ≡ two
unfolding time_of
parse-serialize_example =
    parse-serialize known_text two (rw (===_refl (serialize_account_registry two)) refl) two-IsValid
      (refl, (refl, tt))

reached-IsValid_example : IsValid (
    registry_remove_account
      (registry_note_account (parse_account_registry known_text []) other_slot info 300).registry
      default_slot)
reached-IsValid_example =
    reached-IsValid known_text (remove default_slot (note other_slot info 300 (read [])))

note-NotedAs_example :
    NotedAs two
      (account_slot other_slot)
      (clean_account_text (prop (codes "userId") info) 128)
      (clean_account_text (prop (codes "server") info) 512)
      300
      (registry_note_account two other_slot info 300)
note-NotedAs_example = note-NotedAs two other_slot info 300

abbrev digit : ℕ → ℕ
digit n = n % 16

digit-lt : (n : ℕ) → digit n < 16
digit-lt n = omega arith
