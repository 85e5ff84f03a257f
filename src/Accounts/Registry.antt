-- ===== src/Accounts/Registry.antt =====
-- The account registry: which slot holds which account, and the active slot.
use dms_bitwarden_cli.Common.{
  ℕ, max, Bool, true, false, not, ◌&&◌, ◌||◌, Option, none, some, List, [], ◌∷◌, ◌++◌, map, ltb,
  leb, ◌==◌, if◌then◌else◌, length, take, is_empty, filter, find?, any, Str, codes, ◌===◌,
}
use dms_bitwarden_cli.Js.Numbers.{Number, nat, num_eq, max_zero}
use dms_bitwarden_cli.Js.Values.{
  Value, number, string, array, object, Items, nil, cons, end, field, items_list, prop,
  is_object_like, string?, to_number, whole_or_zero, text_or_empty,
}
use dms_bitwarden_cli.Js.Json.{stringify}
use dms_bitwarden_cli.Accounts.{default_slot, is_account_slot, account_slot}

pub record Account : Type 0 where
  pub slot : Str
  pub email : Str
  pub user_id : Str
  pub server : Str
  pub last_used : Number

pub record Registry : Type 0 where
  pub active : Str
  pub accounts : List Account

abbrev pub accounts_version : ℕ
accounts_version = 1

abbrev pub max_accounts : ℕ
max_accounts = 10

abbrev pub empty_registry : Registry
empty_registry = record { active = default_slot; accounts = [] }

-- `[\x00-\x1f\x7f]`.
abbrev pub is_control : ℕ → Bool
is_control c = ltb c 32 || c == 127

unfoldable pub clean_account_text : Value → ℕ → Str
unfolding text_or_empty filter
clean_account_text v max = take max (filter (λ c. not (is_control c)) (text_or_empty v))

unfoldable pub has_slot : Str → Account → Bool
unfolding ◌===◌
has_slot slot a = a.slot === slot

-- `Math.max(0, Math.floor(Number(v)) || 0)`.
unfoldable pub time_of : Value → Number
unfolding whole_or_zero max_zero
time_of v = max_zero (whole_or_zero v)

-- The slot of a listed account, if it is one that may be kept.
unfoldable pub listed_slot : Value → Option Str
unfolding prop is_account_slot
listed_slot a = elim (string? (prop (codes "slot") a)) [
  | none ↦ none
  | some s ↦ if is_account_slot s then some s else none
]

unfoldable pub parse_account : Str → Value → Account
unfolding clean_account_text time_of
parse_account slot a = record {
  slot = slot;
  email = clean_account_text (prop (codes "email") a) 320;
  user_id = clean_account_text (prop (codes "userId") a) 128;
  server = clean_account_text (prop (codes "server") a) 512;
  last_used = time_of (prop (codes "lastUsed") a);
}

-- One round of the parser's loop; a slot counts as seen exactly if an account with it was pushed.
unfoldable pub push_account : List Account → Value → Option Str → List Account
push_account out a none = out
push_account out a (some slot) =
    if any (has_slot slot) out then out else out ++ parse_account slot a ∷ []

unfoldable pub parse_accounts : List Account → List Value → List Account
parse_accounts out [] = out
parse_accounts out (a ∷ rest) =
    let more = parse_accounts (push_account out a (listed_slot a)) rest in
    if leb max_accounts (length out) then out else more

abbrev pub array_items : Value → List Value
array_items (array vs) = items_list vs
array_items _ = []

abbrev pub slot_or_default : Option Str → Str
slot_or_default none = default_slot
slot_or_default (some s) = account_slot s

unfoldable pub registry_of : Value → Registry
registry_of parsed =
    if is_object_like parsed
      && num_eq (to_number (prop (codes "version") parsed)) (nat accounts_version)
    then record {
      active = slot_or_default (string? (prop (codes "active") parsed));
      accounts = parse_accounts [] (array_items (prop (codes "accounts") parsed));
    }
    else empty_registry

abbrev pub parsed_or_empty : Option Value → Registry
parsed_or_empty none = empty_registry
parsed_or_empty (some v) = registry_of v

module _ (parse_json : Str → Option Value) where
  unfoldable pub parse_account_registry : Str → Registry
  parse_account_registry raw = parsed_or_empty (parse_json raw)

-- The object that `serializeAccountRegistry` hands to `JSON.stringify`.
abbrev pub account_value : Account → Value
account_value a = object (
    field (codes "slot") (string a.slot) (
      field (codes "email") (string a.email) (
        field (codes "userId") (string a.user_id) (
          field (codes "server") (string a.server)
            (field (codes "lastUsed") (number a.last_used) end)))))

unfoldable pub account_items : List Account → Items
account_items [] = nil
account_items (a ∷ rest) = cons (account_value a) (account_items rest)

unfoldable pub registry_value : Registry → Value
registry_value r = object (
    field (codes "version") (number (nat accounts_version)) (
      field (codes "active") (string (account_slot r.active))
        (field (codes "accounts") (array (account_items r.accounts)) end)))

unfoldable pub serialize_account_registry : Registry → Str
unfolding registry_value stringify
serialize_account_registry r = stringify (registry_value r)

unfoldable pub copy_registry : Registry → Registry
unfolding account_slot
copy_registry r = record r { active = account_slot r.active }

unfoldable pub registry_account : Registry → Str → Option Account
unfolding find? has_slot
registry_account r slot = find? (has_slot slot) r.accounts

unfoldable pub registry_has_account : Registry → Str → Bool
unfolding registry_account
registry_has_account r slot = elim (registry_account r slot) [ none ↦ false | some a ↦ true ]

-- Another slot that holds the same user on the same server.
unfoldable pub is_retired : Str → Str → Str → Account → Bool
unfolding ◌===◌
is_retired slot user_id server a =
    not (a.slot === slot) && not (is_empty user_id) && a.user_id === user_id && a.server === server

abbrev pub or_else : Str → Str → Str
or_else s t = if is_empty s then t else s

-- The new content of the slot's entry.
unfoldable pub noted : Str → Str → Str → Number → Account → Account
noted user_id server email now a = record a {
  email = or_else email a.email;
  user_id = or_else user_id a.user_id;
  server = server;
  last_used = now;
}

-- Assignment through the reference that `registryAccount` returns: the first account of the slot.
unfoldable pub update_slot : Str → (Account → Account) → List Account → List Account
unfolding has_slot
update_slot slot f [] = []
update_slot slot f (a ∷ rest) =
    let later = update_slot slot f rest in if has_slot slot a then f a ∷ rest else a ∷ later

abbrev pub blank_account : Str → Account
blank_account slot = record {
  slot = slot;
  email = [];
  user_id = [];
  server = [];
  last_used = nat 0;
}

pub record Noted : Type 0 where
  pub registry : Registry
  pub retired : List Str
  pub full : Bool

-- The accounts among which the entry is updated: it is pushed if the slot has none.
unfoldable pub with_entry : Str → List Account → List Account
unfolding any
with_entry slot accounts =
    if any (has_slot slot) accounts then accounts else accounts ++ blank_account slot ∷ []

unfoldable pub registry_note_account : Registry → Str → Value → ℕ → Noted
registry_note_account registry slot info now =
    let s = account_slot slot in
    let user_id = clean_account_text (prop (codes "userId") info) 128 in
    let server = clean_account_text (prop (codes "server") info) 512 in
    let email = clean_account_text (prop (codes "email") info) 320 in
    let accounts = (copy_registry registry).accounts in
    let gone = filter (is_retired s user_id server) accounts in
    let kept = filter (λ a. not (is_retired s user_id server a)) accounts in
    if not (any (has_slot s) kept) && leb max_accounts (length kept)
    then record { registry = registry; retired = []; full = true }
    else record {
      registry = record {
        active = s;
        accounts = update_slot s (noted user_id server email (nat now)) (with_entry s kept);
      };
      retired = map (λ a. a.slot) gone;
      full = false;
    }

unfoldable pub registry_remove_account : Registry → Str → Registry
registry_remove_account registry slot =
    let r = copy_registry registry in
    record r { accounts = filter (λ a. not (has_slot slot a)) r.accounts }

abbrev pub touched : Option ℕ → Account → Account
touched none a = a
touched (some now) a = record a { last_used = nat now }

-- `now` is `none` for undefined.
unfoldable pub registry_set_active : Registry → Str → Option ℕ → Registry
registry_set_active registry slot now =
    let s = account_slot slot in
    record { active = s; accounts = update_slot s (touched now) registry.accounts }
