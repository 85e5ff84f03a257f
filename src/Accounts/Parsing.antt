-- ===== src/Accounts/Parsing.antt =====
-- Reading the registry file.
use dms_bitwarden_cli.Common.{
  ℕ, ◌≤◌, ◌<◌, ◌≡◌, refl, inl, inr, true, ◌&&◌, Option, none, some, List, [], ◌∷◌, arith, leb,
  Bool-cases, length, any, All, length-append, All-append, Str, codes,
}
use dms_bitwarden_cli.Js.Numbers.{nat, num_eq}
use dms_bitwarden_cli.Js.Values.{Value, prop, is_object_like, string?, to_number}
use dms_bitwarden_cli.Accounts.{is_account_slot}
use dms_bitwarden_cli.Accounts.Registry.{
  Account, Registry, max_accounts, accounts_version, empty_registry, has_slot, listed_slot,
  parse_account, push_account, parse_accounts, registry_of, parse_account_registry,
  registry_note_account, registry_remove_account, registry_set_active, slot_or_default, array_items,
  parsed_or_empty,
}
use dms_bitwarden_cli.Accounts.Valid.{
  IsAccount, Distinct, IsValid, clean_account_text-Clean, account_slot-valid, default-slot_valid,
  Distinct-append,
}
use dms_bitwarden_cli.Accounts.Update.{note-IsValid, remove-IsValid, set_active-IsValid}

parse_account-IsAccount :
    (slot : Str) (a : Value) → is_account_slot slot ≡ true → IsAccount (parse_account slot a)
unfolding parse_account
parse_account-IsAccount slot a h = record {
  slot = h;
  email = clean_account_text-Clean (prop (codes "email") a) 320;
  user_id = clean_account_text-Clean (prop (codes "userId") a) 128;
  server = clean_account_text-Clean (prop (codes "server") a) 512;
}

listed_slot-valid : (a : Value) (s : Str) → listed_slot a ≡ some s → is_account_slot s ≡ true
unfolding listed_slot
listed_slot-valid a s h = ground arith

-- The accounts that the parser's loop has collected.
record IsCollected (out : List Account) : Type 0 where
  accounts : All IsAccount out
  distinct : Distinct out
  within : length out ≤ 10

push-IsCollected :
    (out : List Account) (a : Value) (o : Option Str)
    → ((s : Str) → o ≡ some s → is_account_slot s ≡ true)
    → length out < 10
    → IsCollected out
    → IsCollected (push_account out a o)
unfolding push_account
push-IsCollected out a none valid lt v = v
push-IsCollected out a (some s) valid lt v = elim (Bool-cases (any (has_slot s) out)) [
  | inl e ↦ rw e v
  | inr e ↦ rw e (record {
    accounts =
        All-append IsAccount out _ v.accounts (parse_account-IsAccount s a (valid s refl), tt);
    distinct = Distinct-append out (parse_account s a) (unfold parse_account in e) v.distinct;
    within = omega (arith, length-append out (parse_account s a ∷ []));
  })
]

parse_accounts-IsCollected :
    (list : List Value) (out : List Account)
    → IsCollected out
    → IsCollected (parse_accounts out list)
unfolding parse_accounts
parse_accounts-IsCollected [] out v = v
parse_accounts-IsCollected (a ∷ rest) out v = elim (Bool-cases (leb max_accounts (length out))) [
  | inl full ↦ rw full v
  | inr room ↦ rw room (
      parse_accounts-IsCollected rest (push_account out a (listed_slot a))
        (push-IsCollected out a (listed_slot a) (listed_slot-valid a) (ground arith) v))
]

slot_or_default-valid : (o : Option Str) → is_account_slot (slot_or_default o) ≡ true
slot_or_default-valid none = default-slot_valid
slot_or_default-valid (some s) = account_slot-valid s

empty-IsValid : IsValid empty_registry
empty-IsValid = record {
  active = default-slot_valid;
  accounts = tt;
  distinct = tt;
  within = omega arith;
}

registry_of-IsValid : (v : Value) → IsValid (registry_of v)
unfolding registry_of
registry_of-IsValid v =
    elim (Bool-cases
      (is_object_like v && num_eq (to_number (prop (codes "version") v)) (nat accounts_version))) [
        | inl e ↦
            rw e
              (listed (string? (prop (codes "active") v)) (array_items (prop (codes "accounts") v)))
        | inr e ↦ rw e empty-IsValid
      ]
  where
    listed :
        (o : Option Str) (list : List Value)
        → IsValid (record { active = slot_or_default o; accounts = parse_accounts [] list })
    listed o list =
        let c =
          parse_accounts-IsCollected list []
            (record { accounts = tt; distinct = tt; within = omega arith }) in
        record {
          active = slot_or_default-valid o;
          accounts = c.accounts;
          distinct = c.distinct;
          within = c.within;
        }

parsed-IsValid : (o : Option Value) → IsValid (parsed_or_empty o)
parsed-IsValid none = empty-IsValid
parsed-IsValid (some v) = registry_of-IsValid v

module _ (parse_json : Str → Option Value) where
  pub parse-IsValid : (raw : Str) → IsValid (parse_account_registry parse_json raw)
  unfolding parse_account_registry
  parse-IsValid raw = parsed-IsValid (parse_json raw)

  -- The registries that the panel can hold: one read from the file, whatever it holds, and what
  -- the operations make of one.
  pub data IsReached : Registry → Type 0 where
    read : (raw : Str) → IsReached (parse_account_registry parse_json raw)
    note :
        {r : Registry} (slot : Str) (info : Value) (now : ℕ)
        → IsReached r
        → IsReached (registry_note_account r slot info now).registry
    remove : {r : Registry} (slot : Str) → IsReached r → IsReached (registry_remove_account r slot)
    activate :
        {r : Registry} (slot : Str) (now : Option ℕ)
        → IsReached r
        → IsReached (registry_set_active r slot now)

  -- Every registry that the panel can hold is well-formed: its slots are valid and distinct, it has
  -- at most ten accounts, their texts are within their limits and hold no control, and the active
  -- slot is a valid one.
  pub reached-IsValid : {r : Registry} → IsReached r → IsValid r
  reached-IsValid (read raw) = parse-IsValid raw
  reached-IsValid (note {r = r} slot info now h) = note-IsValid r slot info now (reached-IsValid h)
  reached-IsValid (remove {r = r} slot h) = remove-IsValid r slot (reached-IsValid h)
  reached-IsValid (activate {r = r} slot now h) = set_active-IsValid r slot now (reached-IsValid h)
