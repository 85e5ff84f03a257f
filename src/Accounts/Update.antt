-- ===== src/Accounts/Update.antt =====
-- What the operations on a registry keep, and what noting an account does.
use dms_bitwarden_cli.Common.{
  ℕ, ◌≤◌, ◌<◌, ◌≡◌, refl, ◌⊎◌, inl, inr, true, not, ◌&&◌, Option, none, some, List, [], ◌∷◌, arith,
  leb, Bool-cases, length, filter, any, all, All, length-append, length-filter-le, All-append, Str,
  codes,
}
use dms_bitwarden_cli.Js.Numbers.{Number, nat}
use dms_bitwarden_cli.Js.Values.{Value, prop}
use dms_bitwarden_cli.Accounts.{is_account_slot, account_slot}
use dms_bitwarden_cli.Accounts.Registry.{
  Account, Registry, max_accounts, clean_account_text, has_slot, is_retired, or_else, noted,
  update_slot, with_entry, blank_account, copy_registry, registry_note_account,
  registry_remove_account, registry_set_active, touched,
}
use dms_bitwarden_cli.Accounts.Valid.{
  CleanText, IsAccount, Distinct, IsValid, clean_account_text-Clean, account_slot-valid,
  Distinct-append, Distinct-filter, Accounts-filter, Distinct-update_slot, length-update_slot,
  Accounts-update_slot, blank-IsAccount,
}

or_else-Clean : (n : ℕ) (s t : Str) → CleanText n s → CleanText n t → CleanText n (or_else s t)
or_else-Clean n [] t h k = k
or_else-Clean n (c ∷ s) t h k = h

noted-IsAccount :
    (user_id server email : Str) (now : Number) (a : Account)
    → CleanText 128 user_id
    → CleanText 512 server
    → CleanText 320 email
    → IsAccount a
    → IsAccount (noted user_id server email now a)
unfolding noted
noted-IsAccount user_id server email now a u s e h = record {
  slot = h.slot;
  email = or_else-Clean 320 email a.email e h.email;
  user_id = or_else-Clean 128 user_id a.user_id u h.user_id;
  server = s;
}

noted-slot :
    (user_id server email : Str) (now : Number) (a : Account)
    → (noted user_id server email now a).slot ≡ a.slot
unfolding noted
noted-slot user_id server email now a = refl

touched-slot : (now : Option ℕ) (a : Account) → (touched now a).slot ≡ a.slot
touched-slot none a = refl
touched-slot (some n) a = refl

touched-IsAccount : (now : Option ℕ) (a : Account) → IsAccount a → IsAccount (touched now a)
touched-IsAccount none a h = h
touched-IsAccount (some n) a h = record {
  slot = h.slot;
  email = h.email;
  user_id = h.user_id;
  server = h.server;
}

with_entry-Distinct : (s : Str) (l : List Account) → Distinct l → Distinct (with_entry s l)
unfolding with_entry
with_entry-Distinct s l d = elim (Bool-cases (any (has_slot s) l)) [
  | inl e ↦ rw e d
  | inr e ↦ rw e (Distinct-append l (blank_account s) e d)
]

with_entry-Accounts :
    (s : Str) (l : List Account)
    → is_account_slot s ≡ true
    → All IsAccount l
    → All IsAccount (with_entry s l)
unfolding with_entry
with_entry-Accounts s l v h = elim (Bool-cases (any (has_slot s) l)) [
  | inl e ↦ rw e h
  | inr e ↦ rw e (All-append IsAccount l _ h (blank-IsAccount s v, tt))
]

length-with_entry :
    (s : Str) (l : List Account)
    → (any (has_slot s) l ≡ true) ⊎ (length l < 10)
    → length l ≤ 10
    → length (with_entry s l) ≤ 10
unfolding with_entry
length-with_entry s l c h = ground (arith, length-append l (blank_account s ∷ []))

module _ (s user_id server email : Str) (now : Number) (kept : List Account) where
  -- The registry that noting leaves, from the accounts that were kept.
  abbrev entered : Registry
  entered = record {
    active = s;
    accounts = update_slot s (noted user_id server email now) (with_entry s kept);
  }

  entered-IsValid :
      is_account_slot s ≡ true
      → CleanText 128 user_id
      → CleanText 512 server
      → CleanText 320 email
      → ((any (has_slot s) kept ≡ true) ⊎ (length kept < 10))
      → All IsAccount kept
      → Distinct kept
      → length kept ≤ 10
      → IsValid entered
  entered-IsValid v cu cs ce room all d le =
      let f = noted user_id server email now in
      let keeps = noted-slot user_id server email now in
      record {
        active = v;
        accounts =
            Accounts-update_slot s f keeps (with_entry s kept)
              (λ a h. noted-IsAccount user_id server email now a cu cs ce h)
              (with_entry-Accounts s kept v all);
        distinct =
            Distinct-update_slot s f keeps (with_entry s kept) (with_entry-Distinct s kept d);
        within = omega (
          arith,
          length-update_slot s f keeps (with_entry s kept),
          length-with_entry s kept room le,
        );
      }

-- Noting an account keeps a registry well-formed, on every branch.
pub note-IsValid :
    (r : Registry) (slot : Str) (info : Value) (now : ℕ)
    → IsValid r
    → IsValid (registry_note_account r slot info now).registry
unfolding registry_note_account copy_registry
note-IsValid r slot info now v =
    let s : Str = account_slot slot in
    let user_id : Str = clean_account_text (prop (codes "userId") info) 128 in
    let server : Str = clean_account_text (prop (codes "server") info) 512 in
    let email : Str = clean_account_text (prop (codes "email") info) 320 in
    let kept : List Account = filter (λ a. not (is_retired s user_id server a)) r.accounts in
    elim (Bool-cases (not (any (has_slot s) kept) && leb max_accounts (length kept))) [
      | inl full ↦ rw full v
      | inr room ↦ rw room (
          entered-IsValid s user_id server email (nat now) kept (account_slot-valid slot)
            (clean_account_text-Clean (prop (codes "userId") info) 128)
            (clean_account_text-Clean (prop (codes "server") info) 512)
            (clean_account_text-Clean (prop (codes "email") info) 320) (ground arith)
            (Accounts-filter _ r.accounts v.accounts) (Distinct-filter _ r.accounts v.distinct)
            (omega (
              arith,
              v.within,
              length-filter-le (λ a. not (is_retired s user_id server a)) r.accounts,
            )))
    ]

pub remove-IsValid :
    (r : Registry) (slot : Str) → IsValid r → IsValid (registry_remove_account r slot)
unfolding registry_remove_account copy_registry
remove-IsValid r slot v = record {
  active = account_slot-valid r.active;
  accounts = Accounts-filter _ r.accounts v.accounts;
  distinct = Distinct-filter _ r.accounts v.distinct;
  within = omega (arith, v.within, length-filter-le (λ a. not (has_slot slot a)) r.accounts);
}

pub set_active-IsValid :
    (r : Registry) (slot : Str) (now : Option ℕ)
    → IsValid r
    → IsValid (registry_set_active r slot now)
unfolding registry_set_active
set_active-IsValid r slot now v = record {
  active = account_slot-valid slot;
  accounts =
      Accounts-update_slot (account_slot slot) (touched now) (touched-slot now) r.accounts
        (touched-IsAccount now) v.accounts;
  distinct =
      Distinct-update_slot (account_slot slot) (touched now) (touched-slot now) r.accounts
        v.distinct;
  within = omega (
    arith,
    v.within,
    length-update_slot (account_slot slot) (touched now) (touched-slot now) r.accounts,
  );
}
