-- ===== src/Accounts/RoundTrip.antt =====
-- Writing the registry file and reading it back.
use dms_bitwarden_cli.Common.{
  ℕ, zero, suc, ◌+◌, ◌≤◌, ◌≡◌, refl, ap, ◌∙◌, false, not, Option, some, List, [], ◌∷◌, ◌++◌, arith,
  leb, length, take, filter, any, All, length-append, any-append, Str, ◌===◌,
}
use dms_bitwarden_cli.Js.Numbers.{num_eq}
use dms_bitwarden_cli.Js.Values.{
  Value, number, string, items_list, prop, to_string, to_number, text_or_empty,
}
use dms_bitwarden_cli.Js.Values.{field_value}
use dms_bitwarden_cli.Accounts.{account_slot}
use dms_bitwarden_cli.Accounts.Registry.{
  Account, Registry, max_accounts, is_control, clean_account_text, has_slot, time_of, listed_slot,
  parse_account, push_account, parse_accounts, registry_of, parse_account_registry, account_value,
  account_items, registry_value, serialize_account_registry,
}
use dms_bitwarden_cli.Accounts.Valid.{
  CleanText, IsAccount, Distinct, IsValid, account_slot_id, ===_sym,
}
use mathlib.Core.List.{append-nil, append_assoc}

take_all : (n : ℕ) (s : Str) → length s ≤ n → take n s ≡ s
take_all zero [] h = refl
take_all zero (c ∷ s) h = absurd (omega arith)
take_all (suc n) [] h = refl
take_all (suc n) (c ∷ s) h = ap (λ t. c ∷ t) (take_all n s (omega arith))

filter_clean :
    (s : Str) → All (λ c. is_control c ≡ false) s → filter (λ c. not (is_control c)) s ≡ s
unfolding filter
filter_clean [] h = refl
filter_clean (c ∷ s) h = rw h.0 (ap (λ t. c ∷ t) (filter_clean s h.1))

clean_id : (n : ℕ) (s : Str) → CleanText n s → clean_account_text (string s) n ≡ s
unfolding clean_account_text text_or_empty to_string
clean_id n s h = rw (filter_clean s h.1) (take_all n s h.0)

-- A time that is a whole number and not negative.
abbrev pub HasTime : Account → Type 0
HasTime a = time_of (number a.last_used) ≡ a.last_used

parse_account_id :
    (a : Account) → IsAccount a → HasTime a → parse_account a.slot (account_value a) ≡ a
unfolding parse_account prop field_value ◌===◌
parse_account_id a h t = λ i. record a {
  email = clean_id 320 a.email h.email i;
  user_id = clean_id 128 a.user_id h.user_id i;
  server = clean_id 512 a.server h.server i;
  last_used = t i;
}

listed_slot_id : (a : Account) → IsAccount a → listed_slot (account_value a) ≡ some a.slot
unfolding listed_slot prop field_value ◌===◌
listed_slot_id a h = rw (h.slot) refl

Distinct-middle :
    (out : List Account) (a : Account) (l : List Account)
    → Distinct (out ++ a ∷ l)
    → any (has_slot a.slot) out ≡ false
unfolding any has_slot
Distinct-middle [] a l d = refl
Distinct-middle (x ∷ out) a l d = ground (
  arith,
  any-append (has_slot x.slot) out (a ∷ l),
  ===_sym x.slot a.slot,
  Distinct-middle out a l d.1,
)

push_id :
    (out : List Account) (a : Account)
    → IsAccount a
    → HasTime a
    → any (has_slot a.slot) out ≡ false
    → push_account out (account_value a) (listed_slot (account_value a)) ≡ out ++ a ∷ []
unfolding push_account
push_id out a h t e = rw (listed_slot_id a h, e, parse_account_id a h t) refl

room : (n m : ℕ) → n + suc m ≤ 10 → leb max_accounts n ≡ false
room n m h = ground arith

parse_accounts_id :
    (l out : List Account)
    → All IsAccount l
    → All HasTime l
    → Distinct (out ++ l)
    → length out + length l ≤ 10
    → parse_accounts out (items_list (account_items l)) ≡ out ++ l
unfolding parse_accounts account_items items_list
parse_accounts_id [] out h t d n = rw append-nil refl
parse_accounts_id (a ∷ l) out h t d n =
    rw (room (length out) (length l) n, push_id out a h.0 t.0 (Distinct-middle out a l d))
      (parse_accounts_id l (out ++ a ∷ []) h.1 t.1 (rw append_assoc d)
          (omega (arith, length-append out (a ∷ [])))
        ∙ append_assoc out (a ∷ []) l)

registry_of_id :
    (r : Registry) → IsValid r → All HasTime r.accounts → registry_of (registry_value r) ≡ r
unfolding registry_of registry_value prop field_value ◌===◌ num_eq to_number
registry_of_id r v t = λ i. record r {
  active =
      (ap account_slot (account_slot_id r.active v.active) ∙ account_slot_id r.active v.active) i;
  accounts = parse_accounts_id r.accounts [] v.accounts t v.distinct (omega (arith, v.within)) i;
}

-- A well-formed registry with whole times, written to its file and read back, is the same, given
-- that the JSON parser undoes `JSON.stringify` on it.
pub parse-serialize :
    (parse_json : Str → Option Value) (r : Registry)
    → parse_json (serialize_account_registry r) ≡ some (registry_value r)
    → IsValid r
    → All HasTime r.accounts
    → parse_account_registry parse_json (serialize_account_registry r) ≡ r
unfolding parse_account_registry
parse-serialize parse_json r e v t = rw e (registry_of_id r v t)
