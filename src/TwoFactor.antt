-- ===== src/TwoFactor.antt =====
-- The two-step method that the panel remembers for an account (BitwardenModel.js,
-- "twoFactorAccountKey" to "forgetTwoFactorMethodIn"). The store is a value of the shell's
-- file, and no array.
pub mod Memory
use dms_bitwarden_cli.Common.{
  ℕ, ◌+◌, ◌-◌, Bool, not, ◌||◌, Option, none, some, List, [], ◌∷◌, leb, ◌==◌, if◌then◌else◌,
  is_empty, any, pos, Str, ◌===◌, trim,
}
use dms_bitwarden_cli.Js.Numbers.{Number, fin, nat}
use dms_bitwarden_cli.Js.Values.{Value, number, object, Fields, end, field, prop, is_object_like}
use dms_bitwarden_cli.Settings.{two_factor_methods, whole_number}

abbrev pub max_remembered_accounts : ℕ
max_remembered_accounts = 10

unfoldable pub is_method : ℕ → Bool
unfolding any
is_method m = any (λ k. k == m) two_factor_methods

-- `isFinite(m) && isTwoFactorMethod(m) ? m : -1`, with `none` for -1.
unfoldable pub method_of : Number → Option ℕ
unfolding is_method
method_of (fin (pos n) []) = if is_method n then some n else none
method_of _ = none

-- The object `next`: its properties in the order of their insertion, each once.
abbrev pub Methods : Type 0
Methods = List (Str × ℕ)

unfoldable pub put : Str → ℕ → Methods → Methods
unfolding ◌===◌
put k m [] = (k, m) ∷ []
put k m ((j, n) ∷ rest) =
    let later = put k m rest in if j === k then (j, m) ∷ rest else (j, n) ∷ later

unfoldable pub methods_fields : Methods → Fields
methods_fields [] = end
methods_fields ((k, m) ∷ rest) = field k (number (nat m)) (methods_fields rest)

abbrev pub store_fields : Value → Fields
store_fields (object fs) = fs
store_fields _ = end

-- `lower` is `String.prototype.toLowerCase`.
module _ (lower : Str → Str) where
  unfoldable pub two_factor_account_key : Str → Str
  unfolding trim
  two_factor_account_key email = lower (trim email)

  unfoldable pub remembered_two_factor_method_for : Value → Str → Option ℕ
  unfolding two_factor_account_key method_of whole_number prop
  remembered_two_factor_method_for store email =
      let key = two_factor_account_key email in
      if is_empty key || not (is_object_like store)
      then none
      else method_of (whole_number (prop key store))

  -- One round of the loop of `rememberTwoFactorMethodIn`: the methods so far and their count.
  unfoldable pub keep_other : Str → Str → Option ℕ → Methods × ℕ → Methods × ℕ
  unfolding put ◌===◌
  keep_other key other none (next, kept) = (next, kept)
  keep_other key other (some m) (next, kept) =
      if is_empty other || other === key || leb (max_remembered_accounts - 1) kept
      then (next, kept)
      else (put other m next, kept + 1)

  unfoldable pub keep_others : Value → Str → Fields → Methods × ℕ → Methods × ℕ
  unfolding keep_other remembered_two_factor_method_for two_factor_account_key
  keep_others store key end acc = acc
  keep_others store key (field k v rest) acc =
      keep_others store key rest
        (keep_other key (two_factor_account_key k) (remembered_two_factor_method_for store k) acc)

  unfoldable pub remember_two_factor_method_in : Value → Str → ℕ → Option Methods
  unfolding keep_others put two_factor_account_key is_method
  remember_two_factor_method_in store email method =
      let key = two_factor_account_key email in
      if is_empty key || not (is_method method)
      then none
      else some (put key method (keep_others store key (store_fields store) ([], 0)).0)

  unfoldable pub keep_unless : Str → Str → Option ℕ → Methods → Methods
  unfolding put ◌===◌
  keep_unless key other none next = next
  keep_unless key other (some m) next =
      if is_empty other || other === key then next else put other m next

  unfoldable pub forget_from : Value → Str → Fields → Methods → Methods
  unfolding keep_unless remembered_two_factor_method_for two_factor_account_key
  forget_from store key end next = next
  forget_from store key (field k v rest) next =
      forget_from store key rest
        (keep_unless key (two_factor_account_key k) (remembered_two_factor_method_for store k) next)

  unfoldable pub forget_two_factor_method_in : Value → Str → Option Methods
  unfolding forget_from two_factor_account_key
  forget_two_factor_method_in store email =
      let key = two_factor_account_key email in
      if is_empty key || not (is_object_like store)
      then none
      else some (forget_from store key (store_fields store) [])
