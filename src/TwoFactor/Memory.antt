-- ===== src/TwoFactor/Memory.antt =====
-- What is remembered, and for how many accounts.
use dms_bitwarden_cli.Common.{
  ℕ, suc, ◌≤◌, ◌≡◌, refl, inl, inr, true, false, not, ◌||◌, Option, none, some, [], ◌∷◌, arith, leb,
  Bool-cases, length, is_empty, All, pos, Str, ◌===◌, ===_refl,
}
use dms_bitwarden_cli.Js.Numbers.{Number, fin, nat, floor}
use dms_bitwarden_cli.Js.Values.{Value, number, object, Fields, end, field, prop, is_object_like}
use dms_bitwarden_cli.Settings.{whole_number}
use dms_bitwarden_cli.TwoFactor.{
  is_method, method_of, Methods, put, methods_fields, store_fields, two_factor_account_key,
  remembered_two_factor_method_for, keep_other, keep_others, remember_two_factor_method_in,
}

-- At most nine methods, no more than the count, and each one that the CLI has.
record IsKept (acc : Methods × ℕ) : Type 0 where
  pub counted : length acc.0 ≤ acc.1
  pub within : acc.1 ≤ 9
  pub known : All (λ p. is_method p.1 ≡ true) acc.0

put-length : (k : Str) (m : ℕ) (l : Methods) → length (put k m l) ≤ suc (length l)
unfolding put
put-length k m [] = omega arith
put-length k m ((j, n) ∷ rest) = ground (arith, put-length k m rest)

put-known :
    (k : Str) (m : ℕ) (l : Methods)
    → is_method m ≡ true
    → All (λ p. is_method p.1 ≡ true) l
    → All (λ p. is_method p.1 ≡ true) (put k m l)
unfolding put
put-known k m [] h a = (h, tt)
put-known k m ((j, n) ∷ rest) h a = elim (Bool-cases (j === k)) [
  | inl same ↦ rw same (h, a.1)
  | inr other ↦ rw other (a.0, put-known k m rest h a.1)
]

put-found :
    (k : Str) (m : ℕ) (l : Methods) → prop k (object (methods_fields (put k m l))) ≡ number (nat m)
unfolding put methods_fields prop
put-found k m [] = rw (===_refl k) refl
put-found k m ((j, n) ∷ rest) = elim (Bool-cases (j === k)) [
  | inl same ↦ rw same (rw same refl)
  | inr other ↦ rw other (rw other (put-found k m rest))
]

abbrev IsKnown : Option ℕ → Type 0
IsKnown none = Unit
IsKnown (some m) = is_method m ≡ true

method_of-IsKnown : (n : Number) → IsKnown (method_of n)
unfolding method_of
method_of-IsKnown (fin (pos n) []) = elim (Bool-cases (is_method n)) [
  | inl e ↦ rw e e
  | inr e ↦ rw e tt
]
method_of-IsKnown _ = tt

known_method : (m : ℕ) → is_method m ≡ true → method_of (whole_number (number (nat m))) ≡ some m
unfolding method_of whole_number floor
known_method m k = rw k refl

module _ (lower : Str → Str) where
  remembered-IsKnown :
      (store : Value) (email : Str) → IsKnown (remembered_two_factor_method_for lower store email)
  unfolding remembered_two_factor_method_for
  remembered-IsKnown store email =
      elim (Bool-cases
        (is_empty (two_factor_account_key lower email) || not (is_object_like store))) [
          | inl e ↦ rw e tt
          | inr e ↦
              rw e
                (method_of-IsKnown (whole_number (prop (two_factor_account_key lower email) store)))
        ]

  keep_other-IsKept :
      (key other : Str) (o : Option ℕ) (acc : Methods × ℕ)
      → IsKnown o
      → IsKept acc
      → IsKept (keep_other lower key other o acc)
  unfolding keep_other
  keep_other-IsKept key other none acc k h = h
  keep_other-IsKept key other (some m) (next, kept) k h =
      elim (Bool-cases (is_empty other || other === key || leb 9 kept)) [
        | inl e ↦ rw e h
        | inr e ↦ rw e (record {
          counted = omega (arith, put-length other m next, h.counted);
          within = ground arith;
          known = put-known other m next k h.known;
        })
      ]

  keep_others-IsKept :
      (store : Value) (key : Str) (fs : Fields) (acc : Methods × ℕ)
      → IsKept acc
      → IsKept (keep_others lower store key fs acc)
  unfolding keep_others
  keep_others-IsKept store key end acc h = h
  keep_others-IsKept store key (field k v rest) acc h =
      keep_others-IsKept store key rest
        (keep_other lower key (two_factor_account_key lower k)
          (remembered_two_factor_method_for lower store k) acc)
        (keep_other-IsKept key (two_factor_account_key lower k)
          (remembered_two_factor_method_for lower store k) acc (remembered-IsKnown store k) h)

  remembered-found :
      (email : Str) (m : ℕ) (l : Methods)
      → is_empty (two_factor_account_key lower email) ≡ false
      → is_method m ≡ true
      → remembered_two_factor_method_for lower
          (object (methods_fields (put (two_factor_account_key lower email) m l)))
          email
        ≡ some m
  unfolding remembered_two_factor_method_for
  remembered-found email m l h k =
      rw (h, put-found (two_factor_account_key lower email) m l) (known_method m k)

  -- A method of the CLI that is remembered for an email that is not blank is the one that is read
  -- for it later, whatever the store held before; the new store has at most ten accounts, each with
  -- a method of the CLI.
  pub remember_two_factor_method_in_reads :
      (store : Value) (email : Str) (method : ℕ)
      → is_empty (two_factor_account_key lower email) ≡ false
      → is_method method ≡ true
      → (next : Methods) × (remember_two_factor_method_in lower store email method ≡ some next)
        × (remembered_two_factor_method_for lower (object (methods_fields next)) email
            ≡ some method)
        × (length next ≤ 10)
        × All (λ p. is_method p.1 ≡ true) next
  unfolding remember_two_factor_method_in
  remember_two_factor_method_in_reads store email method h k =
      let key = two_factor_account_key lower email in
      let others = keep_others lower store key (store_fields store) ([], 0) in
      let kept =
        keep_others-IsKept store key (store_fields store) ([], 0)
          (record { counted = omega arith; within = omega arith; known = tt }) in
      (
        put key method others.0,
        rw (h, k) refl,
        remembered-found email method others.0 h k,
        omega (arith, put-length key method others.0, kept.counted, kept.within),
        put-known key method others.0 k kept.known,
      )
