-- ===== src/Accounts/Valid.antt =====
-- A well-formed registry: valid slots, each once, at most ten, with clean texts.
use dms_bitwarden_cli.Common.{
  ℕ, zero, suc, ◌≤◌, ◌≡◌, refl, inl, inr, Bool, true, false, not, List, [], ◌∷◌, ◌++◌, arith,
  Bool-cases, length, take, filter, any, All, length-take, any-append, All-map, All-filter, Str,
  ◌===◌,
}
use dms_bitwarden_cli.Js.Values.{Value, text_or_empty}
use dms_bitwarden_cli.Accounts.{default_slot, is_account_slot, account_slot}
use dms_bitwarden_cli.Accounts.Registry.{
  Account, Registry, is_control, clean_account_text, has_slot, update_slot, blank_account,
}

-- At most `n` units, none of them a control.
abbrev pub CleanText : ℕ → Str → Type 0
CleanText n s = (length s ≤ n) × All (λ c. is_control c ≡ false) s

pub record IsAccount (a : Account) : Type 0 where
  pub slot : is_account_slot a.slot ≡ true
  pub email : CleanText 320 a.email
  pub user_id : CleanText 128 a.user_id
  pub server : CleanText 512 a.server

-- No two accounts share a slot.
abbrev pub Distinct : List Account → Type 0
Distinct [] = Unit
Distinct (a ∷ rest) = (any (has_slot a.slot) rest ≡ false) × Distinct rest

pub record IsValid (r : Registry) : Type 0 where
  pub active : is_account_slot r.active ≡ true
  pub accounts : All IsAccount r.accounts
  pub distinct : Distinct r.accounts
  pub within : length r.accounts ≤ 10

Clean-take :
    (n : ℕ) (s : Str)
    → All (λ c. is_control c ≡ false) s
    → All (λ c. is_control c ≡ false) (take n s)
Clean-take zero s h = tt
Clean-take (suc n) [] h = tt
Clean-take (suc n) (c ∷ s) h = (h.0, Clean-take n s h.1)

Clean-filter : (s : Str) → All (λ c. is_control c ≡ false) (filter (λ c. not (is_control c)) s)
unfolding filter
Clean-filter [] = tt
Clean-filter (c ∷ s) = elim (Bool-cases (is_control c)) [
  | inl e ↦ rw e (Clean-filter s)
  | inr e ↦ rw e (e, Clean-filter s)
]

-- Any value is read as a clean text within the limit.
pub clean_account_text-Clean : (v : Value) (n : ℕ) → CleanText n (clean_account_text v n)
unfolding clean_account_text
clean_account_text-Clean v n =
    let s : Str = filter (λ c. not (is_control c)) (text_or_empty v) in
    (omega (arith, length-take n s), Clean-take n s (Clean-filter (text_or_empty v)))

pub ===_sym : (s t : Str) → (s === t) ≡ (t === s)
unfolding ◌===◌
===_sym [] [] = refl
===_sym [] (d ∷ t) = refl
===_sym (c ∷ s) [] = refl
===_sym (c ∷ s) (d ∷ t) = ground (arith, ===_sym s t)

pub default-slot_valid : is_account_slot default_slot ≡ true
unfolding is_account_slot ◌===◌
default-slot_valid = refl

pub account_slot-valid : (s : Str) → is_account_slot (account_slot s) ≡ true
unfolding account_slot
account_slot-valid s = ground (arith, default-slot_valid)

pub account_slot_id : (s : Str) → is_account_slot s ≡ true → account_slot s ≡ s
unfolding account_slot
account_slot_id s h = rw h refl

pub Distinct-append :
    (l : List Account) (x : Account)
    → any (has_slot x.slot) l ≡ false
    → Distinct l
    → Distinct (l ++ x ∷ [])
unfolding any has_slot
Distinct-append [] x a d = (refl, tt)
Distinct-append (y ∷ l) x a (h, d) =
    (rw any-append (ground (arith, ===_sym x.slot y.slot)), Distinct-append l x (ground arith) d)

any-filter :
    (p t : Account → Bool) (l : List Account) → any t l ≡ false → any t (filter p l) ≡ false
unfolding any filter
any-filter p t [] h = refl
any-filter p t (x ∷ l) h = ground (arith, any-filter p t l)

pub Distinct-filter : (p : Account → Bool) (l : List Account) → Distinct l → Distinct (filter p l)
unfolding filter
Distinct-filter p [] d = tt
Distinct-filter p (x ∷ l) d = elim (Bool-cases (p x)) [
  | inl e ↦ rw e (any-filter p (has_slot x.slot) l d.0, Distinct-filter p l d.1)
  | inr e ↦ rw e (Distinct-filter p l d.1)
]

pub Accounts-filter :
    (p : Account → Bool) (l : List Account) → All IsAccount l → All IsAccount (filter p l)
Accounts-filter p l h = All-map (λ a k. k.0) (filter p l) (All-filter IsAccount p l h)

-- An update of one account's other fields.
module _ (s : Str) (f : Account → Account) (keeps : (a : Account) → (f a).slot ≡ a.slot) where
  any-update_slot :
      (t : Str) (l : List Account) → any (has_slot t) (update_slot s f l) ≡ any (has_slot t) l
  unfolding any update_slot has_slot
  any-update_slot t [] = refl
  any-update_slot t (a ∷ l) = elim (Bool-cases (a.slot === s)) [
    | inl e ↦ rw (e, keeps a) refl
    | inr e ↦ rw (e, any-update_slot t l) refl
  ]

  pub Distinct-update_slot : (l : List Account) → Distinct l → Distinct (update_slot s f l)
  unfolding update_slot
  Distinct-update_slot [] d = tt
  Distinct-update_slot (a ∷ l) d = elim (Bool-cases (has_slot s a)) [
    | inl e ↦ rw (e, keeps a) d
    | inr e ↦ rw (e, any-update_slot a.slot l) (d.0, Distinct-update_slot l d.1)
  ]

  pub length-update_slot : (l : List Account) → length (update_slot s f l) ≡ length l
  unfolding update_slot
  length-update_slot [] = refl
  length-update_slot (a ∷ l) = ground (arith, length-update_slot l)

  pub Accounts-update_slot :
      (l : List Account)
      → ((a : Account) → IsAccount a → IsAccount (f a))
      → All IsAccount l
      → All IsAccount (update_slot s f l)
  unfolding update_slot
  Accounts-update_slot [] g h = tt
  Accounts-update_slot (a ∷ l) g h = elim (Bool-cases (has_slot s a)) [
    | inl e ↦ rw e (g a h.0, h.1)
    | inr e ↦ rw e (h.0, Accounts-update_slot l g h.1)
  ]

pub blank-IsAccount : (s : Str) → is_account_slot s ≡ true → IsAccount (blank_account s)
blank-IsAccount s h = record {
  slot = h;
  email = (omega arith, tt);
  user_id = (omega arith, tt);
  server = (omega arith, tt);
}
