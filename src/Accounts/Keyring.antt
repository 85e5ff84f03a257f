-- ===== src/Accounts/Keyring.antt =====
-- The keyring entries of the slots.
use dms_bitwarden_cli.Common.{
  ℕ, ◌≡◌, refl, sym, ap, ◌∙◌, ◌≢◌, inl, inr, true, false, [], ◌∷◌, ◌++◌, arith, Bool-cases, length,
  drop, is_empty, length-append, Str, codes, ◌===◌, ===_eq,
}
use dms_bitwarden_cli.Accounts.{
  default_slot, is_account_slot, account_slot, keyring_entry_name, strip_slashes,
  account_app_data_dir, data_home, accounts_subdir,
}
use dms_bitwarden_cli.Accounts.Valid.{account_slot_id}

-- What stands after a common prefix.
append-cancel : (s t u : Str) → s ++ t ≡ s ++ u → t ≡ u
append-cancel [] t u h = h
append-cancel (c ∷ s) t u h = append-cancel s t u (ap (drop 1) h)

longer : (p s t : Str) (c : ℕ) → p ≢ p ++ (c ∷ s) ++ t
longer p s t c h =
    ground (arith, ap length h, length-append (p ++ (c ∷ s)) t, length-append p (c ∷ s))

entry_name-default : (base : Str) → keyring_entry_name base default_slot ≡ base
unfolding keyring_entry_name account_slot is_account_slot ◌===◌
entry_name-default base = refl

entry_name-other :
    (base s : Str)
    → is_account_slot s ≡ true
    → (s === default_slot) ≡ false
    → keyring_entry_name base s ≡ base ++ codes "@" ++ s
unfolding keyring_entry_name
entry_name-other base s h other = rw (account_slot_id s h, other) refl

-- Two valid slots that share a keyring entry are one slot.
pub keyring_entry_name_injective :
    (base s t : Str)
    → is_account_slot s ≡ true
    → is_account_slot t ≡ true
    → keyring_entry_name base s ≡ keyring_entry_name base t
    → s ≡ t
keyring_entry_name_injective base s t hs ht h = elim (Bool-cases (s === default_slot)) [
  | inl ds ↦ elim (Bool-cases (t === default_slot)) [
    | inl dt ↦ ===_eq s default_slot ds ∙ sym (===_eq t default_slot dt)
    | inr dt ↦ absurd (
        longer base [] t b'@' (
          sym (entry_name-default base)
          ∙ ap (keyring_entry_name base) (sym (===_eq s default_slot ds))
          ∙ h
          ∙ entry_name-other base t ht dt))
  ]
  | inr ds ↦ elim (Bool-cases (t === default_slot)) [
    | inl dt ↦ absurd (
        longer base [] s b'@' (
          sym (entry_name-default base)
          ∙ ap (keyring_entry_name base) (sym (===_eq t default_slot dt))
          ∙ sym h
          ∙ entry_name-other base s hs ds))
    | inr dt ↦
        append-cancel (base ++ codes "@") s t
          (sym (entry_name-other base s hs ds) ∙ h ∙ entry_name-other base t ht dt)
  ]
]

-- The directory under which the slots' data directories stand.
abbrev slots_dir : Str → Str → Str
slots_dir xdg home = strip_slashes (data_home xdg home) ++ codes "/" ++ accounts_subdir ++ codes "/"

data_dir-other :
    (xdg home s : Str)
    → is_account_slot s ≡ true
    → (s === default_slot) ≡ false
    → is_empty (data_home xdg home) ≡ false
    → account_app_data_dir s xdg home ≡ slots_dir xdg home ++ s
unfolding account_app_data_dir
data_dir-other xdg home s h other based = rw (account_slot_id s h, other, based) refl

data_dir-default : (xdg home : Str) → account_app_data_dir default_slot xdg home ≡ []
unfolding account_app_data_dir account_slot is_account_slot ◌===◌
data_dir-default xdg home = refl

slash_not_nil : (p s : Str) → [] ≢ p ++ codes "/" ++ s
slash_not_nil p s h =
    ground (arith, ap length h, length-append (p ++ codes "/") s, length-append p (codes "/"))

-- Where there is an absolute base directory, two valid slots that share a CLI data directory are
-- one slot.
pub account_app_data_dir_injective :
    (xdg home s t : Str)
    → is_empty (data_home xdg home) ≡ false
    → is_account_slot s ≡ true
    → is_account_slot t ≡ true
    → account_app_data_dir s xdg home ≡ account_app_data_dir t xdg home
    → s ≡ t
account_app_data_dir_injective xdg home s t based hs ht h = elim (Bool-cases (s === default_slot)) [
  | inl ds ↦ elim (Bool-cases (t === default_slot)) [
    | inl dt ↦ ===_eq s default_slot ds ∙ sym (===_eq t default_slot dt)
    | inr dt ↦ absurd (
        slash_not_nil (strip_slashes (data_home xdg home) ++ codes "/" ++ accounts_subdir) t (
          sym (data_dir-default xdg home)
          ∙ ap (λ u. account_app_data_dir u xdg home) (sym (===_eq s default_slot ds))
          ∙ h
          ∙ data_dir-other xdg home t ht dt based))
  ]
  | inr ds ↦ elim (Bool-cases (t === default_slot)) [
    | inl dt ↦ absurd (
        slash_not_nil (strip_slashes (data_home xdg home) ++ codes "/" ++ accounts_subdir) s (
          sym (data_dir-default xdg home)
          ∙ ap (λ u. account_app_data_dir u xdg home) (sym (===_eq t default_slot dt))
          ∙ sym h
          ∙ data_dir-other xdg home s hs ds based))
    | inr dt ↦
        append-cancel (slots_dir xdg home) s t
          (sym (data_dir-other xdg home s hs ds based) ∙ h ∙ data_dir-other xdg home t ht dt based)
  ]
]
