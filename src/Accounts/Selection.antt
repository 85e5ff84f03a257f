-- ===== src/Accounts/Selection.antt =====
-- The slot of a new sign-in (`newAccountSlot`, `slotForNewAccount`) and the account that follows a
-- sign-out (`registryNextAccount`).
use dms_bitwarden_cli.Common.{
  ℕ, zero, suc, ◌+◌, ◌-◌, Option, none, some, List, [], ◌∷◌, map, ltb, if◌then◌else◌, any, Str,
  ◌===◌,
}
use dms_bitwarden_cli.Js.Numbers.{num_lt}
use dms_bitwarden_cli.Accounts.{default_slot}
use dms_bitwarden_cli.Accounts.Registry.{Account, Registry, has_slot, registry_has_account}

-- The loop of `registryNextAccount`: `best` is what it has found so far.
unfoldable pub next_from : Str → Option Account → List Account → Option Account
unfolding has_slot num_lt
next_from leaving best [] = best
next_from leaving best (a ∷ rest) =
    next_from leaving
      (if has_slot leaving a then best else elim best [
        | none ↦ some a
        | some b ↦ if num_lt b.last_used a.last_used then some a else some b
      ])
      rest

unfoldable pub registry_next_account : Registry → Str → Str
unfolding next_from
registry_next_account registry leaving = elim (next_from leaving none registry.accounts) [
  | none ↦ []
  | some a ↦ a.slot
]

-- `Math.floor(Math.random() * 16).toString(16)`, sixteen times; `random n` is the n-th digit drawn.
module _ (random : ℕ → ℕ) where
  unfoldable pub random_slot : ℕ → ℕ → Str
  random_slot zero from = []
  random_slot (suc k) from =
      (if ltb (random from) 10 then b'0' + random from else b'a' + (random from - 10))
      ∷ random_slot k (suc from)

  -- The attempts that are left, and the digits drawn so far.
  unfoldable pub new_slot_from : ℕ → ℕ → List Str → Str
  unfolding any random_slot ◌===◌
  new_slot_from zero from taken = []
  new_slot_from (suc k) from taken =
      let again = new_slot_from k (from + 16) taken in
      if any (λ t. t === random_slot 16 from) taken then again else random_slot 16 from

  unfoldable pub new_account_slot : List Str → Str
  unfolding new_slot_from
  new_account_slot taken = new_slot_from 32 0 taken

  unfoldable pub slot_for_new_account : Registry → Str
  unfolding registry_has_account new_account_slot
  slot_for_new_account r =
      if registry_has_account r default_slot
      then new_account_slot (map (λ a. a.slot) r.accounts)
      else default_slot
