-- ===== src/Accounts/Choice.antt =====
-- Which slot a new sign-in takes, and which account comes next.
use dms_bitwarden_cli.Common.{
  ℕ, zero, suc, ◌+◌, ◌-◌, ◌<◌, ◌≡◌, refl, sym, ap, ◌∙◌, ◌⊎◌, inl, inr, true, false, none, some,
  List, [], ◌∷◌, map, arith, ltb, if◌then◌else◌, Bool-cases, length, filter, find?, any, all, All,
  Str, ◌===◌, str_lt,
}
use dms_bitwarden_cli.Js.Numbers.{nat, num_lt}
use dms_bitwarden_cli.Accounts.{default_slot, is_account_slot, is_private_slot, is_lower_hex}
use dms_bitwarden_cli.Accounts.Registry.{
  Account, Registry, has_slot, registry_account, registry_has_account,
}
use dms_bitwarden_cli.Accounts.Selection.{
  next_from, registry_next_account, random_slot, new_slot_from, new_account_slot,
  slot_for_new_account,
}
use dms_bitwarden_cli.Accounts.Noting.{others}

has-any :
    (slot : Str) (l : List Account)
    → (elim (find? (has_slot slot) l) [ none ↦ false | some a ↦ true ]) ≡ any (has_slot slot) l
unfolding find? any
has-any slot [] = refl
has-any slot (a ∷ l) = elim (Bool-cases (has_slot slot a)) [
  | inl e ↦ rw e refl
  | inr e ↦ rw e (has-any slot l)
]

registry-has : (r : Registry) (s : Str) → registry_has_account r s ≡ any (has_slot s) r.accounts
unfolding registry_has_account registry_account
registry-has r s = has-any s r.accounts

any-slots :
    (slot : Str) (l : List Account)
    → any (λ t. t === slot) (map (λ a. a.slot) l) ≡ any (has_slot slot) l
unfolding any has_slot
any-slots slot [] = refl
any-slots slot (a ∷ l) = rw (any-slots slot l) refl

hex_unit : ℕ → ℕ
hex_unit d = if ltb d 10 then b'0' + d else b'a' + (d - 10)

hex_unit-hex : (d : ℕ) → d < 16 → is_lower_hex (hex_unit d) ≡ true
unfolding hex_unit
hex_unit-hex d h = ground arith

module _ (random : ℕ → ℕ) (digits : (n : ℕ) → random n < 16) where
  length-random_slot : (k from : ℕ) → length (random_slot random k from) ≡ k
  unfolding random_slot
  length-random_slot zero from = refl
  length-random_slot (suc k) from = ap suc (length-random_slot k (suc from))

  random_slot-hex : (k from : ℕ) → all is_lower_hex (random_slot random k from) ≡ true
  unfolding random_slot all hex_unit
  random_slot-hex zero from = refl
  random_slot-hex (suc k) from =
      ground (arith, hex_unit-hex (random from) (digits from), random_slot-hex k (suc from))

  random_slot-valid : (from : ℕ) → is_account_slot (random_slot random 16 from) ≡ true
  unfolding is_account_slot is_private_slot
  random_slot-valid from = rw (length-random_slot 16 from, random_slot-hex 16 from) (ground arith)

  new_slot_from-fresh :
      (k from : ℕ) (taken : List Str)
      → (new_slot_from random k from taken ≡ [])
        ⊎ ((is_account_slot (new_slot_from random k from taken) ≡ true)
            × (any (λ t. t === new_slot_from random k from taken) taken ≡ false))
  unfolding new_slot_from
  new_slot_from-fresh zero from taken = inl refl
  new_slot_from-fresh (suc k) from taken =
      elim (Bool-cases (any (λ t. t === random_slot random 16 from) taken)) [
        | inl used ↦ rw used (new_slot_from-fresh k (from + 16) taken)
        | inr fresh ↦ rw fresh (inr (random_slot-valid from, fresh))
      ]

  new_account_slot_fresh :
      (taken : List Str)
      → (new_account_slot random taken ≡ [])
        ⊎ ((is_account_slot (new_account_slot random taken) ≡ true)
            × (any (λ t. t === new_account_slot random taken) taken ≡ false))
  unfolding new_account_slot
  new_account_slot_fresh taken = new_slot_from-fresh 32 0 taken

  -- A new sign-in takes the default slot while it is free, and then a valid slot that no account
  -- of the registry has, unless all 32 draws have met taken ones, where it takes none; the drawn
  -- numbers are below 16.
  pub slot_for_new_account_fresh :
      (r : Registry)
      → let s = slot_for_new_account random r in
        ((registry_has_account r default_slot ≡ false) × (s ≡ default_slot))
        ⊎ (s ≡ [])
        ⊎ ((is_account_slot s ≡ true) × (registry_has_account r s ≡ false))
  unfolding slot_for_new_account
  slot_for_new_account_fresh r = elim (Bool-cases (registry_has_account r default_slot)) [
    | inr free ↦ rw free (inl (refl, refl))
    | inl used ↦ rw used (elim (new_account_slot_fresh (map (λ a. a.slot) r.accounts)) [
      | inl none_left ↦ inr (inl none_left)
      | inr fresh ↦ inr (
          inr (
            fresh.0,
            registry-has r (new_account_slot random (map (λ a. a.slot) r.accounts))
                ∙ sym
                    (any-slots (new_account_slot random (map (λ a. a.slot) r.accounts)) r.accounts)
                ∙ fresh.1,
          ))
    ])
  ]

-- A time in whole milliseconds.
abbrev pub HasNat : Account → Type 0
HasNat a = (n : ℕ) × (a.last_used ≡ nat n)

lt-nat : (m n : ℕ) → num_lt (nat m) (nat n) ≡ ltb m n
unfolding num_lt str_lt
lt-nat m n = ground arith

-- `c` was used no earlier than `b`.
abbrev pub AtLeast : Account → Account → Type 0
AtLeast c b = num_lt c.last_used b.last_used ≡ false

le_trans_test : (i j k : ℕ) → ltb i j ≡ false → ltb j k ≡ false → ltb i k ≡ false
le_trans_test i j k h g = ground arith

-- The comparison of two times in whole milliseconds.
compare-nats :
    (c b : Account) (i j : ℕ)
    → c.last_used ≡ nat i
    → b.last_used ≡ nat j
    → num_lt c.last_used b.last_used ≡ ltb i j
compare-nats c b i j p q = rw (p, q) (lt-nat i j)

lt_asym : (i j : ℕ) → ltb j i ≡ true → ltb i j ≡ false
lt_asym i j h = ground arith

AtLeast-trans :
    (c b a : Account) → HasNat c → HasNat b → HasNat a → AtLeast c b → AtLeast b a → AtLeast c a
AtLeast-trans c b a (i, p) (j, q) (k, w) h g =
    compare-nats c a i k p w
    ∙ le_trans_test i j k (sym (compare-nats c b i j p q) ∙ h) (sym (compare-nats b a j k q w) ∙ g)

AtLeast-refl : (c : Account) → HasNat c → AtLeast c c
AtLeast-refl c (i, p) = compare-nats c c i i p p ∙ ground arith

AtLeast-lt :
    (c b : Account) → HasNat c → HasNat b → num_lt b.last_used c.last_used ≡ true → AtLeast c b
AtLeast-lt c b (i, p) (j, q) h =
    compare-nats c b i j p q ∙ lt_asym i j (sym (compare-nats b c j i q p) ∙ h)

-- What `next_from` holds after the accounts `l`, if it began with `b`.
abbrev IsBest : Str → Account → List Account → Account → Type 0
IsBest leaving b l c =
    (has_slot leaving c ≡ false) × HasNat c × AtLeast c b × All (AtLeast c) (others leaving l)

next_from-IsBest :
    (leaving : Str) (l : List Account) (b : Account)
    → HasNat b
    → has_slot leaving b ≡ false
    → All HasNat l
    → (c : Account) × (next_from leaving (some b) l ≡ some c) × IsBest leaving b l c
unfolding next_from filter
next_from-IsBest leaving [] b n h times = (b, refl, (h, n, AtLeast-refl b n, tt))
next_from-IsBest leaving (a ∷ l) b n h (m, times) = elim (Bool-cases (has_slot leaving a)) [
  | inl e ↦ rw e (next_from-IsBest leaving l b n h times)
  | inr e ↦ rw e (elim (Bool-cases (num_lt b.last_used a.last_used)) [
    | inl later ↦ rw later (
        let (c, found, (other, timed, bound, bounds)) = next_from-IsBest leaving l a m e times in
        (
          c,
          found,
          (
            other,
            timed,
            AtLeast-trans c a b timed m n bound (AtLeast-lt a b m n later),
            (bound, bounds),
          ),
        ))
    | inr sooner ↦ rw sooner (
        let (c, found, (other, timed, bound, bounds)) = next_from-IsBest leaving l b n h times in
        (c, found, (other, timed, bound, (AtLeast-trans c b a timed n m bound sooner, bounds))))
  ])
]

-- Among the other accounts, what a switch away from `leaving` goes to.
next_from-found :
    (leaving : Str) (l : List Account)
    → All HasNat l
    → ((next_from leaving none l ≡ none) × (others leaving l ≡ []))
      ⊎ ((c : Account) × (next_from leaving none l ≡ some c)
          × (has_slot leaving c ≡ false)
          × All (AtLeast c) (others leaving l))
unfolding next_from filter
next_from-found leaving [] times = inl (refl, refl)
next_from-found leaving (a ∷ l) (m, times) = elim (Bool-cases (has_slot leaving a)) [
  | inl e ↦ rw e (next_from-found leaving l times)
  | inr e ↦ rw e (
      let (c, found, (other, timed, bound, bounds)) = next_from-IsBest leaving l a m e times in
      inr (c, found, other, (bound, bounds)))
]

-- Where every account's time is a whole number, the account that follows a sign-out is another
-- than the one left, and no other account was used later; there is none only if no other account
-- is left.
pub registry_next_account_latest :
    (r : Registry) (leaving : Str)
    → All HasNat r.accounts
    → ((registry_next_account r leaving ≡ []) × (others leaving r.accounts ≡ []))
      ⊎ ((c : Account) × (registry_next_account r leaving ≡ c.slot)
          × (has_slot leaving c ≡ false)
          × All (AtLeast c) (others leaving r.accounts))
unfolding registry_next_account
registry_next_account_latest r leaving times = elim (next_from-found leaving r.accounts times) [
  | inl (gone, empty) ↦ rw (registry_next_account, gone) (inl (refl, empty))
  | inr (c, found, other, bounds) ↦ rw (registry_next_account, found) (inr (c, refl, other, bounds))
]
