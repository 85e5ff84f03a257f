-- ===== src/Accounts/Noting.antt =====
-- What noting an account does.
use dms_bitwarden_cli.Common.{
  ℕ, ◌≡◌, refl, sym, ap, ◌∙◌, ◌≢◌, inl, inr, Bool, true, false, not, ◌&&◌, some, List, [], ◌∷◌,
  ◌++◌, map, arith, leb, Bool-cases, length, filter, find?, any, any-append, Str, codes, ◌===◌,
  ===_eq, ===_refl, ◌↔◌, ◌≤◌, is_empty,
}
use dms_bitwarden_cli.Js.Numbers.{Number, nat}
use dms_bitwarden_cli.Js.Values.{Value, prop}
use dms_bitwarden_cli.Accounts.{account_slot}
use dms_bitwarden_cli.Accounts.Registry.{
  Account, Registry, Noted, max_accounts, clean_account_text, has_slot, is_retired, or_else, noted,
  update_slot, with_entry, blank_account, copy_registry, registry_account, registry_note_account,
}
use mathlib.Core.List.{append-nil}

-- The accounts of the other slots.
abbrev pub others : Str → List Account → List Account
others s l = filter (λ a. not (has_slot s a)) l

filter-append :
    (p : Account → Bool) (l m : List Account) → filter p (l ++ m) ≡ filter p l ++ filter p m
unfolding filter
filter-append p [] m = refl
filter-append p (x ∷ l) m = elim (Bool-cases (p x)) [
  | inl e ↦ rw e (ap (λ t. x ∷ t) (filter-append p l m))
  | inr e ↦ rw e (filter-append p l m)
]

others-update_slot :
    (s : Str) (f : Account → Account) (l : List Account)
    → ((a : Account) → has_slot s (f a) ≡ has_slot s a)
    → others s (update_slot s f l) ≡ others s l
unfolding filter update_slot
others-update_slot s f [] keeps = refl
others-update_slot s f (a ∷ l) keeps = elim (Bool-cases (has_slot s a)) [
  | inl e ↦ rw e (rw (keeps a, e) refl)
  | inr e ↦ rw e (rw e (ap (λ t. a ∷ t) (others-update_slot s f l keeps)))
]

has_slot-blank : (s : Str) → has_slot s (blank_account s) ≡ true
unfolding has_slot
has_slot-blank s = ===_refl s

others-with_entry : (s : Str) (l : List Account) → others s (with_entry s l) ≡ others s l
unfolding with_entry filter
others-with_entry s l = elim (Bool-cases (any (has_slot s) l)) [
  | inl e ↦ rw e refl
  | inr e ↦ rw e (
      filter-append (λ a. not (has_slot s a)) l (blank_account s ∷ [])
      ∙ rw (has_slot-blank s) (append-nil (filter (λ a. not (has_slot s a)) l)))
]

any-with_entry : (s : Str) (l : List Account) → any (has_slot s) (with_entry s l) ≡ true
unfolding with_entry any
any-with_entry s l = elim (Bool-cases (any (has_slot s) l)) [
  | inl e ↦ rw e e
  | inr e ↦ rw e (any-append (has_slot s) l (blank_account s ∷ []) ∙ rw (e, has_slot-blank s) refl)
]

find-update_slot :
    (s : Str) (f : Account → Account) (l : List Account)
    → ((a : Account) → has_slot s (f a) ≡ has_slot s a)
    → any (has_slot s) l ≡ true
    → (b : Account) × (find? (has_slot s) (update_slot s f l) ≡ some (f b))
unfolding find? any update_slot
find-update_slot s f [] keeps h = cc
find-update_slot s f (a ∷ l) keeps h = elim (Bool-cases (has_slot s a)) [
  | inl e ↦ (a, rw e (rw (keeps a, e) refl))
  | inr e ↦ let (b, k) = find-update_slot s f l keeps (ground arith) in (b, rw e (rw e k))
]

noted-has_slot :
    (user_id server email : Str) (now : Number) (s : Str) (a : Account)
    → has_slot s (noted user_id server email now a) ≡ has_slot s a
unfolding noted has_slot
noted-has_slot user_id server email now s a = refl

true≢false : true ≡ false → ⊥
true≢false e = cc

-- An account in another slot of the same user, who is known, on the same server.
abbrev pub IsSameElsewhere : Str → Str → Str → Account → Type 0
IsSameElsewhere s user_id server a =
    (a.slot ≢ s) × (user_id ≢ []) × (a.user_id ≡ user_id) × (a.server ≡ server)

===_ne : (s t : Str) → (s === t) ≡ false → s ≢ t
===_ne s t h e = true≢false (sym (ap (λ x. x === t) e ∙ ===_refl t) ∙ h)

ne-=== : (s t : Str) → s ≢ t → (s === t) ≡ false
ne-=== s t h = elim (Bool-cases (s === t)) [ inl e ↦ absurd (h (===_eq s t e)) | inr e ↦ e ]

eq-=== : (s t : Str) → s ≡ t → (s === t) ≡ true
eq-=== s t e = ap (λ x. x === t) e ∙ ===_refl t

ne-is_empty : (s : Str) → s ≢ [] → is_empty s ≡ false
ne-is_empty [] h = absurd (h refl)
ne-is_empty (c ∷ s) h = refl

is_empty-ne : (s : Str) → is_empty s ≡ false → s ≢ []
is_empty-ne [] h = absurd (true≢false h)
is_empty-ne (c ∷ s) h = λ e. cc

is_retired_iff :
    (s user_id server : Str) (a : Account)
    → (is_retired s user_id server a ≡ true) ↔ IsSameElsewhere s user_id server a
unfolding is_retired
is_retired_iff s user_id server a = (
  (λ h. (
    ===_ne a.slot s (ground arith),
    is_empty-ne user_id (ground arith),
    ===_eq a.user_id user_id (ground arith),
    ===_eq a.server server (ground arith),
  )),
  (λ (p, q, u, v).
      rw
        (
          ne-=== a.slot s p,
          ne-is_empty user_id q,
          eq-=== a.user_id user_id u,
          eq-=== a.server server v,
        )
        refl),
)

is_full : (b : Bool) (n : ℕ) → b ≡ false → 10 ≤ n → (not b && leb max_accounts n) ≡ true
is_full b n h k = ground arith

is_full_parts : (b : Bool) (n : ℕ) → (not b && leb max_accounts n) ≡ true → (b ≡ false) × (10 ≤ n)
is_full_parts b n h = ground arith

-- The accounts that noting keeps.
abbrev pub survivors : Str → Str → Str → List Account → List Account
survivors s user_id server l = filter (λ a. not (is_retired s user_id server a)) l

-- What noting does to a registry, given the account's texts once cleaned.
pub record NotedAs (r : Registry) (s user_id server : Str) (now : ℕ) (n : Noted) : Type 0 where
  pub same_elsewhere :
      (a : Account) → (is_retired s user_id server a ≡ true) ↔ IsSameElsewhere s user_id server a
  pub full_iff : (n.full ≡ true) ↔ (
      (any (λ a. a.slot === s) (survivors s user_id server r.accounts) ≡ false)
      × (10 ≤ length (survivors s user_id server r.accounts)))
  pub refuses : n.full ≡ true → (n.registry ≡ r) × (n.retired ≡ [])
  pub activates : n.full ≡ false → n.registry.active ≡ s
  pub holds :
      n.full ≡ false
      → (a : Account) × (registry_account n.registry s ≡ some a)
        × (a.server ≡ server)
        × (a.last_used ≡ nat now)
        × (user_id ≢ [] → a.user_id ≡ user_id)
  pub keeps :
      n.full ≡ false
      → others s n.registry.accounts ≡ others s (survivors s user_id server r.accounts)
  pub retires :
      n.full ≡ false
      → n.retired ≡ map (λ a. a.slot) (filter (is_retired s user_id server) r.accounts)

or_else_ne : (s t : Str) → s ≢ [] → or_else s t ≡ s
or_else_ne [] t h = absurd (h refl)
or_else_ne (c ∷ s) t h = refl

noted_fields :
    (user_id server email : Str) (now : Number) (b : Account)
    → let a = noted user_id server email now b in
      (a.server ≡ server) × (a.last_used ≡ now) × (user_id ≢ [] → a.user_id ≡ user_id)
unfolding noted
noted_fields user_id server email now b = (refl, refl, or_else_ne user_id b.user_id)

-- Noting an account refuses exactly if the accounts it would keep number ten or more and none has the
-- slot, and then changes nothing. Else it makes the slot the active one, which then holds that user on that server with the given time; the accounts of the
-- other slots stay as they are and in their order, but for those that hold the same user on the
-- same server, and exactly those slots are reported as retired.
pub note-NotedAs :
    (r : Registry) (slot : Str) (info : Value) (now : ℕ)
    → NotedAs r
        (account_slot slot)
        (clean_account_text (prop (codes "userId") info) 128)
        (clean_account_text (prop (codes "server") info) 512)
        now
        (registry_note_account r slot info now)
unfolding registry_note_account copy_registry registry_account has_slot
note-NotedAs r slot info now =
    let s : Str = account_slot slot in
    let user_id : Str = clean_account_text (prop (codes "userId") info) 128 in
    let server : Str = clean_account_text (prop (codes "server") info) 512 in
    let email : Str = clean_account_text (prop (codes "email") info) 320 in
    let kept : List Account = filter (λ a. not (is_retired s user_id server a)) r.accounts in
    let f = noted user_id server email (nat now) in
    let same = noted-has_slot user_id server email (nat now) s in
    let full_when = is_full (any (has_slot s) kept) (length kept) in
    elim (Bool-cases (not (any (has_slot s) kept) && leb max_accounts (length kept))) [
      | inl full ↦ rw full (record {
        same_elsewhere = is_retired_iff s user_id server;
        full_iff = ((λ e. is_full_parts (any (has_slot s) kept) (length kept) full), (λ e. refl));
        refuses = λ e. (refl, refl);
        activates = λ e. cc;
        holds = λ e. absurd (true≢false e);
        keeps = λ e. cc;
        retires = λ e. cc;
      })
      | inr room ↦ rw room (record {
        same_elsewhere = is_retired_iff s user_id server;
        full_iff = (
          (λ e. absurd (true≢false (sym e))),
          (λ (e, f). absurd (true≢false (sym (full_when e f) ∙ room))),
        );
        refuses = λ e. absurd (true≢false (sym e));
        activates = λ e. refl;
        holds = λ e.
            let (b, found) =
              find-update_slot s f (with_entry s kept) same (any-with_entry s kept) in
            let (p, q, w) = noted_fields user_id server email (nat now) b in (f b, found, p, q, w);
        keeps = λ e. others-update_slot s f (with_entry s kept) same ∙ others-with_entry s kept;
        retires = λ e. refl;
      })
    ]
