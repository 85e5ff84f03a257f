-- ===== src/Files/Exports.antt =====
-- The files of exported public keys.
use dms_bitwarden_cli.Common.{
  ℕ, ◌+◌, ◌≤◌, ◌≡◌, refl, sym, ◌≢◌, Bool, true, false, not, ◌&&◌, List, [], ◌∷◌, ◌++◌, map, arith,
  Bool-cases, inl, inr, length, take, is_empty, filter, All, All-append, All-take, length-append,
  length-take, Str, codes, includes, ◌===◌, is_space,
}
use dms_bitwarden_cli.Js.Values.{Value}
use dms_bitwarden_cli.Files.{
  is_unsafe, safe_attachment_file_name, is_lead, is_public_key, Exported, exported_of,
  is_exportable, ssh_export_identities, Taken, is_taken_by_other, export_base, or_key, own_ending,
  ssh_export_file_name, export_entries, ssh_export_entries,
}
use dms_bitwarden_cli.Files.Safe.{Inert, HeadOk, inert-Inert, safe_attachment_file_name-IsSafe}
use mathlib.Core.Bool.{true≢false}

-- A name of at most `n` units that is no path and no hidden file.
pub record IsName (n : ℕ) (name : Str) : Type 0 where
  pub inert : Inert name
  pub head : HeadOk name
  pub fits : length name ≤ n
  pub some : name ≢ []

safe-IsName : (name : Str) → IsName 128 (safe_attachment_file_name name)
safe-IsName name =
    let (safe, some) = safe_attachment_file_name-IsSafe name in
    record { inert = safe.inert; head = safe.head; fits = safe.fits; some = some }

ssh_key-IsName : IsName 128 (codes "ssh-key")
unfolding is_lead is_space
ssh_key-IsName = record {
  inert = inert-Inert (codes "ssh-key");
  head = refl;
  fits = omega arith;
  some = λ e. cc;
}

export_base-IsName : (name : Str) → IsName 128 (export_base name)
unfolding export_base
export_base-IsName name =
    elim (Bool-cases (safe_attachment_file_name name === codes "attachment")) [
      | inl e ↦ rw e ssh_key-IsName
      | inr e ↦ rw e (safe-IsName name)
    ]

append-IsName :
    (n m : ℕ) (name ending : Str)
    → IsName n name
    → Inert ending
    → length ending ≤ m
    → IsName (n + m) (name ++ ending)
append-IsName n m [] ending h i k = absurd (h.some refl)
append-IsName n m (c ∷ s) ending h i k = record {
  inert = All-append (λ d. is_unsafe d ≡ false) (c ∷ s) ending h.inert i;
  head = h.head;
  fits = omega (arith, length-append (c ∷ s) ending, h.fits, k);
  some = λ e. cc;
}

or_key-Inert : (s : Str) → Inert s → Inert (or_key s)
or_key-Inert [] h = inert-Inert (codes "key")
or_key-Inert (c ∷ s) h = h

or_key-fits : (s : Str) → length s ≤ 64 → length (or_key s) ≤ 64
or_key-fits [] h = omega arith
or_key-fits (c ∷ s) h = h

ends-Inert : (s : Str) → Inert s → Inert (codes "." ++ s ++ codes ".pub")
ends-Inert s h =
    (refl, All-append (λ d. is_unsafe d ≡ false) s (codes ".pub") h (inert-Inert (codes ".pub")))

own_ending-Inert : (item_id : Str) → Inert (own_ending item_id)
unfolding own_ending
own_ending-Inert item_id =
    let safe = (safe-IsName item_id).inert in
    let cut = All-take (λ d. is_unsafe d ≡ false) 64 (safe_attachment_file_name item_id) safe in
    ends-Inert (or_key (take 64 (safe_attachment_file_name item_id))) (or_key-Inert _ cut)

own_ending-fits : (item_id : Str) → length (own_ending item_id) ≤ 69
unfolding own_ending
own_ending-fits item_id =
    let cut = take 64 (safe_attachment_file_name item_id) in
    let short : length cut ≤ 64 =
      omega (arith, length-take 64 (safe_attachment_file_name item_id)) in
    omega (arith, length-append (or_key cut) (codes ".pub"), or_key-fits cut short)

ssh_export_file_name-IsName :
    (name item_id : Str) (taken : Taken) → IsName 197 (ssh_export_file_name name item_id taken)
unfolding ssh_export_file_name
ssh_export_file_name-IsName name item_id taken =
    let base = export_base name in
    elim (Bool-cases (is_taken_by_other (base ++ codes ".pub") item_id taken)) [
      | inl e ↦ rw e (
          append-IsName 128 69 base (own_ending item_id) (export_base-IsName name)
            (own_ending-Inert item_id) (own_ending-fits item_id))
      | inr e ↦ rw e (
          append-IsName 128 69 base (codes ".pub") (export_base-IsName name)
            (inert-Inert (codes ".pub")) (omega arith))
    ]

-- An entry of the exported files: its name is no path, and its key is public.
abbrev pub IsEntry : Str × Str → Type 0
IsEntry entry =
    IsName 197 entry.0
    × (is_public_key entry.1 ≡ true)
    × (includes (codes "PRIVATE") entry.1 ≡ false)

IsPublic : Exported → Type 0
IsPublic e = (is_public_key e.public_key ≡ true) × (includes (codes "PRIVATE") e.public_key ≡ false)

passed : (a b c : Bool) → (a && not b && not c) ≡ true → (a ≡ true) × (b ≡ false)
passed true false false h = (refl, refl)
passed true false true h = absurd (true≢false (sym h))
passed true true c h = absurd (true≢false (sym h))
passed false b c h = absurd (true≢false (sym h))

is_exportable-IsPublic : (e : Exported) → is_exportable e ≡ true → IsPublic e
unfolding is_exportable IsPublic
is_exportable-IsPublic e h =
    passed (is_public_key e.public_key) (includes (codes "PRIVATE") e.public_key)
      (is_empty e.item_id) h

filter-IsPublic : (es : List Exported) → All IsPublic (filter is_exportable es)
unfolding filter
filter-IsPublic [] = tt
filter-IsPublic (e ∷ es) = elim (Bool-cases (is_exportable e)) [
  | inl h ↦ rw h (is_exportable-IsPublic e h, filter-IsPublic es)
  | inr h ↦ rw h (filter-IsPublic es)
]

export_entries-IsEntry :
    (taken : Taken) (es : List Exported) → All IsPublic es → All IsEntry (export_entries taken es)
unfolding export_entries IsPublic
export_entries-IsEntry taken [] h = tt
export_entries-IsEntry taken (e ∷ es) h =
    let file_name = ssh_export_file_name e.name e.item_id taken in
    (
      (ssh_export_file_name-IsName e.name e.item_id taken, h.0.0, h.0.1),
      export_entries-IsEntry ((file_name, e.item_id) ∷ taken) es h.1,
    )

-- Whatever the agent says of its keys, each file of an export is named by no path and no hidden
-- file, in at most 197 units, and holds an OpenSSH public key that does not say PRIVATE.
pub ssh_export_entries-IsEntry :
    (identities : List Value) → All IsEntry (ssh_export_entries identities)
unfolding ssh_export_entries ssh_export_identities
ssh_export_entries-IsEntry identities =
    export_entries-IsEntry [] (ssh_export_identities identities)
      (filter-IsPublic (map exported_of identities))
