-- ===== src/Fido/Laws.antt =====
-- What the report of the probe says of the keys.
use dms_bitwarden_cli.Common.{
  ℕ, ◌≡◌, refl, ◌≢◌, Bool, true, false, if◌then◌else◌, ◌∙◌, ◌+◌, Option, none, some, List, [], ◌∷◌,
  arith, Bool-cases, Option-cases, inl, inr, zero, suc, Str, codes, ◌===◌, ===_eq, ◌++◌, ap,
  starts_with, is_empty, filter, All, All-append, split, sym, index_of, trim, take, drop,
}
use dms_bitwarden_cli.Fido.{
  Credential, Report, is_base64_text, asks_pin, credential_parts, with_credential, probe_set,
  probe_at, fido_line, fido_lines, found_value, is_set, is_usable, probe_of, parse_fido_probe,
}
use mathlib.Core.List.{Memᴰ}
use mathlib.Core.Bool.{true≢false}
use mathlib.Core.Option.{none-ne-some, some-injective}
use mathlib.Core.Path.{subst}

suc_end : (n : ℕ) → n + 1 ≡ suc n
suc_end n = omega arith

starts_equals : (c : ℕ) (s : Str) → starts_with (codes "=") (c ∷ s) ≡ true → c ≡ b'='
unfolding starts_with
starts_equals c s h = ground arith

index_of-cut :
    (s : Str) (i : ℕ) → index_of (codes "=") s ≡ some i → s ≡ take i s ++ b'=' ∷ drop (suc i) s
unfolding index_of
index_of-cut [] i h = absurd (none-ne-some i h)
index_of-cut (c ∷ s) i h = elim (Bool-cases (starts_with (codes "=") (c ∷ s))) [
  | inl e ↦
      subst (λ n. c ∷ s ≡ take n (c ∷ s) ++ b'=' ∷ drop (suc n) (c ∷ s))
        (some-injective 0 i (rw e at h)) (ap (λ x. x ∷ s) (starts_equals c s e))
  | inr e ↦ elim (Option-cases (index_of (codes "=") s)) [
    | inl n ↦ absurd (none-ne-some i (rw (e, n) at h))
    | inr (k, n) ↦
        subst (λ n. c ∷ s ≡ take n (c ∷ s) ++ b'=' ∷ drop (suc n) (c ∷ s))
          (some-injective (suc k) i (rw (e, n) at h)) (ap (λ x. c ∷ x) (index_of-cut s k n))
  ]
]

-- A line of the report that sets a name, with spaces around the line and around the value left out.
abbrev pub Says : List Str → Str → Str → Type 0
Says lines key value =
    (line : Str) × Memᴰ line lines
    × ((text : Str) × (trim line ≡ key ++ b'=' ∷ text) × (trim text ≡ value))

-- A credential that a `cred` line gives, in the three parts of its value.
abbrev pub Given : List Str → Credential → Type 0
Given lines c =
    (value : Str) × Says lines (codes "cred") value
    × ((device : Str) × (split b'|' value ≡ c.cred ∷ c.options ∷ device ∷ [])
        × (c.device ≡ (if device === codes "-" then [] else device)))

-- A credential as a line of the probe can give it.
pub record IsCredential (lines : List Str) (c : Credential) : Type 0 where
  pub base64 : is_base64_text c.cred ≡ true
  pub pin : c.needs_pin ≡ asks_pin c.options
  pub given : Given lines c

-- All that a report holds was said by a line.
pub record Kept (lines : List Str) (r : Report) : Type 0 where
  pub names : All (λ kv. Says lines kv.0 kv.1) r.found
  pub keys : All (IsCredential lines) r.creds

subst2 :
    (lines : List Str) (name key value v : Str)
    → name ≡ key
    → value ≡ v
    → Says lines name value
    → Says lines key v
subst2 lines name key value v e f s =
    subst (λ t. Says lines key t) f (subst (λ t. Says lines t value) e s)

-- A name that is found was said.
found_value-Says :
    (lines : List Str) (key : Str) (v : Str) (found : List (Str × Str))
    → All (λ kv. Says lines kv.0 kv.1) found
    → found_value key found ≡ v
    → v ≢ []
    → Says lines key v
unfolding found_value
found_value-Says lines key v [] k h n = absurd (n (sym h))
found_value-Says lines key v ((name, value) ∷ found) (s, k) h n = elim (Bool-cases (name === key)) [
  | inl e ↦ subst2 lines name key value v (===_eq name key e) (rw e at h) s
  | inr e ↦ found_value-Says lines key v found k (rw e at h) n
]

module _ (all_lines : List Str) where
  credential_parts-Kept :
      (r : Report) (value : Str) (parts : List Str)
      → Says all_lines (codes "cred") value
      → split b'|' value ≡ parts
      → Kept all_lines r
      → Kept all_lines (with_credential r (credential_parts parts))
  unfolding credential_parts with_credential
  credential_parts-Kept r v [] s h k = k
  credential_parts-Kept r v (a ∷ []) s h k = k
  credential_parts-Kept r v (a ∷ b ∷ []) s h k = k
  credential_parts-Kept r v (a ∷ b ∷ c ∷ []) s h k = elim (Bool-cases (is_base64_text a)) [
    | inl e ↦ rw e (record {
      names = k.names;
      keys =
          All-append (IsCredential all_lines) r.creds _ k.keys
            (record { base64 = e; pin = refl; given = (v, s, (c, h, refl)) }, _);
    })
    | inr e ↦ rw e k
  ]
  credential_parts-Kept r v (a ∷ b ∷ c ∷ d ∷ ps) s h k = k

  probe_set-Kept :
      (r : Report) (key value : Str)
      → Says all_lines key value
      → Kept all_lines r
      → Kept all_lines (probe_set r key value)
  unfolding probe_set
  probe_set-Kept r key value s k = elim (Bool-cases (key === codes "cred")) [
    | inl e ↦ rw e (
        credential_parts-Kept r value (split b'|' value)
          (subst (λ t. Says all_lines t value) (===_eq key (codes "cred") e) s) refl k)
    | inr e ↦ rw e (record { names = (s, k.names); keys = k.keys })
  ]

  probe_at-Kept :
      (r : Report) (line : Str) (eq : Option ℕ)
      → Memᴰ line all_lines
      → index_of (codes "=") (trim line) ≡ eq
      → Kept all_lines r
      → Kept all_lines (probe_at r (trim line) eq)
  unfolding probe_at
  probe_at-Kept r line none m h k = k
  probe_at-Kept r line (some zero) m h k = k
  probe_at-Kept r line (some (suc i)) m h k =
      let t = trim line in
      probe_set-Kept r (take (suc i) t) (trim (drop (suc i + 1) t))
        (line, m, (drop (suc i + 1) t, rw (suc_end (suc i)) (index_of-cut t (suc i) h), refl)) k

  fido_lines-Kept :
      (r : Report) (lines : List Str)
      → ((line : Str) → Memᴰ line lines → Memᴰ line all_lines)
      → Kept all_lines r
      → Kept all_lines (fido_lines r lines)
  unfolding fido_lines fido_line
  fido_lines-Kept r [] m k = k
  fido_lines-Kept r (line ∷ lines) m k =
      fido_lines-Kept (probe_at r (trim line) (index_of (codes "=") (trim line))) lines
        (λ l h. m l (Memᴰ.tail h))
        (probe_at-Kept r line (index_of (codes "=") (trim line)) (m line (Memᴰ.head refl)) refl k)

module _ (lines : List Str) (p : Credential → Bool) where
  filter_finds :
      (cs : List Credential)
      → All (IsCredential lines) cs
      → is_empty (filter p cs) ≡ false
      → (c : Credential) × Memᴰ c cs × IsCredential lines c × (p c ≡ true)
  unfolding filter
  filter_finds [] k h = absurd (true≢false h)
  filter_finds (c ∷ cs) (k, ks) h = elim (Bool-cases (p c)) [
    | inl e ↦ (c, Memᴰ.head refl, k, e)
    | inr e ↦ let (d, m, kept, f) = filter_finds cs ks (rw e at h) in (d, Memᴰ.tail m, kept, f)
  ]

not_empty : (s : Str) → is_empty s ≡ false → s ≢ []
not_empty [] h e = true≢false h
not_empty (c ∷ s) h e = cc

usable_of :
    (lines : List Str) (c : Credential)
    → IsCredential lines c
    → is_usable c ≡ true
    → (c.device ≢ []) × (asks_pin c.options ≡ false)
usable_of lines c k u = (not_empty c.device (ground (arith, u)), sym k.pin ∙ ground (arith, u))

is_set-Says :
    (lines : List Str) (key : Str) (r : Report)
    → Kept lines r
    → is_set key r.found ≡ true
    → Says lines key (codes "1")
unfolding is_set
is_set-Says lines key r k h =
    found_value-Says lines key (codes "1") r.found k.names
      (===_eq (found_value key r.found) (codes "1") h) (λ e. cc)

-- What the lines say of a key that is ready.
abbrev pub Told : List Str → List Credential → Type 0
Told lines credentials =
    Says lines (codes "fido_installed") (codes "1")
    × Says lines (codes "fido_registered") (codes "1")
    × Says lines (codes "fido_token") (codes "1")
    × ((c : Credential) × Memᴰ c credentials
        × Given lines c
        × (is_base64_text c.cred ≡ true)
        × (c.device ≢ [])
        × (asks_pin c.options ≡ false))

probe_of-ready :
    (lines : List Str) (r : Report)
    → Kept lines r
    → (probe_of r).ready ≡ true
    → Told lines (probe_of r).credentials
unfolding probe_of
probe_of-ready lines r k h =
    let (c, m, kept, u) = filter_finds lines is_usable r.creds k.keys (ground (arith, h)) in
    let (d, p) = usable_of lines c kept u in
    (
      is_set-Says lines (codes "fido_installed") r k (ground (arith, h)),
      is_set-Says lines (codes "fido_registered") r k (ground (arith, h)),
      is_set-Says lines (codes "fido_token") r k (ground (arith, h)),
      (c, m, kept.given, kept.base64, d, p),
    )

-- The probe calls a security key ready only if lines of its report say `fido_installed=1`,
-- `fido_registered=1` and `fido_token=1`, and a `cred` line of three parts gives a credential in
-- base64 with no option that asks for the key's PIN and a device other than "" and "-".
pub parse_fido_probe_ready :
    (raw : Str)
    → (parse_fido_probe raw).ready ≡ true
    → Told (split b'\n' raw) (parse_fido_probe raw).credentials
unfolding parse_fido_probe
parse_fido_probe_ready raw h =
    let lines = split b'\n' raw in
    let start : Report = record { found = []; creds = [] } in
    probe_of-ready lines (fido_lines start lines)
      (fido_lines-Kept lines start lines (λ l m. m) (record { names = _; keys = _ })) h
