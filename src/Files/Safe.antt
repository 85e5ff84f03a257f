-- ===== src/Files/Safe.antt =====
-- The file names that an attachment or an exported key may get.
use dms_bitwarden_cli.Common.{
  ℕ, zero, suc, ◌-◌, ◌≤◌, ◌≡◌, refl, ◌≢◌, false, ◌&&◌, Option, none, some, [], ◌∷◌, ◌++◌, map,
  arith, ltb, leb, leb→le, if◌then◌else◌, Bool-cases, inl, inr, length, take, drop, is_empty, All,
  All-append, All-take, length-append, length-take, Str, codes, is_space, trim_end, last_index_of,
}
use dms_bitwarden_cli.Files.{
  is_unsafe, after_separator, inert, is_lead, drop_lead, extension_at, cut_name,
  safe_attachment_file_name, or_whole,
}

abbrev pub Inert : Str → Type 0
Inert = All (λ c. is_unsafe c ≡ false)

-- The first unit is no dot, dash or space.
abbrev pub HeadOk : Str → Type 0
HeadOk [] = Unit
HeadOk (c ∷ s) = is_lead c ≡ false

inert-safe : (c : ℕ) → is_unsafe (inert c) ≡ false
inert-safe c = elim (Bool-cases (is_unsafe c)) [ inl e ↦ rw e refl | inr e ↦ rw e e ]

pub inert-Inert : (s : Str) → Inert (map inert s)
inert-Inert [] = tt
inert-Inert (c ∷ s) = (inert-safe c, inert-Inert s)

drop_lead-Inert : (s : Str) → Inert s → Inert (drop_lead s)
unfolding drop_lead
drop_lead-Inert [] h = tt
drop_lead-Inert (c ∷ s) h = elim (Bool-cases (is_lead c)) [
  | inl e ↦ rw e (drop_lead-Inert s h.1)
  | inr e ↦ rw e h
]

drop_lead-HeadOk : (s : Str) → HeadOk (drop_lead s)
unfolding drop_lead
drop_lead-HeadOk [] = tt
drop_lead-HeadOk (c ∷ s) = elim (Bool-cases (is_lead c)) [
  | inl e ↦ rw e (drop_lead-HeadOk s)
  | inr e ↦ rw e e
]

trim_end-Inert : (s : Str) → Inert s → Inert (trim_end s)
unfolding trim_end
trim_end-Inert [] h = tt
trim_end-Inert (c ∷ s) h = elim (Bool-cases (is_empty (trim_end s) && is_space c)) [
  | inl e ↦ rw e tt
  | inr e ↦ rw e (h.0, trim_end-Inert s h.1)
]

trim_end-HeadOk : (s : Str) → HeadOk s → HeadOk (trim_end s)
unfolding trim_end
trim_end-HeadOk [] h = tt
trim_end-HeadOk (c ∷ s) h = elim (Bool-cases (is_empty (trim_end s) && is_space c)) [
  | inl e ↦ rw e tt
  | inr e ↦ rw e h
]

drop-Inert : (n : ℕ) (s : Str) → Inert s → Inert (drop n s)
drop-Inert zero s h = h
drop-Inert (suc n) [] h = tt
drop-Inert (suc n) (c ∷ s) h = drop-Inert n s h.1

length-drop : (n : ℕ) (s : Str) → length (drop n s) ≡ length s - n
length-drop zero s = omega arith
length-drop (suc n) [] = omega arith
length-drop (suc n) (c ∷ s) = omega (arith, length-drop n s)

extension_at-Inert : (s : Str) (dot : Option ℕ) → Inert s → Inert (extension_at s dot)
unfolding extension_at
extension_at-Inert s none h = tt
extension_at-Inert s (some dot) h = elim (Bool-cases (ltb 0 dot && leb (length s - dot) 12)) [
  | inl e ↦ rw e (drop-Inert dot s h)
  | inr e ↦ rw e tt
]

extension_at-short : (s : Str) (dot : Option ℕ) → length (extension_at s dot) ≤ 12
unfolding extension_at
extension_at-short s none = omega arith
extension_at-short s (some dot) = elim (Bool-cases (ltb 0 dot && leb (length s - dot) 12)) [
  | inl e ↦ rw e (ground (arith, length-drop dot s, e))
  | inr e ↦ rw e (omega arith)
]

-- All that the file system is promised of a name.
pub record IsSafe (name : Str) : Type 0 where
  pub inert : Inert name
  pub head : HeadOk name
  pub fits : length name ≤ 128

taken-HeadOk : (n : ℕ) (s t : Str) → 1 ≤ n → 1 ≤ length s → HeadOk s → HeadOk (take n s ++ t)
taken-HeadOk zero s t h k o = absurd (omega (arith, h))
taken-HeadOk (suc n) [] t h k o = absurd (omega (arith, k))
taken-HeadOk (suc n) (c ∷ s) t h k o = o

cut_name-IsSafe : (s : Str) → Inert s → HeadOk s → IsSafe (cut_name s)
unfolding cut_name
cut_name-IsSafe s h o =
    let e = extension_at s (last_index_of b'.' s) in
    let short : length e ≤ 12 = extension_at-short s (last_index_of b'.' s) in
    elim (Bool-cases (leb (length s) 128)) [
      | inl fits ↦ rw fits (record { inert = h; head = o; fits = leb→le (length s) 128 fits })
      | inr long ↦ rw long (record {
        inert =
            All-append (λ c. is_unsafe c ≡ false) (take (128 - length e) s) e
              (All-take (λ c. is_unsafe c ≡ false) (128 - length e) s h)
              (extension_at-Inert s (last_index_of b'.' s) h);
        head = taken-HeadOk (128 - length e) s e (omega (arith, short)) (ground (arith, long)) o;
        fits = omega (
          arith,
          length-append (take (128 - length e) s) e,
          length-take (128 - length e) s,
          short,
        );
      })
    ]

named-IsSafe :
    (s : Str)
    → IsSafe s
    → IsSafe (if is_empty s then codes "attachment" else s)
      × ((if is_empty s then codes "attachment" else s) ≢ [])
unfolding is_lead is_space
named-IsSafe [] h =
    (record { inert = inert-Inert (codes "attachment"); head = refl; fits = omega arith }, λ e. cc)
named-IsSafe (c ∷ s) h = (h, λ e. cc)

-- Whatever the vault calls a file, the name that it is saved under is not empty, has at most 128
-- units, no control unit, slash or backslash, and does not begin with a dot, a dash or a space.
pub safe_attachment_file_name-IsSafe :
    (raw : Str) → IsSafe (safe_attachment_file_name raw) × (safe_attachment_file_name raw ≢ [])
unfolding safe_attachment_file_name
safe_attachment_file_name-IsSafe raw =
    let base = map inert (or_whole (after_separator raw) raw) in
    let led = drop_lead base in
    let clean = drop_lead-Inert base (inert-Inert (or_whole (after_separator raw) raw)) in
    named-IsSafe (cut_name (trim_end led)) (
      cut_name-IsSafe (trim_end led) (trim_end-Inert led clean)
        (trim_end-HeadOk led (drop_lead-HeadOk base)))
