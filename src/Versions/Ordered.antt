-- ===== src/Versions/Ordered.antt =====
-- The order of the releases, and what the tools' probe lets through.
use dms_bitwarden_cli.Common.{
  ℕ, ◌<◌, ◌≡◌, ◌≢◌, refl, ap, ◌∙◌, ◌⊎◌, inl, inr, Bool, true, false, not, ◌&&◌, ◌||◌, Option, none,
  some, List, arith, ltb, Bool-cases, is_empty, if◌then◌else◌, Str, codes, split, trim,
}
use dms_bitwarden_cli.Versions.{
  normalize_release_version, Order, less, same, more, compare_numbers, version_part, compare_parts,
  compare_release_versions, is_less, Probe, probed, is_one, probe_fields, ssh_cli_min_version,
  ssh_cli_support, cli_status, known_version, parse_dependencies, ssh_ui_available, is_supported,
  is_some,
}
use mathlib.Core.Bool.{and-eq-true_iff, false≢true}

-- The order read from the other side.
abbrev pub flip : Order → Order
flip less = more
flip same = same
flip more = less

abbrev pub flipped : Option Order → Option Order
flipped none = none
flipped (some o) = some (flip o)

-- What tells `less` from `more`.
more_not_less : more ≢ less
more_not_less e = absurd (false≢true (ap (λ o. is_less (some o)) e))

compare_numbers-flip :
    (a b : ℕ) (t : Order) → compare_numbers b a (flip t) ≡ flip (compare_numbers a b t)
unfolding compare_numbers
compare_numbers-flip a b t = elim (Bool-cases (ltb a b)) [
  | inl e ↦ elim (Bool-cases (ltb b a)) [ inl f ↦ absurd (ground arith) | inr f ↦ rw (e, f) refl ]
  | inr e ↦ elim (Bool-cases (ltb b a)) [ inl f ↦ rw (e, f) refl | inr f ↦ rw (e, f) refl ]
]

compare_parts-flip : (la ra : List Str) → compare_parts ra la ≡ flip (compare_parts la ra)
unfolding compare_parts
compare_parts-flip la ra =
    let rest = compare_numbers-flip (version_part la 2) (version_part ra 2) same in
    let two =
      ap (compare_numbers (version_part ra 1) (version_part la 1)) rest
      ∙ compare_numbers-flip (version_part la 1) (version_part ra 1)
          (compare_numbers (version_part la 2) (version_part ra 2) same) in
    ap (compare_numbers (version_part ra 0) (version_part la 0)) two
    ∙ compare_numbers-flip (version_part la 0) (version_part ra 0) (
        compare_numbers (version_part la 1) (version_part ra 1)
          (compare_numbers (version_part la 2) (version_part ra 2) same))

compare_numbers-inv :
    (a b : ℕ) (t : Order) → compare_numbers a b t ≡ less → (a < b) ⊎ ((a ≡ b) × (t ≡ less))
unfolding compare_numbers
compare_numbers-inv a b t p = elim (Bool-cases (ltb a b)) [
  | inl e ↦ inl (ground arith)
  | inr e ↦ elim (Bool-cases (ltb b a)) [
    | inl f ↦ absurd (more_not_less (rw (e, f) at p))
    | inr f ↦ inr (ground arith, rw (e, f) at p)
  ]
]

compare_numbers-lt : (a b : ℕ) (t : Order) → a < b → compare_numbers a b t ≡ less
unfolding compare_numbers
compare_numbers-lt a b t h = ground arith

compare_numbers-eq : (a b : ℕ) (t : Order) → a ≡ b → compare_numbers a b t ≡ t
unfolding compare_numbers
compare_numbers-eq a b t h = ground arith

-- A step of the transitivity.
compare_numbers-less :
    (a b c : ℕ) (t u v : Order)
    → (t ≡ less → u ≡ less → v ≡ less)
    → compare_numbers a b t ≡ less
    → compare_numbers b c u ≡ less
    → compare_numbers a c v ≡ less
compare_numbers-less a b c t u v h p q = elim (compare_numbers-inv a b t p) [
  | inl below ↦ elim (compare_numbers-inv b c u q) [
    | inl next ↦ compare_numbers-lt a c v (omega (arith, below, next))
    | inr level ↦ compare_numbers-lt a c v (omega (arith, below, level.0))
  ]
  | inr level ↦ elim (compare_numbers-inv b c u q) [
    | inl next ↦ compare_numbers-lt a c v (omega (arith, level.0, next))
    | inr also ↦ compare_numbers-eq a c v (omega (arith, level.0, also.0)) ∙ h level.1 also.1
  ]
]

compare_parts-less :
    (la ra sa : List Str)
    → compare_parts la ra ≡ less
    → compare_parts ra sa ≡ less
    → compare_parts la sa ≡ less
unfolding compare_parts
compare_parts-less la ra sa =
    compare_numbers-less (version_part la 0) (version_part ra 0) (version_part sa 0) _ _ _ (
      compare_numbers-less (version_part la 1) (version_part ra 1) (version_part sa 1) _ _ _ (
        compare_numbers-less (version_part la 2) (version_part ra 2) (version_part sa 2) same same
          same (λ h k. h)))

-- The comparison of two normalized releases.
abbrev compared : Str → Str → Option Order
compared left right =
    if is_empty left || is_empty right
    then none
    else some (compare_parts (split b'.' left) (split b'.' right))

compared-flip : (l r : Str) → compared r l ≡ flipped (compared l r)
compared-flip l r = elim (Bool-cases (is_empty l)) [
  | inl e ↦ elim (Bool-cases (is_empty r)) [ inl f ↦ rw (e, f) refl | inr f ↦ rw (e, f) refl ]
  | inr e ↦ elim (Bool-cases (is_empty r)) [
    | inl f ↦ rw (e, f) refl
    | inr f ↦ rw (e, f) (ap some (compare_parts-flip (split b'.' l) (split b'.' r)))
  ]
]

is_less-inv : (o : Order) → is_less (some o) ≡ true → o ≡ less
is_less-inv less e = refl
is_less-inv same e = absurd (false≢true e)
is_less-inv more e = absurd (false≢true e)

compared-inv :
    (l r : Str)
    → is_less (compared l r) ≡ true
    → (is_empty l ≡ false)
      × (is_empty r ≡ false)
      × (compare_parts (split b'.' l) (split b'.' r) ≡ less)
compared-inv l r h = elim (Bool-cases (is_empty l)) [
  | inl e ↦ absurd (false≢true (rw e at h))
  | inr e ↦ elim (Bool-cases (is_empty r)) [
    | inl f ↦ absurd (false≢true (rw (e, f) at h))
    | inr f ↦ (e, f, is_less-inv (compare_parts (split b'.' l) (split b'.' r)) (rw (e, f) at h))
  ]
]

compared-less :
    (l r s : Str)
    → is_less (compared l r) ≡ true
    → is_less (compared r s) ≡ true
    → is_less (compared l s) ≡ true
compared-less l r s h k =
    let (e, f, p) = compared-inv l r h in
    let (g, i, q) = compared-inv r s k in
    rw (e, i, compare_parts-less (split b'.' l) (split b'.' r) (split b'.' s) p q) refl

-- Two texts compare the other way round when they change places, and a release that is older than an
-- older one is older: the comparison is an order of the texts that are versions.
pub compare_release_versions-ordered :
    (a b c : Str)
    → is_less (compare_release_versions a b) ≡ true
    → is_less (compare_release_versions b c) ≡ true
    → (compare_release_versions b a ≡ flipped (compare_release_versions a b))
      × (is_less (compare_release_versions a c) ≡ true)
unfolding compare_release_versions
compare_release_versions-ordered a b c h k = (
  compared-flip (normalize_release_version a) (normalize_release_version b),
  compared-less (normalize_release_version a) (normalize_release_version b)
      (normalize_release_version c) h k,
)

-- A version that SSH keys work with.
abbrev pub HasSsh : Str → Type 0
HasSsh version =
    (is_empty (normalize_release_version version) ≡ false)
    × (is_less (compare_release_versions (normalize_release_version version) ssh_cli_min_version)
        ≡ false)

ssh_cli_support-inv :
    (version : Str) → is_supported (ssh_cli_support version) ≡ true → HasSsh version
unfolding ssh_cli_support
ssh_cli_support-inv version h =
    let n = normalize_release_version version in
    elim (Bool-cases (is_empty n)) [
      | inl e ↦ absurd (false≢true (rw e at h))
      | inr e ↦ elim (Bool-cases (is_less (compare_release_versions n ssh_cli_min_version))) [
        | inl f ↦ absurd (false≢true (rw (e, f) at h))
        | inr f ↦ (e, f)
      ]
    ]

-- The version that a probe and the version asked for before give.
abbrev pub given_version : Probe → Option Str → Str
given_version found probed_version =
    normalize_release_version
      (trim (known_version (probed (codes "bw_version") found) probed_version))

cli_status-inv :
    (found : Probe) (probed_version : Option Str)
    → is_supported (cli_status found probed_version) ≡ true
    → (is_one (probed (codes "bw") found) ≡ true) × HasSsh (given_version found probed_version)
unfolding cli_status
cli_status-inv found probed_version h =
    let inline = is_some (probed (codes "bw_version") found) in
    elim (Bool-cases (is_one (probed (codes "bw") found))) [
      | inr e ↦ absurd (false≢true (rw e at h))
      | inl e ↦ elim (Bool-cases (not inline && not (is_some probed_version))) [
        | inl f ↦ absurd (false≢true (rw (e, f) at h))
        | inr f ↦ (e, ssh_cli_support-inv (given_version found probed_version) (rw (e, f) at h))
      ]
    ]

-- The SSH screens open only after a probe that found the CLI, with a version that is known and not
-- older than the first release with SSH keys.
pub ssh_ui_available-HasSsh :
    (raw : Str) (probed_version : Option Str) (checked : Bool)
    → ssh_ui_available (some (parse_dependencies raw probed_version)) checked ≡ true
    → (checked ≡ true)
      × (is_one (probed (codes "bw") (probe_fields raw)) ≡ true)
      × HasSsh (given_version (probe_fields raw) probed_version)
unfolding parse_dependencies ssh_ui_available
ssh_ui_available-HasSsh raw probed_version checked h =
    let status = cli_status (probe_fields raw) probed_version in
    let (shown, supports) = (and-eq-true_iff checked (is_supported status)).0 h in
    let (found, version) = cli_status-inv (probe_fields raw) probed_version supports in
    (shown, found, version)
