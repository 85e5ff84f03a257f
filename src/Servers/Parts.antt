-- ===== src/Servers/Parts.antt =====
-- The parts of an address: what the searches of `validateServerUrl` cut it into.
use dms_bitwarden_cli.Common.{
  ℕ, suc, ◌≡◌, refl, sym, ap, ◌∙◌, ◌⊎◌, inl, inr, Bool, true, false, not, none, some, List, [], ◌∷◌,
  ◌++◌, reverse, arith, Bool-cases, Option-cases, length, take, drop, any, Str, ◌==◌, ==_iff,
  starts_with, last_index_of, split, split_from, join,
}
use dms_bitwarden_cli.Sites.{span}
use mathlib.Core.List.{append_assoc, append-nil, reverse-cons}
use mathlib.Core.Option.{none-ne-some, some-injective}
use mathlib.Core.Path.{subst}
use mathlib.Core.Bool.{true≢false}

pub span-whole : (p : ℕ → Bool) (s : Str) → s ≡ (span p s).0 ++ (span p s).1
unfolding span
span-whole p [] = refl
span-whole p (c ∷ s) = elim (Bool-cases (p c)) [
  | inl e ↦ rw e (ap (λ t. c ∷ t) (span-whole p s))
  | inr e ↦ rw e refl
]

pub span-none : (p : ℕ → Bool) (s : Str) → any (λ c. p c) (span (λ c. not (p c)) s).0 ≡ false
unfolding span any
span-none p [] = refl
span-none p (c ∷ s) = elim (Bool-cases (p c)) [
  | inl e ↦ rw e refl
  | inr e ↦ rw e (rw e (span-none p s))
]

-- Empty, or with a unit of the kind in front.
abbrev pub StartsWith : (ℕ → Bool) → Str → Type 0
StartsWith p s = (s ≡ []) ⊎ ((c : ℕ) × (t : Str) × (s ≡ c ∷ t) × (p c ≡ true))

pub span-StartsWith : (p : ℕ → Bool) (s : Str) → StartsWith p (span (λ c. not (p c)) s).1
unfolding span
span-StartsWith p [] = inl refl
span-StartsWith p (c ∷ s) = elim (Bool-cases (p c)) [
  | inl e ↦ rw e (inr (c, s, refl, e))
  | inr e ↦ rw e (span-StartsWith p s)
]

pub starts_with-whole : (p s : Str) → starts_with p s ≡ true → s ≡ p ++ drop (length p) s
unfolding starts_with
starts_with-whole [] s h = refl
starts_with-whole (c ∷ p) [] h = absurd (true≢false (sym h))
starts_with-whole (c ∷ p) (d ∷ s) h =
    rw (units_same c d (ground arith)) (ap (λ t. d ∷ t) (starts_with-whole p s (ground arith)))
  where
    units_same : (c d : ℕ) → (c == d) ≡ true → c ≡ d
    units_same c d h = ground arith

pub last_index_of-none : (c : ℕ) (s : Str) → last_index_of c s ≡ none → any (λ d. c == d) s ≡ false
unfolding last_index_of any
last_index_of-none c [] h = refl
last_index_of-none c (d ∷ s) h = elim (Option-cases (last_index_of c s)) [
  | inl n ↦ elim (Bool-cases (c == d)) [
    | inl e ↦ absurd (none-ne-some 0 (sym (rw (n, e) at h)))
    | inr e ↦ rw e (last_index_of-none c s n)
  ]
  | inr (i, n) ↦ absurd (none-ne-some (suc i) (sym (rw n at h)))
]

-- The text up to the unit at a place and after it, where it does not occur again.
abbrev pub CutAt : ℕ → Str → ℕ → Type 0
CutAt c s i = (s ≡ take i s ++ c ∷ drop (suc i) s) × (any (λ d. c == d) (drop (suc i) s) ≡ false)

pub last_index_of-CutAt : (c : ℕ) (s : Str) (i : ℕ) → last_index_of c s ≡ some i → CutAt c s i
unfolding last_index_of
last_index_of-CutAt c [] i h = absurd (none-ne-some i h)
last_index_of-CutAt c (d ∷ s) i h = elim (Option-cases (last_index_of c s)) [
  | inl n ↦ elim (Bool-cases (c == d)) [
    | inl e ↦
        subst (CutAt c (d ∷ s)) (some-injective 0 i (rw (n, e) at h))
          (ap (λ x. x ∷ s) (sym ((==_iff c d).0 e)), last_index_of-none c s n)
    | inr e ↦ absurd (none-ne-some i (rw (n, e) at h))
  ]
  | inr (k, n) ↦
      let (whole, last) = last_index_of-CutAt c s k n in
      subst (CutAt c (d ∷ s)) (some-injective (suc k) i (rw n at h)) (ap (λ x. d ∷ x) whole, last)
]

-- A split text, joined again.
split_from-cons :
    (c : ℕ) (piece s : Str) → (p : Str) × (ps : List Str) × (split_from c piece s ≡ p ∷ ps)
unfolding split_from
split_from-cons c piece [] = (reverse piece, [], refl)
split_from-cons c piece (d ∷ s) = elim (Bool-cases (c == d)) [
  | inl e ↦ (reverse piece, split_from c [] s, rw (split_from, e) refl)
  | inr e ↦ rw (split_from, e) (split_from-cons c (d ∷ piece) s)
]

join-cons :
    (c : ℕ) (q : Str) (l : List Str) (p : Str) (ps : List Str)
    → l ≡ p ∷ ps
    → join (c ∷ []) (q ∷ l) ≡ q ++ c ∷ join (c ∷ []) l
unfolding join
join-cons c q l p ps e = rw e (append_assoc q (c ∷ []) (join (c ∷ []) (p ∷ ps)))

join-split_from :
    (c : ℕ) (piece s : Str) → join (c ∷ []) (split_from c piece s) ≡ reverse piece ++ s
unfolding split_from
join-split_from c piece [] = unfold join in sym (append-nil (reverse piece))
join-split_from c piece (d ∷ s) = elim (Bool-cases (c == d)) [
  | inl e ↦
      let (p, ps, f) = split_from-cons c [] s in
      rw (split_from, e)
        (join-cons c (reverse piece) (split_from c [] s) p ps f
          ∙ ap (λ t. reverse piece ++ t)
              (ap (λ t. c ∷ t) (join-split_from c [] s) ∙ ap (λ x. x ∷ s) ((==_iff c d).0 e)))
  | inr e ↦
      rw (split_from, e)
        (join-split_from c (d ∷ piece) s
          ∙ ap (λ t. t ++ s) (reverse-cons d piece)
          ∙ append_assoc (reverse piece) (d ∷ []) s)
]

pub join-split : (c : ℕ) (s : Str) → join (c ∷ []) (split c s) ≡ s
unfolding split
join-split c s = join-split_from c [] s
