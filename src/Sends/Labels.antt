-- ===== src/Sends/Labels.antt =====
-- What the labels promise.
use dms_bitwarden_cli.Common.{
  ℕ, suc, zero, ◌+◌, ◌-◌, ◌≤◌, max, ◌≡◌, ◌≢◌, ◌↔◌, refl, ap, Bool, true, List, [], ◌∷◌, arith, leb,
  Bool-cases, inl, inr, leb→le, length, length-append, length-take, take, Str, codes, Option, none,
  some, ℤ, pos, negsuc, leb_ℤ, ltb, ◌/◌,
}
use dms_bitwarden_cli.Sends.{
  clip_label, View, presenter_index, first_view, or_first, is_focused, expiry_label,
  time_left_label, in_units,
}
use mathlib.Core.Option.{none-ne-some, some-injective}

-- A label is never longer than its limit, dots included.
pub clip_label_fits : (text : Str) (limit : ℕ) → length (clip_label text limit) ≤ max 1 limit
unfolding clip_label
clip_label_fits text limit = elim (Bool-cases (leb (length text) (max 1 limit))) [
  | inl e ↦ rw e (leb→le (length text) (max 1 limit) e)
  | inr e ↦ elim (Bool-cases (leb (max 1 limit) 3)) [
    | inl f ↦ rw (e, f) (omega (arith, length-take (max 1 limit) text))
    | inr f ↦
        rw (e, f, length-append (take (max 1 limit - 3) text) (codes "..."))
          (ground (arith, length-take (max 1 limit - 3) text, f))
  ]
]

first_view_below :
    (p : View → Bool) (i : ℕ) (views : List (Option View)) (k : ℕ)
    → first_view p i views ≡ some k
    → (i ≤ k) × (suc k ≤ i + length views)
unfolding first_view
first_view_below p i [] k h = absurd (none-ne-some k h)
first_view_below p i (none ∷ views) k h =
    let (lo, hi) = first_view_below p (i + 1) views k h in (omega (arith, lo), omega (arith, hi))
first_view_below p i (some v ∷ views) k h = elim (Bool-cases (p v)) [
  | inl e ↦
      let same : i ≡ k = some-injective i k (rw e at h) in
      (omega (arith, same), omega (arith, same))
  | inr e ↦
      let (lo, hi) = first_view_below p (i + 1) views k (rw e at h) in
      (omega (arith, lo), omega (arith, hi))
]

or_first_below :
    (a b : Option ℕ) (n k : ℕ)
    → ((j : ℕ) → a ≡ some j → suc j ≤ suc n)
    → ((j : ℕ) → b ≡ some j → suc j ≤ suc n)
    → or_first a b ≡ some k
    → suc k ≤ suc n
or_first_below (some i) b n k p q h = p k h
or_first_below none (some j) n k p q h = q k h
or_first_below none none n k p q h = let same : 0 ≡ k = some-injective 0 k h in omega (arith, same)

-- The view that presents is one of the list.
pub presenter_index_below :
    (views : List (Option View)) (focused : Str) (k : ℕ)
    → presenter_index views focused ≡ some k
    → suc k ≤ length views
unfolding presenter_index
presenter_index_below [] focused k h = absurd (none-ne-some k h)
presenter_index_below (v ∷ views) focused k h =
    or_first_below (first_view (λ w. w.opened) 0 (v ∷ views))
      (first_view (is_focused focused) 0 (v ∷ views)) (length views) k
      (λ j e. omega (arith, (first_view_below (λ w. w.opened) 0 (v ∷ views) j e).1))
      (λ j e. omega (arith, (first_view_below (is_focused focused) 0 (v ∷ views) j e).1)) h

abbrev first_unit : Str → ℕ
first_unit [] = 0
first_unit (c ∷ s) = c

units_left : (n : ℕ) (unit : Str) → in_units n unit ≢ codes "expired"
unfolding in_units
units_left n unit h = let apart : b'i' ≡ b'e' = ap first_unit h in omega (arith, apart)

unexpired : (ms : ℕ) → time_left_label ms ≢ codes "expired"
unfolding time_left_label
unexpired ms = elim (Bool-cases (ltb (ms / 60000) 60)) [
  | inl e ↦ rw e (units_left (ms / 60000) (codes "minute"))
  | inr e ↦ elim (Bool-cases (ltb (ms / 60000 / 60) 24)) [
    | inl f ↦ rw (e, f) (units_left (ms / 60000 / 60) (codes "hour"))
    | inr f ↦ rw (e, f) (units_left (ms / 60000 / 60 / 24) (codes "day"))
  ]
]

-- The label of a time that is left is "expired" exactly if none is left.
pub expiry_label_expired :
    (left : ℤ) → (expiry_label left ≡ codes "expired") ↔ (leb_ℤ left (pos 0) ≡ true)
unfolding expiry_label
expiry_label_expired (pos zero) = (λ e. refl, λ e. refl)
expiry_label_expired (negsuc n) = (λ e. ground arith, λ e. refl)
expiry_label_expired (pos (suc ms)) = (λ e. absurd (unexpired (suc ms) e), λ e. ground (arith, e))
