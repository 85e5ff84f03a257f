-- ===== src/Associations/Budget.antt =====
-- The write budget of the store.
use dms_bitwarden_cli.Common.{
  sort-All, insert_by, sort_by, ℕ, suc, ◌+◌, ◌≤◌, ◌≡◌, refl, sym, ap, ◌∙◌, inl, inr, true, [], ◌∷◌,
  arith, ltb, ◌==◌, ==_iff, Bool-cases, length, All, Str,
}
use dms_bitwarden_cli.Associations.{Entry, Keys}
use dms_bitwarden_cli.Associations.Store.{
  entry_cost, goes_before, max_assoc_write_bytes, fitting, trim_associations,
}

-- The bytes that the budget counts.
unfoldable pub total_cost : Keys → ℕ
total_cost [] = 0
total_cost (p ∷ rest) = entry_cost p + total_cost rest

insert-cost :
    (p : Str × Entry) (l : Keys)
    → total_cost (insert_by goes_before p l) ≡ entry_cost p + total_cost l
unfolding insert_by total_cost
insert-cost p [] = refl
insert-cost p (q ∷ l) = elim (Bool-cases (goes_before q p)) [
  | inl e ↦ rw e (omega (arith, insert-cost p l))
  | inr e ↦ rw e refl
]

sort-cost : (l : Keys) → total_cost (sort_by goes_before l) ≡ total_cost l
unfolding sort_by total_cost
sort-cost [] = refl
sort-cost (p ∷ l) = omega (arith, insert-cost p (sort_by goes_before l), sort-cost l)

insert-length : (p : Str × Entry) (l : Keys) → length (insert_by goes_before p l) ≡ suc (length l)
unfolding insert_by
insert-length p [] = refl
insert-length p (q ∷ l) = elim (Bool-cases (goes_before q p)) [
  | inl e ↦ rw e (ap suc (insert-length p l))
  | inr e ↦ rw e refl
]

sort-length : (l : Keys) → length (sort_by goes_before l) ≡ length l
unfolding sort_by
sort-length [] = refl
sort-length (p ∷ l) = insert-length p (sort_by goes_before l) ∙ ap suc (sort-length l)

fitting-cost :
    (used : ℕ) (l : Keys)
    → used ≤ max_assoc_write_bytes
    → used + total_cost (fitting used l) ≤ max_assoc_write_bytes
unfolding fitting total_cost
fitting-cost used [] h = omega (arith, h)
fitting-cost used (p ∷ l) h = elim (Bool-cases (ltb max_assoc_write_bytes (used + entry_cost p))) [
  | inl over ↦ rw over (omega (arith, h))
  | inr within ↦ rw within (omega (arith, fitting-cost (used + entry_cost p) l (ground arith)))
]

fitting-All : (P : Str × Entry → Type 0) (used : ℕ) (l : Keys) → All P l → All P (fitting used l)
unfolding fitting
fitting-All P used [] h = tt
fitting-All P used (p ∷ l) h = elim (Bool-cases (ltb max_assoc_write_bytes (used + entry_cost p))) [
  | inl over ↦ rw over tt
  | inr within ↦ rw within (h.0, fitting-All P (used + entry_cost p) l h.1)
]

fitting-whole :
    (used : ℕ) (l : Keys) → used + total_cost l ≤ max_assoc_write_bytes → fitting used l ≡ l
unfolding fitting total_cost
fitting-whole used [] h = refl
fitting-whole used (p ∷ l) h = elim (Bool-cases (ltb max_assoc_write_bytes (used + entry_cost p))) [
  | inl over ↦ absurd (ground arith)
  | inr within ↦ rw within (ap (λ t. p ∷ t) (fitting-whole (used + entry_cost p) l (ground arith)))
]

fitting-length : (used : ℕ) (l : Keys) → length (fitting used l) ≤ length l
unfolding fitting
fitting-length used [] = omega arith
fitting-length used (p ∷ l) = ground (arith, fitting-length (used + entry_cost p) l)

-- As long as the list itself, the part that fits is the list.
fitting-full : (used : ℕ) (l : Keys) → length (fitting used l) ≡ length l → fitting used l ≡ l
unfolding fitting
fitting-full used [] h = refl
fitting-full used (p ∷ l) h = elim (Bool-cases (ltb max_assoc_write_bytes (used + entry_cost p))) [
  | inl over ↦ absurd (ground arith)
  | inr within ↦ rw within (ap (λ t. p ∷ t) (fitting-full (used + entry_cost p) l (ground arith)))
]

pub trim-All :
    (P : Str × Entry → Type 0) (keys : Keys) → All P keys → All P (trim_associations keys)
unfolding trim_associations
trim-All P keys h =
    elim (Bool-cases (length (fitting 0 (sort_by goes_before keys)) == length keys)) [
      | inl same ↦ rw same h
      | inr less ↦
          rw less (fitting-All P 0 (sort_by goes_before keys) (sort-All P goes_before keys h))
    ]

==_same : (n : ℕ) → (n == n) ≡ true
==_same n = ground arith

cost_eq :
    (keys : Keys)
    → fitting 0 (sort_by goes_before keys) ≡ sort_by goes_before keys
    → total_cost (fitting 0 (sort_by goes_before keys)) ≤ max_assoc_write_bytes
    → total_cost keys ≤ max_assoc_write_bytes
cost_eq keys e h = omega (arith, ap total_cost e, sort-cost keys, h)

pub trim-within :
    (keys : Keys) → total_cost keys ≤ max_assoc_write_bytes → trim_associations keys ≡ keys
unfolding trim_associations
trim-within keys h =
    rw
      (
        fitting-whole 0 (sort_by goes_before keys) (omega (arith, sort-cost keys, h)),
        sort-length keys,
        ==_same (length keys),
      )
      refl

fitted-cost : (l : Keys) → total_cost (fitting 0 l) ≤ max_assoc_write_bytes
fitted-cost l = omega (arith, fitting-cost 0 l (omega arith))

trim-cost : (keys : Keys) → total_cost (trim_associations keys) ≤ max_assoc_write_bytes
unfolding trim_associations
trim-cost keys = elim (Bool-cases (length (fitting 0 (sort_by goes_before keys)) == length keys)) [
  | inl same ↦ rw same (
      cost_eq keys
        (fitting-full 0 (sort_by goes_before keys) (
          (==_iff (length (fitting 0 (sort_by goes_before keys))) (length keys)).0 same
          ∙ sym (sort-length keys)))
        (fitted-cost (sort_by goes_before keys)))
  | inr less ↦ rw less (fitted-cost (sort_by goes_before keys))
]

-- The store that is written costs at most 524288 bytes, whatever it held before, and its entries
-- are among the entries it had: what held of each still holds.
pub trim_associations_fits :
    (P : Str × Entry → Type 0) (keys : Keys)
    → All P keys
    → (total_cost (trim_associations keys) ≤ 524288) × All P (trim_associations keys)
trim_associations_fits P keys h = (trim-cost keys, trim-All P keys h)
