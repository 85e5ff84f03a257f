-- ===== src/Agent/Grants/Laws.antt =====
-- The countdown of the grants.
use dms_bitwarden_cli.Common.{
  ℕ, ◌-◌, ◌≤◌, ◌<◌, ◌≡◌, refl, ap, inl, inr, Bool, false, not, Option, none, some, List, [], ◌∷◌,
  map, arith, leb, ◌==◌, if◌then◌else◌, Bool-cases, filter,
}
use dms_bitwarden_cli.Agent.Grants.{GrantView, view_at, grants_at, Span, finite, endless}
use dms_bitwarden_cli.Agent.Cooldown.{ceil_seconds}

-- A grant lapses at its time of expiry, if it has one.
abbrev pub is_past : Option Span → ℕ → Bool
is_past none now = false
is_past (some endless) now = false
is_past (some (finite e)) now = leb e now

abbrev pub is_lapsed : ℕ → GrantView → Bool
is_lapsed now view = is_past view.expires_at_ms now

ceil-eq-zero : (e now : ℕ) → (ceil_seconds (e - now) == 0) ≡ leb e now
ceil-eq-zero e now = ground arith

-- A countdown of a countdown is the countdown at the later time.
view_at-view_at :
    (view : GrantView) (a b : ℕ) (o : Option Span) (rest : List GrantView)
    → view.expires_at_ms ≡ o
    → 0 < a
    → a ≤ b
    → grants_at (view_at view a o rest) b ≡ view_at view b o (grants_at rest b)
unfolding view_at grants_at
view_at-view_at view a b none rest e h le = rw e refl
view_at-view_at view a b (some endless) rest e h le = ground arith
view_at-view_at view a b (some (finite x)) rest e h le =
    elim (Bool-cases (ceil_seconds (x - a) == 0)) [
      | inl lapsed ↦ ground (arith, ceil-eq-zero x a, ceil-eq-zero x b)
      | inr live ↦ ground (arith, ceil-eq-zero x a, ceil-eq-zero x b)
    ]

-- Counting down at one time and then at a later one gives the same views as counting down at the
-- later time alone, so repeated ticks add up no error.
pub grants_at-grants_at :
    (views : List GrantView) (a b : ℕ)
    → 0 < a
    → a ≤ b
    → grants_at (grants_at views a) b ≡ grants_at views b
unfolding grants_at
grants_at-grants_at [] a b h le = refl
grants_at-grants_at (view ∷ views) a b h le =
    rw (view_at-view_at view a b view.expires_at_ms (grants_at views a) refl h le)
      (ap (view_at view b view.expires_at_ms) (grants_at-grants_at views a b h le))

abbrev pub ids : List GrantView → List ℕ
ids views = map (λ v. v.grant_id) views

ids-view_at :
    (view : GrantView) (now : ℕ) (o : Option Span) (rest : List GrantView)
    → 0 < now
    → ids (view_at view now o rest) ≡ (if is_past o now then ids rest else view.grant_id ∷ ids rest)
unfolding view_at
ids-view_at view now none rest h = refl
ids-view_at view now (some endless) rest h = ground arith
ids-view_at view now (some (finite x)) rest h = ground (arith, ceil-eq-zero x now)

-- Once the clock is known, the grants shown are exactly those that have not lapsed, in their order.
pub grants_at_live :
    (views : List GrantView) (now : ℕ)
    → 0 < now
    → ids (grants_at views now) ≡ ids (filter (λ v. not (is_lapsed now v)) views)
unfolding grants_at filter
grants_at_live [] now h = refl
grants_at_live (view ∷ views) now h =
    rw (ids-view_at view now view.expires_at_ms (grants_at views now) h, grants_at_live views now h)
      (elim (Bool-cases (is_lapsed now view)) [ inl e ↦ rw e refl | inr e ↦ rw e refl ])
