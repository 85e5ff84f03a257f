-- ===== src/Clocks/AutoLock.antt =====
-- The auto-lock fires.
use dms_bitwarden_cli.Common.{
  ℕ, zero, suc, ◌*◌, ◌+◌, ◌≤◌, ◌<◌, ◌≡◌, true, some, arith, leb, leb→le, Bool-cases, inl, inr, ℤ,
  pos, negsuc, ◌+ℤ◌,
}
use dms_bitwarden_cli.Clocks.{
  positive, poll_ms, auto_lock_poll_ms, armed_expired, auto_lock_expired,
}

-- The deadline of a timer that was armed at a time.
abbrev pub deadline : ℕ → ℕ → ℕ
deadline start minutes = start + minutes * 60000

auto_lock_expired-deadline :
    (start minutes now : ℕ)
    → 1 ≤ start
    → 1 ≤ minutes
    → auto_lock_expired (some (pos start)) (some (pos minutes)) (some (pos now))
      ≡ leb (deadline start minutes) now
unfolding auto_lock_expired positive armed_expired ◌+ℤ◌
auto_lock_expired-deadline (suc s) (suc m) now h k = ground arith
auto_lock_expired-deadline zero minutes now h k = absurd (omega (arith, h))
auto_lock_expired-deadline (suc s) zero now h k = absurd (omega (arith, k))

poll_pos : (minutes : ℤ) → 1 ≤ auto_lock_poll_ms (some minutes)
unfolding auto_lock_poll_ms positive poll_ms
poll_pos (pos zero) = omega arith
poll_pos (pos (suc m)) = omega arith
poll_pos (negsuc n) = omega arith

module _ (polls : ℕ → ℕ) (p : ℕ) (later : (k : ℕ) → polls k < polls (suc k))
    (gap : (k : ℕ) → polls (suc k) ≤ polls k + p) where
  -- The first poll from the `k`-th on that is not before `d`.
  poll_reaches :
      (d n k : ℕ) → polls k < d + p → d ≤ polls k + n → (i : ℕ) × (d ≤ polls i) × (polls i < d + p)
  poll_reaches d zero k near far = (k, omega (arith, far), near)
  poll_reaches d (suc n) k near far = elim (Bool-cases (leb d (polls k))) [
    | inl there ↦ (k, leb→le d (polls k) there, near)
    | inr before ↦
        poll_reaches d n (suc k) (ground (arith, gap k, before)) (omega (arith, later k, far))
  ]

-- An auto-lock of `minutes` minutes that is armed at `start` and asked at growing times, the first
-- not after the deadline and each at most the poll interval after the one before, is found to have
-- expired at a poll that is not before the deadline and less than one interval after it; at no poll
-- before the deadline is it, and at every poll from then on it is.
pub auto_lock_fires :
    (start minutes : ℕ) (polls : ℕ → ℕ) (k : ℕ)
    → 1 ≤ start
    → 1 ≤ minutes
    → polls 0 ≤ deadline start minutes
    → ((i : ℕ) → polls i < polls (suc i))
    → ((i : ℕ) → polls (suc i) ≤ polls i + auto_lock_poll_ms (some (pos minutes)))
    → ((i : ℕ) × (auto_lock_expired (some (pos start)) (some (pos minutes)) (some (pos (polls i)))
          ≡ true)
        × (polls i < deadline start minutes + auto_lock_poll_ms (some (pos minutes))))
      × (auto_lock_expired (some (pos start)) (some (pos minutes)) (some (pos (polls k)))
          ≡ leb (deadline start minutes) (polls k))
auto_lock_fires start minutes polls k h m first later gap =
    let p = auto_lock_poll_ms (some (pos minutes)) in
    let d = deadline start minutes in
    let (i, reached, near) =
      poll_reaches polls p later gap d d 0 (omega (arith, first, poll_pos (pos minutes)))
        (omega arith) in
    (
      (i, ground (arith, auto_lock_expired-deadline start minutes (polls i) h m, reached), near),
      auto_lock_expired-deadline start minutes (polls k) h m,
    )
