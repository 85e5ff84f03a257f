-- ===== src/Agent/Cooldown/Laws.antt =====
-- When the panel refuses to raise prompts.
use dms_bitwarden_cli.Common.{
  false, ◌⊎◌, ℕ, suc, ◌+◌, ◌≤◌, ◌<◌, ◌≡◌, refl, true, List, [], ◌∷◌, arith, ltb,
}
use native.Mathlib.Numerals.{add-one}
use dms_bitwarden_cli.Agent.Cooldown.{
  Outcome, approved, resumed, denied, timeout, other, Cooldown, cooldown_initial, cooldown_step,
  cooldown_active, cooldown_status, cooldown_run, cooldown_after, cooldown_ms,
}

-- The refusals since the last approval or resume.
abbrev pub refusal_count : ℕ → List (Outcome × ℕ) → ℕ
refusal_count n [] = n
refusal_count n ((approved, now) ∷ os) = refusal_count 0 os
refusal_count n ((resumed, now) ∷ os) = refusal_count 0 os
refusal_count n ((denied, now) ∷ os) = refusal_count (suc n) os
refusal_count n ((timeout, now) ∷ os) = refusal_count (suc n) os
refusal_count n ((other, now) ∷ os) = refusal_count n os

-- A deadline is set only by the second refusal or a later one, and not past five minutes after the
-- latest outcome.
pub record IsValid (c : Cooldown) (latest : ℕ) : Type 0 where
  pub set : 0 < c.until_ms → cooldown_after ≤ c.refusals
  pub near : c.until_ms ≤ latest + cooldown_ms

step-IsValid :
    (c : Cooldown) (o : Outcome) (latest now : ℕ)
    → latest ≤ now
    → IsValid c latest
    → IsValid (cooldown_step c o now) now
unfolding cooldown_step
step-IsValid c o latest now h v = ground arith

step-refusals :
    (c : Cooldown) (now : ℕ)
    → ((cooldown_step c denied now).refusals ≡ suc c.refusals)
      × ((cooldown_step c timeout now).refusals ≡ suc c.refusals)
unfolding cooldown_step
step-refusals c now = (omega arith, omega arith)

run-refusals :
    (os : List (Outcome × ℕ)) (c : Cooldown)
    → (cooldown_run c os).refusals ≡ refusal_count c.refusals os
unfolding cooldown_run cooldown_step
run-refusals [] c = refl
run-refusals ((approved, now) ∷ os) c = run-refusals os cooldown_initial
run-refusals ((resumed, now) ∷ os) c = run-refusals os cooldown_initial
run-refusals ((denied, now) ∷ os) c = rw (← add-one) (run-refusals os (cooldown_step c denied now))
run-refusals ((timeout, now) ∷ os) c =
    rw (← add-one) (run-refusals os (cooldown_step c timeout now))
run-refusals ((other, now) ∷ os) c = run-refusals os c

-- The times of the outcomes do not run backwards.
abbrev pub Ordered : ℕ → List (Outcome × ℕ) → Type 0
Ordered t [] = Unit
Ordered t ((o, now) ∷ os) = (t ≤ now) × Ordered now os

abbrev pub latest : ℕ → List (Outcome × ℕ) → ℕ
latest t [] = t
latest t ((o, now) ∷ os) = latest now os

run_from-IsValid :
    (os : List (Outcome × ℕ)) (c : Cooldown) (t : ℕ)
    → Ordered t os
    → IsValid c t
    → IsValid (cooldown_run c os) (latest t os)
unfolding cooldown_run
run_from-IsValid [] c t h v = v
run_from-IsValid ((o, now) ∷ os) c t h v =
    run_from-IsValid os (cooldown_step c o now) now h.1 (step-IsValid c o t now h.0 v)

-- After any outcomes in the order of time, a cooldown is active only if at least two refusals have
-- come since the last approval or resume, and it ends within five minutes of the last outcome.
pub cooldown_needs_refusals :
    (os : List (Outcome × ℕ)) (now : ℕ)
    → Ordered 0 os
    → cooldown_active (cooldown_run cooldown_initial os) now ≡ true
    → (2 ≤ refusal_count 0 os) × (now < latest 0 os + 300000)
unfolding cooldown_active
cooldown_needs_refusals os now h a = ground (
  arith,
  run-refusals os cooldown_initial,
  run_from-IsValid os cooldown_initial 0 h (omega arith),
)

-- A refusal that is at least the second in a row starts the cooldown from its own time: it is
-- active exactly until five minutes later, and the status shown then agrees with it, counting 1 to
-- 300 seconds.
pub refusal_cools :
    (c : Cooldown) (now at : ℕ)
    → 1 ≤ c.refusals
    → now ≤ at
    → let d = cooldown_step c denied now in
      (d ≡ cooldown_step c timeout now)
      × (cooldown_active d at ≡ ltb at (now + 300000))
      × ((cooldown_status d at).active ≡ cooldown_active d at)
      × ((cooldown_active d at ≡ false)
          ⊎ ((1 ≤ (cooldown_status d at).remaining_sec)
              × ((cooldown_status d at).remaining_sec ≤ 300)))
unfolding cooldown_step cooldown_active cooldown_status
refusal_cools c now at h le = (ground arith, ground arith, ground arith, ground arith)
