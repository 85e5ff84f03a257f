-- ===== src/Agent/Supervisor/Delays.antt =====
-- The delays between restarts (`sshAgentRestartDelayMs`).
use dms_bitwarden_cli.Common.{ℕ, zero, suc, ◌*◌, ◌^◌, ◌≤◌, ◌≡◌, refl, arith, min}
use dms_bitwarden_cli.Agent.Supervisor.{restart_delay_ms, backoff_base_ms, backoff_max_ms}
use native.Mathlib.Nat.{pow-suc}
use native.Mathlib.Numerals.{sub-one}

one_le-pow : (n : ℕ) → 1 ≤ 2 ^ n
one_le-pow zero = omega arith
one_le-pow (suc n) = omega (arith, pow-suc 2 n, one_le-pow n)

-- The delay after `n + 1` failures, with the test of the source gone.
pub delay-suc : (n : ℕ) → restart_delay_ms (suc n) ≡ min backoff_max_ms (backoff_base_ms * 2 ^ n)
unfolding restart_delay_ms
delay-suc n = rw sub-one (ground arith)

pub restart_delay_bounds : (n : ℕ) → (500 ≤ restart_delay_ms n) × (restart_delay_ms n ≤ 30000)
unfolding restart_delay_ms
restart_delay_bounds zero = omega arith
restart_delay_bounds (suc n) = omega (arith, delay-suc n, one_le-pow n)

-- Every restart delay lies between 500 ms and 30 s, the first is 500 ms, and each further failure
-- doubles the delay until the cap.
pub restart_delay_doubles :
    (n : ℕ)
    → (restart_delay_ms 1 ≡ 500)
      × (500 ≤ restart_delay_ms n)
      × (restart_delay_ms n ≤ 30000)
      × (restart_delay_ms (suc (suc n)) ≡ min 30000 (2 * restart_delay_ms (suc n)))
unfolding restart_delay_ms
restart_delay_doubles n = (
  refl,
  (restart_delay_bounds n).0,
  (restart_delay_bounds n).1,
  omega (arith, delay-suc n, delay-suc (suc n), pow-suc 2 n),
)
