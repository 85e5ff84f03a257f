-- ===== src/Clocks.antt =====
-- Deadlines (BitwardenModel.js, `vaultReadIsStale`, `windowOpen` and the functions that call it, the
-- auto-lock's `autoLockPollMs` and `autoLockExpired`, and `vaultHostDecision`). A time is a whole
-- number of milliseconds, as `Date.now()` gives it; `none` is a value whose `Number` is not finite.
pub mod AutoLock
use dms_bitwarden_cli.Common.{
  ℕ, suc, ◌*◌, ◌+◌, min, max, Bool, false, not, ◌&&◌, ◌||◌, Option, none, some, if◌then◌else◌, leb,
  ℤ, pos, negsuc, leb_ℤ, ◌-ℤ◌, ◌+ℤ◌,
}

abbrev pub second_factor_window_ms : ℕ
second_factor_window_ms = 5 * 60 * 1000

abbrev pub handoff_window_ms : ℕ
handoff_window_ms = 10 * 60 * 1000

unfoldable pub eq_epochs : Option ℤ → Option ℤ → Bool
eq_epochs (some a) (some b) = leb_ℤ a b && leb_ℤ b a
eq_epochs _ _ = false

-- An epoch that is no number differs from every other, NaN from itself.
unfoldable pub vault_read_is_stale : Option ℤ → Option ℤ → Bool → Bool
unfolding eq_epochs
vault_read_is_stale started current has_session = not has_session || not (eq_epochs started current)

unfoldable pub elapsed_within : ℤ → ℕ → Bool
elapsed_within (pos elapsed) window_ms = leb elapsed window_ms
elapsed_within (negsuc n) window_ms = false

unfoldable pub window_open : Option ℤ → Option ℤ → ℕ → Bool
unfolding elapsed_within ◌-ℤ◌
window_open (some began) (some now) window_ms =
    not (leb_ℤ began (pos 0)) && elapsed_within (now -ℤ began) window_ms
window_open _ _ window_ms = false

unfoldable pub second_factor_window_open : Option ℤ → Option ℤ → Bool
unfolding window_open
second_factor_window_open started now = window_open started now second_factor_window_ms

unfoldable pub handoff_window_open : Option ℤ → Option ℤ → Bool
unfolding window_open
handoff_window_open started now = window_open started now handoff_window_ms

abbrev pub auto_lock_poll_limit_ms : ℕ
auto_lock_poll_limit_ms = 30000

-- The whole minutes of a setting that is a positive number.
unfoldable pub positive : Option ℤ → Option ℕ
positive (some (pos (suc n))) = some (suc n)
positive _ = none

unfoldable pub poll_ms : Option ℕ → ℕ
poll_ms none = auto_lock_poll_limit_ms
poll_ms (some m) = max 1000 (min (m * 60 * 1000) auto_lock_poll_limit_ms)

unfoldable pub auto_lock_poll_ms : Option ℤ → ℕ
unfolding poll_ms positive
auto_lock_poll_ms minutes = poll_ms (positive minutes)

unfoldable pub armed_expired : Option ℕ → Option ℕ → Option ℤ → Bool
unfolding ◌+ℤ◌
armed_expired (some start) (some m) (some now) = leb_ℤ (pos start +ℤ pos (m * 60 * 1000)) now
armed_expired _ _ _ = false

-- `armedAt`, `minutes` and `now`.
unfoldable pub auto_lock_expired : Option ℤ → Option ℤ → Option ℤ → Bool
unfolding armed_expired positive
auto_lock_expired armed_at minutes now = armed_expired (positive armed_at) (positive minutes) now

pub data VaultHost : Type 0 where
  shared private wait : VaultHost

-- `timeoutMs`, or the default for one that is negative or no number.
abbrev pub host_limit : Option ℤ → ℕ
host_limit (some (pos n)) = n
host_limit _ = 3000

unfoldable pub waited_out : Option ℤ → ℕ → Bool
waited_out (some (pos elapsed)) limit = leb limit elapsed
waited_out _ limit = false

unfoldable pub vault_host_decision : Bool → Option ℤ → Option ℤ → VaultHost
unfolding waited_out
vault_host_decision found elapsed_ms timeout_ms =
    if found
    then shared
    else if waited_out elapsed_ms (host_limit timeout_ms)
    then private
    else wait
