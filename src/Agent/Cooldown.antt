-- ===== src/Agent/Cooldown.antt =====
-- The cooldown after unanswered or denied prompts: `sshAgentCooldownAfter` and its readers. Times are
-- Date.now() in milliseconds.
pub mod Laws
use dms_bitwarden_cli.Common.{
  ℕ, ◌+◌, ◌-◌, ◌/◌, ◌%◌, Bool, true, false, not, ◌&&◌, List, [], ◌∷◌, ◌++◌, ltb, leb, if◌then◌else◌,
  any, Str, codes,
}
use dms_bitwarden_cli.Js.Numbers.{decimal}

-- How a prompt ended; `other` is any other text.
pub data Outcome : Type 0 where
  approved resumed denied timeout other : Outcome

pub record Cooldown : Type 0 where
  pub refusals : ℕ
  pub until_ms : ℕ

abbrev pub cooldown_after : ℕ
cooldown_after = 2

abbrev pub cooldown_ms : ℕ
cooldown_ms = 300000

abbrev pub cooldown_initial : Cooldown
cooldown_initial = record { refusals = 0; until_ms = 0 }

abbrev refused : Cooldown → ℕ → Cooldown
refused c now = record {
  refusals = c.refusals + 1;
  until_ms = if leb cooldown_after (c.refusals + 1) then now + cooldown_ms else c.until_ms;
}

unfoldable pub cooldown_step : Cooldown → Outcome → ℕ → Cooldown
cooldown_step c approved now = cooldown_initial
cooldown_step c resumed now = cooldown_initial
cooldown_step c denied now = refused c now
cooldown_step c timeout now = refused c now
cooldown_step c other now = c

unfoldable pub cooldown_active : Cooldown → ℕ → Bool
cooldown_active c now = ltb now c.until_ms

-- `formatDuration` of a whole number of seconds.
unfoldable pub format_duration : ℕ → Str
unfolding decimal
format_duration total =
    let minutes = total / 60 in
    let rest = total % 60 in
    if ltb 0 minutes && ltb 0 rest
    then decimal minutes ++ codes "m " ++ decimal rest ++ codes "s"
    else if ltb 0 minutes
    then decimal minutes ++ codes "m"
    else decimal rest ++ codes "s"

pub record CooldownStatus : Type 0 where
  pub active : Bool
  pub remaining_sec : ℕ
  pub message : Str

-- `Math.ceil(ms / 1000)`.
abbrev pub ceil_seconds : ℕ → ℕ
ceil_seconds ms = (ms + 999) / 1000

unfoldable pub cooldown_status : Cooldown → ℕ → CooldownStatus
cooldown_status c now =
    let remaining = ceil_seconds (c.until_ms - now) in
    if leb c.until_ms now
    then record { active = false; remaining_sec = 0; message = [] }
    else record {
      active = true;
      remaining_sec = remaining;
      message =
          codes "SSH signing requests are being refused after repeated unanswered prompts. "
          ++ codes "Normal service resumes in "
          ++ format_duration remaining
          ++ codes ".";
    }

-- The cooldown after a list of outcomes with their times.
unfoldable pub cooldown_run : Cooldown → List (Outcome × ℕ) → Cooldown
cooldown_run c [] = c
cooldown_run c ((o, now) ∷ os) = cooldown_run (cooldown_step c o now) os
