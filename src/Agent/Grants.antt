-- ===== src/Agent/Grants.antt =====
-- The grants shown on the settings screen: `sshAgentGrantViews` and the countdown
-- `sshAgentGrantsAt`. `now_ms` is Date.now(), 0 for no clock yet.
pub mod Laws
use dms_bitwarden_cli.Common.{
  ℕ, ◌+◌, ◌*◌, ◌-◌, Bool, false, Option, none, some, List, [], ◌∷◌, ◌++◌, ltb, leb, ◌==◌,
  if◌then◌else◌, pos, Str, codes,
}
use dms_bitwarden_cli.Js.Numbers.{Number, infinite, fin}
use dms_bitwarden_cli.Js.Values.{Value, prop, is_true, whole_or_zero}
use dms_bitwarden_cli.Agent.Lines.{request_id?}
use dms_bitwarden_cli.Agent.Cooldown.{format_duration, ceil_seconds}
use dms_bitwarden_cli.Agent.VisibleText.{
  max_name_chars, max_path_chars, bounded_text, bounded_path, process_name,
}
use dms_bitwarden_cli.Agent.Prompts.{agent_operation, operation_label, agent_host_key}

-- Seconds or a time in milliseconds, or Infinity (a JSON number may overflow to it).
pub data Span : Type 0 where
  finite : ℕ → Span
  endless : Span

pub record GrantView : Type 0 where
  pub grant_id : ℕ
  pub key_name : Str
  pub fingerprint : Str
  pub pid : Number
  pub process_path : Str
  pub process_name : Str
  pub operation_label : Str
  pub host_key : Str
  pub expires_at_ms : Option Span
  pub until_screen_lock : Bool
  pub remaining_sec : Span
  pub remaining_label : Str

unfoldable pub span_of : Number → Span
span_of (fin (pos n) ds) = finite n
span_of (infinite false) = endless
span_of _ = finite 0

-- `formatDuration` of Infinity is "Infinitym".
unfoldable pub time_left : Span → Str
unfolding format_duration
time_left (finite seconds) =
    if ltb 0 seconds then format_duration seconds ++ codes " left" else codes "expiring"
time_left endless = codes "Infinitym left"

unfoldable pub expiry : ℕ → Span → Span
expiry now (finite seconds) = finite (now + seconds * 1000)
expiry now endless = endless

unfoldable pub grant_view : Value → ℕ → ℕ → GrantView
grant_view grant id now =
    let remaining = span_of (whole_or_zero (prop (codes "expiresInSec") grant)) in
    let until_lock = is_true (prop (codes "untilScreenLock") grant) in
    let kind = agent_operation (prop (codes "operation") grant) in
    record {
      grant_id = id;
      key_name = bounded_text (prop (codes "keyName") grant) max_name_chars;
      fingerprint = bounded_text (prop (codes "fingerprint") grant) max_name_chars;
      pid = whole_or_zero (prop (codes "pid") grant);
      process_path = bounded_path (prop (codes "processPath") grant) max_path_chars;
      process_name = process_name (prop (codes "processPath") grant);
      operation_label = operation_label kind (prop (codes "operationDetail") grant);
      host_key = agent_host_key kind (prop (codes "hostKey") grant);
      expires_at_ms = if until_lock then none else some (expiry now remaining);
      until_screen_lock = until_lock;
      remaining_sec = remaining;
      remaining_label = time_left remaining;
    }

abbrev add_view : Value → ℕ → Option ℕ → List GrantView → List GrantView
add_view grant now none rest = rest
add_view grant now (some id) rest = grant_view grant id now ∷ rest

unfoldable pub grant_views : List Value → ℕ → List GrantView
grant_views [] now = []
grant_views (grant ∷ grants) now =
    add_view grant now (request_id? (prop (codes "grantId") grant)) (grant_views grants now)

-- One view at `now`: kept as announced, dropped, or counted down.
unfoldable pub view_at : GrantView → ℕ → Option Span → List GrantView → List GrantView
unfolding time_left
view_at view now none rest = view ∷ rest
view_at view now (some endless) rest =
    if leb now 0
    then view ∷ rest
    else record view { remaining_sec = endless; remaining_label = time_left endless } ∷ rest
view_at view now (some (finite expires)) rest =
    let remaining = ceil_seconds (expires - now) in
    if leb now 0
    then view ∷ rest
    else if remaining == 0
    then rest
    else record view {
      remaining_sec = finite remaining;
      remaining_label = format_duration remaining ++ codes " left";
    }
      ∷ rest

unfoldable pub grants_at : List GrantView → ℕ → List GrantView
grants_at [] now = []
grants_at (view ∷ views) now = view_at view now view.expires_at_ms (grants_at views now)
