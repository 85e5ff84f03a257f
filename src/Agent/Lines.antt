-- ===== src/Agent/Lines.antt =====
-- The lines that the panel writes to the companion, one JSON object each (`agentControlLine` and its
-- callers).
pub mod OneLine
use dms_bitwarden_cli.Common.{
  ℕ, ◌+◌, ◌-◌, min, Bool, true, false, not, ◌&&◌, ◌||◌, Option, none, some, [], ◌∷◌, ◌++◌, leb,
  ◌==◌, if◌then◌else◌, length, any, all, pos, Str, codes,
}
use dms_bitwarden_cli.Js.Numbers.{Number, fin, nat}
use dms_bitwarden_cli.Js.Values.{
  Value, boolean, number, string, object, Fields, end, field, to_number, whole_or_zero,
}
use dms_bitwarden_cli.Js.Json.{stringify}
use dms_bitwarden_cli.Agent.Protocol.{control_version}

-- `fields` never holds "v" or "type".
unfoldable pub agent_control_line : Str → Fields → Str
agent_control_line type fields =
    stringify (
      object (
        field (codes "v") (number (nat control_version))
          (field (codes "type") (string type) fields)))
    ++ 10 ∷ []

abbrev pub agent_epoch : Value → Number
agent_epoch epoch = whole_or_zero epoch

unfoldable pub hello_line : Str
hello_line = agent_control_line (codes "hello") end

unfoldable pub shutdown_line : Str
shutdown_line = agent_control_line (codes "shutdown") end

abbrev is_lower_hex : ℕ → Bool
is_lower_hex c = (leb b'0' c && leb c b'9') || (leb b'a' c && leb c b'f')

-- `/^[0-9a-f]{32}$/` on a string.
unfoldable pub is_valid_load_id : Value → Bool
unfolding all
is_valid_load_id (string s) = (length s == 32) && all is_lower_hex s
is_valid_load_id _ = false

unfoldable pub load_begin_line : Value → Value → Str
load_begin_line epoch load_id =
    if not (is_valid_load_id load_id)
    then []
    else agent_control_line (codes "key_load_begin")
        (field (codes "epoch") (number (agent_epoch epoch)) (field (codes "loadId") load_id end))

unfoldable pub load_end_line : Value → Bool → Str
load_end_line epoch ok = agent_control_line (codes "key_load_end") (
    field (codes "epoch") (number (agent_epoch epoch))
      (field (codes "status") (string (if ok then codes "ok" else codes "failed")) end))

unfoldable pub vault_locked_line : Value → Str
vault_locked_line epoch =
    agent_control_line (codes "vault_locked")
      (field (codes "epoch") (number (agent_epoch epoch)) end)

unfoldable pub logged_out_line : Str
logged_out_line = agent_control_line (codes "vault_logged_out") end

unfoldable pub options_line : Bool → Str
options_line unlock_on_demand =
    agent_control_line (codes "options")
      (field (codes "unlockOnDemand") (boolean unlock_on_demand) end)

unfoldable pub revoke_grants_line : Str
revoke_grants_line = agent_control_line (codes "revoke_grants") end

-- `isRequestId`: a number with no fraction, at least 0.
unfoldable pub request_id? : Value → Option ℕ
request_id? (number (fin (pos n) [])) = some n
request_id? _ = none

abbrev pub approval_window_max_sec : ℕ
approval_window_max_sec = 900

-- `Math.min(max, floor(seconds))`, with 0 for what is not finite or negative.
unfoldable pub clamp_seconds : Number → ℕ
clamp_seconds (fin (pos n) ds) = min n approval_window_max_sec
clamp_seconds _ = 0

-- A line that names a request, or "" where the id is none.
abbrev pub for_request : Option ℕ → Str → Str
for_request none line = []
for_request (some n) line = line

unfoldable pub approve_line : Value → Value → Bool → Str
approve_line request_id grant_seconds until_screen_lock = for_request (request_id? request_id) (
    agent_control_line (codes "approve") (
      field (codes "requestId") request_id (
        field (codes "grantSeconds")
          (number (nat (if until_screen_lock then 0 else clamp_seconds (to_number grant_seconds))))
          (if until_screen_lock then field (codes "untilScreenLock") (boolean true) end else end))))

unfoldable pub deny_line : Value → Str
deny_line request_id =
    for_request (request_id? request_id)
      (agent_control_line (codes "deny") (field (codes "requestId") request_id end))

unfoldable pub unlock_cancelled_line : Value → Str
unlock_cancelled_line request_id = for_request (request_id? request_id) (
    agent_control_line (codes "unlock_cancelled") (
      field (codes "requestId") request_id
        (field (codes "reason") (string (codes "user-cancelled")) end)))

unfoldable pub revoke_grant_line : Value → Str
revoke_grant_line grant_id =
    for_request (request_id? grant_id)
      (agent_control_line (codes "revoke_grant") (field (codes "grantId") grant_id end))
