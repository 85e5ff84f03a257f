-- ===== src/Agent/Prompts.antt =====
-- The prompt for one signing request: `sshAgentPromptView` and the labels it draws.
pub mod Laws
use dms_bitwarden_cli.Common.{
  ℕ, ◌+◌, ◌-◌, ◌/◌, min, Bool, false, not, ◌&&◌, ◌||◌, Option, none, some, List, [], ◌∷◌, ◌++◌, ltb,
  leb, ◌==◌, if◌then◌else◌, length, drop, is_empty, any, all, ℤ, pos, negsuc, Str, codes, ◌===◌,
  starts_with,
}
use dms_bitwarden_cli.Js.Numbers.{Number, infinite, fin}
use dms_bitwarden_cli.Js.Values.{Value, string, prop, truthy, is_true, strict_eq, whole_or_zero}
use dms_bitwarden_cli.Agent.Lines.{request_id?, approval_window_max_sec}
use dms_bitwarden_cli.Agent.Cooldown.{format_duration}
use dms_bitwarden_cli.Agent.VisibleText.{
  max_name_chars, max_path_chars, bounded_text, bounded_path, process_name,
}

abbrev pub max_detail_chars : ℕ
max_detail_chars = 256

-- The kinds of signature; `no_operation` is "".
pub data Operation : Type 0 where
  sshsig ssh_auth ssh_sign no_operation : Operation

unfoldable pub agent_operation : Value → Operation
unfolding ◌===◌
agent_operation (string s) =
    if s === codes "sshsig"
    then sshsig
    else if s === codes "ssh-auth"
    then ssh_auth
    else if s === codes "ssh-sign"
    then ssh_sign
    else no_operation
agent_operation _ = no_operation

-- On the checked operation; `sshAgentPromptView` passes it the request's own field, which selects
-- the same label.
unfoldable pub operation_label : Operation → Value → Str
unfolding bounded_text ◌===◌
operation_label sshsig detail =
    let text = bounded_text detail max_detail_chars in
    if text === codes "git"
    then codes "Git commit or tag signature"
    else codes "Signature for " ++ 34 ∷ (text ++ 34 ∷ [])
operation_label ssh_auth detail = codes "SSH login as " ++ bounded_text detail max_detail_chars
operation_label ssh_sign detail = codes "Unrecognised data -- approve only if you expect it"
operation_label no_operation detail = []

-- `[A-Za-z0-9+/]`.
unfoldable pub is_base64_unit : ℕ → Bool
is_base64_unit c =
    (leb b'A' c && leb c b'Z')
    || (leb b'a' c && leb c b'z')
    || (leb b'0' c && leb c b'9')
    || c == b'+'
    || c == b'/'

-- SSH_HOST_KEY_RE: "SHA256:" and 43 of `[A-Za-z0-9+/]`.
unfoldable pub is_host_key : Str → Bool
unfolding starts_with all is_base64_unit
is_host_key s = starts_with (codes "SHA256:") s && length s == 50 && all is_base64_unit (drop 7 s)

unfoldable pub agent_host_key : Operation → Value → Str
unfolding is_host_key
agent_host_key ssh_auth (string s) = if is_host_key s then s else []
agent_host_key _ _ = []

unfoldable pub destination_label : Operation → Str → Str
destination_label ssh_auth host_key =
    if is_empty host_key
    then codes "Server not reported by the SSH client"
    else codes "Server host key " ++ host_key
destination_label _ host_key = []

-- `Math.max(0, Math.min(900, n))` of a number that is not NaN.
unfoldable pub clamp_window : Number → ℕ
clamp_window (fin (pos n) ds) = min n approval_window_max_sec
clamp_window (infinite false) = approval_window_max_sec
clamp_window _ = 0

pub record PromptView : Type 0 where
  pub request_id : ℤ
  pub key_id : Str
  pub key_name : Str
  pub fingerprint : Str
  pub pid : Number
  pub process_path : Str
  pub process_name : Str
  pub operation : Operation
  pub operation_label : Str
  pub host_key : Str
  pub destination_label : Str
  pub grant_offered : Bool
  pub grant_seconds : ℕ
  pub grant_until_screen_lock : Bool
  pub grant_label : Str
  pub grant_short_label : Str
  pub forwarded_warning : Str
  pub provenance_note : Str

abbrev id_or_minus_one : Option ℕ → ℤ
id_or_minus_one none = negsuc 0
id_or_minus_one (some n) = pos n

abbrev provenance_note : Str
provenance_note =
    codes "Reported by the system, not verified. Only the requesting user was checked."

unfoldable pub forwarded_warning : Str
forwarded_warning =
    codes "Forwarded from a remote host. The program shown is the local ssh relaying it, "
    ++ codes "not the one that will use the signature, so it can only be approved once."

-- A grant is offered if the companion did, a window is set, and the request is not forwarded.
unfoldable pub offers_grant : Value → ℕ → Bool → Bool
unfolding prop
offers_grant request window until_lock =
    is_true (prop (codes "grantOffered") request)
    && (until_lock || ltb 0 window)
    && not (is_true (prop (codes "forwarded") request))

unfoldable pub grant_scope : Bool → ℕ → Str
unfolding format_duration
grant_scope until_lock window =
    if until_lock then codes "until screen lock" else format_duration window

-- `message || {}`: a message that is no object has none of the fields. U+00B7 is the middle dot.
unfoldable pub prompt_view : Value → Value → Bool → PromptView
prompt_view request approval_window_sec until_lock =
    let window = clamp_window (whole_or_zero approval_window_sec) in
    let offered = offers_grant request window until_lock in
    let kind = agent_operation (prop (codes "operation") request) in
    let key = agent_host_key kind (prop (codes "hostKey") request) in
    record {
      request_id = id_or_minus_one (request_id? (prop (codes "requestId") request));
      key_id = bounded_text (prop (codes "keyId") request) max_name_chars;
      key_name = bounded_text (prop (codes "keyName") request) max_name_chars;
      fingerprint = bounded_text (prop (codes "fingerprint") request) max_name_chars;
      pid = whole_or_zero (prop (codes "pid") request);
      process_path = bounded_path (prop (codes "processPath") request) max_path_chars;
      process_name = process_name (prop (codes "processPath") request);
      operation = kind;
      operation_label = operation_label kind (prop (codes "operationDetail") request);
      host_key = key;
      destination_label = destination_label kind key;
      grant_offered = offered;
      grant_seconds = if offered && not until_lock then window else 0;
      grant_until_screen_lock = offered && until_lock;
      grant_label =
          if offered
          then codes "Approve for this program " ++ 0xb7 ∷ 32 ∷ grant_scope until_lock window
          else [];
      grant_short_label = if offered then codes "Approve " ++ grant_scope until_lock window else [];
      forwarded_warning =
          if is_true (prop (codes "forwarded") request) then forwarded_warning else [];
      provenance_note = provenance_note;
    }

abbrev same_request_fields : List Str
same_request_fields =
    codes "fingerprint"
    ∷ codes "pid"
    ∷ codes "processPath"
    ∷ codes "operation"
    ∷ codes "operationDetail"
    ∷ codes "hostKey"
    ∷ codes "forwarded"
    ∷ codes "grantOffered"
    ∷ []

unfoldable pub same_request : Value → Value → Bool
unfolding all prop strict_eq truthy
same_request a b =
    truthy a
    && truthy b
    && all (λ k. strict_eq (prop k a) (prop k b)) same_request_fields
    && elim (prop (codes "fingerprint") a) [ string s ↦ not (is_empty s) | _ ↦ false ]
