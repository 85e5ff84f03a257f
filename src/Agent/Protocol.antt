-- ===== src/Agent/Protocol.antt =====
-- The control protocol of the SSH companion (BitwardenModel.js, "SSH companion supervision"): the
-- byte count of a line, and the check of one line of the companion's output.
pub mod Laws
use dms_bitwarden_cli.Common.{
  ℕ, ◌+◌, Bool, true, false, ◌&&◌, not, Option, some, List, [], ◌∷◌, ltb, leb, ◌==◌, if◌then◌else◌,
  is_empty, Str, codes, ◌===◌, length, any,
}
use dms_bitwarden_cli.Js.Numbers.{nat}
use dms_bitwarden_cli.Js.Values.{Value, number, string, object, prop, strict_eq, text_or_empty}

abbrev pub control_version : ℕ
control_version = 2

abbrev pub max_line_bytes : ℕ
max_line_bytes = 65536

-- Bytes of a code unit that starts no surrogate pair.
unit_bytes : ℕ → ℕ
unit_bytes c = if ltb c 0x80 then 1 else if ltb c 0x800 then 2 else 3

is_high_surrogate : ℕ → Bool
is_high_surrogate c = leb 0xd800 c && leb c 0xdbff

-- The loop of `utf8ByteLength`: a high surrogate counts four and takes the next unit with it.
unfoldable pub count_bytes : Str → ℕ
unfolding unit_bytes is_high_surrogate
count_bytes [] = 0
count_bytes (c ∷ []) = if is_high_surrogate c then 4 else unit_bytes c
count_bytes (c ∷ d ∷ s) =
    let pair = 4 + count_bytes s in
    let single = unit_bytes c + count_bytes (d ∷ s) in if is_high_surrogate c then pair else single

unfoldable pub utf8_byte_length : Str → ℕ
utf8_byte_length text =
    let bytes = count_bytes text in if ltb max_line_bytes (length text) then length text else bytes

-- The stable codes by which the panel chooses a message; `no_code` is "".
pub data ErrorCode : Type 0 where
  no_code empty malformed line_too_long version_mismatch unknown_type protocol : ErrorCode
  handshake_timeout exited crash_loop elsewhere : ErrorCode

pub ErrorCode-discrete : Discrete ErrorCode
ErrorCode-discrete = hlevel

-- `{ok: true, message}` or `{ok: false, code, fatal}`.
pub data ParsedEvent : Type 0 where
  ok : (message : Value) → ParsedEvent
  bad : (code : ErrorCode) (fatal : Bool) → ParsedEvent

abbrev pub event_types : List Str
event_types =
    codes "ready"
    ∷ codes "unlock_required"
    ∷ codes "approval_required"
    ∷ codes "request_cancelled"
    ∷ codes "keys_loaded"
    ∷ codes "public_key"
    ∷ codes "locked"
    ∷ codes "load_failed"
    ∷ codes "grants_changed"
    ∷ codes "state_changed"
    ∷ codes "error"
    ∷ []

unfoldable pub is_event_type : Value → Bool
unfolding any ◌===◌
is_event_type (string t) = any (λ e. e === t) event_types
is_event_type _ = false

-- A string that is not "".
unfoldable pub is_text : Value → Bool
is_text (string s) = not (is_empty s)
is_text _ = false

unfoldable pub is_ready : Value → Bool
unfolding prop strict_eq
is_ready message = strict_eq (prop (codes "type") message) (string (codes "ready"))

-- `ready` must name the socket, the FIFO and the version.
unfoldable pub ready_complete : Value → Bool
ready_complete message =
    is_text (prop (codes "socketPath") message)
    && is_text (prop (codes "fifoPath") message)
    && is_text (prop (codes "agentVersion") message)

-- The checks on a parsed line, in order.
unfoldable pub check_message : Value → ParsedEvent
check_message message =
    if not (strict_eq (prop (codes "v") message) (number (nat control_version)))
    then bad version_mismatch true
    else if not (is_event_type (prop (codes "type") message))
    then bad unknown_type true
    else if is_ready message && not (ready_complete message)
    then bad malformed true
    else ok message

unfoldable pub check_parsed : Option Value → ParsedEvent
check_parsed (some (object fs)) = check_message (object fs)
check_parsed _ = bad malformed true

-- Cuts one trailing unit `c`.
strip_last : ℕ → Str → Str
strip_last c [] = []
strip_last c (d ∷ []) = if d == c then [] else d ∷ []
strip_last c (d ∷ e ∷ s) = d ∷ strip_last c (e ∷ s)

unfoldable pub event_text : Value → Str
unfolding strip_last text_or_empty
event_text line = strip_last 13 (strip_last 10 (text_or_empty line))

module _ (parse_json : Str → Option Value) where
  unfoldable pub parse_agent_event : Value → ParsedEvent
  parse_agent_event line =
      let text = event_text line in
      if is_empty text
      then bad empty false
      else if ltb max_line_bytes (utf8_byte_length text)
      then bad line_too_long true
      else check_parsed (parse_json text)
