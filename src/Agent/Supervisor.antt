-- ===== src/Agent/Supervisor.antt =====
-- The supervisor of the companion process: `sshAgentReduce` and what it calls. Times are Date.now()
-- in milliseconds.
pub mod Delays
pub mod Invariant
pub mod Actions
pub mod Sessions
pub mod Contract
pub mod Traces
use dms_bitwarden_cli.Common.{
  ℕ, ◌+◌, ◌*◌, ◌^◌, ◌-◌, Bool, true, false, ◌&&◌, not, Option, none, some, List, [], ◌∷◌, ◌++◌, ltb,
  leb, ◌==◌, if◌then◌else◌, Str, codes, ℤ, pos, negsuc, min,
}
use dms_bitwarden_cli.Js.Values.{Value, string, prop, string?}
use dms_bitwarden_cli.Agent.Protocol.{
  ErrorCode, no_code, malformed, line_too_long, version_mismatch, unknown_type, protocol,
  crash_loop, ParsedEvent, ok, bad, is_ready, parse_agent_event,
}

pub data Phase : Type 0 where
  disabled starting handshaking ready restarting backoff elsewhere failed : Phase

pub Phase-discrete : Discrete Phase
Phase-discrete = hlevel

pub record AgentState : Type 0 where
  pub phase : Phase
  pub gate_open : Bool
  pub socket_path : Str
  pub fifo_path : Str
  pub agent_version : Str
  pub failures : ℕ
  pub ready_at_ms : ℕ
  pub error_code : ErrorCode
  pub error_message : Str

-- What the panel does after a transition; `restart_in_ms` is -1 for "no timer".
pub record Action : Type 0 where
  pub start : Bool
  pub stop : Bool
  pub write_hello : Bool
  pub cancel_restart : Bool
  pub restart_in_ms : ℤ
  pub message : Option Value

pub data Event : Type 0 where
  enabled : (value : Bool) → Event
  started handshake_timeout : Event
  line : (text : Value) → Event
  exited : (lock_held : Bool) → Event
  restart_timer unknown : Event

abbrev pub initial_state : AgentState
initial_state = record {
  phase = disabled;
  gate_open = false;
  socket_path = [];
  fifo_path = [];
  agent_version = [];
  failures = 0;
  ready_at_ms = 0;
  error_code = no_code;
  error_message = [];
}

abbrev pub no_action : Action
no_action = record {
  start = false;
  stop = false;
  write_hello = false;
  cancel_restart = false;
  restart_in_ms = negsuc 0;
  message = none;
}

abbrev pub backoff_base_ms : ℕ
backoff_base_ms = 500

abbrev pub backoff_max_ms : ℕ
backoff_max_ms = 30000

abbrev pub max_restarts : ℕ
max_restarts = 5

abbrev pub healthy_ms : ℕ
healthy_ms = 60000

abbrev pub elsewhere_retry_ms : ℕ
elsewhere_retry_ms = 30000

unfoldable pub restart_delay_ms : ℕ → ℕ
restart_delay_ms failures =
    if ltb failures 1
    then backoff_base_ms
    else min backoff_max_ms (backoff_base_ms * 2 ^ (failures - 1))

exited_message : Str
exited_message = codes "The SSH agent helper stopped unexpectedly."

-- A code with no text of its own gets that of EXITED.
unfoldable pub error_text : ErrorCode → Str
unfolding exited_message
error_text malformed = codes "The SSH agent helper sent something the panel could not read."
error_text line_too_long = codes "The SSH agent helper sent an oversized message."
error_text version_mismatch =
    codes "The SSH agent helper does not match this version of the plugin."
error_text unknown_type = codes "The SSH agent helper does not match this version of the plugin."
error_text protocol = codes "The SSH agent helper broke its side of the control protocol."
error_text ErrorCode.handshake_timeout = codes "The SSH agent helper did not finish starting up."
error_text crash_loop =
    codes "The SSH agent helper keeps failing to start, so it has been left off."
error_text ErrorCode.elsewhere =
    codes "Another process is already serving the SSH agent on this machine -- another "
    ++ codes "Omarchy shell, most likely. This one is standing by and will take over when it stops."
error_text _ = exited_message

unfoldable pub fail_mid_run : AgentState → Action → ErrorCode → AgentState × Action
fail_mid_run next action code = (
  record next {
    gate_open = false;
    phase = restarting;
    error_code = code;
    error_message = error_text code;
  },
  record action { stop = true; cancel_restart = true },
)

abbrev has_code : ErrorCode → Bool
has_code no_code = false
has_code _ = true

-- The run had been ready for HEALTHY_MS.
abbrev pub was_healthy : AgentState → ℕ → Bool
was_healthy s now = ltb 0 s.ready_at_ms && leb (s.ready_at_ms + healthy_ms) now

unfoldable pub fail_on_exit : AgentState → AgentState → Action → ℕ → AgentState × Action
fail_on_exit s next action now =
    let code = if has_code next.error_code then next.error_code else ErrorCode.exited in
    let text =
      if has_code next.error_code then next.error_message else error_text ErrorCode.exited in
    let count = (if was_healthy s now then 0 else s.failures) + 1 in
    let ended = record next {
      gate_open = false;
      socket_path = [];
      fifo_path = [];
      agent_version = [];
      error_code = code;
      error_message = text;
      ready_at_ms = 0;
      failures = count;
    } in
    if ltb max_restarts count
    then (
      record ended {
        phase = failed;
        error_code = crash_loop;
        error_message = error_text crash_loop;
      },
      record action { restart_in_ms = negsuc 0 },
    )
    else (
      record ended { phase = backoff },
      record action { restart_in_ms = pos (restart_delay_ms count) },
    )

-- `message[key]` of a `ready` message, which the parser has checked to be a string.
unfoldable pub text_field : Str → Value → Str
text_field key message = elim (string? (prop key message)) [ some s ↦ s | none ↦ [] ]

abbrev is_ready_phase : Phase → Bool
is_ready_phase ready = true
is_ready_phase _ = false

abbrev is_handshaking : Phase → Bool
is_handshaking handshaking = true
is_handshaking _ = false

abbrev same : Bool → Bool → Bool
same true b = b
same false b = not b

-- The handling of a parsed line in phase "handshaking" or "ready".
unfoldable pub on_parsed : AgentState → ParsedEvent → ℕ → AgentState × Action
on_parsed s (bad code false) now = (s, no_action)
on_parsed s (bad code true) now = fail_mid_run s no_action code
on_parsed s (ok message) now =
    if not (same (is_ready message) (is_handshaking s.phase))
    then fail_mid_run s no_action protocol
    else if is_ready message
    then (
      record s {
        phase = ready;
        gate_open = true;
        socket_path = text_field (codes "socketPath") message;
        fifo_path = text_field (codes "fifoPath") message;
        agent_version = text_field (codes "agentVersion") message;
        ready_at_ms = now;
        error_code = no_code;
        error_message = [];
      },
      no_action,
    )
    else (s, record no_action { message = some message })

unfoldable pub on_exit : AgentState → Bool → ℕ → AgentState × Action
on_exit s lock_held now =
    if lock_held && s.ready_at_ms == 0
    then (
      record s {
        gate_open = false;
        socket_path = [];
        fifo_path = [];
        agent_version = [];
        phase = elsewhere;
        error_code = ErrorCode.elsewhere;
        error_message = error_text ErrorCode.elsewhere;
      },
      record no_action { restart_in_ms = pos elsewhere_retry_ms },
    )
    else fail_on_exit s s no_action now

unfoldable pub on_enabled : Phase → Bool → AgentState → AgentState × Action
on_enabled disabled false s = (s, no_action)
on_enabled _ false s = (initial_state, record no_action { stop = true; cancel_restart = true })
on_enabled disabled true s =
    (record initial_state { phase = starting }, record no_action { start = true })
on_enabled failed true s =
    (record initial_state { phase = starting }, record no_action { start = true })
on_enabled _ true s = (s, no_action)

module _ (parse_json : Str → Option Value) where
  -- The `switch` of `sshAgentReduce`, by phase and event; what it ignores changes nothing.
  unfoldable pub dispatch : Phase → Event → AgentState → ℕ → AgentState × Action
  dispatch p (enabled value) s now = on_enabled p value s
  dispatch disabled _ s now = (s, no_action)
  dispatch failed _ s now = (s, no_action)
  dispatch starting started s now =
      (record s { phase = handshaking }, record no_action { write_hello = true })
  dispatch starting handshake_timeout s now = fail_mid_run s no_action ErrorCode.handshake_timeout
  dispatch handshaking handshake_timeout s now =
      fail_mid_run s no_action ErrorCode.handshake_timeout
  dispatch handshaking (line text) s now = on_parsed s (parse_agent_event parse_json text) now
  dispatch ready (line text) s now = on_parsed s (parse_agent_event parse_json text) now
  dispatch p (exited lock_held) s now = on_exit s lock_held now
  dispatch backoff restart_timer s now =
      (record s { phase = starting }, record no_action { start = true })
  dispatch elsewhere restart_timer s now =
      (record s { phase = starting }, record no_action { start = true })
  dispatch _ _ s now = (s, no_action)

  unfoldable pub reduce : AgentState → Event → ℕ → AgentState × Action
  unfolding dispatch
  reduce s e now = dispatch s.phase e s now

  -- A session: the states after a list of events with their clocks.
  unfoldable pub run : AgentState → List (Event × ℕ) → AgentState
  run s [] = s
  run s ((e, now) ∷ es) = run (reduce s e now).0 es

  -- What the panel is told to do in a session.
  unfoldable pub actions : AgentState → List (Event × ℕ) → List Action
  actions s [] = []
  actions s ((e, now) ∷ es) = (reduce s e now).1 ∷ actions (reduce s e now).0 es
