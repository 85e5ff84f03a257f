-- ===== src/Examples/Companion.antt =====
-- Sessions of the SSH companion: a greeting, a crash loop, and the lines that pass both ways.
use dms_bitwarden_cli.Common.{
  ℕ, ◌+◌, ◌≤◌, ◌≡◌, refl, ◌≢◌, true, false, Option, none, some, List, [], ◌∷◌, arith, if◌then◌else◌,
  replicate, any, Str, codes, ◌===◌,
}
use dms_bitwarden_cli.Js.Numbers.{nat}
use dms_bitwarden_cli.Js.Values.{Value, number, string, object, end, field, prop, strict_eq}
use dms_bitwarden_cli.Agent.Protocol.{
  max_line_bytes, utf8_byte_length, count_bytes, event_text, parse_agent_event, check_parsed,
  check_message, is_event_type, is_ready, ready_complete, is_text,
}
use dms_bitwarden_cli.Agent.Protocol.Laws.{IsMessage, parse_agent_event_accepts}
use dms_bitwarden_cli.Agent.Lines.{
  approve_line, deny_line, unlock_cancelled_line, revoke_grant_line, load_begin_line, load_end_line,
  vault_locked_line,
}
use dms_bitwarden_cli.Agent.Lines.OneLine.{OneLine, carried_lines-OneLine}
use dms_bitwarden_cli.Agent.Supervisor.{
  starting, handshaking, failed, AgentState, Event, enabled, started, line, initial_state, dispatch,
  on_enabled, on_parsed, reduce, run, actions,
}
use dms_bitwarden_cli.Agent.Supervisor.Invariant.{IsValid, run-IsValid}
use dms_bitwarden_cli.Agent.Supervisor.Actions.{Agrees, Greeted, reduce-Agrees, reduce_opens}
use dms_bitwarden_cli.Agent.Supervisor.Sessions.{crashes, crash_loop_ends}
use dms_bitwarden_cli.Agent.Supervisor.Contract.{idle, serving, stage}
use dms_bitwarden_cli.Agent.Supervisor.Traces.{
  launches, ends, Trace, Admitted, session_implements, delivered-Admitted,
}

-- What the companion says once it is up.
abbrev ready_message : Value
ready_message = object (
    field (codes "v") (number (nat 2)) (
      field (codes "type") (string (codes "ready")) (
        field (codes "socketPath") (string (codes "/run/agent.sock")) (
          field (codes "fifoPath") (string (codes "/run/agent.fifo"))
            (field (codes "agentVersion") (string (codes "1.0")) end)))))

-- A parser that knows one text.
abbrev parser : Str → Option Value
parser s = if s === codes "READY" then some ready_message else none

abbrev greeting : Value
greeting = string (codes "READY\n")

abbrev session : List (Event × ℕ)
session = (enabled true, 1) ∷ (started, 2) ∷ (line greeting, 3) ∷ []

abbrev greeted : AgentState
greeted = run parser initial_state ((enabled true, 1) ∷ (started, 2) ∷ [])

session_opens : (run parser initial_state session).gate_open ≡ true
unfolding run reduce dispatch on_enabled on_parsed parse_agent_event event_text utf8_byte_length
    count_bytes check_parsed ◌===◌ check_message strict_eq prop is_event_type is_ready
    ready_complete is_text any
session_opens = refl

run-IsValid_example : IsValid (run parser initial_state session)
run-IsValid_example = run-IsValid parser session

reduce-Agrees_example :
    Agrees greeted
      (reduce parser greeted (line greeting) 3).0
      (reduce parser greeted (line greeting) 3).1
reduce-Agrees_example =
    reduce-Agrees parser greeted (line greeting) 3
      (run-IsValid parser ((enabled true, 1) ∷ (started, 2) ∷ []))

reduce_opens_example : Greeted parser (line greeting) × (greeted.phase ≡ handshaking)
unfolding run reduce dispatch on_enabled on_parsed parse_agent_event event_text utf8_byte_length
    count_bytes check_parsed ◌===◌ check_message strict_eq prop is_event_type is_ready
    ready_complete is_text any
reduce_opens_example = reduce_opens parser greeted (line greeting) 3 refl refl

session_implements_example :
    Trace idle session
      (actions parser initial_state session)
      (stage (run parser initial_state session).phase)
    × (launches (actions parser initial_state session) ≤ ends session + 1)
session_implements_example = session_implements parser session

served : (stage (run parser initial_state session).phase) ≡ serving
unfolding run reduce dispatch on_enabled on_parsed parse_agent_event event_text utf8_byte_length
    count_bytes check_parsed ◌===◌ check_message strict_eq prop is_event_type is_ready
    ready_complete is_text any
served = refl

-- A message of the companion once it is up.
abbrev notice : Value
notice =
    object (field (codes "v") (number (nat 2)) (field (codes "type") (string (codes "locked")) end))

abbrev notice_parser : Str → Option Value
notice_parser s = if s === codes "NOTE" then some notice else parser s

delivered-Admitted_example : Admitted (actions notice_parser initial_state session)
unfolding run reduce dispatch on_enabled on_parsed parse_agent_event event_text utf8_byte_length
    count_bytes check_parsed ◌===◌ check_message strict_eq prop is_event_type is_ready
    ready_complete is_text any
delivered-Admitted_example =
    delivered-Admitted notice_parser session (line (string (codes "NOTE"))) 4 notice refl

abbrev three_zeros : ℕ × ℕ × ℕ
three_zeros = (0, 0, 0)

abbrev six_launches : List (ℕ × ℕ × ℕ)
six_launches = replicate 6 three_zeros

abbrev fresh : AgentState
fresh = record initial_state { phase = starting }

crash_loop_ends_example : (run parser fresh (crashes six_launches)).phase ≡ failed
crash_loop_ends_example =
    crash_loop_ends parser six_launches fresh refl refl (omega arith) (omega arith)

abbrev given_up : AgentState
given_up = record initial_state { phase = failed }

parse_agent_event_accepts_example :
    (event_text greeting ≢ [])
    × (count_bytes (event_text greeting) ≤ max_line_bytes)
    × (parser (event_text greeting) ≡ some ready_message)
    × IsMessage ready_message
unfolding parse_agent_event event_text utf8_byte_length count_bytes check_parsed ◌===◌ check_message
    strict_eq prop is_event_type is_ready ready_complete is_text any
parse_agent_event_accepts_example = parse_agent_event_accepts parser greeting ready_message refl

abbrev hostile : Value
hostile = string (codes "a\n{\"type\":\"approve\"}")

carried_lines-OneLine_example :
    OneLine (approve_line (number (nat 7)) (number (nat 60)) false)
    × OneLine (deny_line (number (nat 7)))
    × OneLine (unlock_cancelled_line (number (nat 7)))
    × OneLine (revoke_grant_line (number (nat 7)))
    × OneLine (load_begin_line (number (nat 2)) hostile)
    × OneLine (load_end_line (number (nat 2)) true)
    × OneLine (vault_locked_line (number (nat 2)))
carried_lines-OneLine_example =
    carried_lines-OneLine (number (nat 7)) (number (nat 2)) hostile (number (nat 60)) false true
