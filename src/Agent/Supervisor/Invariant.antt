-- ===== src/Agent/Supervisor/Invariant.antt =====
-- What holds of the supervisor between two events.
use dms_bitwarden_cli.Common.{
  ℕ, ◌≤◌, ◌≡◌, refl, ◌≢◌, Bool, true, false, Option, some, List, [], ◌∷◌, arith, Str, codes, inl,
  inr, ◌⊎◌,
}
use dms_bitwarden_cli.Js.Values.{Value, prop, object}
use dms_bitwarden_cli.Agent.Protocol.{
  ErrorCode, no_code, crash_loop, ParsedEvent, ok, bad, is_ready, is_text, ready_complete,
  check_message, check_parsed, event_text, parse_agent_event,
}
use dms_bitwarden_cli.Agent.Supervisor.{
  Phase, disabled, handshaking, ready, backoff, failed, AgentState, Event, initial_state, no_action,
  error_text, text_field, on_parsed, fail_mid_run, fail_on_exit, on_exit, on_enabled, enabled, line,
  exited, dispatch, reduce, run,
}

-- The gate is open exactly in phase "ready", where the paths are set; the message shown is the fixed
-- text of the code; failures stay within the cap until the supervisor gives up.
pub record IsValid (s : AgentState) : Type 0 where
  pub gate_ready : s.gate_open ≡ true → s.phase ≡ ready
  pub ready_gate : s.phase ≡ ready → s.gate_open ≡ true
  pub socket_set : s.phase ≡ ready → s.socket_path ≢ []
  pub fifo_set : s.phase ≡ ready → s.fifo_path ≢ []
  pub silent : s.error_code ≡ no_code → s.error_message ≡ []
  pub shown : s.error_code ≢ no_code → s.error_message ≡ error_text s.error_code
  pub capped : s.phase ≢ failed → s.failures ≤ 5
  pub given_up : s.phase ≡ failed → (s.failures ≡ 6) × (s.error_code ≡ crash_loop)
  pub backed_off : s.phase ≡ backoff → 1 ≤ s.failures

pub initial-IsValid : IsValid initial_state
initial-IsValid = ground arith

is_text-ne : (key : Str) (m : Value) → is_text (prop key m) ≡ true → text_field key m ≢ []
unfolding is_text text_field
is_text-ne key m h = ground arith

-- A `ready` message that the checks let through names the socket and the FIFO, and a refused line
-- has a code of its own.
check_message-ready :
    (v m : Value) → check_message v ≡ ok m → is_ready m ≡ true → ready_complete m ≡ true
unfolding check_message
check_message-ready v m h r = ground arith

check_message-bad : (v : Value) {c : ErrorCode} {f : Bool} → check_message v ≡ bad c f → c ≢ no_code
unfolding check_message
check_message-bad v h e = ground arith

check_parsed-ready :
    (o : Option Value) (m : Value)
    → check_parsed o ≡ ok m
    → is_ready m ≡ true
    → ready_complete m ≡ true
unfolding check_parsed
check_parsed-ready (some (object fs)) m h r = check_message-ready (object fs) m h r
check_parsed-ready _ m h r = cc

check_parsed-bad :
    (o : Option Value) {c : ErrorCode} {f : Bool} → check_parsed o ≡ bad c f → c ≢ no_code
unfolding check_parsed
check_parsed-bad (some (object fs)) h = check_message-bad (object fs) h
check_parsed-bad _ h = λ e. cc

ready-texts :
    (m : Value)
    → ready_complete m ≡ true
    → (text_field (codes "socketPath") m ≢ []) × (text_field (codes "fifoPath") m ≢ [])
unfolding ready_complete
ready-texts m h = (
  is_text-ne (codes "socketPath") m (ground arith),
  is_text-ne (codes "fifoPath") m (ground arith),
)

fail_on_exit-IsValid :
    (s : AgentState) (now : ℕ)
    → s.phase ≢ failed
    → IsValid s
    → IsValid (fail_on_exit s s no_action now).0
unfolding fail_on_exit
fail_on_exit-IsValid s now h v = ground arith

on_exit-IsValid :
    (s : AgentState) (held : Bool) (now : ℕ)
    → s.phase ≢ failed
    → IsValid s
    → IsValid (on_exit s held now).0
unfolding on_exit
on_exit-IsValid s held now h v = ground (arith, fail_on_exit-IsValid s now)

on_enabled-IsValid :
    (p : Phase) (value : Bool) (s : AgentState) → IsValid s → IsValid (on_enabled p value s).0
unfolding on_enabled
on_enabled-IsValid disabled value s v = ground arith
on_enabled-IsValid p value s v = ground arith

module _ (parse_json : Str → Option Value) where
  pub parse-ready :
      (text m : Value)
      → parse_agent_event parse_json text ≡ ok m
      → is_ready m ≡ true
      → ready_complete m ≡ true
  unfolding parse_agent_event
  parse-ready text m h r = ground (arith, check_parsed-ready (parse_json (event_text text)) m)

  parse-texts :
      (text m : Value)
      → parse_agent_event parse_json text ≡ ok m
      → is_ready m ≡ true
      → (text_field (codes "socketPath") m ≢ []) × (text_field (codes "fifoPath") m ≢ [])
  parse-texts text m h r = ready-texts m (parse-ready text m h r)

  pub parse-bad :
      (text : Value) (c : ErrorCode) (f : Bool)
      → parse_agent_event parse_json text ≡ bad c f
      → c ≢ no_code
  unfolding parse_agent_event
  parse-bad text c f h e =
      ground (arith, check_parsed-bad (parse_json (event_text text)) {c = c} {f = f})

  on_parsed-IsValid :
      (s : AgentState) (text : Value) (now : ℕ)
      → IsValid s
      → ((s.phase ≡ handshaking) ⊎ (s.phase ≡ ready))
      → (r : ParsedEvent) → parse_agent_event parse_json text ≡ r
      → IsValid (on_parsed s r now).0
  unfolding on_parsed fail_mid_run
  on_parsed-IsValid s text now v h (bad c false) e = v
  on_parsed-IsValid s text now v h (bad c true) e = ground (arith, parse-bad text c true e)
  on_parsed-IsValid s text now v h (ok m) e = ground (arith, parse-texts text m e)

  line-IsValid :
      (s : AgentState) (text : Value) (now : ℕ)
      → IsValid s
      → ((s.phase ≡ handshaking) ⊎ (s.phase ≡ ready))
      → IsValid (on_parsed s (parse_agent_event parse_json text) now).0
  line-IsValid s text now v h =
      on_parsed-IsValid s text now v h (parse_agent_event parse_json text) refl

  dispatch-IsValid :
      (p : Phase) (e : Event) (s : AgentState) (now : ℕ)
      → s.phase ≡ p
      → IsValid s
      → IsValid (dispatch parse_json p e s now).0
  unfolding dispatch fail_mid_run
  dispatch-IsValid p (enabled value) s now q v = on_enabled-IsValid p value s v
  dispatch-IsValid disabled e s now q v = ground arith
  dispatch-IsValid failed e s now q v = ground arith
  dispatch-IsValid handshaking (line text) s now q v = line-IsValid s text now v (inl q)
  dispatch-IsValid ready (line text) s now q v = line-IsValid s text now v (inr q)
  dispatch-IsValid p (exited held) s now q v = on_exit-IsValid s held now (λ e. cc) v
  dispatch-IsValid p e s now q v = ground arith

  -- Every event keeps the invariant.
  pub reduce-IsValid :
      (s : AgentState) (e : Event) (now : ℕ) → IsValid s → IsValid (reduce parse_json s e now).0
  unfolding reduce
  reduce-IsValid s e now v = dispatch-IsValid s.phase e s now refl v

  pub run_from-IsValid :
      (es : List (Event × ℕ)) (s : AgentState) → IsValid s → IsValid (run parse_json s es)
  unfolding run
  run_from-IsValid [] s v = v
  run_from-IsValid ((e, now) ∷ es) s v = run_from-IsValid es _ (reduce-IsValid s e now v)

  -- After any session of the supervisor, from the initial state and whatever the JSON parser does:
  -- the gate is open exactly in phase "ready", and there the socket and FIFO paths are set; the
  -- message shown is "" without an error code and the fixed text of the code otherwise; failures
  -- stay at most 5 until the phase is "failed", where they are 6 and the code is CRASH_LOOP; and
  -- phase "backoff" has a failure behind it.
  pub run-IsValid : (es : List (Event × ℕ)) → IsValid (run parse_json initial_state es)
  run-IsValid es = run_from-IsValid es initial_state initial-IsValid
