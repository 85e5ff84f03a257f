-- ===== src/Agent/Supervisor/Actions.antt =====
-- What the panel is told to do by one transition of the supervisor.
use dms_bitwarden_cli.Common.{
  ℕ, ◌+◌, ◌≤◌, ◌≡◌, refl, ◌⊎◌, inl, inr, Bool, true, false, Option, some, arith, pos, negsuc, Str,
}
use dms_bitwarden_cli.Js.Values.{Value}
use dms_bitwarden_cli.Agent.Protocol.{
  ErrorCode, protocol, ParsedEvent, ok, bad, is_ready, parse_agent_event,
}
use dms_bitwarden_cli.Agent.Supervisor.{
  Phase, disabled, starting, handshaking, ready, restarting, backoff, elsewhere, failed, AgentState,
  Action, Event, enabled, line, exited, no_action, on_parsed, fail_mid_run, fail_on_exit, on_exit,
  on_enabled, dispatch, reduce,
}
use dms_bitwarden_cli.Agent.Supervisor.Delays.{restart_delay_bounds}
use dms_bitwarden_cli.Agent.Supervisor.Invariant.{IsValid}

-- How an action agrees with the states around it.
pub record Agrees (s t : AgentState) (a : Action) : Type 0 where
  pub starts : a.start ≡ true → t.phase ≡ starting
  pub greets : a.write_hello ≡ true → (s.phase ≡ starting) × (t.phase ≡ handshaking)
  pub stops :
      a.stop ≡ true → (t.gate_open ≡ false) × ((t.phase ≡ restarting) ⊎ (t.phase ≡ disabled))
  pub waits :
      (ms : ℕ)
      → a.restart_in_ms ≡ pos ms
      → (500 ≤ ms) × (ms ≤ 30000) × ((t.phase ≡ backoff) ⊎ (t.phase ≡ elsewhere))
  pub unset : (n : ℕ) → a.restart_in_ms ≡ negsuc n → n ≡ 0
  pub delivers :
      (m : Value) → a.message ≡ some m → (s.gate_open ≡ true) × (s.phase ≡ ready) × (t ≡ s)

fail_mid_run-Agrees :
    (s : AgentState) (c : ErrorCode)
    → Agrees s (fail_mid_run s no_action c).0 (fail_mid_run s no_action c).1
unfolding fail_mid_run
fail_mid_run-Agrees s c = ground arith

on_parsed-Agrees :
    (s : AgentState) (r : ParsedEvent) (now : ℕ)
    → IsValid s
    → ((s.phase ≡ handshaking) ⊎ (s.phase ≡ ready))
    → Agrees s (on_parsed s r now).0 (on_parsed s r now).1
unfolding on_parsed
on_parsed-Agrees s (bad c false) now v h = ground arith
on_parsed-Agrees s (bad c true) now v h = fail_mid_run-Agrees s c
on_parsed-Agrees s (ok m) now v h = ground (arith, fail_mid_run-Agrees s protocol)

fail_on_exit-Agrees :
    (s : AgentState) (now : ℕ)
    → Agrees s (fail_on_exit s s no_action now).0 (fail_on_exit s s no_action now).1
unfolding fail_on_exit
fail_on_exit-Agrees s now =
    ground (arith, restart_delay_bounds 1, restart_delay_bounds (s.failures + 1))

on_exit-Agrees :
    (s : AgentState) (held : Bool) (now : ℕ)
    → Agrees s (on_exit s held now).0 (on_exit s held now).1
unfolding on_exit
on_exit-Agrees s held now = ground (arith, fail_on_exit-Agrees s now)

on_enabled-Agrees :
    (p : Phase) (value : Bool) (s : AgentState)
    → Agrees s (on_enabled p value s).0 (on_enabled p value s).1
unfolding on_enabled
on_enabled-Agrees disabled value s = ground arith
on_enabled-Agrees p value s = ground arith

module _ (parse_json : Str → Option Value) where
  dispatch-Agrees :
      (p : Phase) (e : Event) (s : AgentState) (now : ℕ)
      → s.phase ≡ p
      → IsValid s
      → Agrees s (dispatch parse_json p e s now).0 (dispatch parse_json p e s now).1
  unfolding dispatch fail_mid_run
  dispatch-Agrees p (enabled value) s now q v = on_enabled-Agrees p value s
  dispatch-Agrees disabled e s now q v = ground arith
  dispatch-Agrees failed e s now q v = ground arith
  dispatch-Agrees handshaking (line text) s now q v = on_parsed-Agrees s _ now v (inl q)
  dispatch-Agrees ready (line text) s now q v = on_parsed-Agrees s _ now v (inr q)
  dispatch-Agrees p (exited held) s now q v = on_exit-Agrees s held now
  dispatch-Agrees p e s now q v = ground arith

  -- One transition from a valid state: the process is started only into phase "starting", the
  -- hello is written only from "starting" into "handshaking", a stop closes the gate, a timer is
  -- set only into "backoff" or "elsewhere" and for 500 ms to 30 s, and a message of the companion
  -- is delivered only through an open gate in phase "ready", with the state unchanged.
  pub reduce-Agrees :
      (s : AgentState) (e : Event) (now : ℕ)
      → IsValid s
      → Agrees s (reduce parse_json s e now).0 (reduce parse_json s e now).1
  unfolding reduce
  reduce-Agrees s e now v = dispatch-Agrees s.phase e s now refl v

  -- The event is a line that parses to a `ready` message.
  abbrev pub Greeted : Event → Type 0
  Greeted (line text) =
      (m : Value) × (parse_agent_event parse_json text ≡ ok m) × (is_ready m ≡ true)
  Greeted _ = ⊥

  on_parsed_opens :
      (s : AgentState) (r : ParsedEvent) (now : ℕ)
      → s.gate_open ≡ false
      → (on_parsed s r now).0.gate_open ≡ true
      → (m : Value) × (r ≡ ok m) × (is_ready m ≡ true) × (s.phase ≡ handshaking)
  unfolding on_parsed fail_mid_run
  on_parsed_opens s (bad c false) now g o = cc
  on_parsed_opens s (bad c true) now g o = cc
  on_parsed_opens s (ok m) now g o = (m, refl, ground arith, ground arith)

  line_opens :
      (s : AgentState) (text : Value) (now : ℕ)
      → s.gate_open ≡ false
      → (on_parsed s (parse_agent_event parse_json text) now).0.gate_open ≡ true
      → Greeted (line text) × (s.phase ≡ handshaking)
  line_opens s text now g o =
      let (m, e, r, p) = on_parsed_opens s (parse_agent_event parse_json text) now g o in
      ((m, e, r), p)

  dispatch_opens :
      (p : Phase) (e : Event) (s : AgentState) (now : ℕ)
      → s.gate_open ≡ false
      → (dispatch parse_json p e s now).0.gate_open ≡ true
      → Greeted e × (s.phase ≡ handshaking)
  unfolding dispatch fail_mid_run on_enabled on_exit fail_on_exit
  dispatch_opens handshaking (line text) s now g o = line_opens s text now g o
  dispatch_opens ready (line text) s now g o = line_opens s text now g o
  dispatch_opens p e s now g o = absurd (ground arith)

  -- The signing gate opens in one way only: in phase "handshaking" a line arrives that the
  -- protocol's checks accept as a `ready` message.
  pub reduce_opens :
      (s : AgentState) (e : Event) (now : ℕ)
      → s.gate_open ≡ false
      → (reduce parse_json s e now).0.gate_open ≡ true
      → Greeted e × (s.phase ≡ handshaking)
  unfolding reduce
  reduce_opens s e now g o = dispatch_opens s.phase e s now g o
