-- ===== src/Agent/Supervisor/Contract.antt =====
-- What the supervisor promises the companion process, without its timers, codes and paths: a process
-- is launched, greeted, admitted, heard and ended, in this order.
use dms_bitwarden_cli.Common.{
  ℕ, ◌≡◌, refl, Bool, true, false, ◌&&◌, Option, some, ltb, if◌then◌else◌, ◌==◌, ◌+◌, Bool-cases,
  inl, inr, ℤ, pos, negsuc, Str,
}
use dms_bitwarden_cli.Js.Values.{Value}
use dms_bitwarden_cli.Agent.Protocol.{ErrorCode, ParsedEvent, ok, bad, is_ready}
use dms_bitwarden_cli.Agent.Supervisor.{
  Phase, disabled, starting, handshaking, ready, restarting, backoff, elsewhere, failed, AgentState,
  Action, Event, enabled, started, handshake_timeout, line, exited, restart_timer, no_action,
  on_parsed, fail_mid_run, fail_on_exit, on_exit, on_enabled, dispatch, reduce, max_restarts,
  restart_delay_ms, elsewhere_retry_ms, was_healthy,
}

pub data Stage : Type 0 where
  idle launched greeted serving draining : Stage

abbrev pub stage : Phase → Stage
stage disabled = idle
stage starting = launched
stage handshaking = greeted
stage ready = serving
stage restarting = draining
stage backoff = idle
stage elsewhere = idle
stage failed = idle

-- There is a process.
abbrev pub is_running : Stage → Bool
is_running idle = false
is_running _ = true

-- The steps of the contract at each event, with all that the panel is told to do. A process ends
-- only by its exit or when the user switches the agent off; one that fails is left to drain.
pub data Step : Stage → Event → Action → Stage → Type 0 where
  launch_enabled : Step idle (enabled true) (record no_action { start = true }) launched
  launch_again : Step idle restart_timer (record no_action { start = true }) launched
  greet : Step launched started (record no_action { write_hello = true }) greeted
  serve : (text : Value) → Step greeted (line text) no_action serving
  deliver :
      (text m : Value) → Step serving (line text) (record no_action { message = some m }) serving
  time_out :
      (x : Stage)
      → is_running x ≡ true
      → Step x handshake_timeout (record no_action { stop = true; cancel_restart = true }) draining
  refuse :
      (x : Stage) (text : Value)
      → is_running x ≡ true
      → Step x (line text) (record no_action { stop = true; cancel_restart = true }) draining
  withdraw :
      (x : Stage)
      → Step x (enabled false) (record no_action { stop = true; cancel_restart = true }) idle
  ended :
      (x : Stage) (held : Bool) (wait : ℤ)
      → Step x (exited held) (record no_action { restart_in_ms = wait }) idle
  skip : (x : Stage) (e : Event) → Step x e no_action x

-- The transition from a stage to a state at an event, with an action, is a step.
abbrev Kept : Stage → Event → AgentState × Action → Type 0
Kept x e r = Step x e r.1 (stage r.0.phase)

late-Step :
    (x : Stage) (s : AgentState) (c : ErrorCode)
    → is_running x ≡ true
    → Kept x handshake_timeout (fail_mid_run s no_action c)
unfolding fail_mid_run
late-Step x s c h = time_out x h

fail_on_exit-Step :
    (x : Stage) (s : AgentState) (held : Bool) (now : ℕ)
    → Kept x (exited held) (fail_on_exit s s no_action now)
unfolding fail_on_exit
fail_on_exit-Step x s held now =
    let count = (if was_healthy s now then 0 else s.failures) + 1 in
    elim (Bool-cases (ltb max_restarts count)) [
      | inl e ↦ rw e (ended x held (negsuc 0))
      | inr e ↦ rw e (ended x held (pos (restart_delay_ms count)))
    ]

on_exit-Step :
    (x : Stage) (s : AgentState) (held : Bool) (now : ℕ) → Kept x (exited held) (on_exit s held now)
unfolding on_exit
on_exit-Step x s held now = elim (Bool-cases (held && s.ready_at_ms == 0)) [
  | inl e ↦ rw e (ended x held (pos elsewhere_retry_ms))
  | inr e ↦ rw e (fail_on_exit-Step x s held now)
]

greeting-Step :
    (text : Value) (s : AgentState) (r : ParsedEvent) (now : ℕ)
    → s.phase ≡ handshaking
    → Kept greeted (line text) (on_parsed s r now)
unfolding on_parsed fail_mid_run
greeting-Step text s (bad c false) now h = rw h (skip greeted (line text))
greeting-Step text s (bad c true) now h = refuse greeted text refl
greeting-Step text s (ok m) now h = elim (Bool-cases (is_ready m)) [
  | inl e ↦ rw (e, h) (serve text)
  | inr e ↦ rw (e, h) (refuse greeted text refl)
]

serving-Step :
    (text : Value) (s : AgentState) (r : ParsedEvent) (now : ℕ)
    → s.phase ≡ ready
    → Kept serving (line text) (on_parsed s r now)
unfolding on_parsed fail_mid_run
serving-Step text s (bad c false) now h = rw h (skip serving (line text))
serving-Step text s (bad c true) now h = refuse serving text refl
serving-Step text s (ok m) now h = elim (Bool-cases (is_ready m)) [
  | inl e ↦ rw (e, h) (refuse serving text refl)
  | inr e ↦ rw (e, h) (deliver text m)
]

on_enabled-Step :
    (p : Phase) (value : Bool) (s : AgentState)
    → s.phase ≡ p
    → Kept (stage p) (enabled value) (on_enabled p value s)
unfolding on_enabled
on_enabled-Step disabled false s h = rw h (skip idle (enabled false))
on_enabled-Step p false s h = withdraw (stage p)
on_enabled-Step disabled true s h = launch_enabled
on_enabled-Step failed true s h = launch_enabled
on_enabled-Step p true s h = rw h (skip (stage p) (enabled true))

module _ (parse_json : Str → Option Value) where
  dispatch-Step :
      (p : Phase) (e : Event) (s : AgentState) (now : ℕ)
      → s.phase ≡ p
      → Kept (stage p) e (dispatch parse_json p e s now)
  unfolding dispatch
  dispatch-Step p (enabled value) s now h = on_enabled-Step p value s h
  dispatch-Step disabled e s now h = rw h (skip idle e)
  dispatch-Step failed e s now h = rw h (skip idle e)
  dispatch-Step starting started s now h = greet
  dispatch-Step starting handshake_timeout s now h = late-Step launched s _ refl
  dispatch-Step handshaking handshake_timeout s now h = late-Step greeted s _ refl
  dispatch-Step handshaking (line text) s now h = greeting-Step text s _ now h
  dispatch-Step ready (line text) s now h = serving-Step text s _ now h
  dispatch-Step p (exited held) s now h = on_exit-Step (stage p) s held now
  dispatch-Step backoff restart_timer s now h = launch_again
  dispatch-Step elsewhere restart_timer s now h = launch_again
  dispatch-Step p e s now h = rw h (skip (stage p) e)

  -- Each transition of the supervisor is a step of the contract.
  pub reduce-Step :
      (s : AgentState) (e : Event) (now : ℕ) → Kept (stage s.phase) e (reduce parse_json s e now)
  unfolding reduce
  reduce-Step s e now = dispatch-Step s.phase e s now refl
