-- ===== src/Agent/Supervisor/Traces.antt =====
-- Sessions of the supervisor as traces of its contract.
use dms_bitwarden_cli.Common.{
  ℕ, ◌+◌, ◌≤◌, ◌≡◌, refl, Bool, true, false, Option, some, List, [], ◌∷◌, ◌++◌, Str, arith,
  if◌then◌else◌,
}
use mathlib.Core.List.{append_assoc, append-nil}
use mathlib.Core.Path.{subst}
use mathlib.Core.Option.{none-ne-some}
use dms_bitwarden_cli.Js.Values.{Value}
use dms_bitwarden_cli.Agent.Supervisor.{
  AgentState, Action, Event, enabled, exited, initial_state, no_action, reduce, run, actions,
}
use dms_bitwarden_cli.Agent.Supervisor.Contract.{
  Stage, idle, launched, greeted, serving, draining, stage, Step, launch_enabled, launch_again,
  greet, serve, deliver, time_out, refuse, withdraw, ended, skip, reduce-Step,
}

pub data Trace : Stage → List (Event × ℕ) → List Action → Stage → Type 0 where
  stay : (x : Stage) → Trace x [] [] x
  step :
      (x y z : Stage) (e : Event) (now : ℕ) (es : List (Event × ℕ)) (a : Action)
      (rest : List Action)
      → Step x e a y
      → Trace y es rest z
      → Trace x ((e, now) ∷ es) (a ∷ rest) z

module _ (parse_json : Str → Option Value) where
  session-Trace :
      (s : AgentState) (es : List (Event × ℕ))
      → Trace (stage s.phase) es (actions parse_json s es) (stage (run parse_json s es).phase)
  unfolding run actions
  session-Trace s [] = stay (stage s.phase)
  session-Trace s ((e, now) ∷ es) =
      let r = reduce parse_json s e now in
      step (stage s.phase) (stage r.0.phase) (stage (run parse_json r.0 es).phase) e now es r.1
        (actions parse_json r.0 es) (reduce-Step parse_json s e now) (session-Trace r.0 es)

-- How often the panel is told to start the process.
abbrev pub launches : List Action → ℕ
launches [] = 0
launches (a ∷ xs) = (if a.start then 1 else 0) + launches xs

-- An event that ends a process: its exit, or the user who switches the agent off.
abbrev pub is_end : Event → Bool
is_end (exited held) = true
is_end (enabled false) = true
is_end _ = false

abbrev pub ends : List (Event × ℕ) → ℕ
ends [] = 0
ends ((e, now) ∷ es) = (if is_end e then 1 else 0) + ends es

-- The number of processes that may still be started before one ends.
abbrev room : Stage → ℕ
room idle = 1
room _ = 0

Step-room :
    {x : Stage} {e : Event} {a : Action} {y : Stage}
    → Step x e a y
    → (if a.start then 1 else 0) + room y ≤ room x + (if is_end e then 1 else 0)
Step-room launch_enabled = omega arith
Step-room launch_again = omega arith
Step-room greet = omega arith
Step-room (serve text) = omega arith
Step-room (deliver text m) = omega arith
Step-room (time_out x r) = omega arith
Step-room (refuse x text r) = omega arith
Step-room (withdraw x) = omega arith
Step-room (ended x held wait) = omega arith
Step-room (skip x e) = omega arith

Trace-room :
    {x : Stage} {es : List (Event × ℕ)} {xs : List Action} {y : Stage}
    → Trace x es xs y
    → launches xs + room y ≤ room x + ends es
Trace-room (stay x) = omega arith
Trace-room (step x y z e now es a rest t ts) = omega (arith, Step-room t, Trace-room ts)

-- The panel is told to start the process, and to write it the hello.
abbrev pub launching : Action
launching = record no_action { start = true }

abbrev pub greeting : Action
greeting = record no_action { write_hello = true }

-- The list has the action, with what came before and after it.
abbrev pub Holds : Action → List Action → Type 0
Holds a xs = (before : List Action) × (after : List Action) × (xs ≡ before ++ a ∷ after)

-- A launch and, later, a greeting.
abbrev pub Admitted : List Action → Type 0
Admitted xs =
    (before : List Action) × (between : List Action) × (after : List Action) × (xs
      ≡ before ++ launching ∷ between ++ greeting ∷ after)

Holds-more : (a c : Action) (xs : List Action) → Holds a xs → Holds a (xs ++ c ∷ [])
Holds-more a c xs (before, after, e) =
    (before, after ++ c ∷ [], rw (e, append_assoc before (a ∷ after) (c ∷ [])) refl)

Admitted-more : (c : Action) (xs : List Action) → Admitted xs → Admitted (xs ++ c ∷ [])
Admitted-more c xs (before, between, after, e) =
    (before, between, after ++ c ∷ [], simp (e, append_assoc))

Admitted-greeting : (xs : List Action) → Holds launching xs → Admitted (xs ++ greeting ∷ [])
Admitted-greeting xs (before, after, e) =
    (before, after, [], rw (e, append_assoc before (launching ∷ after) (greeting ∷ [])) refl)

-- What a stage says of the actions up to it.
abbrev History : Stage → List Action → Type 0
History launched past = Holds launching past
History greeted past = Admitted past
History serving past = Admitted past
History _ past = Unit

Step-History :
    {x : Stage} {e : Event} {a : Action} {y : Stage} (past : List Action)
    → Step x e a y
    → History x past
    → History y (past ++ a ∷ [])
Step-History past launch_enabled h = (past, [], refl)
Step-History past launch_again h = (past, [], refl)
Step-History past greet h = Admitted-greeting past h
Step-History past (serve text) h = Admitted-more no_action past h
Step-History past (deliver text m) h = Admitted-more _ past h
Step-History past (time_out x r) h = _
Step-History past (refuse x text r) h = _
Step-History past (withdraw x) h = _
Step-History past (ended x held wait) h = _
Step-History past (skip idle e) h = _
Step-History past (skip draining e) h = _
Step-History past (skip launched e) h = Holds-more launching no_action past h
Step-History past (skip greeted e) h = Admitted-more no_action past h
Step-History past (skip serving e) h = Admitted-more no_action past h

Trace-History :
    {x : Stage} {es : List (Event × ℕ)} {xs : List Action} {y : Stage} (past : List Action)
    → Trace x es xs y
    → History x past
    → History y (past ++ xs)
Trace-History past (stay x) h = rw (append-nil past) h
Trace-History past (step x y z e now es a rest t ts) h =
    rw⁻¹ (append_assoc past (a ∷ []) rest)
      (Trace-History (past ++ a ∷ []) ts (Step-History past t h))

delivers_serving :
    {x : Stage} {e : Event} {a : Action} {y : Stage} (m : Value)
    → Step x e a y
    → a.message ≡ some m
    → x ≡ serving
delivers_serving m launch_enabled h = absurd (none-ne-some m h)
delivers_serving m launch_again h = absurd (none-ne-some m h)
delivers_serving m greet h = absurd (none-ne-some m h)
delivers_serving m (serve text) h = absurd (none-ne-some m h)
delivers_serving m (deliver text n) h = refl
delivers_serving m (time_out x r) h = absurd (none-ne-some m h)
delivers_serving m (refuse x text r) h = absurd (none-ne-some m h)
delivers_serving m (withdraw x) h = absurd (none-ne-some m h)
delivers_serving m (ended x held wait) h = absurd (none-ne-some m h)
delivers_serving m (skip x e) h = absurd (none-ne-some m h)

module _ (parse_json : Str → Option Value) where
  -- Every session of the supervisor from its initial state is a trace of the contract, with the
  -- stages of its states, its events and all that the panel is told to do: a process is launched at
  -- the idle stage only, then greeted, admitted and heard; one that fails drains until its exit.
  -- The launches of a session number at most one more than its exits and switch-offs together.
  pub session_implements :
      (es : List (Event × ℕ))
      → Trace idle es
          (actions parse_json initial_state es)
          (stage (run parse_json initial_state es).phase)
        × (launches (actions parse_json initial_state es) ≤ ends es + 1)
  session_implements es =
      let t = session-Trace parse_json initial_state es in (t, omega (arith, Trace-room t))

  -- A message of the companion is delivered to the panel only after the panel was told to launch the
  -- companion and, later, to write it the hello, whatever events came in whatever order.
  pub delivered-Admitted :
      (es : List (Event × ℕ)) (e : Event) (now : ℕ) (m : Value)
      → (reduce parse_json (run parse_json initial_state es) e now).1.message ≡ some m
      → Admitted (actions parse_json initial_state es)
  delivered-Admitted es e now m h =
      let s = run parse_json initial_state es in
      let at = delivers_serving m (reduce-Step parse_json s e now) h in
      subst (λ x. History x (actions parse_json initial_state es)) at
        (Trace-History [] (session-Trace parse_json initial_state es) _)
