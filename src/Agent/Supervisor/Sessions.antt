-- ===== src/Agent/Supervisor/Sessions.antt =====
-- Whole sessions of the supervisor: the crash loop, and what ends it.
use dms_bitwarden_cli.Common.{
  ℕ, ◌+◌, ◌≤◌, ◌<◌, ◌≡◌, refl, inl, inr, Bool, true, false, Option, List, [], ◌∷◌, arith, ltb, ◌==◌,
  if◌then◌else◌, ltb→lt, Bool-cases, length, All, Str,
}
use dms_bitwarden_cli.Js.Values.{Value}
use dms_bitwarden_cli.Agent.Supervisor.{
  Phase, disabled, starting, failed, AgentState, Event, enabled, started, exited, restart_timer,
  initial_state, no_action, fail_on_exit, on_exit, on_enabled, dispatch, reduce, run,
}

-- The phases that the switch leaves.
abbrev pub is_off : Phase → Bool
is_off failed = true
is_off disabled = true
is_off _ = false

-- Launches that end while the helper starts up, each with the restart timer after it; a launch is
-- given by the times of its start, its exit and the timer.
abbrev pub crashes : List (ℕ × ℕ × ℕ) → List (Event × ℕ)
crashes [] = []
crashes ((a, b, c) ∷ ts) = (started, a) ∷ (exited false, b) ∷ (restart_timer, c) ∷ crashes ts

abbrev is_switch : Event → Bool
is_switch (enabled value) = true
is_switch _ = false

module _ (parse_json : Str → Option Value) where
  failed_step :
      (s : AgentState) (e : Event) (now : ℕ)
      → s.phase ≡ failed
      → is_switch e ≡ false
      → reduce parse_json s e now ≡ (s, no_action)
  unfolding reduce dispatch
  failed_step s e now f n = ground arith

  -- In phase "failed" nothing but the user's switch changes the state: any other events, in any
  -- number, are ignored.
  pub failed_absorbs :
      (es : List (Event × ℕ)) (s : AgentState)
      → s.phase ≡ failed
      → All (λ ev. is_switch ev.0 ≡ false) es
      → run parse_json s es ≡ s
  unfolding run
  failed_absorbs [] s f h = refl
  failed_absorbs ((e, now) ∷ es) s f h = rw (failed_step s e now f h.0) (failed_absorbs es s f h.1)

  off-phase :
      (s : AgentState) (now : ℕ) → (reduce parse_json s (enabled false) now).0.phase ≡ disabled
  unfolding reduce dispatch on_enabled
  off-phase s now = ground arith

  on_from_disabled :
      (s : AgentState) (now : ℕ)
      → s.phase ≡ disabled
      → (reduce parse_json s (enabled true) now).0 ≡ record initial_state { phase = starting }
  unfolding reduce dispatch on_enabled
  on_from_disabled s now h = ground arith

  -- Switching the agent off and on again starts afresh from any state: all that is left of the
  -- old run, its failures and its error among it, is gone. The switch on alone does so in the
  -- phases "failed" and "disabled", and in every other phase it changes nothing.
  pub switch_resets :
      (s : AgentState) (a b : ℕ)
      → (run parse_json s ((enabled false, a) ∷ (enabled true, b) ∷ [])
          ≡ record initial_state { phase = starting })
        × (run parse_json s ((enabled true, b) ∷ [])
            ≡ (if is_off s.phase then record initial_state { phase = starting } else s))
  unfolding run
  switch_resets s a b =
      (on_from_disabled _ b (off-phase s a), unfold reduce dispatch on_enabled in ground arith)

  crash_step :
      (s : AgentState) (a b c : ℕ)
      → s.phase ≡ starting
      → s.ready_at_ms ≡ 0
      → s.failures < 5
      → let t = run parse_json s (crashes ((a, b, c) ∷ [])) in
        (t.phase ≡ starting) × (t.ready_at_ms ≡ 0) × (t.failures ≡ s.failures + 1)
  unfolding run reduce dispatch on_exit fail_on_exit
  crash_step s a b c p r f = ground arith

  last_crash :
      (s : AgentState) (a b c : ℕ)
      → s.phase ≡ starting
      → s.ready_at_ms ≡ 0
      → s.failures ≡ 5
      → (run parse_json s (crashes ((a, b, c) ∷ []))).phase ≡ failed
  unfolding run reduce dispatch on_exit fail_on_exit
  last_crash s a b c p r f = ground arith

  crash_loop-cases :
      (ts : List (ℕ × ℕ × ℕ)) (s : AgentState)
      → s.phase ≡ starting
      → s.ready_at_ms ≡ 0
      → s.failures ≤ 5
      → ((length ts + s.failures ≡ 6) → (run parse_json s (crashes ts)).phase ≡ failed)
        × ((length ts + s.failures < 6) → (run parse_json s (crashes ts)).phase ≡ starting)
  unfolding run
  crash_loop-cases [] s p r f = (λ e. absurd (omega arith), λ _. p)
  crash_loop-cases ((a, b, c) ∷ ts) s p r f = elim (Bool-cases (ltb s.failures 5)) [
    | inl lt ↦
        let st = crash_step s a b c p r (ltb→lt _ _ lt) in
        let ih =
          crash_loop-cases ts (run parse_json s (crashes ((a, b, c) ∷ []))) st.0 st.1
            (omega (arith, ltb→lt _ _ lt)) in
        (λ e. ih.0 (omega arith), λ e. ih.1 (omega arith))
    | inr ge ↦ (λ e. last ts (ground arith) (ground arith), λ e. absurd (ground arith))
  ]
    where
      last :
          (us : List (ℕ × ℕ × ℕ))
          → length us ≡ 0
          → s.failures ≡ 5
          → (run parse_json s (crashes ((a, b, c) ∷ us))).phase ≡ failed
      last [] e k = last_crash s a b c p r k
      last (u ∷ us) e k = absurd (omega arith)

  -- A helper that keeps dying while it starts up is given up after six launches in a row, counted
  -- with the failures before, and not earlier.
  pub crash_loop_ends :
      (ts : List (ℕ × ℕ × ℕ)) (s : AgentState)
      → s.phase ≡ starting
      → s.ready_at_ms ≡ 0
      → s.failures ≤ 5
      → length ts + s.failures ≤ 6
      → (run parse_json s (crashes ts)).phase
        ≡ (if length ts + s.failures == 6 then failed else starting)
  crash_loop_ends ts s p r f h =
      ground (arith, (crash_loop-cases ts s p r f).0, (crash_loop-cases ts s p r f).1)
