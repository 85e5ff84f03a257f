-- ===== src/Agent/Lifecycle/Laws.antt =====
-- What each vault event makes the companion do.
use dms_bitwarden_cli.Common.{◌≡◌, ◌↔◌, ◌⊎◌, Bool, true, false, [], ◌∷◌, arith}
use dms_bitwarden_cli.Agent.Lines.{vault_locked_line, logged_out_line}
use dms_bitwarden_cli.Agent.Supervisor.{AgentState}
use dms_bitwarden_cli.Agent.Supervisor.Invariant.{IsValid}
use dms_bitwarden_cli.Agent.Lifecycle.{
  Context, VaultState, loading_keys, vault_state, LifecycleEvent, disable, shutdown, logout,
  account_change, unlock, sync, startup, other, LifecycleAction, is_live, lifecycle_transition,
  SetupLabel, setup_state,
}

-- Whether an event ends the private keys, and whether it ends the account.
abbrev pub ends_keys : LifecycleEvent → Bool
ends_keys unlock = false
ends_keys sync = false
ends_keys startup = false
ends_keys other = false
ends_keys _ = true

abbrev pub ends_account : LifecycleEvent → Bool
ends_account disable = true
ends_account shutdown = true
ends_account logout = true
ends_account account_change = true
ends_account _ = false

-- Whether the keys may be loaded at an event.
abbrev pub starts_keys : LifecycleEvent → Bool
starts_keys unlock = true
starts_keys sync = true
starts_keys startup = true
starts_keys _ = false

-- What an event asks of the panel.
pub record Follows (e : LifecycleEvent) (ctx : Context) (a : LifecycleAction) : Type 0 where
  pub cancels : a.cancel_load ≡ ends_keys e
  pub clears : a.clear_public ≡ ends_account e
  pub told :
      (ends_keys e ≡ false)
      ⊎ (is_live ctx ≡ false)
      ⊎ (a.stop_helper ≡ true)
      ⊎ ((a.control_lines ≡ vault_locked_line ctx.epoch ∷ []) × (a.await_lock_ack ≡ true))
      ⊎ ((a.control_lines ≡ logged_out_line ∷ []) × (a.advance_epoch ≡ true))
  pub loads : (a.start_load ≡ true) ↔ (
      (starts_keys e ≡ true)
      × (ctx.enabled ≡ true)
      × (ctx.helper_ready ≡ true)
      × (ctx.unlocked ≡ true))
  pub silent : (is_live ctx ≡ true) ⊎ (a.control_lines ≡ [])

-- Every event that ends the private keys cancels a running load and starts none, and leaves a live
-- companion none of them: it is stopped, or told of the lock and asked to acknowledge it, or told of
-- the logout. The public keys are cleared exactly by the events that end the account. A load starts
-- exactly on an unlock, a sync or a startup, in an unlocked vault, with the feature on and the
-- companion ready. Without a live companion no line is written.
pub lifecycle-Follows :
    (e : LifecycleEvent) (ctx : Context) → Follows e ctx (lifecycle_transition e ctx)
unfolding lifecycle_transition
lifecycle-Follows e ctx = ground arith

-- A load starts only where the vault's state is one that holds keys: "loading" or "unlocked".
pub load_needs_keys :
    (e : LifecycleEvent) (ctx : Context)
    → ctx.logged_in ≡ true
    → (lifecycle_transition e ctx).start_load ≡ true
    → (vault_state ctx ≡ loading_keys) ⊎ (vault_state ctx ≡ VaultState.unlocked)
unfolding lifecycle_transition vault_state
load_needs_keys e ctx l h = ground arith

-- Setup shows the agent as on and idle exactly while the gate of a valid supervisor is open, given
-- that the feature is on and a runtime directory is known.
pub setup_on_iff_gate :
    (s : AgentState)
    → IsValid s
    → let u = setup_state true true s.phase s.error_code in
      ((u.state ≡ SetupLabel.enabled) × (u.busy ≡ false)) ↔ (s.gate_open ≡ true)
unfolding setup_state
setup_on_iff_gate s v = (λ h. ground arith, λ h. ground arith)
