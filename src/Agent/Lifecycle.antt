-- ===== src/Agent/Lifecycle.antt =====
-- How the companion follows the vault: `sshAgentVaultState`, `sshAgentLifecycleTransition` and
-- `sshAgentSetupState`.
pub mod Laws
use dms_bitwarden_cli.Common.{
  ◌+◌, ◌-◌, Bool, true, false, not, ◌&&◌, ◌||◌, none, List, [], ◌∷◌, ◌++◌, if◌then◌else◌, Str,
  codes,
}
use dms_bitwarden_cli.Js.Values.{Value}
use dms_bitwarden_cli.Agent.Protocol.{ErrorCode, no_code, exited}
use dms_bitwarden_cli.Agent.Lines.{vault_locked_line, logged_out_line}
use dms_bitwarden_cli.Agent.Supervisor.{Phase, ready, starting, handshaking, error_text}

-- What the panel knows of its vault.
pub record Context : Type 0 where
  pub enabled : Bool
  pub helper_ready : Bool
  pub logged_in : Bool
  pub loading : Bool
  pub unlocked : Bool
  pub has_public_cache : Bool
  pub epoch : Value

pub data VaultState : Type 0 where
  disabled logged_out loading_keys unlocked locked_cached locked_empty : VaultState

unfoldable pub vault_state : Context → VaultState
vault_state ctx =
    if not ctx.enabled || not ctx.helper_ready
    then VaultState.disabled
    else if not ctx.logged_in
    then logged_out
    else if ctx.loading
    then loading_keys
    else if ctx.unlocked
    then VaultState.unlocked
    else if ctx.has_public_cache
    then locked_cached
    else locked_empty

pub data LifecycleEvent : Type 0 where
  disable shutdown lock screen_lock suspend logout account_change : LifecycleEvent
  unlock sync startup other : LifecycleEvent

pub record LifecycleAction : Type 0 where
  pub control_lines : List Str
  pub cancel_load : Bool
  pub start_load : Bool
  pub await_lock_ack : Bool
  pub stop_helper : Bool
  pub clear_public : Bool
  pub advance_epoch : Bool

abbrev no_change : LifecycleAction
no_change = record {
  control_lines = [];
  cancel_load = false;
  start_load = false;
  await_lock_ack = false;
  stop_helper = false;
  clear_public = false;
  advance_epoch = false;
}

abbrev pub is_live : Context → Bool
is_live ctx = ctx.enabled && ctx.helper_ready

stopping : LifecycleAction
stopping = record no_change { stop_helper = true; cancel_load = true; clear_public = true }

locking : Context → LifecycleAction
locking ctx =
    if is_live ctx
    then record no_change {
      cancel_load = true;
      control_lines = vault_locked_line ctx.epoch ∷ [];
      await_lock_ack = true;
    }
    else record no_change { cancel_load = true }

logging_out : Context → LifecycleAction
logging_out ctx = record no_change {
  cancel_load = true;
  clear_public = true;
  control_lines = if is_live ctx then logged_out_line ∷ [] else [];
  advance_epoch = is_live ctx;
}

loading : Context → LifecycleAction
loading ctx = record no_change { start_load = is_live ctx && ctx.unlocked }

unfoldable pub lifecycle_transition : LifecycleEvent → Context → LifecycleAction
unfolding stopping locking logging_out loading
lifecycle_transition disable ctx = stopping
lifecycle_transition shutdown ctx = stopping
lifecycle_transition lock ctx = locking ctx
lifecycle_transition screen_lock ctx = locking ctx
lifecycle_transition suspend ctx = locking ctx
lifecycle_transition logout ctx = logging_out ctx
lifecycle_transition account_change ctx = logging_out ctx
lifecycle_transition unlock ctx = loading ctx
lifecycle_transition sync ctx = loading ctx
lifecycle_transition startup ctx = loading ctx
lifecycle_transition other ctx = no_change

pub data SetupLabel : Type 0 where
  disabled enabled error : SetupLabel

pub record SetupState : Type 0 where
  pub state : SetupLabel
  pub busy : Bool
  pub message : Str

abbrev code_or_exited : ErrorCode → ErrorCode
code_or_exited no_code = exited
code_or_exited c = c

phase_setup : Phase → ErrorCode → SetupState
phase_setup ready code = record {
  state = SetupLabel.enabled;
  busy = false;
  message = codes "The SSH agent is running and serving its socket.";
}
phase_setup starting code = record {
  state = SetupLabel.enabled;
  busy = true;
  message = codes "Starting the SSH agent helper...";
}
phase_setup handshaking code = record {
  state = SetupLabel.enabled;
  busy = true;
  message = codes "Starting the SSH agent helper...";
}
phase_setup _ code = record {
  state = SetupLabel.error;
  busy = false;
  message = error_text (code_or_exited code);
}

unfoldable pub setup_state : Bool → Bool → Phase → ErrorCode → SetupState
unfolding phase_setup
setup_state is_enabled supervisable phase code =
    if not is_enabled
    then record {
      state = SetupLabel.disabled;
      busy = false;
      message =
          codes "The SSH agent is off. Your vault works normally; SSH keys stay read-only records.";
    }
    else if not supervisable
    then record {
      state = SetupLabel.error;
      busy = false;
      message =
          codes "The SSH agent needs a per-login runtime directory and could not find one. "
          ++ codes
              "Without XDG_RUNTIME_DIR it refuses to start rather than use a path it cannot trust.";
    }
    else phase_setup phase code
