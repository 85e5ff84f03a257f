-- ===== src/Examples/Signing.antt =====
-- Prompts, grants, cooldowns and lifecycle events of the SSH companion on concrete data.
use dms_bitwarden_cli.Common.{ℕ, refl, true, false, Option, none, some, List, [], ◌∷◌, any, codes}
use dms_bitwarden_cli.Js.Numbers.{nat}
use dms_bitwarden_cli.Js.Values.{Value, number, string, object, end, field, prop, strict_eq}
use dms_bitwarden_cli.Agent.Cooldown.{Outcome, denied, Cooldown}
use dms_bitwarden_cli.Agent.Lifecycle.{Context, lock, lifecycle_transition}
use dms_bitwarden_cli.Agent.Lifecycle.Laws.{Follows, lifecycle-Follows}
use dms_bitwarden_cli.Agent.VisibleText.{
  max_name_chars, max_path_chars, bounded_text, bounded_path, process_name, Drawn, NoSlash,
  client_texts-Drawn,
}
use dms_bitwarden_cli.Agent.Lines.{request_id?}
use dms_bitwarden_cli.Agent.Queue.{has_id}
use dms_bitwarden_cli.Agent.Queue.Laws.{
  Op, put, take_next, cancel, IsQueue, IsDistinct, none_left, one_more, run_ops, run_ops-IsQueue,
}
use dms_bitwarden_cli.Agent.Grants.{Span, finite, GrantView}

abbrev request : ℕ → Value
request n = object (field (codes "requestId") (number (nat n)) end)

two-IsDistinct : IsDistinct (request 1 ∷ request 2 ∷ [])
unfolding request_id? any has_id strict_eq prop
two-IsDistinct =
    one_more {m = request 1} {q = request 2 ∷ []} 1 refl refl
      (one_more {m = request 2} {q = []} 2 refl refl none_left)

abbrev ops : List Op
ops = put (request 1) ∷ put (request 1) ∷ take_next ∷ cancel (number (nat 2)) ∷ []

run_ops-IsQueue_example : IsQueue 4 (run_ops 4 [] ops)
run_ops-IsQueue_example = run_ops-IsQueue 4 ops

abbrev outcomes : List (Outcome × ℕ)
outcomes = (denied, 10) ∷ (denied, 20) ∷ []

abbrev once_refused : Cooldown
once_refused = record { refusals = 1; until_ms = 0 }

abbrev open_vault : Context
open_vault = record {
  enabled = true;
  helper_ready = true;
  logged_in = true;
  loading = false;
  unlocked = true;
  has_public_cache = true;
  epoch = number (nat 3);
}

lifecycle-Follows_example : Follows lock open_vault (lifecycle_transition lock open_vault)
lifecycle-Follows_example = lifecycle-Follows lock open_vault

client_texts-Drawn_example :
    Drawn 256 (bounded_text (string (codes "a\nb")) max_name_chars)
    × Drawn 512 (bounded_path (string (codes "a\nb")) max_path_chars)
    × Drawn 256 (process_name (string (codes "a\nb")))
    × NoSlash (process_name (string (codes "a\nb")))
client_texts-Drawn_example = client_texts-Drawn (string (codes "a\nb"))

abbrev view : Option Span → GrantView
view expiry = record {
  grant_id = 1;
  key_name = codes "key";
  fingerprint = [];
  pid = nat 9;
  process_path = [];
  process_name = [];
  operation_label = [];
  host_key = [];
  expires_at_ms = expiry;
  until_screen_lock = false;
  remaining_sec = finite 0;
  remaining_label = [];
}

abbrev views : List GrantView
views = view (some (finite 5000)) ∷ view none ∷ view (some (finite 90000)) ∷ []
