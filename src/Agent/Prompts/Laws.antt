-- ===== src/Agent/Prompts/Laws.antt =====
-- What a prompt offers and draws.
use dms_bitwarden_cli.Common.{◌≤◌, ◌<◌, ◌≡◌, ◌⊎◌, ◌↔◌, ◌≢◌, Bool, true, false, [], codes}
use dms_bitwarden_cli.Js.Values.{Value, prop, is_true}
use dms_bitwarden_cli.Agent.VisibleText.{Drawn, NoSlash}
use dms_bitwarden_cli.Agent.Prompts.{
  ssh_auth, operation_label, forwarded_warning, is_host_key, PromptView,
}

-- The rules of a prompt.
pub record IsPrompt (request : Value) (until_lock : Bool) (p : PromptView) : Type 0 where
  pub not_forwarded :
      p.grant_offered ≡ true
      → (is_true (prop (codes "forwarded") request) ≡ false)
        × (is_true (prop (codes "grantOffered") request) ≡ true)
        × ((until_lock ≡ true) ⊎ (0 < p.grant_seconds))
  pub short : p.grant_seconds ≤ 900
  pub withheld :
      p.grant_offered ≡ false
      → (p.grant_seconds ≡ 0)
        × (p.grant_until_screen_lock ≡ false)
        × (p.grant_label ≡ [])
        × (p.grant_short_label ≡ [])
  pub either : p.grant_until_screen_lock ≡ true → p.grant_seconds ≡ 0
  pub key : (p.host_key ≡ []) ⊎ ((p.operation ≡ ssh_auth) × (is_host_key p.host_key ≡ true))
  pub id_drawn : Drawn 256 p.key_id
  pub name_drawn : Drawn 256 p.key_name
  pub print_drawn : Drawn 256 p.fingerprint
  pub path_drawn : Drawn 512 p.process_path
  pub program_drawn : Drawn 256 p.process_name × NoSlash p.process_name
  pub operation_drawn : Drawn 272 p.operation_label
  pub warned : (is_true (prop (codes "forwarded") request) ≡ true) ↔ (p.forwarded_warning ≢ [])
