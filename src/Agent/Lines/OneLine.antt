-- ===== src/Agent/Lines/OneLine.antt =====
-- Each control line is one line: a body with no control unit, and one line feed.
use dms_bitwarden_cli.Common.{
  ℕ, ◌≡◌, refl, ◌⊎◌, inl, inr, Bool, Option, none, some, [], ◌∷◌, ◌++◌, Bool-cases, Str,
}
use dms_bitwarden_cli.Js.Values.{Value, Fields}
use dms_bitwarden_cli.Js.Json.Control.{Printable, stringify-Printable}
use dms_bitwarden_cli.Agent.Lines.{
  agent_control_line, load_begin_line, load_end_line, approve_line, deny_line,
  unlock_cancelled_line, revoke_grant_line, vault_locked_line, for_request, request_id?,
  is_valid_load_id,
}

-- One framed message: nothing, or a body without control units and its line feed.
abbrev pub OneLine : Str → Type 0
OneLine l = (l ≡ []) ⊎ ((body : Str) × (l ≡ body ++ 10 ∷ []) × Printable body)

pub control_line-OneLine : (type : Str) (fields : Fields) → OneLine (agent_control_line type fields)
unfolding agent_control_line
control_line-OneLine type fields = inr (_, refl, stringify-Printable _)

for_request-OneLine : (o : Option ℕ) (l : Str) → OneLine l → OneLine (for_request o l)
for_request-OneLine none l h = inl refl
for_request-OneLine (some n) l h = h

-- Whatever ids, epochs and load ids a caller passes, each of the lines that carry them is "" or one
-- JSON text without any control unit and a single line feed at its end, so no value can add a
-- second message to the companion's input.
pub carried_lines-OneLine :
    (id epoch load_id seconds : Value) (until_lock ok : Bool)
    → OneLine (approve_line id seconds until_lock)
      × OneLine (deny_line id)
      × OneLine (unlock_cancelled_line id)
      × OneLine (revoke_grant_line id)
      × OneLine (load_begin_line epoch load_id)
      × OneLine (load_end_line epoch ok)
      × OneLine (vault_locked_line epoch)
unfolding approve_line deny_line unlock_cancelled_line revoke_grant_line load_begin_line
    load_end_line vault_locked_line
carried_lines-OneLine id epoch load_id seconds until_lock ok = (
  for_request-OneLine (request_id? id) _ (control_line-OneLine _ _),
  for_request-OneLine (request_id? id) _ (control_line-OneLine _ _),
  for_request-OneLine (request_id? id) _ (control_line-OneLine _ _),
  for_request-OneLine (request_id? id) _ (control_line-OneLine _ _),
  elim (Bool-cases (is_valid_load_id load_id)) [
    | inl e ↦ rw e (control_line-OneLine _ _)
    | inr e ↦ rw e (inl refl)
  ],
  control_line-OneLine _ _,
  control_line-OneLine _ _,
)
