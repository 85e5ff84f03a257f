-- ===== src/Agent/Queue.antt =====
-- The queue of prompts that wait behind the one shown: `sshAgentEnqueuePrompt`,
-- `sshAgentDequeuePrompt`, `sshAgentRemovePrompt` and `sshAgentPendingCount`.
pub mod Laws
use dms_bitwarden_cli.Common.{
  ℕ, ◌+◌, ◌-◌, Bool, not, ◌&&◌, Option, none, some, List, [], ◌∷◌, ◌++◌, ltb, leb, if◌then◌else◌,
  length, filter, any, all, codes,
}
use dms_bitwarden_cli.Js.Numbers.{nat}
use dms_bitwarden_cli.Js.Values.{Value, number, end, prop, truthy, strict_eq}
use dms_bitwarden_cli.Agent.Lines.{request_id?}

abbrev pub id_of : Value → Value
id_of message = prop (codes "requestId") message

-- `typeof maxQueue === "number" && maxQueue > 0 ? maxQueue : 4`, for a whole number.
unfoldable pub queue_cap : ℕ → ℕ
queue_cap max_queue = if ltb 0 max_queue then max_queue else 4

unfoldable pub has_id : ℕ → Value → Bool
has_id n item = strict_eq (id_of item) (number (nat n))

-- A message with id `n` enters unless its id is there already or the queue is full.
unfoldable pub admit : List Value → Value → ℕ → Option ℕ → List Value
admit queue message cap none = queue
admit queue message cap (some n) =
    if any (has_id n) queue
    then queue
    else if leb cap (length queue)
    then queue
    else queue ++ message ∷ []

unfoldable pub enqueue : List Value → Value → ℕ → List Value
enqueue queue message max_queue =
    admit queue message (queue_cap max_queue) (request_id? (id_of message))

unfoldable pub dequeue : List Value → Option Value × List Value
dequeue [] = (none, [])
dequeue (message ∷ queue) = (some message, queue)

unfoldable pub remove_prompt : List Value → Value → List Value
unfolding filter truthy strict_eq
remove_prompt queue request_id =
    filter (λ item. truthy item && not (strict_eq (id_of item) request_id)) queue

unfoldable pub pending_count : Bool → List Value → ℕ
pending_count active queue = (if active then 1 else 0) + length queue
