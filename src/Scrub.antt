-- ===== src/Scrub.antt =====
-- Emptying the output buffers of processes after a lock (BitwardenModel.js, "Collector scrubbing"): a
-- buffer is emptied by running its process again with a command that prints nothing.
pub mod Queue
use dms_bitwarden_cli.Common.{
  ℕ, ◌-◌, Bool, true, false, not, ◌&&◌, Option, none, some, List, [], ◌∷◌, ◌==◌, if◌then◌else◌,
  filter, Str, codes, ◌===◌,
}

-- A process with its buffer; `none` is a command that is not set. Two processes are one object
-- exactly if their ids are equal.
pub record Collector : Type 0 where
  pub id : ℕ
  pub running : Bool
  pub command : Option (List Str)

abbrev pub scrub_command : List Str
scrub_command = codes "bash" ∷ codes "-c" ∷ [] ∷ []

-- The loop of `isScrubCommand`, with the lengths compared first in the source.
unfoldable pub same_words : List Str → List Str → Bool
unfolding ◌===◌
same_words [] [] = true
same_words (s ∷ l) (t ∷ m) = s === t && same_words l m
same_words _ _ = false

unfoldable pub is_scrub_command : Option (List Str) → Bool
unfolding same_words
is_scrub_command none = false
is_scrub_command (some words) = same_words words scrub_command

pub record Pass : Type 0 where
  pub start : List Collector
  pub waiting : List Collector

-- One process in a pass, before the rest of the queue.
unfoldable pub pass_one : Collector → Pass → Pass
unfolding is_scrub_command
pass_one p rest =
    if p.running
    then record rest { waiting = p ∷ rest.waiting }
    else if is_scrub_command p.command
    then rest
    else record { start = p ∷ rest.start; waiting = p ∷ rest.waiting }

unfoldable pub scrub_pass : List Collector → Pass
unfolding pass_one
scrub_pass [] = record { start = []; waiting = [] }
scrub_pass (p ∷ procs) = pass_one p (scrub_pass procs)

unfoldable pub finish_scrub : List Collector → Collector → List Collector
unfolding filter
finish_scrub procs finished = filter (λ p. not (p.id == finished.id)) procs
