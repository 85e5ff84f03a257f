-- ===== src/Examples/Buffers.antt =====
-- A scrub pass on concrete data.
use dms_bitwarden_cli.Common.{◌≡◌, ◌↔◌, true, false, some, List, [], ◌∷◌, filter, codes}
use dms_bitwarden_cli.Scrub.{Collector, scrub_command, scrub_pass}
use dms_bitwarden_cli.Scrub.Queue.{IsScrubbed, is_idle, scrub_pass_drains}
use mathlib.Core.List.{Memᴰ}

abbrev first : Collector
first = record { id = 1; running = true; command = some (codes "bw" ∷ codes "list" ∷ []) }

abbrev queue : List Collector
queue =
    first
    ∷ record { id = 2; running = false; command = some scrub_command }
    ∷ record { id = 3; running = false; command = some (codes "bw" ∷ codes "sync" ∷ []) }
    ∷ []

scrub_pass_drains_example :
    (Memᴰ first (scrub_pass queue).waiting ↔ (Memᴰ first queue × ¬ IsScrubbed first))
    × ((scrub_pass queue).start ≡ filter is_idle (scrub_pass queue).waiting)
scrub_pass_drains_example = scrub_pass_drains queue first
