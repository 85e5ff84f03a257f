-- ===== src/Scrub/Queue.antt =====
-- Which processes a pass starts, and which it leaves in the queue.
use dms_bitwarden_cli.Common.{
  ◌≡◌, refl, sym, ap, ◌∙◌, ◌↔◌, ◌⊎◌, inl, inr, Bool, true, false, not, Option, none, some, List, [],
  ◌∷◌, arith, Bool-cases, filter, Str, codes, ◌===◌, ===_eq,
}
use dms_bitwarden_cli.Scrub.{Collector, Pass, same_words, is_scrub_command, pass_one, scrub_pass}
use mathlib.Core.List.{Memᴰ}
use mathlib.Core.Bool.{true≢false}
use mathlib.Core.Path.{subst}

-- The command that prints nothing: `bash -c ""`.
abbrev pub empty_command : Option (List Str)
empty_command = some (codes "bash" ∷ codes "-c" ∷ [] ∷ [])

-- A process that is not running and whose last run was the command that prints nothing.
abbrev pub IsScrubbed : Collector → Type 0
IsScrubbed p = (p.running ≡ false) × (p.command ≡ empty_command)

abbrev pub is_idle : Collector → Bool
is_idle p = not p.running

same_words_eq : (l m : List Str) → same_words l m ≡ true → l ≡ m
unfolding same_words
same_words_eq [] [] h = refl
same_words_eq [] (t ∷ m) h = absurd (true≢false (sym h))
same_words_eq (s ∷ l) [] h = absurd (true≢false (sym h))
same_words_eq (s ∷ l) (t ∷ m) h =
    rw (===_eq s t (ground arith), same_words_eq l m (ground arith)) refl

is_scrub_command_empty : is_scrub_command empty_command ≡ true
unfolding is_scrub_command same_words ◌===◌
is_scrub_command_empty = refl

is_scrub_command_iff : (c : Option (List Str)) → (is_scrub_command c ≡ true) ↔ (c ≡ empty_command)
unfolding is_scrub_command
is_scrub_command_iff none = (λ h. absurd (true≢false (sym h)), λ h. cc)
is_scrub_command_iff (some words) = (
  (λ h. ap some (same_words_eq words _ h)),
  (λ h. ap is_scrub_command h ∙ is_scrub_command_empty),
)

start-idle :
    (procs : List Collector) → (scrub_pass procs).start ≡ filter is_idle (scrub_pass procs).waiting
unfolding scrub_pass pass_one filter
start-idle [] = refl
start-idle (p ∷ procs) = ground (arith, start-idle procs)

-- A process is left in the queue, or has been scrubbed.
pass_one-keeps :
    (p : Collector) (k : Pass)
    → ((pass_one p k).waiting ≡ k.waiting) × IsScrubbed p
      ⊎ ((pass_one p k).waiting ≡ p ∷ k.waiting) × ¬ IsScrubbed p
unfolding pass_one
pass_one-keeps p k = elim (Bool-cases p.running) [
  | inl e ↦ inr (rw e refl, λ h. true≢false (sym e ∙ h.0))
  | inr e ↦ elim (Bool-cases (is_scrub_command p.command)) [
    | inl s ↦ inl (rw (e, s) refl, (e, (is_scrub_command_iff p.command).0 s))
    | inr s ↦
        inr (rw (e, s) refl, λ h. true≢false (sym ((is_scrub_command_iff p.command).1 h.1) ∙ s))
  ]
]

waiting_iff :
    (procs : List Collector) (q : Collector)
    → Memᴰ q (scrub_pass procs).waiting ↔ (Memᴰ q procs × ¬ IsScrubbed q)
unfolding scrub_pass
waiting_iff [] q = (λ h. elim h [ ], λ h. elim h.0 [ ])
waiting_iff (p ∷ procs) q =
    let k = scrub_pass procs in
    let (there, back) = waiting_iff procs q in
    elim (pass_one-keeps p k) [
      | inl (e, scrubbed) ↦ rw e (
        (λ m. (Memᴰ.tail (there m).0, (there m).1)),
        (λ h. elim h.0 [
          | Memᴰ.head same ↦ absurd (h.1 (subst IsScrubbed (sym same) scrubbed))
          | Memᴰ.tail m ↦ back (m, h.1)
        ]),
      )
      | inr (e, open_still) ↦ rw e (
        (λ h. elim h [
          | Memᴰ.head same ↦ (Memᴰ.head same, λ s. open_still (subst IsScrubbed same s))
          | Memᴰ.tail m ↦ (Memᴰ.tail (there m).0, (there m).1)
        ]),
        (λ h. elim h.0 [
          | Memᴰ.head same ↦ Memᴰ.head same
          | Memᴰ.tail m ↦ Memᴰ.tail (back (m, h.1))
        ]),
      )
    ]

-- A pass leaves in the queue exactly the processes that are running or whose last command was not
-- `bash -c ""`, and starts exactly those of them that are not running, in their order.
pub scrub_pass_drains :
    (procs : List Collector) (p : Collector)
    → (Memᴰ p (scrub_pass procs).waiting ↔ (Memᴰ p procs × ¬ IsScrubbed p))
      × ((scrub_pass procs).start ≡ filter is_idle (scrub_pass procs).waiting)
scrub_pass_drains procs p = (waiting_iff procs p, start-idle procs)
