-- ===== src/Windows/Fuel.antt =====
-- The fuel of the matcher (Windows/Patterns) and of the split of titles (`splitSegments`) is enough:
-- more gives the same.
use dms_bitwarden_cli.Common.{
  ℕ, zero, suc, ◌≤◌, ◌<◌, ◌≡◌, refl, sym, ap, ◌∙◌, Bool, true, false, List, [], ◌∷◌, ◌++◌, arith,
  if◌then◌else◌, ltb, ltb→lt, Bool-cases, inl, inr, length, is_empty, All, All-append, All-map, Str,
  Option, some, reverse,
}
use dms_bitwarden_cli.Windows.Patterns.{
  Pattern, unit, seq, alt, many, nothing, start, stop, edge, Place, collect, repeat, ends, split_at,
  when, step_unit, is_none, differ, word_before, word_after,
}
use dms_bitwarden_cli.Windows.Titles.{title_separator}

-- The text that is left at a place is no longer than this.
abbrev pub Within : ℕ → List Place → Type 0
Within n = All (λ r. length r.after ≤ n)

collect-same :
    (f g : Place → List Place) (qs : List Place)
    → ((q : Place) → f q ≡ g q)
    → collect f qs ≡ collect g qs
unfolding collect
collect-same f g [] h = refl
collect-same f g (q ∷ qs) h = rw (h q, collect-same f g qs h) refl

collect-none :
    (f : Place → List Place) (qs : List Place) → ((q : Place) → f q ≡ []) → collect f qs ≡ []
unfolding collect
collect-none f [] h = refl
collect-none f (q ∷ qs) h = rw (h q, collect-none f qs h) refl

-- What one turn of `f*` goes on with, and that it reads.
turn_on : ℕ → ℕ → (Place → List Place) → Place → List Place
turn_on n limit f r = if ltb (length r.after) limit then repeat n f r else []

turn_on-end : (n : ℕ) (f : Place → List Place) (r : Place) → turn_on n 0 f r ≡ []
unfolding turn_on
turn_on-end n f r = ground arith

repeat-suc :
    (n : ℕ) (f : Place → List Place) (q : Place)
    → repeat (suc n) f q ≡ collect (turn_on n (length q.after) f) (f q) ++ q ∷ []
unfolding repeat turn_on
repeat-suc n f q = refl

repeat-zero : (f : Place → List Place) (q : Place) → repeat zero f q ≡ q ∷ []
unfolding repeat
repeat-zero f q = refl

repeat_at_end :
    (n : ℕ) (f : Place → List Place) (q : Place) → length q.after ≤ 0 → repeat n f q ≡ q ∷ []
repeat_at_end zero f q h = repeat-zero f q
repeat_at_end (suc n) f q h =
    let none_left : length q.after ≡ 0 = omega (arith, h) in
    repeat-suc n f q
    ∙ ap (λ l. collect (turn_on n l f) (f q) ++ q ∷ []) none_left
    ∙ ap (λ rs. rs ++ q ∷ []) (collect-none (turn_on n 0 f) (f q) (turn_on-end n f))

turn_same :
    (n m : ℕ) (f : Place → List Place) (r : Place) (limit : ℕ)
    → (length r.after < limit → repeat n f r ≡ repeat m f r)
    → turn_on n limit f r ≡ turn_on m limit f r
unfolding turn_on
turn_same n m f r limit h = elim (Bool-cases (ltb (length r.after) limit)) [
  | inl e ↦ rw (e, h (ltb→lt (length r.after) limit e)) refl
  | inr e ↦ rw e refl
]

-- A star has enough fuel with one turn for each unit that is left.
pub repeat_enough :
    (n m : ℕ) (f : Place → List Place) (q : Place)
    → length q.after ≤ n
    → length q.after ≤ m
    → repeat n f q ≡ repeat m f q
repeat_enough zero m f q h k = repeat_at_end zero f q h ∙ sym (repeat_at_end m f q h)
repeat_enough (suc n) zero f q h k = repeat_at_end (suc n) f q k ∙ sym (repeat_at_end zero f q k)
repeat_enough (suc n) (suc m) f q h k =
    repeat-suc n f q
    ∙ ap (λ rs. rs ++ q ∷ [])
        (collect-same (turn_on n (length q.after) f) (turn_on m (length q.after) f) (f q) (λ r.
          turn_same n m f r (length q.after)
            (λ less. repeat_enough n m f r (omega (arith, less, h)) (omega (arith, less, k)))))
    ∙ sym (repeat-suc m f q)

wider : (n m : ℕ) (qs : List Place) → n ≤ m → Within n qs → Within m qs
wider n m qs h w = All-map (λ r k. omega (arith, h, k)) qs w

collect-Within :
    (n : ℕ) (f : Place → List Place) (qs : List Place)
    → Within n qs
    → ((q : Place) → Within (length q.after) (f q))
    → Within n (collect f qs)
unfolding collect
collect-Within n f [] w h = tt
collect-Within n f (q ∷ qs) w h =
    All-append (λ r. length r.after ≤ n) (f q) (collect f qs)
      (wider (length q.after) n (f q) w.0 (h q)) (collect-Within n f qs w.1 h)

turn_on-Within :
    (n limit : ℕ) (f : Place → List Place)
    → ((q : Place) → Within (length q.after) (repeat n f q))
    → (q : Place) → Within (length q.after) (turn_on n limit f q)
unfolding turn_on
turn_on-Within n limit f h q = elim (Bool-cases (ltb (length q.after) limit)) [
  | inl e ↦ rw e (h q)
  | inr e ↦ rw e tt
]

repeat-Within :
    (n : ℕ) (f : Place → List Place)
    → ((q : Place) → Within (length q.after) (f q))
    → (q : Place) → Within (length q.after) (repeat n f q)
repeat-Within zero f h q = rw (repeat-zero f q) (omega arith, tt)
repeat-Within (suc n) f h q = rw (repeat-suc n f q) (
    All-append (λ r. length r.after ≤ length q.after) (collect (turn_on n (length q.after) f) (f q))
      (q ∷ [])
      (collect-Within (length q.after) (turn_on n (length q.after) f) (f q) (h q)
        (turn_on-Within n (length q.after) f (repeat-Within n f h)))
      (omega arith, tt))

when-Within : (b : Bool) (q : Place) → Within (length q.after) (when b q)
when-Within true q = (omega arith, tt)
when-Within false q = tt

-- Reading a unit leaves less.
abbrev pub Less : ℕ → List Place → Type 0
Less n = All (λ r. suc (length r.after) ≤ n)

step_unit-Less : (p : ℕ → Bool) (s : Str) → Less (length s) (step_unit p s)
step_unit-Less p [] = tt
step_unit-Less p (c ∷ s) = elim (Bool-cases (p c)) [
  | inl e ↦ rw e (omega arith, tt)
  | inr e ↦ rw e tt
]

ends-Within : (a : Pattern) (q : Place) → Within (length q.after) (ends a q)
unfolding ends
ends-Within (unit p) q =
    All-map (λ r k. omega (arith, k)) (step_unit p q.after) (step_unit-Less p q.after)
ends-Within (seq a b) q =
    collect-Within (length q.after) (ends b) (ends a q) (ends-Within a q) (ends-Within b)
ends-Within (alt a b) q =
    All-append (λ r. length r.after ≤ length q.after) (ends a q) (ends b q) (ends-Within a q)
      (ends-Within b q)
ends-Within (many a) q = repeat-Within (length q.after) (ends a) (ends-Within a) q
ends-Within nothing q = (omega arith, tt)
ends-Within start q = when-Within (is_none q.before) q
ends-Within stop q = when-Within (is_empty q.after) q
ends-Within edge q = when-Within (differ (word_before q.before) (word_after q.after)) q

-- A pattern that reads at least a unit.
abbrev pub Reads : Pattern → Type 0
Reads a = (q : Place) → Less (length q.after) (ends a q)

collect-Less :
    (n : ℕ) (f : Place → List Place) (qs : List Place)
    → Less n qs
    → ((q : Place) → Within (length q.after) (f q))
    → Less n (collect f qs)
unfolding collect
collect-Less n f [] w h = tt
collect-Less n f (q ∷ qs) w h =
    All-append (λ r. suc (length r.after) ≤ n) (f q) (collect f qs)
      (All-map (λ r k. omega (arith, w.0, k)) (f q) (h q)) (collect-Less n f qs w.1 h)

collect-Less_after :
    (n : ℕ) (f : Place → List Place) (qs : List Place)
    → Within n qs
    → ((q : Place) → Less (length q.after) (f q))
    → Less n (collect f qs)
unfolding collect
collect-Less_after n f [] w h = tt
collect-Less_after n f (q ∷ qs) w h =
    All-append (λ r. suc (length r.after) ≤ n) (f q) (collect f qs)
      (All-map (λ r k. omega (arith, w.0, k)) (f q) (h q)) (collect-Less_after n f qs w.1 h)

unit-Reads : (p : ℕ → Bool) → Reads (unit p)
unfolding ends
unit-Reads p q = step_unit-Less p q.after

seq-Reads : (a b : Pattern) → Reads a → Reads (seq a b)
unfolding ends
seq-Reads a b h q = collect-Less (length q.after) (ends b) (ends a q) (h q) (ends-Within b)

seq-Reads_after : (a b : Pattern) → Reads b → Reads (seq a b)
unfolding ends
seq-Reads_after a b h q =
    collect-Less_after (length q.after) (ends b) (ends a q) (ends-Within a q) h

alt-Reads : (a b : Pattern) → Reads a → Reads b → Reads (alt a b)
unfolding ends
alt-Reads a b h k q =
    All-append (λ r. suc (length r.after) ≤ length q.after) (ends a q) (ends b q) (h q) (k q)

title_separator-Reads : Reads title_separator
unfolding title_separator
title_separator-Reads = alt-Reads _ _ (seq-Reads_after _ _ (seq-Reads _ _ (unit-Reads _))) (
    alt-Reads _ _ (seq-Reads _ _ (seq-Reads _ _ (unit-Reads _)))
      (seq-Reads_after _ _ (seq-Reads _ _ (seq-Reads _ _ (unit-Reads _)))))

abbrev place : Option ℕ → Str → Place
place before after = record { before = before; after = after }

-- One unit of a split, given that all of the rest is the same.
split_at_step :
    (n m : ℕ) (a : Pattern) (piece : Str) (b : Option ℕ) (s : Str) (ms : List Place)
    → ends a (place b s) ≡ ms
    → Less (length s) ms
    → length s ≤ suc n
    → length s ≤ suc m
    → ((p : Str) (r : Place)
        → length r.after ≤ n
        → length r.after ≤ m
        → split_at n a p r ≡ split_at m a p r)
    → split_at (suc n) a piece (place b s) ≡ split_at (suc m) a piece (place b s)
unfolding split_at
split_at_step n m a piece b s (r ∷ rs) e l h k more =
    rw (e, split_at)
      (ap (λ ps. reverse piece ∷ ps) (more [] r (omega (arith, l.0, h)) (omega (arith, l.0, k))))
split_at_step n m a piece b [] [] e l h k more = rw (e, split_at) refl
split_at_step n m a piece b (c ∷ s) [] e l h k more =
    rw (e, split_at) (more (c ∷ piece) (place (some c) s) (omega (arith, h)) (omega (arith, k)))

-- With no text left, no fuel is needed.
split_at_end :
    (n : ℕ) (a : Pattern) (piece : Str) (b : Option ℕ) (ms : List Place)
    → ends a (place b []) ≡ ms
    → Less 0 ms
    → split_at n a piece (place b []) ≡ reverse piece ∷ []
unfolding split_at
split_at_end zero a piece b ms e l = refl
split_at_end (suc n) a piece b [] e l = rw (e, split_at) refl
split_at_end (suc n) a piece b (r ∷ rs) e l = absurd (omega (arith, l.0))

at_end :
    (a : Pattern)
    → Reads a
    → (n m : ℕ) (piece : Str) (b : Option ℕ) (s : Str) → length s ≤ 0
    → split_at n a piece (place b s) ≡ split_at m a piece (place b s)
at_end a reads n m piece b [] h =
    split_at_end n a piece b (ends a (place b [])) refl (reads (place b []))
    ∙ sym (split_at_end m a piece b (ends a (place b [])) refl (reads (place b [])))
at_end a reads n m piece b (c ∷ s) h = absurd (omega (arith, h))

-- A split by a pattern that reads has enough fuel with one step for each unit that is left.
pub split_at_enough :
    (a : Pattern)
    → Reads a
    → (n m : ℕ) (piece : Str) (q : Place) → length q.after ≤ n
    → length q.after ≤ m
    → split_at n a piece q ≡ split_at m a piece q
split_at_enough a reads zero m piece q h k = at_end a reads zero m piece q.before q.after h
split_at_enough a reads (suc n) zero piece q h k =
    sym (at_end a reads zero (suc n) piece q.before q.after k)
split_at_enough a reads (suc n) (suc m) piece q h k =
    split_at_step n m a piece q.before q.after (ends a q) refl (reads q) h k
      (split_at_enough a reads n m)
