-- ===== src/Agent/Queue/Laws.antt =====
-- The queue is a bounded first-in first-out queue of prompts with distinct ids.
use dms_bitwarden_cli.Common.{
  ℕ, ◌+◌, ◌≤◌, ◌<◌, ◌≡◌, refl, ◌∙◌, ◌⊎◌, inl, inr, Bool, false, not, ◌&&◌, Option, none, some, List,
  [], ◌∷◌, ◌++◌, arith, leb, ◌==◌, Bool-cases, length, filter, any, length-append, length-filter-le,
  any-append, pos, ◌===◌,
}
use dms_bitwarden_cli.Js.Numbers.{fin, nat, num_eq}
use dms_bitwarden_cli.Js.Values.{Value, number, truthy, strict_eq}
use dms_bitwarden_cli.Agent.Lines.{request_id?}
use mathlib.Core.List.{append-nil, append_assoc}
use dms_bitwarden_cli.Agent.Queue.{id_of, queue_cap, has_id, admit, enqueue, dequeue, remove_prompt}

-- A request id is that number, and equals no other.
request_id-eq :
    (v : Value) (n m : ℕ) → request_id? v ≡ some n → strict_eq v (number (nat m)) ≡ (n == m)
unfolding request_id? strict_eq num_eq ◌===◌
request_id-eq (number (fin (pos k) [])) n m h = ground arith
request_id-eq _ n m h = cc

has_id-eq : (item : Value) (n m : ℕ) → request_id? (id_of item) ≡ some n → has_id m item ≡ (n == m)
unfolding has_id
has_id-eq item n m h = request_id-eq (id_of item) n m h

-- Every prompt has an id, and no two the same.
pub data IsDistinct : List Value → Type 0 where
  none_left : IsDistinct []
  one_more :
      {m : Value} {q : List Value} (n : ℕ)
      → request_id? (id_of m) ≡ some n
      → any (has_id n) q ≡ false
      → IsDistinct q
      → IsDistinct (m ∷ q)

pub record IsQueue (max_queue : ℕ) (q : List Value) : Type 0 where
  pub within : length q ≤ queue_cap max_queue
  pub distinct : IsDistinct q

append-IsDistinct :
    (q : List Value) (m : Value) (n : ℕ)
    → request_id? (id_of m) ≡ some n
    → any (has_id n) q ≡ false
    → IsDistinct q
    → IsDistinct (q ++ m ∷ [])
unfolding any
append-IsDistinct [] m n e a d = one_more n e refl none_left
append-IsDistinct (x ∷ q) m n e a (one_more k ek ak d) =
    one_more k ek (rw any-append (ground (arith, has_id-eq m n k e, has_id-eq x k n ek)))
      (append-IsDistinct q m n e (ground arith) d)

admit-new :
    (q : List Value) (m : Value) (cap n : ℕ)
    → any (has_id n) q ≡ false
    → length q < cap
    → admit q m cap (some n) ≡ q ++ m ∷ []
unfolding admit
admit-new q m cap n a h = ground arith

-- A prompt enters at the end, or not at all.
abbrev Entered : List Value → Value → ℕ → Option ℕ → Type 0
Entered q m cap o =
    (n : ℕ) × (o ≡ some n)
    × (any (has_id n) q ≡ false)
    × (length q < cap)
    × (admit q m cap o ≡ q ++ m ∷ [])

admit-cases :
    (q : List Value) (m : Value) (cap : ℕ) (o : Option ℕ)
    → (admit q m cap o ≡ q) ⊎ Entered q m cap o
unfolding admit
admit-cases q m cap none = inl refl
admit-cases q m cap (some n) = elim (Bool-cases (any (has_id n) q)) [
  | inl old ↦ inl (rw old refl)
  | inr new ↦ elim (Bool-cases (leb cap (length q))) [
    | inl full ↦ inl (rw (new, full) refl)
    | inr room ↦ inr (n, refl, new, ground arith, rw (new, room) refl)
  ]
]

pub enqueue-IsQueue :
    (q : List Value) (m : Value) (max_queue : ℕ)
    → IsQueue max_queue q
    → IsQueue max_queue (enqueue q m max_queue)
unfolding enqueue
enqueue-IsQueue q m max_queue v =
    elim (admit-cases q m (queue_cap max_queue) (request_id? (id_of m))) [
      | inl e ↦ rw e v
      | inr (n, e, new, room, app) ↦ rw app (record {
        within = omega (arith, length-append q (m ∷ []));
        distinct = append-IsDistinct q m n e new v.distinct;
      })
    ]

any-filter : (p t : Value → Bool) (q : List Value) → any t q ≡ false → any t (filter p q) ≡ false
unfolding any filter
any-filter p t [] h = refl
any-filter p t (x ∷ q) h = ground (arith, any-filter p t q)

filter-IsDistinct : (p : Value → Bool) (q : List Value) → IsDistinct q → IsDistinct (filter p q)
unfolding filter
filter-IsDistinct p [] d = d
filter-IsDistinct p (x ∷ q) (one_more n e a d) = elim (Bool-cases (p x)) [
  | inl h ↦ rw h (one_more n e (any-filter p (has_id n) q a) (filter-IsDistinct p q d))
  | inr h ↦ rw h (filter-IsDistinct p q d)
]

remove-IsQueue :
    (q : List Value) (id : Value) (max_queue : ℕ)
    → IsQueue max_queue q
    → IsQueue max_queue (remove_prompt q id)
unfolding remove_prompt
remove-IsQueue q id max_queue v = record {
  within = omega (
    arith,
    v.within,
    length-filter-le (λ item. truthy item && not (strict_eq (id_of item) id)) q,
  );
  distinct = filter-IsDistinct _ q v.distinct;
}

dequeue-IsQueue :
    (q : List Value) (max_queue : ℕ) → IsQueue max_queue q → IsQueue max_queue (dequeue q).1
unfolding dequeue
dequeue-IsQueue [] max_queue v = v
dequeue-IsQueue (m ∷ q) max_queue v = record {
  within = omega (arith, v.within);
  distinct = rest v.distinct;
}
  where
    rest : IsDistinct (m ∷ q) → IsDistinct q
    rest (one_more n e a d) = d

-- What the panel does to its queue.
pub data Op : Type 0 where
  put : (message : Value) → Op
  take_next : Op
  cancel : (request_id : Value) → Op

unfoldable pub apply_op : ℕ → List Value → Op → List Value
apply_op max_queue q (put m) = enqueue q m max_queue
apply_op max_queue q take_next = (dequeue q).1
apply_op max_queue q (cancel id) = remove_prompt q id

unfoldable pub run_ops : ℕ → List Value → List Op → List Value
run_ops max_queue q [] = q
run_ops max_queue q (o ∷ os) = run_ops max_queue (apply_op max_queue q o) os

op-IsQueue :
    (q : List Value) (o : Op) (max_queue : ℕ)
    → IsQueue max_queue q
    → IsQueue max_queue (apply_op max_queue q o)
unfolding apply_op
op-IsQueue q (put m) max_queue v = enqueue-IsQueue q m max_queue v
op-IsQueue q take_next max_queue v = dequeue-IsQueue q max_queue v
op-IsQueue q (cancel id) max_queue v = remove-IsQueue q id max_queue v

run_from-IsQueue :
    (os : List Op) (q : List Value) (max_queue : ℕ)
    → IsQueue max_queue q
    → IsQueue max_queue (run_ops max_queue q os)
unfolding run_ops
run_from-IsQueue [] q max_queue v = v
run_from-IsQueue (o ∷ os) q max_queue v =
    run_from-IsQueue os (apply_op max_queue q o) max_queue (op-IsQueue q o max_queue v)

-- After any puts, takes and cancels on an empty queue, it holds at most as many prompts as its cap,
-- each with a request id, and no id twice.
pub run_ops-IsQueue : (max_queue : ℕ) (os : List Op) → IsQueue max_queue (run_ops max_queue [] os)
run_ops-IsQueue max_queue os =
    run_from-IsQueue os [] max_queue (record { within = ground arith; distinct = none_left })

-- The prompts of `ms` enter one after the other.
unfoldable pub enqueue_all : ℕ → List Value → List Value → List Value
enqueue_all max_queue q [] = q
enqueue_all max_queue q (m ∷ ms) = enqueue_all max_queue (enqueue q m max_queue) ms

middle_id :
    (q : List Value) (m : Value) (ms : List Value)
    → IsDistinct (q ++ m ∷ ms)
    → (n : ℕ) × (request_id? (id_of m) ≡ some n) × (any (has_id n) q ≡ false)
unfolding any
middle_id [] m ms (one_more n e a d) = (n, e, refl)
middle_id (x ∷ q) m ms (one_more k ek ak d) =
    let (n, e, a) = middle_id q m ms d in
    (n, e, ground (arith, any-append (has_id k) q (m ∷ ms), has_id-eq m n k e, has_id-eq x k n ek))

enqueue_all-append :
    (ms q : List Value) (max_queue : ℕ)
    → IsDistinct (q ++ ms)
    → length q + length ms ≤ queue_cap max_queue
    → enqueue_all max_queue q ms ≡ q ++ ms
unfolding enqueue_all enqueue
enqueue_all-append [] q max_queue d h = rw append-nil refl
enqueue_all-append (m ∷ ms) q max_queue d h =
    let (n, e, a) = middle_id q m ms d in
    rw (e, admit-new q m (queue_cap max_queue) n a (omega arith))
      (enqueue_all-append ms (q ++ m ∷ []) max_queue (rw append_assoc d)
          (omega (arith, length-append q (m ∷ [])))
        ∙ append_assoc q (m ∷ []) ms)

-- Prompts with distinct ids that fit the cap leave in the order in which they came: the first to
-- enter is the next to leave, and what stays is as if it had never been there.
pub dequeue-enqueue_all :
    (max_queue : ℕ) (m : Value) (ms : List Value)
    → IsDistinct (m ∷ ms)
    → length (m ∷ ms) ≤ queue_cap max_queue
    → dequeue (enqueue_all max_queue [] (m ∷ ms)) ≡ (some m, enqueue_all max_queue [] ms)
unfolding dequeue
dequeue-enqueue_all max_queue m ms d h =
    rw (enqueue_all-append (m ∷ ms) [] max_queue d (omega arith))
      (rw (enqueue_all-append ms [] max_queue (tail_distinct d) (omega arith)) refl)
  where
    tail_distinct : IsDistinct (m ∷ ms) → IsDistinct ms
    tail_distinct (one_more n e a r) = r
