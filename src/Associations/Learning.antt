-- ===== src/Associations/Learning.antt =====
-- What a pick teaches the store, and what forgetting takes from it.
use dms_bitwarden_cli.Common.{
  ℕ, ◌≤◌, ◌≡◌, refl, sym, ap, ◌∙◌, ◌⊎◌, inl, inr, Bool, true, false, not, ◌&&◌, ◌||◌, Option, none,
  some, List, [], ◌∷◌, ◌++◌, map, arith, leb, Bool-cases, length, is_empty, any, All, any-append,
  All-map, All-append, Str, ◌===◌, ===_refl, ===_eq,
}
use mathlib.Core.Path.{subst}
use dms_bitwarden_cli.Associations.{Entry, Keys, lookup, assign, after_prefix}
use dms_bitwarden_cli.Sites.{Domain}
use dms_bitwarden_cli.Associations.Store.{
  word_key, domain_keys, app_keys, WindowContext, ContextKey, context_keys, is_word_key,
  association_entry_counts, is_same, picked, record_keys, record_association,
}
use dms_bitwarden_cli.Associations.Matches.{is_associated_in, is_associated}
use dms_bitwarden_cli.Associations.Parsing.{All-assign}
use dms_bitwarden_cli.Associations.Budget.{total_cost, trim-All, trim-within}

lookup-assign_same : (k : Str) (e : Entry) (keys : Keys) → lookup k (assign k e keys) ≡ some e
unfolding lookup assign
lookup-assign_same k e [] = rw (===_refl k) refl
lookup-assign_same k e ((j, x) ∷ rest) = elim (Bool-cases (j === k)) [
  | inl same ↦ rw same (rw same refl)
  | inr other ↦ rw other (rw other (lookup-assign_same k e rest))
]

===_apart : (j k l : Str) → (j === k) ≡ false → (j === l) ≡ true → (l === k) ≡ false
===_apart j k l h g = subst (λ t. (t === k) ≡ false) (===_eq j l g) h

lookup-assign_other :
    (j k : Str) (e : Entry) (keys : Keys)
    → (k === j) ≡ false
    → lookup j (assign k e keys) ≡ lookup j keys
unfolding lookup assign
lookup-assign_other j k e [] h = rw h refl
lookup-assign_other j k e ((i, x) ∷ rest) h = elim (Bool-cases (i === k)) [
  | inl same ↦ rw same (rw (subst (λ t. (t === j) ≡ false) (sym (===_eq i k same)) h) refl)
  | inr other ↦ rw other (rw (lookup-assign_other j k e rest h) refl)
]

module _ (item_id timestamp : Str) (pinned : Bool) where
  -- A pick does not touch the other keys.
  record_keys-other :
      (cs : List ContextKey) (j : Str) (keys : Keys)
      → any (λ c. c.key === j) cs ≡ false
      → lookup j (record_keys item_id timestamp pinned cs keys) ≡ lookup j keys
  unfolding record_keys any
  record_keys-other [] j keys h = refl
  record_keys-other (c ∷ cs) j keys h =
      record_keys-other cs j
        (assign c.key (picked item_id timestamp pinned c.weight (lookup c.key keys)) keys)
        (ground arith)
      ∙ lookup-assign_other j c.key (picked item_id timestamp pinned c.weight (lookup c.key keys))
          keys (ground arith)

  -- Under each of its own keys it leaves an entry that a pick writes.
  record_keys-found :
      (cs : List ContextKey) (j : Str) (keys : Keys)
      → any (λ c. c.key === j) cs ≡ true
      → (w : ℕ) × (x : Option Entry) × (lookup j (record_keys item_id timestamp pinned cs keys)
          ≡ some (picked item_id timestamp pinned w x))
  unfolding record_keys any
  record_keys-found [] j keys h = cc
  record_keys-found (c ∷ cs) j keys h = elim (Bool-cases (any (λ d. d.key === j) cs)) [
    | inl more ↦
        record_keys-found cs j
          (assign c.key (picked item_id timestamp pinned c.weight (lookup c.key keys)) keys) more
    | inr last ↦ (
      c.weight,
      lookup c.key keys,
      record_keys-other cs j
            (assign c.key (picked item_id timestamp pinned c.weight (lookup c.key keys)) keys) last
          ∙ ap
              (λ t.
                lookup t (
                  assign c.key (picked item_id timestamp pinned c.weight (lookup c.key keys)) keys))
              (sym (===_eq c.key j (ground arith)))
          ∙ lookup-assign_same c.key (picked item_id timestamp pinned c.weight (lookup c.key keys))
              keys,
    )
  ]

  record_keys-All :
      (P : Str × Entry → Type 0) (cs : List ContextKey) (keys : Keys)
      → All (λ c. (w : ℕ) (x : Option Entry) → P (c.key, picked item_id timestamp pinned w x)) cs
      → All P keys
      → All P (record_keys item_id timestamp pinned cs keys)
  unfolding record_keys
  record_keys-All P [] keys f h = h
  record_keys-All P (c ∷ cs) keys (g, f) h =
      record_keys-All P cs
        (assign c.key (picked item_id timestamp pinned c.weight (lookup c.key keys)) keys) f
        (All-assign P c.key (picked item_id timestamp pinned c.weight (lookup c.key keys)) keys
          (g c.weight (lookup c.key keys)) h)

picked-same :
    (item_id timestamp : Str) (pinned : Bool) (w : ℕ) (x : Option Entry)
    → is_same item_id (some (picked item_id timestamp pinned w x)) ≡ true
unfolding is_same picked
picked-same item_id timestamp pinned w x = ===_refl item_id

picked-counts :
    (item_id timestamp key : Str) (pinned : Bool) (w : ℕ) (x : Option Entry)
    → (pinned ≡ true) ⊎ (is_word_key key ≡ false)
    → association_entry_counts key (some (picked item_id timestamp pinned w x)) ≡ true
unfolding association_entry_counts picked
picked-counts item_id timestamp key pinned w x h = ground arith

domain_keys-not_words : (o : Option Domain) → All (λ c. is_word_key c.key ≡ false) (domain_keys o)
unfolding is_word_key after_prefix
domain_keys-not_words none = tt
domain_keys-not_words (some d) = elim (Bool-cases (not (is_empty d.base_domain) && not d.is_ip)) [
  | inl e ↦ rw e (refl, tt)
  | inr e ↦ rw e tt
]

app_keys-not_words : (ctx : WindowContext) → All (λ c. is_word_key c.key ≡ false) (app_keys ctx)
unfolding is_word_key after_prefix
app_keys-not_words ctx =
    elim (Bool-cases
      (not ctx.is_browser && not ctx.is_terminal && leb 3 (length ctx.cls_squashed))) [
        | inl e ↦ rw e (refl, tt)
        | inr e ↦ rw e tt
      ]

-- Without the words, a window has no word key.
context_keys-not_words :
    (ctx : WindowContext) → All (λ c. is_word_key c.key ≡ false) (context_keys ctx false)
unfolding context_keys
context_keys-not_words ctx =
    let P : ContextKey → Type 0 = λ c. is_word_key c.key ≡ false in
    All-append P (domain_keys ctx.detected_domain ++ app_keys ctx) []
      (All-append P (domain_keys ctx.detected_domain) (app_keys ctx)
        (domain_keys-not_words ctx.detected_domain) (app_keys-not_words ctx))
      tt

any_nil : {A : Type 0} (p : A → Bool) → any p [] ≡ false
unfolding any
any_nil p = refl

context_keys-words :
    (ctx : WindowContext) (p : ContextKey → Bool) (b : Bool)
    → any p (context_keys ctx b) ≡ true
    → any p (context_keys ctx true) ≡ true
context_keys-words ctx p true h = h
context_keys-words ctx p false h =
    unfold context_keys in
    ground (
      arith,
      any-append p (domain_keys ctx.detected_domain ++ app_keys ctx) [],
      any-append p (domain_keys ctx.detected_domain ++ app_keys ctx)
          (map word_key ctx.title_tokens),
      any_nil p,
    )

pub any_true : {A : Type 0} (l : List A) → All {0, 0} (λ a. Unit) l
any_true [] = tt
any_true (a ∷ l) = (tt, any_true l)

-- The keys of a pick are no words, unless it is a pin.
pick_keys :
    (ctx : WindowContext) (pinned : Bool)
    → All (λ c. (pinned ≡ true) ⊎ (is_word_key c.key ≡ false)) (context_keys ctx pinned)
pick_keys ctx true =
    All-map (λ c h. inl refl) (context_keys ctx true) (any_true (context_keys ctx true))
pick_keys ctx false = All-map (λ c h. inr h) (context_keys ctx false) (context_keys-not_words ctx)

first_key :
    (P : ContextKey → Type 0) (cs : List ContextKey)
    → is_empty cs ≡ false
    → All P cs
    → (c : ContextKey) × (any (λ d. d.key === c.key) cs ≡ true) × P c
unfolding any
first_key P [] h a = cc
first_key P (c ∷ cs) h a = (c, rw (===_refl c.key) refl, a.0)

is_associated_in-hit :
    (keys : Keys) (item_id j : Str) (e : Entry) (cs : List ContextKey)
    → any (λ d. d.key === j) cs ≡ true
    → lookup j keys ≡ some e
    → association_entry_counts j (some e) && is_same item_id (some e) ≡ true
    → is_associated_in keys item_id cs ≡ true
unfolding is_associated_in any
is_associated_in-hit keys item_id j e [] h f g = cc
is_associated_in-hit keys item_id j e (c ∷ cs) h f g = elim (Bool-cases (c.key === j)) [
  | inl same ↦ rw (===_eq c.key j same, f, g) refl
  | inr other ↦ ground (arith, is_associated_in-hit keys item_id j e cs (ground arith) f g)
]

-- A pick of an item in a window that has a key, in a store that has room for it, makes the store
-- suggest that item for that window, whatever it held before.
pub record_association_learns :
    (keys : Keys) (ctx : WindowContext) (item_id timestamp : Str) (pinned : Bool)
    → is_empty item_id ≡ false
    → is_empty (context_keys ctx pinned) ≡ false
    → total_cost (record_keys item_id timestamp pinned (context_keys ctx pinned) keys) ≤ 524288
    → is_associated (record_association keys ctx item_id timestamp pinned) ctx item_id ≡ true
unfolding record_association is_associated
record_association_learns keys ctx item_id timestamp pinned h k room =
    let (c, own, not_word) = first_key _ (context_keys ctx pinned) k (pick_keys ctx pinned) in
    let (w, x, found) =
      record_keys-found item_id timestamp pinned (context_keys ctx pinned) c.key keys own in
    rw
      (h, k, trim-within (record_keys item_id timestamp pinned (context_keys ctx pinned) keys) room)
      (is_associated_in-hit (record_keys item_id timestamp pinned (context_keys ctx pinned) keys)
        item_id c.key (picked item_id timestamp pinned w x) (context_keys ctx true)
        (context_keys-words ctx (λ d. d.key === c.key) pinned own) found
        (rw
          (
            picked-counts item_id timestamp c.key pinned w x not_word,
            picked-same item_id timestamp pinned w x,
          )
          refl))

-- An entry of a store.
abbrev pub IsEntry : Str × Entry → Keys → Type 0
IsEntry p [] = ⊥
IsEntry p (q ∷ rest) = (p ≡ q) ⊎ IsEntry p rest

entries : (keys : Keys) → All (λ p. IsEntry p keys) keys
entries [] = tt
entries (p ∷ rest) = (inl refl, All-map (λ q h. inr h) rest (entries rest))

-- An ordinary pick, one that is no pin, teaches no word of the window's title: a word entry of the
-- store after it is one that stood there before, unchanged.
pub record_association_no_words :
    (keys : Keys) (ctx : WindowContext) (item_id timestamp : Str)
    → All
        (λ p. (is_word_key p.0 ≡ false) ⊎ IsEntry p keys)
        (record_association keys ctx item_id timestamp false)
unfolding record_association
record_association_no_words keys ctx item_id timestamp =
    let P : Str × Entry → Type 0 = λ p. (is_word_key p.0 ≡ false) ⊎ IsEntry p keys in
    let old : All P keys = All-map (λ p h. inr h) keys (entries keys) in
    elim (Bool-cases (is_empty (context_keys ctx false) || is_empty item_id)) [
      | inl idle ↦ rw idle old
      | inr picks ↦ rw picks (
          trim-All P (record_keys item_id timestamp false (context_keys ctx false) keys) (
            record_keys-All item_id timestamp false P (context_keys ctx false) keys
              (All-map (λ c h w x. inl h) (context_keys ctx false) (context_keys-not_words ctx))
              old))
    ]
