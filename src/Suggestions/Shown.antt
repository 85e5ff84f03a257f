-- ===== src/Suggestions/Shown.antt =====
-- What is suggested.
use dms_bitwarden_cli.Common.{
  sort-All, ℕ, suc, ◌≤◌, max, ◌≡◌, refl, sym, ap, ===_eq, ===_refl, ◌∙◌, ◌⊎◌, inl, inr, Bool, true,
  false, not, ◌&&◌, ◌||◌, none, some, List, [], ◌∷◌, ◌++◌, arith, leb, leb→le, ==_iff, ◌==◌,
  Bool-cases, Option-cases, length, is_empty, any, All, length-take, All-take, All-map, Str, ◌===◌,
  sort_by, insert_by, if◌then◌else◌, All-append,
}
use mathlib.Core.Bool.{and-eq-true_iff}
use mathlib.Core.List.{Memᴰ}
use mathlib.Core.Option.{some-injective, none-ne-some}
use dms_bitwarden_cli.Sites.{has_text}
use dms_bitwarden_cli.Associations.{Keys}
use dms_bitwarden_cli.Associations.Store.{WindowContext}
use dms_bitwarden_cli.Associations.Matches.{Match, learned_match_ids}
use dms_bitwarden_cli.Items.{Item}
use dms_bitwarden_cli.Suggestions.{
  is_login_item, match_threshold, max_suggestions, Scored, scored_before, cutoff, Learned,
  add_learned, by_id, resolve_ids, resolve_learned_matches, fill_matches, first_score, suggested,
}
use dms_bitwarden_cli.Suggestions.Scores.{
  match_item, score_from, score_contextual_matches, find_contextual_matches, is_none,
}

-- The highest of the scores.
abbrev pub top_score : List Scored → ℕ
top_score [] = 0
top_score (s ∷ scored) = max s.score (top_score scored)

scored_before-le : (a b : Scored) → scored_before a b ≡ true → b.score ≤ a.score
unfolding scored_before
scored_before-le a b e = elim (Bool-cases (b.score == a.score)) [
  | inl same ↦ omega (arith, (==_iff b.score a.score).0 same)
  | inr less ↦ ground arith
]

not-scored_before-le : (a b : Scored) → scored_before a b ≡ false → a.score ≤ b.score
unfolding scored_before
not-scored_before-le a b e = elim (Bool-cases (b.score == a.score)) [
  | inl same ↦ omega (arith, (==_iff b.score a.score).0 same)
  | inr less ↦ ground arith
]

first_score-insert :
    (s : Scored) (l : List Scored)
    → first_score l ≡ top_score l
    → first_score (insert_by scored_before s l) ≡ max s.score (top_score l)
unfolding insert_by
first_score-insert s [] h = omega arith
first_score-insert s (t ∷ l) h = elim (Bool-cases (scored_before t s)) [
  | inl e ↦ rw e (omega (arith, h, scored_before-le t s e))
  | inr e ↦ rw e (omega (arith, h, not-scored_before-le t s e))
]

top_score-insert :
    (s : Scored) (l : List Scored)
    → top_score (insert_by scored_before s l) ≡ max s.score (top_score l)
unfolding insert_by
top_score-insert s [] = refl
top_score-insert s (t ∷ l) = elim (Bool-cases (scored_before t s)) [
  | inl e ↦ rw e (omega (arith, top_score-insert s l))
  | inr e ↦ rw e refl
]

first_score-sort :
    (l : List Scored) → first_score (sort_by scored_before l) ≡ top_score (sort_by scored_before l)
unfolding sort_by
first_score-sort [] = refl
first_score-sort (s ∷ l) =
    let sorted = sort_by scored_before l in
    first_score-insert s sorted (first_score-sort l) ∙ sym (top_score-insert s sorted)

top_score-sort : (l : List Scored) → top_score (sort_by scored_before l) ≡ top_score l
unfolding sort_by
top_score-sort [] = refl
top_score-sort (s ∷ l) =
    omega (arith, top_score-insert s (sort_by scored_before l), top_score-sort l)

-- The items that the store has for the window, in their order.
abbrev pub is_learned : List Match → Str → Bool
is_learned ms id = any (λ m. m.item_id === id) ms

by_id-later :
    (id : Str) (b : Item) (items : List Item) (c : Item)
    → by_id id items ≡ some c
    → by_id id (b ∷ items) ≡ some c
unfolding by_id
by_id-later id b items c f = rw (by_id, f) refl

by_id-here :
    (id : Str) (b : Item) (items : List Item)
    → by_id id items ≡ none
    → by_id id (b ∷ items) ≡ (if not (is_empty b.id) && b.id === id then some b else none)
unfolding by_id
by_id-here id b items f = rw (by_id, f) refl

by_id-first :
    (id : Str) (b : Item) (items : List Item) (a : Item)
    → (if not (is_empty b.id) && b.id === id then some b else none) ≡ some a
    → Memᴰ a (b ∷ items) × (a.id ≡ id)
by_id-first id b items a e = elim (Bool-cases (not (is_empty b.id) && b.id === id)) [
  | inl g ↦
      let same : b ≡ a = some-injective b a (rw g at e) in
      (Memᴰ.head (sym same), ap (λ c. c.id) (sym same) ∙ ===_eq b.id id (ground arith))
  | inr g ↦ absurd (none-ne-some a (rw g at e))
]

by_id-found :
    (id : Str) (items : List Item) (a : Item) → by_id id items ≡ some a → Memᴰ a items × (a.id ≡ id)
by_id-found id [] a e = absurd (none-ne-some a (unfold by_id in e))
by_id-found id (b ∷ items) a e = elim (Option-cases (by_id id items)) [
  | inr (c, f) ↦
      let same : some c ≡ some a = sym (by_id-later id b items c f) ∙ e in
      let (m, i) = by_id-found id items a (f ∙ same) in (Memᴰ.tail m, i)
  | inl f ↦ by_id-first id b items a (sym (by_id-here id b items f) ∙ e)
]

-- A score that counts.
abbrev gate : ℕ → ℕ
gate n = if leb match_threshold n then n else 0

gate-high : (m b : ℕ) → match_threshold ≤ m → max m (gate b) ≡ gate (max m b)
gate-high m b h = ground arith

gate-low : (m b : ℕ) → leb match_threshold m ≡ false → gate b ≡ gate (max m b)
gate-low m b h = ground arith

top_score-le : (l : List Scored) → All (λ s. s.score ≤ top_score l) l
top_score-le [] = tt
top_score-le (s ∷ l) = (omega arith, All-map (λ t h. omega (arith, h)) l (top_score-le l))

is_learned_self : (ms : List Match) → All (λ m. is_learned ms m.item_id ≡ true) ms
unfolding any
is_learned_self [] = tt
is_learned_self (m ∷ ms) =
    (rw (===_refl m.item_id) refl, All-map (λ n h. ground (arith, h)) ms (is_learned_self ms))

resolve_ids-cons :
    (items : List Item) (m : Match) (ms : List Match)
    → resolve_ids items (m ∷ ms) ≡ add_learned (by_id m.item_id items) (resolve_ids items ms)
unfolding resolve_ids
resolve_ids-cons items m ms = refl

fill_matches-cons :
    (least : ℕ) (ids : List Str) (matches : List Item) (s : Scored) (scored : List Scored)
    → fill_matches least ids matches (s ∷ scored) ≡ (
        if leb max_suggestions (length matches)
        then matches
        else if leb least s.score && not (has_text s.item.id ids)
        then fill_matches least ids (matches ++ s.item ∷ []) scored
        else fill_matches least ids matches scored)
unfolding fill_matches
fill_matches-cons least ids matches s scored = refl

module _ (lower : Str → Str) where
  -- The best score of a login.
  unfoldable pub best_score : List Item → WindowContext → ℕ
  best_score [] ctx = 0
  best_score (a ∷ items) ctx =
      if is_login_item a
      then max (match_item lower a ctx) (best_score items ctx)
      else best_score items ctx

  best_score-cons :
      (a : Item) (items : List Item) (ctx : WindowContext)
      → best_score (a ∷ items) ctx ≡ (
          if is_login_item a
          then max (match_item lower a ctx) (best_score items ctx)
          else best_score items ctx)
  unfolding best_score
  best_score-cons a items ctx = refl

  -- What a suggested item is: a login of the list that was picked for such a window before, or whose
  -- score is at most eight below the best one, at least 80, and at least 96 if the best one is.
  pub record IsSuggested (items : List Item) (ctx : WindowContext) (keys : Keys) (a : Item)
      : Type 0 where
    pub listed : Memᴰ a items
    pub login : is_login_item a ≡ true
    pub earned :
        (is_learned (learned_match_ids keys ctx) a.id ≡ true)
        ⊎ (cutoff (best_score items ctx) ≤ match_item lower a ctx)

  abbrev IsScored : List Item → WindowContext → Scored → Type 0
  IsScored items ctx s =
      Memᴰ s.item items
      × (is_login_item s.item ≡ true)
      × (s.score ≡ match_item lower s.item ctx)
      × (match_threshold ≤ s.score)

  score_from-cons :
      (i : ℕ) (a : Item) (items : List Item) (ctx : WindowContext)
      → score_from lower i (a ∷ items) ctx ≡ (
          if is_login_item a && leb match_threshold (match_item lower a ctx)
          then record { item = a; score = match_item lower a ctx; index = i }
            ∷ score_from lower (suc i) items ctx
          else score_from lower (suc i) items ctx)
  unfolding score_from
  score_from-cons i a items ctx = refl

  score_from-IsScored :
      (i : ℕ) (items : List Item) (ctx : WindowContext)
      → All (IsScored items ctx) (score_from lower i items ctx)
  score_from-IsScored i [] ctx = unfold score_from in tt
  score_from-IsScored i (a ∷ items) ctx =
      let rest : All (IsScored (a ∷ items) ctx) (score_from lower (suc i) items ctx) =
        All-map (λ s h. (Memᴰ.tail h.0, h.1, h.2, h.3)) (score_from lower (suc i) items ctx)
          (score_from-IsScored (suc i) items ctx) in
      rw (score_from-cons i a items ctx)
        (elim (Bool-cases (is_login_item a && leb match_threshold (match_item lower a ctx))) [
          | inl e ↦
              let (login, high) =
                (and-eq-true_iff (is_login_item a) (leb match_threshold (match_item lower a ctx))).0
                  e in
              rw e (
                (Memᴰ.head refl, login, refl, leb→le match_threshold (match_item lower a ctx) high),
                rest,
              )
          | inr e ↦ rw e rest
        ])

  top_score-from :
      (i : ℕ) (items : List Item) (ctx : WindowContext)
      → top_score (score_from lower i items ctx) ≡ gate (best_score items ctx)
  top_score-from i [] ctx = unfold score_from best_score in refl
  top_score-from i (a ∷ items) ctx =
      let h = top_score-from (suc i) items ctx in
      let m = match_item lower a ctx in
      rw (score_from-cons i a items ctx, best_score-cons a items ctx)
        (elim (Bool-cases (is_login_item a)) [
          | inl e ↦ rw e (elim (Bool-cases (leb match_threshold m)) [
            | inl g ↦ rw (g, h) (gate-high m (best_score items ctx) (leb→le match_threshold m g))
            | inr g ↦ rw (g, h) (gate-low m (best_score items ctx) g)
          ])
          | inr e ↦ rw e h
        ])

  -- The items of the store, in the list.
  resolve_ids-IsSuggested :
      (items : List Item) (ctx : WindowContext) (keys : Keys) (ms : List Match)
      → All (λ m. is_learned (learned_match_ids keys ctx) m.item_id ≡ true) ms
      → All (IsSuggested items ctx keys) ((resolve_ids items ms).matches)
  resolve_ids-IsSuggested items ctx keys [] h = unfold resolve_ids in tt
  resolve_ids-IsSuggested items ctx keys (m ∷ ms) (known, h) =
      let rest = resolve_ids-IsSuggested items ctx keys ms h in
      rw (resolve_ids-cons items m ms) (elim (Option-cases (by_id m.item_id items)) [
        | inl e ↦ rw e rest
        | inr (a, e) ↦ rw e (elim (Bool-cases (is_login_item a)) [
          | inl login ↦
              let (found, same) = by_id-found m.item_id items a e in
              rw login
                (record { listed = found; login = login; earned = inl (rw same known) }, rest)
          | inr other ↦ rw other rest
        ])
      ])

  fill_matches-All :
      (P : Item → Type 0) (least : ℕ) (ids : List Str) (matches : List Item) (scored : List Scored)
      → All P matches
      → All (λ s. least ≤ s.score → P s.item) scored
      → All P (fill_matches least ids matches scored)
  fill_matches-All P least ids matches [] h k = unfold fill_matches in h
  fill_matches-All P least ids matches (s ∷ scored) h (good, k) =
      rw (fill_matches-cons least ids matches s scored)
        (elim (Bool-cases (leb max_suggestions (length matches))) [
          | inl full ↦ rw full h
          | inr room ↦
              rw room (elim (Bool-cases (leb least s.score && not (has_text s.item.id ids))) [
                | inl e ↦
                    let high =
                      (and-eq-true_iff (leb least s.score) (not (has_text s.item.id ids))).0 e in
                    rw e (
                      fill_matches-All P least ids (matches ++ s.item ∷ []) scored
                        (All-append P matches (s.item ∷ []) h
                          (good (leb→le least s.score high.0), tt))
                        k)
                | inr e ↦ rw e (fill_matches-All P least ids matches scored h k)
              ])
        ])

  counted-IsSuggested :
      (items : List Item) (ctx : WindowContext) (keys : Keys) (first : ℕ) (l : List Scored)
      → first ≡ gate (best_score items ctx)
      → All (IsScored items ctx) l
      → All (λ s. s.score ≤ first) l
      → All (λ s. cutoff first ≤ s.score → IsSuggested items ctx keys s.item) l
  counted-IsSuggested items ctx keys first [] e h k = tt
  counted-IsSuggested items ctx keys first (s ∷ l) e ((listed, login, scored, counts), h) (top, k) =
      let best : best_score items ctx ≡ first = ground arith in
      (
        λ high. record { listed = listed; login = login; earned = inr (rw (best, ← scored) high) },
        counted-IsSuggested items ctx keys first l e h k,
      )

  scored-IsSuggested :
      (items : List Item) (ctx : WindowContext) (keys : Keys)
      → let sorted = sort_by scored_before (score_contextual_matches lower items ctx) in
        All (λ s. cutoff (first_score sorted) ≤ s.score → IsSuggested items ctx keys s.item) sorted
  unfolding score_contextual_matches
  scored-IsSuggested items ctx keys =
      let l = score_from lower 0 items ctx in
      let sorted = sort_by scored_before l in
      let first = first_score-sort l in
      counted-IsSuggested items ctx keys (first_score sorted) sorted
        (first ∙ top_score-sort l ∙ top_score-from 0 items ctx)
        (sort-All (IsScored items ctx) scored_before l (score_from-IsScored 0 items ctx))
        (rw first (top_score-le sorted))

  suggested-IsSuggested :
      (items : List Item) (ctx : WindowContext) (keys : Keys) (learned : Learned)
      (sorted : List Scored)
      → All (IsSuggested items ctx keys) learned.matches
      → All (λ s. cutoff (first_score sorted) ≤ s.score → IsSuggested items ctx keys s.item) sorted
      → All (IsSuggested items ctx keys) (suggested ctx learned sorted).matches
        × (length ((suggested ctx learned sorted).matches) ≤ max_suggestions)
  unfolding suggested
  suggested-IsSuggested items ctx keys learned sorted h k =
      let P = IsSuggested items ctx keys in
      let filled = fill_matches (cutoff (first_score sorted)) learned.ids learned.matches sorted in
      elim (Bool-cases (is_empty sorted && is_empty learned.matches)) [
        | inl none_at_all ↦ rw none_at_all (tt, omega arith)
        | inr some_at_all ↦ rw some_at_all (elim (Bool-cases (is_empty sorted)) [
          | inl no_scores ↦
              rw no_scores
                (All-take P 6 learned.matches h, omega (arith, length-take 6 learned.matches))
          | inr scores ↦ rw scores (
            All-take P 6 filled (
                fill_matches-All P (cutoff (first_score sorted)) learned.ids learned.matches sorted
                  h k),
            omega (arith, length-take 6 filled),
          )
        ])
      ]

  -- At most six items are suggested for a window; each is a login of the list that was picked for
  -- such a window before, or whose score counts, is at most eight below the best score of all logins,
  -- and is at least 96 if the best one is.
  pub find_contextual_matches-IsSuggested :
      (items : List Item) (ctx : WindowContext) (keys : Keys)
      → All
          (IsSuggested items ctx keys)
          (find_contextual_matches lower items (some ctx) keys).matches
        × (length ((find_contextual_matches lower items (some ctx) keys).matches) ≤ max_suggestions)
  unfolding find_contextual_matches
  find_contextual_matches-IsSuggested items ctx keys =
      elim (Bool-cases (
        is_empty items
        || (ctx.is_terminal && is_none ctx.detected_domain)
        || (is_empty ctx.title && is_none ctx.detected_domain && is_empty ctx.cls_squashed))) [
          | inl e ↦ rw e (tt, omega arith)
          | inr e ↦ rw e (
              suggested-IsSuggested items ctx keys (resolve_learned_matches items keys ctx)
                (sort_by scored_before (score_contextual_matches lower items ctx))
                (unfold resolve_learned_matches in
                  resolve_ids-IsSuggested items ctx keys (learned_match_ids keys ctx)
                    (is_learned_self (learned_match_ids keys ctx)))
                (scored-IsSuggested items ctx keys))
        ]
