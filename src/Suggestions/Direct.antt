-- ===== src/Suggestions/Direct.antt =====
-- A hit on the site outranks every hit on words.
use dms_bitwarden_cli.Common.{
  ℕ, ◌+◌, ◌*◌, ◌≤◌, min, max, ◌≡◌, refl, sym, ◌∙◌, inl, inr, Bool, true, false, not, ◌&&◌, ◌||◌,
  Option, none, some, List, [], ◌∷◌, arith, ltb, leb, ◌==◌, Bool-cases, length, is_empty, any,
  filter, Str, ◌===◌, includes, if◌then◌else◌,
}
use mathlib.Core.Bool.{or-false, false≢true}
use dms_bitwarden_cli.Sites.{Domain, has_text}
use dms_bitwarden_cli.Sites.Hosts.{squash, extract_tokens, item_domains, has_whole_word}
use dms_bitwarden_cli.Associations.Store.{WindowContext}
use dms_bitwarden_cli.Items.{Item, to_list}
use dms_bitwarden_cli.Suggestions.{
  direct_from, direct_domain_score, is_weak_root, root_score, domain_title_score,
  shared_title_token_score, is_class_root, native_app_score,
}
use dms_bitwarden_cli.Suggestions.Scores.{is_none, item_name_title_score, word_score, match_item}

-- A domain with the host of the window, or with its registrable domain.
unfoldable pub is_shared : Domain → Domain → Bool
unfolding ◌===◌
is_shared d a =
    a.host === d.host || (not (is_empty a.base_domain) && a.base_domain === d.base_domain)

unfoldable pub is_shared_by : Option Domain → List Domain → Bool
unfolding any is_shared
is_shared_by none ds = false
is_shared_by (some d) ds = any (is_shared d) ds

if-le : (b : Bool) (m n k : ℕ) → m ≤ k → n ≤ k → (if b then m else n) ≤ k
if-le true m n k h j = h
if-le false m n k h j = j

direct_from-cons :
    (score : ℕ) (d a : Domain) (ds : List Domain)
    → direct_from score d (a ∷ ds) ≡ (
        if a.host === d.host
        then 100
        else if not (is_empty a.base_domain) && a.base_domain === d.base_domain
        then direct_from (max score 96) d ds
        else direct_from score d ds)
unfolding direct_from
direct_from-cons score d a ds = refl

direct_from-shared :
    (score : ℕ) (d : Domain) (ds : List Domain)
    → score ≤ 96
    → leb 96 (direct_from score d ds) ≡ (any (is_shared d) ds || leb 96 score)
unfolding any is_shared
direct_from-shared score d [] h = unfold direct_from in refl
direct_from-shared score d (a ∷ ds) h =
    rw (direct_from-cons score d a ds) (elim (Bool-cases (a.host === d.host)) [
      | inl host ↦ rw host refl
      | inr other ↦
          rw other
            (elim (Bool-cases (not (is_empty a.base_domain) && a.base_domain === d.base_domain)) [
              | inl base ↦
                  rw (base, direct_from-shared (max score 96) d ds (omega (arith, h)))
                    (ground arith)
              | inr no_base ↦ rw (no_base, direct_from-shared score d ds h) refl
            ])
    ])

direct-shared :
    (ds : List Domain) (d : Option Domain) → leb 96 (direct_domain_score ds d) ≡ is_shared_by d ds
unfolding direct_domain_score is_shared_by
direct-shared ds none = refl
direct-shared ds (some d) =
    direct_from-shared 0 d ds (omega arith) ∙ or-false (any (is_shared d) ds)

root_score-le : (ctx : WindowContext) (root : Str) → root_score ctx root ≤ 90
unfolding root_score
root_score-le ctx root = if-le (is_weak_root root) 0 _ 90 (omega arith) (
    if-le (has_whole_word ctx.match_text root) 90 _ 90 (omega arith) (
      if-le (leb 5 (length root) && includes root ctx.squashed_match_text) 88 _ 90 (omega arith)
        (if-le (has_text root ctx.alias_tokens) 86 0 90 (omega arith) (omega arith))))

domain_title_score-le : (ds : List Domain) (ctx : WindowContext) → domain_title_score ds ctx ≤ 90
unfolding domain_title_score
domain_title_score-le [] ctx = omega arith
domain_title_score-le (d ∷ ds) ctx =
    omega (arith, root_score-le ctx d.root_name, domain_title_score-le ds ctx)

shared_title_token_score-le : (a b : List Str) → shared_title_token_score a b ≤ 84
unfolding shared_title_token_score
shared_title_token_score-le a b =
    let overlap = length (filter (λ w. has_text w b) a) in
    if-le (ltb 0 overlap) (78 + min overlap 3 * 2) 0 84 (omega arith) (omega arith)

native_app_score-le :
    (ds : List Domain) (name : Str) (ctx : WindowContext) → native_app_score ds name ctx ≤ 92
unfolding native_app_score
native_app_score-le ds name ctx =
    let cls = ctx.cls_squashed in
    let by_root : ℕ = if any (is_class_root cls) ds then 92 else 0 in
    let root : by_root ≤ 92 =
      if-le (any (is_class_root cls) ds) 92 0 92 (omega arith) (omega arith) in
    if-le (ctx.is_browser || ctx.is_terminal || ltb (length cls) 3) 0 _ 92 (omega arith) (
      if-le (leb 3 (length name) && (name === cls || includes cls name || includes name cls))
        (max by_root 88) by_root 92 (omega (arith, root)) root)

hidden-shared :
    (terminal : Bool) (d : Option Domain) (ds : List Domain)
    → (terminal && is_none d) ≡ true
    → is_shared_by d ds ≡ false
unfolding is_shared_by
hidden-shared terminal none ds h = refl
hidden-shared true (some d) ds h = absurd (false≢true h)
hidden-shared false (some d) ds h = absurd (false≢true h)

best-direct : (direct words : ℕ) → words ≤ 92 → leb 96 (max direct words) ≡ leb 96 direct
best-direct direct words h = ground arith

hit-direct : (direct : ℕ) → (direct == 100) ≡ true → leb 96 direct ≡ true
hit-direct direct h = ground arith

module _ (lower : Str → Str) where
  item_name_title_score-le :
      (name : Str) (ctx : WindowContext) → item_name_title_score lower name ctx ≤ 92
  unfolding item_name_title_score
  item_name_title_score-le name ctx =
      let by_segment : ℕ = if any (λ s. squash lower s === name) ctx.segments then 92 else 0 in
      let segment : by_segment ≤ 92 =
        if-le (any (λ s. squash lower s === name) ctx.segments) 92 0 92 (omega arith)
          (omega arith) in
      if-le (ltb (length name) 3) 0 _ 92 (omega arith) (
        if-le (leb 5 (length name) && includes name ctx.squashed_title) (max by_segment 84)
          by_segment 92 (omega (arith, segment)) segment)

  word_score-le : (item : Item) (ctx : WindowContext) → word_score lower item ctx ≤ 92
  unfolding word_score
  word_score-le item ctx =
      let domains = item_domains lower (to_list item.uris) in
      let name = squash lower item.name in
      omega (
        arith,
        domain_title_score-le domains ctx,
        item_name_title_score-le name ctx,
        shared_title_token_score-le (extract_tokens lower item.name) ctx.title_tokens,
        native_app_score-le domains name ctx,
      )

  -- An item scores 96 or more for a window, whatever its name and its title say, exactly if the
  -- window shows a host and one of the item's addresses has that host or its registrable domain; hits
  -- on words stay at 92 or below.
  pub match_item-shared :
      (item : Item) (ctx : WindowContext)
      → leb 96 (match_item lower item ctx)
        ≡ is_shared_by ctx.detected_domain (item_domains lower (to_list item.uris))
  unfolding match_item
  match_item-shared item ctx =
      let domains = item_domains lower (to_list item.uris) in
      let direct = direct_domain_score domains ctx.detected_domain in
      let shared = direct-shared domains ctx.detected_domain in
      elim (Bool-cases (ctx.is_terminal && is_none ctx.detected_domain)) [
        | inl hidden ↦
            rw hidden (sym (hidden-shared ctx.is_terminal ctx.detected_domain domains hidden))
        | inr shown ↦ rw shown (elim (Bool-cases (direct == 100)) [
          | inl hit ↦ rw hit (sym (hit-direct direct hit) ∙ shared)
          | inr miss ↦
              rw miss
                (best-direct direct (word_score lower item ctx) (word_score-le item ctx) ∙ shared)
        ])
      ]
