-- ===== src/Suggestions/Scores.antt =====
-- The score of an item for a window, and the suggestions (BitwardenModel.js, `itemNameTitleScore`,
-- `matchItem`, `scoreContextualMatches` and `findContextualMatches`).
use dms_bitwarden_cli.Common.{
  ℕ, suc, max, Bool, true, false, ◌&&◌, ◌||◌, Option, none, some, List, [], ◌∷◌, ltb, leb, ◌==◌,
  if◌then◌else◌, length, is_empty, any, Str, ◌===◌, includes, sort_by,
}
use dms_bitwarden_cli.Sites.Hosts.{squash, extract_tokens, item_domains}
use dms_bitwarden_cli.Associations.{Keys}
use dms_bitwarden_cli.Associations.Store.{WindowContext}
use dms_bitwarden_cli.Items.{Item, to_list}
use dms_bitwarden_cli.Suggestions.{
  direct_domain_score, domain_title_score, shared_title_token_score, native_app_score,
  is_login_item, match_threshold, Scored, scored_before, resolve_learned_matches, Suggestions,
  no_suggestions, suggested,
}

abbrev pub is_none : {A : Type 0} → Option A → Bool
is_none none = true
is_none (some a) = false

module _ (lower : Str → Str) where
  unfoldable pub item_name_title_score : Str → WindowContext → ℕ
  unfolding any squash includes ◌===◌
  item_name_title_score name ctx =
      let by_segment = if any (λ s. squash lower s === name) ctx.segments then 92 else 0 in
      if ltb (length name) 3
      then 0
      else if leb 5 (length name) && includes name ctx.squashed_title
      then max by_segment 84
      else by_segment

  -- The best of the scores below that of a direct hit.
  unfoldable pub word_score : Item → WindowContext → ℕ
  unfolding item_domains squash extract_tokens domain_title_score item_name_title_score
      shared_title_token_score native_app_score
  word_score item ctx =
      let domains = item_domains lower (to_list item.uris) in
      let name = squash lower item.name in
      max
        (max (max (domain_title_score domains ctx) (item_name_title_score name ctx))
          (shared_title_token_score (extract_tokens lower item.name) ctx.title_tokens))
        (native_app_score domains name ctx)

  unfoldable pub match_item : Item → WindowContext → ℕ
  unfolding item_domains direct_domain_score word_score
  match_item item ctx =
      let direct =
        direct_domain_score (item_domains lower (to_list item.uris)) ctx.detected_domain in
      if ctx.is_terminal && is_none ctx.detected_domain
      then 0
      else if direct == 100
      then 100
      else max direct (word_score item ctx)

  -- The loop over the items, from index `i` on.
  unfoldable pub score_from : ℕ → List Item → WindowContext → List Scored
  unfolding is_login_item match_item
  score_from i [] ctx = []
  score_from i (a ∷ items) ctx =
      let rest = score_from (suc i) items ctx in
      let here = record { item = a; score = match_item a ctx; index = i } ∷ rest in
      if is_login_item a && leb match_threshold (match_item a ctx) then here else rest

  unfoldable pub score_contextual_matches : List Item → WindowContext → List Scored
  unfolding score_from
  score_contextual_matches items ctx = score_from 0 items ctx

  -- `ctx` is what `cleanWindowContext(windowData)` gives.
  unfoldable pub find_contextual_matches : List Item → Option WindowContext → Keys → Suggestions
  unfolding resolve_learned_matches score_contextual_matches sort_by scored_before suggested
  find_contextual_matches items none keys = no_suggestions
  find_contextual_matches items (some ctx) keys =
      if is_empty items
        || (ctx.is_terminal && is_none ctx.detected_domain)
        || (is_empty ctx.title && is_none ctx.detected_domain && is_empty ctx.cls_squashed)
      then no_suggestions
      else suggested ctx (resolve_learned_matches items keys ctx)
          (sort_by scored_before (score_contextual_matches items ctx))
