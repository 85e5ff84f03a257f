-- ===== src/Suggestions.antt =====
-- The items that the panel suggests for the focused window (BitwardenModel.js, `directDomainScore` to
-- `findContextualMatches`). An item is a row of
-- `parseItems`, whose `type` is "login" if its `typeCode` is 1.
pub mod Scores
pub mod Shown
pub mod Direct
use dms_bitwarden_cli.Common.{
  ℕ, ◌+◌, ◌*◌, ◌-◌, min, max, Bool, true, false, not, ◌&&◌, ◌||◌, Option, none, some, List, [], ◌∷◌,
  ◌++◌, ltb, leb, ◌==◌, if◌then◌else◌, length, take, is_empty, filter, any, all, Str, codes, ◌===◌,
  includes,
}
use dms_bitwarden_cli.Sites.{Domain, has_text}
use dms_bitwarden_cli.Sites.Names.{generic_labels, tlds, is_listed}
use dms_bitwarden_cli.Sites.Hosts.{has_whole_word}
use dms_bitwarden_cli.Associations.{Keys}
use dms_bitwarden_cli.Associations.Store.{WindowContext}
use dms_bitwarden_cli.Associations.Matches.{Match, learned_match_ids}
use dms_bitwarden_cli.Items.{Item}

-- Domain to domain: the loop, with its score so far.
unfoldable pub direct_from : ℕ → Domain → List Domain → ℕ
unfolding ◌===◌
direct_from score d [] = score
direct_from score d (a ∷ ds) =
    let rest = direct_from score d ds in
    let better = direct_from (max score 96) d ds in
    if a.host === d.host
    then 100
    else if not (is_empty a.base_domain) && a.base_domain === d.base_domain
    then better
    else rest

unfoldable pub direct_domain_score : List Domain → Option Domain → ℕ
unfolding direct_from
direct_domain_score domains none = 0
direct_domain_score domains (some d) = direct_from 0 d domains

abbrev pub is_weak_root : Str → Bool
is_weak_root root =
    is_empty root || ltb (length root) 3 || is_listed generic_labels root || is_listed tlds root

-- What one domain adds to `domainTitleScore`.
unfoldable pub root_score : WindowContext → Str → ℕ
unfolding is_listed has_whole_word includes any ◌===◌
root_score ctx root =
    if is_weak_root root
    then 0
    else if has_whole_word ctx.match_text root
    then 90
    else if leb 5 (length root) && includes root ctx.squashed_match_text
    then 88
    else if has_text root ctx.alias_tokens
    then 86
    else 0

unfoldable pub domain_title_score : List Domain → WindowContext → ℕ
unfolding root_score
domain_title_score [] ctx = 0
domain_title_score (d ∷ ds) ctx = max (root_score ctx d.root_name) (domain_title_score ds ctx)

-- The words that the item's name shares with the title.
unfoldable pub shared_title_token_score : List Str → List Str → ℕ
unfolding filter any ◌===◌
shared_title_token_score name_tokens title_tokens =
    let overlap = length (filter (λ w. has_text w title_tokens) name_tokens) in
    if ltb 0 overlap then 78 + min overlap 3 * 2 else 0

abbrev pub is_class_root : Str → Domain → Bool
is_class_root cls d =
    not (is_empty d.root_name)
    && leb 3 (length d.root_name)
    && not (is_listed generic_labels d.root_name)
    && d.root_name === cls

unfoldable pub native_app_score : List Domain → Str → WindowContext → ℕ
unfolding any is_listed ◌===◌ includes
native_app_score domains name ctx =
    let cls = ctx.cls_squashed in
    let by_root = if any (is_class_root cls) domains then 92 else 0 in
    if ctx.is_browser || ctx.is_terminal || ltb (length cls) 3
    then 0
    else if leb 3 (length name) && (name === cls || includes cls name || includes name cls)
    then max by_root 88
    else by_root

unfoldable pub is_login_item : Item → Bool
unfolding ◌===◌
is_login_item item = item.type === codes "login"

abbrev pub match_threshold : ℕ
match_threshold = 80

abbrev pub max_suggestions : ℕ
max_suggestions = 6

pub record Scored : Type 0 where
  pub item : Item
  pub score : ℕ
  pub index : ℕ

-- `compareContextualMatches(a, b) < 0`.
unfoldable pub scored_before : Scored → Scored → Bool
scored_before a b =
    let by_index = ltb a.index b.index in
    let by_favorite : Bool = elim a.item.favorite [
      | true ↦ if b.item.favorite then by_index else true
      | false ↦ if b.item.favorite then false else by_index
    ] in
    if not (b.score == a.score) then ltb b.score a.score else by_favorite

unfoldable pub cutoff : ℕ → ℕ
cutoff best = if leb 96 best then 96 else max match_threshold (best - 8)

pub record Learned : Type 0 where
  pub matches : List Item
  pub ids : List Str

abbrev pub add_learned : Option Item → Learned → Learned
add_learned none l = l
add_learned (some item) l =
    if is_login_item item then record { matches = item ∷ l.matches; ids = item.id ∷ l.ids } else l

-- `byId[id]`: of the items with the id the last one counts; an item without an id is in no place.
unfoldable pub by_id : Str → List Item → Option Item
unfolding ◌===◌
by_id id [] = none
by_id id (a ∷ items) = elim (by_id id items) [
  | some b ↦ some b
  | none ↦ if not (is_empty a.id) && a.id === id then some a else none
]

unfoldable pub resolve_ids : List Item → List Match → Learned
unfolding by_id is_login_item
resolve_ids items [] = record { matches = []; ids = [] }
resolve_ids items (m ∷ ms) = add_learned (by_id m.item_id items) (resolve_ids items ms)

unfoldable pub resolve_learned_matches : List Item → Keys → WindowContext → Learned
unfolding resolve_ids learned_match_ids
resolve_learned_matches items keys ctx = resolve_ids items (learned_match_ids keys ctx)

-- The loop over the scored items, `matches` growing at its end.
unfoldable pub fill_matches : ℕ → List Str → List Item → List Scored → List Item
unfolding any ◌===◌
fill_matches least ids matches [] = matches
fill_matches least ids matches (s ∷ scored) =
    let next = fill_matches least ids matches scored in
    let more = fill_matches least ids (matches ++ s.item ∷ []) scored in
    if leb max_suggestions (length matches)
    then matches
    else if leb least s.score && not (has_text s.item.id ids)
    then more
    else next

pub record Suggestions : Type 0 where
  pub matches : List Item
  pub context : Option WindowContext
  pub learned_ids : List Str

abbrev pub no_suggestions : Suggestions
no_suggestions = record { matches = []; context = none; learned_ids = [] }

abbrev pub first_score : List Scored → ℕ
first_score [] = 0
first_score (s ∷ scored) = s.score

unfoldable pub suggested : WindowContext → Learned → List Scored → Suggestions
unfolding fill_matches cutoff
suggested ctx learned sorted =
    if is_empty sorted && is_empty learned.matches
    then no_suggestions
    else if is_empty sorted
    then record {
      matches = take max_suggestions learned.matches;
      context = some ctx;
      learned_ids = learned.ids;
    }
    else record {
      matches =
          take max_suggestions
            (fill_matches (cutoff (first_score sorted)) learned.ids learned.matches sorted);
      context = some ctx;
      learned_ids = learned.ids;
    }
