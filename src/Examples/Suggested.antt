-- ===== src/Examples/Suggested.antt =====
-- Suggestions on concrete data.
use dms_bitwarden_cli.Common.{
  ◌≤◌, ◌≡◌, refl, true, false, leb, none, some, [], ◌∷◌, length, map, All, Str, codes,
}
use dms_bitwarden_cli.Sites.Hosts.{detect_domain_in_text, item_domains}
use dms_bitwarden_cli.Associations.Store.{WindowContext}
use dms_bitwarden_cli.Items.{Item, to_list}
use dms_bitwarden_cli.Suggestions.{max_suggestions}
use dms_bitwarden_cli.Suggestions.Scores.{match_item, find_contextual_matches}
use dms_bitwarden_cli.Suggestions.Shown.{IsSuggested, find_contextual_matches-IsSuggested}
use dms_bitwarden_cli.Suggestions.Direct.{is_shared_by, match_item-shared}

abbrev same_case : Str → Str
same_case s = s

abbrev login_at : Str → Str → Str → Item
login_at id name uri = record {
  id = id;
  organization_id = [];
  folder_id = [];
  name = name;
  type = codes "login";
  favorite = false;
  username = [];
  uris = uri ∷ [];
  reprompt = 0;
  public_key = [];
  fingerprint = [];
  card = none;
  identity = none;
  notes = [];
}

abbrev forum_login : Item
forum_login = login_at (codes "a") (codes "forum") (codes "https://me@forum.bbc.co.uk:8080/x")

abbrev word_login : Item
word_login = login_at (codes "b") (codes "news") (codes "https://example.org")

abbrev news_window : WindowContext
news_window = record {
  cls_squashed = codes "firefox";
  title = codes "news | www.bbc.co.uk";
  match_text = codes "news |";
  squashed_title = codes "newswwwbbccouk";
  squashed_match_text = codes "news";
  segments = codes "news" ∷ codes "www.bbc.co.uk" ∷ [];
  title_tokens = codes "bbc" ∷ [];
  alias_tokens = [];
  display_name = codes "bbc.co.uk";
  detected_domain = detect_domain_in_text same_case (codes "news | www.bbc.co.uk");
  is_browser = true;
  is_terminal = false;
}

-- The address and the title have the same registrable domain.
shared_score : match_item same_case forum_login news_window ≡ 96
unfolding match_item detect_domain_in_text
shared_score = refl

word_score_92 : match_item same_case word_login news_window ≡ 92
unfolding match_item detect_domain_in_text
word_score_92 = refl

only_shared :
    map
      (λ a. a.id)
      ((find_contextual_matches same_case
        (word_login ∷ forum_login ∷ [])
        (some news_window)
        []).matches)
    ≡ codes "a" ∷ []
unfolding find_contextual_matches detect_domain_in_text
only_shared = refl

-- A label that every object inherits is taken for an accepted suffix.
inherited_suffix :
    detect_domain_in_text same_case (codes "see new foo.constructor")
    ≡ some (record {
      host = codes "foo.constructor";
      base_domain = codes "foo.constructor";
      root_name = codes "foo";
      is_ip = false;
    })
unfolding detect_domain_in_text
inherited_suffix = refl

find_contextual_matches-IsSuggested_example :
    All (IsSuggested same_case (word_login ∷ forum_login ∷ []) news_window []) (
      (find_contextual_matches same_case
        (word_login ∷ forum_login ∷ [])
        (some news_window)
        []).matches)
    × (length (
          (find_contextual_matches same_case
            (word_login ∷ forum_login ∷ [])
            (some news_window)
            []).matches)
        ≤ max_suggestions)
find_contextual_matches-IsSuggested_example =
    find_contextual_matches-IsSuggested same_case (word_login ∷ forum_login ∷ []) news_window []

match_item-shared_example :
    leb 96 (match_item same_case forum_login news_window)
    ≡ is_shared_by news_window.detected_domain (item_domains same_case (to_list forum_login.uris))
match_item-shared_example = match_item-shared same_case forum_login news_window
