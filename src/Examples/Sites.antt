-- ===== src/Examples/Sites.antt =====
-- Learned suggestions on concrete data.
use dms_bitwarden_cli.Common.{
  ◌≤◌, ◌≡◌, refl, ◌⊎◌, true, false, not, ◌&&◌, Option, none, some, [], ◌∷◌, if◌then◌else◌, leb→le,
  is_empty, any, all, All, Str, codes, ◌===◌, is_space, trim_start, trim_end, trim, is_lower_alnum,
}
use dms_bitwarden_cli.Js.Numbers.{nat, num_eq, number_to_string}
use dms_bitwarden_cli.Js.Values.{Value, number, string, object, end, field, prop, to_number}
use dms_bitwarden_cli.Js.Json.{stringify, quote, quote_body, quote_single, quote_unit, number_json}
use dms_bitwarden_cli.Associations.{
  Keys, parse_associations, checked_store, clean_association_entry, association_key_weight,
  is_item_id, clean_count, clean_updated, stored_keys,
}
use dms_bitwarden_cli.Associations.Store.{
  is_same, WindowContext, context_keys, is_word_key, picked, record_keys, entry_cost,
  record_association, forget_association,
}
use dms_bitwarden_cli.Associations.Matches.{names_inherited, is_associated, learned_match_ids}
use dms_bitwarden_cli.Associations.Parsing.{IsClean, parse_associations-IsClean}
use dms_bitwarden_cli.Associations.Budget.{total_cost}
use dms_bitwarden_cli.Associations.Learning.{
  IsEntry, record_association_learns, record_association_no_words,
}
use dms_bitwarden_cli.Associations.Forgetting.{forget_association_forgets}
use dms_bitwarden_cli.Associations.Agreement.{is_match, Ranked, learned_match_ids-Ranked}

abbrev window : WindowContext
window = record {
  cls_squashed = codes "firefox";
  title = codes "example.org";
  match_text = [];
  squashed_title = codes "exampleorg";
  squashed_match_text = [];
  segments = codes "example.org" ∷ [];
  title_tokens = codes "example" ∷ [];
  alias_tokens = [];
  display_name = codes "example.org";
  detected_domain = some (record {
    host = codes "example.org";
    base_domain = codes "example.org";
    root_name = codes "example";
    is_ip = false;
  });
  is_browser = true;
  is_terminal = false;
}

abbrev store : Keys
store =
    (
      codes "domain:example.org",
      record { item_id = codes "a"; weight = 3; count = 2; updated = []; pinned = false },
    )
    ∷ []

abbrev stored : Value
stored = object (
    field (codes "version") (number (nat 1)) (
      field (codes "keys")
        (object (
          field (codes "domain:example.org")
            (object (
              field (codes "itemId") (string (codes "a"))
                (field (codes "count") (number (nat 2)) end)))
            (field (codes "bogus") (object (field (codes "itemId") (string (codes "b")) end)) end)))
        end))

abbrev stored_text : Str → Option Value
stored_text s = if s === codes "STORE" then some stored else none

parse_associations-IsClean_example : All IsClean store
unfolding parse_associations trim trim_start trim_end is_space checked_store ◌===◌ stored_keys
    num_eq prop to_number clean_association_entry association_key_weight is_lower_alnum all
    is_item_id clean_count clean_updated
parse_associations-IsClean_example =
    parse_associations-IsClean stored_text (codes "STORE") store refl

window_has_key : is_empty (context_keys window true) ≡ false
unfolding context_keys
window_has_key = refl

room :
    total_cost (record_keys (codes "b") (codes "2026") true (context_keys window true) store)
    ≤ 524288
unfolding total_cost record_keys context_keys entry_cost picked stringify quote quote_body
    quote_single quote_unit number_json number_to_string is_same
room =
    leb→le
      (total_cost (record_keys (codes "b") (codes "2026") true (context_keys window true) store))
      524288 refl

record_association_learns_example :
    is_associated
      (record_association store window (codes "b") (codes "2026") true)
      window
      (codes "b")
    ≡ true
record_association_learns_example =
    record_association_learns store window (codes "b") (codes "2026") true refl window_has_key room

record_association_no_words_example :
    All
      (λ p. (is_word_key p.0 ≡ false) ⊎ IsEntry p store)
      (record_association store window (codes "b") (codes "2026") false)
record_association_no_words_example =
    record_association_no_words store window (codes "b") (codes "2026")

forget_association_forgets_example :
    is_associated (forget_association store window (codes "a")) window (codes "a") ≡ false
forget_association_forgets_example = forget_association_forgets store window (codes "a")

learned_match_ids-Ranked_example :
    Ranked (learned_match_ids store window)
    × ((not (is_empty (codes "a")) && any (is_match (codes "a")) (learned_match_ids store window))
        ≡ (is_associated store window (codes "a") && not (names_inherited (codes "a"))))
learned_match_ids-Ranked_example = learned_match_ids-Ranked store window (codes "a")
