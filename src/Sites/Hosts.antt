-- ===== src/Sites/Hosts.antt =====
-- Hosts and words with lower case (BitwardenModel.js, `squash`, `extractTokens`, `parseHost`,
-- `parseDomain`, `detectDomainInText`, `itemDomains` and `hasWholeWord`).
use dms_bitwarden_cli.Common.{
  lower_ascii, ℕ, ◌-◌, Bool, true, false, not, ◌&&◌, ◌||◌, Option, none, some, List, [], ◌∷◌, ◌++◌,
  ltb, leb, ◌==◌, if◌then◌else◌, length, get_or, drop, is_empty, filter, all, Str, codes, trim,
  starts_with, split, join, is_digit, is_lower_alnum,
}
use dms_bitwarden_cli.Sites.{
  Domain, runs, distinct_from, is_token, without_port, without_last_dot, host_parts, host_in_url,
  accepted_host,
}
use dms_bitwarden_cli.Sites.Names.{tlds, is_listed}

-- `/[a-z0-9]/i`: of the units beyond ASCII none matches it.
unfoldable pub is_word_unit : ℕ → Bool
unfolding is_lower_alnum
is_word_unit c = is_lower_alnum c || (leb b'A' c && leb c b'Z')

-- The search for a word between units that are none, with `free` for a place that may start it.
unfoldable pub word_from : Str → Bool → Str → Bool
unfolding is_word_unit starts_with
word_from word free [] = false
word_from word free (c ∷ s) =
    let rest = word_from word (not (is_word_unit c)) s in
    (free
      && starts_with word (c ∷ s)
      && not (is_word_unit (get_or (drop (length word) (c ∷ s)) 0 0)))
    || rest

-- `hasWholeWord` for a word of ASCII units in lower case, as host names are. The unit 0 stands for
-- the end of the text.
unfoldable pub has_whole_word : Str → Str → Bool
unfolding word_from
has_whole_word haystack word = not (is_empty word) && word_from word true (lower_ascii haystack)

-- The parsed host of a group of labels.
abbrev pub some_host : Str → Option Domain
some_host h = if is_empty h then none else some (host_parts h)

abbrev pub last_label : List Str → Str
last_label group = get_or group (length group - 1) []

abbrev pub accepted_host? : Option Domain → Option Domain
accepted_host? none = none
accepted_host? (some d) = accepted_host d

module _ (lower : Str → Str) where
  unfoldable pub squash : Str → Str
  unfolding filter is_lower_alnum
  squash s = filter is_lower_alnum (lower s)

  unfoldable pub extract_tokens : Str → List Str
  unfolding runs filter distinct_from is_listed all is_digit is_lower_alnum
  extract_tokens s = distinct_from [] (filter is_token (runs is_lower_alnum (lower s)))

  unfoldable pub parse_host : Str → Option Domain
  unfolding without_port without_last_dot host_parts
  parse_host host = some_host (without_last_dot (without_port (lower host)))

  unfoldable pub parse_domain : Str → Option Domain
  unfolding host_in_url parse_host trim
  parse_domain url = elim (host_in_url (lower (trim url))) [ none ↦ none | some h ↦ parse_host h ]

  -- `none` for a group that is passed over.
  unfoldable pub group_domain : List Str → Option Domain
  unfolding parse_host is_listed join
  group_domain group =
      if ltb (length group) 2 || not (is_listed tlds (last_label group))
      then none
      else accepted_host? (parse_host (join (codes ".") group))

  -- The walk over the labels of a run, and one past them.
  unfoldable pub walk_labels : List Str → List Str → Option Domain
  unfolding group_domain
  walk_labels group [] = group_domain group
  walk_labels group (l ∷ ls) =
      let longer = walk_labels (group ++ l ∷ []) ls in
      let next = walk_labels [] ls in
      if not (is_empty l)
      then longer
      else elim (group_domain group) [ none ↦ next | some d ↦ some d ]

  unfoldable pub detect_in_runs : List Str → Option Domain
  unfolding walk_labels split
  detect_in_runs [] = none
  detect_in_runs (r ∷ rs) = elim (walk_labels [] (split b'.' r)) [
    | none ↦ detect_in_runs rs
    | some d ↦ some d
  ]

  unfoldable pub detect_domain_in_text : Str → Option Domain
  unfolding detect_in_runs runs is_lower_alnum
  detect_domain_in_text text =
      detect_in_runs (runs (λ c. is_lower_alnum c || c == b'.' || c == b'-') (lower text))

  unfoldable pub item_domains : List Str → List Domain
  unfolding parse_domain
  item_domains [] = []
  item_domains (u ∷ us) = elim (parse_domain u) [
    | none ↦ item_domains us
    | some d ↦ d ∷ item_domains us
  ]
