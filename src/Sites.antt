-- ===== src/Sites.antt =====
-- Sites and words (BitwardenModel.js, `squash` to `hasWholeWord`): the host of an address or of a
-- window's title, and the words of a title. `toLowerCase` is a parameter, any function.
pub mod Names
pub mod Hosts
use dms_bitwarden_cli.Common.{
  ℕ, suc, ◌+◌, ◌-◌, Bool, true, false, not, ◌&&◌, ◌||◌, Option, none, some, List, [], ◌∷◌, ◌++◌,
  reverse, ltb, leb, ◌==◌, if◌then◌else◌, length, get_or, take, drop, is_empty, any, all, Str,
  codes, ◌===◌, is_space, starts_with, last_index_of, split, join, is_digit, is_lower_alnum,
}
use dms_bitwarden_cli.Sites.Names.{generic_labels, tlds, multi_sld, is_listed, brand_alias}

-- A host name: `root_name` is "" where the source has null.
pub record Domain : Type 0 where
  pub host : Str
  pub base_domain : Str
  pub root_name : Str
  pub is_ip : Bool

-- The runs of units that pass the test, `piece` being the current one in reverse.
unfoldable pub runs_from : (ℕ → Bool) → Str → Str → List Str
runs_from p piece [] = if is_empty piece then [] else reverse piece ∷ []
runs_from p piece (c ∷ s) =
    let longer = runs_from p (c ∷ piece) s in
    let next = runs_from p [] s in
    if p c then longer else if is_empty piece then next else reverse piece ∷ next

unfoldable pub runs : (ℕ → Bool) → Str → List Str
unfolding runs_from
runs p s = runs_from p [] s

abbrev pub has_text : Str → List Str → Bool
has_text w ws = any (λ v. v === w) ws

-- The first occurrence of each word.
unfoldable pub distinct_from : List Str → List Str → List Str
unfolding any ◌===◌
distinct_from seen [] = []
distinct_from seen (w ∷ ws) =
    let next = distinct_from seen ws in
    let kept = distinct_from (w ∷ seen) ws in if has_text w seen then next else w ∷ kept

abbrev pub is_token : Str → Bool
is_token w =
    leb 3 (length w) && not (is_listed generic_labels w || is_listed tlds w) && not (all is_digit w)

unfoldable pub aliases_from : List Str → List Str → List Str → List Str
unfolding brand_alias any ◌===◌
aliases_from tokens seen [] = []
aliases_from tokens seen (w ∷ ws) = elim (brand_alias w) [
  | none ↦ aliases_from tokens seen ws
  | some alias ↦
      let next = aliases_from tokens seen ws in
      let kept = aliases_from tokens (alias ∷ seen) ws in
      if has_text alias tokens || has_text alias seen then next else alias ∷ kept
]

unfoldable pub aliases_for : List Str → List Str
unfolding aliases_from
aliases_for tokens = aliases_from tokens [] tokens

abbrev pub is_octet_text : Str → Bool
is_octet_text s = leb 1 (length s) && leb (length s) 3 && all is_digit s

unfoldable pub is_ip_address : Str → Bool
unfolding split all is_digit
is_ip_address host = let parts = split b'.' host in length parts == 4 && all is_octet_text parts

-- `.replace(/:\d+$/, "")`.
unfoldable pub without_port : Str → Str
unfolding last_index_of all is_digit
without_port h = elim (last_index_of b':' h) [
  | none ↦ h
  | some i ↦
      let port = drop (suc i) h in if not (is_empty port) && all is_digit port then take i h else h
]

-- `.replace(/\.$/, "")`.
unfoldable pub without_last_dot : Str → Str
without_last_dot [] = []
without_last_dot (c ∷ []) = if c == b'.' then [] else c ∷ []
without_last_dot (c ∷ d ∷ s) = c ∷ without_last_dot (d ∷ s)

-- `rootIdx` of the parts.
unfoldable pub root_index : List Str → ℕ
unfolding is_listed
root_index parts =
    let n = length parts in
    let suffixes = if leb 3 n && is_listed multi_sld (get_or parts (n - 2) []) then 2 else 1 in
    n - suffixes - 1

unfoldable pub host_parts : Str → Domain
unfolding split root_index is_ip_address join
host_parts h =
    let parts = split b'.' h in
    if is_ip_address h
    then record { host = h; base_domain = h; root_name = []; is_ip = true }
    else if length parts == 1
    then record { host = h; base_domain = h; root_name = get_or parts 0 []; is_ip = false }
    else record {
      host = h;
      base_domain = join (codes ".") (drop (root_index parts) parts);
      root_name = get_or parts (root_index parts) [];
      is_ip = false;
    }

abbrev pub is_host_unit : ℕ → Bool
is_host_unit c = is_lower_alnum c || c == b'.' || c == b'_' || c == b'-'

-- The longest start of a text whose units pass the test, and the rest.
unfoldable pub span : (ℕ → Bool) → Str → Str × Str
span p [] = ([], [])
span p (c ∷ s) = let (ds, rest) = span p s in if p c then (c ∷ ds, rest) else ([], c ∷ s)

-- `[a-z0-9._-]+(?::\d+)?` at the start of a text.
unfoldable pub host_at : Str → Option Str
unfolding span is_lower_alnum is_digit
host_at s =
    let (host, rest) = span is_host_unit s in
    let (port, tail) = span is_digit (drop 1 rest) in
    if is_empty host
    then none
    else if starts_with (codes ":") rest && not (is_empty port)
    then some (host ++ b':' ∷ port)
    else some host

-- What follows `[^\/@\s]+@` at the start of a text.
unfoldable pub after_user : Str → Option Str
unfolding span is_space
after_user s =
    let (user, rest) = span (λ c. not (c == b'/' || c == b'@' || is_space c)) s in
    if not (is_empty user) && starts_with (codes "@") rest then some (drop 1 rest) else none

abbrev pub is_scheme_unit : ℕ → Bool
is_scheme_unit c = is_lower_alnum c || c == b'+' || c == b'.' || c == b'-'

abbrev pub is_scheme : Str → Bool
is_scheme [] = false
is_scheme (c ∷ s) = leb b'a' c && leb c b'z'

-- What follows `[a-z][a-z0-9+.-]*:\/\/` at the start of a text.
unfoldable pub after_scheme : Str → Option Str
unfolding span is_lower_alnum starts_with
after_scheme s =
    let (scheme, rest) = span is_scheme_unit s in
    if is_scheme scheme && starts_with (codes "://") rest then some (drop 3 rest) else none

abbrev pub first_some : {A : Type 0} → Option A → Option A → Option A
first_some none b = b
first_some (some a) b = some a

-- The attempts in the order of the regular expression's backtracking.
unfoldable pub host_after_user : Str → Option Str
unfolding host_at after_user
host_after_user s =
    first_some (elim (after_user s) [ none ↦ none | some t ↦ host_at t ]) (host_at s)

unfoldable pub host_in_url : Str → Option Str
unfolding host_after_user after_scheme
host_in_url s =
    first_some (elim (after_scheme s) [ none ↦ none | some t ↦ host_after_user t ])
      (host_after_user s)

-- The host of a group of labels that ends in an accepted suffix.
abbrev pub accepted_host : Domain → Option Domain
accepted_host d =
    if ltb (length d.root_name) 2 || is_listed generic_labels d.root_name then none else some d
