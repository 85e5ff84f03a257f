-- ===== src/Servers.antt =====
-- Server addresses, session keys and the screen lock (BitwardenModel.js, `accountServerLabel`,
-- `loginServerUrlFor`, `validateServerUrl`, `isSessionToken`, `extractSessionToken`,
-- `screenIsLocked`).
pub mod Parts
pub mod Hosts
pub mod Safe
use dms_bitwarden_cli.Common.{
  ℕ, suc, ◌+◌, Bool, true, false, not, ◌&&◌, ◌||◌, Option, none, some, List, [], ◌∷◌, ◌++◌, leb,
  ◌==◌, if◌then◌else◌, length, take, drop, is_empty, any, all, Str, codes, ◌===◌, trim, starts_with,
  last_index_of, split, is_digit, lower_ascii,
}
use dms_bitwarden_cli.Sites.{span, is_octet_text}

abbrev pub bitwarden_us_server : Str
bitwarden_us_server = codes "https://vault.bitwarden.com"

abbrev pub bitwarden_eu_server : Str
bitwarden_eu_server = codes "https://vault.bitwarden.eu"

-- A missing region or address is "". No letter beyond ASCII has an ASCII lower case that matters.
unfoldable pub login_server_url_for : Str → Str → Str
unfolding ◌===◌ trim
login_server_url_for region custom_url =
    let choice = lower_ascii region in
    if choice === codes "eu"
    then bitwarden_eu_server
    else if choice === codes "custom"
    then trim custom_url
    else bitwarden_us_server

abbrev pub is_letter : ℕ → Bool
is_letter c = (leb b'a' c && leb c b'z') || (leb b'A' c && leb c b'Z')

abbrev pub is_scheme_unit : ℕ → Bool
is_scheme_unit c = is_letter c || is_digit c || c == b'+' || c == b'.' || c == b'-'

abbrev pub starts_with_letter : Str → Bool
starts_with_letter [] = false
starts_with_letter (c ∷ s) = is_letter c

-- The scheme of a URL, and what follows its `://`.
unfoldable pub server_scheme : Str → Option (Str × Str)
unfolding span starts_with is_digit
server_scheme url =
    let (scheme, rest) = span is_scheme_unit url in
    if starts_with_letter scheme && starts_with (codes "://") rest
    then some (scheme, drop 3 rest)
    else none

-- `localhost|127(?:\.\d{1,3}){3}|\[::1\]|::1`, whatever the case.
unfoldable pub is_loopback_host : Str → Bool
unfolding ◌===◌ split all is_digit
is_loopback_host host =
    let parts = split b'.' host in
    lower_ascii host === codes "localhost"
    || (length parts == 4
        && any (λ p. p === codes "127") (take 1 parts)
        && all is_octet_text (drop 1 parts))
    || host === codes "[::1]"
    || host === codes "::1"

-- `host.slice(host.lastIndexOf("@") + 1)`.
unfoldable pub after_last_at : Str → Str
unfolding last_index_of
after_last_at s = elim (last_index_of b'@' s) [ none ↦ s | some i ↦ drop (suc i) s ]

-- `.replace(/:\d*$/, "")`.
unfoldable pub without_any_port : Str → Str
unfolding last_index_of all is_digit
without_any_port s = elim (last_index_of b':' s) [
  | none ↦ s
  | some i ↦ if all is_digit (drop (suc i) s) then take i s else s
]

-- The host of what follows the scheme.
unfoldable pub server_host : Str → Str
unfolding span after_last_at without_any_port
server_host rest =
    let (authority, path) = span (λ c. not (c == b'/' || c == b'?' || c == b'#')) rest in
    without_any_port (after_last_at authority)

unfoldable pub scheme_error : Str → Str → Str
unfolding ◌===◌ server_host is_loopback_host
scheme_error scheme rest =
    let host = server_host rest in
    if not (scheme === codes "http") && not (scheme === codes "https")
    then codes "Server URL must be http or https, not " ++ scheme ++ codes ":"
    else if is_empty host
    then codes "Server URL is missing a host name"
    else if scheme === codes "http" && not (is_loopback_host host)
    then codes "Refusing to send your master password over plain http to "
      ++ host
      ++ codes ". Use https:// (http is allowed only for localhost)."
    else []

-- The message for an address that is refused, or "".
unfoldable pub validate_server_url : Str → Str
unfolding trim any server_scheme scheme_error
validate_server_url raw =
    let url = trim raw in
    if is_empty url
    then []
    else if any (λ c. c == 92) url
    then codes "Server URL must not contain backslashes"
    else elim (server_scheme url) [
      | none ↦ codes "Server URL must start with https:// (or http:// for localhost)"
      | some found ↦ scheme_error (lower_ascii found.0) found.1
    ]

-- `.replace(/\/+$/, "")`.
unfoldable pub without_slashes : Str → Str
without_slashes [] = []
without_slashes (c ∷ s) =
    let rest = without_slashes s in if is_empty rest && c == b'/' then [] else c ∷ rest

-- `.replace(/^https?:\/\//i, "")`.
unfoldable pub without_http : Str → Str
unfolding starts_with
without_http s =
    if starts_with (codes "https://") (lower_ascii s)
    then drop 8 s
    else if starts_with (codes "http://") (lower_ascii s)
    then drop 7 s
    else s

unfoldable pub account_server_label : Str → Str
unfolding trim without_slashes without_http ◌===◌
account_server_label server =
    let s = without_slashes (trim server) in
    if is_empty s || s === bitwarden_us_server || s === codes "https://bitwarden.com"
    then []
    else if s === bitwarden_eu_server || s === codes "https://bitwarden.eu"
    then codes "EU"
    else without_http s

abbrev is_token_unit : ℕ → Bool
is_token_unit c =
    is_letter c || is_digit c || c == b'+' || c == b'/' || c == b'=' || c == b'_' || c == b'-'

-- `/^[A-Za-z0-9+/=_-]{32,}$/`.
unfoldable pub token_shape : Str → Bool
unfolding all is_digit
token_shape s = leb 32 (length s) && all is_token_unit s

unfoldable pub is_session_token : Str → Bool
unfolding trim token_shape
is_session_token value = token_shape (trim value)

abbrev drop_quote : Str → Str
drop_quote [] = []
drop_quote (c ∷ s) = if c == 34 then s else c ∷ s

-- The value that an assignment at the start of a text has.
unfoldable pub assigned_at : Str → Str
unfolding starts_with span
assigned_at s =
    let (value, rest) = span (λ c. not (c == 34 || c == 10 || c == 13)) (drop_quote (drop 11 s)) in
    if starts_with (codes "BW_SESSION=") s then value else []

-- `match[1]` of the first match of `/BW_SESSION="?([^"\n\r]+)"?/`, or "".
unfoldable pub assigned_session : Str → Str
unfolding assigned_at
assigned_session [] = []
assigned_session (c ∷ s) =
    let later = assigned_session s in
    if is_empty (assigned_at (c ∷ s)) then later else assigned_at (c ∷ s)

unfoldable pub first_token : List Str → Str
unfolding is_session_token trim
first_token [] = []
first_token (l ∷ ls) =
    let later = first_token ls in if is_session_token (trim l) then trim l else later

unfoldable pub extract_session_token : Str → Str
unfolding trim assigned_session is_session_token first_token split
extract_session_token raw =
    let s = trim raw in
    let value = assigned_session s in
    if not (is_empty value) && is_session_token value then trim value else first_token (split 10 s)

unfoldable pub screen_is_locked : Str → Bool
unfolding trim ◌===◌
screen_is_locked raw = trim raw === codes "true"
