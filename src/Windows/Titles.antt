-- ===== src/Windows/Titles.antt =====
-- What a browser adds to a page's title is taken off (BitwardenModel.js, `BROWSER_BRAND_RE`,
-- `TITLE_SEPARATOR_RE`, `REMOTE_SESSION_RE`, `stripTitleNoise` and `splitSegments`).
use dms_bitwarden_cli.Common.{
  ℕ, ◌-◌, Bool, not, ◌&&◌, ◌||◌, Option, none, some, List, [], ◌∷◌, ◌++◌, map, leb, ◌==◌, length,
  take, is_empty, filter, any, Str, codes, is_space, is_digit, trim,
}
use dms_bitwarden_cli.Windows.Patterns.{
  Pattern, unit, seq, alt, many, start, stop, edge, Place, ends, remove, split_at, optional,
  some_of, text_of_codes, any_text,
}

abbrev is_of : List ℕ → ℕ → Bool
unfolding any
is_of units c = any (λ d. d == c) units

-- The dashes `—` and `–`, with `-` and `|`.
abbrev bars : List ℕ
bars = b'-' ∷ 0x2014 ∷ 0x2013 ∷ b'|' ∷ []

abbrev spaces : Pattern
unfolding is_space
spaces = many (unit is_space)

abbrev at_end : Pattern → Pattern
unfolding spaces
at_end a = seq a (seq spaces stop)

-- A word that another may follow.
abbrev and_maybe : Str → Str → Pattern
unfolding spaces
and_maybe s t = seq (text_of_codes s) (optional (seq spaces (text_of_codes t)))

-- What `.` matches.
abbrev is_dot : ℕ → Bool
is_dot c = not (c == 10 || c == 13 || c == 0x2028 || c == 0x2029)

unfoldable pub browser_brand : Pattern
unfolding spaces at_end is_of any and_maybe
browser_brand =
    let odd_edge =
      seq (text_of_codes (codes "Microsoft"))
        (seq (unit is_dot) (text_of_codes (0x200b ∷ codes "Edge"))) in
    let names = any_text (
      codes "Google Chrome"
      ∷ codes "Chromium"
      ∷ codes "Mozilla Firefox"
      ∷ codes "Firefox Developer Edition"
      ∷ codes "Firefox"
      ∷ codes "Vivaldi"
      ∷ codes "Microsoft Edge"
      ∷ codes "Edge"
      ∷ codes "LibreWolf"
      ∷ codes "Floorp"
      ∷ codes "Waterfox"
      ∷ codes "Thorium"
      ∷ codes "Helium"
      ∷ codes "Epiphany"
      ∷ codes "GNOME Web"
      ∷ codes "qutebrowser"
      ∷ []) in
    let open_names =
      alt (and_maybe (codes "Brave") (codes "Browser")) (
        alt (and_maybe (codes "Zen") (codes "Browser")) (and_maybe (codes "Opera") (codes "GX"))) in
    seq spaces (
      seq (unit (is_of (0xb7 ∷ 0x2022 ∷ bars)))
        (seq spaces (at_end (alt odd_edge (alt open_names names)))))

unfoldable pub private_mark : Pattern
unfolding spaces at_end is_of any
private_mark =
    let names = any_text (codes "Private Browsing" ∷ codes "Incognito" ∷ codes "Private" ∷ []) in
    seq spaces (
      seq (optional (unit (is_of bars))) (
        seq spaces
          (seq (text_of_codes (codes "(")) (seq names (at_end (text_of_codes (codes ")")))))))

unfoldable pub media_mark : Pattern
unfolding spaces at_end is_of any
media_mark =
    let names =
      any_text (codes "Audio playing" ∷ codes "Muted" ∷ codes "Playing" ∷ codes "Paused" ∷ []) in
    seq spaces (seq (unit (is_of bars)) (seq spaces (at_end names)))

abbrev digits : Pattern
unfolding is_digit
digits = some_of (unit is_digit)

-- A count in brackets at the beginning.
unfoldable pub bracket_count : Pattern
unfolding spaces is_of any digits
bracket_count = seq start (
    seq spaces (
      seq (unit (is_of (codes "(["))) (
        seq spaces (
          seq digits (
            seq (optional (text_of_codes (codes "+")))
              (seq spaces (seq (unit (is_of (codes ")]"))) spaces)))))))

unfoldable pub bar_count : Pattern
unfolding spaces is_of any digits
bar_count =
    seq start (seq spaces (seq digits (seq spaces (seq (unit (is_of (0xb7 ∷ bars))) spaces))))

-- `[\s:·—–|-]`.
abbrev is_filler : ℕ → Bool
unfolding is_of is_space any
is_filler c = is_space c || is_of (b':' ∷ 0xb7 ∷ bars) c

unfoldable pub sign_in_words : Pattern
unfolding is_filler
sign_in_words =
    let words = any_text (
      codes "Sign in to"
      ∷ codes "Sign into"
      ∷ codes "Sign in"
      ∷ codes "Log in to"
      ∷ codes "Log into"
      ∷ codes "Log in"
      ∷ codes "Login to"
      ∷ codes "Login"
      ∷ codes "Welcome to"
      ∷ codes "Welcome back to"
      ∷ codes "Welcome"
      ∷ codes "Authenticate to"
      ∷ codes "Authenticate"
      ∷ []) in
    seq start (seq words (seq edge (many (unit is_filler))))

unfoldable pub leading_filler : Pattern
unfolding is_filler
leading_filler = seq start (some_of (unit is_filler))

unfoldable pub trailing_filler : Pattern
unfolding is_filler
trailing_filler = seq (some_of (unit is_filler)) stop

unfoldable pub strip_in_turn : List Pattern → Str → Str
unfolding remove trim
strip_in_turn [] t = t
strip_in_turn (a ∷ patterns) t = strip_in_turn patterns (trim (remove a t))

unfoldable pub strip_title_noise : Str → Str
unfolding trim strip_in_turn remove browser_brand private_mark media_mark bracket_count bar_count
    sign_in_words leading_filler trailing_filler
strip_title_noise title =
    let t =
      strip_in_turn
        (browser_brand ∷ private_mark ∷ media_mark ∷ bracket_count ∷ bar_count ∷ sign_in_words ∷ [])
        (trim title) in
    trim (remove trailing_filler (remove leading_filler t))

unfoldable pub title_separator : Pattern
unfolding spaces is_of any is_space
title_separator =
    let bar =
      seq spaces (seq (unit (is_of (b'|' ∷ 0xb7 ∷ 0x2022 ∷ 0x2014 ∷ 0x2013 ∷ []))) spaces) in
    let some_spaces = some_of (unit is_space) in
    let dash = seq some_spaces (seq (text_of_codes (codes "-")) some_spaces) in
    alt bar (alt dash (seq spaces (seq (text_of_codes (codes "::")) spaces)))

unfoldable pub split_segments : Str → List Str
unfolding split_at title_separator filter trim
split_segments title =
    filter (λ s. not (is_empty s))
      (map trim
        (split_at (length title) title_separator [] (record { before = none; after = title })))

abbrev is_letter : ℕ → Bool
is_letter c = (leb b'a' c && leb c b'z') || (leb b'A' c && leb c b'Z')

-- `[a-zA-Z0-9-]`.
abbrev is_label_unit : ℕ → Bool
unfolding is_digit
is_label_unit c = is_letter c || is_digit c || c == b'-'

-- What stands before the host in the title of a remote session, and the host.
unfoldable pub session_start : Pattern
unfolding is_space is_label_unit
session_start =
    let some_spaces = some_of (unit is_space) in
    let option =
      seq (text_of_codes (codes "-")) (seq (some_of (unit (λ c. not (is_space c)))) some_spaces) in
    let user =
      seq (some_of (unit (λ c. is_label_unit c || c == b'_' || c == b'.')))
        (text_of_codes (codes "@")) in
    seq (alt start (unit is_space)) (
      seq (any_text (codes "ssh" ∷ codes "mosh" ∷ codes "sftp" ∷ []))
        (seq some_spaces (seq (many option) (optional user))))

unfoldable pub session_host : Pattern
unfolding is_label_unit
session_host =
    let label = some_of (unit is_label_unit) in
    seq label (some_of (seq (text_of_codes (codes ".")) label))

abbrev read_between : Place → Place → Str
read_between q r = take (length q.after - length r.after) q.after

unfoldable pub hosts_after : List Place → List Str
unfolding ends session_host
hosts_after [] = []
hosts_after (q ∷ qs) = map (read_between q) (ends session_host q) ++ hosts_after qs

-- `title.match(REMOTE_SESSION_RE)[1]`, from a place on.
unfoldable pub remote_from : Option ℕ → Str → Option Str
unfolding hosts_after ends session_start
remote_from before [] = none
remote_from before (c ∷ s) =
    elim (hosts_after (ends session_start (record { before = before; after = c ∷ s }))) [
      | host ∷ hosts ↦ some host
      | [] ↦ remote_from (some c) s
    ]

unfoldable pub remote_session : Str → Option Str
unfolding remote_from
remote_session title = remote_from none title
