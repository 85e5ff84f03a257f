-- ===== src/Servers/Safe.antt =====
-- Which addresses are let through by `validateServerUrl`.
use dms_bitwarden_cli.Common.{
  ℕ, ◌≡◌, refl, sym, ap, ◌∙◌, ◌≢◌, ◌⊎◌, inl, inr, Bool, true, false, not, ◌&&◌, ◌||◌, none, some,
  [], ◌∷◌, ◌++◌, arith, Bool-cases, Option-cases, drop, is_empty, any, all, any-append, Str, codes,
  ◌===◌, ===_eq, trim, lower_ascii, ◌==◌, starts_with, is_digit, if◌then◌else◌,
}
use dms_bitwarden_cli.Sites.{span}
use dms_bitwarden_cli.Servers.{
  is_scheme_unit, starts_with_letter, server_scheme, is_loopback_host, after_last_at,
  without_any_port, server_host, scheme_error, validate_server_url,
}
use dms_bitwarden_cli.Servers.Parts.{
  span-whole, span-none, StartsWith, span-StartsWith, starts_with-whole,
}
use dms_bitwarden_cli.Servers.Hosts.{
  IsThisMachine, is_loopback_host-IsThisMachine, after_last_at-user, without_any_port-port,
}
use mathlib.Core.List.{append_assoc}
use mathlib.Core.Bool.{true≢false}
use mathlib.Core.Option.{none-ne-some, some-injective}

-- The units that end the authority of a URL.
abbrev pub ends_authority : ℕ → Bool
ends_authority c = c == b'/' || c == b'?' || c == b'#'

-- An address in its parts, which goes over https or to this machine.
pub record GoesSafely (url : Str) : Type 0 where
  pub scheme : Str
  pub user : Str
  pub host : Str
  pub port : Str
  pub path : Str
  pub whole : url ≡ scheme ++ codes "://" ++ (((user ++ host) ++ port) ++ path)
  pub no_backslash : any (λ c. c == 92) url ≡ false
  pub user_ends : (user ≡ []) ⊎ ((name : Str) × (user ≡ name ++ b'@' ∷ []))
  pub has_host : host ≢ []
  pub host_plain : any (λ c. b'@' == c) host ≡ false
  pub within : any (λ c. ends_authority c) (user ++ host) ≡ false
  pub port_number : (port ≡ []) ⊎ ((ds : Str) × (port ≡ b':' ∷ ds) × (all is_digit ds ≡ true))
  pub path_starts : StartsWith ends_authority path
  pub secure :
      (lower_ascii scheme ≡ codes "https")
      ⊎ ((lower_ascii scheme ≡ codes "http") × IsThisMachine host)

any-parts :
    (p : ℕ → Bool) (s t : Str) → any p (s ++ t) ≡ false → (any p s ≡ false) × (any p t ≡ false)
any-parts p s t h = ground (arith, any-append p s t)

-- The parts of what follows the scheme, around its host.
pub record Around (rest : Str) (host : Str) : Type 0 where
  pub user : Str
  pub port : Str
  pub path : Str
  pub whole : rest ≡ ((user ++ host) ++ port) ++ path
  pub user_ends : (user ≡ []) ⊎ ((name : Str) × (user ≡ name ++ b'@' ∷ []))
  pub host_plain : any (λ c. b'@' == c) host ≡ false
  pub within : any (λ c. ends_authority c) (user ++ host) ≡ false
  pub port_number : (port ≡ []) ⊎ ((ds : Str) × (port ≡ b':' ∷ ds) × (all is_digit ds ≡ true))
  pub path_starts : StartsWith ends_authority path

server_host-Around : (rest : Str) → Around rest (server_host rest)
unfolding server_host
server_host-Around rest =
    let authority = (span (λ c. not (ends_authority c)) rest).0 in
    let path = (span (λ c. not (ends_authority c)) rest).1 in
    let (user, before, user_ends, plain) = after_last_at-user authority in
    let (port, after, number) = without_any_port-port (after_last_at authority) in
    let host = without_any_port (after_last_at authority) in
    let parts = before ∙ ap (λ t. user ++ t) after ∙ sym (append_assoc user host port) in
    record {
      user = user;
      port = port;
      path = path;
      whole = span-whole (λ c. not (ends_authority c)) rest ∙ ap (λ t. t ++ path) parts;
      user_ends = user_ends;
      host_plain =
          (any-parts (λ c. b'@' == c) host port
            (sym (ap (λ t. any (λ c. b'@' == c) t) after) ∙ plain)).0;
      within =
          (any-parts (λ c. ends_authority c) (user ++ host) port
            (sym (ap (λ t. any (λ c. ends_authority c) t) parts)
              ∙ span-none ends_authority rest)).0;
      port_number = number;
      path_starts = span-StartsWith ends_authority rest;
    }

if_some :
    (b : Bool) (x y : Str × Str) → (if b then some x else none) ≡ some y → (b ≡ true) × (x ≡ y)
if_some true x y h = (refl, some-injective x y h)
if_some false x y h = absurd (none-ne-some y h)

server_scheme-whole :
    (url : Str) (found : Str × Str)
    → server_scheme url ≡ some found
    → url ≡ found.0 ++ codes "://" ++ found.1
unfolding server_scheme
server_scheme-whole url found h =
    let p = is_scheme_unit in
    let (b, e) =
      if_some (starts_with_letter (span p url).0 && starts_with (codes "://") (span p url).1)
        ((span p url).0, drop 3 (span p url).1) found h in
    span-whole p url
    ∙ ap (λ t. (span p url).0 ++ t)
        (starts_with-whole (codes "://") (span p url).1 (ground (arith, b)))
    ∙ sym (append_assoc (span p url).0 (codes "://") (drop 3 (span p url).1))
    ∙ ap (λ (f : Str × Str). f.0 ++ codes "://" ++ f.1) e

cons_nil : (c : ℕ) (s : Str) → c ∷ s ≡ [] → ⊥
cons_nil c s h = cc

not_empty : (s : Str) → is_empty s ≡ false → s ≢ []
not_empty [] h = absurd (true≢false h)
not_empty (c ∷ s) h = cons_nil c s

scheme_error-secure :
    (scheme rest : Str)
    → scheme_error scheme rest ≡ []
    → (server_host rest ≢ [])
      × ((scheme ≡ codes "https") ⊎ ((scheme ≡ codes "http") × IsThisMachine (server_host rest)))
unfolding scheme_error
scheme_error-secure scheme rest h =
    let host = server_host rest in
    elim (Bool-cases (scheme === codes "http")) [
      | inl http ↦ elim (Bool-cases (is_empty host)) [
        | inl e ↦ absurd (cons_nil _ _ (rw (http, e) at h))
        | inr there ↦ elim (Bool-cases (is_loopback_host host)) [
          | inl here ↦ (
            not_empty host there,
            inr (===_eq scheme (codes "http") http, is_loopback_host-IsThisMachine host here),
          )
          | inr away ↦ absurd (cons_nil _ _ (rw (http, there, away) at h))
        ]
      ]
      | inr n ↦ elim (Bool-cases (scheme === codes "https")) [
        | inl https ↦ elim (Bool-cases (is_empty host)) [
          | inl e ↦ absurd (cons_nil _ _ (rw (n, https, e) at h))
          | inr there ↦ (not_empty host there, inl (===_eq scheme (codes "https") https))
        ]
        | inr m ↦ absurd (cons_nil _ _ (rw (n, m) at h))
      ]
    ]

blank_nil : (s : Str) → is_empty s ≡ true → s ≡ []
blank_nil [] h = refl
blank_nil (c ∷ s) h = absurd (true≢false (sym h))

goes_safely :
    (url : Str) (found : Str × Str)
    → any (λ c. c == 92) url ≡ false
    → url ≡ found.0 ++ codes "://" ++ found.1
    → scheme_error (lower_ascii found.0) found.1 ≡ []
    → GoesSafely url
goes_safely url found straight whole h =
    let around = server_host-Around found.1 in
    let (there, safe) = scheme_error-secure (lower_ascii found.0) found.1 h in
    record {
      scheme = found.0;
      user = around.user;
      host = server_host found.1;
      port = around.port;
      path = around.path;
      whole = whole ∙ ap (λ t. found.0 ++ codes "://" ++ t) around.whole;
      no_backslash = straight;
      user_ends = around.user_ends;
      has_host = there;
      host_plain = around.host_plain;
      within = around.within;
      port_number = around.port_number;
      path_starts = around.path_starts;
      secure = safe;
    }

-- An address that is not blank passes only if it goes over https, or over http to this machine: it is
-- a scheme, `://`, a user that ends in `@` or none, a host that is not empty, a port or none, and a
-- path or none, without a backslash. The user and the host have no `/`, `?` or `#`, and the host no
-- `@`; the scheme is https, or http where the host is localhost, 127.a.b.c or the IPv6 loopback
-- address.
pub validate_server_url-GoesSafely :
    (raw : Str) → trim raw ≢ [] → validate_server_url raw ≡ [] → GoesSafely (trim raw)
unfolding validate_server_url
validate_server_url-GoesSafely raw full h =
    let url = trim raw in
    elim (Bool-cases (is_empty url)) [
      | inl blank ↦ absurd (full (blank_nil url blank))
      | inr e ↦ elim (Bool-cases (any (λ c. c == 92) url)) [
        | inl back ↦ absurd (cons_nil _ _ (rw (e, back) at h))
        | inr straight ↦ elim (Option-cases (server_scheme url)) [
          | inl n ↦ absurd (cons_nil _ _ (rw (e, straight, n) at h))
          | inr (found, n) ↦
              goes_safely url found straight (server_scheme-whole url found n)
                (rw (e, straight, n) at h)
        ]
      ]
    ]
