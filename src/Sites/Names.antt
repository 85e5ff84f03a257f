-- ===== src/Sites/Names.antt =====
-- The tables of names (BitwardenModel.js, `GENERIC_LABELS`, `TLDS`, `MULTI_SLD` and
-- `BRAND_ALIASES`). They are objects: a look-up also finds what an object inherits, and of the names
-- in lower case these are `constructor` and `__proto__`.
use dms_bitwarden_cli.Common.{
  Bool, ◌||◌, Option, none, some, List, [], ◌∷◌, any, Str, codes, ◌===◌, if◌then◌else◌,
}
use Prim.Native.String.{String}

-- Labels that carry no identity.
abbrev pub generic_labels : List String
generic_labels =
    "www" ∷ "www2" ∷ "web" ∷ "app" ∷ "apps" ∷ "mobile" ∷ "my" ∷ "secure" ∷ "login" ∷ "signin"
    ∷ "sign" ∷ "logon" ∷ "auth" ∷ "oauth" ∷ "sso" ∷ "idp" ∷ "account" ∷ "accounts" ∷ "portal"
    ∷ "admin" ∷ "dash" ∷ "dashboard" ∷ "console" ∷ "home" ∷ "welcome" ∷ "overview" ∷ "page" ∷ "site"
    ∷ "online" ∷ "cloud" ∷ "server" ∷ "service" ∷ "services" ∷ "api" ∷ "cdn" ∷ "static" ∷ "assets"
    ∷ "local" ∷ "localhost" ∷ "localdomain" ∷ "internal" ∷ "intranet" ∷ "lan" ∷ "dev" ∷ "test"
    ∷ "staging" ∷ "prod" ∷ "the" ∷ "and" ∷ "for" ∷ "with" ∷ "your" ∷ "new" ∷ "inbox" ∷ "settings"
    ∷ []

-- Accepted suffixes of a host name.
abbrev pub tlds : List String
tlds =
    "com" ∷ "org" ∷ "net" ∷ "edu" ∷ "gov" ∷ "mil" ∷ "int" ∷ "io" ∷ "co" ∷ "ai" ∷ "app" ∷ "dev"
    ∷ "me" ∷ "tv" ∷ "cc" ∷ "info" ∷ "biz" ∷ "name" ∷ "pro" ∷ "xyz" ∷ "online" ∷ "site" ∷ "shop"
    ∷ "store" ∷ "tech" ∷ "cloud" ∷ "page" ∷ "blog" ∷ "wiki" ∷ "news" ∷ "media" ∷ "email" ∷ "chat"
    ∷ "social" ∷ "games" ∷ "software" ∷ "systems" ∷ "network" ∷ "digital" ∷ "finance" ∷ "bank"
    ∷ "money" ∷ "health" ∷ "life" ∷ "world" ∷ "space" ∷ "link" ∷ "click" ∷ "one" ∷ "run" ∷ "sh"
    ∷ "gg" ∷ "fm" ∷ "to" ∷ "ly" ∷ "us" ∷ "uk" ∷ "ca" ∷ "au" ∷ "nz" ∷ "de" ∷ "fr" ∷ "es" ∷ "it"
    ∷ "nl" ∷ "be" ∷ "ch" ∷ "at" ∷ "se" ∷ "no" ∷ "dk" ∷ "fi" ∷ "pl" ∷ "cz" ∷ "pt" ∷ "ie" ∷ "gr"
    ∷ "ru" ∷ "ua" ∷ "tr" ∷ "il" ∷ "in" ∷ "jp" ∷ "cn" ∷ "kr" ∷ "hk" ∷ "tw" ∷ "sg" ∷ "my" ∷ "id"
    ∷ "th" ∷ "vn" ∷ "ph" ∷ "br" ∷ "mx" ∷ "ar" ∷ "cl" ∷ "za" ∷ "eu" ∷ "local" ∷ "lan" ∷ "home"
    ∷ "internal" ∷ "arpa" ∷ "localdomain" ∷ []

abbrev pub multi_sld : List String
multi_sld = "co" ∷ "com" ∷ "net" ∷ "org" ∷ "ac" ∷ "gov" ∷ "edu" ∷ "or" ∷ "ne" ∷ []

abbrev pub brand_aliases : List (String × String)
brand_aliases =
    ("gmail", "google")
    ∷ ("googlemail", "google")
    ∷ ("youtube", "google")
    ∷ ("hotmail", "microsoft")
    ∷ ("outlook", "microsoft")
    ∷ ("live", "microsoft")
    ∷ ("onedrive", "microsoft")
    ∷ ("office", "microsoft")
    ∷ ("microsoft365", "microsoft")
    ∷ ("icloud", "apple")
    ∷ ("appleid", "apple")
    ∷ ("fb", "facebook")
    ∷ ("messenger", "facebook")
    ∷ ("instagram", "facebook")
    ∷ []

unfoldable pub is_inherited : Str → Bool
unfolding ◌===◌
is_inherited w = w === codes "constructor" || w === codes "__proto__"

-- `table[w]` is truthy.
unfoldable pub is_listed : List String → Str → Bool
unfolding any ◌===◌ is_inherited
is_listed table w = any (λ n. codes n === w) table || is_inherited w

unfoldable pub alias_in : List (String × String) → Str → Option Str
unfolding ◌===◌
alias_in [] w = none
alias_in ((n, alias) ∷ table) w =
    let rest = alias_in table w in if codes n === w then some (codes alias) else rest

-- `BRAND_ALIASES[w]` of a token, which is none of the inherited names.
unfoldable pub brand_alias : Str → Option Str
unfolding alias_in
brand_alias w = alias_in brand_aliases w
