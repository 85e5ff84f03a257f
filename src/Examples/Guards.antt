-- ===== src/Examples/Guards.antt =====
-- Deadlines, server addresses and releases on concrete data.
use dms_bitwarden_cli.Common.{
  ℕ, ◌+◌, ◌*◌, ◌<◌, ◌≡◌, refl, [], true, none, some, arith, leb, Str, codes, trim, pos,
}
use dms_bitwarden_cli.Clocks.{auto_lock_poll_ms, auto_lock_expired}
use dms_bitwarden_cli.Clocks.AutoLock.{deadline, auto_lock_fires}
use dms_bitwarden_cli.Servers.{validate_server_url}
use dms_bitwarden_cli.Servers.Safe.{GoesSafely, validate_server_url-GoesSafely}
use dms_bitwarden_cli.Versions.{
  compare_release_versions, less, is_less, parse_dependencies, ssh_ui_available,
}
use dms_bitwarden_cli.Versions.Ordered.{flipped, compare_release_versions-ordered}

abbrev every_half_minute : ℕ → ℕ
every_half_minute i = 1000 + i * 30000

half_minute : auto_lock_poll_ms (some (pos 15)) ≡ 30000
unfolding auto_lock_poll_ms
half_minute = refl

auto_lock_fires_example :
    ((i : ℕ) × (auto_lock_expired
          (some (pos 1000))
          (some (pos 15))
          (some (pos (every_half_minute i)))
        ≡ true)
      × (every_half_minute i < deadline 1000 15 + auto_lock_poll_ms (some (pos 15))))
    × (auto_lock_expired (some (pos 1000)) (some (pos 15)) (some (pos (every_half_minute 2)))
        ≡ leb (deadline 1000 15) (every_half_minute 2))
auto_lock_fires_example =
    auto_lock_fires 1000 15 every_half_minute 2 (omega arith) (omega arith) (omega arith)
      (λ i. omega arith) (λ i. omega (arith, half_minute))

abbrev local : Str
local = codes " http://bob@127.0.0.1:8087/x "

validate_server_url-GoesSafely_example : GoesSafely (trim local)
unfolding validate_server_url
validate_server_url-GoesSafely_example = validate_server_url-GoesSafely local (λ e. cc) refl

loopback_passes : validate_server_url (codes " http://[::1]:8087/x ") ≡ []
unfolding validate_server_url
loopback_passes = refl

backslash_refused :
    validate_server_url (codes "http://evil\\@localhost")
    ≡ codes "Server URL must not contain backslashes"
unfolding validate_server_url
backslash_refused = refl

october_is_later : compare_release_versions (codes "v2025.9.30") (codes "2025.10.1") ≡ some less
unfolding compare_release_versions
october_is_later = refl

november_is_later : compare_release_versions (codes "2025.10.1") (codes "2025.11.0") ≡ some less
unfolding compare_release_versions
november_is_later = refl

ordered_releases :
    (compare_release_versions (codes "2025.10.1") (codes "v2025.9.30")
      ≡ flipped (compare_release_versions (codes "v2025.9.30") (codes "2025.10.1")))
    × (is_less (compare_release_versions (codes "v2025.9.30") (codes "2025.11.0")) ≡ true)
unfolding compare_release_versions
ordered_releases =
    compare_release_versions-ordered (codes "v2025.9.30") (codes "2025.10.1") (codes "2025.11.0")
      refl refl

abbrev probe : Str
probe = codes "bw=1\njq=1\nbw_version=2026.1.0\nbw=1"

ssh_shown : ssh_ui_available (some (parse_dependencies probe none)) true ≡ true
unfolding parse_dependencies ssh_ui_available
ssh_shown = refl
