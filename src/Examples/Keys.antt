-- ===== src/Examples/Keys.antt =====
-- A report of the probe for security keys.
use dms_bitwarden_cli.Common.{
  ◌≡◌, refl, [], ◌∷◌, map, Str, codes, ◌===◌, all, filter, any, split, index_of, join, starts_with,
  trim, is_digit,
}
use dms_bitwarden_cli.Agent.Prompts.{is_base64_unit}
use dms_bitwarden_cli.Fido.{
  is_base64_text, asks_pin, credential_parts, with_credential, probe_set, probe_at, fido_line,
  fido_lines, found_value, is_set, is_relying_party, probe_of, parse_fido_probe,
}
use dms_bitwarden_cli.Fido.Laws.{Told, parse_fido_probe_ready}

-- Two keys, one of which asks for a PIN, with a line that is no setting.
abbrev report : Str
report = join (codes "\n") (
    codes "fido_installed=1"
    ∷ codes "noise"
    ∷ codes "fido_registered=1"
    ∷ codes "fido_token=1"
    ∷ codes "rp=pam://host.example"
    ∷ codes "cred=QUJD=|es256,+presence+pin|/dev/hidraw1"
    ∷ codes " cred=QUJE|es256,+presence|/dev/hidraw2"
    ∷ codes "cred=QU*E|es256|/dev/hidraw3"
    ∷ [])

parse_fido_probe_ready_example : Told (split b'\n' report) (parse_fido_probe report).credentials
unfolding parse_fido_probe probe_of fido_lines fido_line probe_at probe_set with_credential
    credential_parts is_set found_value is_relying_party is_base64_text asks_pin ◌===◌ all filter
    any split index_of starts_with trim is_digit join is_base64_unit
parse_fido_probe_ready_example = parse_fido_probe_ready report refl

one_usable : map (λ c. c.device) (parse_fido_probe report).usable ≡ codes "/dev/hidraw2" ∷ []
unfolding parse_fido_probe probe_of fido_lines fido_line probe_at probe_set with_credential
    credential_parts is_set found_value is_relying_party is_base64_text asks_pin ◌===◌ all filter
    any split index_of starts_with trim is_digit join is_base64_unit
one_usable = refl
