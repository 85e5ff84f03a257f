-- ===== src/Examples/Options.antt =====
-- Settings read and written on concrete data.
use dms_bitwarden_cli.Common.{◌≡◌, true, codes}
use dms_bitwarden_cli.Js.Numbers.{nat}
use dms_bitwarden_cli.Js.Values.{Value, boolean, number, string, object, end, field}
use dms_bitwarden_cli.Generator.{normalize_generator_options}
use dms_bitwarden_cli.Generator.Again.{options_value, normalize_generator_options_idempotent}

-- Five digits and six symbols do not fit into five units.
abbrev crowded : Value
crowded = object (
    field (codes "length") (number (nat 5)) (
      field (codes "minNumber") (string (codes "5"))
        (field (codes "special") (boolean true) (field (codes "minSpecial") (number (nat 6)) end))))

normalize_generator_options_idempotent_example :
    normalize_generator_options (options_value (normalize_generator_options crowded))
    ≡ normalize_generator_options crowded
normalize_generator_options_idempotent_example = normalize_generator_options_idempotent crowded
