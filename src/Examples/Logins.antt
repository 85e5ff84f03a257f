-- ===== src/Examples/Logins.antt =====
-- A remembered two-step method on concrete data.
use dms_bitwarden_cli.Common.{codes}
use dms_bitwarden_cli.Js.Numbers.{nat}
use dms_bitwarden_cli.Js.Values.{Value, number, object, end, field}

-- A store with a method that the CLI does not have.
abbrev old_store : Value
old_store = object (field (codes "b@example.org") (number (nat 7)) end)
