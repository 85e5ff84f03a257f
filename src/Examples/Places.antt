-- ===== src/Examples/Places.antt =====
-- Secrets withheld, file names and commands on concrete data.
use dms_bitwarden_cli.Common.{
  suc, ◌≡◌, ◌≢◌, refl, none, some, List, [], ◌∷◌, map, is_empty, All, Str, codes,
}
use dms_bitwarden_cli.Js.Values.{Value, string, object, end, field}
use dms_bitwarden_cli.Vault.Rows.{row_of}
use dms_bitwarden_cli.Vault.Public.{public_item_detail}
use dms_bitwarden_cli.Vault.Hidden.{other_secrets, public_item_detail_hides}
use dms_bitwarden_cli.Files.{safe_attachment_file_name, ssh_export_entries}
use dms_bitwarden_cli.Files.Safe.{IsSafe, safe_attachment_file_name-IsSafe}
use dms_bitwarden_cli.Files.Exports.{IsEntry, ssh_export_entries-IsEntry}
use dms_bitwarden_cli.Shell.{bw_command}
use dms_bitwarden_cli.Shell.Reading.{shell_words}
use dms_bitwarden_cli.Shell.Words.{bw_command_read}

-- Every unit of a secret is another.
abbrev shift : Str → Str
shift = map suc

shift_keeps : (s : Str) → is_empty (shift s) ≡ is_empty s
shift_keeps [] = refl
shift_keeps (c ∷ s) = refl

abbrev login_item : Value
login_item = object (
    field (codes "id") (string (codes "1")) (
      field (codes "notes") (string (codes "n")) (
        field (codes "login") (object (field (codes "password") (string (codes "pw")) end))
          (field (codes "card") (object (field (codes "code") (string (codes "123")) end)) end))))

public_item_detail_hides_example :
    public_item_detail (other_secrets shift none (row_of login_item))
    ≡ public_item_detail (row_of login_item)
public_item_detail_hides_example =
    public_item_detail_hides shift shift_keeps none (row_of login_item)

safe_attachment_file_name-IsSafe_example :
    IsSafe (safe_attachment_file_name (codes "../../.bash\\rc/.-x y "))
    × (safe_attachment_file_name (codes "../../.bash\\rc/.-x y ") ≢ [])
safe_attachment_file_name-IsSafe_example =
    safe_attachment_file_name-IsSafe (codes "../../.bash\\rc/.-x y ")

base_only : safe_attachment_file_name (codes "../../.bash\\rc/.-x y ") ≡ codes "x y"
unfolding safe_attachment_file_name
base_only = refl

abbrev identity : Str → Str → Value
identity name item_id = object (
    field (codes "itemId") (string item_id) (
      field (codes "name") (string name)
        (field (codes "publicKey") (string (codes "ssh-ed25519 AAAA me")) end)))

-- The second key of a name gets its id, and with it the name of another key.
abbrev identities : List Value
identities =
    identity (codes "x") (codes "1")
    ∷ identity (codes "x.2") (codes "3")
    ∷ identity (codes "x") (codes "2")
    ∷ identity (codes "no id") []
    ∷ []

ssh_export_entries-IsEntry_example : All IsEntry (ssh_export_entries identities)
ssh_export_entries-IsEntry_example = ssh_export_entries-IsEntry identities

names_collide :
    map (λ e. e.0) (ssh_export_entries identities)
    ≡ codes "x.pub" ∷ codes "x.2.pub" ∷ codes "x.2.pub" ∷ []
unfolding ssh_export_entries
names_collide = refl

bw_command_read_example :
    shell_words (bw_command (codes "get" ∷ codes "it's $(rm)" ∷ [] ∷ []) 4096)
    ≡ some (codes "bw" ∷ codes "get" ∷ codes "it's $(rm)" ∷ [] ∷ [])
bw_command_read_example = bw_command_read (codes "get" ∷ codes "it's $(rm)" ∷ [] ∷ []) 4096
