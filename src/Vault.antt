-- ===== src/Vault.antt =====
-- What the item list reads of the vault's JSON, one item at a time (BitwardenModel.js, `idList`,
-- `itemTypeName`, `parseAttachments`, `formatAttachmentSize` and `loginUris`). Sizes are whole bytes.
pub mod Details
pub mod Rows
pub mod Envelope
pub mod Public
pub mod Hidden
pub mod Laws
use dms_bitwarden_cli.Common.{
  ℕ, zero, suc, ◌+◌, ◌-◌, ◌*◌, ◌/◌, ◌%◌, ◌^◌, Bool, ◌&&◌, List, [], ◌∷◌, ◌++◌, map, ltb, ◌==◌,
  if◌then◌else◌, get_or, is_empty, filter, pos, Str, codes, ◌===◌, trim,
}
use dms_bitwarden_cli.Js.Numbers.{Number, fin, decimal}
use dms_bitwarden_cli.Js.Values.{
  Value, null, number, object, Items, field, prop, truthy, to_string, to_number, text_or_empty,
}
use Prim.Native.String.{String}
use dms_bitwarden_cli.Forms.{value_list, text_or}

-- `String(o[k] || "")`.
unfoldable pub text_of : Str → Value → Str
unfolding text_or prop
text_of k v = text_or [] (prop k v)

unfoldable pub id_list : Value → List Str
unfolding value_list to_string
id_list ids = map to_string (value_list ids)

unfoldable pub item_type_name : Value → Str
unfolding to_string ◌===◌
item_type_name type =
    let name = to_string type in
    if name === codes "2"
    then codes "secureNote"
    else if name === codes "3"
    then codes "card"
    else if name === codes "4"
    then codes "identity"
    else if name === codes "5"
    then codes "sshKey"
    else codes "login"

abbrev pub attachment_units : List String
attachment_units = "B" ∷ "KB" ∷ "MB" ∷ "GB" ∷ "TB" ∷ []

-- `n >= 1024 && unit < 4`, counted.
unfoldable pub unit_from : ℕ → ℕ → ℕ
unit_from zero n = 0
unit_from (suc f) n = let rest = suc (unit_from f (n / 1024)) in if ltb n 1024 then 0 else rest

-- Hundredths with no zero at the end.
unfoldable pub hundredths_text : ℕ → Str
unfolding decimal
hundredths_text h =
    let part = h % 100 in
    decimal (h / 100)
    ++ (if part == 0
        then []
        else if part % 10 == 0
        then codes "." ++ decimal (part / 10)
        else codes "." ++ decimal (part / 10) ++ decimal (part % 10))

-- `Math.round(n * 100) / 100`, in hundredths, of the bytes in a unit.
abbrev pub in_hundredths : ℕ → ℕ → ℕ
in_hundredths n unit = (n * 200 + 1024 ^ unit) / (2 * 1024 ^ unit)

unfoldable pub size_text : Number → Str
unfolding unit_from hundredths_text decimal
size_text (fin (pos n) ds) =
    let unit = unit_from 4 n in
    let value = if unit == 0 then decimal n else hundredths_text (in_hundredths n unit) in
    value ++ codes " " ++ codes (get_or attachment_units unit "B")
size_text _ = []

unfoldable pub format_attachment_size : Value → Str
unfolding text_or_empty trim size_text to_number
format_attachment_size bytes =
    if is_empty (trim (text_or_empty bytes)) then [] else size_text (to_number bytes)

pub record Attachment : Type 0 where
  pub id : Str
  pub file_name : Str
  pub size : Str
  pub size_name : Str

abbrev pub or_text : Str → Str → Str
or_text s t = if is_empty s then t else s

unfoldable pub attachment_of : Value → Attachment
unfolding text_of prop to_string format_attachment_size
attachment_of a = record {
  id = to_string (prop (codes "id") a);
  file_name = or_text (text_of (codes "fileName") a) (codes "attachment");
  size = text_of (codes "size") a;
  size_name =
      or_text (text_of (codes "sizeName") a) (format_attachment_size (prop (codes "size") a));
}

unfoldable pub is_identified : Value → Bool
unfolding truthy prop
is_identified a = truthy a && truthy (prop (codes "id") a)

unfoldable pub parse_attachments : Value → List Attachment
unfolding value_list attachment_of filter is_identified
parse_attachments raw = map attachment_of (filter is_identified (value_list raw))

abbrev has_uri : Value → Bool
unfolding truthy prop
has_uri u = truthy u && truthy (prop (codes "uri") u)

unfoldable pub login_uris : Value → List Str
unfolding value_list filter truthy prop to_string
login_uris login =
    map (λ u. to_string (prop (codes "uri") u))
      (filter has_uri (value_list (prop (codes "uris") login)))
