-- ===== src/Examples/Labels.antt =====
-- Labels and the settings screen on concrete data.
use dms_bitwarden_cli.Common.{
  ◌≡◌, refl, false, Option, none, some, [], ◌∷◌, Str, codes, str_lt, filter, sort_by, ◌===◌, map,
}
use dms_bitwarden_cli.Js.Values.{Value, null, string, object, end, field, prop, truthy, to_string}
use dms_bitwarden_cli.Forms.{text_or}
use dms_bitwarden_cli.Vault.{text_of}
use dms_bitwarden_cli.Sends.{
  time_left_label, clip_label, View, presenter_index, parse_folders, folder_of,
}

two_hours : time_left_label 7300000 ≡ codes "in 2 hours"
unfolding time_left_label
two_hours = refl

one_day : time_left_label 86400000 ≡ codes "in 1 day"
unfolding time_left_label
one_day = refl

clipped : clip_label (codes "Bills & Banking") 10 ≡ codes "Bills &..."
unfolding clip_label
clipped = refl

abbrev view : Str → Option View
view screen = some (record { opened = false; screen = screen })

focused_view :
    presenter_index (view (codes "DP-1") ∷ none ∷ view (codes "DP-2") ∷ []) (codes "DP-2") ≡ some 2
unfolding presenter_index
focused_view = refl

abbrev folder : Str → Str → Value
folder id name = object (field (codes "id") (string id) (field (codes "name") (string name) end))

folders_sorted :
    map
      (λ f. f.name)
      (parse_folders str_lt (
        folder (codes "2") (codes "b")
        ∷ folder [] (codes "none")
        ∷ null
        ∷ folder (codes "1") []
        ∷ []))
    ≡ codes "Folder" ∷ codes "b" ∷ []
unfolding parse_folders filter folder_of sort_by prop truthy to_string text_or text_of str_lt ◌===◌
folders_sorted = refl
