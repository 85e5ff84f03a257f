-- ===== src/Examples/Vaults.antt =====
-- The vault's JSON on concrete data.
use dms_bitwarden_cli.Common.{
  ◌≡◌, refl, Bool, true, false, Option, none, some, List, [], ◌∷◌, length, map, filter, Str, codes,
  str_lt,
}
use dms_bitwarden_cli.Js.Numbers.{nat}
use dms_bitwarden_cli.Js.Values.{
  Value, null, boolean, number, string, array, object, Items, nil, cons, end, field, prop,
  is_object_like,
}
use dms_bitwarden_cli.Items.{Item}
use dms_bitwarden_cli.Vault.{format_attachment_size, is_identified}
use dms_bitwarden_cli.Vault.Rows.{row_of, parse_items}
use dms_bitwarden_cli.Vault.Envelope.{splice_saved_item}
use dms_bitwarden_cli.Vault.Laws.{FavoritesFirst, parse_items_complete, splice_saved_item-ssh}
use mathlib.Core.List.{Memᴰ}

abbrev named : Str → Bool → Value
named name favorite = object (
    field (codes "id") (string name) (
      field (codes "name") (string name) (
        field (codes "type") (number (nat 1)) (
          field (codes "favorite") (boolean favorite) (
            field (codes "login")
              (object (
                field (codes "uris")
                  (array (
                    cons (object (field (codes "uri") (string (codes "https://a.org/in?x=1")) end))
                      nil))
                  end))
              end)))))

abbrev values : List Value
values = named (codes "b") false ∷ null ∷ named (codes "c") true ∷ named (codes "a") false ∷ []

parse_items_complete_example :
    Memᴰ (row_of (named (codes "a") false)) (parse_items str_lt values)
    × (length (parse_items str_lt values) ≡ length (filter is_object_like values))
    × FavoritesFirst (parse_items str_lt values)
parse_items_complete_example =
    parse_items_complete str_lt values (named (codes "a") false) refl
      (Memᴰ.tail (Memᴰ.tail (Memᴰ.tail (Memᴰ.head refl))))

in_order :
    map (λ r. r.item.name) (parse_items str_lt values) ≡ codes "c" ∷ codes "a" ∷ codes "b" ∷ []
unfolding parse_items str_lt
in_order = refl

subtitle : (row_of (named (codes "a") false)).subtitle ≡ codes "a.org"
unfolding row_of
subtitle = refl

kilobytes : format_attachment_size (string (codes "1536")) ≡ codes "1.5 KB"
unfolding format_attachment_size
kilobytes = refl

abbrev ssh_key : Value
ssh_key = object (field (codes "id") (string (codes "k")) end)

abbrev document : Items → Items → Value
document items keys =
    object (field (codes "items") (array items) (field (codes "sshKeys") (array keys) end))

abbrev reads : Value → Str → Option Value
reads doc raw = some doc

splice_saved_item-ssh_example :
    splice_saved_item str_lt (reads (document nil (cons ssh_key nil))) [] (codes "{}") [] ≡ none
unfolding prop is_identified
splice_saved_item-ssh_example =
    splice_saved_item-ssh str_lt (reads (document nil (cons ssh_key nil))) [] (codes "{}") []
      (document nil (cons ssh_key nil)) ssh_key refl refl refl refl

abbrev ids : Option (List Item) → List Str
ids none = []
ids (some items) = map (λ a. a.id) items

-- An ordinary item is spliced in.
spliced :
    ids (
      splice_saved_item str_lt
        (reads (document (cons (named (codes "a") false) nil) nil))
        []
        (codes "{}")
        [])
    ≡ codes "a" ∷ []
unfolding splice_saved_item
spliced = refl
