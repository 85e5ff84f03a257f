-- ===== src/Agent/VisibleText.antt =====
-- Text of other processes and of vault items as a prompt may draw it: `visibleText`, `boundedText`,
-- `boundedPath` and `processNameFromPath`.
use dms_bitwarden_cli.Common.{
  ℕ, zero, suc, ◌-◌, ◌/◌, ◌%◌, ◌≤◌, ◌<◌, ◌≡◌, refl, ap, inl, inr, Bool, false, ◌&&◌, ◌||◌, Option,
  none, some, [], ◌∷◌, ◌++◌, arith, ltb, leb, ◌==◌, if◌then◌else◌, Bool-cases, length, take, drop,
  All, length-take, All-append, Str, last_index_of,
}
use dms_bitwarden_cli.Js.Values.{Value, text_or_empty}
use dms_bitwarden_cli.Js.Json.{hex_digit, hex4, unicode_escape}

abbrev pub max_name_chars : ℕ
max_name_chars = 256

abbrev pub max_path_chars : ℕ
max_path_chars = 512

-- SSH_AGENT_INVISIBLE_RE.
unfoldable pub is_invisible : ℕ → Bool
is_invisible c =
    leb c 0x1f
    || (leb 0x7f c && leb c 0x9f)
    || (leb 0x200b c && leb c 0x200f)
    || (leb 0x2028 c && leb c 0x202e)
    || (leb 0x2066 c && leb c 0x2069)
    || c == 0xfeff

unfoldable pub escape_invisible : Str → Str
unfolding is_invisible unicode_escape hex4 hex_digit
escape_invisible [] = []
escape_invisible (c ∷ s) =
    let rest = escape_invisible s in if is_invisible c then unicode_escape c ++ rest else c ∷ rest

unfoldable pub visible_text : Value → Str
unfolding text_or_empty escape_invisible
visible_text v = escape_invisible (text_or_empty v)

abbrev bound : Str → ℕ → Str
bound text limit = if ltb limit (length text) then take limit text else text

unfoldable pub bounded_text : Value → ℕ → Str
unfolding visible_text
bounded_text v limit = bound (visible_text v) limit

-- Cut from the left, behind an ellipsis.
unfoldable pub bounded_path : Value → ℕ → Str
unfolding visible_text
bounded_path v limit =
    let text = visible_text v in
    if ltb limit (length text) then 0x2026 ∷ drop (length text - (limit - 1)) text else text

-- `cut >= 0 ? text.slice(cut + 1) : text`.
abbrev after_cut : Option ℕ → Str → Str
after_cut none text = text
after_cut (some i) text = drop (suc i) text

-- `boundedText(name, ...)` takes the name through `visibleText` once more.
unfoldable pub process_name : Value → Str
unfolding visible_text last_index_of
process_name v =
    let text = visible_text v in
    bound (escape_invisible (after_cut (last_index_of b'/' text) text)) max_name_chars

-- No unit that draws as nothing or changes how its neighbours are drawn.
abbrev pub Visible : Str → Type 0
Visible = All (λ c. is_invisible c ≡ false)

pub Visible-append : (s t : Str) → Visible s → Visible t → Visible (s ++ t)
Visible-append = All-append (λ c. is_invisible c ≡ false)

Visible-take : (n : ℕ) (s : Str) → Visible s → Visible (take n s)
Visible-take zero s h = tt
Visible-take (suc n) [] h = tt
Visible-take (suc n) (c ∷ s) h = (h.0, Visible-take n s h.1)

Visible-drop : (n : ℕ) (s : Str) → Visible s → Visible (drop n s)
Visible-drop zero s h = h
Visible-drop (suc n) [] h = tt
Visible-drop (suc n) (c ∷ s) h = Visible-drop n s h.1

hex_digit-visible : (n : ℕ) → n < 16 → is_invisible (hex_digit n) ≡ false
unfolding is_invisible hex_digit
hex_digit-visible n h = ground arith

unicode_escape-Visible : (c : ℕ) → Visible (unicode_escape c)
unfolding unicode_escape hex4 is_invisible
unicode_escape-Visible c = ground (
  arith,
  hex_digit-visible (c / 4096 % 16),
  hex_digit-visible (c / 256 % 16),
  hex_digit-visible (c / 16 % 16),
  hex_digit-visible (c % 16),
)

pub escape_invisible-Visible : (s : Str) → Visible (escape_invisible s)
unfolding escape_invisible
escape_invisible-Visible [] = tt
escape_invisible-Visible (c ∷ s) = elim (Bool-cases (is_invisible c)) [
  | inl e ↦
      rw e (
        Visible-append (unicode_escape c) _ (unicode_escape-Visible c) (escape_invisible-Visible s))
  | inr e ↦ rw e (e, escape_invisible-Visible s)
]

-- Text that is visible already is left as it is.
pub escape_invisible_id : (s : Str) → Visible s → escape_invisible s ≡ s
unfolding escape_invisible
escape_invisible_id [] h = refl
escape_invisible_id (c ∷ s) h = rw h.0 (ap (λ t. c ∷ t) (escape_invisible_id s h.1))

-- What a prompt may draw: visible and within a limit.
abbrev pub Drawn : ℕ → Str → Type 0
Drawn limit s = (length s ≤ limit) × Visible s

bound-Drawn : (s : Str) (limit : ℕ) → Visible s → Drawn limit (bound s limit)
bound-Drawn s limit h = elim (Bool-cases (ltb limit (length s))) [
  | inl e ↦ rw e (omega (arith, length-take limit s), Visible-take limit s h)
  | inr e ↦ rw e (ground arith, h)
]

visible_text-Visible : (v : Value) → Visible (visible_text v)
unfolding visible_text
visible_text-Visible v = escape_invisible-Visible (text_or_empty v)

bounded_text-Drawn : (v : Value) (limit : ℕ) → Drawn limit (bounded_text v limit)
unfolding bounded_text
bounded_text-Drawn v limit = bound-Drawn (visible_text v) limit (visible_text-Visible v)

length-drop : (n : ℕ) (s : Str) → length (drop n s) ≡ length s - n
length-drop zero s = omega arith
length-drop (suc n) [] = omega arith
length-drop (suc n) (c ∷ s) = omega (arith, length-drop n s)

bounded_path-Drawn : (v : Value) (limit : ℕ) → 1 ≤ limit → Drawn limit (bounded_path v limit)
unfolding bounded_path is_invisible
bounded_path-Drawn v limit h =
    let t : Str = visible_text v in
    elim (Bool-cases (ltb limit (length t))) [
      | inl e ↦ rw e (
        ground (arith, length-drop (length t - (limit - 1)) t),
        (refl, Visible-drop (length t - (limit - 1)) t (visible_text-Visible v)),
      )
      | inr e ↦ rw e (ground arith, visible_text-Visible v)
    ]

-- No path separator.
abbrev pub NoSlash : Str → Type 0
NoSlash = All (λ c. (b'/' == c) ≡ false)

after_cut-NoSlash : (s : Str) → NoSlash (after_cut (last_index_of b'/' s) s)
unfolding last_index_of
after_cut-NoSlash [] = tt
after_cut-NoSlash (c ∷ s) = cut_cons (last_index_of b'/' s) (after_cut-NoSlash s)
  where
    cut_cons :
        (o : Option ℕ)
        → NoSlash (after_cut o s)
        → NoSlash (
            after_cut
              (elim o [ some i ↦ some (suc i) | none ↦ if b'/' == c then some 0 else none ])
              (c ∷ s))
    cut_cons (some i) h = h
    cut_cons none h = elim (Bool-cases (b'/' == c)) [ inl e ↦ rw e h | inr e ↦ rw e (e, h) ]

NoSlash-take : (n : ℕ) (s : Str) → NoSlash s → NoSlash (take n s)
NoSlash-take zero s h = tt
NoSlash-take (suc n) [] h = tt
NoSlash-take (suc n) (c ∷ s) h = (h.0, NoSlash-take n s h.1)

after_cut-Visible : (o : Option ℕ) (s : Str) → Visible s → Visible (after_cut o s)
after_cut-Visible none s h = h
after_cut-Visible (some i) s h = Visible-drop (suc i) s h

bound-NoSlash : (s : Str) (limit : ℕ) → NoSlash s → NoSlash (bound s limit)
bound-NoSlash s limit h = elim (Bool-cases (ltb limit (length s))) [
  | inl e ↦ rw e (NoSlash-take limit s h)
  | inr e ↦ rw e h
]

process_name-NoSlash : (v : Value) → NoSlash (process_name v)
unfolding process_name
process_name-NoSlash v =
    let t : Str = visible_text v in
    let seen = after_cut-Visible (last_index_of b'/' t) t (visible_text-Visible v) in
    rw (escape_invisible_id _ seen) (bound-NoSlash _ max_name_chars (after_cut-NoSlash t))

process_name-Drawn : (v : Value) → Drawn max_name_chars (process_name v)
unfolding process_name
process_name-Drawn v =
    let t : Str = visible_text v in
    let name : Str = after_cut (last_index_of b'/' t) t in
    bound-Drawn (escape_invisible name) max_name_chars (escape_invisible-Visible name)

-- Whatever value another process or the vault supplies, its text, its path and its program name are
-- drawn without any control, zero-width or direction unit and within 256, 512 and 256 units, and
-- the program name holds no path separator.
pub client_texts-Drawn :
    (v : Value)
    → Drawn 256 (bounded_text v max_name_chars)
      × Drawn 512 (bounded_path v max_path_chars)
      × Drawn 256 (process_name v)
      × NoSlash (process_name v)
client_texts-Drawn v = (
  bounded_text-Drawn v max_name_chars,
  bounded_path-Drawn v max_path_chars (omega arith),
  process_name-Drawn v,
  process_name-NoSlash v,
)
