-- ===== src/Windows/Active.antt =====
-- Which window counts as the focused one.
use dms_bitwarden_cli.Common.{
  ◌≡◌, refl, sym, Bool, true, false, not, ◌∙◌, ap, some, List, [], ◌∷◌, Bool-cases, inl, inr,
  filter, find?, any, sort_by, All, any-sort, sort-All, arith,
}
use dms_bitwarden_cli.Js.Values.{Value}
use dms_bitwarden_cli.Windows.{is_client, is_shell, focused_before, active_client}
use mathlib.Core.List.{Memᴰ}
use mathlib.Core.Bool.{true≢false}

abbrev is_other : Value → Bool
is_other c = not (is_shell c)

not-true : (b : Bool) → not b ≡ true → b ≡ false
not-true false h = refl
not-true true h = absurd (true≢false (sym h))

-- A list with an element that passes has a first one.
find-some :
    {A : Type 0} {P : A → Type 0} (p : A → Bool) (l : List A)
    → All P l
    → any p l ≡ true
    → (w : A) × (find? p l ≡ some w) × (p w ≡ true) × P w
unfolding find? any
find-some p [] h e = absurd (true≢false (sym e))
find-some p (x ∷ l) h e = elim (Bool-cases (p x)) [
  | inl f ↦ (x, rw f refl, f, h.0)
  | inr f ↦
      let (w, found, passes, has) = find-some p l h.1 (rw f at e) in (w, rw f found, passes, has)
]

any-filter_other :
    (clients : List Value) (c : Value)
    → Memᴰ c clients
    → is_client c ≡ true
    → is_shell c ≡ false
    → any is_other (filter is_client clients) ≡ true
unfolding any filter
any-filter_other [] c m h k = elim m [ ]
any-filter_other (x ∷ clients) c (Memᴰ.head e) h k =
    let client : is_client x ≡ true = ap is_client (sym e) ∙ h in
    let other : is_shell x ≡ false = ap is_shell (sym e) ∙ k in rw (client, other) refl
any-filter_other (x ∷ clients) c (Memᴰ.tail m) h k =
    ground (arith, any-filter_other clients c m h k)

filter-IsClient : (clients : List Value) → All (λ c. is_client c ≡ true) (filter is_client clients)
unfolding filter
filter-IsClient [] = tt
filter-IsClient (c ∷ clients) = elim (Bool-cases (is_client c)) [
  | inl e ↦ rw e (e, filter-IsClient clients)
  | inr e ↦ rw e (filter-IsClient clients)
]

-- With a window of another program that is shown and has a class, the active window is such a window,
-- however recently the shell's own were focused.
pub active_client_other :
    (clients : List Value) (c : Value)
    → Memᴰ c clients
    → is_client c ≡ true
    → is_shell c ≡ false
    → (w : Value) × (active_client clients ≡ some w) × (is_shell w ≡ false) × (is_client w ≡ true)
unfolding active_client
active_client_other clients c m h k =
    let shown = filter is_client clients in
    let (w, found, other, client) =
      find-some is_other (sort_by focused_before shown)
        (sort-All (λ d. is_client d ≡ true) focused_before shown (filter-IsClient clients))
        (any-sort focused_before is_other shown ∙ any-filter_other clients c m h k) in
    (w, rw (found, active_client) refl, not-true (is_shell w) other, client)
