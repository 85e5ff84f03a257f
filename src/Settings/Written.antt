-- ===== src/Settings/Written.antt =====
-- What is read of a setting lies in its bounds, and what is written reads back.
use dms_bitwarden_cli.Common.{
  ℕ, ◌≤◌, ◌≡◌, refl, ap, ◌∙◌, inl, inr, true, false, Option, none, some, List, [], ◌∷◌, arith,
  Bool-cases, All, pos, Str, codes, ◌===◌,
}
use dms_bitwarden_cli.Js.Numbers.{Number, fin, nat}
use dms_bitwarden_cli.Js.Values.{Value, number, object, Fields, end, field}
use mathlib.Core.Path.{subst}
use dms_bitwarden_cli.Settings.{
  Kind, int_kind, bool_kind, SchemaEntry, settings_schema, kind_in, setting_schema_entry,
  whole_number, bounded_setting, int_value, int_setting, bool_value, is_two_factor_method,
  method_fields, written_methods, written_kind, setting_write_value,
}

-- A kind whose default and bounds are in order.
abbrev IsOrdered : Kind → Type 0
IsOrdered (int_kind lo hi d) = (lo ≤ d) × (d ≤ hi)
IsOrdered (bool_kind b) = Unit

abbrev IsOrderedKind : Option Kind → Type 0
IsOrderedKind none = Unit
IsOrderedKind (some k) = IsOrdered k

kind_in-IsOrdered :
    (key : Str) (l : List SchemaEntry)
    → All (λ e. IsOrdered e.kind) l
    → IsOrderedKind (kind_in key l)
unfolding kind_in
kind_in-IsOrdered key [] h = tt
kind_in-IsOrdered key (e ∷ l) h = elim (Bool-cases (e.key === key)) [
  | inl same ↦ rw same h.0
  | inr other ↦ rw other (kind_in-IsOrdered key l h.1)
]

schema-IsOrdered : All (λ e. IsOrdered e.kind) settings_schema
unfolding settings_schema
schema-IsOrdered = (
  (omega arith, omega arith),
  (
    (omega arith, omega arith),
    (
      tt,
      (
        tt,
        (
          tt,
          (
            tt,
            (
              tt,
              (
                tt,
                (
                  tt,
                  (
                    tt,
                    (
                      tt,
                      (
                        tt,
                        (
                          tt,
                          (
                            (omega arith, omega arith),
                            (tt, (tt, ((omega arith, omega arith), (tt, tt)))),
                          ),
                        ),
                      ),
                    ),
                  ),
                ),
              ),
            ),
          ),
        ),
      ),
    ),
  ),
)

bounded_setting-bounds :
    (lo hi d : ℕ) (n : Number)
    → lo ≤ hi
    → (lo ≤ bounded_setting lo hi d n) × (bounded_setting lo hi d n ≤ hi)
unfolding bounded_setting
bounded_setting-bounds lo hi d (fin (pos n) ds) h = ground arith
bounded_setting-bounds lo hi d _ h = (omega arith, omega arith)

bounded_setting_again : (lo hi d n : ℕ) → lo ≤ n → n ≤ hi → bounded_setting lo hi d (nat n) ≡ n
unfolding bounded_setting
bounded_setting_again lo hi d n h k = ground arith

method_fields_again : (fs : Fields) → method_fields (method_fields fs) ≡ method_fields fs
unfolding method_fields
method_fields_again end = refl
method_fields_again (field account v rest) = elim (Bool-cases (is_two_factor_method v)) [
  | inl e ↦ rw e (rw e (ap (field account v) (method_fields_again rest)))
  | inr e ↦ rw e (method_fields_again rest)
]

abbrev WrittenAgain : (Value → Option Value) → Option Value → Type 0
WrittenAgain write none = Unit
WrittenAgain write (some w) = write w ≡ some w

written_methods_again : (v : Value) → WrittenAgain written_methods (written_methods v)
unfolding written_methods
written_methods_again (object fs) = ap (λ t. some (object t)) (method_fields_again fs)
written_methods_again _ = tt

written_kind_again :
    (k : Option Kind) (v : Value)
    → IsOrderedKind k
    → WrittenAgain (written_kind k) (written_kind k v)
unfolding written_kind int_value bool_value whole_number
written_kind_again none v h = tt
written_kind_again (some (bool_kind b)) v h = refl
written_kind_again (some (int_kind lo hi d)) v h =
    let b = bounded_setting-bounds lo hi d (whole_number v) (omega (arith, h.0, h.1)) in
    ap (λ n. some (number (nat n)))
      (bounded_setting_again lo hi d (bounded_setting lo hi d (whole_number v)) b.0 b.1)

entry-IsOrderedKind : (key : Str) → IsOrderedKind (setting_schema_entry key)
unfolding setting_schema_entry
entry-IsOrderedKind key = kind_in-IsOrdered key settings_schema schema-IsOrdered

-- Whatever the shell's file holds for an integer setting of the schema, what is read of it is a
-- whole number within the setting's bounds.
pub int_setting_within :
    (key : Str) (raw : Value) (lo hi d : ℕ)
    → setting_schema_entry key ≡ some (int_kind lo hi d)
    → (n : ℕ) × (int_setting key raw ≡ nat n) × (lo ≤ n) × (n ≤ hi)
unfolding int_setting
int_setting_within key raw lo hi d e =
    let o : (lo ≤ d) × (d ≤ hi) = subst IsOrderedKind e (entry-IsOrderedKind key) in
    let b = bounded_setting-bounds lo hi d (whole_number raw) (omega (arith, o.0, o.1)) in
    (
      bounded_setting lo hi d (whole_number raw),
      ap (λ k. int_value k raw) e ∙ (unfold int_value in refl),
      b.0,
      b.1,
    )

writes_methods :
    (key : Str) (v : Value)
    → (key === codes "twoFactorMethods") ≡ true
    → setting_write_value key v ≡ written_methods v
unfolding setting_write_value
writes_methods key v e = rw e refl

writes_kind :
    (key : Str) (v : Value)
    → (key === codes "twoFactorMethods") ≡ false
    → setting_write_value key v ≡ written_kind (setting_schema_entry key) v
unfolding setting_write_value
writes_kind key v e = rw e refl

same_writer :
    (f g : Value → Option Value)
    → ((w : Value) → g w ≡ f w)
    → (o : Option Value) → WrittenAgain f o
    → WrittenAgain g o
same_writer f g e none h = tt
same_writer f g e (some w) h = e w ∙ h

written_again :
    (key : Str) (v : Value) → WrittenAgain (setting_write_value key) (setting_write_value key v)
written_again key v = elim (Bool-cases (key === codes "twoFactorMethods")) [
  | inl e ↦ rw (writes_methods key v e) (
      same_writer written_methods (setting_write_value key) (λ w. writes_methods key w e)
        (written_methods v) (written_methods_again v))
  | inr e ↦ rw (writes_kind key v e) (
      same_writer (written_kind (setting_schema_entry key)) (setting_write_value key)
        (λ w. writes_kind key w e) (written_kind (setting_schema_entry key) v)
        (written_kind_again (setting_schema_entry key) v (entry-IsOrderedKind key)))
]

-- A value that is written for a setting is written again as it is: it is already a valid one.
pub setting_write_value_again :
    (key : Str) (v w : Value)
    → setting_write_value key v ≡ some w
    → setting_write_value key w ≡ some w
setting_write_value_again key v w e =
    subst (WrittenAgain (setting_write_value key)) e (written_again key v)
