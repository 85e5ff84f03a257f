-- ===== src/Settings.antt =====
-- The panel's settings (BitwardenModel.js, "SETTINGS_SCHEMA" to "settingWriteValue"): the schema, and
-- how a value of the shell's file, which nothing validates, is read and written.
pub mod Written
pub mod Screen
use dms_bitwarden_cli.Common.{
  ℕ, ◌+◌, ◌-◌, min, max, Bool, true, false, Option, none, some, List, [], ◌∷◌, ltb, ◌==◌,
  if◌then◌else◌, is_empty, any, pos, Str, codes, ◌===◌, trim,
}
use dms_bitwarden_cli.Js.Numbers.{Number, nan, fin, nat, floor}
use dms_bitwarden_cli.Js.Values.{
  Value, boolean, number, string, object, Fields, end, field, strict_eq, to_number,
}

-- What the schema says of a setting's values.
pub data Kind : Type 0 where
  int_kind : (min max default_value : ℕ) → Kind
  bool_kind : (default_value : Bool) → Kind

pub data Group : Type 0 where
  general security ssh_agent : Group

pub record SchemaEntry : Type 0 where
  pub key : Str
  pub group : Group
  pub kind : Kind

abbrev int_entry : Group → Str → ℕ → ℕ → ℕ → SchemaEntry
int_entry group key min max default_value = record {
  key = key;
  group = group;
  kind = int_kind min max default_value;
}

abbrev bool_entry : Group → Str → Bool → SchemaEntry
bool_entry group key default_value = record {
  key = key;
  group = group;
  kind = bool_kind default_value;
}

unfoldable pub settings_schema : List SchemaEntry
settings_schema =
    int_entry security (codes "autoLockMinutes") 0 1440 15
    ∷ int_entry security (codes "clearClipboardSec") 0 300 30
    ∷ bool_entry security (codes "lockOnScreenLock") true
    ∷ bool_entry security (codes "lockOnSuspend") true
    ∷ bool_entry security (codes "rememberSession") true
    ∷ bool_entry security (codes "fingerprintUnlock") false
    ∷ bool_entry security (codes "fidoUnlock") false
    ∷ bool_entry security (codes "pinUnlock") false
    ∷ bool_entry security (codes "usePinentry") true
    ∷ bool_entry ssh_agent (codes "sshAgentEnabled") false
    ∷ bool_entry ssh_agent (codes "sshAgentUnlockOnDemand") false
    ∷ bool_entry ssh_agent (codes "sshAgentApprovalPopup") true
    ∷ bool_entry ssh_agent (codes "sshAgentApprovalUntilScreenLock") false
    ∷ int_entry ssh_agent (codes "sshAgentApprovalWindowSec") 0 900 120
    ∷ bool_entry general (codes "closeOnCopy") true
    ∷ bool_entry general (codes "colorizeIcon") false
    ∷ int_entry general (codes "autoCopyTotpSec") 0 30 3
    ∷ bool_entry general (codes "suggestOnOpen") true
    ∷ []

unfoldable pub kind_in : Str → List SchemaEntry → Option Kind
unfolding ◌===◌
kind_in key [] = none
kind_in key (e ∷ rest) =
    let later = kind_in key rest in if e.key === key then some e.kind else later

unfoldable pub setting_schema_entry : Str → Option Kind
unfolding kind_in settings_schema
setting_schema_entry key = kind_in key settings_schema

-- A number or a text that is not blank, rounded down; anything else is NaN.
unfoldable pub whole_number : Value → Number
unfolding floor to_number trim
whole_number (number n) = floor n
whole_number (string s) = if is_empty (trim s) then nan else floor (to_number (string s))
whole_number _ = nan

abbrev pub clamp : ℕ → ℕ → ℕ → ℕ
clamp lo hi n = max lo (min hi n)

-- Of a whole number or one that is not finite.
unfoldable pub bounded_setting : ℕ → ℕ → ℕ → Number → ℕ
bounded_setting lo hi default_value (fin (pos n) ds) =
    clamp lo hi (if ltb n lo then default_value else n)
bounded_setting lo hi default_value _ = clamp lo hi default_value

abbrev pub finite_or_zero : Number → Number
finite_or_zero (fin z ds) = fin z ds
finite_or_zero _ = nat 0

unfoldable pub int_value : Option Kind → Value → Number
unfolding whole_number bounded_setting
int_value (some (int_kind lo hi default_value)) raw =
    nat (bounded_setting lo hi default_value (whole_number raw))
int_value _ raw = finite_or_zero (whole_number raw)

unfoldable pub int_setting : Str → Value → Number
unfolding setting_schema_entry int_value
int_setting key raw = int_value (setting_schema_entry key) raw

-- `entry.defaultValue === true` of a Boolean setting, and false of any other key.
abbrev pub default_bool : Option Kind → Bool
default_bool (some (bool_kind b)) = b
default_bool _ = false

unfoldable pub bool_value : Option Kind → Value → Bool
bool_value kind (boolean b) = b
bool_value kind _ = default_bool kind

unfoldable pub bool_setting : Str → Value → Bool
unfolding setting_schema_entry bool_value
bool_setting key raw = bool_value (setting_schema_entry key) raw

abbrev pub two_factor_methods : List ℕ
two_factor_methods = 0 ∷ 3 ∷ 1 ∷ []

unfoldable pub is_two_factor_method : Value → Bool
unfolding any strict_eq
is_two_factor_method v = any (λ m. strict_eq (number (nat m)) v) two_factor_methods

-- The properties of `value` that name a method.
unfoldable pub method_fields : Fields → Fields
unfolding is_two_factor_method
method_fields end = end
method_fields (field account v rest) =
    let more = method_fields rest in if is_two_factor_method v then field account v more else more

-- The value of a setting that is written; `none` is undefined.
unfoldable pub written_methods : Value → Option Value
unfolding method_fields
written_methods (object fs) = some (object (method_fields fs))
written_methods _ = none

unfoldable pub written_kind : Option Kind → Value → Option Value
unfolding int_value bool_value
written_kind none v = none
written_kind (some (bool_kind b)) v = some (boolean (bool_value (some (bool_kind b)) v))
written_kind (some (int_kind lo hi d)) v = some (number (int_value (some (int_kind lo hi d)) v))

unfoldable pub setting_write_value : Str → Value → Option Value
unfolding setting_schema_entry written_methods written_kind ◌===◌
setting_write_value key v =
    if key === codes "twoFactorMethods"
    then written_methods v
    else written_kind (setting_schema_entry key) v
