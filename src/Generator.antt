-- ===== src/Generator.antt =====
-- The password generator's options (BitwardenModel.js, "GENERATOR_DEFAULTS" to "generatorParams"): how
-- any saved or typed options are made ones that the CLI accepts, and its arguments.
pub mod Normal
pub mod Again
use dms_bitwarden_cli.Common.{
  ℕ, ◌+◌, ◌-◌, min, max, Bool, true, false, not, ◌&&◌, none, List, [], ◌∷◌, ◌++◌, ltb,
  if◌then◌else◌, length, pos, negsuc, Str, codes,
}
use dms_bitwarden_cli.Js.Numbers.{Number, nan, infinite, fin, nat, floor}
use dms_bitwarden_cli.Js.Values.{
  Value, undefined, boolean, number, string, prop, truthy, strict_eq, to_string, to_number,
}

pub record GeneratorOptions : Type 0 where
  pub type : Value
  pub length_chars : ℕ
  pub uppercase : Value
  pub lowercase : Value
  pub numbers : Value
  pub special : Value
  pub min_number : ℕ
  pub min_special : ℕ
  pub ambiguous : Value
  pub words : ℕ
  pub separator : Value
  pub capitalize : Value
  pub include_number : Value

abbrev pub is_absent : Value → Bool
is_absent undefined = true
is_absent _ = false

-- `opts[key]`, or the default where that is undefined.
unfoldable pub option : Str → Value → Value → Value
unfolding prop
option key default_value opts = if is_absent (prop key opts) then default_value else prop key opts

unfoldable pub clamp_number : ℕ → ℕ → Number → ℕ
clamp_number lo hi nan = lo
clamp_number lo hi (infinite true) = lo
clamp_number lo hi (infinite false) = hi
clamp_number lo hi (fin (pos n) ds) = max lo (min hi n)
clamp_number lo hi (fin (negsuc n) ds) = lo

unfoldable pub clamp_int : Value → ℕ → ℕ → ℕ
unfolding floor to_number clamp_number
clamp_int v lo hi = clamp_number lo hi (floor (to_number v))

-- Whether no character set is on.
unfoldable pub no_sets : Value → Value → Value → Value → Bool
unfolding truthy
no_sets u l n s = not (truthy u) && not (truthy l) && not (truthy n) && not (truthy s)

unfoldable pub min_where : Value → ℕ → ℕ
unfolding truthy
min_where on n = if truthy on then n else 0

unfoldable pub long_enough : ℕ → ℕ → ℕ
long_enough len required = if ltb len required then min 128 required else len

unfoldable pub separator_or_dash : Value → Value
unfolding truthy
separator_or_dash v = if truthy v then v else string (codes "-")

unfoldable pub normalize_generator_options : Value → GeneratorOptions
unfolding option clamp_int no_sets min_where long_enough separator_or_dash
normalize_generator_options opts =
    let u = option (codes "uppercase") (boolean true) opts in
    let l = option (codes "lowercase") (boolean true) opts in
    let n = option (codes "numbers") (boolean true) opts in
    let s = option (codes "special") (boolean false) opts in
    let min_n = min_where n (clamp_int (option (codes "minNumber") (number (nat 1)) opts) 0 9) in
    let min_s = min_where s (clamp_int (option (codes "minSpecial") (number (nat 1)) opts) 0 9) in
    record {
      type = option (codes "type") (string (codes "password")) opts;
      length_chars =
          long_enough (clamp_int (option (codes "length") (number (nat 14)) opts) 5 128)
            (min_n + min_s);
      uppercase = u;
      lowercase = if no_sets u l n s then boolean true else l;
      numbers = n;
      special = s;
      min_number = min_n;
      min_special = min_s;
      ambiguous = option (codes "ambiguous") (boolean false) opts;
      words = clamp_int (option (codes "words") (number (nat 3)) opts) 3 20;
      separator = separator_or_dash (option (codes "separator") (string (codes "-")) opts);
      capitalize = option (codes "capitalize") (boolean false) opts;
      include_number = option (codes "includeNumber") (boolean false) opts;
    }

abbrev flag : Str → Value → List (Str × Value)
flag name on = if truthy on then (name, boolean true) ∷ [] else []

abbrev amount : Str → ℕ → List (Str × Value)
amount name n = (name, number (nat n)) ∷ []

unfoldable pub passphrase_params : GeneratorOptions → List (Str × Value)
unfolding truthy
passphrase_params o =
    (codes "passphrase", boolean true)
      ∷ (codes "words", number (nat o.words))
      ∷ (codes "separator", o.separator)
      ∷ flag (codes "capitalize") o.capitalize
    ++ flag (codes "includeNumber") o.include_number

unfoldable pub password_params : GeneratorOptions → List (Str × Value)
unfolding truthy
password_params o =
    flag (codes "uppercase") o.uppercase
    ++ flag (codes "lowercase") o.lowercase
    ++ flag (codes "number") o.numbers
    ++ flag (codes "special") o.special
    ++ amount (codes "length") o.length_chars
    ++ (if truthy o.numbers then amount (codes "minNumber") o.min_number else [])
    ++ (if truthy o.special then amount (codes "minSpecial") o.min_special else [])
    ++ flag (codes "ambiguous") o.ambiguous

unfoldable pub generator_params : Value → List (Str × Value)
unfolding normalize_generator_options passphrase_params password_params strict_eq
generator_params opts =
    let o = normalize_generator_options opts in
    if strict_eq o.type (string (codes "passphrase"))
    then passphrase_params o
    else password_params o

-- The arguments that one parameter adds to `bw generate`.
unfoldable pub param_args : Str × Value → List Str
unfolding to_string
param_args (name, boolean true) = (codes "--" ++ name) ∷ []
param_args (name, v) = (codes "--" ++ name) ∷ to_string v ∷ []

unfoldable pub params_args : List (Str × Value) → List Str
unfolding param_args
params_args [] = []
params_args (p ∷ ps) = param_args p ++ params_args ps

-- What `generateCommand` hands to the CLI.
unfoldable pub generate_args : Value → List Str
unfolding generator_params params_args
generate_args opts = codes "generate" ∷ params_args (generator_params opts)
