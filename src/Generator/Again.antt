-- ===== src/Generator/Again.antt =====
-- What a second normalisation of the options does.
use dms_bitwarden_cli.Common.{
  ℕ, ◌+◌, ◌≤◌, min, max, ◌≡◌, refl, ◌⊎◌, inl, inr, Bool, true, false, not, ◌&&◌, arith, ltb,
  if◌then◌else◌, Bool-cases, Str, codes,
}
use dms_bitwarden_cli.Js.Numbers.{nat}
use dms_bitwarden_cli.Js.Values.{Value, boolean, number, string, object, end, field, prop, truthy}
use dms_bitwarden_cli.Generator.{
  GeneratorOptions, is_absent, option, clamp_int, no_sets, separator_or_dash,
  normalize_generator_options,
}
use dms_bitwarden_cli.Generator.Normal.{
  IsWithin, normalize-IsWithin, clamp_int-bounds, min_where-bounds,
}

-- The counts of the options, and what they say of each of them, as the panel saves them.
abbrev pub options_value : GeneratorOptions → Value
options_value o = object (
    field (codes "type") o.type (
      field (codes "length") (number (nat o.length_chars)) (
        field (codes "uppercase") o.uppercase (
          field (codes "lowercase") o.lowercase (
            field (codes "numbers") o.numbers (
              field (codes "special") o.special (
                field (codes "minNumber") (number (nat o.min_number)) (
                  field (codes "minSpecial") (number (nat o.min_special)) (
                    field (codes "ambiguous") o.ambiguous (
                      field (codes "words") (number (nat o.words)) (
                        field (codes "separator") o.separator (
                          field (codes "capitalize") o.capitalize
                            (field (codes "includeNumber") o.include_number end)))))))))))))

-- No value of the options is undefined.
record IsPresent (o : GeneratorOptions) : Type 0 where
  pub type : is_absent o.type ≡ false
  pub uppercase : is_absent o.uppercase ≡ false
  pub lowercase : is_absent o.lowercase ≡ false
  pub numbers : is_absent o.numbers ≡ false
  pub special : is_absent o.special ≡ false
  pub ambiguous : is_absent o.ambiguous ≡ false
  pub separator : is_absent o.separator ≡ false
  pub capitalize : is_absent o.capitalize ≡ false
  pub include_number : is_absent o.include_number ≡ false
  pub counts : (o.min_number ≤ 9) × (o.min_special ≤ 9)

clamp_again : (n lo hi : ℕ) → lo ≤ n → n ≤ hi → max lo (min hi n) ≡ n
clamp_again n lo hi h k = omega (arith, h, k)

option_there :
    (key : Str) (d v opts : Value) → prop key opts ≡ v → is_absent v ≡ false → option key d opts ≡ v
unfolding option
option_there key d v opts e h = rw (e, h) refl

count_again :
    (v : Value) (n : ℕ)
    → n ≤ 9
    → (truthy v ≡ true) ⊎ (n ≡ 0)
    → (if truthy v then max 0 (min 9 n) else 0) ≡ n
count_again v n k h = ground arith

length_again : (len r : ℕ) → r ≤ len → (if ltb len r then min 128 r else len) ≡ len
length_again len r h = ground arith

sets_again :
    (u l n s : Value)
    → no_sets u l n s ≡ false
    → (not (truthy u) && not (truthy l) && not (truthy n) && not (truthy s)) ≡ false
unfolding no_sets
sets_again u l n s h = h

option_present :
    (key : Str) (d opts : Value) → is_absent d ≡ false → is_absent (option key d opts) ≡ false
unfolding option
option_present key d opts h = elim (Bool-cases (is_absent (prop key opts))) [
  | inl e ↦ rw e h
  | inr e ↦ rw e e
]

no_sets-false :
    (u l n s : Value)
    → (truthy u ≡ true) ⊎ (truthy l ≡ true) ⊎ (truthy n ≡ true) ⊎ (truthy s ≡ true)
    → no_sets u l n s ≡ false
unfolding no_sets
no_sets-false u l n s h = ground arith

-- Options within the limits are left as they are.
normalize_fixed :
    (o : GeneratorOptions)
    → IsPresent o
    → IsWithin o
    → normalize_generator_options (options_value o) ≡ o
unfolding normalize_generator_options
normalize_fixed o p g =
    rw
      (
        option_there (codes "type") (string (codes "password")) o.type (options_value o)
            (unfold prop in refl) p.type,
        option_there (codes "uppercase") (boolean true) o.uppercase (options_value o)
            (unfold prop in refl) p.uppercase,
        option_there (codes "lowercase") (boolean true) o.lowercase (options_value o)
            (unfold prop in refl) p.lowercase,
        option_there (codes "numbers") (boolean true) o.numbers (options_value o)
            (unfold prop in refl) p.numbers,
        option_there (codes "special") (boolean false) o.special (options_value o)
            (unfold prop in refl) p.special,
        option_there (codes "ambiguous") (boolean false) o.ambiguous (options_value o)
            (unfold prop in refl) p.ambiguous,
        option_there (codes "separator") (string (codes "-")) o.separator (options_value o)
            (unfold prop in refl) p.separator,
        option_there (codes "capitalize") (boolean false) o.capitalize (options_value o)
            (unfold prop in refl) p.capitalize,
        option_there (codes "includeNumber") (boolean false) o.include_number (options_value o)
            (unfold prop in refl) p.include_number,
        clamp_again o.length_chars 5 128 g.length_within.0 g.length_within.1,
        clamp_again o.words 3 20 g.words_within.0 g.words_within.1,
        count_again o.numbers o.min_number p.counts.0 g.no_numbers,
        count_again o.special o.min_special p.counts.1 g.no_special,
        length_again o.length_chars (o.min_number + o.min_special) g.fits,
        sets_again o.uppercase o.lowercase o.numbers o.special
            (no_sets-false o.uppercase o.lowercase o.numbers o.special g.some_set),
        g.separated,
      )
      refl

lowercase_present :
    (b : Bool) (v : Value) → is_absent v ≡ false → is_absent (if b then boolean true else v) ≡ false
lowercase_present true v h = refl
lowercase_present false v h = h

separator_present : (v : Value) → is_absent v ≡ false → is_absent (separator_or_dash v) ≡ false
unfolding separator_or_dash
separator_present v h = elim (Bool-cases (truthy v)) [ inl e ↦ rw e h | inr e ↦ rw e refl ]

normalize-IsPresent : (opts : Value) → IsPresent (normalize_generator_options opts)
unfolding normalize_generator_options
normalize-IsPresent opts =
    let n = option (codes "numbers") (boolean true) opts in
    let s = option (codes "special") (boolean false) opts in
    record {
      type = option_present (codes "type") (string (codes "password")) opts refl;
      uppercase = option_present (codes "uppercase") (boolean true) opts refl;
      lowercase =
          lowercase_present
            (no_sets (option (codes "uppercase") (boolean true) opts)
              (option (codes "lowercase") (boolean true) opts) n s)
            (option (codes "lowercase") (boolean true) opts)
            (option_present (codes "lowercase") (boolean true) opts refl);
      numbers = option_present (codes "numbers") (boolean true) opts refl;
      special = option_present (codes "special") (boolean false) opts refl;
      ambiguous = option_present (codes "ambiguous") (boolean false) opts refl;
      separator =
          separator_present (option (codes "separator") (string (codes "-")) opts)
            (option_present (codes "separator") (string (codes "-")) opts refl);
      capitalize = option_present (codes "capitalize") (boolean false) opts refl;
      include_number = option_present (codes "includeNumber") (boolean false) opts refl;
      counts = (
        min_where-bounds n (clamp_int (option (codes "minNumber") (number (nat 1)) opts) 0 9)
            (clamp_int-bounds (option (codes "minNumber") (number (nat 1)) opts) 0 9
              (omega arith)).1,
        min_where-bounds s (clamp_int (option (codes "minSpecial") (number (nat 1)) opts) 0 9)
            (clamp_int-bounds (option (codes "minSpecial") (number (nat 1)) opts) 0 9
              (omega arith)).1,
      );
    }

-- Normalising the options a second time, from the object that holds the first result, changes nothing.
pub normalize_generator_options_idempotent :
    (opts : Value)
    → normalize_generator_options (options_value (normalize_generator_options opts))
      ≡ normalize_generator_options opts
normalize_generator_options_idempotent opts =
    normalize_fixed (normalize_generator_options opts) (normalize-IsPresent opts)
      (normalize-IsWithin opts)
