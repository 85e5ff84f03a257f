-- ===== src/Generator/Normal.antt =====
-- What the options are made.
use dms_bitwarden_cli.Common.{
  ℕ, ◌+◌, ◌≤◌, ◌≡◌, refl, ◌⊎◌, inl, inr, true, false, arith, if◌then◌else◌, Bool-cases, pos, negsuc,
  codes,
}
use dms_bitwarden_cli.Js.Numbers.{Number, nan, infinite, fin, nat, floor}
use dms_bitwarden_cli.Js.Values.{Value, boolean, number, string, truthy, to_number}
use dms_bitwarden_cli.Generator.{
  GeneratorOptions, option, clamp_number, clamp_int, no_sets, min_where, long_enough,
  separator_or_dash, normalize_generator_options,
}

clamp_number-bounds :
    (lo hi : ℕ) (n : Number) → lo ≤ hi → (lo ≤ clamp_number lo hi n) × (clamp_number lo hi n ≤ hi)
unfolding clamp_number
clamp_number-bounds lo hi nan h = (omega arith, omega arith)
clamp_number-bounds lo hi (infinite true) h = (omega arith, omega arith)
clamp_number-bounds lo hi (infinite false) h = (omega arith, omega arith)
clamp_number-bounds lo hi (fin (pos n) ds) h = (omega arith, omega arith)
clamp_number-bounds lo hi (fin (negsuc n) ds) h = (omega arith, omega arith)

pub clamp_int-bounds :
    (v : Value) (lo hi : ℕ) → lo ≤ hi → (lo ≤ clamp_int v lo hi) × (clamp_int v lo hi ≤ hi)
unfolding clamp_int
clamp_int-bounds v lo hi h = clamp_number-bounds lo hi (floor (to_number v)) h

-- Options within the limits of the form.
pub record IsWithin (o : GeneratorOptions) : Type 0 where
  pub length_within : (5 ≤ o.length_chars) × (o.length_chars ≤ 128)
  pub words_within : (3 ≤ o.words) × (o.words ≤ 20)
  pub fits : o.min_number + o.min_special ≤ o.length_chars
  pub some_set :
      (truthy o.uppercase ≡ true)
      ⊎ (truthy o.lowercase ≡ true)
      ⊎ (truthy o.numbers ≡ true)
      ⊎ (truthy o.special ≡ true)
  pub no_numbers : (truthy o.numbers ≡ true) ⊎ (o.min_number ≡ 0)
  pub no_special : (truthy o.special ≡ true) ⊎ (o.min_special ≡ 0)
  pub separated : truthy o.separator ≡ true

pub min_where-bounds : (v : Value) (n : ℕ) → n ≤ 9 → min_where v n ≤ 9
unfolding min_where
min_where-bounds v n h = ground arith

min_where-off : (v : Value) (n : ℕ) → (truthy v ≡ true) ⊎ (min_where v n ≡ 0)
unfolding min_where
min_where-off v n = ground arith

long_enough-bounds :
    (len a b : ℕ)
    → (5 ≤ len) × (len ≤ 128)
    → a ≤ 9
    → b ≤ 9
    → (5 ≤ long_enough len (a + b))
      × (long_enough len (a + b) ≤ 128)
      × (a + b ≤ long_enough len (a + b))
unfolding long_enough
long_enough-bounds len a b h g k = ground arith

separator-truthy : (v : Value) → truthy (separator_or_dash v) ≡ true
unfolding separator_or_dash
separator-truthy v = elim (Bool-cases (truthy v)) [
  | inl e ↦ rw e e
  | inr e ↦ rw e (unfold truthy in refl)
]

some_set_on :
    (u l n s : Value)
    → (truthy u ≡ true)
      ⊎ (truthy (if no_sets u l n s then boolean true else l) ≡ true)
      ⊎ (truthy n ≡ true)
      ⊎ (truthy s ≡ true)
some_set_on u l n s = elim (Bool-cases (no_sets u l n s)) [
  | inl e ↦ rw e (inr (inl (unfold truthy in refl)))
  | inr e ↦ rw e (unfold no_sets in ground arith)
]

pub normalize-IsWithin : (opts : Value) → IsWithin (normalize_generator_options opts)
unfolding normalize_generator_options
normalize-IsWithin opts =
    let n = option (codes "numbers") (boolean true) opts in
    let s = option (codes "special") (boolean false) opts in
    let count = clamp_int (option (codes "minNumber") (number (nat 1)) opts) 0 9 in
    let symbols = clamp_int (option (codes "minSpecial") (number (nat 1)) opts) 0 9 in
    let len = option (codes "length") (number (nat 14)) opts in
    let room =
      long_enough-bounds (clamp_int len 5 128) (min_where n count) (min_where s symbols)
        (clamp_int-bounds len 5 128 (omega arith))
        (min_where-bounds n count
          (clamp_int-bounds (option (codes "minNumber") (number (nat 1)) opts) 0 9 (omega arith)).1)
        (min_where-bounds s symbols
          (clamp_int-bounds (option (codes "minSpecial") (number (nat 1)) opts) 0 9
            (omega arith)).1) in
    record {
      length_within = (room.0, room.1);
      words_within =
          clamp_int-bounds (option (codes "words") (number (nat 3)) opts) 3 20 (omega arith);
      fits = room.2;
      some_set =
          some_set_on (option (codes "uppercase") (boolean true) opts)
            (option (codes "lowercase") (boolean true) opts) n s;
      no_numbers = min_where-off n count;
      no_special = min_where-off s symbols;
      separated = separator-truthy (option (codes "separator") (string (codes "-")) opts);
    }
