-- ===== src/Apps/Bench/Bytes.antt =====
-- The byte counts of apps/esio_bench.c with their units. Floating point numbers and the functions
-- of math.h on them are a parameter.
pub mod Suffix
use Prim.Native.String.{String}
use esio.Prelude.{
  ℤ, pos, negsuc, ltb_ℤ, ℕ, ◌/◌, Bool, Option, none, some, List, [], ◌∷◌, ◌==◌, if◌then◌else◌,
  get_or, ◌||◌, pos_part,
}
use esio.Io.{Text}
use esio.Apps.Text.{toupper, skip_space}

-- `to_ℤ` is the conversion to int and long, and `strtod` gives the value, the rest of the text and
-- whether errno is set.
pub record Doubles : Type 1 where
  pub Double : Type 0
  pub of_ℤ : ℤ → Double
  pub to_ℤ : Double → ℤ
  pub times : Double → Double → Double
  pub over : Double → Double → Double
  pub log : Double → Double
  pub pow : Double → Double → Double
  pub ceil : Double → Double
  pub cbrt : Double → Double
  pub sqrt : Double → Double
  pub strtod : Text → Double × Text × Bool

-- The exponent for the letter of a prefix.
abbrev pub prefix_exponent : ℕ → Option ℕ
prefix_exponent c =
    if c == b'B'
    then some 0
    else if c == b'K'
    then some 3
    else if c == b'M'
    then some 6
    else if c == b'G'
    then some 9
    else if c == b'T'
    then some 12
    else if c == b'E'
    then some 15
    else if c == b'Z'
    then some 18
    else if c == b'Y'
    then some 21
    else none

abbrev pub ended : ℕ → ℕ → Text → Option (ℕ × ℕ)
ended exp unit [] = some (exp, unit)
ended exp unit (c ∷ s) = none

-- After the prefix and its `i`: nothing, or a B or a blank, and then white space.
unfoldable pub after_prefix : ℕ → ℕ → Text → Option (ℕ × ℕ)
unfolding skip_space
after_prefix exp unit [] = some (exp, unit)
after_prefix exp unit (c ∷ s) =
    if toupper c == b'B' || c == b' ' || c == 9 then ended exp unit (skip_space s) else none

-- `if (toupper(*endptr) == 'I') { ++endptr; unit = 1000; }`
unfoldable pub after_letter : ℕ → Text → Option (ℕ × ℕ)
unfolding after_prefix
after_letter exp [] = after_prefix exp 1024 []
after_letter exp (c ∷ s) =
    if toupper c == b'I' then after_prefix exp 1000 s else after_prefix exp 1024 (c ∷ s)

abbrev pub letter_or_none : Option ℕ → Text → Option (ℕ × ℕ)
letter_or_none none s = none
letter_or_none (some exp) s = after_letter exp s

-- The exponent and the unit of what stands behind the number and its white space.
unfoldable pub suffix : Text → Option (ℕ × ℕ)
unfolding after_letter
suffix [] = some (0, 1024)
suffix (c ∷ s) =
    if c == b' ' || c == 9 then some (0, 1024) else letter_or_none (prefix_exponent (toupper c)) s

-- The static table, whose columns are for `si` unset and set.
abbrev pub suffix_table : List (String × String)
suffix_table =
    ("B", "B")
    ∷ ("kB", "KiB")
    ∷ ("MB", "MiB")
    ∷ ("GB", "GiB")
    ∷ ("TB", "TiB")
    ∷ ("EB", "EiB")
    ∷ ("ZB", "ZiB")
    ∷ ("YB", "YiB")
    ∷ []

abbrev pub min : ℤ → ℤ → ℤ
min a b = if ltb_ℤ a b then a else b

module _ (D : Doubles) where
  open D use {Double, of_ℤ, to_ℤ, times, over, log, pow, strtod}

  abbrev scaled : Double → Option (ℕ × ℕ) → ℤ
  scaled coeff none = negsuc 0
  scaled coeff (some (exp, unit)) =
      to_ℤ (if exp == 0 then coeff else times coeff (pow (of_ℤ (pos unit)) (of_ℤ (pos (exp / 3)))))

  unfoldable pub from_human_readable_byte_count : Text → ℤ
  unfolding suffix skip_space
  from_human_readable_byte_count str =
      let (coeff, rest, errno) = strtod str in
      if errno then negsuc 0 else scaled coeff (suffix (skip_space rest))

  -- The coefficient and the unit.
  unfoldable pub to_human_readable_byte_count : ℤ → Bool → Double × String
  to_human_readable_byte_count bytes si =
      let unit = of_ℤ (if si then pos 1000 else pos 1024) in
      let exp : ℤ =
        if ltb_ℤ (pos 0) bytes
        then min (to_ℤ (over (log (of_ℤ bytes)) (log unit))) (pos 7)
        else pos 0 in
      let (plain, with_i) = get_or suffix_table (pos_part exp) ("", "") in
      (over (of_ℤ bytes) (pow unit (of_ℤ exp)), if si then with_i else plain)
