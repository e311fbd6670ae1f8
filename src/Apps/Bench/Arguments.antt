-- ===== src/Apps/Bench/Arguments.antt =====
-- What `parse_opt` of apps/esio_bench.c does with the argument of an option. The functions
-- argp_usage, argp_error and argp_failure end the program, since argp is called without flags.
use esio.Prelude.{
  ℤ, pos, negsuc, pos_part, ltb_ℤ, is_neg, ℕ, Bool, true, false, ◌||◌, not, Option, none, some,
  List, [], ◌∷◌, ltb, ◌==◌, if◌then◌else◌,
}
use esio.Io.{Text, int_limit}
use esio.Apps.Text.{Directive, integer, blank, character, ordinary, sscanf}
use esio.Apps.Argp.{Parsed, parsed, stopped, fault, ◌>>◌, stop_if, undefined_if}
use esio.Apps.Text.Trim.{trim}
use esio.Apps.Bench.Bytes.{Doubles, from_human_readable_byte_count}
use esio.Layout.Table.{field_layout_count}

-- `trim` works in place on an argument that is given.
unfoldable pub trim_arg : Option Text → Parsed (Option Text)
trim_arg none = parsed none
trim_arg (some arg) = elim (trim arg) [ none ↦ fault | some t ↦ parsed (some t) ]

abbrev pub or_empty : Option Text → Text
or_empty none = []
or_empty (some arg) = arg

-- `if (k != sscanf(arg ? arg : "", …)) argp_failure(…);` for one, two and three numbers, and the
-- check on each of them.
abbrev pub one_of : (ℤ → Bool) → List ℤ → Parsed ℕ
one_of wrong (n ∷ []) = stop_if (wrong n) >> parsed (pos_part n)
one_of wrong ns = stopped

abbrev pub two_of : (ℤ → Bool) → List ℤ → Parsed (ℕ × ℕ)
two_of wrong (b ∷ a ∷ []) = stop_if (wrong b || wrong a) >> parsed (pos_part b, pos_part a)
two_of wrong ns = stopped

abbrev pub three_of : (ℤ → Bool) → List ℤ → Parsed (ℕ × ℕ × ℕ)
three_of wrong (c ∷ b ∷ a ∷ []) =
    stop_if (wrong c || wrong b || wrong a) >> parsed (pos_part c, pos_part b, pos_part a)
three_of wrong ns = stopped

-- The value of a number that does not fit an int is undefined.
abbrev pub some_overflow : List ℤ → Bool
some_overflow [] = false
some_overflow (pos n ∷ ns) = ltb int_limit n || some_overflow ns
some_overflow (negsuc n ∷ ns) = ltb int_limit n || some_overflow ns

-- The numbers that are read, in the format of the option.
abbrev numbers_then : {A : Type 0} → (List ℤ → Parsed A) → List ℤ → Parsed A
numbers_then check ns = undefined_if (some_overflow ns) >> check ns

abbrev pub by_number : List Directive → List Directive
by_number rest = integer ∷ blank ∷ ordinary b'x' ∷ blank ∷ rest

unfoldable pub scan_one : (ℤ → Bool) → Option Text → Parsed ℕ
unfolding sscanf
scan_one wrong arg =
    numbers_then (one_of wrong) (sscanf (integer ∷ blank ∷ character ∷ []) (or_empty arg))

unfoldable pub scan_two : (ℤ → Bool) → Option Text → Parsed (ℕ × ℕ)
unfolding sscanf
scan_two wrong arg =
    numbers_then (two_of wrong)
      (sscanf (by_number (integer ∷ blank ∷ character ∷ [])) (or_empty arg))

unfoldable pub scan_three : (ℤ → Bool) → Option Text → Parsed (ℕ × ℕ × ℕ)
unfolding sscanf
scan_three wrong arg =
    numbers_then (three_of wrong)
      (sscanf (by_number (by_number (integer ∷ blank ∷ character ∷ []))) (or_empty arg))

abbrev pub below_one : ℤ → Bool
below_one n = ltb_ℤ n (pos 1)

-- The test of the field layout against its range.
abbrev pub layout_wrong : ℤ → Bool
layout_wrong n = is_neg n || ltb_ℤ field_layout_count n

-- `max(n, 1)`
abbrev pub at_least_one : ℕ → ℕ
at_least_one n = if ltb 1 n then n else 1

abbrev pub is_set : ℕ → Bool
is_set n = not (n == 0)

abbrev pub is_missing : Option Text → Bool
is_missing none = true
is_missing (some t) = false

module _ (D : Doubles) where
  -- The number of bytes where the argument is given, and the old one where it is not.
  unfoldable pub memory_size : Option Text → ℕ → Parsed ℕ
  memory_size none bytes = parsed bytes
  memory_size (some arg) bytes = do
    let n = from_human_readable_byte_count D arg
    stop_if (below_one n)
    parsed (pos_part n)
