-- ===== src/Tests/Bench.antt =====
-- Runs of the benchmark: its options, the parts of its ranks, its names and its rounds.
use esio.Prelude.{
  ℤ, pos, ℕ, ◌+◌, ◌≤◌, ◌<◌, ◌≡◌, refl, ◌↔◌, inr, true, false, Option, none, some, List, [], ◌∷◌,
  ◌++◌, arith, ltb, if◌then◌else◌, drop,
}
use esio.Io.{Text, Call, screate_simple, Machine, double, live, next, fault}
use esio.Error.{success}
use esio.Apps.Bench.Details.{FieldDetails, Details, default_field, default_details}
use esio.Apps.Bench.Options.{Key, handle_key, argp_parse, key_arg, key_end, key_nfields}
use esio.Apps.Argp.{parsed, stopped}
use esio.Apps.Text.Trim.{trim, trim-core}
use esio.Apps.Bench.Bytes.{Doubles, suffix}
use esio.Apps.Bench.Bytes.Suffix.{IsUnit, suffix_iff-IsUnit}
use esio.Apps.Bench.Options.Valid.{IsValid, IsReady, argp_parse-IsValid}
use esio.Apps.Bench.Split.{local, start}
use esio.Apps.Bench.Split.Partition.{local-balanced}
use esio.Apps.Bench.FieldProblem.{field_part}
use esio.Apps.Bench.Parts.{HoldsElement, field_part-HoldsElement, field_establish-field_part}
use esio.Apps.Bench.Names.{allocate_names}
use esio.Apps.Bench.Names.Fit.{names_from, allocate_names-Fit}
use esio.Apps.Bench.Iteration.{iterations}
use esio.Apps.Bench.Iteration.Script.{run_all, scripts, iterations-scripts}
use esio.Apps.MpiArgp.{original, dev_null, Streams, Replies, mpi_argp_parse, redirect, after_argp}
use esio.Decomposition.{field_establish}
use esio.Tests.{idle, reply}
use esio.Plist.{h5p_file_access_create, configure_metadata_caching, h5p_dataset_xfer_create}

-- Numbers without fractions.
abbrev whole_numbers : Doubles
whole_numbers = record {
  Double = ℤ;
  of_ℤ = λ z. z;
  to_ℤ = λ z. z;
  times = λ a b. a;
  over = λ a b. a;
  log = λ a. pos 0;
  pow = λ a b. a;
  ceil = λ a. a;
  cbrt = λ a. a;
  sqrt = λ a. a;
  strtod = λ s. (pos 5, drop 1 s, false);
}

-- esio_bench --nfields=2 f
abbrev command_line : List (Key × Option Text)
command_line = (key_nfields, some (b' ' ∷ b'2' ∷ [])) ∷ (key_arg 0, some (b'f' ∷ [])) ∷ []

abbrev accepted : Details
accepted = record default_details { nfields = 2; uncommitted = some (b'f' ∷ []) }

command_line-accepted :
    argp_parse whole_numbers (command_line ++ (key_end 1, none) ∷ []) default_details
    ≡ parsed accepted
unfolding argp_parse handle_key trim
command_line-accepted = refl

argp_parse-IsValid_example : IsValid accepted × IsReady 1 accepted
argp_parse-IsValid_example =
    argp_parse-IsValid whole_numbers command_line 1 accepted command_line-accepted

-- Three elements in each direction, over two ranks in the last two.
abbrev small_field : FieldDetails
small_field = record default_field {
  cglobal = 3;
  bglobal = 3;
  aglobal = 3;
  dim_c = 1;
  dim_b = 2;
  dim_a = 2;
  coord_a = 1;
}

field_part-HoldsElement_example :
    (coords : ℕ × ℕ × ℕ) × ((coords.0 < 1) × (coords.1 < 2) × (coords.2 < 2))
    × HoldsElement small_field coords (0, 1, 2)
    × ((others : ℕ × ℕ × ℕ) → HoldsElement small_field others (0, 1, 2) → others ≡ coords)
field_part-HoldsElement_example =
    field_part-HoldsElement small_field 0 1 2 (omega arith) (omega arith) (omega arith)
      (omega arith) (omega arith) (omega arith)

field_establish-field_part_example :
    ((field_part small_field).cstart + (field_part small_field).clocal ≤ 3)
    × ((field_part small_field).bstart + (field_part small_field).blocal ≤ 3)
    × ((field_part small_field).astart + (field_part small_field).alocal ≤ 3)
    × ((field_establish live
          (pos 3)
          (pos (field_part small_field).cstart)
          (pos (field_part small_field).clocal)
          (pos 3)
          (pos (field_part small_field).bstart)
          (pos (field_part small_field).blocal)
          (pos 3)
          (pos (field_part small_field).astart)
          (pos (field_part small_field).alocal)
          idle).0
        ≡ next success)
field_establish-field_part_example =
    field_establish-field_part small_field idle (omega arith) (omega arith) (omega arith)
      (omega arith) (omega arith) (omega arith)

-- Three of eleven elements on each of the lower two ranks.
split_of_eleven : (local 11 4 0 true ≡ 3) × (start 11 4 2 true ≡ 6) × (start 11 4 2 false ≡ 5)
unfolding local start
split_of_eleven = (refl, refl, refl)

local-balanced_example :
    (start 11 4 4 true ≡ 11)
    × (start 11 4 4 false ≡ 11)
    × (local 11 4 3 true ≤ local 11 4 0 true)
    × (local 11 4 0 true ≤ local 11 4 3 true + 1)
    × (local 11 4 0 false ≤ local 11 4 3 false)
    × (local 11 4 3 false ≤ local 11 4 0 false + 1)
local-balanced_example = local-balanced 11 4 0 3 (omega arith) (omega arith)

trim-core_example : (trim (b' ' ∷ b'5' ∷ b' ' ∷ []) ≡ some (b'5' ∷ [])) × (trim (b' ' ∷ []) ≡ none)
trim-core_example = trim-core (b' ' ∷ []) (b'5' ∷ []) (b' ' ∷ []) (refl, tt) (refl, tt) refl refl

suffix_iff-IsUnit_example :
    (suffix (b'M' ∷ b'i' ∷ b'B' ∷ []) ≡ some (6, 1000)) ↔ IsUnit (b'M' ∷ b'i' ∷ b'B' ∷ []) 6 1000
suffix_iff-IsUnit_example = suffix_iff-IsUnit (b'M' ∷ b'i' ∷ b'B' ∷ []) 6 1000 (inr refl)

-- A world with memory, where a number of names needs as many digits.
abbrev roomy : Machine
roomy = record idle {
  env = record idle.env { status = λ calls c. pos 1; ceil_log10 = λ m. if ltb m 2 then 0 else m };
}

allocate_names-Fit_example :
    ((allocate_names {R = Unit} 2 roomy).0 ≡ next (names_from 2 0 2))
    × ((allocate_names {R = Unit} 1 roomy).0 ≡ fault)
allocate_names-Fit_example = allocate_names-Fit 2 roomy (omega arith) (omega arith) refl (λ n. refl)

abbrev all_work : Replies
all_work = record {
  dup_stdout = true;
  dup_stderr = true;
  freopen_stdout = true;
  freopen_stderr = true;
  dup2_stdout = true;
  dup2_stderr = true;
}

abbrev terminal : Streams
terminal = record { stdout = original; stderr = original }

-- Where the calls work, argp on another rank than the root writes to /dev/null, and the terminal is back
-- afterwards; where argp ends the program it is not.
other_rank_is_silent :
    (mpi_argp_parse (pos 3) all_work (λ s. parsed s) terminal
      ≡ (parsed (record { stdout = dev_null; stderr = dev_null }), terminal))
    × ((mpi_argp_parse {D = Streams} (pos 3) all_work (λ s. stopped) terminal).1.stdout ≡ dev_null)
unfolding mpi_argp_parse redirect after_argp
other_rank_is_silent = (refl, refl)

-- One round that writes one line, with the handle of a process on its own.
abbrev one_line : Details
one_line = record default_details { h = live; nlines = 1; uncommitted = some (b'f' ∷ []) }

spacious_reply : Call → ℤ
unfolding reply
spacious_reply (screate_simple dims) = pos 6
spacious_reply c = reply c

abbrev ready : Machine
ready = record idle {
  env = record idle.env { status = λ calls c. spacious_reply c };
  handle = record idle.handle { l = record idle.handle.l { aglobal = pos 4; alocal = pos 4 } };
}

round-returns : (iterations 1 double ((b'X' ∷ []) ∷ []) one_line ready).0 ≡ next tt
unfolding iterations h5p_file_access_create reply spacious_reply configure_metadata_caching
    h5p_dataset_xfer_create
round-returns = refl

iterations-scripts_example :
    ((run_all (scripts 1 double ((b'X' ∷ []) ∷ []) one_line) ready).0 ≡ next tt)
    × ((run_all (scripts 1 double ((b'X' ∷ []) ∷ []) one_line) ready).1
        ≡ (iterations 1 double ((b'X' ∷ []) ∷ []) one_line ready).1)
iterations-scripts_example =
    iterations-scripts 1 double ((b'X' ∷ []) ∷ []) one_line ready round-returns
