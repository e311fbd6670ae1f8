-- ===== src/Apps/Rename.antt =====
-- apps/esio_rename.c, a command around restart_rename.
use esio.Prelude.{ℤ, pos, is_neg, ltb_ℤ, ℕ, zero, suc, ◌||◌, ltb, Option, none, some, List}
use esio.Io.{Text, Proc, return, undefined}
use esio.Apps.Argp.{Parsed, parsed, stopped, stop_if, run_argp, ◌>>◌}
use esio.Apps.Argp
use esio.Apps.Text.{skip_space, scan_int}
use esio.Restart.NextIndex.{int_max}
use esio.Restart.Rename.{restart_rename}

-- struct arguments
pub record Arguments : Type 0 where
  pub src_filename : Option Text
  pub dst_template : Option Text
  pub retain_count : ℤ

pub data Key : Type 0 where
  key_arg key_end : ℕ → Key
  key_retain key_unknown : Key

-- `strtol(arg, NULL, 10)`: zero if there is no number. A number outside the range of long sets
-- errno, and is refused like those outside the range of int.
unfoldable pub strtol : Text → ℤ
unfolding scan_int skip_space
strtol s = elim (scan_int (skip_space s)) [ none ↦ pos 0 | some (n, rest) ↦ n ]

abbrev retain_value : Option Text → ℤ → ℤ
retain_value none default = default
retain_value (some arg) default = strtol arg

unfoldable pub parse_opt : Key → Option Text → Arguments → Parsed Arguments
unfolding strtol
parse_opt (key_arg zero) arg a = parsed (record a { src_filename = arg })
parse_opt (key_arg (suc zero)) arg a = parsed (record a { dst_template = arg })
parse_opt (key_arg (suc (suc n))) arg a = stopped
parse_opt (key_end n) arg a = stop_if (ltb n 2) >> parsed a
parse_opt key_retain arg a =
    let n = retain_value arg a.retain_count in
    stop_if (is_neg n || ltb_ℤ (pos int_max) n) >> parsed (record a { retain_count = n })
parse_opt key_unknown arg a = parsed a

abbrev pub default_arguments : Arguments
default_arguments = record { src_filename = none; dst_template = none; retain_count = pos 10 }

-- The exit status of argp for a mistake is EX_USAGE.
rename_with : Parsed Arguments → Proc ℤ ℤ
unfolding restart_rename
rename_with (parsed a) = restart_rename a.src_filename a.dst_template a.retain_count
rename_with stopped = return (pos 64)
rename_with Argp.fault = undefined

unfoldable pub main : List (Key × Option Text) → Proc ℤ ℤ
unfolding rename_with run_argp parse_opt
main options = rename_with (run_argp parse_opt options default_arguments)
