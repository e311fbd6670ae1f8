-- ===== src/Apps/Bench/Options.antt =====
-- `parse_opt` of apps/esio_bench.c, the callback of argp, and the run of argp over a command line.
pub mod Yields
pub mod Valid
use esio.Prelude.{is_neg, ℕ, zero, suc, true, ◌&&◌, ◌||◌, Option, List, ltb, ◌==◌}
use esio.Apps.Bench.Arguments.{
  trim_arg, or_empty, scan_one, scan_two, scan_three, below_one, layout_wrong, at_least_one, is_set,
  is_missing, memory_size,
}
use esio.Apps.Argp.{Parsed, ◌>>=◌, ◌>>◌, stop_if, parsed, stopped, fault, run_argp}
use esio.Apps.Bench.Details.{
  FieldDetails, PlaneDetails, LineDetails, Details, sizeof_double, sizeof_float, default_field,
  default_plane, default_line, default_details,
}
use esio.Apps.Bench.Bytes.{Doubles}
use esio.Io.{Text}

-- The keys of the options, and those that argp passes: the numbers are `state->arg_num`.
pub data Key : Type 0 where
  key_arg key_end : ℕ → Key
  key_verbose key_repeat key_retain key_nfields key_nplanes key_nlines key_layout : Key
  key_double key_single : Key
  key_field_ncomponents key_plane_ncomponents key_line_ncomponents : Key
  key_field_memory key_plane_memory key_line_memory : Key
  key_field_dims key_plane_dims key_line_dims : Key
  key_field_global key_plane_global key_line_global : Key
  key_unknown : Key

module _ (D : Doubles) where
  -- The options for the sizes and the decompositions of the problems.
  unfoldable pub handle_problem : Key → Option Text → Details → Parsed Details
  unfolding scan_one scan_two scan_three memory_size
  handle_problem key_field_memory arg d = do
    stop_if (is_set d.f.cglobal || is_set d.f.bglobal || is_set d.f.aglobal)
    n ← memory_size D arg d.f.bytes
    parsed (record d { f = record d.f { bytes = n }; nfields = at_least_one d.nfields })
  handle_problem key_plane_memory arg d = do
    stop_if (is_set d.p.bglobal || is_set d.p.aglobal)
    n ← memory_size D arg d.p.bytes
    parsed (record d { p = record d.p { bytes = n }; nplanes = at_least_one d.nplanes })
  handle_problem key_line_memory arg d = do
    stop_if (is_set d.l.aglobal)
    n ← memory_size D arg d.l.bytes
    parsed (record d { l = record d.l { bytes = n }; nlines = at_least_one d.nlines })
  handle_problem key_field_dims arg d = do
    (c, b, a) ← scan_three is_neg arg
    parsed (record d {
      f = record d.f { dim_c = c; dim_b = b; dim_a = a };
      nfields = at_least_one d.nfields;
    })
  handle_problem key_plane_dims arg d = do
    (b, a) ← scan_two is_neg arg
    parsed (record d { p = record d.p { dim_b = b; dim_a = a }; nplanes = at_least_one d.nplanes })
  handle_problem key_line_dims arg d = do
    a ← scan_one is_neg arg
    parsed (record d { l = record d.l { dim_a = a }; nlines = at_least_one d.nlines })
  handle_problem key_field_global arg d = do
    stop_if (is_set d.f.bytes)
    (c, b, a) ← scan_three below_one arg
    parsed (record d {
      f = record d.f { cglobal = c; bglobal = b; aglobal = a };
      nfields = at_least_one d.nfields;
    })
  handle_problem key_plane_global arg d = do
    stop_if (is_set d.p.bytes)
    (b, a) ← scan_two below_one arg
    parsed
        (record d { p = record d.p { bglobal = b; aglobal = a }; nplanes = at_least_one d.nplanes })
  handle_problem key_line_global arg d = do
    stop_if (is_set d.l.bytes)
    a ← scan_one is_neg arg
    parsed (record d { l = record d.l { aglobal = a }; nlines = at_least_one d.nlines })
  handle_problem key arg d = parsed d

  -- The last argument is what `trim` left of it.
  unfoldable pub handle_key : Key → Option Text → Details → Parsed Details
  unfolding scan_one handle_problem
  handle_key (key_arg zero) arg d = parsed (record d { uncommitted = arg })
  handle_key (key_arg (suc zero)) arg d = parsed (record d { dst_template = arg })
  handle_key (key_arg (suc (suc n))) arg d = stopped
  handle_key (key_end n) arg d = do
    stop_if (ltb n 1)
    stop_if (n == 1 && ltb 1 d.retain)
    stop_if (d.nfields == 0 && d.nplanes == 0 && d.nlines == 0)
    parsed d
  handle_key key_verbose arg d = parsed (record d { verbose = true })
  handle_key key_repeat arg d = do n ← scan_one below_one arg; parsed (record d { repeat = n })
  handle_key key_retain arg d = do n ← scan_one below_one arg; parsed (record d { retain = n })
  handle_key key_nfields arg d = do n ← scan_one is_neg arg; parsed (record d { nfields = n })
  handle_key key_nplanes arg d = do n ← scan_one is_neg arg; parsed (record d { nplanes = n })
  handle_key key_nlines arg d = do n ← scan_one is_neg arg; parsed (record d { nlines = n })
  handle_key key_layout arg d = do
    n ← scan_one layout_wrong arg
    parsed (record d { f = record d.f { layout = n } })
  handle_key key_double arg d = parsed (record d { typesize = sizeof_double })
  handle_key key_single arg d = parsed (record d { typesize = sizeof_float })
  handle_key key_field_ncomponents arg d = do
    n ← scan_one below_one arg
    parsed (record d { f = record d.f { ncomponents = n } })
  handle_key key_plane_ncomponents arg d = do
    n ← scan_one below_one arg
    parsed (record d { p = record d.p { ncomponents = n } })
  handle_key key_line_ncomponents arg d = do
    n ← scan_one below_one arg
    parsed (record d { l = record d.l { ncomponents = n } })
  handle_key key arg d = handle_problem key arg d

  -- An unknown key changes nothing, and its status is for argp to deal with.
  unfoldable pub parse_opt : Key → Option Text → Details → Parsed Details
  unfolding trim_arg handle_key
  parse_opt key arg d = do trimmed ← trim_arg arg; handle_key key trimmed d

  unfoldable pub argp_parse : List (Key × Option Text) → Details → Parsed Details
  unfolding run_argp parse_opt
  argp_parse = run_argp parse_opt
