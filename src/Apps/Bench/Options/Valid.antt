-- ===== src/Apps/Bench/Options/Valid.antt =====
-- What holds of the options of apps/esio_bench.c once they are accepted.
use esio.Apps.Bench.Options.Yields.{
  Yields, Yields-bind, Yields-stop_if, Yields-any, scan_one-positive, scan_one-layout,
}
use native.Mathlib.Decide.{dec_lt}
use mathlib.Core.Path.{subst}
use esio.Prelude.{
  is_neg, ℕ, zero, suc, ◌≤◌, ◌≡◌, ◌⊎◌, ◌&&◌, ◌||◌, Option, List, [], ◌∷◌, arith, ltb, ◌==◌, ◌+◌,
  ◌++◌, none,
}
use esio.Io.{Text}
use esio.Apps.Bench.Details.{FieldDetails, PlaneDetails, LineDetails, Details, default_details}
use esio.Apps.Bench.Arguments.{
  scan_one, scan_two, scan_three, below_one, layout_wrong, at_least_one, is_set, memory_size,
  trim_arg,
}
use esio.Apps.Argp.{parsed, run_argp}
use esio.Apps.Bench.Options.{
  Key, handle_key, key_arg, key_end, key_verbose, key_repeat, key_retain, key_nfields, key_nplanes,
  key_nlines, key_layout, key_double, key_single, key_field_ncomponents, key_plane_ncomponents,
  key_line_ncomponents, key_field_memory, key_plane_memory, key_line_memory, key_field_dims,
  key_plane_dims, key_line_dims, key_field_global, key_plane_global, key_line_global, parse_opt,
  argp_parse, handle_problem,
}
use esio.Apps.Bench.Bytes.{Doubles}

-- At most one of the memory and the global sizes is given.
pub record FieldIsValid (f : FieldDetails) : Type 0 where
  pub components : 1 ≤ f.ncomponents
  pub layout_range : f.layout ≤ 3
  pub one_size : (f.bytes ≡ 0) ⊎ ((f.cglobal ≡ 0) × (f.bglobal ≡ 0) × (f.aglobal ≡ 0))

pub record PlaneIsValid (p : PlaneDetails) : Type 0 where
  pub components : 1 ≤ p.ncomponents
  pub one_size : (p.bytes ≡ 0) ⊎ ((p.bglobal ≡ 0) × (p.aglobal ≡ 0))

pub record LineIsValid (l : LineDetails) : Type 0 where
  pub components : 1 ≤ l.ncomponents
  pub one_size : (l.bytes ≡ 0) ⊎ (l.aglobal ≡ 0)

pub record IsValid (d : Details) : Type 0 where
  pub repeats : 1 ≤ d.repeat
  pub retains : 1 ≤ d.retain
  pub type_size : (d.typesize ≡ 8) ⊎ (d.typesize ≡ 4)
  pub field : FieldIsValid d.f
  pub plane : PlaneIsValid d.p
  pub line : LineIsValid d.l

-- What is checked at the end of the command line, which has `n` arguments besides the options.
pub record IsReady (n : ℕ) (d : Details) : Type 0 where
  pub named : 1 ≤ n
  pub template : (2 ≤ n) ⊎ (d.retain ≤ 1)
  pub problems : 1 ≤ d.nfields + d.nplanes + d.nlines

defaults-IsValid : IsValid default_details
defaults-IsValid = ground arith

module _ (D : Doubles) where
  handle_problem-IsValid :
      (key : Key) (arg : Option Text) (d : Details)
      → IsValid d
      → Yields IsValid (handle_problem D key arg d)
  unfolding handle_problem
  handle_problem-IsValid key_field_memory arg d v =
      Yields-stop_if IsValid (is_set d.f.cglobal || is_set d.f.bglobal || is_set d.f.aglobal) _
        (λ e.
          Yields-bind (λ n. Unit {0}) IsValid (memory_size D arg d.f.bytes)
            (λ n.
              parsed (record d { f = record d.f { bytes = n }; nfields = at_least_one d.nfields }))
            (Yields-any _) (λ n h. ground arith))
  handle_problem-IsValid key_plane_memory arg d v =
      Yields-stop_if IsValid (is_set d.p.bglobal || is_set d.p.aglobal) _ (λ e.
        Yields-bind (λ n. Unit {0}) IsValid (memory_size D arg d.p.bytes)
          (λ n.
            parsed (record d { p = record d.p { bytes = n }; nplanes = at_least_one d.nplanes }))
          (Yields-any _) (λ n h. ground arith))
  handle_problem-IsValid key_line_memory arg d v =
      Yields-stop_if IsValid (is_set d.l.aglobal) _ (λ e.
        Yields-bind (λ n. Unit {0}) IsValid (memory_size D arg d.l.bytes)
          (λ n. parsed (record d { l = record d.l { bytes = n }; nlines = at_least_one d.nlines }))
          (Yields-any _) (λ n h. ground arith))
  handle_problem-IsValid key_field_dims arg d v =
      Yields-bind (λ (n : ℕ × ℕ × ℕ). Unit {0}) IsValid (scan_three is_neg arg)
        (λ n. parsed (record d {
          f = record d.f { dim_c = n.0; dim_b = n.1; dim_a = n.2 };
          nfields = at_least_one d.nfields;
        }))
        (Yields-any _) (λ n h. ground arith)
  handle_problem-IsValid key_plane_dims arg d v =
      Yields-bind (λ (n : ℕ × ℕ). Unit {0}) IsValid (scan_two is_neg arg)
        (λ n. parsed (record d {
          p = record d.p { dim_b = n.0; dim_a = n.1 };
          nplanes = at_least_one d.nplanes;
        }))
        (Yields-any _) (λ n h. ground arith)
  handle_problem-IsValid key_line_dims arg d v =
      Yields-bind (λ (n : ℕ). Unit {0}) IsValid (scan_one is_neg arg)
        (λ n. parsed (record d { l = record d.l { dim_a = n }; nlines = at_least_one d.nlines }))
        (Yields-any _) (λ n h. ground arith)
  handle_problem-IsValid key_field_global arg d v =
      Yields-stop_if IsValid (is_set d.f.bytes) _ (λ e.
        Yields-bind (λ (n : ℕ × ℕ × ℕ). Unit {0}) IsValid (scan_three below_one arg)
          (λ n. parsed (record d {
            f = record d.f { cglobal = n.0; bglobal = n.1; aglobal = n.2 };
            nfields = at_least_one d.nfields;
          }))
          (Yields-any _) (λ n h. ground arith))
  handle_problem-IsValid key_plane_global arg d v =
      Yields-stop_if IsValid (is_set d.p.bytes) _ (λ e.
        Yields-bind (λ (n : ℕ × ℕ). Unit {0}) IsValid (scan_two below_one arg)
          (λ n. parsed (record d {
            p = record d.p { bglobal = n.0; aglobal = n.1 };
            nplanes = at_least_one d.nplanes;
          }))
          (Yields-any _) (λ n h. ground arith))
  handle_problem-IsValid key_line_global arg d v = Yields-stop_if IsValid (is_set d.l.bytes) _ (λ e.
      Yields-bind (λ (n : ℕ). Unit {0}) IsValid (scan_one is_neg arg)
        (λ n. parsed (record d { l = record d.l { aglobal = n }; nlines = at_least_one d.nlines }))
        (Yields-any _) (λ n h. ground arith))
  handle_problem-IsValid key arg d v = v

  handle_key-IsValid :
      (key : Key) (arg : Option Text) (d : Details)
      → IsValid d
      → Yields IsValid (handle_key D key arg d)
  unfolding handle_key
  handle_key-IsValid (key_arg zero) arg d v = ground arith
  handle_key-IsValid (key_arg (suc zero)) arg d v = ground arith
  handle_key-IsValid (key_arg (suc (suc n))) arg d v = tt
  handle_key-IsValid (key_end n) arg d v = Yields-stop_if IsValid (ltb n 1) _ (λ e0.
      Yields-stop_if IsValid (n == 1 && ltb 1 d.retain) _ (λ e1.
        Yields-stop_if IsValid (d.nfields == 0 && d.nplanes == 0 && d.nlines == 0) (parsed d)
          (λ e2. v)))
  handle_key-IsValid key_verbose arg d v = ground arith
  handle_key-IsValid key_repeat arg d v =
      Yields-bind (λ n. 1 ≤ n) IsValid (scan_one below_one arg)
        (λ n. parsed (record d { repeat = n })) (scan_one-positive arg) (λ n h. ground arith)
  handle_key-IsValid key_retain arg d v =
      Yields-bind (λ n. 1 ≤ n) IsValid (scan_one below_one arg)
        (λ n. parsed (record d { retain = n })) (scan_one-positive arg) (λ n h. ground arith)
  handle_key-IsValid key_nfields arg d v =
      Yields-bind (λ n. Unit {0}) IsValid (scan_one is_neg arg)
        (λ n. parsed (record d { nfields = n })) (Yields-any _) (λ n h. ground arith)
  handle_key-IsValid key_nplanes arg d v =
      Yields-bind (λ n. Unit {0}) IsValid (scan_one is_neg arg)
        (λ n. parsed (record d { nplanes = n })) (Yields-any _) (λ n h. ground arith)
  handle_key-IsValid key_nlines arg d v =
      Yields-bind (λ n. Unit {0}) IsValid (scan_one is_neg arg)
        (λ n. parsed (record d { nlines = n })) (Yields-any _) (λ n h. ground arith)
  handle_key-IsValid key_layout arg d v =
      Yields-bind (λ n. n ≤ 3) IsValid (scan_one layout_wrong arg)
        (λ n. parsed (record d { f = record d.f { layout = n } })) (scan_one-layout arg)
        (λ n h. ground arith)
  handle_key-IsValid key_double arg d v = ground arith
  handle_key-IsValid key_single arg d v = ground arith
  handle_key-IsValid key_field_ncomponents arg d v =
      Yields-bind (λ n. 1 ≤ n) IsValid (scan_one below_one arg)
        (λ n. parsed (record d { f = record d.f { ncomponents = n } })) (scan_one-positive arg)
        (λ n h. ground arith)
  handle_key-IsValid key_plane_ncomponents arg d v =
      Yields-bind (λ n. 1 ≤ n) IsValid (scan_one below_one arg)
        (λ n. parsed (record d { p = record d.p { ncomponents = n } })) (scan_one-positive arg)
        (λ n h. ground arith)
  handle_key-IsValid key_line_ncomponents arg d v =
      Yields-bind (λ n. 1 ≤ n) IsValid (scan_one below_one arg)
        (λ n. parsed (record d { l = record d.l { ncomponents = n } })) (scan_one-positive arg)
        (λ n h. ground arith)
  handle_key-IsValid key arg d v = handle_problem-IsValid key arg d v

  parse_opt-IsValid :
      (key : Key) (arg : Option Text) (d : Details)
      → IsValid d
      → Yields IsValid (parse_opt D key arg d)
  unfolding parse_opt
  parse_opt-IsValid key arg d v =
      Yields-bind (λ _. Unit {0}) IsValid (trim_arg arg) (λ t. handle_key D key t d) (Yields-any _)
        (λ t _. handle_key-IsValid key t d v)

  end-IsReady :
      (n : ℕ) (d : Details)
      → IsValid d
      → Yields (λ d. IsValid d × IsReady n d) (argp_parse D ((key_end n, none) ∷ []) d)
  unfolding argp_parse run_argp parse_opt handle_key trim_arg
  end-IsReady n d v = elim (dec_lt n 1) [ yes few ↦ ground arith | no enough ↦ ground arith ]

  argp_parse-Yields :
      (events : List (Key × Option Text)) (n : ℕ) (d : Details)
      → IsValid d
      → Yields (λ d. IsValid d × IsReady n d) (argp_parse D (events ++ (key_end n, none) ∷ []) d)
  unfolding argp_parse run_argp
  argp_parse-Yields [] n d v = end-IsReady n d v
  argp_parse-Yields ((key, arg) ∷ events) n d v =
      Yields-bind IsValid _ (parse_opt D key arg d)
        (argp_parse D (events ++ (key_end n, none) ∷ [])) (parse_opt-IsValid key arg d v)
        (argp_parse-Yields events n)

  -- A command line that is accepted asks for at least one repetition and one retained file, for
  -- eight or four bytes per number, for at least one component of each kind, for a field layout
  -- that is at most the number of layouts, and for no problem by its memory and by its global
  -- sizes at once. Argp counted at least one argument, and two where more than one file is
  -- retained, and there is at least one field, plane or line.
  pub argp_parse-IsValid :
      (events : List (Key × Option Text)) (n : ℕ) (d : Details)
      → argp_parse D (events ++ (key_end n, none) ∷ []) default_details ≡ parsed d
      → IsValid d × IsReady n d
  argp_parse-IsValid events n d e =
      subst (Yields (λ d. IsValid d × IsReady n d)) e
        (argp_parse-Yields events n default_details defaults-IsValid)
