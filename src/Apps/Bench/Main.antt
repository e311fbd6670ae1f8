-- ===== src/Apps/Bench/Main.antt =====
-- `main` of apps/esio_bench.c. Messages, timers, and the contents of the buffers are not modelled.
use esio.Prelude.{
  ℤ, pos, pos_part, is_zero, ℕ, zero, suc, ◌+◌, true, not, Option, List, ◌==◌, if◌then◌else◌,
}
use esio.Io.{
  Text, ElementType, double, float, mpi_comm_size, mpi_comm_rank, mpi_allreduce_sum, malloc,
  mpi_barrier, mpi_init, open_rank_stream, Proc, pure, return, undefined, external, ignore,
  external_stored, ◌>>=◌, ◌>>◌, invoke, when,
}
use esio.Error.{efailed, mpichk_result, mpichk}
use esio.Apps.Bench.Details.{Details, sizeof_double, sizeof_float, default_details}
use esio.Apps.Argp.{Parsed, parsed, stopped}
use esio.Apps.Argp
use esio.Apps.Bench.Bytes.{Doubles}
use esio.Apps.Bench.Options.{Key, argp_parse}
use esio.Apps.Bench.Topology.{abort_program}
use esio.Apps.Bench.FieldProblem.{field_initialize, field_finalize}
use esio.Apps.Bench.PlaneProblem.{plane_initialize, plane_finalize}
use esio.Apps.Bench.LineProblem.{line_initialize, line_finalize}
use esio.Apps.Bench.Names.{most, allocate_names}
use esio.Apps.Bench.Iteration.{discard, iterations}
use esio.CanonicalPath.{entry}
use esio.Handle.{handle_initialize, handle_finalize}

-- EX_USAGE, with which argp ends the program.
abbrev ex_usage : ℤ
ex_usage = pos 64

-- The result of the options: argp ends the program, or it goes on with the details.
unfoldable pub accept_options : Parsed Details → Proc ℤ Details
accept_options (parsed d) = pure d
accept_options stopped = return ex_usage
accept_options Argp.fault = undefined

-- `rankout` is standard output on the root and /dev/null elsewhere.
establish_streams : ℤ → Proc ℤ Unit
establish_streams world_rank =
    when (not (is_zero world_rank))
      do rankout ← external open_rank_stream; when (is_zero rankout) abort_program

-- The buffer of a problem, whose contents are random.
unfoldable pub malloc_and_fill : {R : Type 0} → ℕ → Proc R Unit
malloc_and_fill bytes = do p ← external (malloc (pos bytes)); when (is_zero p) abort_program

-- The functions that `main` chooses by the size of a number.
unfoldable pub type_of_size : ℕ → Proc ℤ ElementType
type_of_size typesize =
    if typesize == sizeof_double
    then pure double
    else if typesize == sizeof_float
    then pure float
    else abort_program

-- A problem is set up and finalized if there are any of its kind.
if_any : {A : Type 0} → ℕ → Proc (ℤ × A) (ℤ × A) → A → Proc ℤ A
if_any zero m a = pure a
if_any (suc count) m a = do (status, a') ← invoke m; pure a'

fill_if_any : ℕ → ℕ → Proc ℤ Unit
unfolding malloc_and_fill
fill_if_any zero bytes = pure tt
fill_if_any (suc count) bytes = malloc_and_fill bytes

unfoldable pub finalize_problems : Details → Proc ℤ Details
unfolding field_finalize plane_finalize line_finalize if_any
finalize_problems d = do
  f ← if_any d.nfields (field_finalize d.f) d.f
  p ← if_any d.nplanes (plane_finalize d.p) d.p
  l ← if_any d.nlines (line_finalize d.l) d.l
  pure (record d { f = f; p = p; l = l })

allocate_buffers : Details → Proc ℤ Details
unfolding fill_if_any
allocate_buffers d = do
  fill_if_any d.nfields d.f.bytes
  fill_if_any d.nplanes d.p.bytes
  fill_if_any d.nlines d.l.bytes
  pure (record d {
    f = record d.f { allocated = not (d.nfields == 0) };
    p = record d.p { allocated = not (d.nplanes == 0) };
    l = record d.l { allocated = not (d.nlines == 0) };
  })

-- Between the two barriers `main` only writes restart files.
unfoldable pub benchmark : List Text → Details → Proc ℤ Unit
unfolding type_of_size iterations mpichk
benchmark names d = do
  type ← type_of_size d.typesize
  mpichk mpi_barrier efailed
  iterations d.repeat type names d
  mpichk mpi_barrier efailed

module _ (D : Doubles) where
  -- The three problems, the fields first.
  unfoldable pub initialize_problems : Details → Proc ℤ Details
  unfolding field_initialize plane_initialize line_initialize if_any
  initialize_problems d = do
    f ← if_any d.nfields (field_initialize D d d.f) d.f
    let d = record d { f = f }
    p ← if_any d.nplanes (plane_initialize D d d.p) d.p
    let d = record d { p = p }
    l ← if_any d.nlines (line_initialize D d d.l) d.l
    pure (record d { l = l })

  -- The options are those that argp hands to parse_opt.
  unfoldable pub main : List (Key × Option Text) → Proc ℤ ℤ
  unfolding argp_parse accept_options establish_streams handle_initialize initialize_problems
      allocate_names allocate_buffers benchmark finalize_problems handle_finalize discard
      mpichk_result
  main options = do
    ignore mpi_init
    (size_status, world_size) ← external_stored mpi_comm_size
    (rank_status, world_rank) ← external_stored mpi_comm_rank
    let world = record default_details {
      world_size = pos_part (entry world_size 0);
      world_rank = entry world_rank 0;
    }
    establish_streams world.world_rank
    d ← accept_options (argp_parse D options world)
    h ← invoke (handle_initialize true)
    d ← initialize_problems (record d { h = h })
    names ← allocate_names (most d.nfields d.nplanes d.nlines)
    reduced ← external (mpi_allreduce_sum (pos (d.f.bytes + d.p.bytes + d.l.bytes)))
    mpichk_result reduced efailed
    d ← allocate_buffers d
    benchmark names d
    d ← finalize_problems d
    discard (handle_finalize d.h)
    pure (pos 0)
