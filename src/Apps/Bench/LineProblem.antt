-- ===== src/Apps/Bench/LineProblem.antt =====
-- The set-up of the line problem in apps/esio_bench.c, and its end. The messages are not
-- modelled, and the numbers of bytes are taken to fit their C types.
use esio.Prelude.{ℤ, pos, pos_part, ◌*◌, true, false, [], ◌∷◌, ◌==◌, if◌then◌else◌}
use esio.Io.{
  mpi_comm_rank, mpi_comm_free, mpi_dims_create, mpi_cart_create, mpi_cart_coords, free_data, Proc,
  pure, ignore, external_stored, ◌>>=◌, ◌>>◌, invoke, when, in_int,
}
use esio.Error.{success, efailed, mpichk_result, mpichk}
use esio.Apps.Bench.Details.{LineDetails, Details}
use esio.Apps.Bench.Topology.{abort_program, global_minmax, report_ranks, vectors}
use esio.Apps.Bench.Bytes.{Doubles}
use esio.Apps.Bench.Split.{local, start}
use esio.CanonicalPath.{entry}
use esio.Decomposition.{line_establish}

-- The part of this rank and its memory.
unfoldable pub line_part : LineDetails → LineDetails
unfolding local start
line_part l = record l {
  alocal = local l.aglobal l.dim_a l.coord_a true;
  astart = start l.aglobal l.dim_a l.coord_a true;
}

-- The counts are multiplied in type int, and the rest in types of 64 bits.
unfoldable pub line_memory : Details → LineDetails → Proc (ℤ × LineDetails) LineDetails
line_memory d l = do
  in_int (l.alocal * l.ncomponents)
  let stride = l.alocal * l.ncomponents * d.typesize
  pure (record l { stride = stride; bytes = stride * d.nlines })

-- The topology that MPI finds. On an error the function returns with what is stored by then.
line_topology : Details → LineDetails → Proc (ℤ × LineDetails) LineDetails
unfolding mpichk_result mpichk
line_topology d l = do
  (status, stored) ← external_stored (mpi_dims_create d.world_size (pos l.dim_a ∷ []))
  mpichk_result status (efailed, l)
  let l = record l { dim_a = pos_part (entry stored 0) }
  mpichk (mpi_cart_create (pos l.dim_a ∷ [])) (efailed, l)
  (status, stored) ← external_stored mpi_comm_rank
  mpichk_result status (efailed, l)
  let l = record l { rank = entry stored 0 }
  (status, stored) ← external_stored mpi_cart_coords
  mpichk_result status (efailed, l)
  let l = record l { coord_a = pos_part (entry stored 0) }
  mpichk mpi_comm_free (efailed, l)
  pure l

module _ (D : Doubles) where
  -- The extents for the memory that is asked for, if it is.
  unfoldable pub line_extents : Details → LineDetails → LineDetails
  unfolding vectors
  line_extents d l =
      let extent = pos_part (D.to_ℤ (D.ceil ((vectors D d l.bytes l.ncomponents d.nlines)))) in
      if l.bytes == 0 then l else record l { aglobal = extent }

  unfoldable pub line_initialize : Details → LineDetails → Proc (ℤ × LineDetails) (ℤ × LineDetails)
  unfolding line_topology line_extents line_part line_memory global_minmax report_ranks
      line_establish
  line_initialize d l = do
    l ← line_topology d l
    let l = line_extents d l
    when (l.aglobal == 0) abort_program
    l ← line_memory d (line_part l)
    ignored ← invoke (global_minmax l.bytes)
    ignored ← invoke (line_establish d.h (pos l.aglobal) (pos l.astart) (pos l.alocal))
    when d.verbose (report_ranks d.world_size (efailed, l))
    pure (success, l)

-- The buffer is freed if there is one.
unfoldable pub line_finalize : LineDetails → Proc (ℤ × LineDetails) (ℤ × LineDetails)
line_finalize l = do
  when l.allocated (ignore free_data)
  pure (success, record l { allocated = false })
