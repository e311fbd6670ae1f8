-- ===== src/Apps/Bench/FieldProblem.antt =====
-- The set-up of the field problem in apps/esio_bench.c, and its end. The messages are not
-- modelled, and the numbers of bytes are taken to fit their C types.
use esio.Prelude.{ℤ, pos, pos_part, ◌*◌, true, false, ◌||◌, [], ◌∷◌, ◌==◌, if◌then◌else◌}
use esio.Io.{
  mpi_comm_rank, mpi_comm_free, mpi_dims_create, mpi_cart_create, mpi_cart_coords, free_data, Proc,
  pure, ignore, external_stored, ◌>>=◌, ◌>>◌, invoke, when, in_int,
}
use esio.Error.{success, efailed, mpichk_result, mpichk}
use esio.Apps.Bench.Details.{FieldDetails, Details}
use esio.Apps.Bench.Topology.{abort_program, global_minmax, report_ranks, vectors}
use esio.Apps.Bench.Bytes.{Doubles}
use esio.Apps.Bench.Split.{local, start}
use esio.CanonicalPath.{entry}
use esio.Decomposition.{field_establish}
use esio.Layout.Table.{field_layout_set}

-- The part of this rank and its memory.
unfoldable pub field_part : FieldDetails → FieldDetails
unfolding local start
field_part f = record f {
  clocal = local f.cglobal f.dim_c f.coord_c true;
  cstart = start f.cglobal f.dim_c f.coord_c true;
  blocal = local f.bglobal f.dim_b f.coord_b false;
  bstart = start f.bglobal f.dim_b f.coord_b false;
  alocal = local f.aglobal f.dim_a f.coord_a true;
  astart = start f.aglobal f.dim_a f.coord_a true;
}

-- The counts are multiplied in type int, and the rest in types of 64 bits.
unfoldable pub field_memory : Details → FieldDetails → Proc (ℤ × FieldDetails) FieldDetails
field_memory d f = do
  in_int (f.clocal * f.blocal)
  in_int (f.clocal * f.blocal * f.alocal)
  in_int (f.clocal * f.blocal * f.alocal * f.ncomponents)
  let stride = f.clocal * f.blocal * f.alocal * f.ncomponents * d.typesize
  pure (record f { stride = stride; bytes = stride * d.nfields })

-- The topology that MPI finds. On an error the function returns with what is stored by then.
field_topology : Details → FieldDetails → Proc (ℤ × FieldDetails) FieldDetails
unfolding mpichk_result mpichk
field_topology d f = do
  (status, stored) ←
      external_stored (mpi_dims_create d.world_size (pos f.dim_c ∷ pos f.dim_b ∷ pos f.dim_a ∷ []))
  mpichk_result status (efailed, f)
  let f = record f {
    dim_c = pos_part (entry stored 0);
    dim_b = pos_part (entry stored 1);
    dim_a = pos_part (entry stored 2);
  }
  mpichk (mpi_cart_create (pos f.dim_c ∷ pos f.dim_b ∷ pos f.dim_a ∷ [])) (efailed, f)
  (status, stored) ← external_stored mpi_comm_rank
  mpichk_result status (efailed, f)
  let f = record f { rank = entry stored 0 }
  (status, stored) ← external_stored mpi_cart_coords
  mpichk_result status (efailed, f)
  let f = record f {
    coord_c = pos_part (entry stored 0);
    coord_b = pos_part (entry stored 1);
    coord_a = pos_part (entry stored 2);
  }
  mpichk mpi_comm_free (efailed, f)
  pure f

module _ (D : Doubles) where
  -- The extents for the memory that is asked for, if it is.
  unfoldable pub field_extents : Details → FieldDetails → FieldDetails
  unfolding vectors
  field_extents d f =
      let extent =
        pos_part (D.to_ℤ (D.ceil (D.cbrt (vectors D d f.bytes f.ncomponents d.nfields)))) in
      if f.bytes == 0 then f else record f { cglobal = extent; bglobal = extent; aglobal = extent }

  unfoldable pub field_initialize :
      Details → FieldDetails → Proc (ℤ × FieldDetails) (ℤ × FieldDetails)
  unfolding field_topology field_extents field_part field_memory global_minmax report_ranks
      field_establish field_layout_set
  field_initialize d f = do
    f ← field_topology d f
    let f = field_extents d f
    when (f.cglobal == 0 || f.bglobal == 0 || f.aglobal == 0) abort_program
    f ← field_memory d (field_part f)
    ignored ← invoke (global_minmax f.bytes)
    ignored ← invoke (field_layout_set d.h (pos f.layout))
    ignored ← invoke (
        field_establish d.h (pos f.cglobal) (pos f.cstart) (pos f.clocal) (pos f.bglobal)
          (pos f.bstart) (pos f.blocal) (pos f.aglobal) (pos f.astart) (pos f.alocal))
    when d.verbose (report_ranks d.world_size (efailed, f))
    pure (success, f)

-- The buffer is freed if there is one.
unfoldable pub field_finalize : FieldDetails → Proc (ℤ × FieldDetails) (ℤ × FieldDetails)
field_finalize f = do
  when f.allocated (ignore free_data)
  pure (success, record f { allocated = false })
