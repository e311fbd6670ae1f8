-- ===== src/Apps/Bench/PlaneProblem.antt =====
-- The set-up of the plane problem in apps/esio_bench.c, and its end. The messages are not
-- modelled, and the numbers of bytes are taken to fit their C types.
use esio.Prelude.{ℤ, pos, pos_part, ◌*◌, true, false, ◌||◌, [], ◌∷◌, ◌==◌, if◌then◌else◌}
use esio.Io.{
  mpi_comm_rank, mpi_comm_free, mpi_dims_create, mpi_cart_create, mpi_cart_coords, free_data, Proc,
  pure, ignore, external_stored, ◌>>=◌, ◌>>◌, invoke, when, in_int,
}
use esio.Error.{success, efailed, mpichk_result, mpichk}
use esio.Apps.Bench.Details.{PlaneDetails, Details}
use esio.Apps.Bench.Topology.{abort_program, global_minmax, report_ranks, vectors}
use esio.Apps.Bench.Bytes.{Doubles}
use esio.Apps.Bench.Split.{local, start}
use esio.CanonicalPath.{entry}
use esio.Decomposition.{plane_establish}

-- The part of this rank and its memory.
unfoldable pub plane_part : PlaneDetails → PlaneDetails
unfolding local start
plane_part p = record p {
  blocal = local p.bglobal p.dim_b p.coord_b false;
  bstart = start p.bglobal p.dim_b p.coord_b false;
  alocal = local p.aglobal p.dim_a p.coord_a true;
  astart = start p.aglobal p.dim_a p.coord_a true;
}

-- The counts are multiplied in type int, and the rest in types of 64 bits.
unfoldable pub plane_memory : Details → PlaneDetails → Proc (ℤ × PlaneDetails) PlaneDetails
plane_memory d p = do
  in_int (p.blocal * p.alocal)
  in_int (p.blocal * p.alocal * p.ncomponents)
  let stride = p.blocal * p.alocal * p.ncomponents * d.typesize
  pure (record p { stride = stride; bytes = stride * d.nplanes })

-- The topology that MPI finds. On an error the function returns with what is stored by then.
plane_topology : Details → PlaneDetails → Proc (ℤ × PlaneDetails) PlaneDetails
unfolding mpichk_result mpichk
plane_topology d p = do
  (status, stored) ← external_stored (mpi_dims_create d.world_size (pos p.dim_b ∷ pos p.dim_a ∷ []))
  mpichk_result status (efailed, p)
  let p = record p { dim_b = pos_part (entry stored 0); dim_a = pos_part (entry stored 1) }
  mpichk (mpi_cart_create (pos p.dim_b ∷ pos p.dim_a ∷ [])) (efailed, p)
  (status, stored) ← external_stored mpi_comm_rank
  mpichk_result status (efailed, p)
  let p = record p { rank = entry stored 0 }
  (status, stored) ← external_stored mpi_cart_coords
  mpichk_result status (efailed, p)
  let p = record p { coord_b = pos_part (entry stored 0); coord_a = pos_part (entry stored 1) }
  mpichk mpi_comm_free (efailed, p)
  pure p

module _ (D : Doubles) where
  -- The extents for the memory that is asked for, if it is.
  unfoldable pub plane_extents : Details → PlaneDetails → PlaneDetails
  unfolding vectors
  plane_extents d p =
      let extent =
        pos_part (D.to_ℤ (D.ceil (D.sqrt (vectors D d p.bytes p.ncomponents d.nplanes)))) in
      if p.bytes == 0 then p else record p { bglobal = extent; aglobal = extent }

  unfoldable pub plane_initialize :
      Details → PlaneDetails → Proc (ℤ × PlaneDetails) (ℤ × PlaneDetails)
  unfolding plane_topology plane_extents plane_part plane_memory global_minmax report_ranks
      plane_establish
  plane_initialize d p = do
    p ← plane_topology d p
    let p = plane_extents d p
    when (p.bglobal == 0 || p.aglobal == 0) abort_program
    p ← plane_memory d (plane_part p)
    ignored ← invoke (global_minmax p.bytes)
    ignored ← invoke (
        plane_establish d.h (pos p.bglobal) (pos p.bstart) (pos p.blocal) (pos p.aglobal)
          (pos p.astart) (pos p.alocal))
    when d.verbose (report_ranks d.world_size (efailed, p))
    pure (success, p)

-- The buffer is freed if there is one.
unfoldable pub plane_finalize : PlaneDetails → Proc (ℤ × PlaneDetails) (ℤ × PlaneDetails)
plane_finalize p = do
  when p.allocated (ignore free_data)
  pure (success, record p { allocated = false })
