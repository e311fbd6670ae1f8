-- ===== src/Handle.antt =====
-- The life of a handle in esio/esio.c: initialize, the two queries and finalize.
use esio.Prelude.{ℤ, pos, negsuc, eq_ℤ, Bool, true, false, not, Option, none, some, List, get_or}
use esio.Io.{
  LineDecomp, PlaneDecomp, FieldDecomp, Handle, HandlePointer, mpi_comm_size, mpi_comm_rank,
  mpi_info_create, mpi_comm_free, mpi_info_free, calloc_handle, free_handle, unset, null, live,
  Proc, pure, modify_handle, get_handle, external, ignore, external_stored, ◌>>=◌, ◌>>◌, invoke,
  when, is_null,
}
use esio.Error.{
  success, efault, einval, esanity, enomem, fail_val, fail_val_if, mpichkr_result, mpichkr,
  mpichk_result, mpichk,
}
use esio.Communicator.{mpi_comm_dup_with_name}
use esio.FilePath.{free_file_path, set_file_path, is_set}
use esio.File.{file_close}

abbrev pub no_line : LineDecomp
no_line = record { aglobal = pos 0; astart = pos 0; alocal = pos 0; achunk = pos 0 }

abbrev pub no_plane : PlaneDecomp
no_plane = record {
  bglobal = pos 0;
  bstart = pos 0;
  blocal = pos 0;
  aglobal = pos 0;
  astart = pos 0;
  alocal = pos 0;
  bchunk = pos 0;
  achunk = pos 0;
}

abbrev pub no_field : FieldDecomp
no_field = record {
  cglobal = pos 0;
  cstart = pos 0;
  clocal = pos 0;
  bglobal = pos 0;
  bstart = pos 0;
  blocal = pos 0;
  aglobal = pos 0;
  astart = pos 0;
  alocal = pos 0;
  cchunk = pos 0;
  bchunk = pos 0;
  achunk = pos 0;
}

-- What calloc and the assignments after it leave in the memory of the handle.
abbrev pub fresh_handle : Bool → ℤ → ℤ → Handle
fresh_handle comm comm_rank comm_size = record {
  comm = comm;
  comm_rank = comm_rank;
  comm_size = comm_size;
  info = true;
  file_id = negsuc 0;
  file_path = unset;
  layout_index = pos 0;
  flags = record { collective_enabled = true; chunking_enabled = false };
  l = no_line;
  p = no_plane;
  f = no_field;
}

abbrev pub first_stored : List ℤ → ℤ
first_stored stored = get_or stored 0 (pos 0)

unfoldable pub handle_finalize : HandlePointer → Proc ℤ ℤ
unfolding free_file_path set_file_path is_set mpichkr mpichkr_result
handle_finalize null = pure success
handle_finalize live = do
  status ← invoke (file_close live)
  h ← get_handle
  when h.comm do mpichkr mpi_comm_free; modify_handle (λ h. record h { comm = false })
  when h.info do mpichkr mpi_info_free; modify_handle (λ h. record h { info = false })
  h ← get_handle
  when (is_set h.file_path) do free_file_path; set_file_path unset
  ignore free_handle
  pure success

-- The communicator is `false` for MPI_COMM_NULL.
unfoldable pub handle_initialize : Bool → Proc HandlePointer HandlePointer
handle_initialize comm = do
  fail_val_if (not comm) einval null
  (size_status, comm_size) ← external_stored mpi_comm_size
  mpichk_result size_status null
  (rank_status, comm_rank) ← external_stored mpi_comm_rank
  mpichk_result rank_status null
  mpichk mpi_info_create null
  memory ← external calloc_handle
  fail_val_if (eq_ℤ memory (pos 0)) enomem null
  dup ← invoke (mpi_comm_dup_with_name comm)
  modify_handle (λ h. fresh_handle dup (first_stored comm_rank) (first_stored comm_size))
  when (not dup) do finalized ← invoke (handle_finalize live); fail_val esanity null
  pure live

-- An output pointer is `false` if it is null. The result is the status and what was stored.
abbrev Output : Type 0
Output = ℤ × Option ℤ

unfoldable pub handle_comm_size : HandlePointer → Bool → Proc Output Output
handle_comm_size pointer size = do
  fail_val_if (is_null pointer) efault (efault, none)
  fail_val_if (not size) efault (efault, none)
  h ← get_handle
  pure (success, some h.comm_size)

unfoldable pub handle_comm_rank : HandlePointer → Bool → Proc Output Output
handle_comm_rank pointer rank = do
  fail_val_if (is_null pointer) efault (efault, none)
  fail_val_if (not rank) efault (efault, none)
  h ← get_handle
  pure (success, some h.comm_rank)
