-- ===== src/Communicator.antt =====
-- `esio_MPI_Comm_dup_with_name` of esio/esio.c: a duplicate of a communicator under its name.
use esio.Prelude.{ℤ, pos, eq_ℤ, ltb_ℤ, Bool, true, false, not, List, [], ◌∷◌}
use esio.Io.{
  mpi_comm_get_name, mpi_comm_dup, mpi_comm_set_name, mpi_comm_free, Proc, pure, return, external,
  external_stored, ◌>>=◌, ◌>>◌, when,
}
use esio.Error.{mpichkr_result, mpichkr}

abbrev first : List ℤ → ℤ
first [] = pos 0
first (n ∷ rest) = n

-- A communicator is `false` if it is MPI_COMM_NULL.
unfoldable pub mpi_comm_dup_with_name : Bool → Proc Bool Bool
unfolding mpichkr mpichkr_result
mpi_comm_dup_with_name comm = do
  when (not comm) (return false)
  (get_name_error, resultlen) ← external_stored mpi_comm_get_name
  when (not (eq_ℤ get_name_error (pos 0))) do mpichkr_result get_name_error; return false
  dup_error ← external mpi_comm_dup
  when (not (eq_ℤ dup_error (pos 0))) do mpichkr_result dup_error; return false
  when (ltb_ℤ (pos 0) (first resultlen)) do
    set_name_error ← external mpi_comm_set_name
    when (not (eq_ℤ set_name_error (pos 0)))
        do mpichkr_result set_name_error; mpichkr mpi_comm_free; return false
  pure true
