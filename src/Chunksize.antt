-- ===== src/Chunksize.antt =====
-- esio/chunksize.c: the chunk sizes that all ranks agree on, as one rank computes them. Each
-- returns a status and the chunk sizes, which are stored only where the status is success.
pub mod Agreement
pub mod Dimensions
use esio.Prelude.{ℤ, pos, eq_ℤ, neg_ℤ, ℕ, ◌+◌, not, List, [], ◌∷◌, get_or}
use esio.Io.{mpi_allreduce_max, Proc, pure, external_stored, ◌>>=◌, ◌>>◌}
use esio.Error.{success, einval, efailed, fail_val_if, mpichk_result}

-- An entry of `recvbuf`.
abbrev received : List ℤ → ℕ → ℤ
received recvbuf i = get_or recvbuf i (pos 0)

-- One MPI_Allreduce with MPI_MAX gives the maximum of each value and of its negative.
abbrev pub sendbuf_of : ℤ → ℤ → List ℤ → List ℤ
sendbuf_of global local rest = global ∷ neg_ℤ global ∷ local ∷ neg_ℤ local ∷ rest

-- The results of a function that returns a status and stores chunk sizes.
abbrev pub Chunks : Type 0
Chunks = ℤ × List ℤ

-- `if (global_max != global_min) ESIO_ERROR(…)`, on the two entries of `recvbuf` from `i` on.
abbrev fail_if_varies : List ℤ → ℕ → Proc Chunks Unit
fail_if_varies recvbuf i =
    fail_val_if (not (eq_ℤ (received recvbuf i) (neg_ℤ (received recvbuf (i + 1))))) einval
      (einval, [])

unfoldable pub chunksize_line : ℤ → ℤ → ℤ → Proc Chunks Chunks
unfolding mpichk_result fail_val_if
chunksize_line aglobal astart alocal = do
  (status, recvbuf) ← external_stored (mpi_allreduce_max (sendbuf_of aglobal alocal []))
  mpichk_result status (efailed, [])
  fail_if_varies recvbuf 0
  pure (success, received recvbuf 2 ∷ [])

unfoldable pub chunksize_plane : ℤ → ℤ → ℤ → ℤ → ℤ → ℤ → Proc Chunks Chunks
unfolding mpichk_result fail_val_if
chunksize_plane bglobal bstart blocal aglobal astart alocal = do
  (status, recvbuf) ←
      external_stored (mpi_allreduce_max (sendbuf_of bglobal blocal (sendbuf_of aglobal alocal [])))
  mpichk_result status (efailed, [])
  fail_if_varies recvbuf 0
  fail_if_varies recvbuf 4
  pure (success, received recvbuf 2 ∷ received recvbuf 6 ∷ [])

unfoldable pub chunksize_field : ℤ → ℤ → ℤ → ℤ → ℤ → ℤ → ℤ → ℤ → ℤ → Proc Chunks Chunks
unfolding mpichk_result fail_val_if
chunksize_field cglobal cstart clocal bglobal bstart blocal aglobal astart alocal = do
  (status, recvbuf) ← external_stored (
      mpi_allreduce_max
        (sendbuf_of cglobal clocal (sendbuf_of bglobal blocal (sendbuf_of aglobal alocal []))))
  mpichk_result status (efailed, [])
  fail_if_varies recvbuf 0
  fail_if_varies recvbuf 4
  fail_if_varies recvbuf 8
  pure (success, received recvbuf 2 ∷ received recvbuf 6 ∷ received recvbuf 10 ∷ [])
