-- ===== src/Apps/Bench/Topology.antt =====
-- What the set-ups of apps/esio_bench.c share: MPI calls and the memory that they are given.
use esio.Prelude.{ℤ, pos, neg_ℤ, ℕ, ◌*◌, [], ◌∷◌}
use esio.Io.{mpi_abort, mpi_allreduce_max, mpi_barrier, Proc, pure, ignore, ◌>>◌, for_from, aborted}
use esio.Error.{success, efailed, mpichk}
use esio.Apps.Bench.Details.{Details}
use esio.Apps.Bench.Bytes.{Doubles}

-- MPI_Abort does not return.
abbrev pub abort_program : {R A : Type 0} → Proc R A
abort_program s = (aborted, (ignore {R = Unit} mpi_abort s).1)

-- `global_minmax`. The bounds that it stores are only printed.
unfoldable pub global_minmax : ℕ → Proc ℤ ℤ
unfolding mpichk
global_minmax val = do
  mpichk (mpi_allreduce_max (neg_ℤ (pos val) ∷ pos val ∷ [])) efailed
  pure success

-- The barriers around the reports of the ranks, one after the other, in verbose mode.
unfoldable pub report_ranks : {R : Type 0} → ℕ → R → Proc R Unit
unfolding mpichk
report_ranks world_size value = do
  for_from 0 world_size (λ i. mpichk mpi_barrier value)
  mpichk mpi_barrier value

module _ (D : Doubles) where
  -- How many vectors fit the memory of all ranks.
  unfoldable pub vectors : Details → ℕ → ℕ → ℕ → D.Double
  vectors d bytes ncomponents count =
      D.over
        (D.over (D.of_ℤ (pos (bytes * d.world_size)))
          (D.times (D.of_ℤ (pos ncomponents)) (D.of_ℤ (pos d.typesize))))
        (D.of_ℤ (pos count))
