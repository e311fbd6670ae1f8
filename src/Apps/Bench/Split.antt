-- ===== src/Apps/Bench/Split.antt =====
-- How apps/esio_bench.c distributes the elements of one direction over ranks.
pub mod Partition
use esio.Prelude.{ℕ, zero, suc, ◌+◌, ◌/◌, ◌%◌, Bool, ltb, if◌then◌else◌}

-- Ranks, sizes and offsets are never negative here: the options and MPI see to that. The test
-- `nranks - rank - 1 < nglobal % nranks` stands without its subtraction.
unfoldable pub local : ℕ → ℕ → ℕ → Bool → ℕ
local nglobal nranks rank extralow =
    if extralow
    then nglobal / nranks + (if ltb rank (nglobal % nranks) then 1 else 0)
    else nglobal / nranks + (if ltb nranks (nglobal % nranks + rank + 1) then 1 else 0)

-- The loop of `start`, with the rounds left.
start_loop : ℕ → ℕ → Bool → ℕ → ℕ → ℕ → ℕ
unfolding local
start_loop nglobal nranks extralow zero i offset = offset
start_loop nglobal nranks extralow (suc rounds) i offset =
    start_loop nglobal nranks extralow rounds (i + 1) (offset + local nglobal nranks i extralow)

unfoldable pub start : ℕ → ℕ → ℕ → Bool → ℕ
unfolding start_loop
start nglobal nranks rank extralow = start_loop nglobal nranks extralow rank 0 0
