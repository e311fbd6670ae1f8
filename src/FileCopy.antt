-- ===== src/FileCopy.antt =====
-- esio/file-copy.c: `file_copy`. The functions of gnulib, safe_read and full_write, are external.
pub mod Fuel
use esio.Prelude.{ℤ, pos, is_neg, eq_ℤ, ltb_ℤ, ℕ, zero, suc, Bool, if◌then◌else◌}
use esio.Io.{
  Text, malloc, open_read, open_truncate, open_exclusive, safe_read, full_write, fsync, close, Proc,
  pure, out_of_fuel, external, ◌>>=◌, ◌>>◌, when,
}
use esio.Error.{success, efailed, enomem, fail_if}

-- OPSIZE
abbrev opsize : ℤ
opsize = pos 32768

-- The body of the loop `while (1)`, and what follows it: the loop ends when a read returns no
-- bytes.
unfoldable pub copy_round : ℤ → ℤ → Proc ℤ Unit → Proc ℤ Unit
copy_round src dst again = do
  n ← external (safe_read src)
  fail_if (is_neg n) efailed
  if eq_ℤ n (pos 0)
      then pure tt
      else do written ← external (full_write dst n); fail_if (ltb_ℤ written n) efailed; again

unfoldable pub copy_loop : ℕ → ℤ → ℤ → Proc ℤ Unit
unfolding copy_round
copy_loop zero src dst = out_of_fuel
copy_loop (suc fuel) src dst = copy_round src dst (copy_loop fuel src dst)

-- The last two arguments are `overwrite` and `blockuntilsync`.
unfoldable pub file_copy : ℕ → Text → Text → Bool → Bool → Proc ℤ ℤ
unfolding copy_loop
file_copy fuel src_filename dest_filename overwrite blockuntilsync = do
  buf ← external (malloc opsize)
  fail_if (eq_ℤ buf (pos 0)) enomem
  src ← external (open_read src_filename)
  fail_if (is_neg src) efailed
  dst ← external (if overwrite then open_truncate dest_filename else open_exclusive dest_filename)
  fail_if (is_neg dst) efailed
  copy_loop fuel src dst
  when blockuntilsync do synced ← external (fsync dst); fail_if (is_neg synced) efailed
  closed_dst ← external (close dst)
  fail_if (is_neg closed_dst) efailed
  closed_src ← external (close src)
  fail_if (is_neg closed_src) efailed
  pure success
