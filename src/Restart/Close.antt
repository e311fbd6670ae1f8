-- ===== src/Restart/Close.antt =====
-- `esio_file_close_restart` of esio/esio.c: close the file, and make it the newest restart file.
use esio.Prelude.{ℤ, pos, negsuc, eq_ℤ, ltb_ℤ, not, Option, some, drop}
use esio.Io.{Text, HandlePointer, Proc, pure, get_handle, ◌>>=◌, ◌>>◌, invoke, is_null}
use esio.Error.{success, efault, einval, efailed, fail, fail_if, require, mpichk_result}
use esio.File.{file_create, file_open, on_last_rank, file_clone, file_flush, file_close}
use esio.Restart.Rename.{restart_rename}
use esio.Uri.{scheme_prefix_len}
use esio.File

unfoldable pub file_close_restart : HandlePointer → Option Text → ℤ → Proc ℤ ℤ
unfolding File.file_path file_close restart_rename fail_if fail require mpichk_result
file_close_restart pointer restart_template retain_count = do
  fail_if (is_null pointer) efault
  template ← require restart_template efault efault
  fail_if (ltb_ℤ retain_count (pos 1)) einval
  h ← get_handle
  fail_if (eq_ℤ h.file_id (negsuc 0)) einval
  src_filename ← invoke (File.file_path pointer)
  src ← require src_filename efailed efailed
  close_status ← invoke (file_close pointer)
  fail_if (not (eq_ℤ close_status success)) close_status
  status ← on_last_rank do
    invoke (
        restart_rename (some src) (some (drop (scheme_prefix_len (some template)) template))
          retain_count)
  fail_if (not (eq_ℤ status success)) status
  pure success
