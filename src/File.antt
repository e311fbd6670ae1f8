-- ===== src/File.antt =====
-- The file operations of esio/esio.c: create, open, clone, path, flush, close and close_restart.
pub mod Outcomes
pub mod Opening
pub mod Results
use esio.Prelude.{
  ℤ, pos, negsuc, is_neg, eq_ℤ, ◌+ℤ◌, ℕ, Bool, true, not, Option, none, some, ltb, if◌then◌else◌,
  length, drop,
}
use esio.Io.{
  Text, PathPointer, HandlePointer, mpi_allreduce_sum, mpi_allreduce_max, mpi_bcast, mpi_bcast_path,
  malloc, canonicalize_file_name, strdup, pclose, fcreate, fopen, fflush, fflush_global, fclose,
  unset, owned, dangling, Proc, pure, return, undefined, modify_handle, get_handle, external,
  ignore, external_text, external_stored, external_received, ◌>>=◌, ◌>>◌, invoke, when, is_null,
  is_none, next, fault,
}
use esio.Error.{
  success, efault, einval, efailed, esanity, enomem, error, fail_val, fail, fail_if, fail_val_if,
  require, mpichk_result,
}
use esio.Plist.{h5p_file_access_create, configure_metadata_caching}
use esio.FileCopy.{file_copy}
use esio.FilePath.{set_file_path, is_set, free_file_path, without_scheme, duplicate, keep_path}
use esio.CanonicalPath.{share_canonical_path, entry}
use esio.Uri.{scheme_prefix_len}

unfoldable pub set_file_id : ℤ → Proc ℤ Unit
set_file_id id = modify_handle (λ h. record h { file_id = id })

-- The access property list of create and open, with its metadata caching options.
unfoldable pub configured_fapl : Proc ℤ ℤ
configured_fapl = do
  fapl_id ← invoke h5p_file_access_create
  fail_if (is_neg fapl_id) esanity
  configured ← invoke (configure_metadata_caching fapl_id)
  when (not (eq_ℤ configured success)) do ignore (pclose fapl_id); fail esanity
  pure fapl_id

unfoldable pub file_create : HandlePointer → Option Text → Bool → Proc ℤ ℤ
unfolding configured_fapl without_scheme keep_path set_file_id
file_create pointer file overwrite = do
  fail_if (is_null pointer) efault
  h ← get_handle
  fail_if (not (eq_ℤ h.file_id (negsuc 0))) einval
  file ← require file efault efault
  fapl_id ← configured_fapl
  file_id ← external (fcreate file overwrite fapl_id)
  when (is_neg file_id) do ignore (pclose fapl_id); fail efailed
  ignore (pclose fapl_id)
  path ← external_text (canonicalize_file_name (without_scheme file))
  keep_path path
  set_file_id file_id
  pure success

unfoldable pub file_open : HandlePointer → Option Text → Bool → Proc ℤ ℤ
unfolding configured_fapl share_canonical_path set_file_id
file_open pointer file readwrite = do
  fail_if (is_null pointer) efault
  h ← get_handle
  fail_if (not (eq_ℤ h.file_id (negsuc 0))) einval
  file ← require file efault efault
  fapl_id ← configured_fapl
  file_id ← external (fopen file readwrite fapl_id)
  when (is_neg file_id) do ignore (pclose fapl_id); fail efailed
  ignore (pclose fapl_id)
  ignore (fflush file_id)
  share_canonical_path file
  set_file_id file_id
  pure success

-- `s + n` points into the string or at its NUL only if `n` is at most its length.
unfoldable pub advance : Text → ℕ → Proc ℤ Text
advance s n = if ltb (length s) n then undefined else pure (drop n s)

-- One rank's work in clone and close_restart, and the sum that tells all ranks its status.
abbrev pub on_last_rank : Proc ℤ ℤ → Proc ℤ ℤ
on_last_rank work = do
  h ← get_handle
  status ← (if eq_ℤ (h.comm_rank +ℤ pos 1) h.comm_size then work else pure (pos 0))
  (reduced, stored) ← external_stored (mpi_allreduce_sum status)
  mpichk_result reduced efailed
  pure (entry stored 0)

unfoldable pub file_clone : ℕ → HandlePointer → Option Text → Option Text → Bool → Proc ℤ ℤ
unfolding advance
file_clone fuel pointer srcfile dstfile overwrite = do
  fail_if (is_null pointer) efault
  h ← get_handle
  fail_if (not (eq_ℤ h.file_id (negsuc 0))) einval
  src ← require srcfile efault efault
  dst ← require dstfile efault efault
  let prefix_len = scheme_prefix_len (some src)
  status ← on_last_rank do
    src_path ← advance src prefix_len
    dst_path ← advance dst prefix_len
    invoke (file_copy fuel src_path dst_path overwrite true)
  when (not (eq_ℤ status (pos 0))) (return status)
  invoke (file_open pointer (some dst) true)

-- `none` is a null pointer, here and below where a `char *` is returned.
unfoldable pub file_path : HandlePointer → Proc (Option Text) (Option Text)
unfolding duplicate
file_path pointer = do
  fail_val_if (is_null pointer) efault none
  h ← get_handle
  when (eq_ℤ h.file_id (negsuc 0)) (return none)
  path ← duplicate h.file_path
  fail_val_if (is_none path) enomem none
  pure path

unfoldable pub file_flush : HandlePointer → Proc ℤ ℤ
file_flush pointer = do
  fail_if (is_null pointer) efault
  h ← get_handle
  when (not (eq_ℤ h.file_id (negsuc 0)))
      do flushed ← external (fflush_global h.file_id); fail_if (is_neg flushed) efailed
  pure success

unfoldable pub file_close : HandlePointer → Proc ℤ ℤ
unfolding free_file_path set_file_path set_file_id is_set
file_close pointer = do
  fail_if (is_null pointer) efault
  h ← get_handle
  when (not (eq_ℤ h.file_id (negsuc 0))) do
    closed ← external (fclose h.file_id)
    fail_if (is_neg closed) efailed
    when (is_set h.file_path) do free_file_path; set_file_path unset
    set_file_id (negsuc 0)
  pure success
