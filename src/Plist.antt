-- ===== src/Plist.antt =====
-- The property lists that esio/esio.c asks HDF5 for.
use esio.Prelude.{ℤ, pos, negsuc, is_neg, eq_ℤ, not}
use esio.Io.{
  dataset_xfer, file_access, pcreate, pset_dxpl_mpio, pset_fapl_mpio, pget_mdc_config,
  pset_mdc_config, pclose, Proc, pure, get_handle, external, ignore, ◌>>=◌, ◌>>◌, when,
}
use esio.Error.{success, esanity, fail_val, fail_val_if}

unfoldable pub h5p_dataset_xfer_create : Proc ℤ ℤ
unfolding fail_val_if fail_val
h5p_dataset_xfer_create = do
  plist_id ← external (pcreate dataset_xfer)
  fail_val_if (is_neg plist_id) esanity (negsuc 0)
  h ← get_handle
  when h.flags.collective_enabled do
    status ← external (pset_dxpl_mpio plist_id)
    when (is_neg status) do ignore (pclose plist_id); fail_val esanity (negsuc 0)
  pure plist_id

unfoldable pub h5p_file_access_create : Proc ℤ ℤ
h5p_file_access_create = do
  fapl_id ← external (pcreate file_access)
  fail_val_if (eq_ℤ fapl_id (negsuc 0)) esanity (negsuc 0)
  status ← external (pset_fapl_mpio fapl_id)
  when (not (eq_ℤ status (pos 0))) do ignore (pclose fapl_id); fail_val esanity (negsuc 0)
  pure fapl_id

unfoldable pub configure_metadata_caching : ℤ → Proc ℤ ℤ
configure_metadata_caching plist_id = do
  got ← external (pget_mdc_config plist_id)
  fail_val_if (is_neg got) esanity (negsuc 0)
  set ← external (pset_mdc_config plist_id)
  fail_val_if (is_neg set) esanity (negsuc 0)
  pure success
