-- ===== src/Line.antt =====
-- Lines in esio/esio.c: creation, `esio_line_write_internal` and `esio_line_read_internal`.
use esio.Prelude.{
  ℤ, pos, negsuc, pos_part, is_neg, eq_ℤ, is_zero, ℕ, Bool, not, ◌&&◌, Option, List, [], ◌∷◌,
  if◌then◌else◌, get_or,
}
use esio.Io.{
  Text, Direction, Handle, HandlePointer, dataset_create, reading, writing, pcreate, pclose,
  pset_chunk, screate_simple, sclose, dcreate, dopen, dget_type, dclose, tclose, tfind,
  oset_comment, Proc, pure, modify_handle, get_handle, external, ignore, ◌>>=◌, ◌>>◌, invoke, when,
  is_null, is_given, text_or_empty,
}
use esio.Error.{success, efault, einval, efailed, esanity, fail_val, fail, fail_if, require}
use esio.Plist.{h5p_dataset_xfer_create}
use esio.Layout.Simple.{line_transfer}
use esio.Chunksize.{chunksize_line}
use esio.Metadata.{type_ncomponents, Extents, line_metadata_write, line_metadata_read}
use esio.Decomposition.{or_default}

-- `esio_line_close`
unfoldable pub line_close : ℤ → Proc ℤ ℤ
unfolding fail
line_close dataset_id = do
  closed ← external (dclose dataset_id)
  when (is_neg closed) (fail efailed)
  pure success

-- `esio_line_create`
unfoldable pub line_create : Text → ℤ → ℤ → Proc ℤ ℤ
unfolding fail_val line_metadata_write
line_create name type_id dcpl_id = do
  h ← get_handle
  filespace ← external (screate_simple (pos_part h.l.aglobal ∷ []))
  when (is_neg filespace) (fail_val esanity (negsuc 0))
  dset_id ← external (dcreate h.file_id name type_id filespace dcpl_id)
  when (is_neg dset_id) do ignore (sclose filespace); fail_val esanity (negsuc 0)
  written ← invoke (line_metadata_write h.file_id name h.l.aglobal type_id)
  when (not (eq_ℤ written success))
      do ignore (sclose filespace); ignore (dclose dset_id); fail_val efailed (negsuc 0)
  ignore (sclose filespace)
  pure dset_id

-- The checks with which writing and reading begin. `line` is `false` for a null pointer. The
-- result is the name and the stride: zero asks for contiguous data.
unfoldable pub line_arguments : HandlePointer → Option Text → Bool → ℤ → ℤ → Proc ℤ (Text × ℕ)
unfolding fail_if require
line_arguments pointer name line astride type_id = do
  fail_if (is_null pointer) efault
  h ← get_handle
  fail_if (eq_ℤ h.file_id (negsuc 0)) einval
  name ← require name efault efault
  fail_if (not line && not (is_zero h.l.alocal)) efault
  fail_if (is_neg astride) einval
  fail_if (is_neg type_id) einval
  fail_if (is_zero h.l.aglobal) einval
  pure (name, or_default (pos_part astride) 1)

unfoldable pub store_line_chunk : List ℤ → Handle → Handle
store_line_chunk chunks h = record h { l = record h.l { achunk = get_or chunks 0 (pos 0) } }

-- Chunk sizes are computed once and kept in the handle.
unfoldable pub cache_line_chunk : Proc ℤ Unit
unfolding chunksize_line store_line_chunk fail
cache_line_chunk = do
  h ← get_handle
  when (h.flags.chunking_enabled && is_zero h.l.achunk) do
    (status, chunks) ← invoke (chunksize_line h.l.aglobal h.l.astart h.l.alocal)
    when (not (eq_ℤ status success)) (fail status)
    modify_handle (store_line_chunk chunks)

-- The branch of a line that is not in the file yet.
unfoldable pub create_new_line : Text → ℤ → Proc ℤ ℤ
unfolding cache_line_chunk line_create fail
create_new_line name type_id = do
  cache_line_chunk
  dcpl_id ← external (pcreate dataset_create)
  when (is_neg dcpl_id) (fail efailed)
  h ← get_handle
  when h.flags.chunking_enabled do
    set ← external (pset_chunk dcpl_id (pos_part h.l.achunk ∷ []))
    when (is_neg set) do ignore (pclose dcpl_id); fail esanity
  dset_id ← invoke (line_create name type_id dcpl_id)
  when (is_neg dset_id) (fail efailed)
  ignore (pclose dcpl_id)
  pure dset_id

-- The size and the component count in the file are those of the request.
unfoldable pub check_line_matches : Extents → ℤ → Proc ℤ Unit
unfolding type_ncomponents fail_if
check_line_matches extents type_id = do
  h ← get_handle
  fail_if (not (eq_ℤ h.l.aglobal (get_or extents.global 0 (pos 0)))) einval
  ncomponents ← invoke (type_ncomponents type_id)
  fail_if (not (eq_ℤ ncomponents extents.ncomponents)) einval

-- The branch of a line that is in the file, for writing and for reading.
unfoldable pub open_existing_line : Text → Extents → ℤ → Proc ℤ ℤ
unfolding check_line_matches fail
open_existing_line name extents type_id = do
  check_line_matches extents type_id
  h ← get_handle
  dset_id ← external (dopen h.file_id name)
  when (is_neg dset_id) (fail efailed)
  line_type_id ← external (dget_type dset_id)
  converter ← external (tfind type_id line_type_id)
  when (is_zero converter) do ignore (tclose line_type_id); ignore (dclose dset_id); fail einval
  ignore (tclose line_type_id)
  pure dset_id

-- `esio_line_writer` or `esio_line_reader` on the decomposition of the handle.
unfoldable pub transfer_line : Direction → ℤ → ℤ → ℕ → ℤ → Proc ℤ ℤ
unfolding line_transfer
transfer_line direction plist_id dset_id astride type_id = do
  h ← get_handle
  invoke (
      line_transfer direction plist_id dset_id (pos_part h.l.astart) (pos_part h.l.alocal) astride
        type_id)

unfoldable pub line_write_internal :
    HandlePointer → Option Text → Bool → ℤ → Option Text → ℤ → Proc ℤ ℤ
unfolding line_arguments line_metadata_read create_new_line open_existing_line
    h5p_dataset_xfer_create transfer_line line_close fail fail_val
line_write_internal pointer name line astride comment type_id = do
  (name, astride) ← line_arguments pointer name line astride type_id
  h ← get_handle
  extents ← invoke (line_metadata_read h.file_id name)
  dset_id ←
      (if not (eq_ℤ extents.status success)
        then create_new_line name type_id
        else open_existing_line name extents type_id)
  plist_id ← invoke h5p_dataset_xfer_create
  when (is_neg plist_id) (fail efailed)
  wstat ← transfer_line writing plist_id dset_id astride type_id
  when (not (eq_ℤ wstat success))
      do closed ← invoke (line_close dset_id); ignore (pclose plist_id); fail_val efailed wstat
  ignore (pclose plist_id)
  when (is_given comment) do
    commented ← external (oset_comment dset_id (text_or_empty comment))
    when (is_neg commented) do closed ← invoke (line_close dset_id); fail efailed
  closed ← invoke (line_close dset_id)
  pure success

unfoldable pub line_read_internal : HandlePointer → Option Text → Bool → ℤ → ℤ → Proc ℤ ℤ
unfolding line_arguments line_metadata_read open_existing_line h5p_dataset_xfer_create transfer_line
    line_close fail fail_val
line_read_internal pointer name line astride type_id = do
  (name, astride) ← line_arguments pointer name line astride type_id
  h ← get_handle
  extents ← invoke (line_metadata_read h.file_id name)
  when (not (eq_ℤ extents.status success)) (fail extents.status)
  dset_id ← open_existing_line name extents type_id
  plist_id ← invoke h5p_dataset_xfer_create
  when (is_neg plist_id) (fail efailed)
  rstat ← transfer_line reading plist_id dset_id astride type_id
  when (not (eq_ℤ rstat success))
      do closed ← invoke (line_close dset_id); ignore (pclose plist_id); fail_val efailed rstat
  closed ← invoke (line_close dset_id)
  ignore (pclose plist_id)
  pure success
