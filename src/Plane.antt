-- ===== src/Plane.antt =====
-- Planes in esio/esio.c: creation, `esio_plane_write_internal` and `esio_plane_read_internal`.
use esio.Prelude.{
  ℤ, pos, negsuc, pos_part, is_neg, eq_ℤ, is_zero, ℕ, ◌*◌, Bool, not, ◌&&◌, Option, List, [], ◌∷◌,
  if◌then◌else◌, get_or,
}
use esio.Io.{
  Text, Direction, PlaneDecomp, Handle, HandlePointer, dataset_create, reading, writing, pcreate,
  pclose, pset_chunk, screate_simple, sclose, dcreate, dopen, dget_type, dclose, tclose, tfind,
  oset_comment, Proc, pure, modify_handle, get_handle, external, ignore, ◌>>=◌, ◌>>◌, invoke, when,
  is_null, is_given, text_or_empty, in_int,
}
use esio.Error.{success, efault, einval, efailed, esanity, fail_val, fail, fail_if, require}
use esio.Plist.{h5p_dataset_xfer_create}
use esio.Layout.Simple.{plane_transfer}
use esio.Chunksize.{chunksize_plane}
use esio.Metadata.{type_ncomponents, Extents, plane_metadata_write, plane_metadata_read}
use esio.Decomposition.{or_default}

-- `esio_plane_close`
unfoldable pub plane_close : ℤ → Proc ℤ ℤ
unfolding fail
plane_close dataset_id = do
  closed ← external (dclose dataset_id)
  when (is_neg closed) (fail efailed)
  pure success

-- `esio_plane_create`
unfoldable pub plane_create : Text → ℤ → ℤ → Proc ℤ ℤ
unfolding fail_val plane_metadata_write
plane_create name type_id dcpl_id = do
  h ← get_handle
  filespace ← external (screate_simple (pos_part h.p.bglobal ∷ pos_part h.p.aglobal ∷ []))
  when (is_neg filespace) (fail_val esanity (negsuc 0))
  dset_id ← external (dcreate h.file_id name type_id filespace dcpl_id)
  when (is_neg dset_id) do ignore (sclose filespace); fail_val esanity (negsuc 0)
  written ← invoke (plane_metadata_write h.file_id name h.p.bglobal h.p.aglobal type_id)
  when (not (eq_ℤ written success))
      do ignore (sclose filespace); ignore (dclose dset_id); fail_val efailed (negsuc 0)
  ignore (sclose filespace)
  pure dset_id

pub record PlaneStrides : Type 0 where
  pub bstride : ℕ
  pub astride : ℕ

-- Zero strides ask for contiguous data. The product is of type int, as is a stride that is given.
unfoldable pub plane_strides : PlaneDecomp → ℕ → ℕ → PlaneStrides
plane_strides p bstride astride =
    let a = or_default astride 1 in
    record { bstride = or_default bstride (a * pos_part p.alocal); astride = a }

-- The checks with which writing and reading begin. `plane` is `false` for a null pointer.
unfoldable pub plane_arguments :
    HandlePointer → Option Text → Bool → ℤ → ℤ → ℤ → Proc ℤ (Text × PlaneStrides)
unfolding fail_if require plane_strides
plane_arguments pointer name plane bstride astride type_id = do
  fail_if (is_null pointer) efault
  h ← get_handle
  fail_if (eq_ℤ h.file_id (negsuc 0)) einval
  name ← require name efault efault
  fail_if (not plane && not (is_zero h.p.blocal) && not (is_zero h.p.alocal)) efault
  fail_if (is_neg bstride) einval
  fail_if (is_neg astride) einval
  fail_if (is_neg type_id) einval
  fail_if (is_zero h.p.aglobal) einval
  let strides = plane_strides h.p (pos_part bstride) (pos_part astride)
  in_int strides.bstride
  pure (name, strides)

unfoldable pub store_plane_chunks : List ℤ → Handle → Handle
store_plane_chunks chunks h = record h {
  p = record h.p { bchunk = get_or chunks 0 (pos 0); achunk = get_or chunks 1 (pos 0) };
}

-- Chunk sizes are computed once and kept in the handle.
unfoldable pub cache_plane_chunks : Proc ℤ Unit
unfolding chunksize_plane store_plane_chunks fail
cache_plane_chunks = do
  h ← get_handle
  when (h.flags.chunking_enabled && is_zero h.p.achunk) do
    (status, chunks) ←
        invoke (chunksize_plane h.p.bglobal h.p.bstart h.p.blocal h.p.aglobal h.p.astart h.p.alocal)
    when (not (eq_ℤ status success)) (fail status)
    modify_handle (store_plane_chunks chunks)

-- The branch of a plane that is not in the file yet.
unfoldable pub create_new_plane : Text → ℤ → Proc ℤ ℤ
unfolding cache_plane_chunks plane_create fail
create_new_plane name type_id = do
  cache_plane_chunks
  dcpl_id ← external (pcreate dataset_create)
  when (is_neg dcpl_id) (fail efailed)
  h ← get_handle
  when h.flags.chunking_enabled do
    set ← external (pset_chunk dcpl_id (pos_part h.p.bchunk ∷ pos_part h.p.achunk ∷ []))
    when (is_neg set) do ignore (pclose dcpl_id); fail esanity
  dset_id ← invoke (plane_create name type_id dcpl_id)
  when (is_neg dset_id) (fail efailed)
  ignore (pclose dcpl_id)
  pure dset_id

-- The sizes and the component count in the file are those of the request.
unfoldable pub check_plane_matches : Extents → ℤ → Proc ℤ Unit
unfolding type_ncomponents fail_if
check_plane_matches extents type_id = do
  h ← get_handle
  fail_if (not (eq_ℤ h.p.bglobal (get_or extents.global 0 (pos 0)))) einval
  fail_if (not (eq_ℤ h.p.aglobal (get_or extents.global 1 (pos 0)))) einval
  ncomponents ← invoke (type_ncomponents type_id)
  fail_if (not (eq_ℤ ncomponents extents.ncomponents)) einval

-- The branch of a plane that is in the file.
unfoldable pub open_existing_plane : Text → Extents → ℤ → Proc ℤ ℤ
unfolding check_plane_matches fail
open_existing_plane name extents type_id = do
  check_plane_matches extents type_id
  h ← get_handle
  dset_id ← external (dopen h.file_id name)
  when (is_neg dset_id) (fail efailed)
  plane_type_id ← external (dget_type dset_id)
  converter ← external (tfind type_id plane_type_id)
  when (is_zero converter) do ignore (tclose plane_type_id); ignore (dclose dset_id); fail einval
  ignore (tclose plane_type_id)
  pure dset_id

-- `esio_plane_writer` or `esio_plane_reader` on the decomposition of the handle.
unfoldable pub transfer_plane : Direction → ℤ → ℤ → PlaneStrides → ℤ → Proc ℤ ℤ
unfolding plane_transfer
transfer_plane direction plist_id dset_id strides type_id = do
  h ← get_handle
  invoke (
      plane_transfer direction plist_id dset_id (pos_part h.p.bstart) (pos_part h.p.blocal)
        strides.bstride (pos_part h.p.astart) (pos_part h.p.alocal) strides.astride type_id)

unfoldable pub plane_write_internal :
    HandlePointer → Option Text → Bool → ℤ → ℤ → Option Text → ℤ → Proc ℤ ℤ
unfolding plane_arguments plane_metadata_read create_new_plane open_existing_plane
    h5p_dataset_xfer_create transfer_plane plane_close fail fail_val
plane_write_internal pointer name plane bstride astride comment type_id = do
  (name, strides) ← plane_arguments pointer name plane bstride astride type_id
  h ← get_handle
  extents ← invoke (plane_metadata_read h.file_id name)
  dset_id ←
      (if not (eq_ℤ extents.status success)
        then create_new_plane name type_id
        else open_existing_plane name extents type_id)
  plist_id ← invoke h5p_dataset_xfer_create
  when (is_neg plist_id) do closed ← invoke (plane_close dset_id); fail efailed
  wstat ← transfer_plane writing plist_id dset_id strides type_id
  when (not (eq_ℤ wstat success))
      do closed ← invoke (plane_close dset_id); ignore (pclose plist_id); fail_val efailed wstat
  ignore (pclose plist_id)
  when (is_given comment) do
    commented ← external (oset_comment dset_id (text_or_empty comment))
    when (is_neg commented) do closed ← invoke (plane_close dset_id); fail efailed
  closed ← invoke (plane_close dset_id)
  pure success

unfoldable pub plane_read_internal : HandlePointer → Option Text → Bool → ℤ → ℤ → ℤ → Proc ℤ ℤ
unfolding plane_arguments plane_metadata_read check_plane_matches h5p_dataset_xfer_create
    transfer_plane plane_close fail fail_val
plane_read_internal pointer name plane bstride astride type_id = do
  (name, strides) ← plane_arguments pointer name plane bstride astride type_id
  h ← get_handle
  extents ← invoke (plane_metadata_read h.file_id name)
  when (not (eq_ℤ extents.status success)) (fail extents.status)
  check_plane_matches extents type_id
  plist_id ← invoke h5p_dataset_xfer_create
  when (is_neg plist_id) (fail efailed)
  dset_id ← external (dopen h.file_id name)
  when (is_neg dset_id) (fail efailed)
  plane_type_id ← external (dget_type dset_id)
  converter ← external (tfind type_id plane_type_id)
  when (is_zero converter) do
    ignore (tclose plane_type_id)
    ignore (dclose dset_id)
    ignore (pclose plist_id)
    fail einval
  ignore (tclose plane_type_id)
  rstat ← transfer_plane reading plist_id dset_id strides type_id
  when (not (eq_ℤ rstat success))
      do closed ← invoke (plane_close dset_id); ignore (pclose plist_id); fail_val efailed rstat
  closed ← invoke (plane_close dset_id)
  ignore (pclose plist_id)
  pure success
