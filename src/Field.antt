-- ===== src/Field.antt =====
-- Fields in esio/esio.c: creation, `esio_field_write_internal`, `esio_field_read_internal`, and the
-- functions that GEN_FIELD_OP and GEN_FIELD_OPV generate from them.
pub mod Apart
pub mod Contents
pub mod Caching
pub mod Created
pub mod Creating
pub mod Fresh
pub mod Granted
pub mod Moves
pub mod Requested
pub mod Processes
pub mod Shared
pub mod RoundTrip
pub mod Whole
use esio.Prelude.{
  ℤ, pos, negsuc, pos_part, is_neg, eq_ℤ, is_zero, ℕ, ◌*◌, Bool, not, ◌&&◌, Option, List,
  if◌then◌else◌, get_or,
}
use esio.Io.{
  Text, Direction, FieldDecomp, Handle, HandlePointer, dataset_create, reading, writing, pcreate,
  pclose, sclose, dcreate, dopen, dget_type, dclose, tclose, tfind, oset_comment, Proc, pure,
  modify_handle, get_handle, external, ignore, ◌>>=◌, ◌>>◌, invoke, when, is_null, is_given,
  text_or_empty, in_int,
}
use esio.Error.{success, efault, einval, efailed, esanity, fail_val, fail, fail_if, require}
use esio.Plist.{h5p_dataset_xfer_create}
use esio.Layout.Table.{FieldTransfer, row_index, create_filespace, set_chunks, transfer_field}
use esio.Chunksize.{chunksize_field}
use esio.Metadata.{type_ncomponents, field_metadata_write, FieldMetadata, field_metadata_read}
use esio.Decomposition.{or_default}

-- `esio_field_close`
unfoldable pub field_close : ℤ → Proc ℤ ℤ
unfolding fail
field_close dataset_id = do
  closed ← external (dclose dataset_id)
  when (is_neg closed) (fail efailed)
  pure success

-- `esio_field_create`
unfoldable pub field_create : Text → ℤ → ℤ → Proc ℤ ℤ
unfolding fail_val row_index create_filespace field_metadata_write
field_create name type_id dcpl_id = do
  h ← get_handle
  index ← row_index h.layout_index
  when (not (eq_ℤ index h.layout_index)) (fail_val esanity (negsuc 0))
  filespace ←
      create_filespace h.layout_index (pos_part h.f.cglobal) (pos_part h.f.bglobal)
        (pos_part h.f.aglobal)
  when (is_neg filespace) (fail_val esanity (negsuc 0))
  dset_id ← external (dcreate h.file_id name type_id filespace dcpl_id)
  when (is_neg dset_id) do ignore (sclose filespace); fail_val esanity (negsuc 0)
  written ← invoke (
      field_metadata_write h.file_id name h.layout_index h.f.cglobal h.f.bglobal h.f.aglobal
        type_id)
  when (not (eq_ℤ written success))
      do ignore (sclose filespace); ignore (sclose dset_id); fail_val efailed (negsuc 0)
  ignore (sclose filespace)
  pure dset_id

-- The strides in memory, in units of the type.
pub record FieldStrides : Type 0 where
  pub cstride : ℕ
  pub bstride : ℕ
  pub astride : ℕ

-- Zero strides ask for contiguous data. The products are of type int, as are strides that are given.
unfoldable pub field_strides : FieldDecomp → ℕ → ℕ → ℕ → FieldStrides
field_strides f cstride bstride astride =
    let a = or_default astride 1 in
    let b = or_default bstride (a * pos_part f.alocal) in
    let c = or_default cstride (b * pos_part f.blocal) in
    record { cstride = c; bstride = b; astride = a }

-- The checks with which writing and reading begin. `field` is `false` for a null pointer.
unfoldable pub field_arguments :
    HandlePointer → Option Text → Bool → ℤ → ℤ → ℤ → ℤ → Proc ℤ (Text × FieldStrides)
unfolding fail_if require field_strides
field_arguments pointer name field cstride bstride astride type_id = do
  fail_if (is_null pointer) efault
  h ← get_handle
  fail_if (eq_ℤ h.file_id (negsuc 0)) einval
  name ← require name efault efault
  fail_if
      (not field
        && not (is_zero h.f.clocal)
        && not (is_zero h.f.blocal)
        && not (is_zero h.f.alocal))
      efault
  fail_if (is_neg cstride) einval
  fail_if (is_neg bstride) einval
  fail_if (is_neg astride) einval
  fail_if (is_neg type_id) einval
  fail_if (is_zero h.f.aglobal) einval
  let strides = field_strides h.f (pos_part cstride) (pos_part bstride) (pos_part astride)
  in_int strides.bstride
  in_int strides.cstride
  pure (name, strides)

-- The arguments of a field writer or reader, as the decomposition of the handle gives them.
unfoldable pub field_transfer_of :
    Direction → ℤ → ℤ → FieldDecomp → FieldStrides → ℤ → FieldTransfer
field_transfer_of direction plist_id dset_id f strides type_id = record {
  direction = direction;
  plist_id = plist_id;
  dset_id = dset_id;
  cstart = pos_part f.cstart;
  clocal = pos_part f.clocal;
  cstride = strides.cstride;
  bglobal = pos_part f.bglobal;
  bstart = pos_part f.bstart;
  blocal = pos_part f.blocal;
  bstride = strides.bstride;
  astart = pos_part f.astart;
  alocal = pos_part f.alocal;
  astride = strides.astride;
  type_id = type_id;
}

-- Write the data through the layout, and close what was opened for it.
unfoldable pub write_and_close : ℤ → ℤ → FieldStrides → Option Text → ℤ → Proc ℤ ℤ
unfolding field_close transfer_field h5p_dataset_xfer_create field_transfer_of fail_val fail
write_and_close layout_index dset_id strides comment type_id = do
  plist_id ← invoke h5p_dataset_xfer_create
  when (is_neg plist_id) (fail efailed)
  h ← get_handle
  wstat ←
      transfer_field layout_index (field_transfer_of writing plist_id dset_id h.f strides type_id)
  when (not (eq_ℤ wstat success))
      do closed ← invoke (field_close dset_id); ignore (pclose plist_id); fail_val efailed wstat
  ignore (pclose plist_id)
  when (is_given comment) do
    commented ← external (oset_comment dset_id (text_or_empty comment))
    when (is_neg commented) do closed ← invoke (field_close dset_id); fail efailed
  closed ← invoke (field_close dset_id)
  pure success

unfoldable pub store_field_chunks : List ℤ → Handle → Handle
store_field_chunks chunks h = record h {
  f = record h.f {
    cchunk = get_or chunks 0 (pos 0);
    bchunk = get_or chunks 1 (pos 0);
    achunk = get_or chunks 2 (pos 0);
  };
}

-- Chunk sizes are computed once and kept in the handle.
unfoldable pub cache_field_chunks : Proc ℤ Unit
unfolding chunksize_field store_field_chunks fail
cache_field_chunks = do
  h ← get_handle
  when (h.flags.chunking_enabled && is_zero h.f.achunk) do
    (status, chunks) ← invoke (
        chunksize_field h.f.cglobal h.f.cstart h.f.clocal h.f.bglobal h.f.bstart h.f.blocal
          h.f.aglobal h.f.astart h.f.alocal)
    when (not (eq_ℤ status success)) (fail status)
    modify_handle (store_field_chunks chunks)

-- Create the dataset of a field, and write to it.
unfoldable pub create_and_write : Text → FieldStrides → Option Text → ℤ → Proc ℤ ℤ
unfolding set_chunks field_create write_and_close fail
create_and_write name strides comment type_id = do
  dcpl_id ← external (pcreate dataset_create)
  when (is_neg dcpl_id) (fail efailed)
  h ← get_handle
  when h.flags.chunking_enabled do
    set ←
        set_chunks h.layout_index dcpl_id (pos_part h.f.cchunk) (pos_part h.f.bchunk)
          (pos_part h.f.achunk)
    when (is_neg set) do ignore (pclose dcpl_id); fail esanity
  dset_id ← invoke (field_create name type_id dcpl_id)
  when (is_neg dset_id) (fail efailed)
  ignore (pclose dcpl_id)
  write_and_close h.layout_index dset_id strides comment type_id

-- The branch of a field that is not in the file yet.
unfoldable pub write_new_field : Text → FieldStrides → Option Text → ℤ → Proc ℤ ℤ
unfolding cache_field_chunks create_and_write
write_new_field name strides comment type_id =
    cache_field_chunks >> create_and_write name strides comment type_id

-- The sizes and the component count in the file are those of the request.
unfoldable pub check_field_matches : FieldMetadata → ℤ → Proc ℤ Unit
unfolding type_ncomponents fail_if
check_field_matches metadata type_id = do
  h ← get_handle
  fail_if (not (eq_ℤ h.f.cglobal metadata.cglobal)) einval
  fail_if (not (eq_ℤ h.f.bglobal metadata.bglobal)) einval
  fail_if (not (eq_ℤ h.f.aglobal metadata.aglobal)) einval
  ncomponents ← invoke (type_ncomponents type_id)
  fail_if (not (eq_ℤ ncomponents metadata.ncomponents)) einval

-- The branch of a field that is in the file: its own layout is used.
unfoldable pub overwrite_field : Text → FieldMetadata → FieldStrides → Option Text → ℤ → Proc ℤ ℤ
unfolding check_field_matches write_and_close fail
overwrite_field name metadata strides comment type_id = do
  check_field_matches metadata type_id
  h ← get_handle
  dset_id ← external (dopen h.file_id name)
  when (is_neg dset_id) (fail efailed)
  field_type_id ← external (dget_type dset_id)
  converter ← external (tfind type_id field_type_id)
  when (is_zero converter) do ignore (tclose field_type_id); ignore (dclose dset_id); fail einval
  ignore (tclose field_type_id)
  write_and_close metadata.layout_index dset_id strides comment type_id

unfoldable pub field_write_internal :
    HandlePointer → Option Text → Bool → ℤ → ℤ → ℤ → Option Text → ℤ → Proc ℤ ℤ
unfolding field_arguments field_metadata_read write_new_field overwrite_field
field_write_internal pointer name field cstride bstride astride comment type_id = do
  (name, strides) ← field_arguments pointer name field cstride bstride astride type_id
  h ← get_handle
  metadata ← invoke (field_metadata_read h.file_id name)
  if not (eq_ℤ metadata.status success)
      then write_new_field name strides comment type_id
      else overwrite_field name metadata strides comment type_id

-- The branch of reading after the checks. The status of the reader is not looked at.
unfoldable pub read_field_data : Text → FieldMetadata → FieldStrides → ℤ → Proc ℤ ℤ
unfolding field_close transfer_field h5p_dataset_xfer_create field_transfer_of fail
read_field_data name metadata strides type_id = do
  h ← get_handle
  dset_id ← external (dopen h.file_id name)
  when (is_neg dset_id) (fail efailed)
  field_type_id ← external (dget_type dset_id)
  converter ← external (tfind type_id field_type_id)
  when (is_zero converter) do ignore (dclose dset_id); ignore (tclose field_type_id); fail einval
  ignore (tclose field_type_id)
  plist_id ← invoke h5p_dataset_xfer_create
  when (is_neg plist_id) do ignore (dclose dset_id); ignore (tclose field_type_id); fail efailed
  rstat ←
      transfer_field metadata.layout_index
        (field_transfer_of reading plist_id dset_id h.f strides type_id)
  ignore (pclose plist_id)
  closed ← invoke (field_close dset_id)
  pure success

unfoldable pub field_read_internal : HandlePointer → Option Text → Bool → ℤ → ℤ → ℤ → ℤ → Proc ℤ ℤ
unfolding field_arguments field_metadata_read check_field_matches read_field_data fail
field_read_internal pointer name field cstride bstride astride type_id = do
  (name, strides) ← field_arguments pointer name field cstride bstride astride type_id
  h ← get_handle
  metadata ← invoke (field_metadata_read h.file_id name)
  when (not (eq_ℤ metadata.status success)) (fail metadata.status)
  check_field_matches metadata type_id
  read_field_data name metadata strides type_id
