-- ===== src/Invariant/Transfers.antt =====
-- The property lists, the transfers of esio/layout.c and the metadata of esio/metadata.c keep every
-- property of the handle.
use esio.Prelude.{ℤ, pos, negsuc, ℕ, zero, suc, Bool, List}
use esio.Io.{Direction, Handle}
use esio.Plist.{h5p_dataset_xfer_create, h5p_file_access_create, configure_metadata_caching}
use esio.Layout.Simple.{
  transfer_and_close, select_filespace, line_transfer, select_run, reset_selection, plane_transfer,
  field_layout0_transfer,
}
use esio.Layout.Pencils.{
  transfer_pencil, layout1_contiguous, layout1_strided, field_layout1_transfer,
  field_layout2_transfer,
}
use esio.Layout.Table.{
  FieldTransfer, with_layout0, with_layout1, with_layout2, row_or_undefined, row_index,
  create_filespace, set_chunks, transfer_field, field_layout2_filespace_creator,
  field_layout2_dataset_chunker,
}
use esio.Io.Keeps.{Keeps}
use esio.Error.Keeps.{error_rules}

module _ {P : Handle → Type 0} where
  pub Keeps-xfer_create : Keeps P h5p_dataset_xfer_create
  unfolding h5p_dataset_xfer_create
  Keeps-xfer_create = search error_rules depth 20

  pub Keeps-access_create : Keeps P h5p_file_access_create
  unfolding h5p_file_access_create
  Keeps-access_create = search error_rules depth 20

  pub Keeps-caching : (plist_id : ℤ) → Keeps P (configure_metadata_caching plist_id)
  unfolding configure_metadata_caching
  Keeps-caching plist_id = search error_rules depth 20

  Keeps-transfer_and_close :
      (dir : Direction) (dset type mem file plist : ℤ) (offset : ℕ)
      → Keeps P (transfer_and_close dir dset type mem file plist offset)
  unfolding transfer_and_close
  Keeps-transfer_and_close dir dset type mem file plist offset = search error_rules depth 20

  Keeps-select_filespace :
      (nothing : Bool) (mem file : ℤ) (start count : List ℕ)
      → Keeps P (select_filespace nothing mem file start count)
  unfolding select_filespace
  Keeps-select_filespace nothing mem file start count = search error_rules depth 20

  Keeps-select_run :
      (mem : ℤ) (start stride count : ℕ) → Keeps P (select_run mem start stride count)
  unfolding select_run
  Keeps-select_run mem start stride count = search error_rules depth 20

  Keeps-reset_selection : (mem : ℤ) → Keeps P (reset_selection mem)
  unfolding reset_selection
  Keeps-reset_selection mem = search error_rules depth 20

ruleset simple_rules = (
  error_rules, Keeps-transfer_and_close, Keeps-select_filespace, Keeps-select_run,
  Keeps-reset_selection,
)

module _ {P : Handle → Type 0} where
  pub Keeps-line_transfer :
      (dir : Direction) (plist dset : ℤ) (astart alocal astride : ℕ) (type : ℤ)
      → Keeps P (line_transfer dir plist dset astart alocal astride type)
  unfolding line_transfer
  Keeps-line_transfer dir plist dset astart alocal astride type = search simple_rules depth 30

  pub Keeps-plane_transfer :
      (dir : Direction) (plist dset : ℤ) (bstart blocal bstride astart alocal astride : ℕ)
      (type : ℤ)
      → Keeps P (plane_transfer dir plist dset bstart blocal bstride astart alocal astride type)
  unfolding plane_transfer
  Keeps-plane_transfer dir plist dset bstart blocal bstride astart alocal astride type =
      search simple_rules depth 30

  Keeps-layout0 : (t : FieldTransfer) → Keeps P (with_layout0 t)
  unfolding field_layout0_transfer
  Keeps-layout0 t = search simple_rules depth 30

  Keeps-pencil :
      (dir : Direction) (dset type mem file plist : ℤ) (start stride count : List ℕ) (offset : ℕ)
      → Keeps P (transfer_pencil dir dset type mem file plist start stride count offset)
  unfolding transfer_pencil
  Keeps-pencil dir dset type mem file plist start stride count offset = search error_rules depth 20

  Keeps-layout1 : (t : FieldTransfer) → Keeps P (with_layout1 t)
  unfolding field_layout1_transfer layout1_contiguous layout1_strided
  Keeps-layout1 t = search (simple_rules, Keeps-pencil) depth 30

  Keeps-layout2 : (t : FieldTransfer) → Keeps P (with_layout2 t)
  unfolding field_layout2_transfer
  Keeps-layout2 t = search (simple_rules, Keeps-pencil) depth 30

  pub Keeps-transfer_field : (i : ℤ) (t : FieldTransfer) → Keeps P (transfer_field i t)
  unfolding transfer_field row_or_undefined
  Keeps-transfer_field (pos zero) t = record { at = λ s h. (Keeps-layout0 t).at s h }
  Keeps-transfer_field (pos (suc zero)) t = record { at = λ s h. (Keeps-layout1 t).at s h }
  Keeps-transfer_field (pos (suc (suc zero))) t = record { at = λ s h. (Keeps-layout2 t).at s h }
  Keeps-transfer_field (pos (suc (suc (suc i)))) t = record { at = λ s h. h }
  Keeps-transfer_field (negsuc i) t = record { at = λ s h. h }

  pub Keeps-row_index : (i : ℤ) → Keeps P (row_index i)
  unfolding row_index row_or_undefined
  Keeps-row_index (pos zero) = record { at = λ s h. h }
  Keeps-row_index (pos (suc zero)) = record { at = λ s h. h }
  Keeps-row_index (pos (suc (suc zero))) = record { at = λ s h. h }
  Keeps-row_index (pos (suc (suc (suc i)))) = record { at = λ s h. h }
  Keeps-row_index (negsuc i) = record { at = λ s h. h }

  Keeps-layout2_filespace : (c b a : ℕ) → Keeps P (field_layout2_filespace_creator c b a)
  unfolding field_layout2_filespace_creator
  Keeps-layout2_filespace c b a = search simple_rules depth 20

  Keeps-layout2_chunker :
      (dcpl : ℤ) (c b a : ℕ) → Keeps P (field_layout2_dataset_chunker dcpl c b a)
  unfolding field_layout2_dataset_chunker
  Keeps-layout2_chunker dcpl c b a = search simple_rules depth 20

  pub Keeps-create_filespace : (i : ℤ) (c b a : ℕ) → Keeps P (create_filespace i c b a)
  unfolding create_filespace row_or_undefined
  Keeps-create_filespace (pos zero) c b a = record { at = λ s h. h }
  Keeps-create_filespace (pos (suc zero)) c b a = record { at = λ s h. h }
  Keeps-create_filespace (pos (suc (suc zero))) c b a = record {
    at = λ s h. (Keeps-layout2_filespace c b a).at s h;
  }
  Keeps-create_filespace (pos (suc (suc (suc i)))) c b a = record { at = λ s h. h }
  Keeps-create_filespace (negsuc i) c b a = record { at = λ s h. h }

  pub Keeps-set_chunks : (i dcpl : ℤ) (c b a : ℕ) → Keeps P (set_chunks i dcpl c b a)
  unfolding set_chunks row_or_undefined
  Keeps-set_chunks (pos zero) dcpl c b a = record { at = λ s h. h }
  Keeps-set_chunks (pos (suc zero)) dcpl c b a = record { at = λ s h. h }
  Keeps-set_chunks (pos (suc (suc zero))) dcpl c b a = record {
    at = λ s h. (Keeps-layout2_chunker dcpl c b a).at s h;
  }
  Keeps-set_chunks (pos (suc (suc (suc i)))) dcpl c b a = record { at = λ s h. h }
  Keeps-set_chunks (negsuc i) dcpl c b a = record { at = λ s h. h }
