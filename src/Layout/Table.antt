-- ===== src/Layout/Table.antt =====
-- The filespace creators and dataset chunkers of esio/layout.c, the table `esio_field_layout` of
-- esio/esio.c, and the layout that a handle writes with.
pub mod Choice
pub mod Moves
pub mod Rows
use esio.Prelude.{
  ℤ, pos, negsuc, is_neg, ltb_ℤ, ℕ, zero, suc, ◌*◌, not, Option, none, some, List, [], ◌∷◌,
  if◌then◌else◌, length,
}
use esio.Io.{
  Direction, HandlePointer, pset_chunk, screate_simple, Proc, pure, return, undefined,
  modify_handle, get_handle, external, ◌>>=◌, ◌>>◌, invoke, is_null, in_int,
}
use esio.Error.{success, efault, einval, fail_if}
use esio.Layout.Simple.{field_layout0_transfer}
use esio.Layout.Pencils.{field_layout1_transfer, field_layout2_transfer}

unfoldable pub field_layout0_filespace_creator : ℕ → ℕ → ℕ → Proc ℤ ℤ
field_layout0_filespace_creator cglobal bglobal aglobal =
    external (screate_simple (cglobal ∷ bglobal ∷ aglobal ∷ []))

unfoldable pub field_layout1_filespace_creator : ℕ → ℕ → ℕ → Proc ℤ ℤ
field_layout1_filespace_creator cglobal bglobal aglobal =
    external (screate_simple (cglobal ∷ bglobal ∷ aglobal ∷ []))

unfoldable pub field_layout2_filespace_creator : ℕ → ℕ → ℕ → Proc ℤ ℤ
field_layout2_filespace_creator cglobal bglobal aglobal =
    in_int (cglobal * bglobal) >> external (screate_simple (cglobal * bglobal ∷ aglobal ∷ []))

unfoldable pub field_layout0_dataset_chunker : ℤ → ℕ → ℕ → ℕ → Proc ℤ ℤ
field_layout0_dataset_chunker dcpl_id cchunk bchunk achunk =
    external (pset_chunk dcpl_id (cchunk ∷ bchunk ∷ achunk ∷ []))

unfoldable pub field_layout1_dataset_chunker : ℤ → ℕ → ℕ → ℕ → Proc ℤ ℤ
field_layout1_dataset_chunker dcpl_id cchunk bchunk achunk =
    external (pset_chunk dcpl_id (cchunk ∷ bchunk ∷ achunk ∷ []))

unfoldable pub field_layout2_dataset_chunker : ℤ → ℕ → ℕ → ℕ → Proc ℤ ℤ
field_layout2_dataset_chunker dcpl_id cchunk bchunk achunk =
    in_int (cchunk * bchunk) >> external (pset_chunk dcpl_id (cchunk * bchunk ∷ achunk ∷ []))

-- One argument record for the field writers and readers, whose parameters are the same.
pub record FieldTransfer : Type 0 where
  pub direction : Direction
  pub plist_id : ℤ
  pub dset_id : ℤ
  pub cstart : ℕ
  pub clocal : ℕ
  pub cstride : ℕ
  pub bglobal : ℕ
  pub bstart : ℕ
  pub blocal : ℕ
  pub bstride : ℕ
  pub astart : ℕ
  pub alocal : ℕ
  pub astride : ℕ
  pub type_id : ℤ

-- A row of the table. Writer and reader are one function of the direction.
pub record FieldLayout : Type 0 where
  pub index : ℤ
  pub filespace_creator : ℕ → ℕ → ℕ → Proc ℤ ℤ
  pub dataset_chunker : ℤ → ℕ → ℕ → ℕ → Proc ℤ ℤ
  pub field_transfer : FieldTransfer → Proc ℤ ℤ

abbrev pub with_layout0 : FieldTransfer → Proc ℤ ℤ
with_layout0 t =
    field_layout0_transfer t.direction t.plist_id t.dset_id t.cstart t.clocal t.cstride t.bstart
      t.blocal t.bstride t.astart t.alocal t.astride t.type_id

abbrev pub with_layout1 : FieldTransfer → Proc ℤ ℤ
with_layout1 t =
    field_layout1_transfer t.direction t.plist_id t.dset_id t.cstart t.clocal t.cstride t.bstart
      t.blocal t.bstride t.astart t.alocal t.astride t.type_id

abbrev pub with_layout2 : FieldTransfer → Proc ℤ ℤ
with_layout2 t =
    field_layout2_transfer t.direction t.plist_id t.dset_id t.cstart t.clocal t.cstride t.bglobal
      t.bstart t.blocal t.bstride t.astart t.alocal t.astride t.type_id

unfoldable pub field_layout : List FieldLayout
unfolding field_layout0_filespace_creator field_layout1_filespace_creator
    field_layout2_filespace_creator field_layout0_dataset_chunker field_layout1_dataset_chunker
    field_layout2_dataset_chunker
field_layout =
    record {
      index = pos 0;
      filespace_creator = field_layout0_filespace_creator;
      dataset_chunker = field_layout0_dataset_chunker;
      field_transfer = with_layout0;
    }
    ∷ record {
      index = pos 1;
      filespace_creator = field_layout1_filespace_creator;
      dataset_chunker = field_layout1_dataset_chunker;
      field_transfer = with_layout1;
    }
    ∷ record {
      index = pos 2;
      filespace_creator = field_layout2_filespace_creator;
      dataset_chunker = field_layout2_dataset_chunker;
      field_transfer = with_layout2;
    }
    ∷ []

-- `esio_field_layout[i]`: undefined outside of the table.
unfoldable pub row_at : List FieldLayout → ℕ → Option FieldLayout
row_at [] i = none
row_at (row ∷ rows) zero = some row
row_at (row ∷ rows) (suc i) = row_at rows i

unfoldable pub row : ℤ → Option FieldLayout
unfolding row_at field_layout
row (pos i) = row_at field_layout i
row (negsuc i) = none

unfoldable pub row_or_undefined : ℤ → Proc ℤ FieldLayout
unfolding row
row_or_undefined i = elim (row i) [ none ↦ undefined | some r ↦ pure r ]

unfoldable pub field_layout_count : ℤ
unfolding field_layout
field_layout_count = pos (length field_layout)

unfoldable pub row_index : ℤ → Proc ℤ ℤ
unfolding row_or_undefined
row_index i = do r ← row_or_undefined i; pure r.index

unfoldable pub create_filespace : ℤ → ℕ → ℕ → ℕ → Proc ℤ ℤ
unfolding row_or_undefined
create_filespace i cglobal bglobal aglobal = do
  r ← row_or_undefined i
  invoke (r.filespace_creator cglobal bglobal aglobal)

unfoldable pub set_chunks : ℤ → ℤ → ℕ → ℕ → ℕ → Proc ℤ ℤ
unfolding row_or_undefined
set_chunks i dcpl_id cchunk bchunk achunk = do
  r ← row_or_undefined i
  invoke (r.dataset_chunker dcpl_id cchunk bchunk achunk)

unfoldable pub transfer_field : ℤ → FieldTransfer → Proc ℤ ℤ
unfolding row_or_undefined
transfer_field i t = do r ← row_or_undefined i; invoke (r.field_transfer t)

unfoldable pub field_layout_get : HandlePointer → Proc ℤ ℤ
field_layout_get pointer =
    if is_null pointer then return (pos 0) else do h ← get_handle; pure h.layout_index

-- Another layout makes the cached chunk sizes invalid.
unfoldable pub field_layout_set : HandlePointer → ℤ → Proc ℤ ℤ
unfolding field_layout_count
field_layout_set pointer layout_index = do
  fail_if (is_null pointer) efault
  fail_if (is_neg layout_index) einval
  fail_if (not (ltb_ℤ layout_index field_layout_count)) einval
  modify_handle (λ h. record h {
    layout_index = layout_index;
    f = record h.f { cchunk = pos 0; bchunk = pos 0; achunk = pos 0 };
    p = record h.p { bchunk = pos 0; achunk = pos 0 };
    l = record h.l { achunk = pos 0 };
  })
  pure success
