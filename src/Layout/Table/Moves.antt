-- ===== src/Layout/Table/Moves.antt =====
-- What a row of the table `esio_field_layout` of esio/esio.c moves, whichever layout it is.
use esio.Prelude.{
  refl, ℤ, pos, negsuc, is_neg, ltb_ℤ, ℕ, zero, suc, ◌+◌, ◌*◌, ◌<◌, ◌≡◌, true, false, List, arith,
  ap,
}
use esio.Io.{Machine, Outcome, returned}
use esio.Layout.Table.{
  FieldTransfer, field_layout_count, transfer_field, row_or_undefined, field_layout,
}
use esio.Layout.Pencils.Trace.{Grants, FitsInt, RowsFitInt}
use esio.Layout.Pencils.Grid.{field_elements, indices, flattened}
use esio.Layout.Pencils.Carries.{
  Carries, field_layout1_transfer-Carries, field_layout2_transfer-Carries,
}
use esio.Layout.Simple.Fields.{field_layout0_transfer-Carries}

-- The rows of the field in memory, and its planes, do not reach into the next.
pub record IsSpread (blocal alocal cstride bstride astride : ℕ) : Type 0 where
  pub rising : 0 < astride
  pub rows_apart : (k : ℕ) → k < alocal → k * astride < bstride
  pub planes_apart : (j k : ℕ) → j < blocal → k < alocal → j * bstride + k * astride < cstride

-- The int expressions of the transfer function of the layout do not overflow.
abbrev pub TransferFits : ℤ → FieldTransfer → Type 0
TransferFits layout_index t =
    FitsInt t.cstart t.clocal t.cstride t.bstart t.blocal t.bstride t.alocal t.astride
    × (layout_index ≡ pos 2 → RowsFitInt t.cstart t.clocal t.bglobal t.bstart t.blocal t.bstride)

-- The place of an element in a file of the layout.
abbrev pub place_in : ℤ → ℕ → ℕ → ℕ → ℕ → List ℕ
place_in (pos (suc (suc zero))) bglobal = flattened bglobal
place_in layout_index bglobal = indices

-- The elements of a transfer in a layout.
abbrev pub elements_of : ℤ → ℕ → FieldTransfer → List (ℕ × List ℕ)
elements_of layout_index type_size t =
    field_elements type_size t.cstart t.clocal t.cstride t.bstart t.blocal t.bstride t.astart
      t.alocal t.astride (place_in layout_index t.bglobal)

-- The call of a function of the table returns what the function returns.
invoke-Carries :
    (s : Machine) (type_size : ℕ) (carried : List (ℕ × List ℕ)) (r : Outcome ℤ ℤ × Machine)
    → Carries s type_size carried r
    → Carries s type_size carried (returned r.0, r.1)
invoke-Carries s type_size carried r (calls, ran, seen) =
    (calls, ap (λ (r : Outcome ℤ ℤ × Machine). (returned {R = ℤ} r.0, r.1)) ran, seen)

module _ (s : Machine) (t : FieldTransfer) (mem file : ℤ) (type_size : ℕ)
    (grants : Grants s.env t.dset_id t.type_id mem file type_size) where
  -- Where HDF5 grants the spaces, the selections and the transfers that are asked for, the rows of
  -- the field in memory do not reach into each other, the layout is one of the table, and no int
  -- expression overflows, the transfer function of that layout succeeds.
  pub transfer_field-Carries :
      IsSpread t.blocal t.alocal t.cstride t.bstride t.astride
      → (layout_index : ℤ) → is_neg layout_index ≡ false
      → ltb_ℤ layout_index field_layout_count ≡ true
      → TransferFits layout_index t
      → Carries s type_size (elements_of layout_index type_size t) (transfer_field layout_index t s)
  unfolding transfer_field row_or_undefined field_layout field_layout_count
  transfer_field-Carries spread (pos zero) valid known bounds = invoke-Carries s type_size _ _ (
      field_layout0_transfer-Carries s t.direction t.plist_id t.dset_id t.type_id mem file type_size
        grants t.cstart t.clocal t.cstride t.bstart t.blocal t.bstride t.astart t.alocal t.astride
        bounds.0 spread.rows_apart spread.planes_apart)
  transfer_field-Carries spread (pos (suc zero)) valid known bounds =
      invoke-Carries s type_size _ _ (
        field_layout1_transfer-Carries s t.direction t.plist_id t.dset_id t.type_id mem file
          type_size grants t.cstart t.clocal t.cstride t.bstart t.blocal t.bstride t.astart t.alocal
          t.astride bounds.0)
  transfer_field-Carries spread (pos (suc (suc zero))) valid known bounds =
      invoke-Carries s type_size _ _ (
        field_layout2_transfer-Carries s t.direction t.plist_id t.dset_id t.type_id mem file
          type_size grants t.cstart t.clocal t.cstride t.bstart t.blocal t.bstride t.astart t.alocal
          t.astride bounds.0 t.bglobal (bounds.1 refl))
  transfer_field-Carries spread (pos (suc (suc (suc i)))) valid known bounds = absurd (ground arith)
  transfer_field-Carries spread (negsuc i) valid known bounds = absurd (ground arith)
