-- ===== src/Field/Moves.antt =====
-- What the branches of `esio_field_write_internal` and `esio_field_read_internal` of esio/esio.c move,
-- once the layout of the field is known.
use esio.Prelude.{
  ℤ, is_neg, ltb_ℤ, ℕ, ◌≡◌, true, false, Option, List, ◌++◌, refl, pos, pos_part, ap, ◌∙◌, sym,
}
use esio.Io.{
  Text, FieldDecomp, Machine, Event, writing, ◌>>=◌, invoke, pure, Proc, Outcome, Direction, dopen,
}
use esio.Io.Granted.{
  EndsIn, granted_steps, EndsIn-external_bind, EndsIn-when_either_bind, EndsIn-known_bind,
}
use esio.Plist.{h5p_dataset_xfer_create}
use esio.Layout.Table.{transfer_field, field_layout_count}
use esio.Field.{field_close, read_field_data, FieldStrides, field_transfer_of, write_and_close}
use esio.Metadata.{FieldMetadata}
use mathlib.Core.Path.{subst}
use esio.Field.Granted.{
  GrantsOpening, GrantsDataset, h5p_dataset_xfer_create-Passes, field_close-Passes,
  EndsIn-passing_bind, EndsIn-carrying_bind, EndsIn-quiet_bind,
}
use esio.Error.{success}
use esio.Layout.Table.Moves.{IsSpread, elements_of, transfer_field-Carries}
use esio.Layout.Pencils.Trace.{moved, FitsInt, RowsFitInt}
use esio.Layout.Pencils.Elements.{all_elements}
use esio.Layout.Pencils.Carries.{Carries}

-- The elements of the local part of a field, with its place in the file.
abbrev pub local_part : ℤ → ℕ → FieldDecomp → FieldStrides → List (ℕ × List ℕ)
local_part layout_index type_size f strides =
    elements_of layout_index type_size (field_transfer_of writing (pos 0) (pos 0) f strides (pos 0))

-- The elements of the local part are apart in the buffer, its rows and planes do not reach into the next,
-- and no int expression of the transfer overflows.
abbrev pub IsApart : ℤ → FieldDecomp → FieldStrides → Type 0
IsApart layout_index f strides =
    IsSpread (pos_part f.blocal) (pos_part f.alocal) strides.cstride strides.bstride strides.astride
    × FitsInt (pos_part f.cstart) (pos_part f.clocal) strides.cstride (pos_part f.bstart)
        (pos_part f.blocal) strides.bstride (pos_part f.alocal) strides.astride
    × (layout_index ≡ pos 2
        → RowsFitInt (pos_part f.cstart) (pos_part f.clocal) (pos_part f.bglobal)
            (pos_part f.bstart) (pos_part f.blocal) strides.bstride)

module _ (s : Machine) (dset_id type_id plist_id mem file : ℤ) (type_size : ℕ)
    (grants : GrantsDataset s.env dset_id type_id plist_id mem file type_size)
    (strides : FieldStrides) (layout_index : ℤ) (spread : IsApart layout_index s.handle.f strides)
    (valid : is_neg layout_index ≡ false)
    (known : ltb_ℤ layout_index field_layout_count ≡ true) where
  -- After these calls the local part of the field has been moved, and nothing else since `s`.
  abbrev IsMoved : List Event → Type 0
  IsMoved calls =
      all_elements type_size (moved calls)
      ≡ all_elements type_size (moved s.calls)
        ++ local_part layout_index type_size s.handle.f strides

  module _ {Q : Outcome ℤ ℤ × Machine → Type 0} {calls : List Event} where
    -- The statement that calls the writer or the reader.
    EndsIn-transfer_bind :
        (direction : Direction) (f : ℤ → Proc ℤ ℤ)
        → moved calls ≡ moved s.calls
        → ((after : List Event) → IsMoved after → EndsIn Q (record s { calls = after }) (f success))
        → EndsIn Q
            (record s { calls = calls })
            (transfer_field layout_index
                (field_transfer_of direction plist_id dset_id s.handle.f strides type_id)
              >>= f)
    unfolding field_transfer_of
    EndsIn-transfer_bind direction f none_moved g =
        EndsIn-carrying_bind type_size _ _ f
          (transfer_field-Carries (record s { calls = calls })
            (field_transfer_of direction plist_id dset_id s.handle.f strides type_id) mem file
            type_size grants.transfers spread.0 layout_index valid known (spread.1, spread.2))
          λ after seen. g after (
            seen
            ∙ ap
                (λ ms.
                  all_elements type_size ms ++ local_part layout_index type_size s.handle.f strides)
                none_moved)

    -- The statement that closes the dataset.
    EndsIn-field_close_bind :
        (f : ℤ → Proc ℤ ℤ)
        → IsMoved calls
        → ((after : List Event) → IsMoved after → EndsIn Q (record s { calls = after }) (f success))
        → EndsIn Q (record s { calls = calls }) (invoke (field_close dset_id) >>= f)
    EndsIn-field_close_bind f seen g =
        EndsIn-passing_bind (field_close dset_id) success f
          (field_close-Passes (record s { calls = calls }) dset_id type_id plist_id mem file
            type_size grants)
          λ after quiet. g after (ap (all_elements type_size) quiet ∙ seen)

  EndsIn-moved :
      (calls : List Event)
      → IsMoved calls
      → EndsIn
          (Carries s type_size (local_part layout_index type_size s.handle.f strides))
          (record s { calls = calls })
          (pure success)
  EndsIn-moved calls seen = record { ends = (calls, refl, seen) }

  pub write_and_close-Carries :
      (comment : Option Text)
      → Carries s type_size
          (local_part layout_index type_size s.handle.f strides)
          (write_and_close layout_index dset_id strides comment type_id s)
  unfolding write_and_close
  write_and_close-Carries comment = (begun refl).ends
    where
      begun :
          moved s.calls ≡ moved s.calls
          → EndsIn
              (Carries s type_size (local_part layout_index type_size s.handle.f strides))
              (record s { calls = s.calls })
              (write_and_close layout_index dset_id strides comment type_id)
      begun none_moved =
          search
            (
              granted_steps,
              EndsIn-quiet_bind s s.calls h5p_dataset_xfer_create plist_id (λ calls.
                  h5p_dataset_xfer_create-Passes (record s { calls = calls }) dset_id type_id
                    plist_id mem file type_size grants),
              EndsIn-transfer_bind,
              EndsIn-field_close_bind,
              EndsIn-moved,
              EndsIn-external_bind,
              EndsIn-when_either_bind,
              grants.list_valid,
              grants.comments,
            )
            depth 30

  module _ (name : Text) (opening : GrantsOpening s.env s.handle.file_id name dset_id type_id) where
    pub read_field_data-Carries :
        (metadata : FieldMetadata)
        → metadata.layout_index ≡ layout_index
        → Carries s type_size
            (local_part layout_index type_size s.handle.f strides)
            (read_field_data name metadata strides type_id s)
    unfolding read_field_data
    read_field_data-Carries metadata e =
        subst
          (λ i.
            Carries s type_size (local_part layout_index type_size s.handle.f strides)
              (read_field_data name (record metadata { layout_index = i }) strides type_id s))
          (sym e) (begun refl).ends
      where
        begun :
            moved s.calls ≡ moved s.calls
            → EndsIn
                (Carries s type_size (local_part layout_index type_size s.handle.f strides))
                (record s { calls = s.calls })
                (read_field_data name
                  (record metadata { layout_index = layout_index })
                  strides
                  type_id)
        begun none_moved =
            search
              (
                granted_steps,
                EndsIn-quiet_bind s s.calls h5p_dataset_xfer_create plist_id (λ calls.
                    h5p_dataset_xfer_create-Passes (record s { calls = calls }) dset_id type_id
                      plist_id mem file type_size grants),
                EndsIn-transfer_bind,
                EndsIn-field_close_bind,
                EndsIn-moved,
                EndsIn-known_bind s (dopen s.handle.file_id name) dset_id opening.opens,
                EndsIn-external_bind,
                grants.list_valid,
                opening.opened,
                opening.converts,
              )
              depth 30
