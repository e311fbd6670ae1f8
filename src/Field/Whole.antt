-- ===== src/Field/Whole.antt =====
-- `esio_field_read_internal` of esio/esio.c, and `esio_field_write_internal` for a field that is in the
-- file, from the request to the elements that are moved.
use esio.Prelude.{ℤ, is_neg, ltb_ℤ, ℕ, ◌≡◌, true, false, List, Option, some, refl, ◌∙◌, ap, ◌++◌}
use esio.Io.{Text, Machine, Event, Proc, Outcome, live, ◌>>=◌, invoke, dopen}
use esio.Field.{
  check_field_matches, FieldStrides, read_field_data, field_read_internal, overwrite_field,
  field_write_internal, write_and_close,
}
use esio.Io.Granted.{EndsIn, granted_steps, EndsIn-external_bind, EndsIn-known_bind}
use esio.Error.{success}
use esio.Metadata.{FieldMetadata, field_metadata_read}
use esio.Metadata.Found.{Described, field_metadata_read-Passes}
use esio.Field.Granted.{GrantsDataset, GrantsOpening, EndsIn-passing_bind}
use esio.Field.Moves.{local_part, write_and_close-Carries, read_field_data-Carries, IsApart}
use esio.Field.Requested.{
  IsRequest, IsMatch, strides_of, EndsIn-check_field_matches_bind, EndsIn-field_arguments_bind,
}
use esio.Layout.Table.{field_layout_count}
use esio.Layout.Pencils.Trace.{moved}
use esio.Layout.Pencils.Elements.{all_elements}
use esio.Layout.Pencils.Carries.{Carries}

-- What the program keeps of what the file says.
abbrev pub found : FieldMetadata → FieldMetadata
found metadata = record metadata { status = success }

-- A request for a field that the file describes as it is asked for, in a layout of the table, of which
-- the elements are apart in memory, and for which HDF5 grants what is asked for.
pub record IsGranted (s : Machine) (name : Text) (cstride bstride astride type_id : ℤ)
    (metadata : FieldMetadata) (dset_id plist_id mem file : ℤ) (type_size : ℕ) : Type 0 where
  pub request : IsRequest s.handle cstride bstride astride type_id
  pub described : Described s.env s.handle.file_id name metadata
  pub match : IsMatch s.env s.handle (found metadata) type_id
  pub valid : is_neg metadata.layout_index ≡ false
  pub known : ltb_ℤ metadata.layout_index field_layout_count ≡ true
  pub opening : GrantsOpening s.env s.handle.file_id name dset_id type_id
  pub grants : GrantsDataset s.env dset_id type_id plist_id mem file type_size
  pub spread :
      IsApart metadata.layout_index s.handle.f (strides_of s.handle cstride bstride astride)

module _ (s : Machine) (name : Text) (cstride bstride astride type_id : ℤ)
    (metadata : FieldMetadata) (dset_id plist_id mem file : ℤ) (type_size : ℕ)
    (is : IsGranted s name cstride bstride astride type_id metadata dset_id plist_id mem file
      type_size) where
  abbrev strides : FieldStrides
  strides = strides_of s.handle cstride bstride astride

  -- The elements that are asked for.
  abbrev pub requested : List (ℕ × List ℕ)
  requested = local_part metadata.layout_index type_size s.handle.f strides

  Carries-later :
      (calls : List Event) (r : Outcome ℤ ℤ × Machine)
      → moved calls ≡ moved s.calls
      → Carries (record s { calls = calls }) type_size requested r
      → Carries s type_size requested r
  Carries-later calls r quiet (after, ran, seen) =
      (after, ran, seen ∙ ap (λ ms. all_elements type_size ms ++ requested) quiet)

  module _ {Q : Outcome ℤ ℤ × Machine → Type 0} where
    metadata_bind :
        (f : FieldMetadata → Proc ℤ ℤ)
        → ((after : List Event)
            → moved after ≡ moved s.calls
            → EndsIn Q (record s { calls = after }) (f (found metadata)))
        → EndsIn Q s (invoke (field_metadata_read s.handle.file_id name) >>= f)
    metadata_bind f g =
        EndsIn-passing_bind (field_metadata_read s.handle.file_id name) (found metadata) f
          (field_metadata_read-Passes s s.handle.file_id name metadata is.described) g

    matches_bind :
        (calls : List Event) (f : Unit → Proc ℤ ℤ)
        → moved calls ≡ moved s.calls
        → ((after : List Event)
            → moved after ≡ moved s.calls
            → EndsIn Q (record s { calls = after }) (f tt))
        → EndsIn Q (record s { calls = calls }) (check_field_matches (found metadata) type_id >>= f)
    matches_bind calls f quiet g =
        EndsIn-check_field_matches_bind s (found metadata) type_id is.match f
          λ after still. g after (still ∙ quiet)

  read_last :
      (calls : List Event)
      → moved calls ≡ moved s.calls
      → EndsIn
          (Carries s type_size requested)
          (record s { calls = calls })
          (read_field_data name (found metadata) strides type_id)
  read_last calls quiet = record {
    ends = Carries-later calls _ quiet (
        read_field_data-Carries (record s { calls = calls }) dset_id type_id plist_id mem file
          type_size is.grants strides metadata.layout_index is.spread is.valid is.known name
          is.opening (found metadata) refl);
  }

  -- Where the file describes the field as it is asked for, in a layout of the table, HDF5 grants
  -- what is asked for, the elements are apart in memory, and no int expression overflows, reading
  -- the field succeeds, leaves the handle as it was, and moves exactly the elements of the local
  -- part in row-major order, each between its strided offset in the buffer and its place in the
  -- layout of the file.
  pub field_read_internal-Carries :
      Carries s type_size requested
        (field_read_internal live (some name) true cstride bstride astride type_id s)
  unfolding field_read_internal
  field_read_internal-Carries = gives.ends
    where
      gives :
          EndsIn
            (Carries s type_size requested)
            s
            (field_read_internal live (some name) true cstride bstride astride type_id)
      gives =
          search
            (
              granted_steps,
              EndsIn-field_arguments_bind s name cstride bstride astride type_id is.request,
              metadata_bind,
              matches_bind,
              read_last,
            )
            depth 15

  module _ (comment : Option Text) where
    write_last :
        (calls : List Event)
        → moved calls ≡ moved s.calls
        → EndsIn
            (Carries s type_size requested)
            (record s { calls = calls })
            (write_and_close metadata.layout_index dset_id strides comment type_id)
    write_last calls quiet = record {
      ends = Carries-later calls _ quiet (
          write_and_close-Carries (record s { calls = calls }) dset_id type_id plist_id mem file
            type_size is.grants strides metadata.layout_index is.spread is.valid is.known comment);
    }

    overwrite_last :
        (calls : List Event)
        → moved calls ≡ moved s.calls
        → EndsIn
            (Carries s type_size requested)
            (record s { calls = calls })
            (overwrite_field name (found metadata) strides comment type_id)
    unfolding overwrite_field
    overwrite_last calls quiet =
        search
          (
            granted_steps,
            matches_bind,
            EndsIn-known_bind s (dopen s.handle.file_id name) dset_id is.opening.opens,
            EndsIn-external_bind,
            is.opening.opened,
            is.opening.converts,
            write_last,
          )
          depth 20

    -- Where the file describes the field as it is asked for, in a layout of the table, HDF5 grants
    -- what is asked for, the elements are apart in memory, and no int expression overflows,
    -- writing over the field succeeds, leaves the handle as it was, and moves exactly the elements
    -- of the local part in row-major order, each between its strided offset in the buffer and its
    -- place in the layout of the file.
    pub field_write_internal-Carries :
        Carries s type_size requested
          (field_write_internal live (some name) true cstride bstride astride comment type_id s)
    unfolding field_write_internal
    field_write_internal-Carries = gives.ends
      where
        gives :
            EndsIn
              (Carries s type_size requested)
              s
              (field_write_internal live (some name) true cstride bstride astride comment type_id)
        gives =
            search
              (
                granted_steps,
                EndsIn-field_arguments_bind s name cstride bstride astride type_id is.request,
                metadata_bind,
                overwrite_last,
              )
              depth 15
