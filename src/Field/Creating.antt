-- ===== src/Field/Creating.antt =====
-- `esio_field_write_internal` of esio/esio.c for a field that is not in the file yet, from the request to
-- the elements that are moved.
use esio.Prelude.{ℤ, ℕ, ◌≡◌, true, Option, some, List}
use esio.Io.{Text, Machine, Event, Proc, invoke, live, ◌>>=◌}
use esio.Io.Granted.{EndsIn, granted_steps, EndsIn-external_bind, EndsIn-return_bind}
use esio.Error.{notfound}
use esio.Metadata.{FieldMetadata, unknown_field, field_metadata_read}
use esio.Field.{FieldStrides, write_new_field, field_write_internal}
use esio.Field.Created.{GrantsCreation}
use esio.Field.Granted.{GrantsDataset, Passes, Passes-exit, EndsIn-passing_bind}
use esio.Field.Fresh.{ChunksFit}
use esio.Field.Moves.{local_part, IsApart}
use esio.Field.Requested.{IsRequest, strides_of, EndsIn-field_arguments_bind}
use esio.Layout.Pencils.Trace.{moved}
use esio.Field.Caching.{GrantsChunks, with_chunks, Creates, new_last}

module _ (s : Machine) (name : Text) (cstride bstride astride type_id dset_id plist_id mem file : ℤ)
    (type_size : ℕ) (request : IsRequest s.handle cstride bstride astride type_id)
    (creation : GrantsCreation s.env s.handle name type_id dset_id)
    (agreed : GrantsChunks s.env s.handle)
    (grants : GrantsDataset s.env dset_id type_id plist_id mem file type_size)
    (spread : IsApart s.handle.layout_index s.handle.f
      (strides_of s.handle cstride bstride astride))
    (chunks_fit : ChunksFit (with_chunks agreed)) where
  abbrev strides : FieldStrides
  strides = strides_of s.handle cstride bstride astride

  abbrev part : List (ℕ × List ℕ)
  part = local_part s.handle.layout_index type_size s.handle.f strides

  module _ (comment : Option Text) where
    missing-Passes : Passes s (unknown_field notfound) (field_metadata_read s.handle.file_id name s)
    unfolding field_metadata_read
    missing-Passes = gives.ends
      where
        gives :
            EndsIn (Passes s (unknown_field notfound)) s (field_metadata_read s.handle.file_id name)
        gives =
            search (
              granted_steps, EndsIn-external_bind, EndsIn-return_bind, creation.missing,
              Passes-exit,
            )

    missing_bind :
        (f : FieldMetadata → Proc ℤ ℤ)
        → ((after : List Event)
            → moved after ≡ moved s.calls
            → EndsIn
                (Creates s (with_chunks agreed) type_size part)
                (record s { calls = after })
                (f (unknown_field notfound)))
        → EndsIn
            (Creates s (with_chunks agreed) type_size part)
            s
            (invoke (field_metadata_read s.handle.file_id name) >>= f)
    missing_bind f g =
        EndsIn-passing_bind (field_metadata_read s.handle.file_id name) (unknown_field notfound) f
          missing-Passes g

    written_new :
        (calls : List Event)
        → moved calls ≡ moved s.calls
        → EndsIn
            (Creates s (with_chunks agreed) type_size part)
            (record s { calls = calls })
            (write_new_field name strides comment type_id)
    written_new =
        new_last s name type_id dset_id plist_id mem file type_size creation agreed grants strides
          spread comment chunks_fit

    -- Where the file has no such field, all ranks have the same global sizes, HDF5 and MPI grant
    -- what is asked for, with the entry-wise maxima of what the ranks send, the elements are apart
    -- in memory, and no int expression overflows, writing the field succeeds, caches the maxima of
    -- the local sizes as chunk sizes where chunking is enabled and none were cached, leaves the
    -- rest of the handle as it was, and moves exactly the elements of the local part in row-major
    -- order, each between its strided offset in the buffer and its place in the layout of the
    -- handle.
    pub field_write_internal-Creates :
        Creates s
          (with_chunks agreed)
          type_size
          part
          (field_write_internal live (some name) true cstride bstride astride comment type_id s)
    unfolding field_write_internal
    field_write_internal-Creates = gives.ends
      where
        gives :
            EndsIn
              (Creates s (with_chunks agreed) type_size part)
              s
              (field_write_internal live (some name) true cstride bstride astride comment type_id)
        gives =
            search
              (
                granted_steps,
                EndsIn-field_arguments_bind s name cstride bstride astride type_id request,
                missing_bind,
                written_new,
              )
              depth 15
