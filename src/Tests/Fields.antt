-- ===== src/Tests/Fields.antt =====
-- The field that processes share, as it is created, written over and read.
use esio.Prelude.{pos, ℕ, ◌+◌, ◌≡◌, refl, none, [], ◌∷◌, arith, ap, some, true}
use esio.Io.{live, next}
use esio.Metadata.{type_ncomponents, field_metadata_write, field_metadata_read}
use esio.Metadata.Described.{of_scalar}
use esio.Layout.Table.{field_layout_count, field_layout}
use esio.Field.{field_write_internal, field_read_internal, field_strides}
use esio.Field.Requested.{strides_of}
use esio.Field.Processes.{IsReader-IsReady, read, written, offset}
use esio.Field.Caching.{Creates}
use esio.Field.Creating.{field_write_internal-Creates}
use esio.Field.Contents.{stored, loaded}
use esio.Field.RoundTrip.{written_by, field_read_internal-field_write_internal}
use esio.Error.{success}
use esio.Field.Moves.{local_part}
use esio.Field.Granted.{Passes}
use esio.Metadata.RoundTrip.{field_metadata_read-field_metadata_write}
use esio.Field.Whole.{field_read_internal-Carries, field_write_internal-Carries}
use esio.Layout.Pencils.Carries.{Carries}
use esio.Tests.Sharing.{shared_reply, shared_values, shared_field, process-IsReader}
use esio.Tests.Writers.{
  writer, next_writer, other_writer, reader, contiguous, gaps, new_request, writer-IsReady,
}

-- The element (2, 1, 2) of the field.
field_read_internal-field_write_internal_example :
    (loaded
      (read 8 reader)
      (written_by 8
        ((other_writer, none, (λ o. 0)) ∷ [])
        (stored (written 8 writer none) (λ o. o + 1) (λ p. 9)))
      (λ o. 7)
      (offset 8 reader 2 0 2))
    ≡ offset 8 writer 1 1 2 + 1
unfolding field_strides
field_read_internal-field_write_internal_example =
    field_read_internal-field_write_internal 8 writer reader none writer-IsReady
      (process-IsReader 0 4 1 1 20 10 2 (omega arith) (gaps, omega arith, omega arith)) refl refl 1
      1 2 2 0 2 (omega arith, omega arith, omega arith) (omega arith, omega arith, omega arith) refl
      ((other_writer, none, (λ o. 0)) ∷ [])
      (
        (
          IsReader-IsReady (
              process-IsReader 3 1 0 3 0 0 0 (omega arith)
                (contiguous 3 1 (omega arith), omega arith, omega arith)),
          refl,
          (λ i j k in_v e. omega (arith, ap (λ (g : ℕ × ℕ × ℕ). g.0) e)),
        ),
        tt,
      )
      (λ o. o + 1) (λ o. 7) (λ p. 9)

field_read_internal-Carries_example :
    Carries reader.machine 8
      (local_part
        (pos 2)
        8
        reader.machine.handle.f
        (strides_of reader.machine.handle (pos 20) (pos 10) (pos 2)))
      (field_read_internal live
        (some (b'f' ∷ []))
        true
        (pos 20)
        (pos 10)
        (pos 2)
        (pos 3)
        reader.machine)
unfolding field_strides
field_read_internal-Carries_example =
    field_read_internal-Carries reader.machine (b'f' ∷ []) (pos 20) (pos 10) (pos 2) (pos 3)
      shared_field (pos 5) (pos 7) (pos 1) (pos 2) 8
      (process-IsReader 0 4 1 1 20 10 2 (omega arith) (gaps, omega arith, omega arith)).granted

field_write_internal-Carries_example :
    Carries next_writer.machine 8
      (local_part
        (pos 2)
        8
        next_writer.machine.handle.f
        (strides_of next_writer.machine.handle (pos 0) (pos 0) (pos 0)))
      (field_write_internal live
        (some (b'f' ∷ []))
        true
        (pos 0)
        (pos 0)
        (pos 0)
        (some (b'c' ∷ []))
        (pos 3)
        next_writer.machine)
unfolding field_strides
field_write_internal-Carries_example =
    field_write_internal-Carries next_writer.machine (b'f' ∷ []) (pos 0) (pos 0) (pos 0) (pos 3)
      shared_field (pos 5) (pos 7) (pos 1) (pos 2) 8
      (process-IsReader 1 2 0 3 0 0 0 (omega arith)
        (contiguous 1 2 (omega arith), omega arith, omega arith)).granted
      (some (b'c' ∷ []))

field_write_internal-Creates_example :
    Creates writer.machine
      (record writer.machine.handle {
        f = record writer.machine.handle.f { cchunk = pos 2; bchunk = pos 3; achunk = pos 4 };
      })
      8
      (local_part
        (pos 2)
        8
        writer.machine.handle.f
        (strides_of writer.machine.handle (pos 0) (pos 0) (pos 0)))
      (field_write_internal live
        (some (b'f' ∷ []))
        true
        (pos 0)
        (pos 0)
        (pos 0)
        (some (b'c' ∷ []))
        (pos 3)
        writer.machine)
unfolding new_request
field_write_internal-Creates_example =
    field_write_internal-Creates writer.machine (b'f' ∷ []) (pos 0) (pos 0) (pos 0) (pos 3) (pos 5)
      (pos 7) (pos 1) (pos 2) 8 new_request.request new_request.creation new_request.agreed
      new_request.grants new_request.spread new_request.chunks_fit (some (b'c' ∷ []))

field_metadata_read-field_metadata_write_example :
    ((field_metadata_write
        (pos 6)
        (b'f' ∷ [])
        (pos 2)
        (pos 4)
        (pos 3)
        (pos 4)
        (pos 3)
        writer.machine).0
      ≡ next success)
    × Passes reader.machine shared_field (field_metadata_read (pos 6) (b'f' ∷ []) reader.machine)
unfolding field_metadata_write shared_reply shared_values field_layout_count field_layout
    type_ncomponents
field_metadata_read-field_metadata_write_example =
    field_metadata_read-field_metadata_write writer.machine (pos 6) (b'f' ∷ []) (pos 2) (pos 4)
      (pos 3) (pos 4) (pos 3) (pos 1) refl
      (of_scalar (record { class = pos 1; answers = λ calls. refl; scalar = refl }))
      (λ calls values. refl) refl reader.machine
      (record {
        found = pos 1;
        exists = λ calls. refl;
        is_found = (refl, refl);
        status = pos 0;
        reads = λ calls. refl;
        is_read = refl;
        words = λ calls. refl;
      })
