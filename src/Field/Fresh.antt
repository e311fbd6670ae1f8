-- ===== src/Field/Fresh.antt =====
-- The branch of `esio_field_write_internal` of esio/esio.c for a field that is not in the file yet.
use esio.Prelude.{◌*◌, ◌≤◌, pos, ℤ, is_neg, ℕ, ◌≡◌, ap, ◌∙◌, false, Option, List, ◌++◌, pos_part}
use esio.Io.{Handle, Text, Machine, Event, Outcome, Proc, pset_chunk, ◌>>=◌, invoke, int_limit}
use esio.Io.Granted.{
  EndsIn, granted_steps, EndsIn-external_bind, EndsIn-when_either_bind, EndsIn-block_bind, called,
}
use esio.Field.{FieldStrides, field_create, create_and_write, write_and_close}
use esio.Field.Created.{GrantsCreation, field_create-Passes}
use esio.Field.Granted.{GrantsDataset, EndsIn-quiet_bind}
use esio.Field.Moves.{local_part, write_and_close-Carries, IsApart}
use esio.Layout.Table.{set_chunks}
use esio.Layout.Table.Rows.{EndsIn-set_chunks_bind}
use esio.Layout.Pencils.Trace.{moved}
use esio.Layout.Pencils.Elements.{all_elements}
use esio.Layout.Pencils.Carries.{Carries}

-- The size of a chunk of layout 2 is an int.
abbrev pub ChunksFit : Handle → Type 0
ChunksFit h = h.layout_index ≡ pos 2 → pos_part h.f.cchunk * pos_part h.f.bchunk ≤ int_limit

module _ (s : Machine) (name : Text) (type_id dset_id plist_id mem file : ℤ) (type_size : ℕ)
    (creation : GrantsCreation s.env s.handle name type_id dset_id)
    (grants : GrantsDataset s.env dset_id type_id plist_id mem file type_size)
    (strides : FieldStrides) (spread : IsApart s.handle.layout_index s.handle.f strides)
    (chunks_fit : ChunksFit s.handle) where
  abbrev part : List (ℕ × List ℕ)
  part = local_part s.handle.layout_index type_size s.handle.f strides

  abbrev Moves : Outcome ℤ ℤ × Machine → Type 0
  Moves = Carries s type_size part

  chunks_bind :
      (calls : List Event) (dcpl_id : ℤ) (c b a : ℕ) (f : ℤ → Proc ℤ ℤ)
      → (s.handle.layout_index ≡ pos 2 → c * b ≤ int_limit)
      → ((r : ℤ) (chunks : List ℕ)
          → is_neg r ≡ false
          → EndsIn Moves (called (record s { calls = calls }) (pset_chunk dcpl_id chunks) r) (f r))
      → EndsIn Moves
          (record s { calls = calls })
          (set_chunks s.handle.layout_index dcpl_id c b a >>= f)
  chunks_bind calls dcpl_id c b a f fit g =
      EndsIn-set_chunks_bind f s.handle.layout_index c b a dcpl_id fit creation.valid creation.known
        λ chunks. g _ chunks (creation.chunked calls dcpl_id chunks)

  create_bind :
      (calls : List Event) (dcpl_id : ℤ) (f : ℤ → Proc ℤ ℤ)
      → moved calls ≡ moved s.calls
      → ((after : List Event)
          → moved after ≡ moved s.calls
          → EndsIn Moves (record s { calls = after }) (f dset_id))
      → EndsIn Moves (record s { calls = calls }) (invoke (field_create name type_id dcpl_id) >>= f)
  create_bind calls dcpl_id =
      EndsIn-quiet_bind s s.calls (field_create name type_id dcpl_id) dset_id λ calls.
        field_create-Passes s name type_id dset_id creation calls mem grants.transfers.mem_positive
          grants.transfers.memspace dcpl_id

  write_last :
      (comment : Option Text) (calls : List Event)
      → moved calls ≡ moved s.calls
      → EndsIn Moves
          (record s { calls = calls })
          (write_and_close s.handle.layout_index dset_id strides comment type_id)
  write_last comment calls quiet =
      let (after, ran, seen) =
        write_and_close-Carries (record s { calls = calls }) dset_id type_id plist_id mem file
          type_size grants strides s.handle.layout_index spread creation.valid creation.known
          comment in
      record { ends = (after, ran, seen ∙ ap (λ ms. all_elements type_size ms ++ part) quiet) }

  pub create_and_write-Carries :
      (comment : Option Text) (calls : List Event)
      → moved calls ≡ moved s.calls
      → EndsIn Moves (record s { calls = calls }) (create_and_write name strides comment type_id)
  unfolding create_and_write
  create_and_write-Carries comment calls quiet =
      search
        (
          granted_steps, EndsIn-external_bind, creation.lists, EndsIn-when_either_bind,
          EndsIn-block_bind, chunks_bind, chunks_fit, create_bind, creation.created, write_last,
        )
        depth 20
