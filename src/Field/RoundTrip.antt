-- ===== src/Field/RoundTrip.antt =====
-- A field that processes write one after another and that processes read afterwards, esio/esio.c with the
-- layouts of esio/x-layout*.c.
use esio.Prelude.{pos_part, ℕ, ◌<◌, ◌≡◌, ◌≢◌, refl, sym, ap, ◌∙◌, Option, List, [], ◌∷◌, All}
use mathlib.Core.Path.{subst}
use esio.Io.{Text}
use esio.Metadata.{FieldMetadata}
use esio.Field.Contents.{stored, loaded}
use esio.Field.Processes.{
  Access, Local, global, offset, written, read, IsReady, IsReader, IsReader-IsReady, place_at,
}
use esio.Field.Shared.{
  part, extent, place_of, same_extent, place_of-place_at, written-part, read-part, stored-part,
  loaded-part, stored-other,
}
use esio.Layout.Table.Moves.{place_in}

module _ {V : Type 0} (type_size : ℕ) where
  -- The contents after these writes, the first one first, each with its comment and its buffer.
  abbrev pub written_by : List (Access × Option Text × (ℕ → V)) → (List ℕ → V) → List ℕ → V
  written_by [] contents = contents
  written_by ((w, comment, buffer) ∷ ws) contents =
      written_by ws (stored (written type_size w comment) buffer contents)

  -- A write of the same field that does not have this element.
  abbrev pub IsOther : FieldMetadata → ℕ × ℕ × ℕ → Access × Option Text × (ℕ → V) → Type 0
  IsOther metadata g (w, comment, buffer) =
      IsReady type_size w
      × (w.metadata ≡ metadata)
      × ((i j k : ℕ) → Local w i j k → global w i j k ≢ g)

  stored-kept :
      (metadata : FieldMetadata) (c b a : ℕ) (w : Access) (comment : Option Text) (buffer : ℕ → V)
      → b < pos_part metadata.bglobal
      → IsOther metadata (c, b, a) (w, comment, buffer)
      → (contents : List ℕ → V)
      → stored (written type_size w comment) buffer contents (place_at metadata (c, b, a))
        ≡ contents (place_at metadata (c, b, a))
  stored-kept metadata c b a w comment buffer bl (ready, same, apart) contents =
      ap (λ es. stored es buffer contents (place_at metadata (c, b, a)))
        (written-part type_size w ready comment)
      ∙ subst (λ p. stored (part type_size w ready) buffer contents p ≡ contents p)
          (ap (λ n. place_in w.metadata.layout_index n c b a) (same_extent type_size w ready)
            ∙ ap (λ m. place_at m (c, b, a)) same)
          (stored-other type_size w ready buffer contents c b a inside apart)
    where
      inside : b < extent type_size w ready
      inside = rw (same_extent type_size w ready, same) bl

  written_by-kept :
      (metadata : FieldMetadata) (c b a : ℕ) (ws : List (Access × Option Text × (ℕ → V)))
      → b < pos_part metadata.bglobal
      → All (IsOther metadata (c, b, a)) ws
      → (contents : List ℕ → V)
      → written_by ws contents (place_at metadata (c, b, a))
        ≡ contents (place_at metadata (c, b, a))
  written_by-kept metadata c b a [] bl others contents = refl
  written_by-kept metadata c b a ((w, comment, buffer) ∷ ws) bl (other, others) contents =
      written_by-kept metadata c b a ws bl others
        (stored (written type_size w comment) buffer contents)
      ∙ stored-kept metadata c b a w comment buffer bl other contents

  -- Where the file describes a field as the processes ask for it, in a layout of the table and
  -- with the type that they ask for, or does not have it yet, HDF5 and MPI grant what they ask
  -- for, no int expression overflows, and the elements of each process are apart in its buffer, a
  -- process that writes the field, creating it in the layout of its handle or writing over it,
  -- leaves it for every process that reads it afterwards with the same type, with its own part of
  -- the field and its own strides: an element that is in both parts is read as it was in the
  -- buffer of the writer, whatever the file and the buffer of the reader held before, and whatever
  -- the processes have written since that do not have this element.
  pub field_read_internal-field_write_internal :
      (w r : Access) (comment : Option Text)
      → IsReady type_size w
      → IsReader type_size r
      → r.metadata ≡ w.metadata
      → r.type_id ≡ w.type_id
      → (i j k i' j' k' : ℕ) → Local w i j k
      → Local r i' j' k'
      → global r i' j' k' ≡ global w i j k
      → (later : List (Access × Option Text × (ℕ → V)))
      → All (IsOther w.metadata (global w i j k)) later
      → (buffer before : ℕ → V) (contents : List ℕ → V)
      → loaded
          (read type_size r)
          (written_by later (stored (written type_size w comment) buffer contents))
          before
          (offset type_size r i' j' k')
        ≡ buffer (offset type_size w i j k)
  field_read_internal-field_write_internal w r comment writes reads same same_type i j k i' j' k'
        in_w in_r e later others buffer before contents =
      ap (λ es. loaded es after before (offset type_size r i' j' k'))
        (read-part type_size r (IsReader-IsReady reads) reads.granted)
      ∙ loaded-part type_size r (IsReader-IsReady reads) after before i' j' k' in_r
      ∙ ap after (
          place_of-place_at type_size r (IsReader-IsReady reads) i' j' k'
          ∙ ap (λ m. place_at m (global r i' j' k')) same
          ∙ ap (place_at w.metadata) e)
      ∙ written_by-kept w.metadata _ _ _ later
          (rw (sym (same_extent type_size w writes)) (writes.inside j in_w.1)) others first
      ∙ ap first (sym (place_of-place_at type_size w writes i j k))
      ∙ ap (λ es. stored es buffer contents (place_of type_size w writes i j k))
          (written-part type_size w writes comment)
      ∙ stored-part type_size w writes buffer contents i j k in_w
    where
      first : List ℕ → V
      first = stored (written type_size w comment) buffer contents

      after : List ℕ → V
      after = written_by later first
