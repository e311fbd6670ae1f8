-- ===== src/Field/Processes.antt =====
-- The processes that share a field through a file, esio/esio.c with the layouts of esio/x-layout*.c: each
-- has its own part of the field, and its own strides in memory.
use esio.Prelude.{ℤ, pos_part, ℕ, ◌+◌, ◌*◌, ◌<◌, ◌≡◌, true, Option, some, List, [], eq_ℤ}
use esio.Io.{Text, Machine, FieldDecomp, live, Event, dget_type}
use esio.Metadata.{FieldMetadata}
use esio.Field.{FieldStrides, field_write_internal, field_read_internal}
use esio.Field.Requested.{strides_of, IsRequest}
use esio.Field.Whole.{IsGranted}
use esio.Layout.Table.Moves.{place_in}
use esio.Layout.Pencils.Trace.{moved}
use esio.Layout.Pencils.Elements.{all_elements}
use esio.Field.Granted.{GrantsDataset}
use esio.Field.Created.{GrantsCreation}
use esio.Field.Fresh.{ChunksFit}
use esio.Field.Moves.{IsApart}
use esio.Field.Caching.{with_chunks, GrantsChunks}

-- A process and its request: the name of the field, the strides of the buffer and the type of its
-- elements. The file says `metadata` of the field, and HDF5 answers with the other identifiers.
pub record Access : Type 0 where
  pub machine : Machine
  pub name : Text
  pub cstride : ℤ
  pub bstride : ℤ
  pub astride : ℤ
  pub type_id : ℤ
  pub metadata : FieldMetadata
  pub dset_id : ℤ
  pub plist_id : ℤ
  pub mem : ℤ
  pub file : ℤ

abbrev pub decomposition : Access → FieldDecomp
decomposition a = a.machine.handle.f

abbrev pub strides : Access → FieldStrides
strides a = strides_of a.machine.handle a.cstride a.bstride a.astride

-- The indices are those of an element of the local part.
abbrev pub Local : Access → ℕ → ℕ → ℕ → Type 0
Local a i j k =
    (i < pos_part (decomposition a).clocal)
    × (j < pos_part (decomposition a).blocal)
    × (k < pos_part (decomposition a).alocal)

-- The indices of this element in the field.
abbrev pub global : Access → ℕ → ℕ → ℕ → ℕ × ℕ × ℕ
global a i j k = (
  i + pos_part (decomposition a).cstart,
  j + pos_part (decomposition a).bstart,
  k + pos_part (decomposition a).astart,
)

-- Its offset in the buffer.
abbrev pub offset : ℕ → Access → ℕ → ℕ → ℕ → ℕ
offset type_size a i j k =
    type_size * (i * (strides a).cstride + j * (strides a).bstride + k * (strides a).astride)

-- The elements that are moved as the field is written, and as it is read.
abbrev pub written : ℕ → Access → Option Text → List (ℕ × List ℕ)
written type_size a comment = all_elements type_size (
    moved
      (field_write_internal live (some a.name) true a.cstride a.bstride a.astride comment a.type_id
        a.machine).1.calls)

abbrev pub read : ℕ → Access → List (ℕ × List ℕ)
read type_size a = all_elements type_size (
    moved
      (field_read_internal live (some a.name) true a.cstride a.bstride a.astride a.type_id
        a.machine).1.calls)

-- A request to write a field that is not in the file, in the layout of the handle, which `metadata` says
-- as well.
pub record IsNew (type_size : ℕ) (a : Access) : Type 0 where
  pub request : IsRequest a.machine.handle a.cstride a.bstride a.astride a.type_id
  pub creation : GrantsCreation a.machine.env a.machine.handle a.name a.type_id a.dset_id
  pub agreed : GrantsChunks a.machine.env a.machine.handle
  pub grants : GrantsDataset a.machine.env a.dset_id a.type_id a.plist_id a.mem a.file type_size
  pub spread : IsApart a.machine.handle.layout_index (decomposition a) (strides a)
  pub chunks_fit : ChunksFit (with_chunks agreed)
  pub same_layout : a.metadata.layout_index ≡ a.machine.handle.layout_index
  pub same_b : eq_ℤ (decomposition a).bglobal a.metadata.bglobal ≡ true

-- The dataset has the type of the request, so that HDF5 converts nothing.
abbrev pub KeepsType : Access → Type 0
KeepsType a = (calls : List Event) → a.machine.env.status calls (dget_type a.dset_id) ≡ a.type_id

-- The field is in the file, or it is to be created, with the type of the request.
pub data Grant (type_size : ℕ) (a : Access) : Type 0 where
  existing :
      IsGranted a.machine a.name a.cstride a.bstride a.astride a.type_id a.metadata a.dset_id
        a.plist_id a.mem a.file type_size
      → KeepsType a
      → Grant type_size a
  absent : IsNew type_size a → Grant type_size a

-- The request is granted, the local part lies in the field, and nothing has been moved before.
pub record IsReady (type_size : ℕ) (a : Access) : Type 0 where
  pub grant : Grant type_size a
  pub inside :
      (j : ℕ)
      → j < pos_part (decomposition a).blocal
      → j + pos_part (decomposition a).bstart < pos_part (decomposition a).bglobal
  pub fresh : moved a.machine.calls ≡ []

-- The same of a process that reads the field, which has to be in the file.
pub record IsReader (type_size : ℕ) (a : Access) : Type 0 where
  pub granted :
      IsGranted a.machine a.name a.cstride a.bstride a.astride a.type_id a.metadata a.dset_id
        a.plist_id a.mem a.file type_size
  pub typed : KeepsType a
  pub inside :
      (j : ℕ)
      → j < pos_part (decomposition a).blocal
      → j + pos_part (decomposition a).bstart < pos_part (decomposition a).bglobal
  pub fresh : moved a.machine.calls ≡ []

pub IsReader-IsReady : {type_size : ℕ} {a : Access} → IsReader type_size a → IsReady type_size a
IsReader-IsReady reader = record {
  grant = existing reader.granted reader.typed;
  inside = reader.inside;
  fresh = reader.fresh;
}

-- The place in the file of an element of the field.
abbrev pub place_at : FieldMetadata → ℕ × ℕ × ℕ → List ℕ
place_at metadata g = place_in metadata.layout_index (pos_part metadata.bglobal) g.0 g.1 g.2
