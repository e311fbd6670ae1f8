-- ===== src/Metadata/Found.antt =====
-- `esio_field_metadata_read` of esio/metadata.c where the file describes the field.
use esio.Prelude.{ℤ, sym}
use mathlib.Core.Path.{subst}
use esio.Io.{Text, Env, Machine}
use esio.Error.{success}
use esio.Metadata.{FieldMetadata, field_metadata_read}
use esio.Field.Granted.{Passes}
use esio.Metadata.Marked.{HasAttribute, found-Passes}
use esio.Metadata.Plain.{HasExtents, layout0-Passes}

-- The file describes the field in one of the two ways.
pub data Described (env : Env) (file_id : ℤ) (name : Text) (metadata : FieldMetadata) : Type 0 where
  by_attribute : HasAttribute env file_id name metadata → Described env file_id name metadata
  by_extents : HasExtents env file_id name metadata → Described env file_id name metadata

pub field_metadata_read-Passes :
    (s : Machine) (file_id : ℤ) (name : Text) (metadata : FieldMetadata)
    → Described s.env file_id name metadata
    → Passes s (record metadata { status = success }) (field_metadata_read file_id name s)
field_metadata_read-Passes s file_id name metadata (by_attribute has) =
    found-Passes s file_id name metadata has
field_metadata_read-Passes s file_id name metadata (by_extents has) =
    subst
      (λ i.
        Passes s (record metadata { status = success; layout_index = i })
          (field_metadata_read file_id name s))
      (sym has.is_layout0) (layout0-Passes s file_id name metadata has)
