-- ===== src/Invariant/Writes.antt =====
-- Writing keeps every property of the handle that does not depend on the cached chunk sizes.
use esio.Prelude.{ℤ, Bool, Option, List}
use esio.Io.{Text, Handle, HandlePointer}
use esio.Metadata.{Extents, FieldMetadata, plane_metadata_write, line_metadata_write}
use esio.Field.{
  field_create, FieldStrides, write_and_close, store_field_chunks, cache_field_chunks,
  create_and_write, write_new_field, overwrite_field, field_write_internal,
}
use esio.Plane.{
  plane_create, store_plane_chunks, cache_plane_chunks, create_new_plane, open_existing_plane,
  plane_write_internal,
}
use esio.Line.{
  line_create, store_line_chunk, cache_line_chunk, create_new_line, line_write_internal,
}
use esio.Io.Keeps.{Keeps}
use esio.Error.Keeps.{error_rules}
use esio.Invariant.Transfers.{
  Keeps-xfer_create, Keeps-transfer_field, Keeps-row_index, Keeps-create_filespace,
  Keeps-set_chunks,
}
use esio.Invariant.Reads.{
  Keeps-field_arguments, Keeps-field_close, Keeps-check_field_matches, Keeps-plane_arguments,
  Keeps-plane_close, Keeps-check_plane_matches, Keeps-transfer_plane, Keeps-line_arguments,
  Keeps-line_close, Keeps-open_existing_line, Keeps-transfer_line,
}
use esio.Invariant.Queries.{
  query_rules, Keeps-chunksize_line, Keeps-chunksize_plane, Keeps-chunksize_field,
}

-- What is stored in the caches does not matter.
pub record IgnoresChunks (P : Handle → Type 0) : Type 0 where
  pub field : (chunks : List ℤ) (h : Handle) → P h → P (store_field_chunks chunks h)
  pub plane : (chunks : List ℤ) (h : Handle) → P h → P (store_plane_chunks chunks h)
  pub line : (chunks : List ℤ) (h : Handle) → P h → P (store_line_chunk chunks h)

module _ {P : Handle → Type 0} (ignores : IgnoresChunks P) where
  Keeps-cache_field_chunks : Keeps P cache_field_chunks
  unfolding cache_field_chunks
  Keeps-cache_field_chunks = search (error_rules, Keeps-chunksize_field, ignores.field) depth 30

  Keeps-cache_plane_chunks : Keeps P cache_plane_chunks
  unfolding cache_plane_chunks
  Keeps-cache_plane_chunks = search (error_rules, Keeps-chunksize_plane, ignores.plane) depth 30

  Keeps-cache_line_chunk : Keeps P cache_line_chunk
  unfolding cache_line_chunk
  Keeps-cache_line_chunk = search (error_rules, Keeps-chunksize_line, ignores.line) depth 30

  Keeps-field_create : (name : Text) (type dcpl : ℤ) → Keeps P (field_create name type dcpl)
  unfolding field_create
  Keeps-field_create name type dcpl =
      search (query_rules, Keeps-row_index, Keeps-create_filespace) depth 60

  Keeps-write_and_close :
      (i dset : ℤ) (strides : FieldStrides) (comment : Option Text) (type : ℤ)
      → Keeps P (write_and_close i dset strides comment type)
  unfolding write_and_close
  Keeps-write_and_close i dset strides comment type =
      search (error_rules, Keeps-xfer_create, Keeps-transfer_field, Keeps-field_close) depth 60

  Keeps-create_and_write :
      (name : Text) (strides : FieldStrides) (comment : Option Text) (type : ℤ)
      → Keeps P (create_and_write name strides comment type)
  unfolding create_and_write
  Keeps-create_and_write name strides comment type =
      search (error_rules, Keeps-set_chunks, Keeps-field_create, Keeps-write_and_close) depth 60

  Keeps-write_new_field :
      (name : Text) (strides : FieldStrides) (comment : Option Text) (type : ℤ)
      → Keeps P (write_new_field name strides comment type)
  unfolding write_new_field
  Keeps-write_new_field name strides comment type =
      search (error_rules, Keeps-cache_field_chunks, Keeps-create_and_write) depth 60

  Keeps-overwrite_field :
      (name : Text) (m : FieldMetadata) (strides : FieldStrides) (comment : Option Text) (type : ℤ)
      → Keeps P (overwrite_field name m strides comment type)
  unfolding overwrite_field
  Keeps-overwrite_field name m strides comment type =
      search (error_rules, Keeps-check_field_matches, Keeps-write_and_close) depth 60

  pub Keeps-field_write_internal :
      (p : HandlePointer) (name : Option Text) (field : Bool) (c b a : ℤ) (comment : Option Text)
      (type : ℤ)
      → Keeps P (field_write_internal p name field c b a comment type)
  unfolding field_write_internal
  Keeps-field_write_internal p name field c b a comment type =
      search (query_rules, Keeps-field_arguments, Keeps-write_new_field, Keeps-overwrite_field)
        depth 40

  Keeps-plane_create : (name : Text) (type dcpl : ℤ) → Keeps P (plane_create name type dcpl)
  unfolding plane_create plane_metadata_write
  Keeps-plane_create name type dcpl = search query_rules depth 60

  Keeps-create_new_plane : (name : Text) (type : ℤ) → Keeps P (create_new_plane name type)
  unfolding create_new_plane
  Keeps-create_new_plane name type =
      search (error_rules, Keeps-cache_plane_chunks, Keeps-plane_create) depth 60

  Keeps-open_existing_plane :
      (name : Text) (e : Extents) (type : ℤ) → Keeps P (open_existing_plane name e type)
  unfolding open_existing_plane
  Keeps-open_existing_plane name e type = search (error_rules, Keeps-check_plane_matches) depth 60

  pub Keeps-plane_write_internal :
      (p : HandlePointer) (name : Option Text) (plane : Bool) (b a : ℤ) (comment : Option Text)
      (type : ℤ)
      → Keeps P (plane_write_internal p name plane b a comment type)
  unfolding plane_write_internal
  Keeps-plane_write_internal p name plane b a comment type =
      search
        (
          query_rules, Keeps-plane_arguments, Keeps-create_new_plane, Keeps-open_existing_plane,
          Keeps-xfer_create, Keeps-transfer_plane, Keeps-plane_close,
        )
        depth 60

  Keeps-line_create : (name : Text) (type dcpl : ℤ) → Keeps P (line_create name type dcpl)
  unfolding line_create line_metadata_write
  Keeps-line_create name type dcpl = search query_rules depth 60

  Keeps-create_new_line : (name : Text) (type : ℤ) → Keeps P (create_new_line name type)
  unfolding create_new_line
  Keeps-create_new_line name type =
      search (error_rules, Keeps-cache_line_chunk, Keeps-line_create) depth 60

  pub Keeps-line_write_internal :
      (p : HandlePointer) (name : Option Text) (line : Bool) (a : ℤ) (comment : Option Text)
      (type : ℤ)
      → Keeps P (line_write_internal p name line a comment type)
  unfolding line_write_internal
  Keeps-line_write_internal p name line a comment type =
      search
        (
          query_rules, Keeps-line_arguments, Keeps-create_new_line, Keeps-open_existing_line,
          Keeps-xfer_create, Keeps-transfer_line, Keeps-line_close,
        )
        depth 60
