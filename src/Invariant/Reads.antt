-- ===== src/Invariant/Reads.antt =====
-- Reading keeps every property of the handle.
use esio.Metadata.{Extents, FieldMetadata}
use esio.Prelude.{ℤ, ℕ, Bool, Option}
use esio.Io.{Text, Direction, Handle, HandlePointer}
use esio.Field.{
  field_close, FieldStrides, field_arguments, check_field_matches, read_field_data,
  field_read_internal,
}
use esio.Plane.{
  plane_close, PlaneStrides, plane_arguments, check_plane_matches, transfer_plane,
  plane_read_internal,
}
use esio.Line.{
  line_close, line_arguments, check_line_matches, open_existing_line, transfer_line,
  line_read_internal,
}
use esio.Io.Keeps.{Keeps}
use esio.Error.Keeps.{error_rules}
use esio.Invariant.Transfers.{
  Keeps-xfer_create, Keeps-line_transfer, Keeps-plane_transfer, Keeps-transfer_field,
}
use esio.Invariant.Queries.{query_rules}

module _ {P : Handle → Type 0} where
  pub Keeps-field_arguments :
      (p : HandlePointer) (name : Option Text) (field : Bool) (c b a type : ℤ)
      → Keeps P (field_arguments p name field c b a type)
  unfolding field_arguments
  Keeps-field_arguments p name field c b a type = search error_rules depth 40

  pub Keeps-field_close : (dset : ℤ) → Keeps P (field_close dset)
  unfolding field_close
  Keeps-field_close dset = search error_rules depth 20

  pub Keeps-check_field_matches :
      (m : FieldMetadata) (type : ℤ) → Keeps P (check_field_matches m type)
  unfolding check_field_matches
  Keeps-check_field_matches m type = search query_rules depth 30

  Keeps-read_field_data :
      (name : Text) (m : FieldMetadata) (strides : FieldStrides) (type : ℤ)
      → Keeps P (read_field_data name m strides type)
  unfolding read_field_data
  Keeps-read_field_data name m strides type =
      search (error_rules, Keeps-xfer_create, Keeps-transfer_field, Keeps-field_close) depth 60

  pub Keeps-field_read_internal :
      (p : HandlePointer) (name : Option Text) (field : Bool) (c b a type : ℤ)
      → Keeps P (field_read_internal p name field c b a type)
  unfolding field_read_internal
  Keeps-field_read_internal p name field c b a type =
      search (query_rules, Keeps-field_arguments, Keeps-check_field_matches, Keeps-read_field_data)
        depth 40

  pub Keeps-plane_arguments :
      (p : HandlePointer) (name : Option Text) (plane : Bool) (b a type : ℤ)
      → Keeps P (plane_arguments p name plane b a type)
  unfolding plane_arguments
  Keeps-plane_arguments p name plane b a type = search error_rules depth 40

  pub Keeps-plane_close : (dset : ℤ) → Keeps P (plane_close dset)
  unfolding plane_close
  Keeps-plane_close dset = search error_rules depth 20

  pub Keeps-check_plane_matches : (e : Extents) (type : ℤ) → Keeps P (check_plane_matches e type)
  unfolding check_plane_matches
  Keeps-check_plane_matches e type = search query_rules depth 30

  pub Keeps-transfer_plane :
      (dir : Direction) (plist dset : ℤ) (strides : PlaneStrides) (type : ℤ)
      → Keeps P (transfer_plane dir plist dset strides type)
  unfolding transfer_plane
  Keeps-transfer_plane dir plist dset strides type =
      search (error_rules, Keeps-plane_transfer) depth 20

  pub Keeps-plane_read_internal :
      (p : HandlePointer) (name : Option Text) (plane : Bool) (b a type : ℤ)
      → Keeps P (plane_read_internal p name plane b a type)
  unfolding plane_read_internal
  Keeps-plane_read_internal p name plane b a type =
      search
        (
          query_rules, Keeps-plane_arguments, Keeps-check_plane_matches, Keeps-xfer_create,
          Keeps-transfer_plane, Keeps-plane_close,
        )
        depth 60

  pub Keeps-line_arguments :
      (p : HandlePointer) (name : Option Text) (line : Bool) (a type : ℤ)
      → Keeps P (line_arguments p name line a type)
  unfolding line_arguments
  Keeps-line_arguments p name line a type = search error_rules depth 40

  pub Keeps-line_close : (dset : ℤ) → Keeps P (line_close dset)
  unfolding line_close
  Keeps-line_close dset = search error_rules depth 20

  pub Keeps-open_existing_line :
      (name : Text) (e : Extents) (type : ℤ) → Keeps P (open_existing_line name e type)
  unfolding open_existing_line check_line_matches
  Keeps-open_existing_line name e type = search query_rules depth 40

  pub Keeps-transfer_line :
      (dir : Direction) (plist dset : ℤ) (astride : ℕ) (type : ℤ)
      → Keeps P (transfer_line dir plist dset astride type)
  unfolding transfer_line
  Keeps-transfer_line dir plist dset astride type =
      search (error_rules, Keeps-line_transfer) depth 20

  pub Keeps-line_read_internal :
      (p : HandlePointer) (name : Option Text) (line : Bool) (a type : ℤ)
      → Keeps P (line_read_internal p name line a type)
  unfolding line_read_internal
  Keeps-line_read_internal p name line a type =
      search
        (
          query_rules, Keeps-line_arguments, Keeps-open_existing_line, Keeps-xfer_create,
          Keeps-transfer_line, Keeps-line_close,
        )
        depth 60
