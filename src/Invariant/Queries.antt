-- ===== src/Invariant/Queries.antt =====
-- Metadata, chunk sizes, size queries, attributes and strings keep every property of the handle.
use esio.Prelude.{ℤ, ℕ, Bool, Option, List}
use esio.Io.{Text, Handle, HandlePointer}
use esio.Metadata.{
  type_ncomponents, type_arrayify, field_metadata_write, h5equery_stack, hdf5metadata_read,
  field_metadata_read, plane_metadata_read, line_metadata_read,
}
use esio.Chunksize.{chunksize_line, chunksize_plane, chunksize_field}
use esio.Sizes.{field_sizev, plane_sizev, line_sizev, field_size, plane_size, line_size}
use esio.Attribute.{
  get_attribute_ndims_info, attribute_sizev, attribute_writev, attribute_readv, string_set,
  string_get,
}
use esio.Io.Keeps.{Keeps}
use esio.Error.Keeps.{error_rules}

module _ {P : Handle → Type 0} where
  pub Keeps-type_ncomponents : (type_id : ℤ) → Keeps P (type_ncomponents type_id)
  unfolding type_ncomponents
  Keeps-type_ncomponents type_id = search error_rules depth 30

  pub Keeps-type_arrayify : (type_id n : ℤ) → Keeps P (type_arrayify type_id n)
  unfolding type_arrayify
  Keeps-type_arrayify type_id n = search error_rules depth 30

  pub Keeps-field_metadata_write :
      (loc : ℤ) (name : Text) (layout c b a type : ℤ)
      → Keeps P (field_metadata_write loc name layout c b a type)
  unfolding field_metadata_write
  Keeps-field_metadata_write loc name layout c b a type =
      search (error_rules, Keeps-type_ncomponents) depth 30

  Keeps-h5equery_stack : (errnum : ℤ) → Keeps P (h5equery_stack errnum)
  unfolding h5equery_stack
  Keeps-h5equery_stack errnum = search error_rules depth 30

  Keeps-hdf5metadata_read :
      (loc : ℤ) (name : Text) (rank : ℕ) → Keeps P (hdf5metadata_read loc name rank)
  unfolding hdf5metadata_read
  Keeps-hdf5metadata_read loc name rank =
      search (error_rules, Keeps-type_ncomponents, Keeps-h5equery_stack) depth 60

  pub Keeps-field_metadata_read : (loc : ℤ) (name : Text) → Keeps P (field_metadata_read loc name)
  unfolding field_metadata_read
  Keeps-field_metadata_read loc name = search (error_rules, Keeps-hdf5metadata_read) depth 60

  pub Keeps-plane_metadata_read : (loc : ℤ) (name : Text) → Keeps P (plane_metadata_read loc name)
  unfolding plane_metadata_read
  Keeps-plane_metadata_read loc name = search (error_rules, Keeps-hdf5metadata_read) depth 30

  pub Keeps-line_metadata_read : (loc : ℤ) (name : Text) → Keeps P (line_metadata_read loc name)
  unfolding line_metadata_read
  Keeps-line_metadata_read loc name = search (error_rules, Keeps-hdf5metadata_read) depth 30

pub ruleset query_rules = (
  error_rules, Keeps-type_ncomponents, Keeps-type_arrayify, Keeps-field_metadata_write,
  Keeps-field_metadata_read, Keeps-plane_metadata_read, Keeps-line_metadata_read,
)

module _ {P : Handle → Type 0} where
  pub Keeps-chunksize_line : (g s l : ℤ) → Keeps P (chunksize_line g s l)
  unfolding chunksize_line
  Keeps-chunksize_line g s l = search error_rules depth 30

  pub Keeps-chunksize_plane :
      (bg bs bl ag as' al : ℤ) → Keeps P (chunksize_plane bg bs bl ag as' al)
  unfolding chunksize_plane
  Keeps-chunksize_plane bg bs bl ag as' al = search error_rules depth 30

  pub Keeps-chunksize_field :
      (cg cs cl bg bs bl ag as' al : ℤ) → Keeps P (chunksize_field cg cs cl bg bs bl ag as' al)
  unfolding chunksize_field
  Keeps-chunksize_field cg cs cl bg bs bl ag as' al = search error_rules depth 30

  pub Keeps-field_size : (p : HandlePointer) (name : Option Text) → Keeps P (field_size p name)
  unfolding field_size field_sizev
  Keeps-field_size p name = search query_rules depth 40

  pub Keeps-plane_size : (p : HandlePointer) (name : Option Text) → Keeps P (plane_size p name)
  unfolding plane_size plane_sizev
  Keeps-plane_size p name = search query_rules depth 40

  pub Keeps-line_size : (p : HandlePointer) (name : Option Text) → Keeps P (line_size p name)
  unfolding line_size line_sizev
  Keeps-line_size p name = search query_rules depth 40

  Keeps-ndims_info : (loc : ℤ) (obj attr : Text) → Keeps P (get_attribute_ndims_info loc obj attr)
  unfolding get_attribute_ndims_info
  Keeps-ndims_info loc obj attr = search error_rules depth 90

  pub Keeps-attribute_sizev :
      (p : HandlePointer) (loc name : Option Text) → Keeps P (attribute_sizev p loc name)
  unfolding attribute_sizev
  Keeps-attribute_sizev p loc name = search (error_rules, Keeps-ndims_info) depth 60

  pub Keeps-attribute_writev :
      (p : HandlePointer) (loc name : Option Text) (value : Option (List ℤ)) (n : ℤ)
      → Keeps P (attribute_writev p loc name value n)
  unfolding attribute_writev
  Keeps-attribute_writev p loc name value n = search error_rules depth 60

  pub Keeps-attribute_readv :
      (p : HandlePointer) (loc name : Option Text) (value : Bool) (n : ℤ)
      → Keeps P (attribute_readv p loc name value n)
  unfolding attribute_readv
  Keeps-attribute_readv p loc name value n = search (error_rules, Keeps-ndims_info) depth 60

  pub Keeps-string_set :
      (p : HandlePointer) (loc name value : Option Text) → Keeps P (string_set p loc name value)
  unfolding string_set
  Keeps-string_set p loc name value = search error_rules depth 60

  pub Keeps-string_get :
      (p : HandlePointer) (loc name : Option Text) → Keeps P (string_get p loc name)
  unfolding string_get
  Keeps-string_get p loc name = search error_rules depth 60
