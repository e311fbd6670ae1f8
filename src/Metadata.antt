-- ===== src/Metadata.antt =====
-- esio/metadata.c and `esio_H5Equery_stack` of esio/h5utils.c: what a file says about the size,
-- the layout and the component count of a field, plane or line.
pub mod Described
pub mod Marked
pub mod Plain
pub mod Found
pub mod RoundTrip
use esio.Prelude.{
  ℤ, pos, negsuc, pos_part, is_neg, eq_ℤ, ltb_ℤ, ℕ, zero, suc, ◌+◌, ◌-◌, ◌%◌, ◌^◌, Bool, not, ◌&&◌,
  ◌||◌, List, [], ◌∷◌, ltb, leb, if◌then◌else◌, get_or,
}
use esio.Io.{
  int_limit, Text, sget_simple_extent_dims, sclose, dopen, dget_type, dget_space, dclose,
  tget_class, tget_array_ndims, tget_array_dims, tclose, tcopy, tarray_create, ewalk,
  aexists_by_name, set_attribute_int, get_attribute_int, Proc, pure, return, gets, external, ignore,
  external_stored, ◌>>=◌, ◌>>◌, invoke, when, assert,
}
use esio.Error.{success, einval, efailed, esanity, notfound, fail_val}
use esio.Layout.Table.{field_layout_count}

-- The values of H5T_class_t that the code names.
abbrev h5t_integer : ℤ
h5t_integer = pos 0

abbrev h5t_float : ℤ
h5t_float = pos 1

abbrev h5t_opaque : ℤ
h5t_opaque = pos 5

abbrev h5t_enum : ℤ
h5t_enum = pos 8

abbrev pub h5t_array : ℤ
h5t_array = pos 10

abbrev pub int_max : ℕ
int_max = 2147483647

abbrev pub is_scalar_class : ℤ → Bool
is_scalar_class class =
    eq_ℤ class h5t_enum || eq_ℤ class h5t_float || eq_ℤ class h5t_integer || eq_ℤ class h5t_opaque

-- Every other class is an error.
unfoldable pub type_ncomponents : ℤ → Proc ℤ ℤ
unfolding fail_val
type_ncomponents type_id = do
  class ← external (tget_class type_id)
  if is_scalar_class class then return (pos 1) else pure tt
  when (not (eq_ℤ class h5t_array)) (fail_val esanity (negsuc 0))
  ndims ← external (tget_array_ndims type_id)
  assert (eq_ℤ ndims (pos 1))
  (status, dims) ← external_stored (tget_array_dims type_id)
  let ncomponents = pos_part (get_or dims 0 (pos 0))
  assert (ltb 0 ncomponents && leb ncomponents int_max)
  pure (pos ncomponents)

unfoldable pub type_arrayify : ℤ → ℤ → Proc ℤ ℤ
unfolding fail_val
type_arrayify type_id ncomponents = do
  when (ltb_ℤ ncomponents (pos 1)) (fail_val einval (negsuc 0))
  retval ←
      external
        (if eq_ℤ ncomponents (pos 1) then tcopy type_id else tarray_create type_id ncomponents)
  when (is_neg retval) (fail_val efailed retval)
  pure retval

-- The array `metadata` of a field that is not in layout 0.
unfoldable pub field_metadata_write : ℤ → Text → ℤ → ℤ → ℤ → ℤ → ℤ → Proc ℤ ℤ
unfolding type_ncomponents
field_metadata_write loc_id name layout_index cglobal bglobal aglobal type_id = do
  when (eq_ℤ layout_index (pos 0)) (return success)
  ncomponents ← invoke (type_ncomponents type_id)
  env ← gets (λ s. s.env)
  status ← external (
      set_attribute_int loc_id name (
        env.major_version ∷ env.minor_version ∷ env.point_version ∷ layout_index ∷ cglobal ∷ bglobal
        ∷ aglobal ∷ ncomponents ∷ []))
  pure (if is_neg status then efailed else success)

-- The last positions of a number among the major and the minor numbers, found by `query_walker`
-- as it is called on each error of the stack.
record Query : Type 0 where
  maj_pos : ℤ
  min_pos : ℤ

query_walker : ℤ → ℕ → ℤ × ℤ → Query → Query
query_walker errnum n (maj_num, min_num) qw = record {
  maj_pos = if eq_ℤ maj_num errnum then pos n else qw.maj_pos;
  min_pos = if eq_ℤ min_num errnum then pos n else qw.min_pos;
}

walk_stack : ℤ → ℕ → List (ℤ × ℤ) → Query → Query
unfolding query_walker
walk_stack errnum n [] qw = qw
walk_stack errnum n (err ∷ stack) qw =
    walk_stack errnum (n + 1) stack (query_walker errnum n err qw)

unfoldable pub h5equery_stack : ℤ → Proc ℤ ℤ
unfolding walk_stack
h5equery_stack errnum = do
  stack ← gets (λ s. s.env.error_stack s.calls)
  e ← external ewalk
  when (is_neg e) (return e)
  let qw = walk_stack errnum 0 stack (record { maj_pos = negsuc 0; min_pos = negsuc 0 })
  pure (if eq_ℤ qw.maj_pos (negsuc 0) && eq_ℤ qw.min_pos (negsuc 0) then pos 0 else pos 1)

-- What a dataset itself says: a status, and the output arguments where the status is success.
pub record Extents : Type 0 where
  pub status : ℤ
  pub global : List ℤ
  pub ncomponents : ℤ

abbrev unknown_extents : ℤ → Extents
unknown_extents status = record { status = status; global = []; ncomponents = pos 0 }

-- An `hsize_t`, which has 64 bits and no sign, as an `int` of 32 bits: the low bits in two's complement.
abbrev narrow : ℤ → ℤ
narrow (pos n) =
    let low = n % 2 ^ 32 in if leb low int_limit then pos low else negsuc (2 ^ 32 - 1 - low)
narrow (negsuc n) = negsuc n

-- `for (int i = 0; i < rank; ++i) global[i] = dims[i];`
pub first_dims : ℕ → List ℤ → List ℤ
first_dims zero dims = []
first_dims (suc rank) [] = []
first_dims (suc rank) (d ∷ dims) = narrow d ∷ first_dims rank dims

unfoldable pub hdf5metadata_read : ℤ → Text → ℕ → Proc Extents Extents
unfolding fail_val type_ncomponents h5equery_stack first_dims
hdf5metadata_read loc_id name rank = do
  dset_id ← external (dopen loc_id name)
  when (is_neg dset_id) do
    env ← gets (λ s. s.env)
    found ← invoke (h5equery_stack env.h5e_notfound)
    return (unknown_extents (if ltb_ℤ (pos 0) found then notfound else einval))
  type_id ← external (dget_type dset_id)
  when (is_neg type_id) do ignore (dclose dset_id); fail_val efailed (unknown_extents efailed)
  tmp_ncomponents ← invoke (type_ncomponents type_id)
  when (ltb_ℤ tmp_ncomponents (pos 1)) do
    ignore (dclose type_id)
    ignore (dclose dset_id)
    fail_val efailed (unknown_extents efailed)
  ignore (tclose type_id)
  space_id ← external (dget_space dset_id)
  when (is_neg space_id) do ignore (dclose dset_id); fail_val esanity (unknown_extents esanity)
  (found_rank, dims) ← external_stored (sget_simple_extent_dims space_id)
  when (not (eq_ℤ (pos rank) found_rank))
      do ignore (sclose space_id); ignore (dclose dset_id); fail_val einval (unknown_extents einval)
  ignore (sclose space_id)
  ignore (dclose dset_id)
  pure (record { status = success; global = first_dims rank dims; ncomponents = tmp_ncomponents })

-- A status, and what the output arguments hold where the status is success.
pub record FieldMetadata : Type 0 where
  pub status : ℤ
  pub layout_index : ℤ
  pub cglobal : ℤ
  pub bglobal : ℤ
  pub aglobal : ℤ
  pub ncomponents : ℤ

abbrev pub unknown_field : ℤ → FieldMetadata
unknown_field status = record {
  status = status;
  layout_index = pos 0;
  cglobal = pos 0;
  bglobal = pos 0;
  aglobal = pos 0;
  ncomponents = pos 0;
}

-- INT_MIN + 999983
abbrev pub sentinel : ℤ
sentinel = negsuc 2146483664

abbrev word : List ℤ → ℕ → ℤ
word metadata i = get_or metadata i (pos 0)

unfoldable pub field_metadata_read : ℤ → Text → Proc FieldMetadata FieldMetadata
unfolding fail_val hdf5metadata_read field_layout_count
field_metadata_read loc_id name = do
  metadata_exists ← external (aexists_by_name loc_id name)
  when (is_neg metadata_exists) (return (unknown_field notfound))
  when (eq_ℤ metadata_exists (pos 0)) do
    extents ← invoke (hdf5metadata_read loc_id name 3)
    when (not (eq_ℤ extents.status success)) (fail_val efailed (unknown_field efailed))
    return (record {
      status = success;
      layout_index = pos 0;
      cglobal = word extents.global 0;
      bglobal = word extents.global 1;
      aglobal = word extents.global 2;
      ncomponents = extents.ncomponents;
    })
  (err, metadata) ← external_stored (get_attribute_int loc_id name)
  when (not (eq_ℤ (get_or metadata 8 sentinel) sentinel)) (fail_val esanity (unknown_field esanity))
  when (is_neg err) (return (unknown_field efailed))
  when (is_neg (word metadata 3) || not (ltb_ℤ (word metadata 3) field_layout_count))
      (fail_val esanity (unknown_field esanity))
  pure (record {
    status = success;
    layout_index = word metadata 3;
    cglobal = word metadata 4;
    bglobal = word metadata 5;
    aglobal = word metadata 6;
    ncomponents = word metadata 7;
  })

unfoldable pub plane_metadata_write : ℤ → Text → ℤ → ℤ → ℤ → Proc ℤ ℤ
plane_metadata_write loc_id name bglobal aglobal type_id = pure success

unfoldable pub plane_metadata_read : ℤ → Text → Proc Extents Extents
unfolding hdf5metadata_read
plane_metadata_read loc_id name = invoke (hdf5metadata_read loc_id name 2)

unfoldable pub line_metadata_write : ℤ → Text → ℤ → ℤ → Proc ℤ ℤ
line_metadata_write loc_id name aglobal type_id = pure success

unfoldable pub line_metadata_read : ℤ → Text → Proc Extents Extents
unfolding hdf5metadata_read
line_metadata_read loc_id name = invoke (hdf5metadata_read loc_id name 1)
