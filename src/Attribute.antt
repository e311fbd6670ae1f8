-- ===== src/Attribute.antt =====
-- The attributes and strings of esio/esio.c, and `esio_H5LTget_attribute_ndims_info` of
-- esio/h5utils.c.
use esio.Prelude.{
  ℤ, pos, negsuc, is_neg, eq_ℤ, ltb_ℤ, is_zero, Bool, not, Option, none, some, List, [],
  if◌then◌else◌, get_or,
}
use esio.Io.{
  Text, HandlePointer, malloc, sget_simple_extent_dims, sclose, tget_class, tget_size, tclose,
  set_attribute, get_attribute, set_attribute_string, oopen, aopen, aexists, aopen_by_name,
  aexists_by_names, aget_type, aget_space, sget_simple_extent_ndims, aclose, oclose, aread, Proc,
  pure, return, gets, get_handle, external, ignore, external_stored, external_received, ◌>>=◌, ◌>>◌,
  invoke, when, is_null, text_or_empty,
}
use esio.Error.{
  success, efault, einval, efailed, esanity, enomem, notfound, fail_val, fail, fail_if, fail_val_if,
  require,
}
use esio.Metadata.{int_max}

-- The status of the query, and what its output arguments hold where the status is not negative.
pub record AttributeInfo : Type 0 where
  pub status : ℤ
  pub rank : ℤ
  pub dims : List ℤ

abbrev unknown_info : ℤ → AttributeInfo
unknown_info status = record { status = status; rank = pos 0; dims = [] }

-- The label `bail`.
abbrev bail : ℤ → ℤ → ℤ → ℤ → Proc AttributeInfo Unit
bail tid attr_id obj_id e = do
  ignore (tclose tid)
  ignore (aclose attr_id)
  ignore (oclose obj_id)
  return (unknown_info (if is_zero e then negsuc 0 else e))

unfoldable pub get_attribute_ndims_info : ℤ → Text → Text → Proc AttributeInfo AttributeInfo
get_attribute_ndims_info loc_id obj_name attr_name = do
  obj_id ← external (oopen loc_id obj_name)
  when (is_neg obj_id) (return (unknown_info obj_id))
  attr_id ← external (aopen obj_id attr_name)
  when (is_neg attr_id) do
    exists ← external (aexists obj_id attr_name)
    env ← gets (λ s. s.env)
    ignore (oclose obj_id)
    return (unknown_info (if is_zero exists then env.h5e_notfound else attr_id))
  tid ← external (aget_type attr_id)
  ignore (tget_class tid)
  ignore (tget_size tid)
  sid ← external (aget_space attr_id)
  when (is_neg sid) (bail tid attr_id obj_id sid)
  rank ← external (sget_simple_extent_ndims sid)
  when (is_neg rank) (bail tid attr_id obj_id rank)
  (got_dims, dims) ← external_stored (sget_simple_extent_dims sid)
  when (is_neg got_dims) (bail tid attr_id obj_id got_dims)
  closed_space ← external (sclose sid)
  when (is_neg closed_space) (bail tid attr_id obj_id closed_space)
  closed_type ← external (tclose tid)
  when (not (is_zero closed_type)) (bail tid attr_id obj_id closed_type)
  closed_attribute ← external (aclose attr_id)
  when (is_neg closed_attribute) (bail tid attr_id obj_id closed_attribute)
  closed_object ← external (oclose obj_id)
  when (is_neg closed_object) (return (unknown_info closed_object))
  pure (record { status = pos 0; rank = rank; dims = dims })

-- The checks with which each function begins: the open file, the location and the name.
abbrev located : HandlePointer → Option Text → Option Text → Proc ℤ (ℤ × Text × Text)
located pointer location name = do
  fail_if (is_null pointer) efault
  h ← get_handle
  fail_if (eq_ℤ h.file_id (negsuc 0)) einval
  location ← require location efault efault
  name ← require name efault efault
  pure (h.file_id, location, name)

-- A status, and the component count where it is success.
abbrev pub Count : Type 0
Count = ℤ × ℤ

unfoldable pub attribute_sizev : HandlePointer → Option Text → Option Text → Proc ℤ Count
unfolding get_attribute_ndims_info fail_if fail require
attribute_sizev pointer location name = do
  (file_id, location, name) ← located pointer location name
  info ← invoke (get_attribute_ndims_info file_id location name)
  env ← gets (λ s. s.env)
  when (eq_ℤ info.status env.h5e_notfound) (return notfound)
  fail_if (is_neg info.status) efailed
  fail_if (not (eq_ℤ info.rank (pos 1))) efailed
  let size = get_or info.dims 0 (pos 0)
  fail_if (ltb_ℤ (pos int_max) size) esanity
  pure (success, size)

-- GEN_ATTRIBUTE_WRITEV for each element type: `value` is `none` for a null pointer.
unfoldable pub attribute_writev :
    HandlePointer → Option Text → Option Text → Option (List ℤ) → ℤ → Proc ℤ ℤ
unfolding fail_if require
attribute_writev pointer location name value ncomponents = do
  (file_id, location, name) ← located pointer location name
  value ← require value efault efault
  fail_if (ltb_ℤ ncomponents (pos 1)) einval
  err ← external (set_attribute file_id location name value)
  fail_if (is_neg err) efailed
  pure success

-- GEN_ATTRIBUTE_READV for each element type. The result is the status and the values that were
-- read; `value` is `false` for a null pointer.
unfoldable pub attribute_readv :
    HandlePointer → Option Text → Option Text → Bool → ℤ → Proc ℤ (ℤ × List ℤ)
unfolding get_attribute_ndims_info fail_if require
attribute_readv pointer location name value ncomponents = do
  (file_id, location, name) ← located pointer location name
  fail_if (not value) efault
  fail_if (ltb_ℤ ncomponents (pos 1)) einval
  info ← invoke (get_attribute_ndims_info file_id location name)
  env ← gets (λ s. s.env)
  fail_if (eq_ℤ info.status env.h5e_notfound) einval
  fail_if (is_neg info.status) einval
  fail_if (not (eq_ℤ ncomponents (get_or info.dims 0 (pos 0)))) einval
  (err, values) ← external_stored (get_attribute file_id location name)
  fail_if (is_neg err) efailed
  pure (success, values)

unfoldable pub attribute_write :
    HandlePointer → Option Text → Option Text → Option (List ℤ) → Proc ℤ ℤ
unfolding attribute_writev
attribute_write pointer location name value =
    invoke (attribute_writev pointer location name value (pos 1))

unfoldable pub attribute_read :
    HandlePointer → Option Text → Option Text → Bool → Proc ℤ (ℤ × List ℤ)
unfolding attribute_readv
attribute_read pointer location name value = attribute_readv pointer location name value (pos 1)

unfoldable pub string_set : HandlePointer → Option Text → Option Text → Option Text → Proc ℤ ℤ
unfolding fail_if require
string_set pointer location name value = do
  (file_id, location, name) ← located pointer location name
  value ← require value efault efault
  err ← external (set_attribute_string file_id location name value)
  fail_if (is_neg err) efailed
  pure success

-- H5T_STRING
abbrev h5t_string : ℤ
h5t_string = pos 3

-- The last part of esio_string_get: the attribute is a string.
abbrev read_string : ℤ → ℤ → Proc (Option Text) (Option Text)
read_string aid tid = do
  size ← external (tget_size tid)
  when (is_zero size) do ignore (tclose tid); ignore (aclose aid); fail_val einval none
  memory ← external (malloc size)
  when (is_zero memory) do ignore (tclose tid); ignore (aclose aid); fail_val enomem none
  (err, value) ← external_received (aread aid tid)
  when (is_neg err) do ignore (tclose tid); ignore (aclose aid); fail_val efailed none
  ignore (tclose tid)
  ignore (aclose aid)
  pure (some (text_or_empty value))

unfoldable pub string_get :
    HandlePointer → Option Text → Option Text → Proc (Option Text) (Option Text)
unfolding fail_val_if fail_val require
string_get pointer location name = do
  fail_val_if (is_null pointer) efault none
  h ← get_handle
  fail_val_if (eq_ℤ h.file_id (negsuc 0)) einval none
  location ← require location efault none
  name ← require name efault none
  aid ← external (aopen_by_name h.file_id location name)
  when (is_neg aid) do
    exists ← external (aexists_by_names h.file_id location name)
    when (is_zero exists) (return none)
    fail_val einval none
  tid ← external (aget_type aid)
  when (is_neg tid) do ignore (aclose aid); fail_val einval none
  class ← external (tget_class tid)
  when (not (eq_ℤ class h5t_string))
      do ignore (tclose tid); ignore (aclose aid); fail_val einval none
  read_string aid tid
