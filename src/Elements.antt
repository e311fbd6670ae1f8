-- ===== src/Elements.antt =====
-- What GEN_FIELD_OP, GEN_FIELD_OPV and their like for planes and lines generate in esio/esio.c:
-- reading and writing scalars and vectors of each element type.
use esio.Prelude.{ℤ, is_zero, int_div, divides, Bool, not, Option, if◌then◌else◌}
use esio.Io.{
  Text, ElementType, HandlePointer, tclose, Proc, pure, undefined, gets, ignore, ◌>>=◌, ◌>>◌,
  invoke, when,
}
use esio.Error.{einval, fail}
use esio.Metadata.{type_arrayify}
use esio.Field.{field_write_internal, field_read_internal}
use esio.Plane.{plane_write_internal, plane_read_internal}
use esio.Line.{line_write_internal, line_read_internal}

-- Strides are in units of the scalar, and HDF5 counts vectors. The `%` of C with a zero divisor
-- is undefined.
unfoldable pub conforms : ℤ → ℤ → ℤ → Proc ℤ Unit
unfolding fail
conforms stride ncomponents array_type_id =
    if is_zero ncomponents
    then undefined
    else when (not (divides ncomponents stride)) do ignore (tclose array_type_id); fail einval

unfoldable pub element_type : ElementType → Proc ℤ ℤ
element_type type = gets (λ s. s.env.native_type type)

-- The end of each function: close the array type and hand on the result.
unfoldable pub close_type : ℤ → ℤ → Proc ℤ ℤ
close_type array_type_id retval = do ignore (tclose array_type_id); pure retval

unfoldable pub field_write :
    ElementType → HandlePointer → Option Text → Bool → ℤ → ℤ → ℤ → Option Text → Proc ℤ ℤ
unfolding element_type field_write_internal
field_write type pointer name field cstride bstride astride comment = do
  type_id ← element_type type
  invoke (field_write_internal pointer name field cstride bstride astride comment type_id)

unfoldable pub field_read : ElementType → HandlePointer → Option Text → Bool → ℤ → ℤ → ℤ → Proc ℤ ℤ
unfolding element_type field_read_internal
field_read type pointer name field cstride bstride astride = do
  type_id ← element_type type
  invoke (field_read_internal pointer name field cstride bstride astride type_id)

unfoldable pub field_writev :
    ElementType → HandlePointer → Option Text → Bool → ℤ → ℤ → ℤ → ℤ → Option Text → Proc ℤ ℤ
unfolding element_type type_arrayify conforms field_write_internal close_type
field_writev type pointer name field cstride bstride astride ncomponents comment = do
  type_id ← element_type type
  array_type_id ← invoke (type_arrayify type_id ncomponents)
  conforms cstride ncomponents array_type_id
  conforms bstride ncomponents array_type_id
  conforms astride ncomponents array_type_id
  retval ← invoke (
      field_write_internal pointer name field (int_div cstride ncomponents)
        (int_div bstride ncomponents) (int_div astride ncomponents) comment array_type_id)
  close_type array_type_id retval

unfoldable pub field_readv :
    ElementType → HandlePointer → Option Text → Bool → ℤ → ℤ → ℤ → ℤ → Proc ℤ ℤ
unfolding element_type type_arrayify conforms field_read_internal close_type
field_readv type pointer name field cstride bstride astride ncomponents = do
  type_id ← element_type type
  array_type_id ← invoke (type_arrayify type_id ncomponents)
  conforms cstride ncomponents array_type_id
  conforms bstride ncomponents array_type_id
  conforms astride ncomponents array_type_id
  retval ← invoke (
      field_read_internal pointer name field (int_div cstride ncomponents)
        (int_div bstride ncomponents) (int_div astride ncomponents) array_type_id)
  close_type array_type_id retval

unfoldable pub plane_write :
    ElementType → HandlePointer → Option Text → Bool → ℤ → ℤ → Option Text → Proc ℤ ℤ
unfolding element_type plane_write_internal
plane_write type pointer name plane bstride astride comment = do
  type_id ← element_type type
  invoke (plane_write_internal pointer name plane bstride astride comment type_id)

unfoldable pub plane_read : ElementType → HandlePointer → Option Text → Bool → ℤ → ℤ → Proc ℤ ℤ
unfolding element_type plane_read_internal
plane_read type pointer name plane bstride astride = do
  type_id ← element_type type
  invoke (plane_read_internal pointer name plane bstride astride type_id)

unfoldable pub plane_writev :
    ElementType → HandlePointer → Option Text → Bool → ℤ → ℤ → ℤ → Option Text → Proc ℤ ℤ
unfolding element_type type_arrayify conforms plane_write_internal close_type
plane_writev type pointer name plane bstride astride ncomponents comment = do
  type_id ← element_type type
  array_type_id ← invoke (type_arrayify type_id ncomponents)
  conforms bstride ncomponents array_type_id
  conforms astride ncomponents array_type_id
  retval ← invoke (
      plane_write_internal pointer name plane (int_div bstride ncomponents)
        (int_div astride ncomponents) comment array_type_id)
  close_type array_type_id retval

unfoldable pub plane_readv : ElementType → HandlePointer → Option Text → Bool → ℤ → ℤ → ℤ → Proc ℤ ℤ
unfolding element_type type_arrayify conforms plane_read_internal close_type
plane_readv type pointer name plane bstride astride ncomponents = do
  type_id ← element_type type
  array_type_id ← invoke (type_arrayify type_id ncomponents)
  conforms bstride ncomponents array_type_id
  conforms astride ncomponents array_type_id
  retval ← invoke (
      plane_read_internal pointer name plane (int_div bstride ncomponents)
        (int_div astride ncomponents) array_type_id)
  close_type array_type_id retval

unfoldable pub line_write :
    ElementType → HandlePointer → Option Text → Bool → ℤ → Option Text → Proc ℤ ℤ
unfolding element_type line_write_internal
line_write type pointer name line astride comment = do
  type_id ← element_type type
  invoke (line_write_internal pointer name line astride comment type_id)

unfoldable pub line_read : ElementType → HandlePointer → Option Text → Bool → ℤ → Proc ℤ ℤ
unfolding element_type line_read_internal
line_read type pointer name line astride = do
  type_id ← element_type type
  invoke (line_read_internal pointer name line astride type_id)

unfoldable pub line_writev :
    ElementType → HandlePointer → Option Text → Bool → ℤ → ℤ → Option Text → Proc ℤ ℤ
unfolding element_type type_arrayify conforms line_write_internal close_type
line_writev type pointer name line astride ncomponents comment = do
  type_id ← element_type type
  array_type_id ← invoke (type_arrayify type_id ncomponents)
  conforms astride ncomponents array_type_id
  retval ←
      invoke
        (line_write_internal pointer name line (int_div astride ncomponents) comment array_type_id)
  close_type array_type_id retval

unfoldable pub line_readv : ElementType → HandlePointer → Option Text → Bool → ℤ → ℤ → Proc ℤ ℤ
unfolding element_type type_arrayify conforms line_read_internal close_type
line_readv type pointer name line astride ncomponents = do
  type_id ← element_type type
  array_type_id ← invoke (type_arrayify type_id ncomponents)
  conforms astride ncomponents array_type_id
  retval ← invoke (line_read_internal pointer name line (int_div astride ncomponents) array_type_id)
  close_type array_type_id retval
