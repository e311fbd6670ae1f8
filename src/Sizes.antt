-- ===== src/Sizes.antt =====
-- The size queries of esio/esio.c: esio_field_sizev, esio_plane_sizev, esio_line_sizev and their
-- forms for scalars.
pub mod Scalars
use esio.Prelude.{ℤ, pos, negsuc, eq_ℤ, not, ◌&&◌, Option, List, [], ◌∷◌}
use esio.Io.{Text, HandlePointer, Proc, pure, get_handle, ◌>>=◌, ◌>>◌, invoke, when, is_null}
use esio.Error.{success, efault, einval, notfound, fail, fail_if, require}
use esio.Metadata.{field_metadata_read, plane_metadata_read, line_metadata_read}

-- The checks with which each query begins.
abbrev name_in_file : HandlePointer → Option Text → Proc ℤ Text
name_in_file pointer name = do
  fail_if (is_null pointer) efault
  h ← get_handle
  fail_if (eq_ℤ h.file_id (negsuc 0)) einval
  require name efault efault

-- Success and absence are returned in silence: a query for existence is no error.
abbrev report_unless_notfound : ℤ → Proc ℤ Unit
report_unless_notfound status =
    when (not (eq_ℤ status success) && not (eq_ℤ status notfound)) (fail status)

-- A status, and the sizes and the component count where it is success.
pub record Size : Type 0 where
  pub status : ℤ
  pub global : List ℤ
  pub ncomponents : ℤ

unfoldable pub field_sizev : HandlePointer → Option Text → Proc ℤ Size
unfolding fail_if fail require field_metadata_read
field_sizev pointer name = do
  name ← name_in_file pointer name
  h ← get_handle
  m ← invoke (field_metadata_read h.file_id name)
  report_unless_notfound m.status
  pure (record {
    status = m.status;
    global = m.cglobal ∷ m.bglobal ∷ m.aglobal ∷ [];
    ncomponents = m.ncomponents;
  })

unfoldable pub plane_sizev : HandlePointer → Option Text → Proc ℤ Size
unfolding fail_if fail require plane_metadata_read
plane_sizev pointer name = do
  name ← name_in_file pointer name
  h ← get_handle
  m ← invoke (plane_metadata_read h.file_id name)
  report_unless_notfound m.status
  pure (record { status = m.status; global = m.global; ncomponents = m.ncomponents })

unfoldable pub line_sizev : HandlePointer → Option Text → Proc ℤ Size
unfolding fail_if fail require line_metadata_read
line_sizev pointer name = do
  name ← name_in_file pointer name
  h ← get_handle
  m ← invoke (line_metadata_read h.file_id name)
  report_unless_notfound m.status
  pure (record { status = m.status; global = m.global; ncomponents = m.ncomponents })

-- A scalar query refuses data with more components than one.
abbrev only_scalars : Proc ℤ Size → Proc ℤ Size
only_scalars query = do
  size ← query
  fail_if (eq_ℤ size.status success && not (eq_ℤ size.ncomponents (pos 1))) einval
  pure size

unfoldable pub field_size : HandlePointer → Option Text → Proc ℤ Size
unfolding field_sizev fail_if
field_size pointer name = only_scalars (field_sizev pointer name)

unfoldable pub plane_size : HandlePointer → Option Text → Proc ℤ Size
unfolding plane_sizev fail_if
plane_size pointer name = only_scalars (plane_sizev pointer name)

unfoldable pub line_size : HandlePointer → Option Text → Proc ℤ Size
unfolding line_sizev fail_if
line_size pointer name = only_scalars (line_sizev pointer name)
