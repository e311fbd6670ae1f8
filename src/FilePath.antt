-- ===== src/FilePath.antt =====
-- The pointer `file_path` of a handle in esio/esio.c, and the paths that it may own.
use esio.Prelude.{ℤ, Bool, true, false, Option, none, some, drop}
use esio.Io.{
  Text, PathPointer, strdup, unset, owned, dangling, Proc, pure, undefined, modify_handle,
  get_handle, external_text, ◌>>=◌, ◌>>◌,
}
use esio.Error.{esanity, enomem, fail_val, fail}
use esio.Uri.{scheme_prefix_len}

unfoldable pub set_file_path : PathPointer → Proc ℤ Unit
set_file_path path = modify_handle (λ h. record h { file_path = path })

-- `free(h->file_path)`: freeing twice is undefined.
unfoldable pub free_pointer : PathPointer → Proc ℤ Unit
unfolding set_file_path
free_pointer unset = pure tt
free_pointer (owned path) = set_file_path dangling
free_pointer dangling = undefined

unfoldable pub free_file_path : Proc ℤ Unit
unfolding free_pointer
free_file_path = do h ← get_handle; free_pointer h.file_path

unfoldable pub is_set : PathPointer → Bool
is_set unset = false
is_set (owned path) = true
is_set dangling = true

-- `file + scheme_prefix_len(file)`
unfoldable pub without_scheme : Text → Text
without_scheme file = drop (scheme_prefix_len (some file)) file

-- `strdup(h->file_path)`, after the test for a null pointer.
unfoldable pub duplicate : PathPointer → Proc (Option Text) (Option Text)
duplicate unset = fail_val esanity none
duplicate (owned path) = external_text (strdup path)
duplicate dangling = undefined

-- `h->file_path = path`, and the error if there is none.
unfoldable pub keep_path : Option Text → Proc ℤ Unit
unfolding set_file_path
keep_path none = do set_file_path unset; fail enomem
keep_path (some path) = set_file_path (owned path)
