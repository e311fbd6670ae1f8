-- ===== src/Apps/Bench/Iteration.antt =====
-- One restart file of apps/esio_bench.c: what the loop of `main` writes in each round. The results
-- of the calls are not looked at.
pub mod Script
use esio.Prelude.{ℤ, pos, ℕ, zero, suc, true, none, some, List, [], ◌∷◌}
use esio.Io.{Text, ElementType, Proc, pure, undefined, ◌>>◌, invoke}
use esio.Apps.Bench.Details.{Details}
use esio.Apps.Bench.Names.{lettered}
use esio.File.{file_create, file_flush, file_close}
use esio.Elements.{field_writev, plane_writev, line_writev}
use esio.Restart.Close.{file_close_restart}

-- A call whose result is not used.
unfoldable pub discard : {R A : Type 0} → Proc A A → Proc R Unit
discard m = invoke m >> pure tt

unfoldable pub write_field : ElementType → Details → Text → Proc ℤ Unit
unfolding field_writev discard
write_field type d name = discard (
    field_writev type d.h (some (lettered b'f' name)) true (pos 0) (pos 0) (pos 0)
      (pos d.f.ncomponents) none)

unfoldable pub write_plane : ElementType → Details → Text → Proc ℤ Unit
unfolding plane_writev discard
write_plane type d name = discard (
    plane_writev type d.h (some (lettered b'p' name)) true (pos 0) (pos 0) (pos d.p.ncomponents)
      none)

unfoldable pub write_line : ElementType → Details → Text → Proc ℤ Unit
unfolding line_writev discard
write_line type d name =
    discard
      (line_writev type d.h (some (lettered b'l' name)) true (pos 0) (pos d.l.ncomponents) none)

-- The loop over the first `count` names.
unfoldable pub for_names : ℕ → List Text → (Text → Proc ℤ Unit) → Proc ℤ Unit
for_names zero names body = pure tt
for_names (suc count) [] body = undefined
for_names (suc count) (name ∷ names) body = body name >> for_names count names body

-- The file is renamed when a template is given, and else only closed.
unfoldable pub close_file : Details → Proc ℤ Unit
unfolding file_close file_close_restart discard
close_file d = elim d.dst_template [
  | none ↦ discard (file_close d.h)
  | some template ↦ discard (file_close_restart d.h (some template) (pos d.retain))
]

unfoldable pub iteration : ElementType → List Text → Details → Proc ℤ Unit
unfolding file_create file_flush discard write_field write_plane write_line for_names close_file
iteration type names d = do
  discard (file_create d.h d.uncommitted true)
  for_names d.nfields names (write_field type d)
  for_names d.nplanes names (write_plane type d)
  for_names d.nlines names (write_line type d)
  discard (file_flush d.h)
  close_file d

-- `for (int i = 0; i < d.repeat; ++i)`
unfoldable pub iterations : ℕ → ElementType → List Text → Details → Proc ℤ Unit
unfolding iteration
iterations zero type names d = pure tt
iterations (suc rounds) type names d = iteration type names d >> iterations rounds type names d
