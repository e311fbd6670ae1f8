-- ===== src/Api/Calls.antt =====
-- What the calls of the API that ask for something, or read and write data, do to the handle.
use esio.Api.Kinds.{is_query, is_write}
use esio.Prelude.{◌≡◌, true, arith}
use esio.Io.{Handle, Proc}
use esio.Api.{
  Operation, call, perform, create, open_file, clone, flush, close_file, close_restart, get_path,
  get_comm_size, get_comm_rank, get_layout, set_layout, establish_line, establish_plane,
  establish_field, established_line, established_plane, established_field, size_field, sizev_field,
  write_field, writev_field, read_field, readv_field, size_plane, sizev_plane, write_plane,
  writev_plane, read_plane, readv_plane, size_line, sizev_line, write_line, writev_line, read_line,
  readv_line, sizev_attribute, writev_attribute, readv_attribute, write_attribute, read_attribute,
  set_string, get_string,
}
use esio.Invariant.Files.{
  Keeps-file_path, Keeps-file_flush, Keeps-comm_size, Keeps-comm_rank, Keeps-layout_get,
  Keeps-line_established, Keeps-plane_established, Keeps-field_established,
}
use esio.Invariant.Queries.{
  Keeps-field_size, Keeps-plane_size, Keeps-line_size, Keeps-attribute_sizev,
  Keeps-attribute_writev, Keeps-attribute_readv, Keeps-string_set, Keeps-string_get,
}
use esio.Invariant.Writes.{IgnoresChunks}
use esio.Invariant.Typed.{
  Keeps-field_read, Keeps-field_readv, Keeps-field_sizev, Keeps-plane_read, Keeps-plane_readv,
  Keeps-plane_sizev, Keeps-line_read, Keeps-line_readv, Keeps-line_sizev, Keeps-attribute_read,
  Keeps-attribute_write, Keeps-field_write, Keeps-field_writev, Keeps-plane_write,
  Keeps-plane_writev, Keeps-line_write, Keeps-line_writev,
}
use esio.Io.Keeps.{Keeps}

module _ {R A : Type 0} {P : Handle → Type 0} where
  pub Keeps-call : (m : Proc R A) → Keeps P m → Keeps P (call m)
  Keeps-call m km = record { at = λ s h. km.at s h }

module _ {P : Handle → Type 0} where
  pub Keeps-query : (op : Operation) → is_query op ≡ true → Keeps P (perform op)
  unfolding is_query perform
  Keeps-query (create p file overwrite) e = absurd (ground arith)
  Keeps-query (open_file p file readwrite) e = absurd (ground arith)
  Keeps-query (clone fuel p src dst overwrite) e = absurd (ground arith)
  Keeps-query (flush p) e = Keeps-call _ (Keeps-file_flush p)
  Keeps-query (close_file p) e = absurd (ground arith)
  Keeps-query (close_restart p template retain_count) e = absurd (ground arith)
  Keeps-query (get_path p) e = Keeps-call _ (Keeps-file_path p)
  Keeps-query (get_comm_size p wanted) e = Keeps-call _ (Keeps-comm_size p wanted)
  Keeps-query (get_comm_rank p wanted) e = Keeps-call _ (Keeps-comm_rank p wanted)
  Keeps-query (get_layout p) e = Keeps-call _ (Keeps-layout_get p)
  Keeps-query (set_layout p index) e = absurd (ground arith)
  Keeps-query (establish_line p ag as₀ al) e = absurd (ground arith)
  Keeps-query (establish_plane p bg bs bl ag as₀ al) e = absurd (ground arith)
  Keeps-query (establish_field p cg cs cl bg bs bl ag as₀ al) e = absurd (ground arith)
  Keeps-query (established_line p g s l) e = Keeps-call _ (Keeps-line_established p g s l)
  Keeps-query (established_plane p bg bs bl ag as₀ al) e =
      Keeps-call _ (Keeps-plane_established p bg bs bl ag as₀ al)
  Keeps-query (established_field p cg cs cl bg bs bl ag as₀ al) e =
      Keeps-call _ (Keeps-field_established p cg cs cl bg bs bl ag as₀ al)
  Keeps-query (size_field p name) e = Keeps-call _ (Keeps-field_size p name)
  Keeps-query (sizev_field p name) e = Keeps-call _ (Keeps-field_sizev p name)
  Keeps-query (write_field t p name given c b a comment) e = absurd (ground arith)
  Keeps-query (writev_field t p name given c b a n comment) e = absurd (ground arith)
  Keeps-query (read_field t p name given c b a) e =
      Keeps-call _ (Keeps-field_read t p name given c b a)
  Keeps-query (readv_field t p name given c b a n) e =
      Keeps-call _ (Keeps-field_readv t p name given c b a n)
  Keeps-query (size_plane p name) e = Keeps-call _ (Keeps-plane_size p name)
  Keeps-query (sizev_plane p name) e = Keeps-call _ (Keeps-plane_sizev p name)
  Keeps-query (write_plane t p name given b a comment) e = absurd (ground arith)
  Keeps-query (writev_plane t p name given b a n comment) e = absurd (ground arith)
  Keeps-query (read_plane t p name given b a) e = Keeps-call _ (Keeps-plane_read t p name given b a)
  Keeps-query (readv_plane t p name given b a n) e =
      Keeps-call _ (Keeps-plane_readv t p name given b a n)
  Keeps-query (size_line p name) e = Keeps-call _ (Keeps-line_size p name)
  Keeps-query (sizev_line p name) e = Keeps-call _ (Keeps-line_sizev p name)
  Keeps-query (write_line t p name given a comment) e = absurd (ground arith)
  Keeps-query (writev_line t p name given a n comment) e = absurd (ground arith)
  Keeps-query (read_line t p name given a) e = Keeps-call _ (Keeps-line_read t p name given a)
  Keeps-query (readv_line t p name given a n) e = Keeps-call _ (Keeps-line_readv t p name given a n)
  Keeps-query (sizev_attribute p location name) e =
      Keeps-call _ (Keeps-attribute_sizev p location name)
  Keeps-query (writev_attribute p location name value n) e =
      Keeps-call _ (Keeps-attribute_writev p location name value n)
  Keeps-query (readv_attribute p location name given n) e =
      Keeps-call _ (Keeps-attribute_readv p location name given n)
  Keeps-query (write_attribute p location name value) e =
      Keeps-call _ (Keeps-attribute_write p location name value)
  Keeps-query (read_attribute p location name given) e =
      Keeps-call _ (Keeps-attribute_read p location name given)
  Keeps-query (set_string p location name value) e =
      Keeps-call _ (Keeps-string_set p location name value)
  Keeps-query (get_string p location name) e = Keeps-call _ (Keeps-string_get p location name)

  pub Keeps-write : IgnoresChunks P → (op : Operation) → is_write op ≡ true → Keeps P (perform op)
  unfolding is_write perform
  Keeps-write ignores (create p file overwrite) e = absurd (ground arith)
  Keeps-write ignores (open_file p file readwrite) e = absurd (ground arith)
  Keeps-write ignores (clone fuel p src dst overwrite) e = absurd (ground arith)
  Keeps-write ignores (flush p) e = absurd (ground arith)
  Keeps-write ignores (close_file p) e = absurd (ground arith)
  Keeps-write ignores (close_restart p template retain_count) e = absurd (ground arith)
  Keeps-write ignores (get_path p) e = absurd (ground arith)
  Keeps-write ignores (get_comm_size p wanted) e = absurd (ground arith)
  Keeps-write ignores (get_comm_rank p wanted) e = absurd (ground arith)
  Keeps-write ignores (get_layout p) e = absurd (ground arith)
  Keeps-write ignores (set_layout p index) e = absurd (ground arith)
  Keeps-write ignores (establish_line p ag as₀ al) e = absurd (ground arith)
  Keeps-write ignores (establish_plane p bg bs bl ag as₀ al) e = absurd (ground arith)
  Keeps-write ignores (establish_field p cg cs cl bg bs bl ag as₀ al) e = absurd (ground arith)
  Keeps-write ignores (established_line p g s l) e = absurd (ground arith)
  Keeps-write ignores (established_plane p bg bs bl ag as₀ al) e = absurd (ground arith)
  Keeps-write ignores (established_field p cg cs cl bg bs bl ag as₀ al) e = absurd (ground arith)
  Keeps-write ignores (size_field p name) e = absurd (ground arith)
  Keeps-write ignores (sizev_field p name) e = absurd (ground arith)
  Keeps-write ignores (write_field t p name given c b a comment) e =
      Keeps-call _ (Keeps-field_write ignores t p name given c b a comment)
  Keeps-write ignores (writev_field t p name given c b a n comment) e =
      Keeps-call _ (Keeps-field_writev ignores t p name given c b a n comment)
  Keeps-write ignores (read_field t p name given c b a) e = absurd (ground arith)
  Keeps-write ignores (readv_field t p name given c b a n) e = absurd (ground arith)
  Keeps-write ignores (size_plane p name) e = absurd (ground arith)
  Keeps-write ignores (sizev_plane p name) e = absurd (ground arith)
  Keeps-write ignores (write_plane t p name given b a comment) e =
      Keeps-call _ (Keeps-plane_write ignores t p name given b a comment)
  Keeps-write ignores (writev_plane t p name given b a n comment) e =
      Keeps-call _ (Keeps-plane_writev ignores t p name given b a n comment)
  Keeps-write ignores (read_plane t p name given b a) e = absurd (ground arith)
  Keeps-write ignores (readv_plane t p name given b a n) e = absurd (ground arith)
  Keeps-write ignores (size_line p name) e = absurd (ground arith)
  Keeps-write ignores (sizev_line p name) e = absurd (ground arith)
  Keeps-write ignores (write_line t p name given a comment) e =
      Keeps-call _ (Keeps-line_write ignores t p name given a comment)
  Keeps-write ignores (writev_line t p name given a n comment) e =
      Keeps-call _ (Keeps-line_writev ignores t p name given a n comment)
  Keeps-write ignores (read_line t p name given a) e = absurd (ground arith)
  Keeps-write ignores (readv_line t p name given a n) e = absurd (ground arith)
  Keeps-write ignores (sizev_attribute p location name) e = absurd (ground arith)
  Keeps-write ignores (writev_attribute p location name value n) e = absurd (ground arith)
  Keeps-write ignores (readv_attribute p location name given n) e = absurd (ground arith)
  Keeps-write ignores (write_attribute p location name value) e = absurd (ground arith)
  Keeps-write ignores (read_attribute p location name given) e = absurd (ground arith)
  Keeps-write ignores (set_string p location name value) e = absurd (ground arith)
  Keeps-write ignores (get_string p location name) e = absurd (ground arith)
