-- ===== src/Api/Kinds.antt =====
-- Two kinds of calls of the API: those that only ask or read, and those that write data.
use esio.Prelude.{Bool, true, false}
use esio.Api.{
  Operation, create, open_file, clone, flush, close_file, close_restart, get_path, get_comm_size,
  get_comm_rank, get_layout, set_layout, establish_line, establish_plane, establish_field,
  established_line, established_plane, established_field, size_field, sizev_field, write_field,
  writev_field, read_field, readv_field, size_plane, sizev_plane, write_plane, writev_plane,
  read_plane, readv_plane, size_line, sizev_line, write_line, writev_line, read_line, readv_line,
  sizev_attribute, writev_attribute, readv_attribute, write_attribute, read_attribute, set_string,
  get_string,
}

-- The calls that change nothing in the handle: queries, reads, and attributes.
unfoldable pub is_query : Operation → Bool
is_query (create p file overwrite) = false
is_query (open_file p file readwrite) = false
is_query (clone fuel p src dst overwrite) = false
is_query (flush p) = true
is_query (close_file p) = false
is_query (close_restart p template retain_count) = false
is_query (get_path p) = true
is_query (get_comm_size p wanted) = true
is_query (get_comm_rank p wanted) = true
is_query (get_layout p) = true
is_query (set_layout p index) = false
is_query (establish_line p ag as₀ al) = false
is_query (establish_plane p bg bs bl ag as₀ al) = false
is_query (establish_field p cg cs cl bg bs bl ag as₀ al) = false
is_query (established_line p g s l) = true
is_query (established_plane p bg bs bl ag as₀ al) = true
is_query (established_field p cg cs cl bg bs bl ag as₀ al) = true
is_query (size_field p name) = true
is_query (sizev_field p name) = true
is_query (write_field t p name given c b a comment) = false
is_query (writev_field t p name given c b a n comment) = false
is_query (read_field t p name given c b a) = true
is_query (readv_field t p name given c b a n) = true
is_query (size_plane p name) = true
is_query (sizev_plane p name) = true
is_query (write_plane t p name given b a comment) = false
is_query (writev_plane t p name given b a n comment) = false
is_query (read_plane t p name given b a) = true
is_query (readv_plane t p name given b a n) = true
is_query (size_line p name) = true
is_query (sizev_line p name) = true
is_query (write_line t p name given a comment) = false
is_query (writev_line t p name given a n comment) = false
is_query (read_line t p name given a) = true
is_query (readv_line t p name given a n) = true
is_query (sizev_attribute p location name) = true
is_query (writev_attribute p location name value n) = true
is_query (readv_attribute p location name given n) = true
is_query (write_attribute p location name value) = true
is_query (read_attribute p location name given) = true
is_query (set_string p location name value) = true
is_query (get_string p location name) = true

-- The calls that write lines, planes and fields.
unfoldable pub is_write : Operation → Bool
is_write (create p file overwrite) = false
is_write (open_file p file readwrite) = false
is_write (clone fuel p src dst overwrite) = false
is_write (flush p) = false
is_write (close_file p) = false
is_write (close_restart p template retain_count) = false
is_write (get_path p) = false
is_write (get_comm_size p wanted) = false
is_write (get_comm_rank p wanted) = false
is_write (get_layout p) = false
is_write (set_layout p index) = false
is_write (establish_line p ag as₀ al) = false
is_write (establish_plane p bg bs bl ag as₀ al) = false
is_write (establish_field p cg cs cl bg bs bl ag as₀ al) = false
is_write (established_line p g s l) = false
is_write (established_plane p bg bs bl ag as₀ al) = false
is_write (established_field p cg cs cl bg bs bl ag as₀ al) = false
is_write (size_field p name) = false
is_write (sizev_field p name) = false
is_write (write_field t p name given c b a comment) = true
is_write (writev_field t p name given c b a n comment) = true
is_write (read_field t p name given c b a) = false
is_write (readv_field t p name given c b a n) = false
is_write (size_plane p name) = false
is_write (sizev_plane p name) = false
is_write (write_plane t p name given b a comment) = true
is_write (writev_plane t p name given b a n comment) = true
is_write (read_plane t p name given b a) = false
is_write (readv_plane t p name given b a n) = false
is_write (size_line p name) = false
is_write (sizev_line p name) = false
is_write (write_line t p name given a comment) = true
is_write (writev_line t p name given a n comment) = true
is_write (read_line t p name given a) = false
is_write (readv_line t p name given a n) = false
is_write (sizev_attribute p location name) = false
is_write (writev_attribute p location name value n) = false
is_write (readv_attribute p location name given n) = false
is_write (write_attribute p location name value) = false
is_write (read_attribute p location name given) = false
is_write (set_string p location name value) = false
is_write (get_string p location name) = false
