-- ===== src/Api.antt =====
-- The API of esio/esio.h on one handle: every function that takes a handle, but for the two that
-- make and free it, and the states that a program reaches by calling them.
pub mod Kinds
pub mod Calls
pub mod WellFormed
pub mod Opened
pub mod Reachable
pub mod Started
use esio.Prelude.{ℤ, ℕ, ◌≡◌, Bool, Option, List}
use esio.Io.{
  Text, ElementType, Machine, HandlePointer, Outcome, Proc, next, exit, aborted, fault, exhausted,
}
use esio.Handle.{handle_comm_size, handle_comm_rank}
use esio.Decomposition.{
  line_establish, plane_establish, field_establish, line_established, plane_established,
  field_established,
}
use esio.Layout.Table.{field_layout_get, field_layout_set}
use esio.Elements.{
  field_write, field_read, field_writev, field_readv, plane_write, plane_read, plane_writev,
  plane_readv, line_write, line_read, line_writev, line_readv,
}
use esio.Sizes.{field_sizev, plane_sizev, line_sizev, field_size, plane_size, line_size}
use esio.Attribute.{
  attribute_sizev, attribute_writev, attribute_readv, attribute_write, attribute_read, string_set,
  string_get,
}
use esio.Restart.Close.{file_close_restart}
use esio.File.{file_create, file_open, file_clone, file_flush, file_close}
use esio.File

pub data Operation : Type 0 where
  create : (p : HandlePointer) (file : Option Text) (overwrite : Bool) → Operation
  open_file : (p : HandlePointer) (file : Option Text) (readwrite : Bool) → Operation
  clone : (fuel : ℕ) (p : HandlePointer) (src dst : Option Text) (overwrite : Bool) → Operation
  flush : (p : HandlePointer) → Operation
  close_file : (p : HandlePointer) → Operation
  close_restart : (p : HandlePointer) (template : Option Text) (retain_count : ℤ) → Operation
  get_path : (p : HandlePointer) → Operation
  get_comm_size : (p : HandlePointer) (wanted : Bool) → Operation
  get_comm_rank : (p : HandlePointer) (wanted : Bool) → Operation
  get_layout : (p : HandlePointer) → Operation
  set_layout : (p : HandlePointer) (index : ℤ) → Operation
  establish_line : (p : HandlePointer) (ag as₀ al : ℤ) → Operation
  establish_plane : (p : HandlePointer) (bg bs bl ag as₀ al : ℤ) → Operation
  establish_field : (p : HandlePointer) (cg cs cl bg bs bl ag as₀ al : ℤ) → Operation
  established_line : (p : HandlePointer) (g s l : Bool) → Operation
  established_plane : (p : HandlePointer) (bg bs bl ag as₀ al : Bool) → Operation
  established_field : (p : HandlePointer) (cg cs cl bg bs bl ag as₀ al : Bool) → Operation
  size_field : (p : HandlePointer) (name : Option Text) → Operation
  sizev_field : (p : HandlePointer) (name : Option Text) → Operation
  write_field :
      (t : ElementType) (p : HandlePointer) (name : Option Text) (given : Bool) (c b a : ℤ)
      (comment : Option Text)
      → Operation
  writev_field :
      (t : ElementType) (p : HandlePointer) (name : Option Text) (given : Bool) (c b a n : ℤ)
      (comment : Option Text)
      → Operation
  read_field :
      (t : ElementType) (p : HandlePointer) (name : Option Text) (given : Bool) (c b a : ℤ)
      → Operation
  readv_field :
      (t : ElementType) (p : HandlePointer) (name : Option Text) (given : Bool) (c b a n : ℤ)
      → Operation
  size_plane : (p : HandlePointer) (name : Option Text) → Operation
  sizev_plane : (p : HandlePointer) (name : Option Text) → Operation
  write_plane :
      (t : ElementType) (p : HandlePointer) (name : Option Text) (given : Bool) (b a : ℤ)
      (comment : Option Text)
      → Operation
  writev_plane :
      (t : ElementType) (p : HandlePointer) (name : Option Text) (given : Bool) (b a n : ℤ)
      (comment : Option Text)
      → Operation
  read_plane :
      (t : ElementType) (p : HandlePointer) (name : Option Text) (given : Bool) (b a : ℤ)
      → Operation
  readv_plane :
      (t : ElementType) (p : HandlePointer) (name : Option Text) (given : Bool) (b a n : ℤ)
      → Operation
  size_line : (p : HandlePointer) (name : Option Text) → Operation
  sizev_line : (p : HandlePointer) (name : Option Text) → Operation
  write_line :
      (t : ElementType) (p : HandlePointer) (name : Option Text) (given : Bool) (a : ℤ)
      (comment : Option Text)
      → Operation
  writev_line :
      (t : ElementType) (p : HandlePointer) (name : Option Text) (given : Bool) (a n : ℤ)
      (comment : Option Text)
      → Operation
  read_line :
      (t : ElementType) (p : HandlePointer) (name : Option Text) (given : Bool) (a : ℤ) → Operation
  readv_line :
      (t : ElementType) (p : HandlePointer) (name : Option Text) (given : Bool) (a n : ℤ)
      → Operation
  sizev_attribute : (p : HandlePointer) (location name : Option Text) → Operation
  writev_attribute :
      (p : HandlePointer) (location name : Option Text) (value : Option (List ℤ)) (n : ℤ)
      → Operation
  readv_attribute :
      (p : HandlePointer) (location name : Option Text) (given : Bool) (n : ℤ) → Operation
  write_attribute :
      (p : HandlePointer) (location name : Option Text) (value : Option (List ℤ)) → Operation
  read_attribute : (p : HandlePointer) (location name : Option Text) (given : Bool) → Operation
  set_string : (p : HandlePointer) (location name value : Option Text) → Operation
  get_string : (p : HandlePointer) (location name : Option Text) → Operation

-- A call from a C program: the result is not looked at.
abbrev pub ended : {R A : Type 0} → Outcome R A → Outcome Unit Unit
ended (next a) = next tt
ended (exit r) = next tt
ended aborted = aborted
ended fault = fault
ended exhausted = exhausted

abbrev pub call : {R A : Type 0} → Proc R A → Proc Unit Unit
call m s = let (o, s') = m s in (ended o, s')

unfoldable pub perform : Operation → Proc Unit Unit
unfolding file_create file_open file_clone file_flush file_close file_close_restart File.file_path
    handle_comm_size handle_comm_rank field_layout_get field_layout_set line_establish
    plane_establish field_establish line_established plane_established field_established field_size
    field_sizev field_write field_writev field_read field_readv plane_size plane_sizev plane_write
    plane_writev plane_read plane_readv line_size line_sizev line_write line_writev line_read
    line_readv attribute_sizev attribute_writev attribute_readv attribute_write attribute_read
    string_set string_get
perform (create p file overwrite) = call (file_create p file overwrite)
perform (open_file p file readwrite) = call (file_open p file readwrite)
perform (clone fuel p src dst overwrite) = call (file_clone fuel p src dst overwrite)
perform (flush p) = call (file_flush p)
perform (close_file p) = call (file_close p)
perform (close_restart p template retain_count) = call (file_close_restart p template retain_count)
perform (get_path p) = call (File.file_path p)
perform (get_comm_size p wanted) = call (handle_comm_size p wanted)
perform (get_comm_rank p wanted) = call (handle_comm_rank p wanted)
perform (get_layout p) = call (field_layout_get p)
perform (set_layout p index) = call (field_layout_set p index)
perform (establish_line p ag as₀ al) = call (line_establish p ag as₀ al)
perform (establish_plane p bg bs bl ag as₀ al) = call (plane_establish p bg bs bl ag as₀ al)
perform (establish_field p cg cs cl bg bs bl ag as₀ al) =
    call (field_establish p cg cs cl bg bs bl ag as₀ al)
perform (established_line p g s l) = call (line_established p g s l)
perform (established_plane p bg bs bl ag as₀ al) = call (plane_established p bg bs bl ag as₀ al)
perform (established_field p cg cs cl bg bs bl ag as₀ al) =
    call (field_established p cg cs cl bg bs bl ag as₀ al)
perform (size_field p name) = call (field_size p name)
perform (sizev_field p name) = call (field_sizev p name)
perform (write_field t p name given c b a comment) = call (field_write t p name given c b a comment)
perform (writev_field t p name given c b a n comment) =
    call (field_writev t p name given c b a n comment)
perform (read_field t p name given c b a) = call (field_read t p name given c b a)
perform (readv_field t p name given c b a n) = call (field_readv t p name given c b a n)
perform (size_plane p name) = call (plane_size p name)
perform (sizev_plane p name) = call (plane_sizev p name)
perform (write_plane t p name given b a comment) = call (plane_write t p name given b a comment)
perform (writev_plane t p name given b a n comment) =
    call (plane_writev t p name given b a n comment)
perform (read_plane t p name given b a) = call (plane_read t p name given b a)
perform (readv_plane t p name given b a n) = call (plane_readv t p name given b a n)
perform (size_line p name) = call (line_size p name)
perform (sizev_line p name) = call (line_sizev p name)
perform (write_line t p name given a comment) = call (line_write t p name given a comment)
perform (writev_line t p name given a n comment) = call (line_writev t p name given a n comment)
perform (read_line t p name given a) = call (line_read t p name given a)
perform (readv_line t p name given a n) = call (line_readv t p name given a n)
perform (sizev_attribute p location name) = call (attribute_sizev p location name)
perform (writev_attribute p location name value n) = call (attribute_writev p location name value n)
perform (readv_attribute p location name given n) = call (attribute_readv p location name given n)
perform (write_attribute p location name value) = call (attribute_write p location name value)
perform (read_attribute p location name given) = call (attribute_read p location name given)
perform (set_string p location name value) = call (string_set p location name value)
perform (get_string p location name) = call (string_get p location name)

-- The states after a sequence of calls that all returned.
pub data Reach (start : Machine) : Machine → Type 0 where
  begin : Reach start start
  after :
      (s : Machine) (op : Operation)
      → Reach start s
      → (perform op s).0 ≡ next tt
      → Reach start (perform op s).1
