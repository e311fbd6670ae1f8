-- ===== src/Api/Reachable.antt =====
-- Every state that a program reaches by calls of the API has a well-formed handle.
use esio.Invariant.Writes.{IgnoresChunks}
use esio.Field.{store_field_chunks}
use esio.Plane.{store_plane_chunks}
use esio.Line.{store_line_chunk}
use esio.Prelude.{◌≡◌, refl, inl, inr, true, false, arith, Bool-cases, pos}
use esio.Io.{Handle, Machine, Outcome, Proc, next, exit, aborted, fault, exhausted}
use esio.Api.{
  Operation, call, ended, perform, Reach, begin, after, create, open_file, clone, flush, close_file,
  close_restart, get_path, get_comm_size, get_comm_rank, get_layout, set_layout, establish_line,
  establish_plane, establish_field, established_line, established_plane, established_field,
  size_field, sizev_field, write_field, writev_field, read_field, readv_field, size_plane,
  sizev_plane, write_plane, writev_plane, read_plane, readv_plane, size_line, sizev_line,
  write_line, writev_line, read_line, readv_line, sizev_attribute, writev_attribute,
  readv_attribute, write_attribute, read_attribute, set_string, get_string,
}
use esio.Api.Calls.{Keeps-query, Keeps-write}
use esio.Api.Kinds.{is_query, is_write}
use esio.Api.WellFormed.{
  IsWellFormed, IsWellFormed-IgnoresChunks, line_establish-Runs, plane_establish-Runs,
  field_establish-Runs, field_layout_set-Runs,
}
use esio.Api.Opened.{
  Safe-file_create, Safe-file_open, Safe-file_close, Safe-file_clone, Safe-close_restart,
}
use esio.Io.Runs.{Ends}
use esio.Io.Safe.{Safe, Safe-runs_each, Safe-Keeps}

called :
    {R A : Type 0} (o : Outcome R A) (h : Handle)
    → Ends (λ _. IsWellFormed) (λ _. IsWellFormed) o h
    → Ends {R = Unit} {A = Unit} (λ _. IsWellFormed) (λ _. IsWellFormed) (ended o) h
called (next a) h e = e
called (exit r) h e = e
called aborted h e = tt
called fault h e = tt
called exhausted h e = tt

Safe-call : {R A : Type 0} (m : Proc R A) → Safe IsWellFormed m → Safe IsWellFormed (call m)
Safe-call m km = record { at = λ s w. called (m s).0 (m s).1.handle (km.at s w) }

changes :
    (op : Operation) → is_query op ≡ false → is_write op ≡ false → Safe IsWellFormed (perform op)
unfolding is_query is_write perform
changes (create p file overwrite) q w = Safe-call _ (Safe-file_create p file overwrite)
changes (open_file p file readwrite) q w = Safe-call _ (Safe-file_open p file readwrite)
changes (clone fuel p src dst overwrite) q w =
    Safe-call _ (Safe-file_clone fuel p src dst overwrite)
changes (flush p) q w = absurd (ground arith)
changes (close_file p) q w = Safe-call _ (Safe-file_close p)
changes (close_restart p template retain_count) q w =
    Safe-call _ (Safe-close_restart p template retain_count)
changes (get_path p) q w = absurd (ground arith)
changes (get_comm_size p wanted) q w = absurd (ground arith)
changes (get_comm_rank p wanted) q w = absurd (ground arith)
changes (get_layout p) q w = absurd (ground arith)
changes (set_layout p index) q w =
    Safe-call _ (Safe-runs_each _ (λ h ok. field_layout_set-Runs h ok p index))
changes (establish_line p ag as₀ al) q w =
    Safe-call _ (Safe-runs_each _ (λ h ok. line_establish-Runs h ok p ag as₀ al))
changes (establish_plane p bg bs bl ag as₀ al) q w =
    Safe-call _ (Safe-runs_each _ (λ h ok. plane_establish-Runs h ok p bg bs bl ag as₀ al))
changes (establish_field p cg cs cl bg bs bl ag as₀ al) q w =
    Safe-call _ (Safe-runs_each _ (λ h ok. field_establish-Runs h ok p cg cs cl bg bs bl ag as₀ al))
changes (established_line p g s l) q w = absurd (ground arith)
changes (established_plane p bg bs bl ag as₀ al) q w = absurd (ground arith)
changes (established_field p cg cs cl bg bs bl ag as₀ al) q w = absurd (ground arith)
changes (size_field p name) q w = absurd (ground arith)
changes (sizev_field p name) q w = absurd (ground arith)
changes (write_field t p name given c b a comment) q w = absurd (ground arith)
changes (writev_field t p name given c b a n comment) q w = absurd (ground arith)
changes (read_field t p name given c b a) q w = absurd (ground arith)
changes (readv_field t p name given c b a n) q w = absurd (ground arith)
changes (size_plane p name) q w = absurd (ground arith)
changes (sizev_plane p name) q w = absurd (ground arith)
changes (write_plane t p name given b a comment) q w = absurd (ground arith)
changes (writev_plane t p name given b a n comment) q w = absurd (ground arith)
changes (read_plane t p name given b a) q w = absurd (ground arith)
changes (readv_plane t p name given b a n) q w = absurd (ground arith)
changes (size_line p name) q w = absurd (ground arith)
changes (sizev_line p name) q w = absurd (ground arith)
changes (write_line t p name given a comment) q w = absurd (ground arith)
changes (writev_line t p name given a n comment) q w = absurd (ground arith)
changes (read_line t p name given a) q w = absurd (ground arith)
changes (readv_line t p name given a n) q w = absurd (ground arith)
changes (sizev_attribute p location name) q w = absurd (ground arith)
changes (writev_attribute p location name value n) q w = absurd (ground arith)
changes (readv_attribute p location name given n) q w = absurd (ground arith)
changes (write_attribute p location name value) q w = absurd (ground arith)
changes (read_attribute p location name given) q w = absurd (ground arith)
changes (set_string p location name value) q w = absurd (ground arith)
changes (get_string p location name) q w = absurd (ground arith)

perform-Safe : (op : Operation) → Safe IsWellFormed (perform op)
perform-Safe op = elim (Bool-cases (is_query op)) [
  | inl q ↦ Safe-Keeps (perform op) (Keeps-query op q)
  | inr q ↦ elim (Bool-cases (is_write op)) [
    | inl w ↦ Safe-Keeps (perform op) (Keeps-write IsWellFormed-IgnoresChunks op w)
    | inr w ↦ changes op q w
  ]
]

returned-WellFormed :
    (o : Outcome Unit Unit) (h : Handle)
    → Ends (λ _. IsWellFormed) (λ _. IsWellFormed) o h
    → o ≡ next tt
    → IsWellFormed h
returned-WellFormed (next a) h e q = e
returned-WellFormed (exit r) h e q = absurd (ground arith)
returned-WellFormed aborted h e q = absurd (ground arith)
returned-WellFormed fault h e q = absurd (ground arith)
returned-WellFormed exhausted h e q = absurd (ground arith)

-- From a well-formed handle, every sequence of API calls that all return leads to a well-formed
-- handle: the rank is one of the communicator, the layout is in the table, the sizes are natural
-- numbers, and an open file has its path.
pub Reach-IsWellFormed :
    (start s : Machine) → IsWellFormed start.handle → Reach start s → IsWellFormed s.handle
Reach-IsWellFormed start s w begin = w
Reach-IsWellFormed start s w (after s' op r e) =
    returned-WellFormed (perform op s').0 (perform op s').1.handle
      ((perform-Safe op).at s' (Reach-IsWellFormed start s' w r)) e

-- A query, a read, or an operation on attributes and strings leaves the handle as it was, whatever
-- the world outside replies and however the call ends.
pub perform-query :
    (op : Operation) (s : Machine) → is_query op ≡ true → (perform op s).1.handle ≡ s.handle
perform-query op s e = (Keeps-query {P = λ h. h ≡ s.handle} op e).at s refl

-- The handle with its cached chunk sizes left out of account.
abbrev pub without_chunks : Handle → Handle
without_chunks h = record h {
  f = record h.f { cchunk = pos 0; bchunk = pos 0; achunk = pos 0 };
  p = record h.p { bchunk = pos 0; achunk = pos 0 };
  l = record h.l { achunk = pos 0 };
}

same_but_chunks : (before : Handle) → IgnoresChunks (λ h. without_chunks h ≡ without_chunks before)
unfolding store_field_chunks store_plane_chunks store_line_chunk
same_but_chunks before = record {
  field = λ chunks h e. e;
  plane = λ chunks h e. e;
  line = λ chunks h e. e;
}

-- Writing a line, a plane or a field changes at most the cached chunk sizes of the handle,
-- whatever the world outside replies and however the call ends.
pub perform-write :
    (op : Operation) (s : Machine)
    → is_write op ≡ true
    → without_chunks (perform op s).1.handle ≡ without_chunks s.handle
perform-write op s e = (Keeps-write (same_but_chunks s.handle) op e).at s refl
