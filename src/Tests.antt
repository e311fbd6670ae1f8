-- ===== src/Tests.antt =====
-- A small world to run the model on: one process, files that open, and reads that end.
pub mod Handles
pub mod Names
pub mod Sizes
pub mod Bench
pub mod Layouts
pub mod Renaming
pub mod Sharing
pub mod Writers
pub mod Fields
use esio.Io.{calloc_handle, mpi_comm_size}
use esio.Prelude.{List, []}
use esio.Prelude.{ℤ, pos, true, false, some, ◌∷◌}
use esio.Io.{Call, Env, Machine, pcreate, fcreate, fopen, no_error_handler, null_stream}
use esio.Handle.{fresh_handle}

-- Files and property lists open, and all else succeeds with zero.
reply : Call → ℤ
reply (pcreate class) = pos 7
reply (fcreate file overwrite fapl) = pos 5
reply (fopen file readwrite fapl) = pos 5
reply calloc_handle = pos 9
reply c = pos 0

-- One process, with rank zero.
stored_reply : Call → List ℤ
stored_reply mpi_comm_size = pos 1 ∷ []
stored_reply c = []

abbrev world : Env
world = record {
  status = λ calls c. reply c;
  stored = λ calls c. stored_reply c;
  text = λ calls c. some (b'/' ∷ b'f' ∷ []);
  entries = λ calls c. [];
  error_stack = λ calls. [];
  h5e_notfound = pos 0;
  dirname = λ t. t;
  basename = λ t. t;
  ceil_log10 = λ n. n;
  native_type = λ t. pos 1;
  major_version = pos 0;
  minor_version = pos 1;
  point_version = pos 9;
}

abbrev idle : Machine
idle = record {
  env = world;
  calls = [];
  esio_error_handler = no_error_handler;
  esio_stream = null_stream;
  esio_stream_handler = false;
  handle = fresh_handle true (pos 0) (pos 1);
}
