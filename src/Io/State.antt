-- ===== src/Io/State.antt =====
-- The state that the C code reads and writes: the handle (`struct esio_handle_s` and the three
-- decompositions of esio/esio.c) and the static variables of esio/error.c. Everything outside the
-- repository (MPI, HDF5, the C library) is the `Env`: a reply for each call, as a function of
-- all calls before it.
use esio.Prelude.{ℕ, ℤ, List, Bool, Option}

-- The bytes of a C string before its terminating NUL.
abbrev pub Text : Type 0
Text = List ℕ

-- What is asked for by H5Pcreate.
pub data PlistClass : Type 0 where
  dataset_xfer file_access dataset_create : PlistClass

-- The C types of the elements, whose HDF5 types are H5T_NATIVE_DOUBLE, _FLOAT and _INT.
pub data ElementType : Type 0 where
  double float int : ElementType

-- H5S_SELECT_SET and H5S_SELECT_OR.
pub data SelectOp : Type 0 where
  select_set select_or : SelectOp

-- H5Dread and H5Dwrite, the two values of OPFUNC.
pub data Direction : Type 0 where
  reading writing : Direction

-- The external functions that are called, with the arguments that matter.
pub data Call : Type 0 where
  error_handler : ℤ → Call
  stream_handler stream_print mpi_abort : Call
  mpi_comm_size mpi_comm_rank mpi_info_create mpi_comm_get_name mpi_comm_dup : Call
  mpi_comm_set_name mpi_comm_free mpi_info_free : Call
  mpi_allreduce_sum : ℤ → Call
  mpi_allreduce_max mpi_bcast : List ℤ → Call
  mpi_bcast_path : Call
  mpi_error_string calloc_handle free_handle : Call
  malloc : ℤ → Call
  realloc : ℕ → Call
  vsnprintf : Text → ℕ → Call
  canonicalize_file_name strdup : Text → Call
  stat : Text → Call
  open_read : Text → Call
  open_truncate open_exclusive : Text → Call
  safe_read : ℤ → Call
  full_write : ℤ → ℤ → Call
  fsync close : ℤ → Call
  scandir : Text → Call
  rename : Text → Text → Call
  pcreate : PlistClass → Call
  pset_dxpl_mpio pset_fapl_mpio pget_mdc_config pset_mdc_config pclose : ℤ → Call
  pset_chunk : ℤ → List ℕ → Call
  fcreate fopen : Text → Bool → ℤ → Call
  fflush fflush_global fclose : ℤ → Call
  screate_simple : List ℕ → Call
  sselect_none : ℤ → Call
  sselect_hyperslab : ℤ → SelectOp → List ℕ → List ℕ → List ℕ → Call
  sget_simple_extent_dims sclose : ℤ → Call
  dcreate : ℤ → Text → ℤ → ℤ → ℤ → Call
  dopen : ℤ → Text → Call
  dget_type dget_space dclose : ℤ → Call
  transfer : Direction → ℤ → ℤ → ℤ → ℤ → ℤ → ℕ → Call
  tget_class tget_array_ndims tget_array_dims tget_size tclose : ℤ → Call
  tcopy : ℤ → Call
  tarray_create : ℤ → ℤ → Call
  tfind : ℤ → ℤ → Call
  oset_comment : ℤ → Text → Call
  set_attribute : ℤ → Text → Text → List ℤ → Call
  get_attribute : ℤ → Text → Text → Call
  set_attribute_string : ℤ → Text → Text → Text → Call
  oopen : ℤ → Text → Call
  aopen aexists : ℤ → Text → Call
  aopen_by_name aexists_by_names : ℤ → Text → Text → Call
  aget_type aget_space sget_simple_extent_ndims aclose oclose : ℤ → Call
  aread : ℤ → ℤ → Call
  ewalk : Call
  mpi_dims_create : ℕ → List ℤ → Call
  mpi_cart_create : List ℤ → Call
  mpi_cart_coords mpi_barrier mpi_init mpi_finalize free_data : Call
  open_rank_stream : Call
  aexists_by_name : ℤ → Text → Call
  set_attribute_int : ℤ → Text → List ℤ → Call
  get_attribute_int : ℤ → Text → Call

-- A call that was made and the number that it returned.
pub record Event : Type 0 where
  pub call : Call
  pub result : ℤ

-- The world outside: what a call returns, what it stores through an output pointer, and the text
-- or the file names that it hands back (`none` is a null pointer), the major and minor numbers of
-- the HDF5 error stack, and the constants of HDF5 and of the build (esio/version.h.in). `entries` are the names in a
-- directory in the order of strverscmp, and `ceil_log10 x` is `(int) ceil(log(x)/log(10))`.
pub record Env : Type 0 where
  pub status : List Event → Call → ℤ
  pub stored : List Event → Call → List ℤ
  pub text : List Event → Call → Option Text
  pub entries : List Event → Call → List Text
  pub error_stack : List Event → List (ℤ × ℤ)
  pub h5e_notfound : ℤ
  pub dirname : Text → Text
  pub basename : Text → Text
  pub ceil_log10 : ℕ → ℕ
  pub native_type : ElementType → ℤ
  pub major_version : ℤ
  pub minor_version : ℤ
  pub point_version : ℤ

-- struct line_decomp_s
pub record LineDecomp : Type 0 where
  pub aglobal : ℤ
  pub astart : ℤ
  pub alocal : ℤ
  pub achunk : ℤ

-- struct plane_decomp_s
pub record PlaneDecomp : Type 0 where
  pub bglobal : ℤ
  pub bstart : ℤ
  pub blocal : ℤ
  pub aglobal : ℤ
  pub astart : ℤ
  pub alocal : ℤ
  pub bchunk : ℤ
  pub achunk : ℤ

-- struct field_decomp_s
pub record FieldDecomp : Type 0 where
  pub cglobal : ℤ
  pub cstart : ℤ
  pub clocal : ℤ
  pub bglobal : ℤ
  pub bstart : ℤ
  pub blocal : ℤ
  pub aglobal : ℤ
  pub astart : ℤ
  pub alocal : ℤ
  pub cchunk : ℤ
  pub bchunk : ℤ
  pub achunk : ℤ

-- The pointer `file_path`: null, a string that it owns, or memory that was freed.
pub data PathPointer : Type 0 where
  unset : PathPointer
  owned : Text → PathPointer
  dangling : PathPointer

-- The bits of `flags`.
pub record Flags : Type 0 where
  pub collective_enabled : Bool
  pub chunking_enabled : Bool

-- struct esio_handle_s. `comm` and `info` are `false` for MPI_COMM_NULL and MPI_INFO_NULL.
pub record Handle : Type 0 where
  pub comm : Bool
  pub comm_rank : ℤ
  pub comm_size : ℤ
  pub info : Bool
  pub file_id : ℤ
  pub file_path : PathPointer
  pub layout_index : ℤ
  pub flags : Flags
  pub l : LineDecomp
  pub p : PlaneDecomp
  pub f : FieldDecomp

-- The variable `esio_error_handler`: NULL, `no_error_handler`, or a function of the user.
pub data ErrorHandler : Type 0 where
  default_handler no_error_handler user_handler : ErrorHandler

-- The variable `esio_stream`: NULL, stderr, or a file of the user.
pub data Stream : Type 0 where
  null_stream stderr user_stream : Stream

pub record Machine : Type 0 where
  pub env : Env
  pub calls : List Event
  pub esio_error_handler : ErrorHandler
  pub esio_stream : Stream
  pub esio_stream_handler : Bool
  pub handle : Handle

-- An `esio_handle` argument: NULL, or the handle in the state.
pub data HandlePointer : Type 0 where
  null live : HandlePointer
