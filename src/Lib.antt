-- ===== src/Lib.antt =====
-- A model of the C library of ESIO (esio/*.c), which writes lines, planes and fields of
-- distributed arrays to HDF5 files.
--
-- The program. A handle (struct esio_handle_s of esio/esio.c) holds a communicator, at most one
-- open file with its canonical path, the chosen field layout, and the decompositions of lines,
-- planes and fields. The functions of esio/esio.h take a handle, check their arguments, and call
-- HDF5 and MPI. Errors go through the macros of esio/error.h to a replaceable handler and come
-- back as a status.
--
-- The model. `Machine` (Io/State) is the handle, the static variables of esio/error.c and the list
-- of external calls so far. `Proc R A` (Io/Monad) is a C function body on it: it goes on with an
-- `A`, returns an `R` early, aborts, meets undefined behaviour, or runs out of fuel. Every function
-- that is not in the repository (HDF5, MPI, the C library, gnulib) is a `Call`, answered by the
-- parameter `Env`, an arbitrary function of all calls before. One process is modelled; what the
-- others send is a reply of `Env`. Statuses, sizes and identifiers are the
-- signed `ℤ` of Prelude/Int, and what the code casts to hsize_t is a natural number. The sums and
-- products of sizes that esio/esio.c, esio/layout.c, the transfers and apps/esio_bench.c compute in
-- type int pass `in_int`, which is undefined behaviour where they exceed INT_MAX; the theorems on
-- transfers have the bounds as hypotheses (FitsInt, RowsFitInt). Numbers in the options of
-- apps/esio_bench.c beyond an int are undefined as well. Path lengths, buffer sizes and the byte
-- counts of apps/esio_bench.c are taken to fit their C types.
--
-- Files and the code that they model:
--   Error                 esio/error.c, esio/error.h
--   Uri                   esio/uri.c
--   Plist, Communicator   the property lists and the communicator of esio/esio.c
--   FileCopy              esio/file-copy.c; its loop takes fuel, one unit for each read
--   FilePath              the pointer file_path: unset, owned or dangling
--   CanonicalPath         the agreement of the ranks in esio_file_open
--   File, Handle          esio_file_* and esio_handle_* of esio/esio.c
--   Decomposition         esio_*_establish and esio_*_established
--   Layout                esio/layout.c, esio/x-line.c, esio/x-plane.c, esio/x-layout*.c
--   Chunksize             esio/chunksize.c
--   Metadata              esio/metadata.c, and esio_H5Equery_stack of esio/h5utils.c
--   Field, Plane, Line    create, close, and the internal reads and writes of esio/esio.c
--   Elements              the typed reads and writes, GEN_*_OP and GEN_*_OPV
--   Sizes                 esio_*_size and esio_*_sizev
--   Attribute             attributes and strings, and the attribute query of esio/h5utils.c
--   Restart               esio/restart-rename.c and esio_file_close_restart
--   Api                   all of these as the operations of one program
--   Apps/Text, Apps/Argp  what the programs of apps/ use of the C library and of argp
--   Apps/MpiArgp          apps/mpi_argp.c
--   Apps/Rename           apps/esio_rename.c
--   Apps/Bench            apps/esio_bench.c: Details, Arguments and Options (parse_opt), Bytes (the
--                         units), Split (local and start), the three problems, Names, Iteration, Main
--
-- Proofs. Io/Keeps has one rule for each statement that keeps a property of the handle, Io/Runs and
-- Error/Runs run a body from a given handle on every reply, and Io/Safe is for properties that hold
-- again at the end of a call. Invariant applies them to the components, and Api to the whole.
--
-- Layout/Pencils has what HDF5 is asked to move: Positions is what HDF5 selects, Trace reads the
-- selections and the transfers off the calls, Asked runs a transfer function forwards where all is
-- granted, Exact gives the transfers, and Elements, Indices and Grid the pairs of an offset in the
-- buffer and a place in the file. Lines, Planes and Fields of Layout/Simple do the same for lines,
-- planes and layout 0, whose runs in memory are put together in Choosing and Ordered. Layout/Table
-- has the same for whichever row of the table esio_field_layout is used (Moves, Rows).
--
-- Io/Granted runs a body forwards in a world that grants what it asks for. With it, Metadata has what
-- a file that describes a field makes of the reading of its metadata (Described, Marked, Plain, Found)
-- and the attribute that is written and read back (RoundTrip). Field has the calls while a dataset
-- is open (Granted, Moves), the checks (Requested), the whole of reading and of writing over a field
-- (Whole), and of writing a new one (Created, Fresh, Caching, Creating). Contents says what a file and
-- a buffer hold after elements were moved, Apart that elements do not share a place, and Processes,
-- Shared and RoundTrip put the processes together that share a field through a file. What HDF5 and
-- MPI are asked to grant is in the records IsGranted, GrantsDataset, GrantsOpening, GrantsCreation and
-- GrantsChunks; Tests/Sharing and Tests/Writers have a world that grants it.
--
-- Restart/Rename has Rotation for the renamings of the loop, Directory for the files that they leave,
-- and Permitted and Whole for all of restart_rename where the C library grants what it asks for.
--
-- Not modelled: conversions of numbers by HDF5: in Field/Contents a value moves as it is, and
-- Field/RoundTrip asks for one type of the writer, the file and the reader; freed memory other than file_path; messages of errors and of the programs, and timers; the Fortran
-- modules; and the programs in examples and benchmarks. Floating point numbers are the parameter
-- `Doubles` of Apps/Bench/Bytes. argp is the list of the options and arguments that it hands over.
pub mod Prelude
pub mod Io
pub mod Error
pub mod Uri
pub mod Plist
pub mod Communicator
pub mod FileCopy
pub mod FilePath
pub mod CanonicalPath
pub mod File
pub mod Handle
pub mod Layout
pub mod Chunksize
pub mod Metadata
pub mod Field
pub mod Plane
pub mod Line
pub mod Elements
pub mod Sizes
pub mod Attribute
pub mod Invariant
pub mod Restart
pub mod Api
pub mod Decomposition
pub mod Apps
pub mod Tests
