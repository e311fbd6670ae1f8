-- ===== src/Apps/Bench/Details.antt =====
-- The structures of apps/esio_bench.c. A number that the options check to be no less than zero is a
-- natural number here.
use esio.Prelude.{ℕ, ℤ, Bool, false, none, Option, pos}
use esio.Io.{Text, HandlePointer, null}

-- `data` is whether the buffer is allocated.
pub record FieldDetails : Type 0 where
  pub cglobal : ℕ
  pub cstart : ℕ
  pub clocal : ℕ
  pub bglobal : ℕ
  pub bstart : ℕ
  pub blocal : ℕ
  pub aglobal : ℕ
  pub astart : ℕ
  pub alocal : ℕ
  pub ncomponents : ℕ
  pub layout : ℕ
  pub dim_c : ℕ
  pub dim_b : ℕ
  pub dim_a : ℕ
  pub coord_c : ℕ
  pub coord_b : ℕ
  pub coord_a : ℕ
  pub rank : ℤ
  pub bytes : ℕ
  pub allocated : Bool
  pub stride : ℕ

pub record PlaneDetails : Type 0 where
  pub bglobal : ℕ
  pub bstart : ℕ
  pub blocal : ℕ
  pub aglobal : ℕ
  pub astart : ℕ
  pub alocal : ℕ
  pub dim_b : ℕ
  pub dim_a : ℕ
  pub coord_b : ℕ
  pub coord_a : ℕ
  pub rank : ℤ
  pub ncomponents : ℕ
  pub bytes : ℕ
  pub allocated : Bool
  pub stride : ℕ

pub record LineDetails : Type 0 where
  pub aglobal : ℕ
  pub astart : ℕ
  pub alocal : ℕ
  pub dim_a : ℕ
  pub coord_a : ℕ
  pub rank : ℤ
  pub ncomponents : ℕ
  pub bytes : ℕ
  pub allocated : Bool
  pub stride : ℕ

pub record Details : Type 0 where
  pub world_rank : ℤ
  pub world_size : ℕ
  pub typesize : ℕ
  pub h : HandlePointer
  pub verbose : Bool
  pub repeat : ℕ
  pub nfields : ℕ
  pub nplanes : ℕ
  pub nlines : ℕ
  pub uncommitted : Option Text
  pub dst_template : Option Text
  pub retain : ℕ
  pub f : FieldDetails
  pub p : PlaneDetails
  pub l : LineDetails

-- sizeof(double) and sizeof(float), which differ.
abbrev pub sizeof_double : ℕ
sizeof_double = 8

abbrev pub sizeof_float : ℕ
sizeof_float = 4

-- The structures that `main` clears, with its default values.
abbrev pub default_field : FieldDetails
default_field = record {
  cglobal = 0;
  cstart = 0;
  clocal = 0;
  bglobal = 0;
  bstart = 0;
  blocal = 0;
  aglobal = 0;
  astart = 0;
  alocal = 0;
  ncomponents = 1;
  layout = 0;
  dim_c = 0;
  dim_b = 0;
  dim_a = 0;
  coord_c = 0;
  coord_b = 0;
  coord_a = 0;
  rank = pos 0;
  bytes = 0;
  allocated = false;
  stride = 0;
}

abbrev pub default_plane : PlaneDetails
default_plane = record {
  bglobal = 0;
  bstart = 0;
  blocal = 0;
  aglobal = 0;
  astart = 0;
  alocal = 0;
  dim_b = 0;
  dim_a = 0;
  coord_b = 0;
  coord_a = 0;
  rank = pos 0;
  ncomponents = 1;
  bytes = 0;
  allocated = false;
  stride = 0;
}

abbrev pub default_line : LineDetails
default_line = record {
  aglobal = 0;
  astart = 0;
  alocal = 0;
  dim_a = 0;
  coord_a = 0;
  rank = pos 0;
  ncomponents = 1;
  bytes = 0;
  allocated = false;
  stride = 0;
}

abbrev pub default_details : Details
default_details = record {
  world_rank = pos 0;
  world_size = 0;
  typesize = sizeof_double;
  h = null;
  verbose = false;
  repeat = 1;
  nfields = 0;
  nplanes = 0;
  nlines = 0;
  uncommitted = none;
  dst_template = none;
  retain = 1;
  f = default_field;
  p = default_plane;
  l = default_line;
}
