-- ===== src/Tests/Sharing.antt =====
-- Processes that share a field of layout 2 with 4 * 3 * 4 elements, in a world that grants what they ask
-- for.
use esio.Prelude.{ℤ, pos, ℕ, ◌+◌, ◌≤◌, refl, List, [], ◌∷◌, arith, true, neg_ℤ}
use esio.Io.{
  dget_type, int_limit, Call, screate_simple, dget_space, tget_size, tget_class, pcreate, dopen,
  tfind, aexists_by_name, get_attribute_int, dcreate, mpi_allreduce_max,
}
use esio.Metadata.{FieldMetadata}
use esio.Metadata.Described.{of_scalar}
use esio.Metadata.Found.{by_attribute}
use esio.Layout.Table.{field_layout_count, field_layout}
use esio.Field.Requested.{strides_of}
use esio.Field.Moves.{IsApart}
use esio.Field.Processes.{Access, IsReader}
use esio.Field.Granted.{GrantsDataset}
use esio.Tests.{idle}

-- HDF5 grants everything, and says whether the field is there.
unfoldable pub shared_reply : ℤ → Call → ℤ
shared_reply there (screate_simple extents) = pos 1
shared_reply there (dget_space dset_id) = pos 2
shared_reply there (tget_size type_id) = pos 8
shared_reply there (tget_class type_id) = pos 1
shared_reply there (dget_type dset_id) = pos 3
shared_reply there (pcreate class) = pos 7
shared_reply there (dopen file_id name) = pos 5
shared_reply there (tfind from_id to_id) = pos 1
shared_reply there (aexists_by_name file_id name) = there
shared_reply there (dcreate file_id name type_id space dcpl_id) = pos 5
shared_reply there c = pos 0

unfoldable pub shared_values : Call → List ℤ
shared_values (get_attribute_int file_id name) =
    pos 0 ∷ pos 1 ∷ pos 9 ∷ pos 2 ∷ pos 4 ∷ pos 3 ∷ pos 4 ∷ pos 1 ∷ []
-- The sizes of the process that creates the field, as the only one, and their negatives.
shared_values (mpi_allreduce_max sent) =
    pos 4
    ∷ neg_ℤ (pos 4)
    ∷ pos 2
    ∷ neg_ℤ (pos 2)
    ∷ pos 3
    ∷ neg_ℤ (pos 3)
    ∷ pos 3
    ∷ neg_ℤ (pos 3)
    ∷ pos 4
    ∷ neg_ℤ (pos 4)
    ∷ pos 4
    ∷ neg_ℤ (pos 4)
    ∷ []
shared_values c = []

abbrev pub shared_field : FieldMetadata
shared_field = record {
  status = pos 0;
  layout_index = pos 2;
  cglobal = pos 4;
  bglobal = pos 3;
  aglobal = pos 4;
  ncomponents = pos 1;
}

-- A process with a part of the field, and strides that may be zero.
abbrev pub process_with : ℤ → ℕ → ℕ → ℕ → ℕ → ℕ → ℕ → ℕ → Access
process_with there cstart clocal bstart blocal cstride bstride astride = record {
  machine = record idle {
    env = record idle.env {
      status = λ calls c. shared_reply there c;
      stored = λ calls c. shared_values c;
    };
    handle = record idle.handle {
      file_id = pos 6;
      layout_index = pos 2;
      flags = record idle.handle.flags { chunking_enabled = true };
      f = record {
        cglobal = pos 4;
        cstart = pos cstart;
        clocal = pos clocal;
        bglobal = pos 3;
        bstart = pos bstart;
        blocal = pos blocal;
        aglobal = pos 4;
        astart = pos 0;
        alocal = pos 4;
        cchunk = pos 0;
        bchunk = pos 0;
        achunk = pos 0;
      };
    };
  };
  name = b'f' ∷ [];
  cstride = pos cstride;
  bstride = pos bstride;
  astride = pos astride;
  type_id = pos 3;
  metadata = shared_field;
  dset_id = pos 5;
  plist_id = pos 7;
  mem = pos 1;
  file = pos 2;
}

pub process-GrantsDataset :
    (there : ℤ)
    → GrantsDataset
        (process_with there 0 0 0 0 0 0 0).machine.env
        (pos 5)
        (pos 3)
        (pos 7)
        (pos 1)
        (pos 2)
        8
unfolding shared_reply
process-GrantsDataset there = record {
  transfers = record {
    memspace = λ calls extents. refl;
    filespace = λ calls. refl;
    sized = λ calls. refl;
    selects = λ calls space op start stride count apart. refl;
    empties = λ calls space. refl;
    transfers = λ calls direction plist_id offset. refl;
    mem_positive = refl;
    file_valid = refl;
    size_positive = refl;
    apart = refl;
  };
  lists = λ calls. refl;
  list_valid = refl;
  collective = λ calls. refl;
  comments = λ calls text. refl;
  closes = λ calls. refl;
}

abbrev pub process : ℕ → ℕ → ℕ → ℕ → ℕ → ℕ → ℕ → Access
process = process_with (pos 1)

pub process-IsReader :
    (cstart clocal bstart blocal cstride bstride astride : ℕ)
    → bstart + blocal ≤ 3
    → (let h = (process cstart clocal bstart blocal cstride bstride astride).machine.handle in
        let strides = strides_of h (pos cstride) (pos bstride) (pos astride) in
        IsApart (pos 2) h.f strides × (strides.bstride ≤ int_limit) × (strides.cstride ≤ int_limit))
    → IsReader 8 (process cstart clocal bstart blocal cstride bstride astride)
unfolding shared_reply shared_values field_layout_count field_layout
process-IsReader cstart clocal bstart blocal cstride bstride astride fits spread = record {
  granted = record {
    request = record {
      open_file = refl;
      cstride_valid = refl;
      bstride_valid = refl;
      astride_valid = refl;
      type_valid = refl;
      established = refl;
      bstride_fits = spread.1;
      cstride_fits = spread.2;
    };
    described = by_attribute (record {
      found = pos 1;
      exists = λ calls. refl;
      is_found = (refl, refl);
      status = pos 0;
      reads = λ calls. refl;
      is_read = refl;
      major = pos 0;
      minor = pos 1;
      point = pos 9;
      words = λ calls. refl;
      in_table = refl;
    });
    match = record {
      same_c = refl;
      same_b = refl;
      same_a = refl;
      components = of_scalar (record { class = pos 1; answers = λ calls. refl; scalar = refl });
    };
    valid = refl;
    known = refl;
    opening = record {
      opens = λ calls. refl;
      opened = refl;
      converts = λ calls field_type_id. refl;
    };
    grants = process-GrantsDataset (pos 1);
    spread = spread.0;
  };
  typed = λ calls. refl;
  inside = λ j l. omega (arith, l, fits);
  fresh = refl;
}
