-- ===== src/Tests/Writers.antt =====
-- Processes that write the shared field, and one that reads it.
use esio.Prelude.{◌+◌, ◌≤◌, pos, ℕ, refl, [], arith, negsuc}
use esio.Metadata.Described.{of_scalar}
use esio.Layout.Table.{field_layout_count, field_layout}
use esio.Field.{field_strides}
use esio.Field.Requested.{strides_of}
use esio.Field.Moves.{IsApart}
use esio.Field.Processes.{Access, IsReady, IsNew, absent}
use esio.Tests.Sharing.{shared_reply, shared_values, process_with, process, process-GrantsDataset}

-- The writer creates the field and has two planes in contiguous memory, the next writer has the same
-- planes, the other writer the last plane, and the reader a
-- row of each plane in every other element of its buffer.
abbrev pub writer : Access
writer = process_with (negsuc 0) 1 2 0 3 0 0 0

abbrev pub next_writer : Access
next_writer = process 1 2 0 3 0 0 0

abbrev pub other_writer : Access
other_writer = process 3 1 0 3 0 0 0

abbrev pub reader : Access
reader = process 0 4 1 1 20 10 2

pub contiguous :
    (cstart clocal : ℕ)
    → cstart + clocal ≤ 4
    → (let h = (process cstart clocal 0 3 0 0 0).machine.handle in
        IsApart (pos 2) h.f (strides_of h (pos 0) (pos 0) (pos 0)))
unfolding field_strides
contiguous cstart clocal inside = (
  record {
    rising = omega arith;
    rows_apart = λ k l. omega (arith, l);
    planes_apart = λ j k jl kl. omega (arith, jl, kl);
  },
  record {
    rising = omega arith;
    columns = omega (arith, inside);
    elements = omega (arith, inside);
    extent = omega (arith, inside);
    plane = omega arith;
    pencil = omega arith;
    first_index = λ i l. omega (arith, l, inside);
    second_index = λ j l. omega (arith, l);
    offsets = λ i j l m. omega (arith, l, m, inside);
  },
  λ is_layout2. (omega arith, λ i j l m. omega (arith, l, m, inside)),
)

pub gaps :
    (let h = reader.machine.handle in IsApart (pos 2) h.f (strides_of h (pos 20) (pos 10) (pos 2)))
unfolding field_strides
gaps = (
  record {
    rising = omega arith;
    rows_apart = λ k l. omega (arith, l);
    planes_apart = λ j k jl kl. omega (arith, jl, kl);
  },
  record {
    rising = omega arith;
    columns = omega (arith);
    elements = omega (arith);
    extent = omega (arith);
    plane = omega arith;
    pencil = omega arith;
    first_index = λ i l. omega (arith, l);
    second_index = λ j l. omega (arith, l);
    offsets = λ i j l m. omega (arith, l, m);
  },
  λ is_layout2. (omega arith, λ i j l m. omega (arith, l, m)),
)

unfoldable pub new_request : IsNew 8 writer
unfolding shared_reply shared_values field_strides field_layout_count field_layout
new_request = record {
  request = record {
    open_file = refl;
    cstride_valid = refl;
    bstride_valid = refl;
    astride_valid = refl;
    type_valid = refl;
    established = refl;
    bstride_fits = omega arith;
    cstride_fits = omega arith;
  };
  creation = record {
    missing = λ calls. refl;
    valid = refl;
    known = refl;
    rows_fit = λ is_layout2. omega arith;
    lists = λ calls. refl;
    chunked = λ calls dcpl_id chunks. refl;
    creates = λ calls space dcpl_id. refl;
    created = refl;
    ncomponents = pos 1;
    components = of_scalar (record { class = pos 1; answers = λ calls. refl; scalar = refl });
    sets = λ calls values. refl;
  };
  agreed = record {
    ranks = [];
    reduces = λ calls. refl;
    replies = λ calls. refl;
    agree = (tt, tt, tt);
  };
  grants = process-GrantsDataset (negsuc 0);
  spread = contiguous 1 2 (omega arith);
  chunks_fit = λ is_layout2. omega arith;
  same_layout = refl;
  same_b = refl;
}

pub writer-IsReady : IsReady 8 writer
writer-IsReady = record {
  grant = absent new_request;
  inside = λ j l. omega (arith, l);
  fresh = refl;
}
