-- ===== src/Tests/Layouts.antt =====
-- Runs of the transfers of lines, planes and fields in a world that grants every space and every transfer.
use esio.Prelude.{ℤ, pos, ◌≡◌, refl, map, ◌∷◌, []}
use esio.Io.{for_from, Call, Machine, screate_simple, dget_space, tget_size, writing}
use esio.Layout.Pencils.{field_layout1_transfer, field_layout2_transfer}
use esio.Layout.Pencils.Trace.{Grants, moved, FitsInt, RowsFitInt}
use esio.Layout.Pencils.Elements.{all_elements}
use esio.Layout.Pencils.Grid.{field_elements, indices, flattened}
use esio.Layout.Pencils.Carries.{
  Carries, flatten, field_layout1_transfer-Carries, field_layout2_transfer-Carries,
  layout2_of_layout1,
}
use esio.Layout.Simple.{
  line_transfer, plane_transfer, field_layout0_transfer, select_filespace, transfer_and_close,
  reset_selection, select_run,
}
use esio.Layout.Simple.Lines.{line_elements, line_transfer-Carries}
use esio.Layout.Simple.Planes.{plane_elements, plane_transfer-Carries}
use esio.Layout.Simple.Fields.{field_layout0_transfer-Carries}
use native.Mathlib.Omega.{arith}
use esio.Tests.{idle}

-- Doubles of eight bytes, 1 for spaces in memory and 2 for those of the file.
granting_reply : Call → ℤ
granting_reply (screate_simple extents) = pos 1
granting_reply (dget_space dset_id) = pos 2
granting_reply (tget_size type_id) = pos 8
granting_reply c = pos 0

abbrev granting : Machine
granting = record idle { env = record idle.env { status = λ calls c. granting_reply c } }

grants : Grants granting.env (pos 5) (pos 3) (pos 1) (pos 2) 8
unfolding granting_reply
grants = record {
  memspace = λ calls extents. refl;
  filespace = λ calls. refl;
  sized = λ calls. refl;
  selects = λ calls space op start stride count apart. refl;
  empties = λ calls space. refl;
  transfers = λ calls direction plist_id offset. refl;
  mem_positive = refl;
  file_valid = refl;
  size_positive = refl;
  apart = refl;
}

bounds1 : FitsInt 1 2 6 0 3 2 2 1
bounds1 = record {
  rising = omega arith;
  columns = omega arith;
  elements = omega arith;
  extent = omega arith;
  plane = omega arith;
  pencil = omega arith;
  first_index = λ i l. omega (arith, l);
  second_index = λ j l. omega (arith, l);
  offsets = λ i j l m. omega (arith, l, m);
}

bounds2 : FitsInt 1 2 20 0 3 5 2 2
bounds2 = record {
  rising = omega arith;
  columns = omega arith;
  elements = omega arith;
  extent = omega arith;
  plane = omega arith;
  pencil = omega arith;
  first_index = λ i l. omega (arith, l);
  second_index = λ j l. omega (arith, l);
  offsets = λ i j l m. omega (arith, l, m);
}

bounds0 : FitsInt 1 2 20 0 3 6 2 2
bounds0 = record {
  rising = omega arith;
  columns = omega arith;
  elements = omega arith;
  extent = omega arith;
  plane = omega arith;
  pencil = omega arith;
  first_index = λ i l. omega (arith, l);
  second_index = λ j l. omega (arith, l);
  offsets = λ i j l m. omega (arith, l, m);
}

rows2 : RowsFitInt 1 2 9 0 3 5
rows2 = (omega arith, λ i j l m. omega (arith, l, m))

-- A field in contiguous memory.
field_layout1_transfer-Carries_example :
    Carries granting 8
      (field_elements 8 1 2 6 0 3 2 4 2 1 indices)
      (field_layout1_transfer writing (pos 7) (pos 5) 1 2 6 0 3 2 4 2 1 (pos 3) granting)
field_layout1_transfer-Carries_example =
    field_layout1_transfer-Carries granting writing (pos 7) (pos 5) (pos 3) (pos 1) (pos 2) 8 grants
      1 2 6 0 3 2 4 2 1 bounds1

-- A field in memory with gaps.
field_layout2_transfer-Carries_example :
    Carries granting 8
      (field_elements 8 1 2 20 0 3 5 4 2 2 (flattened 9))
      (field_layout2_transfer writing (pos 7) (pos 5) 1 2 20 9 0 3 5 4 2 2 (pos 3) granting)
field_layout2_transfer-Carries_example =
    field_layout2_transfer-Carries granting writing (pos 7) (pos 5) (pos 3) (pos 1) (pos 2) 8 grants
      1 2 20 0 3 5 4 2 2 bounds2 9 rows2

layout2_of_layout1_example :
    all_elements 8 (
      moved
        (field_layout2_transfer writing
          (pos 7)
          (pos 5)
          1
          2
          20
          9
          0
          3
          5
          4
          2
          2
          (pos 3)
          granting).1.calls)
    ≡ map
        (λ e. (e.0, flatten 9 e.1))
        (all_elements 8 (
          moved
            (field_layout1_transfer writing
              (pos 7)
              (pos 5)
              1
              2
              20
              0
              3
              5
              4
              2
              2
              (pos 3)
              granting).1.calls))
layout2_of_layout1_example =
    layout2_of_layout1 granting writing (pos 7) (pos 5) (pos 3) (pos 1) (pos 2) 8 grants 1 2 20 0 3
      5 4 2 2 bounds2 9 rows2 refl

-- A line with gaps in memory.
line_transfer-Carries_example :
    Carries granting 8
      (line_elements 8 6 3 2)
      (line_transfer writing (pos 7) (pos 5) 6 3 2 (pos 3) granting)
line_transfer-Carries_example =
    line_transfer-Carries granting writing (pos 7) (pos 5) (pos 3) (pos 1) (pos 2) 8 grants 6 3 2
      (omega arith) (omega arith)

-- A plane with gaps in memory.
plane_transfer-Carries_example :
    Carries granting 8
      (plane_elements 8 1 2 7 6 3 2)
      (plane_transfer writing (pos 7) (pos 5) 1 2 7 6 3 2 (pos 3) granting)
plane_transfer-Carries_example =
    plane_transfer-Carries granting writing (pos 7) (pos 5) (pos 3) (pos 1) (pos 2) 8 grants 1 2 7 6
      3 2 (omega arith) (omega arith) (omega arith) (λ k l. omega (arith, l))

-- A field of layout 0 with gaps in memory.
field_layout0_transfer-Carries_example :
    Carries granting 8
      (field_elements 8 1 2 20 0 3 6 4 2 2 indices)
      (field_layout0_transfer writing (pos 7) (pos 5) 1 2 20 0 3 6 4 2 2 (pos 3) granting)
field_layout0_transfer-Carries_example =
    field_layout0_transfer-Carries granting writing (pos 7) (pos 5) (pos 3) (pos 1) (pos 2) 8 grants
      1 2 20 0 3 6 4 2 2 bounds0 (λ k l. omega (arith, l)) (λ j k l m. omega (arith, l, m))

-- Rows that lie in each other are selected in the order of memory: position 1 goes with the second
-- column of the first row, though it is the first of the second row.
layout0_exchanges :
    all_elements 1 (
      moved
        (field_layout0_transfer writing (pos 7) (pos 5) 0 1 4 0 2 1 0 2 2 (pos 3) granting).1.calls)
    ≡ (0, 0 ∷ 0 ∷ 0 ∷ []) ∷ (1, 0 ∷ 0 ∷ 1 ∷ []) ∷ (2, 0 ∷ 1 ∷ 0 ∷ []) ∷ (3, 0 ∷ 1 ∷ 1 ∷ []) ∷ []
unfolding field_layout0_transfer granting_reply select_filespace transfer_and_close reset_selection
    select_run for_from
layout0_exchanges = refl
