-- ===== src/Layout/Pencils/Exact.antt =====
-- What the transfers of esio/x-layout1.c and esio/x-layout2.c move between memory and file.
use esio.Prelude.{
  ℤ, ℕ, ◌+◌, ◌*◌, ◌≡◌, refl, ◌&&◌, List, [], ◌∷◌, ◌==◌, if◌then◌else◌, ◌<◌, ◌≤◌, arith, All,
}
use esio.Io.{◌>>◌, Direction, Event, Machine, transfer, for_from, int_limit, in_int}
use esio.Layout.Simple.{transfer_and_close}
use esio.Layout.Pencils.{
  field_layout1_transfer, field_layout2_transfer, layout1_contiguous, layout1_strided,
  transfer_pencil,
}
use esio.Layout.Pencils.Positions.{Selected, Selection, everything, hyperslab}
use esio.Layout.Pencils.Trace.{
  Moved, selection_of, moved, Grants, rounds, Moves, Moves-for_from, Moves-transfer_pencil,
  file_passes, memory_passes, spaces_apart, FitsInt, RowsFitInt, int_fits, Moves-in_int,
}
use esio.Layout.Pencils.Asked.{
  granted_rules, Gives, Succeeds, Gives-if, branch_rules, Gives-in_int_bind,
}

-- A selection without strides.
pub no_strides : All {A = ℕ} (λ d. 0 < d) []
no_strides = tt

below : (i n : ℕ) → i < 0 + n → i < n
below i n l = omega (arith, l)

-- The transfer of the pencil of `alocal` elements that lie `stride` apart in memory from `offset`,
-- to the contiguous elements of the file from `start`.
abbrev pub pencil : Selection → List ℕ → List ℕ → List ℕ → ℕ → Moved
pencil selection ones start count offset = (selection, hyperslab (start, ones, count), offset)

module _ (astart alocal astride : ℕ)
    (type_size cstart clocal cstride bstart blocal bstride : ℕ) where
  -- The pencil of layout 1 in which the first two indices are `i` and `j`.
  abbrev pub pencil1 : ℕ → ℕ → List Moved
  pencil1 i j =
      pencil
        (
          1 ∷ 1 ∷ astride * alocal ∷ [],
          hyperslab (0 ∷ 0 ∷ 0 ∷ [], 1 ∷ 1 ∷ astride ∷ [], 1 ∷ 1 ∷ alocal ∷ []),
        )
        (1 ∷ 1 ∷ 1 ∷ []) ((i + cstart) ∷ (j + bstart) ∷ astart ∷ []) (1 ∷ 1 ∷ alocal ∷ [])
        (type_size * (j * bstride + i * cstride))
      ∷ []

  abbrev pub pencils1 : List Moved
  pencils1 = rounds (λ i. rounds (pencil1 i) 0 blocal) 0 clocal

  -- The pencil of layout 2, in which the first two indices are flattened.
  abbrev pub pencil2 : ℕ → ℕ → ℕ → List Moved
  pencil2 bglobal i j =
      pencil
        (1 ∷ astride * alocal ∷ [], hyperslab (0 ∷ 0 ∷ [], bstride ∷ astride ∷ [], 1 ∷ alocal ∷ []))
        (1 ∷ 1 ∷ []) ((j + bstart + (i + cstart) * bglobal) ∷ astart ∷ []) (1 ∷ alocal ∷ [])
        (type_size * (j * bstride + i * cstride))
      ∷ []

  abbrev pub pencils2 : ℕ → List Moved
  pencils2 bglobal = rounds (λ i. rounds (pencil2 bglobal i) 0 blocal) 0 clocal

-- The one transfer of contiguous memory.
abbrev pub whole : ℕ → List ℕ → List ℕ → List Moved
whole extent start count = ((extent ∷ [], everything), hyperslab (start, [], count), 0) ∷ []

-- What a field of layout 1 moves: all at once where memory is contiguous, and else pencil by pencil.
abbrev pub moves1 : ℕ → ℕ → ℕ → ℕ → ℕ → ℕ → ℕ → ℕ → ℕ → ℕ → List Moved
moves1 type_size cstart clocal cstride bstart blocal bstride astart alocal astride =
    if (astride == 1) && (bstride == astride * alocal) && (cstride == bstride * blocal)
    then whole (clocal * cstride) (cstart ∷ bstart ∷ astart ∷ []) (clocal ∷ blocal ∷ alocal ∷ [])
    else pencils1 astart alocal astride type_size cstart clocal cstride bstart blocal bstride

module _ (s : Machine) (direction : Direction) (plist_id dset_id type_id mem file : ℤ)
    (type_size : ℕ) (grants : Grants s.env dset_id type_id mem file type_size) where
  -- OPFUNC and the release of the two spaces.
  pub Gives-transfer_and_close :
      (calls : List Event) (selection : Selection) (block : Selected)
      → selection_of mem calls ≡ selection
      → (selection_of file calls).1 ≡ block
      → moved calls ≡ moved s.calls
      → Gives s calls
          ((selection, block, 0) ∷ [])
          (transfer_and_close direction dset_id type_id mem file plist_id 0)
  unfolding transfer_and_close
  Gives-transfer_and_close calls selection block in_memory in_file none_moved =
      search (granted_rules, seen)
    where
      seen :
          (r : ℤ)
          → moved (
              record { call = transfer direction dset_id type_id mem file plist_id 0; result = r }
              ∷ calls)
            ≡ (selection, block, 0) ∷ moved s.calls
      seen r = rw (in_memory, in_file, none_moved) refl

  layout1_contiguous-Gives :
      (cstart clocal cstride bstart blocal astart alocal : ℕ) (calls : List Event)
      → clocal * cstride ≤ int_limit
      → moved calls ≡ moved s.calls
      → Gives s calls
          (whole (clocal * cstride) (cstart ∷ bstart ∷ astart ∷ []) (clocal ∷ blocal ∷ alocal ∷ []))
          (layout1_contiguous direction file plist_id dset_id cstart clocal cstride bstart blocal
            astart alocal type_id)
  unfolding layout1_contiguous
  layout1_contiguous-Gives cstart clocal cstride bstart blocal astart alocal calls extent
        none_moved =
      search
        (
          granted_rules,
          int_fits (clocal * cstride) extent,
          Gives-transfer_and_close,
          grants.apart,
          grants.mem_positive,
        )
        depth 20

  layout1_strided-Gives :
      (cstart clocal cstride bstart blocal bstride astart alocal astride : ℕ) (calls : List Event)
      → FitsInt cstart clocal cstride bstart blocal bstride alocal astride
      → moved calls ≡ moved s.calls
      → Gives s calls
          (pencils1 astart alocal astride type_size cstart clocal cstride bstart blocal bstride)
          (layout1_strided direction file plist_id dset_id type_size cstart clocal cstride bstart
            blocal bstride astart alocal astride type_id)
  unfolding layout1_strided
  layout1_strided-Gives cstart clocal cstride bstart blocal bstride astart alocal astride calls
        bounds none_moved =
      search
        (
          granted_rules,
          int_fits (astride * alocal) bounds.pencil,
          strides_apart,
          loop,
          grants.mem_positive,
        )
        depth 20
    where
      strides_apart : All (λ d. 0 < d) (1 ∷ 1 ∷ astride ∷ [])
      strides_apart = (omega arith, (omega arith, (bounds.rising, tt)))

      loop :
          Moves s mem
            (
              1 ∷ 1 ∷ astride * alocal ∷ [],
              hyperslab (0 ∷ 0 ∷ 0 ∷ [], 1 ∷ 1 ∷ astride ∷ [], 1 ∷ 1 ∷ alocal ∷ []),
            )
            (pencils1 astart alocal astride type_size cstart clocal cstride bstart blocal bstride)
            (for_from 0 clocal λ i. for_from 0 blocal λ j. do
              in_int (i + cstart)
              in_int (j + bstart)
              in_int (j * bstride + i * cstride)
              transfer_pencil direction dset_id type_id mem file plist_id
                  ((i + cstart) ∷ (j + bstart) ∷ astart ∷ [])
                  (1 ∷ 1 ∷ 1 ∷ [])
                  (1 ∷ 1 ∷ alocal ∷ [])
                  (type_size * (j * bstride + i * cstride)))
      loop = Moves-for_from s mem _ _ _ 0 clocal λ i li. Moves-for_from s mem _ _ _ 0 blocal λ j lj.
          let i_below = below i clocal li in
          let j_below = below j blocal lj in
          Moves-in_int s mem _ _ _ _ (bounds.first_index i i_below) (
            Moves-in_int s mem _ _ _ _ (bounds.second_index j j_below) (
              Moves-in_int s mem _ _ _ _ (bounds.offsets i j i_below j_below) (
                Moves-transfer_pencil s mem _ dset_id type_id file type_size grants direction
                  plist_id _ _ _ _)))

  pub field_layout1_transfer-moves :
      (cstart clocal cstride bstart blocal bstride astart alocal astride : ℕ)
      → FitsInt cstart clocal cstride bstart blocal bstride alocal astride
      → Succeeds s
          (moves1 type_size cstart clocal cstride bstart blocal bstride astart alocal astride)
          (field_layout1_transfer direction plist_id dset_id cstart clocal cstride bstart blocal
            bstride astart alocal astride type_id s)
  unfolding field_layout1_transfer
  field_layout1_transfer-moves cstart clocal cstride bstart blocal bstride astart alocal astride
        bounds =
      gives.at
    where
      gives :
          Gives s s.calls
            (moves1 type_size cstart clocal cstride bstart blocal bstride astart alocal astride)
            (field_layout1_transfer direction plist_id dset_id cstart clocal cstride bstart blocal
              bstride astart alocal astride type_id)
      gives =
          search
            (
              granted_rules, Gives-if, Gives-in_int_bind, bounds.plane, bounds.extent,
              layout1_contiguous-Gives, layout1_strided-Gives, bounds, grants.size_positive,
              grants.file_valid,
            )
            depth 20

  pub field_layout2_transfer-moves :
      (cstart clocal cstride bglobal bstart blocal bstride astart alocal astride : ℕ)
      → FitsInt cstart clocal cstride bstart blocal bstride alocal astride
      → RowsFitInt cstart clocal bglobal bstart blocal bstride
      → Succeeds s
          (pencils2 astart alocal astride type_size cstart clocal cstride bstart blocal bstride
            bglobal)
          (field_layout2_transfer direction plist_id dset_id cstart clocal cstride bglobal bstart
            blocal bstride astart alocal astride type_id s)
  unfolding field_layout2_transfer
  field_layout2_transfer-moves cstart clocal cstride bglobal bstart blocal bstride astart alocal
        astride bounds rows =
      gives.at
    where
      strides_apart : All (λ d. 0 < d) (bstride ∷ astride ∷ [])
      strides_apart = (rows.0, (bounds.rising, tt))

      loop :
          Moves s mem
            (
              1 ∷ astride * alocal ∷ [],
              hyperslab (0 ∷ 0 ∷ [], bstride ∷ astride ∷ [], 1 ∷ alocal ∷ []),
            )
            (pencils2 astart alocal astride type_size cstart clocal cstride bstart blocal bstride
              bglobal)
            (for_from 0 clocal λ i. for_from 0 blocal λ j. do
              in_int (i + cstart)
              in_int (j + bstart)
              in_int (j + bstart + (i + cstart) * bglobal)
              in_int (j * bstride + i * cstride)
              transfer_pencil direction dset_id type_id mem file plist_id
                  ((j + bstart + (i + cstart) * bglobal) ∷ astart ∷ [])
                  (1 ∷ 1 ∷ [])
                  (1 ∷ alocal ∷ [])
                  (type_size * (j * bstride + i * cstride)))
      loop = Moves-for_from s mem _ _ _ 0 clocal λ i li. Moves-for_from s mem _ _ _ 0 blocal λ j lj.
          let i_below = below i clocal li in
          let j_below = below j blocal lj in
          Moves-in_int s mem _ _ _ _ (bounds.first_index i i_below) (
            Moves-in_int s mem _ _ _ _ (bounds.second_index j j_below) (
              Moves-in_int s mem _ _ _ _ (rows.1 i j i_below j_below) (
                Moves-in_int s mem _ _ _ _ (bounds.offsets i j i_below j_below) (
                  Moves-transfer_pencil s mem _ dset_id type_id file type_size grants direction
                    plist_id _ _ _ _))))

      gives :
          Gives s s.calls
            (pencils2 astart alocal astride type_size cstart clocal cstride bstart blocal bstride
              bglobal)
            (field_layout2_transfer direction plist_id dset_id cstart clocal cstride bglobal bstart
              blocal bstride astart alocal astride type_id)
      gives =
          search
            (
              granted_rules,
              int_fits (astride * alocal) bounds.pencil,
              strides_apart,
              loop,
              grants.size_positive,
              file_passes grants,
              grants.mem_positive,
              grants.apart,
            )
            depth 30

-- For the transfers of esio/x-layout0.c, esio/x-plane.c and esio/x-line.c.
pub ruleset simple_rules =
    (branch_rules, no_strides, Gives-transfer_and_close, file_passes, memory_passes, spaces_apart)
