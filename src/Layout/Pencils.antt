-- ===== src/Layout/Pencils.antt =====
-- esio/x-layout1.c and esio/x-layout2.c: a strided transfer goes pencil by pencil, with one memory
-- selection that is used at a moving offset of the buffer. Sums and products of sizes are of type int.
pub mod Positions
pub mod Trace
pub mod Asked
pub mod Exact
pub mod Elements
pub mod Indices
pub mod Grid
pub mod Carries
use esio.Prelude.{ℤ, pos_part, is_neg, ℕ, ◌+◌, ◌*◌, not, ◌&&◌, List, [], ◌∷◌, ◌==◌, if◌then◌else◌}
use esio.Io.{
  Direction, select_set, screate_simple, sselect_hyperslab, sclose, dget_space, transfer, tget_size,
  Proc, pure, external, ignore, ◌>>=◌, ◌>>◌, when, assert, for_from, in_int,
}
use esio.Error.{success, efailed, fail}
use esio.Layout.Simple.{is_positive, close_spaces, transfer_and_close}

-- One pencil: select it in the file, and transfer it from or to its place in the buffer.
unfoldable pub transfer_pencil :
    Direction → ℤ → ℤ → ℤ → ℤ → ℤ → List ℕ → List ℕ → List ℕ → ℕ → Proc ℤ Unit
unfolding fail
transfer_pencil direction dset_id type_id memspace filespace plist_id start stride count offset = do
  ignore (sselect_hyperslab filespace select_set start stride count)
  status ← external (transfer direction dset_id type_id memspace filespace plist_id offset)
  when (is_neg status) do close_spaces filespace memspace; fail efailed

-- The branch for contiguous memory: one operation for all data.
unfoldable pub layout1_contiguous : Direction → ℤ → ℤ → ℤ → ℕ → ℕ → ℕ → ℕ → ℕ → ℕ → ℕ → ℤ → Proc ℤ ℤ
unfolding transfer_and_close fail
layout1_contiguous direction filespace plist_id dset_id cstart clocal cstride bstart blocal astart
      alocal type_id =
    do
      in_int (clocal * cstride)
      memspace ← external (screate_simple (clocal * cstride ∷ []))
      assert (is_positive memspace)
      selected ← external (
          sselect_hyperslab filespace select_set (cstart ∷ bstart ∷ astart ∷ []) []
            (clocal ∷ blocal ∷ alocal ∷ []))
      when (is_neg selected) do close_spaces filespace memspace; fail efailed
      transfer_and_close direction dset_id type_id memspace filespace plist_id 0

-- The branch for strided memory: one operation for each pencil.
unfoldable pub layout1_strided :
    Direction → ℤ → ℤ → ℤ → ℕ → ℕ → ℕ → ℕ → ℕ → ℕ → ℕ → ℕ → ℕ → ℕ → ℤ → Proc ℤ ℤ
unfolding transfer_pencil fail
layout1_strided direction filespace plist_id dset_id type_size cstart clocal cstride bstart blocal
      bstride astart alocal astride type_id =
    do
      in_int (astride * alocal)
      memspace ← external (screate_simple (1 ∷ 1 ∷ astride * alocal ∷ []))
      assert (is_positive memspace)
      selected ← external (
          sselect_hyperslab memspace select_set (0 ∷ 0 ∷ 0 ∷ []) (1 ∷ 1 ∷ astride ∷ [])
            (1 ∷ 1 ∷ alocal ∷ []))
      when (is_neg selected) do close_spaces filespace memspace; fail efailed
      for_from 0 clocal λ i. for_from 0 blocal λ j. do
        in_int (i + cstart)
        in_int (j + bstart)
        in_int (j * bstride + i * cstride)
        transfer_pencil direction dset_id type_id memspace filespace plist_id
            ((i + cstart) ∷ (j + bstart) ∷ astart ∷ []) (1 ∷ 1 ∷ 1 ∷ []) (1 ∷ 1 ∷ alocal ∷ [])
            (type_size * (j * bstride + i * cstride))
      close_spaces filespace memspace
      pure success

unfoldable pub field_layout1_transfer :
    Direction → ℤ → ℤ → ℕ → ℕ → ℕ → ℕ → ℕ → ℕ → ℕ → ℕ → ℕ → ℤ → Proc ℤ ℤ
unfolding layout1_contiguous layout1_strided
field_layout1_transfer direction plist_id dset_id cstart clocal cstride bstart blocal bstride astart
      alocal astride type_id =
    do
      type_size ← external (tget_size type_id)
      assert (is_positive type_size)
      filespace ← external (dget_space dset_id)
      assert (not (is_neg filespace))
      when ((astride == 1) && (bstride == astride * alocal)) (in_int (bstride * blocal))
      if (astride == 1) && (bstride == astride * alocal) && (cstride == bstride * blocal)
          then layout1_contiguous direction filespace plist_id dset_id cstart clocal cstride bstart
              blocal astart alocal type_id
          else layout1_strided direction filespace plist_id dset_id (pos_part type_size) cstart
              clocal cstride bstart blocal bstride astart alocal astride type_id

unfoldable pub field_layout2_transfer :
    Direction → ℤ → ℤ → ℕ → ℕ → ℕ → ℕ → ℕ → ℕ → ℕ → ℕ → ℕ → ℕ → ℤ → Proc ℤ ℤ
unfolding transfer_pencil fail
field_layout2_transfer direction plist_id dset_id cstart clocal cstride bglobal bstart blocal
      bstride astart alocal astride type_id =
    do
      type_size ← external (tget_size type_id)
      assert (is_positive type_size)
      in_int (astride * alocal)
      memspace ← external (screate_simple (1 ∷ astride * alocal ∷ []))
      assert (is_positive memspace)
      selected ← external (
          sselect_hyperslab memspace select_set (0 ∷ 0 ∷ []) (bstride ∷ astride ∷ [])
            (1 ∷ alocal ∷ []))
      when (is_neg selected) do ignore (sclose memspace); fail efailed
      filespace ← external (dget_space dset_id)
      assert (not (is_neg filespace))
      for_from 0 clocal λ i. for_from 0 blocal λ j. do
        in_int (i + cstart)
        in_int (j + bstart)
        in_int (j + bstart + (i + cstart) * bglobal)
        in_int (j * bstride + i * cstride)
        transfer_pencil direction dset_id type_id memspace filespace plist_id
            ((j + bstart + (i + cstart) * bglobal) ∷ astart ∷ []) (1 ∷ 1 ∷ []) (1 ∷ alocal ∷ [])
            (pos_part type_size * (j * bstride + i * cstride))
      close_spaces filespace memspace
      pure success
