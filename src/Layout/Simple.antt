-- ===== src/Layout/Simple.antt =====
-- esio/x-line.c, esio/x-plane.c and esio/x-layout0.c: one transfer with one selection in memory and
-- one in the file. The products are of type int. Those in the tests for contiguous memory are computed
-- where they are not above one that was computed before.
pub mod Choosing
pub mod Ordered
pub mod Planes
pub mod Fields
pub mod Lines
use esio.Prelude.{
  ℤ, pos, is_neg, ltb_ℤ, ℕ, ◌+◌, ◌*◌, Bool, not, ◌||◌, List, [], ◌∷◌, ◌==◌, if◌then◌else◌,
}
use esio.Io.{
  Direction, select_set, select_or, screate_simple, sselect_none, sselect_hyperslab, sclose,
  dget_space, transfer, Proc, pure, external, ignore, ◌>>=◌, ◌>>◌, when, assert, for_from, in_int,
}
use esio.Error.{success, efailed, fail}

-- The test for a valid identifier, `id > 0`.
abbrev pub is_positive : ℤ → Bool
is_positive id = ltb_ℤ (pos 0) id

abbrev pub close_spaces : ℤ → ℤ → Proc ℤ Unit
close_spaces filespace memspace = ignore (sclose filespace) >> ignore (sclose memspace)

-- The end of the three functions: OPFUNC and the release of the two spaces.
unfoldable pub transfer_and_close : Direction → ℤ → ℤ → ℤ → ℤ → ℤ → ℕ → Proc ℤ ℤ
unfolding fail
transfer_and_close direction dset_id type_id memspace filespace plist_id offset = do
  status ← external (transfer direction dset_id type_id memspace filespace plist_id offset)
  when (is_neg status) do close_spaces filespace memspace; fail efailed
  close_spaces filespace memspace
  pure success

-- The selection of a block of the file, `count` long from `start`, or of nothing.
unfoldable pub select_filespace : Bool → ℤ → ℤ → List ℕ → List ℕ → Proc ℤ Unit
unfolding fail
select_filespace nothing memspace filespace start count =
    if nothing then ignore (sselect_none filespace) else do
      selected ← external (sselect_hyperslab filespace select_set start [] count)
      when (is_neg selected) do ignore (sclose memspace); ignore (sclose filespace); fail efailed

unfoldable pub line_transfer : Direction → ℤ → ℤ → ℕ → ℕ → ℕ → ℤ → Proc ℤ ℤ
unfolding transfer_and_close select_filespace fail
line_transfer direction plist_id dset_id astart alocal astride type_id = do
  let nelems = alocal * astride
  in_int nelems
  memspace ← external (screate_simple ((if alocal == 0 then 1 else nelems) ∷ []))
  assert (is_positive memspace)
  if alocal == 0
      then ignore (sselect_none memspace)
      else when (not (astride == 1)) do
        selected ←
            external (sselect_hyperslab memspace select_set (0 ∷ []) (astride ∷ []) (alocal ∷ []))
        when (is_neg selected) do ignore (sclose memspace); fail efailed
  filespace ← external (dget_space dset_id)
  assert (not (is_neg filespace))
  select_filespace (alocal == 0) memspace filespace (astart ∷ []) (alocal ∷ [])
  transfer_and_close direction dset_id type_id memspace filespace plist_id 0

-- One strided run of a strided memory selection.
unfoldable pub select_run : ℤ → ℕ → ℕ → ℕ → Proc ℤ Unit
unfolding fail
select_run memspace start stride count = do
  selected ← external (sselect_hyperslab memspace select_or (start ∷ []) (stride ∷ []) (count ∷ []))
  when (is_neg selected) do ignore (sclose memspace); fail efailed

-- A strided memory selection begins with nothing selected.
unfoldable pub reset_selection : ℤ → Proc ℤ Unit
unfolding fail
reset_selection memspace = do
  reset ← external (sselect_none memspace)
  when (is_neg reset) do ignore (sclose memspace); fail efailed

unfoldable pub plane_transfer : Direction → ℤ → ℤ → ℕ → ℕ → ℕ → ℕ → ℕ → ℕ → ℤ → Proc ℤ ℤ
unfolding transfer_and_close select_filespace select_run reset_selection
plane_transfer direction plist_id dset_id bstart blocal bstride astart alocal astride type_id = do
  let nothing = blocal * alocal == 0
  let nelems = blocal * bstride
  in_int nelems
  in_int (blocal * alocal)
  memspace ← external (screate_simple ((if nothing then 1 else nelems) ∷ []))
  assert (is_positive memspace)
  if nothing
      then ignore (sselect_none memspace)
      else when (not (astride == 1) || not (bstride == astride * alocal)) do
        reset_selection memspace
        for_from 0 blocal (λ j. select_run memspace (j * bstride) astride alocal)
  filespace ← external (dget_space dset_id)
  assert (not (is_neg filespace))
  select_filespace nothing memspace filespace (bstart ∷ astart ∷ []) (blocal ∷ alocal ∷ [])
  transfer_and_close direction dset_id type_id memspace filespace plist_id 0

unfoldable pub field_layout0_transfer :
    Direction → ℤ → ℤ → ℕ → ℕ → ℕ → ℕ → ℕ → ℕ → ℕ → ℕ → ℕ → ℤ → Proc ℤ ℤ
unfolding transfer_and_close select_filespace select_run reset_selection
field_layout0_transfer direction plist_id dset_id cstart clocal cstride bstart blocal bstride astart
      alocal astride type_id =
    do
      let nothing = clocal * blocal * alocal == 0
      let nelems = clocal * cstride
      in_int nelems
      in_int (clocal * blocal)
      in_int (clocal * blocal * alocal)
      memspace ← external (screate_simple ((if nothing then 1 else nelems) ∷ []))
      assert (is_positive memspace)
      if nothing
          then ignore (sselect_none memspace)
          else when
              (not (astride == 1)
                || not (bstride == astride * alocal)
                || not (cstride == bstride * blocal))
              do
                reset_selection memspace
                for_from 0 clocal λ k. for_from 0 blocal λ j. do
                  in_int (k * cstride + j * bstride)
                  select_run memspace (k * cstride + j * bstride) astride alocal
      filespace ← external (dget_space dset_id)
      assert (not (is_neg filespace))
      select_filespace nothing memspace filespace (cstart ∷ bstart ∷ astart ∷ [])
          (clocal ∷ blocal ∷ alocal ∷ [])
      transfer_and_close direction dset_id type_id memspace filespace plist_id 0
