-- ===== src/Layout/Pencils/Asked/After.antt =====
-- What is selected in a dataspace after a call of HDF5.
use esio.Prelude.{ℤ, eq_ℤ, ℕ, ◌≡◌, refl, false, List, [], ◌∷◌}
use esio.Io.{Event, select_set, screate_simple, sselect_none, sselect_hyperslab, dget_space}
use esio.Layout.Pencils.Positions.{Selection, everything, hyperslab, points}
use esio.Layout.Pencils.Trace.{selection_of, eq_ℤ_refl}

-- What is selected after a call.
module _ (space : ℤ) (calls : List Event) where
  pub selection_of-created :
      (extents : List ℕ)
      → selection_of space (record { call = screate_simple extents; result = space } ∷ calls)
        ≡ (extents, everything)
  selection_of-created extents = rw (eq_ℤ_refl space) refl

  pub extents_of-created :
      (extents : List ℕ)
      → (selection_of space (record { call = screate_simple extents; result = space } ∷ calls)).0
        ≡ extents
  extents_of-created extents = rw (eq_ℤ_refl space) refl

  pub selection_of-created_chosen :
      (start stride count extents : List ℕ) (r : ℤ)
      → selection_of space (
          record { call = sselect_hyperslab space select_set start stride count; result = r }
          ∷ record { call = screate_simple extents; result = space }
          ∷ calls)
        ≡ (extents, hyperslab (start, stride, count))
  selection_of-created_chosen start stride count extents r = rw (eq_ℤ_refl space) refl

  pub block_of-chosen :
      (start stride count : List ℕ) (r : ℤ)
      → (selection_of space (
          record { call = sselect_hyperslab space select_set start stride count; result = r }
          ∷ calls)).1
        ≡ hyperslab (start, stride, count)
  block_of-chosen start stride count r = rw (eq_ℤ_refl space) refl

  pub selection_of-emptied :
      (extents : List ℕ) (r : ℤ)
      → selection_of space (
          record { call = sselect_none space; result = r }
          ∷ record { call = screate_simple extents; result = space }
          ∷ calls)
        ≡ (extents, points [])
  selection_of-emptied extents r = rw (eq_ℤ_refl space) refl

  pub block_of-emptied :
      (r : ℤ)
      → (selection_of space (record { call = sselect_none space; result = r } ∷ calls)).1
        ≡ points []
  block_of-emptied r = rw (eq_ℤ_refl space) refl

  pub selection_of-emptied_elsewhere :
      (other : ℤ) (r : ℤ) (selection : Selection)
      → eq_ℤ other space ≡ false
      → selection_of space calls ≡ selection
      → selection_of space (record { call = sselect_none other; result = r } ∷ calls) ≡ selection
  selection_of-emptied_elsewhere other r selection apart e = rw apart e

  pub selection_of-opened_elsewhere :
      (dset_id other : ℤ) (selection : Selection)
      → eq_ℤ other space ≡ false
      → selection_of space calls ≡ selection
      → selection_of space (record { call = dget_space dset_id; result = other } ∷ calls)
        ≡ selection
  selection_of-opened_elsewhere dset_id other selection apart e = rw apart e

  pub selection_of-chosen_elsewhere :
      (other : ℤ) (start stride count : List ℕ) (r : ℤ) (selection : Selection)
      → eq_ℤ other space ≡ false
      → selection_of space calls ≡ selection
      → selection_of space (
          record { call = sselect_hyperslab other select_set start stride count; result = r }
          ∷ calls)
        ≡ selection
  selection_of-chosen_elsewhere other start stride count r selection apart e = rw apart e
