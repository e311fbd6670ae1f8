-- ===== src/Layout/Pencils/Carries.antt =====
-- The transfer functions of esio/x-layout1.c and esio/x-layout2.c against the definition of a field.
use esio.Prelude.{ℤ, ℕ, ◌+◌, ◌*◌, ◌≡◌, refl, sym, ap, ◌∙◌, List, [], ◌∷◌, ◌++◌, map}
use esio.Io.{Direction, Machine, Outcome, next, Event}
use esio.Error.{success}
use esio.Layout.Pencils.{field_layout1_transfer, field_layout2_transfer}
use esio.Layout.Pencils.Trace.{Moved, moved, Grants, FitsInt, RowsFitInt}
use esio.Layout.Pencils.Exact.{field_layout1_transfer-moves, field_layout2_transfer-moves}
use esio.Layout.Pencils.Asked.{Succeeds}
use esio.Layout.Pencils.Elements.{all_elements, all_elements-append}
use esio.Layout.Pencils.Indices.{map-grid}
use esio.Layout.Pencils.Grid.{
  indices, flattened, field_elements, pencils2-elements, choice-elements,
}

-- The place in a file of layout 2 of what lies at these indices in one of layout 1.
abbrev pub flatten : ℕ → List ℕ → List ℕ
flatten bglobal (c ∷ b ∷ a ∷ []) = flattened bglobal c b a
flatten bglobal place = place

-- A transfer that succeeds, and that moves these elements after all that were moved before.
abbrev pub Carries : Machine → ℕ → List (ℕ × List ℕ) → Outcome ℤ ℤ × Machine → Type 0
Carries s type_size carried r =
    (calls : List Event) × (r ≡ (next success, record s { calls = calls }))
    × (all_elements type_size (moved calls) ≡ all_elements type_size (moved s.calls) ++ carried)

pub Succeeds-Carries :
    (s : Machine) (type_size : ℕ) (k : List Moved) (carried : List (ℕ × List ℕ))
    (r : Outcome ℤ ℤ × Machine)
    → all_elements type_size k ≡ carried
    → Succeeds s k r
    → Carries s type_size carried r
Succeeds-Carries s type_size k carried r e (calls, ran, seen) = (
  calls,
  ran,
  ap (all_elements type_size) seen
      ∙ all_elements-append type_size k (moved s.calls)
      ∙ ap (λ l. all_elements type_size (moved s.calls) ++ l) e,
)

-- The elements that have been moved after it.
pub Carries-elements :
    (s : Machine) (type_size : ℕ) (carried : List (ℕ × List ℕ)) (r : Outcome ℤ ℤ × Machine)
    → Carries s type_size carried r
    → all_elements type_size (moved r.1.calls) ≡ all_elements type_size (moved s.calls) ++ carried
Carries-elements s type_size carried r (calls, ran, seen) =
    ap (λ r. all_elements type_size (moved r.1.calls)) ran ∙ seen

module _ (s : Machine) (direction : Direction) (plist_id dset_id type_id mem file : ℤ)
    (type_size : ℕ) (grants : Grants s.env dset_id type_id mem file type_size)
    (cstart clocal cstride bstart blocal bstride astart alocal astride : ℕ)
    (bounds : FitsInt cstart clocal cstride bstart blocal bstride alocal astride) where
  -- What is to be moved.
  abbrev pub carried : (ℕ → ℕ → ℕ → List ℕ) → List (ℕ × List ℕ)
  carried =
      field_elements type_size cstart clocal cstride bstart blocal bstride astart alocal astride

  -- Where HDF5 grants the spaces, the selections and the transfers that are asked for, strides in
  -- memory are positive, and no int expression overflows, the transfer of a field of layout 1
  -- succeeds, at once for contiguous memory and pencil by pencil otherwise. Both ways it moves
  -- exactly the local elements of the field in row-major order, each between its strided offset in
  -- the buffer and its global indices in the file.
  pub field_layout1_transfer-Carries : Carries s type_size (carried indices) (
      field_layout1_transfer direction plist_id dset_id cstart clocal cstride bstart blocal bstride
        astart alocal astride type_id s)
  field_layout1_transfer-Carries =
      Succeeds-Carries s type_size _ _
        (field_layout1_transfer direction plist_id dset_id cstart clocal cstride bstart blocal
          bstride astart alocal astride type_id s)
        (choice-elements type_size cstart clocal cstride bstart blocal bstride astart alocal astride
          _ _ _ refl refl refl)
        (field_layout1_transfer-moves s direction plist_id dset_id type_id mem file type_size grants
          cstart clocal cstride bstart blocal bstride astart alocal astride bounds)

  -- Where HDF5 grants the spaces, the selections and the transfers that are asked for, strides in
  -- memory are positive, and no int expression overflows, the transfer of a field of layout 2
  -- succeeds and moves exactly the local elements of the field in row-major order, each between
  -- its strided offset in the buffer and the row b + c * bglobal and column a of the file.
  pub field_layout2_transfer-Carries :
      (bglobal : ℕ)
      → RowsFitInt cstart clocal bglobal bstart blocal bstride
      → Carries s type_size (carried (flattened bglobal)) (
          field_layout2_transfer direction plist_id dset_id cstart clocal cstride bglobal bstart
            blocal bstride astart alocal astride type_id s)
  field_layout2_transfer-Carries bglobal rows =
      Succeeds-Carries s type_size _ _
        (field_layout2_transfer direction plist_id dset_id cstart clocal cstride bglobal bstart
          blocal bstride astart alocal astride type_id s)
        (pencils2-elements type_size cstart clocal cstride bstart blocal bstride astart alocal
          astride bglobal)
        (field_layout2_transfer-moves s direction plist_id dset_id type_id mem file type_size grants
          cstart clocal cstride bglobal bstart blocal bstride astart alocal astride bounds rows)

  -- From a state in which nothing was moved, where HDF5 grants all that is asked for, strides in
  -- memory are positive, and no int expression of either layout overflows, the layouts 1 and 2
  -- move the same elements of memory in the same order, and the places in the file of layout 2 are
  -- those of layout 1 with the first two indices made into one.
  pub layout2_of_layout1 :
      (bglobal : ℕ)
      → RowsFitInt cstart clocal bglobal bstart blocal bstride
      → moved s.calls ≡ []
      → all_elements type_size (
          moved
            (field_layout2_transfer direction plist_id dset_id cstart clocal cstride bglobal bstart
              blocal bstride astart alocal astride type_id s).1.calls)
        ≡ map
            (λ e. (e.0, flatten bglobal e.1))
            (all_elements type_size (
              moved
                (field_layout1_transfer direction plist_id dset_id cstart clocal cstride bstart
                  blocal bstride astart alocal astride type_id s).1.calls))
  layout2_of_layout1 bglobal rows fresh =
      Carries-elements s type_size (carried (flattened bglobal))
        (field_layout2_transfer direction plist_id dset_id cstart clocal cstride bglobal bstart
          blocal bstride astart alocal astride type_id s)
        (field_layout2_transfer-Carries bglobal rows)
      ∙ ap (λ ms. all_elements type_size ms ++ carried (flattened bglobal)) fresh
      ∙ sym (
          map-grid move clocal blocal alocal λ i j k. (
            type_size * (i * cstride + j * bstride + k * astride),
            indices (i + cstart) (j + bstart) (k + astart),
          ))
      ∙ ap (λ ms. map move (all_elements type_size ms ++ carried indices)) (sym fresh)
      ∙ ap (map move) (
          sym (
            Carries-elements s type_size (carried indices)
              (field_layout1_transfer direction plist_id dset_id cstart clocal cstride bstart blocal
                bstride astart alocal astride type_id s)
              field_layout1_transfer-Carries))
    where
      move : ℕ × List ℕ → ℕ × List ℕ
      move e = (e.0, flatten bglobal e.1)
