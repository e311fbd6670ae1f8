-- ===== src/Layout/Simple/Fields.antt =====
-- What the transfer of a field of layout 0 moves, esio/x-layout0.c, when HDF5 grants all that it asks
-- for.
use esio.Prelude.{
  ℤ, ℕ, ◌+◌, ◌*◌, ◌<◌, ◌≡◌, sym, ap, ◌∙◌, inl, inr, Bool, true, false, not, ◌||◌, List, [], ◌∷◌,
  ◌++◌, map, arith, ◌==◌, if◌then◌else◌, ==_iff, Bool-cases, All, ◌≤◌,
}
use esio.Io.{◌>>◌, Direction, Machine, Proc, for_from, in_int, int_limit}
use native.Mathlib.Nat.{zero-add, add-zero, zero-mul, one-mul, add-mul}
use esio.Layout.Simple.{field_layout0_transfer, select_filespace, select_run}
use esio.Layout.Pencils.Positions.{Selected, each, unite, everything, hyperslab, points}
use esio.Layout.Pencils.Positions.Union.{All-each, over, over-rows}
use esio.Layout.Pencils.Trace.{Moved, Grants, FitsInt, int_fits}
use esio.Layout.Pencils.Asked.{Gives}
use esio.Layout.Pencils.Exact.{simple_rules}
use esio.Layout.Pencils.Elements.{pairs, places, all_elements}
use esio.Layout.Pencils.Indices.{grid, grid_cong, map-grid, pairs-grid, coordinates-grid}
use esio.Layout.Pencils.Carries.{Carries, Succeeds-Carries}
use esio.Layout.Pencils.Grid.{indices, field_elements, whole-elements}
use esio.Layout.Simple.Choosing.{
  run, Chooses, Chooses-for_from, Chooses-select_run, Gives-reset_selection, Chooses-in_int,
}
use esio.Layout.Simple.Ordered.{over-plane, grid-empty}

module _ (s : Machine) (direction : Direction) (plist_id dset_id type_id mem file : ℤ)
    (type_size : ℕ) (grants : Grants s.env dset_id type_id mem file type_size)
    (cstart clocal cstride bstart blocal bstride astart alocal astride : ℕ)
    (bounds : FitsInt cstart clocal cstride bstart blocal bstride alocal astride) where
  -- The extents of the memory.
  abbrev extent : ℕ
  extent = if clocal * blocal * alocal == 0 then 1 else clocal * cstride

  abbrev field : Proc ℤ ℤ
  field =
      field_layout0_transfer direction plist_id dset_id cstart clocal cstride bstart blocal bstride
        astart alocal astride type_id

  abbrev has_gaps : Bool
  has_gaps =
      not (astride == 1) || not (bstride == astride * alocal) || not (cstride == bstride * blocal)

  -- The block of the field in the file.
  abbrev in_file : Selected
  in_file = hyperslab (cstart ∷ bstart ∷ astart ∷ [], [], clocal ∷ blocal ∷ alocal ∷ [])

  -- The loops that select the rows in memory.
  abbrev add_row : ℕ → ℕ → List ℕ → List ℕ
  add_row i j ps = unite ps (run (extent ∷ []) (i * cstride + j * bstride) astride alocal)

  abbrev add_plane : ℕ → List ℕ → List ℕ
  add_plane i = over (add_row i) 0 blocal

  abbrev no_elements : List Moved
  no_elements = ((extent ∷ [], points []), points [], 0) ∷ []

  abbrev all_at_once : List Moved
  all_at_once = ((extent ∷ [], everything), in_file, 0) ∷ []

  abbrev row_by_row : List Moved
  row_by_row = ((extent ∷ [], points (over add_plane 0 clocal [])), in_file, 0) ∷ []

  field-empty : clocal * blocal * alocal == 0 ≡ true → Gives s s.calls no_elements field
  unfolding field_layout0_transfer select_filespace
  field-empty e =
      search
        (
          simple_rules,
          int_fits (clocal * cstride) bounds.extent,
          int_fits (clocal * blocal) bounds.columns,
          int_fits (clocal * blocal * alocal) bounds.elements,
        )
        depth 20

  field-whole :
      clocal * blocal * alocal == 0 ≡ false → has_gaps ≡ false → Gives s s.calls all_at_once field
  unfolding field_layout0_transfer select_filespace
  field-whole filled dense =
      search
        (
          simple_rules,
          int_fits (clocal * cstride) bounds.extent,
          int_fits (clocal * blocal) bounds.columns,
          int_fits (clocal * blocal * alocal) bounds.elements,
        )
        depth 20

  planes_chosen : Chooses s mem (extent ∷ []) (over add_plane 0 clocal) (
      for_from 0 clocal λ i. for_from 0 blocal λ j. do
        in_int (i * cstride + j * bstride)
        select_run mem (i * cstride + j * bstride) astride alocal)
  planes_chosen = Chooses-for_from s mem (extent ∷ []) add_plane _ 0 clocal λ i li.
      Chooses-for_from s mem (extent ∷ []) (add_row i) _ 0 blocal λ j lj.
        Chooses-in_int s mem (extent ∷ []) _ _ _
          (start_fits i j (omega (arith, li)) (omega (arith, lj)))
          (Chooses-select_run s mem (extent ∷ []) grants (i * cstride + j * bstride) astride alocal
            bounds.rising)
    where
      start_fits : (i j : ℕ) → i < clocal → j < blocal → i * cstride + j * bstride ≤ int_limit
      start_fits i j li lj = omega (arith, bounds.offsets i j li lj)

  field-rows :
      clocal * blocal * alocal == 0 ≡ false → has_gaps ≡ true → Gives s s.calls row_by_row field
  unfolding field_layout0_transfer select_filespace
  field-rows filled gaps =
      search
        (
          simple_rules,
          int_fits (clocal * cstride) bounds.extent,
          int_fits (clocal * blocal) bounds.columns,
          int_fits (clocal * blocal * alocal) bounds.elements,
          Gives-reset_selection,
          planes_chosen,
        )
        depth 30 fits 20000

  -- The elements of the field.
  abbrev local_elements : List (ℕ × List ℕ)
  local_elements =
      field_elements type_size cstart clocal cstride bstart blocal bstride astart alocal astride
        indices

  empty-elements : clocal * blocal * alocal ≡ 0 → [] ≡ local_elements
  empty-elements e = sym (grid-empty clocal blocal alocal _ e)

  filled-elements :
      clocal * blocal * alocal == 0 ≡ false
      → astride ≡ 1
      → bstride ≡ astride * alocal
      → cstride ≡ bstride * blocal
      → all_elements type_size all_at_once ≡ local_elements
  filled-elements filled dense_a dense_b dense_c =
      ap
        (λ b.
          all_elements type_size
            ((((if b then 1 else clocal * cstride) ∷ [], everything), in_file, 0) ∷ []))
        filled
      ∙ whole-elements type_size cstart clocal cstride bstart blocal bstride astart alocal astride
          dense_a dense_b dense_c

  gaps-elements :
      ((k : ℕ) → k < alocal → k * astride < bstride)
      → ((j k : ℕ) → j < blocal → k < alocal → j * bstride + k * astride < cstride)
      → all_elements type_size row_by_row ≡ local_elements
  gaps-elements apart_b apart_c =
      ap (λ l. pairs (map place l) (places in_file)) in_memory
      ∙ ap (λ l. pairs l (places in_file)) (map-grid place clocal blocal alocal position)
      ∙ ap (pairs (grid clocal blocal alocal λ i j k. place (position i j k)))
          (coordinates-grid cstart bstart astart clocal blocal alocal)
      ∙ pairs-grid clocal blocal alocal (λ i j k. place (position i j k))
          (λ i j k. indices (i + cstart) (j + bstart) (k + astart))
      ∙ grid_cong clocal blocal alocal _ _
          (λ i j k t. (at_place i j k t, indices (i + cstart) (j + bstart) (k + astart)))
    where
      place : ℕ → ℕ
      place p = 0 + type_size * p

      position : ℕ → ℕ → ℕ → ℕ
      position i j k = k * astride + (i * cstride + j * bstride)

      at_place :
          (i j k : ℕ)
          → place (position i j k) ≡ type_size * (i * cstride + j * bstride + k * astride)
      at_place i j k = zero-add (type_size * position i j k) ∙ ap (λ t. type_size * t) (omega arith)

      next_row : (i j : ℕ) → i * cstride + (j + 1) * bstride ≡ i * cstride + j * bstride + bstride
      next_row i j = rw (add-mul j 1 bstride, one-mul bstride) (omega arith)

      adds :
          (i : ℕ) (ps : List ℕ)
          → All (λ q. q < i * cstride) ps
          → add_plane i ps ≡ ps ++ each 0 blocal λ j. each 0 alocal λ k. position i j k ∷ []
      adds i ps a =
          over-plane extent bstride astride alocal (λ j. i * cstride + j * bstride) bounds.rising
            apart_b (next_row i) blocal ps (rw (zero-mul bstride, add-zero (i * cstride)) a)

      below :
          (i : ℕ)
          → All
              (λ q. q < (i + 1) * cstride)
              (each 0 blocal λ j. each 0 alocal λ k. position i j k ∷ [])
      below i =
          All-each (λ q. q < (i + 1) * cstride) (λ j. each 0 alocal λ k. position i j k ∷ []) 0
            blocal
            λ j l.
              All-each (λ q. q < (i + 1) * cstride) (λ k. position i j k ∷ []) 0 alocal
                λ k m. (
                  rw (add-mul i 1 cstride, one-mul cstride)
                      (omega (arith, apart_c j k (omega (arith, l)) (omega (arith, m)))),
                  tt,
                )

      in_memory : over add_plane 0 clocal [] ≡ grid clocal blocal alocal position
      in_memory =
          over-rows add_plane (λ i. each 0 blocal λ j. each 0 alocal λ k. position i j k ∷ [])
            (λ i. i * cstride) 0 clocal [] adds below (λ i. rw (add-mul i 1 cstride) (omega arith))
            tt

  carries :
      (k : List Moved)
      → all_elements type_size k ≡ local_elements
      → Gives s s.calls k field
      → Carries s type_size local_elements (field s)
  carries k e gives = Succeeds-Carries s type_size k local_elements (field s) e gives.at

  -- Where HDF5 grants the spaces, the selections and the transfers that are asked for, the
  -- elements of a row in memory are a positive stride apart, the rows, and the planes of rows, do
  -- not reach into the next, and no int expression overflows, the transfer of a field of layout 0
  -- succeeds and moves exactly the local elements of the field in row-major order, each between
  -- its strided offset in the buffer and its global indices in the file, also where there are no
  -- elements.
  pub field_layout0_transfer-Carries :
      ((k : ℕ) → k < alocal → k * astride < bstride)
      → ((j k : ℕ) → j < blocal → k < alocal → j * bstride + k * astride < cstride)
      → Carries s type_size
          (field_elements type_size cstart clocal cstride bstart blocal bstride astart alocal
            astride indices)
          (field_layout0_transfer direction plist_id dset_id cstart clocal cstride bstart blocal
            bstride astart alocal astride type_id s)
  field_layout0_transfer-Carries apart_b apart_c =
      elim (Bool-cases (clocal * blocal * alocal == 0)) [
        | inl e ↦ carries no_elements (empty-elements ((==_iff _ _).0 e)) (field-empty e)
        | inr filled ↦ elim (Bool-cases has_gaps) [
          | inl gaps ↦ carries row_by_row (gaps-elements apart_b apart_c) (field-rows filled gaps)
          | inr dense ↦
              carries all_at_once
                (filled-elements filled ((==_iff _ _).0 (ground arith))
                  ((==_iff _ _).0 (ground arith)) ((==_iff _ _).0 (ground arith)))
                (field-whole filled dense)
        ]
      ]
