-- ===== src/Layout/Simple/Planes.antt =====
-- What the transfer of a plane moves, esio/x-plane.c, when HDF5 grants all that it asks for.
use esio.Prelude.{
  ℤ, ℕ, ◌+◌, ◌*◌, ◌<◌, ◌≡◌, refl, sym, ap, ◌∙◌, inl, inr, true, false, not, ◌||◌, List, [], ◌∷◌,
  map, arith, ◌==◌, if◌then◌else◌, ==_iff, Bool-cases, ◌≤◌,
}
use esio.Io.{Direction, Machine, Proc, for_from, int_limit}
use native.Mathlib.Nat.{zero-add, mul-one, one-mul, add-mul}
use esio.Layout.Simple.{plane_transfer, select_filespace, select_run}
use esio.Layout.Pencils.Positions.{Selected, each, positions, unite, everything, hyperslab, points}
use esio.Layout.Pencils.Positions.Union.{over}
use esio.Layout.Pencils.Trace.{Moved, Grants, int_fits}
use esio.Layout.Pencils.Asked.{Gives}
use esio.Layout.Pencils.Exact.{simple_rules}
use esio.Layout.Pencils.Elements.{each_cong, map-each, pairs, places, all_elements, each-map}
use esio.Layout.Pencils.Indices.{rows}
use esio.Layout.Pencils.Carries.{Carries, Succeeds-Carries}
use esio.Layout.Simple.Choosing.{
  run, Chooses, Chooses-for_from, Chooses-select_run, Gives-reset_selection,
}
use esio.Layout.Simple.Ordered.{over-plane, each-empty, pairs-rows}

-- Each element of a plane, with its place in memory and in the file.
abbrev pub plane_elements : ℕ → ℕ → ℕ → ℕ → ℕ → ℕ → ℕ → List (ℕ × List ℕ)
plane_elements type_size bstart blocal bstride astart alocal astride = each 0 blocal λ j.
    each 0 alocal
      λ k. (type_size * (j * bstride + k * astride), (j + bstart) ∷ (k + astart) ∷ []) ∷ []

module _ (s : Machine) (direction : Direction) (plist_id dset_id type_id mem file : ℤ)
    (type_size : ℕ) (grants : Grants s.env dset_id type_id mem file type_size)
    (bstart blocal bstride astart alocal astride : ℕ) (extent_fits : blocal * bstride ≤ int_limit)
    (elements_fit : blocal * alocal ≤ int_limit) (rising : 0 < astride) where
  -- The extents of the memory.
  abbrev extent : ℕ
  extent = if blocal * alocal == 0 then 1 else blocal * bstride

  abbrev plane : Proc ℤ ℤ
  plane =
      plane_transfer direction plist_id dset_id bstart blocal bstride astart alocal astride type_id

  -- The block of the plane in the file.
  abbrev in_file : Selected
  in_file = hyperslab (bstart ∷ astart ∷ [], [], blocal ∷ alocal ∷ [])

  -- The loop that selects the rows in memory.
  abbrev add_row : ℕ → List ℕ → List ℕ
  add_row j ps = unite ps (run (extent ∷ []) (j * bstride) astride alocal)

  abbrev no_elements : List Moved
  no_elements = ((extent ∷ [], points []), points [], 0) ∷ []

  abbrev all_at_once : List Moved
  all_at_once = ((extent ∷ [], everything), in_file, 0) ∷ []

  abbrev row_by_row : List Moved
  row_by_row = ((extent ∷ [], points (over add_row 0 blocal [])), in_file, 0) ∷ []

  plane-empty : blocal * alocal == 0 ≡ true → Gives s s.calls no_elements plane
  unfolding plane_transfer select_filespace
  plane-empty e =
      search
        (
          simple_rules,
          int_fits (blocal * bstride) extent_fits,
          int_fits (blocal * alocal) elements_fit,
        )
        depth 20

  plane-whole :
      blocal * alocal == 0 ≡ false
      → not (astride == 1) || not (bstride == astride * alocal) ≡ false
      → Gives s s.calls all_at_once plane
  unfolding plane_transfer select_filespace
  plane-whole filled dense =
      search
        (
          simple_rules,
          int_fits (blocal * bstride) extent_fits,
          int_fits (blocal * alocal) elements_fit,
        )
        depth 20

  rows_chosen :
      Chooses s mem
        (extent ∷ [])
        (over add_row 0 blocal)
        (for_from 0 blocal λ j. select_run mem (j * bstride) astride alocal)
  rows_chosen =
      Chooses-for_from s mem (extent ∷ []) add_row _ 0 blocal
        λ j l. Chooses-select_run s mem (extent ∷ []) grants (j * bstride) astride alocal rising

  plane-rows :
      blocal * alocal == 0 ≡ false
      → not (astride == 1) || not (bstride == astride * alocal) ≡ true
      → Gives s s.calls row_by_row plane
  unfolding plane_transfer select_filespace
  plane-rows filled gaps =
      search
        (
          simple_rules,
          int_fits (blocal * bstride) extent_fits,
          int_fits (blocal * alocal) elements_fit,
          Gives-reset_selection,
          rows_chosen,
        )
        depth 30 fits 20000

  plane_places :
      places in_file ≡ each 0 blocal λ j. each 0 alocal λ k. ((j + bstart) ∷ (k + astart) ∷ []) ∷ []
  plane_places =
      each_cong 0 blocal _ _ λ j. map-each (λ r. (j + bstart) ∷ r) 0 alocal (λ k. (k + astart) ∷ [])

  -- Memory that is selected row by row, with each element at its place.
  rows-elements :
      (memory : Selected) (position : ℕ → ℕ → ℕ)
      → positions (extent ∷ [], memory) ≡ (each 0 blocal λ j. each 0 alocal λ k. position j k ∷ [])
      → ((j k : ℕ) → position j k ≡ j * bstride + k * astride)
      → all_elements type_size (((extent ∷ [], memory), in_file, 0) ∷ [])
        ≡ plane_elements type_size bstart blocal bstride astart alocal astride
  rows-elements memory position e same =
      ap (λ l. pairs (map place l) (places in_file)) e
      ∙ ap (λ l. pairs l (places in_file)) (map-grid_row place position)
      ∙ ap (pairs (each 0 blocal λ j. each 0 alocal λ k. place (position j k) ∷ [])) plane_places
      ∙ pairs-rows blocal alocal (λ j k. place (position j k))
          (λ j k. (j + bstart) ∷ (k + astart) ∷ [])
      ∙ each_cong 0 blocal _ _
          λ j. each_cong 0 alocal _ _ λ k t. (at_place j k t, (j + bstart) ∷ (k + astart) ∷ []) ∷ []
    where
      place : ℕ → ℕ
      place p = 0 + type_size * p

      at_place : (j k : ℕ) → place (position j k) ≡ type_size * (j * bstride + k * astride)
      at_place j k = zero-add (type_size * position j k) ∙ ap (λ t. type_size * t) (same j k)

      map-grid_row :
          (h : ℕ → ℕ) (f : ℕ → ℕ → ℕ)
          → map h (each 0 blocal λ j. each 0 alocal λ k. f j k ∷ [])
            ≡ each 0 blocal λ j. each 0 alocal λ k. h (f j k) ∷ []
      map-grid_row h f =
          each-map h 0 blocal (λ j. each 0 alocal λ k. f j k ∷ [])
          ∙ each_cong 0 blocal _ _ λ j. map-each h 0 alocal (f j)

  whole-elements :
      blocal * alocal == 0 ≡ false
      → astride ≡ 1
      → bstride ≡ astride * alocal
      → all_elements type_size all_at_once
        ≡ plane_elements type_size bstart blocal bstride astart alocal astride
  whole-elements filled dense_a dense_b =
      rows-elements everything (λ j k. k + j * alocal)
        (ap (λ b. each 0 ((if b then 1 else blocal * bstride) * 1) (λ p. p ∷ [])) filled
          ∙ ap (λ n. each 0 n (λ p. p ∷ []))
              (mul-one (blocal * bstride) ∙ ap (λ t. blocal * t) dense)
          ∙ rows blocal alocal (λ p. p ∷ []))
        (λ j k. rw (dense, dense_a, mul-one k) (omega arith))
    where
      dense : bstride ≡ alocal
      dense = dense_b ∙ ap (λ t. t * alocal) dense_a ∙ one-mul alocal

  gaps-elements :
      ((k : ℕ) → k < alocal → k * astride < bstride)
      → all_elements type_size row_by_row
        ≡ plane_elements type_size bstart blocal bstride astart alocal astride
  gaps-elements apart =
      rows-elements (points (over add_row 0 blocal [])) (λ j k. k * astride + j * bstride)
        (over-plane extent bstride astride alocal (λ j. j * bstride) rising apart next_row blocal []
          tt)
        (λ j k. omega arith)
    where
      next_row : (j : ℕ) → (j + 1) * bstride ≡ j * bstride + bstride
      next_row j = rw (add-mul j 1 bstride, one-mul bstride) refl

  carries :
      (k : List Moved)
      → all_elements type_size k
        ≡ plane_elements type_size bstart blocal bstride astart alocal astride
      → Gives s s.calls k plane
      → Carries s type_size
          (plane_elements type_size bstart blocal bstride astart alocal astride)
          (plane s)
  carries k e gives =
      Succeeds-Carries s type_size k
        (plane_elements type_size bstart blocal bstride astart alocal astride) (plane s) e gives.at

  -- Where HDF5 grants the spaces, the selections and the transfers that are asked for, the
  -- elements of a row in memory are a positive stride apart, the rows do not reach into the next,
  -- and no product of sizes exceeds INT_MAX, the transfer of a plane succeeds and moves exactly
  -- its local elements in row-major order, each between its strided offset in the buffer and its
  -- global indices in the file, also where there are no elements.
  pub plane_transfer-Carries :
      ((k : ℕ) → k < alocal → k * astride < bstride)
      → Carries s type_size (plane_elements type_size bstart blocal bstride astart alocal astride) (
          plane_transfer direction plist_id dset_id bstart blocal bstride astart alocal astride
            type_id s)
  plane_transfer-Carries apart = elim (Bool-cases (blocal * alocal == 0)) [
    | inl e ↦
        carries no_elements (sym (each-empty blocal alocal _ ((==_iff _ _).0 e))) (plane-empty e)
    | inr filled ↦ elim (Bool-cases (not (astride == 1) || not (bstride == astride * alocal))) [
      | inl gaps ↦ carries row_by_row (gaps-elements apart) (plane-rows filled gaps)
      | inr dense ↦
          carries all_at_once
            (whole-elements filled ((==_iff _ _).0 (ground arith)) ((==_iff _ _).0 (ground arith)))
            (plane-whole filled dense)
    ]
  ]
