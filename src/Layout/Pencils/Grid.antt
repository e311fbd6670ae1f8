-- ===== src/Layout/Pencils/Grid.antt =====
-- The elements that the layouts 1 and 2 move, against the definition of a field in memory and in the
-- file: esio/x-layout1.c and esio/x-layout2.c.
use esio.Prelude.{
  ℕ, ◌+◌, ◌*◌, ◌≡◌, refl, sym, ap, ◌∙◌, Bool, true, false, ◌&&◌, List, [], ◌∷◌, arith, ◌==◌,
  if◌then◌else◌, ==_iff,
}
use native.Mathlib.Nat.{zero-add, mul-one, mul_comm, mul-add, zero-mul, one-mul}
use esio.Layout.Pencils.Positions.{each, coordinates, linear}
use esio.Layout.Pencils.Trace.{rounds}
use esio.Layout.Pencils.Exact.{pencil1, pencils1, pencil2, pencils2, whole}
use esio.Layout.Pencils.Elements.{
  each_cong, map-each, pairs, all_elements, all_elements-rounds, coordinates-pencil2,
  coordinates-pencil3, elements-pencil,
}
use esio.Layout.Pencils.Indices.{grid, grid_cong, pairs-grid, coordinates-grid, positions-grid}

-- The place of an element in a file of layout 1, and in one of layout 2, where the two slow indices
-- are one.
abbrev pub indices : ℕ → ℕ → ℕ → List ℕ
indices c b a = c ∷ b ∷ a ∷ []

abbrev pub flattened : ℕ → ℕ → ℕ → ℕ → List ℕ
flattened bglobal c b a = (b + c * bglobal) ∷ a ∷ []

module _ (type_size : ℕ)
    (cstart clocal cstride bstart blocal bstride astart alocal astride : ℕ) where
  -- Each element of a field, with its place in memory and `place` of its indices in the file.
  abbrev pub field_elements : (ℕ → ℕ → ℕ → List ℕ) → List (ℕ × List ℕ)
  field_elements place = each 0 clocal λ i. each 0 blocal λ j. each 0 alocal λ k.
      (
        type_size * (i * cstride + j * bstride + k * astride),
        place (i + cstart) (j + bstart) (k + astart),
      )
      ∷ []

  -- The place of the k-th element in its pencil.
  pencil_place :
      (i j k extent : ℕ)
      → type_size * (j * bstride + i * cstride) + type_size * (0 * extent + (k * astride + 0))
        ≡ type_size * (i * cstride + j * bstride + k * astride)
  pencil_place i j k extent =
      sym (mul-add type_size (j * bstride + i * cstride) (0 * extent + (k * astride + 0)))
      ∙ ap (λ t. type_size * t) (omega arith)

  pencil1-elements :
      (i j : ℕ)
      → all_elements type_size
          (pencil1 astart alocal astride type_size cstart clocal cstride bstart blocal bstride i j)
        ≡ each 0 alocal λ k.
          (
            type_size * (i * cstride + j * bstride + k * astride),
            ((i + cstart) ∷ (j + bstart) ∷ (k + astart) ∷ []),
          )
          ∷ []
  pencil1-elements i j =
      elements-pencil type_size (type_size * (j * bstride + i * cstride)) alocal
        (1 ∷ 1 ∷ astride * alocal ∷ []) (0 ∷ 0 ∷ 0 ∷ []) (1 ∷ 1 ∷ astride ∷ [])
        (1 ∷ 1 ∷ alocal ∷ []) ((i + cstart) ∷ (j + bstart) ∷ astart ∷ []) (1 ∷ 1 ∷ 1 ∷ [])
        (1 ∷ 1 ∷ alocal ∷ []) (λ k. (0 * 1 + 0) ∷ (0 * 1 + 0) ∷ (k * astride + 0) ∷ [])
        (λ k. (0 * 1 + (i + cstart)) ∷ (0 * 1 + (j + bstart)) ∷ (k * 1 + astart) ∷ [])
        (coordinates-pencil3 0 0 0 1 1 astride alocal)
        (coordinates-pencil3 (i + cstart) (j + bstart) astart 1 1 1 alocal)
      ∙ each_cong 0 alocal _ _ (λ k t. (pencil_place i j k (astride * alocal) t, place k t) ∷ [])
    where
      place :
          (k : ℕ)
          → (0 * 1 + (i + cstart)) ∷ (0 * 1 + (j + bstart)) ∷ (k * 1 + astart) ∷ []
            ≡ (i + cstart) ∷ (j + bstart) ∷ (k + astart) ∷ []
      place k = rw (zero-add (i + cstart), zero-add (j + bstart), mul-one k) refl

  pencils1-elements :
      all_elements type_size
        (pencils1 astart alocal astride type_size cstart clocal cstride bstart blocal bstride)
      ≡ field_elements indices
  pencils1-elements =
      all_elements-rounds type_size
        (λ i.
          rounds
            (pencil1 astart alocal astride type_size cstart clocal cstride bstart blocal bstride i)
            0 blocal)
        0 clocal
      ∙ each_cong 0 clocal _ _ λ i.
        all_elements-rounds type_size
          (pencil1 astart alocal astride type_size cstart clocal cstride bstart blocal bstride i) 0
          blocal
        ∙ each_cong 0 blocal _ _ (pencil1-elements i)

  pencil2-elements :
      (bglobal i j : ℕ)
      → all_elements type_size (
          pencil2 astart alocal astride type_size cstart clocal cstride bstart blocal bstride
            bglobal i j)
        ≡ each 0 alocal λ k.
          (
            type_size * (i * cstride + j * bstride + k * astride),
            ((j + bstart + (i + cstart) * bglobal) ∷ (k + astart) ∷ []),
          )
          ∷ []
  pencil2-elements bglobal i j =
      elements-pencil type_size (type_size * (j * bstride + i * cstride)) alocal
        (1 ∷ astride * alocal ∷ []) (0 ∷ 0 ∷ []) (bstride ∷ astride ∷ []) (1 ∷ alocal ∷ [])
        ((j + bstart + (i + cstart) * bglobal) ∷ astart ∷ []) (1 ∷ 1 ∷ []) (1 ∷ alocal ∷ [])
        (λ k. (0 * bstride + 0) ∷ (k * astride + 0) ∷ [])
        (λ k. (0 * 1 + (j + bstart + (i + cstart) * bglobal)) ∷ (k * 1 + astart) ∷ [])
        (coordinates-pencil2 0 0 bstride astride alocal)
        (coordinates-pencil2 (j + bstart + (i + cstart) * bglobal) astart 1 1 alocal)
      ∙ each_cong 0 alocal _ _ (λ k t. (memory k t, place k t) ∷ [])
    where
      memory :
          (k : ℕ)
          → type_size * (j * bstride + i * cstride)
              + type_size
                * linear 0 (1 ∷ astride * alocal ∷ []) ((0 * bstride + 0) ∷ (k * astride + 0) ∷ [])
            ≡ type_size * (i * cstride + j * bstride + k * astride)
      memory k = rw (zero-mul bstride) (pencil_place i j k (astride * alocal))

      place :
          (k : ℕ)
          → (0 * 1 + (j + bstart + (i + cstart) * bglobal)) ∷ (k * 1 + astart) ∷ []
            ≡ (j + bstart + (i + cstart) * bglobal) ∷ (k + astart) ∷ []
      place k = rw (zero-add (j + bstart + (i + cstart) * bglobal), mul-one k) refl

  pub pencils2-elements :
      (bglobal : ℕ)
      → all_elements type_size (
          pencils2 astart alocal astride type_size cstart clocal cstride bstart blocal bstride
            bglobal)
        ≡ field_elements (flattened bglobal)
  pencils2-elements bglobal =
      all_elements-rounds type_size
        (λ i.
          rounds
            (pencil2 astart alocal astride type_size cstart clocal cstride bstart blocal bstride
              bglobal i)
            0 blocal)
        0 clocal
      ∙ each_cong 0 clocal _ _ λ i.
        all_elements-rounds type_size
          (pencil2 astart alocal astride type_size cstart clocal cstride bstart blocal bstride
            bglobal i)
          0 blocal
        ∙ each_cong 0 blocal _ _ (pencil2-elements bglobal i)

  pub whole-elements :
      astride ≡ 1
      → bstride ≡ astride * alocal
      → cstride ≡ bstride * blocal
      → all_elements type_size
          (whole (clocal * cstride) (cstart ∷ bstart ∷ astart ∷ []) (clocal ∷ blocal ∷ alocal ∷ []))
        ≡ field_elements indices
  whole-elements dense_a dense_b dense_c =
      ap
        (λ l.
          pairs l (coordinates (cstart ∷ bstart ∷ astart ∷ []) [] (clocal ∷ blocal ∷ alocal ∷ [])))
        (map-each (λ p. 0 + type_size * p) 0 (clocal * cstride * 1) (λ p. p)
          ∙ ap (λ t. each 0 t (λ p. (0 + type_size * p) ∷ []))
              (mul-one (clocal * cstride) ∙ ap (λ t. clocal * t) dense)
          ∙ positions-grid clocal blocal alocal (λ p. 0 + type_size * p))
      ∙ ap
          (λ l.
            pairs
              (grid clocal blocal alocal
                λ i j k. 0 + type_size * (k + j * alocal + i * (blocal * alocal)))
              l)
          (coordinates-grid cstart bstart astart clocal blocal alocal)
      ∙ pairs-grid clocal blocal alocal
          (λ i j k. 0 + type_size * (k + j * alocal + i * (blocal * alocal)))
          (λ i j k. (i + cstart) ∷ (j + bstart) ∷ (k + astart) ∷ [])
      ∙ grid_cong clocal blocal alocal _ _
          (λ i j k t. (place i j k t, (i + cstart) ∷ (j + bstart) ∷ (k + astart) ∷ []))
    where
      pencil_dense : bstride ≡ alocal
      pencil_dense = dense_b ∙ ap (λ t. t * alocal) dense_a ∙ one-mul alocal

      dense : cstride ≡ blocal * alocal
      dense = dense_c ∙ ap (λ t. t * blocal) pencil_dense ∙ mul_comm alocal blocal

      place :
          (i j k : ℕ)
          → 0 + type_size * (k + j * alocal + i * (blocal * alocal))
            ≡ type_size * (i * cstride + j * bstride + k * astride)
      place i j k =
          rw (dense, pencil_dense, dense_a, mul-one k)
            (zero-add _ ∙ ap (λ t. type_size * t) (omega arith))

  pub choice-elements :
      (a b c : Bool)
      → astride == 1 ≡ a
      → bstride == astride * alocal ≡ b
      → cstride == bstride * blocal ≡ c
      → all_elements type_size (
          if a && b && c
          then whole
              (clocal * cstride)
              (cstart ∷ bstart ∷ astart ∷ [])
              (clocal ∷ blocal ∷ alocal ∷ [])
          else pencils1 astart alocal astride type_size cstart clocal cstride bstart blocal bstride)
        ≡ field_elements indices
  choice-elements false b c dense_a dense_b dense_c = pencils1-elements
  choice-elements true false c dense_a dense_b dense_c = pencils1-elements
  choice-elements true true false dense_a dense_b dense_c = pencils1-elements
  choice-elements true true true dense_a dense_b dense_c =
      whole-elements ((==_iff _ _).0 dense_a) ((==_iff _ _).0 dense_b) ((==_iff _ _).0 dense_c)
