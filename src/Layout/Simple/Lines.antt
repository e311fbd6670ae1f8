-- ===== src/Layout/Simple/Lines.antt =====
-- What the transfer of a line moves, esio/x-line.c, when HDF5 grants all that it asks for.
use esio.Prelude.{
  ℤ, ℕ, ◌+◌, ◌*◌, ◌≡◌, refl, ap, ◌∙◌, inl, inr, true, false, not, List, [], ◌∷◌, map, arith, ◌==◌,
  if◌then◌else◌, ==_iff, Bool-cases, ◌≤◌, ◌<◌, All,
}
use esio.Io.{Direction, Machine, int_limit}
use native.Mathlib.Nat.{zero-add, mul-one}
use esio.Layout.Simple.{line_transfer, select_filespace}
use esio.Layout.Pencils.Positions.{each, everything, hyperslab, points}
use esio.Layout.Pencils.Trace.{Moved, Grants, int_fits}
use esio.Layout.Pencils.Asked.{Gives}
use esio.Layout.Pencils.Exact.{simple_rules}
use esio.Layout.Pencils.Elements.{
  each_cong, map-each, pairs, all_elements, pairs-each, elements-pencil,
}
use esio.Layout.Pencils.Carries.{Carries, Succeeds-Carries}

-- Each element of a line, with its place in memory and in the file.
abbrev pub line_elements : ℕ → ℕ → ℕ → ℕ → List (ℕ × List ℕ)
line_elements type_size astart alocal astride =
    each 0 alocal λ k. (type_size * (k * astride), (k + astart) ∷ []) ∷ []

module _ (s : Machine) (direction : Direction) (plist_id dset_id type_id mem file : ℤ)
    (type_size : ℕ) (grants : Grants s.env dset_id type_id mem file type_size)
    (astart alocal astride : ℕ) (extent_fits : alocal * astride ≤ int_limit)
    (rising : 0 < astride) where
  -- The extents of the memory.
  abbrev extents : List ℕ
  extents = (if alocal == 0 then 1 else alocal * astride) ∷ []

  -- The one transfer, of nothing, of contiguous memory and of memory with gaps.
  abbrev no_elements : List Moved
  no_elements = ((extents, points []), points [], 0) ∷ []

  abbrev all_at_once : List Moved
  all_at_once = ((extents, everything), hyperslab (astart ∷ [], [], alocal ∷ []), 0) ∷ []

  abbrev with_gaps : List Moved
  with_gaps =
      (
        (extents, hyperslab (0 ∷ [], astride ∷ [], alocal ∷ [])),
        hyperslab (astart ∷ [], [], alocal ∷ []),
        0,
      )
      ∷ []

  strides_apart : All (λ d. 0 < d) (astride ∷ [])
  strides_apart = (rising, tt)

  line-empty :
      alocal == 0 ≡ true
      → Gives s s.calls no_elements
          (line_transfer direction plist_id dset_id astart alocal astride type_id)
  unfolding line_transfer select_filespace
  line-empty e = search (simple_rules, int_fits (alocal * astride) extent_fits) depth 20

  line-whole :
      alocal == 0 ≡ false
      → not (astride == 1) ≡ false
      → Gives s s.calls all_at_once
          (line_transfer direction plist_id dset_id astart alocal astride type_id)
  unfolding line_transfer select_filespace
  line-whole filled dense = search (simple_rules, int_fits (alocal * astride) extent_fits) depth 20

  line-strided :
      alocal == 0 ≡ false
      → not (astride == 1) ≡ true
      → Gives s s.calls with_gaps
          (line_transfer direction plist_id dset_id astart alocal astride type_id)
  unfolding line_transfer select_filespace
  line-strided filled gaps =
      search
        (
          strides_apart,
          simple_rules,
          int_fits (alocal * astride) extent_fits,
          grants.apart,
          grants.mem_positive,
        )
        depth 20

  empty-elements :
      alocal ≡ 0
      → all_elements type_size no_elements ≡ (line_elements type_size astart alocal astride)
  empty-elements e = rw e refl

  whole-elements :
      alocal == 0 ≡ false
      → astride ≡ 1
      → all_elements type_size all_at_once ≡ (line_elements type_size astart alocal astride)
  whole-elements filled dense =
      ap
        (λ b.
          pairs (map place (each 0 ((if b then 1 else alocal * astride) * 1) (λ p. p ∷ [])))
            in_file)
        filled
      ∙ ap (λ n. pairs (map place (each 0 n (λ p. p ∷ []))) in_file)
          (mul-one (alocal * astride) ∙ ap (λ t. alocal * t) dense ∙ mul-one alocal)
      ∙ ap (λ l. pairs l in_file) (map-each place 0 alocal (λ p. p))
      ∙ pairs-each 0 alocal place (λ k. (k + astart) ∷ [])
      ∙ each_cong 0 alocal _ _ (λ k t. (same k t, (k + astart) ∷ []) ∷ [])
    where
      place : ℕ → ℕ
      place p = 0 + type_size * p

      in_file : List (List ℕ)
      in_file = each 0 alocal λ k. ((k + astart) ∷ []) ∷ []

      same : (k : ℕ) → place k ≡ type_size * (k * astride)
      same k = rw (dense, mul-one k) (zero-add (type_size * k))

  strided-elements :
      all_elements type_size with_gaps ≡ (line_elements type_size astart alocal astride)
  strided-elements =
      elements-pencil type_size 0 alocal extents (0 ∷ []) (astride ∷ []) (alocal ∷ []) (astart ∷ [])
        [] (alocal ∷ []) (λ k. (k * astride + 0) ∷ []) (λ k. (k + astart) ∷ []) refl refl
      ∙ each_cong 0 alocal _ _
          (λ k t. (same k (if alocal == 0 then 1 else alocal * astride) t, (k + astart) ∷ []) ∷ [])
    where
      same :
          (k extent : ℕ)
          → 0 + type_size * (0 * extent + (k * astride + 0)) ≡ type_size * (k * astride)
      same k extent = zero-add _ ∙ ap (λ t. type_size * t) (omega arith)

  carries :
      (k : List Moved)
      → all_elements type_size k ≡ (line_elements type_size astart alocal astride)
      → Gives s s.calls k (line_transfer direction plist_id dset_id astart alocal astride type_id)
      → Carries s type_size
          (line_elements type_size astart alocal astride)
          (line_transfer direction plist_id dset_id astart alocal astride type_id s)
  carries k e gives =
      Succeeds-Carries s type_size k (line_elements type_size astart alocal astride)
        (line_transfer direction plist_id dset_id astart alocal astride type_id s) e gives.at

  -- Where HDF5 grants the spaces, the selections and the transfers that are asked for, the stride
  -- in memory is positive, and its product with the size does not exceed INT_MAX, the transfer of
  -- a line succeeds and moves exactly its local elements in order, each between its strided offset
  -- in the buffer and its global index in the file, also where there are no elements.
  pub line_transfer-Carries :
      Carries s type_size
        (line_elements type_size astart alocal astride)
        (line_transfer direction plist_id dset_id astart alocal astride type_id s)
  line_transfer-Carries = elim (Bool-cases (alocal == 0)) [
    | inl e ↦ carries no_elements (empty-elements ((==_iff _ _).0 e)) (line-empty e)
    | inr filled ↦ elim (Bool-cases (astride == 1)) [
      | inl e ↦
          carries all_at_once (whole-elements filled ((==_iff _ _).0 e))
            (line-whole filled (ap not e))
      | inr e ↦ carries with_gaps strided-elements (line-strided filled (ap not e))
    ]
  ]
