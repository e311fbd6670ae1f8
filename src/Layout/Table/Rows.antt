-- ===== src/Layout/Table/Rows.antt =====
-- The functions of the row of a layout in the table `esio_field_layout` of esio/esio.c, where HDF5
-- makes a space and takes the chunk sizes.
use esio.Prelude.{
  refl, ℤ, pos, negsuc, is_neg, ltb_ℤ, ℕ, zero, suc, ◌≡◌, true, false, List, arith, sym, ◌*◌, [],
  ◌∷◌, ◌≤◌,
}
use mathlib.Core.Path.{subst}
use esio.Layout.Pencils.Trace.{int_fits}
use esio.Io.{Machine, Outcome, Proc, screate_simple, pset_chunk, ◌>>=◌, int_limit}
use esio.Io.Granted.{EndsIn, called}
use esio.Layout.Table.{
  field_layout_count, field_layout, row_or_undefined, row_index, create_filespace, set_chunks,
  field_layout0_filespace_creator, field_layout1_filespace_creator, field_layout2_filespace_creator,
  field_layout0_dataset_chunker, field_layout1_dataset_chunker, field_layout2_dataset_chunker,
}

module _ {Q : Outcome ℤ ℤ × Machine → Type 0} {s : Machine} (f : ℤ → Proc ℤ ℤ) where
  -- The index in the row of a layout is that of the layout.
  pub EndsIn-row_index_bind :
      (layout_index : ℤ)
      → is_neg layout_index ≡ false
      → ltb_ℤ layout_index field_layout_count ≡ true
      → EndsIn Q s (f layout_index)
      → EndsIn Q s (row_index layout_index >>= f)
  unfolding row_index row_or_undefined field_layout field_layout_count
  EndsIn-row_index_bind (pos zero) valid known g = record { ends = g.ends }
  EndsIn-row_index_bind (pos (suc zero)) valid known g = record { ends = g.ends }
  EndsIn-row_index_bind (pos (suc (suc zero))) valid known g = record { ends = g.ends }
  EndsIn-row_index_bind (pos (suc (suc (suc i)))) valid known g = absurd (ground arith)
  EndsIn-row_index_bind (negsuc i) valid known g = absurd (ground arith)

  module _ (layout_index : ℤ) (cglobal bglobal aglobal : ℕ) where
    made :
        (space : ℤ) (extents : List ℕ)
        → ((extents : List ℕ) → s.env.status s.calls (screate_simple extents) ≡ space)
        → ((extents : List ℕ) → EndsIn Q (called s (screate_simple extents) space) (f space))
        → Q (
            f
              (s.env.status s.calls (screate_simple extents))
              (called s (screate_simple extents) (s.env.status s.calls (screate_simple extents))))
    made space extents e g =
        subst (λ r. Q (f r (called s (screate_simple extents) r))) (sym (e extents))
          (g extents).ends

    pub EndsIn-create_filespace_bind :
        (space : ℤ)
        → (layout_index ≡ pos 2 → cglobal * bglobal ≤ int_limit)
        → is_neg layout_index ≡ false
        → ltb_ℤ layout_index field_layout_count ≡ true
        → ((extents : List ℕ) → s.env.status s.calls (screate_simple extents) ≡ space)
        → ((extents : List ℕ) → EndsIn Q (called s (screate_simple extents) space) (f space))
        → EndsIn Q s (create_filespace layout_index cglobal bglobal aglobal >>= f)
    unfolding create_filespace row_or_undefined field_layout field_layout_count
        field_layout0_filespace_creator field_layout1_filespace_creator
        field_layout2_filespace_creator
    EndsIn-create_filespace_bind space rows_fit valid known e g = record {
      ends = by layout_index valid known rows_fit;
    }
      where
        by :
            (i : ℤ)
            → is_neg i ≡ false
            → ltb_ℤ i field_layout_count ≡ true
            → (i ≡ pos 2 → cglobal * bglobal ≤ int_limit)
            → Q ((create_filespace i cglobal bglobal aglobal >>= f) s)
        by (pos zero) v k l = made space (cglobal ∷ bglobal ∷ aglobal ∷ []) e g
        by (pos (suc zero)) v k l = made space (cglobal ∷ bglobal ∷ aglobal ∷ []) e g
        by (pos (suc (suc zero))) v k l =
            rw (int_fits (cglobal * bglobal) (l refl))
              (made space (cglobal * bglobal ∷ aglobal ∷ []) e g)
        by (pos (suc (suc (suc i)))) v k l = absurd (ground arith)
        by (negsuc i) v k l = absurd (ground arith)

    pub EndsIn-set_chunks_bind :
        (dcpl_id : ℤ)
        → (layout_index ≡ pos 2 → cglobal * bglobal ≤ int_limit)
        → is_neg layout_index ≡ false
        → ltb_ℤ layout_index field_layout_count ≡ true
        → ((chunks : List ℕ)
            → EndsIn Q
                (called s
                  (pset_chunk dcpl_id chunks)
                  (s.env.status s.calls (pset_chunk dcpl_id chunks)))
                (f (s.env.status s.calls (pset_chunk dcpl_id chunks))))
        → EndsIn Q s (set_chunks layout_index dcpl_id cglobal bglobal aglobal >>= f)
    unfolding set_chunks row_or_undefined field_layout field_layout_count
        field_layout0_dataset_chunker field_layout1_dataset_chunker field_layout2_dataset_chunker
    EndsIn-set_chunks_bind dcpl_id chunks_fit valid known g = record {
      ends = by layout_index valid known chunks_fit;
    }
      where
        by :
            (i : ℤ)
            → is_neg i ≡ false
            → ltb_ℤ i field_layout_count ≡ true
            → (i ≡ pos 2 → cglobal * bglobal ≤ int_limit)
            → Q ((set_chunks i dcpl_id cglobal bglobal aglobal >>= f) s)
        by (pos zero) v k l = (g (cglobal ∷ bglobal ∷ aglobal ∷ [])).ends
        by (pos (suc zero)) v k l = (g (cglobal ∷ bglobal ∷ aglobal ∷ [])).ends
        by (pos (suc (suc zero))) v k l =
            rw (int_fits (cglobal * bglobal) (l refl)) (g (cglobal * bglobal ∷ aglobal ∷ [])).ends
        by (pos (suc (suc (suc i)))) v k l = absurd (ground arith)
        by (negsuc i) v k l = absurd (ground arith)
