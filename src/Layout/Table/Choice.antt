-- ===== src/Layout/Table/Choice.antt =====
-- Choosing the layout that fields are written with.
use esio.Prelude.{
  ℤ, pos, is_neg, ltb_ℤ, ◌≡◌, refl, true, false, not, ◌||◌, [], ◌∷◌, arith, if◌then◌else◌,
  replicate,
}
use esio.Io.{Handle, Machine, HandlePointer, is_null}
use esio.Error.{success, efault, einval}
use esio.Layout.Table.{field_layout_count, field_layout_set}
use esio.Io.Runs.{Runs, Ends}
use esio.Error.Runs.{runs_rules}

-- A layout was accepted: it is in the table, it is the one that is read back, and no chunk sizes
-- of the layout before are left.
pub record IsChosen (before : Handle) (i r : ℤ) (h : Handle) : Type 0 where
  pub status : r ≡ success
  pub in_table : (is_neg i ≡ false) × (ltb_ℤ i field_layout_count ≡ true)
  pub chosen : h.layout_index ≡ i
  pub no_chunks :
      (h.f.cchunk ∷ h.f.bchunk ∷ h.f.achunk ∷ h.p.bchunk ∷ h.p.achunk ∷ h.l.achunk ∷ [])
      ≡ replicate 6 (pos 0)
  pub same : h.file_id ≡ before.file_id

-- A layout was refused because it is not in the table, or the pointer is null, and nothing has changed.
pub record IsNotChosen (before : Handle) (pointer : HandlePointer) (i r : ℤ) (h : Handle)
    : Type 0 where
  pub status : r ≡ (if is_null pointer then efault else einval)
  pub reason : (is_null pointer || is_neg i || not (ltb_ℤ i field_layout_count)) ≡ true
  pub same : h ≡ before

chosen :
    (h : Handle) (i : ℤ)
    → is_neg i ≡ false
    → not (ltb_ℤ i field_layout_count) ≡ false
    → IsChosen h i success (record h {
      layout_index = i;
      f = record h.f { cchunk = pos 0; bchunk = pos 0; achunk = pos 0 };
      p = record h.p { bchunk = pos 0; achunk = pos 0 };
      l = record h.l { achunk = pos 0 };
    })
chosen h i e e' = record {
  status = refl;
  in_table = (e, ground arith);
  chosen = refl;
  no_chunks = refl;
  same = refl;
}

no_handle : (h : Handle) (p : HandlePointer) (i : ℤ) → is_null p ≡ true → IsNotChosen h p i efault h
no_handle h p i e = record { status = rw e refl; reason = rw e refl; same = refl }

negative :
    (h : Handle) (p : HandlePointer) (i : ℤ)
    → is_null p ≡ false
    → is_neg i ≡ true
    → IsNotChosen h p i einval h
negative h p i n e = record { status = rw n refl; reason = rw (n, e) refl; same = refl }

too_large :
    (h : Handle) (p : HandlePointer) (i : ℤ)
    → is_null p ≡ false
    → is_neg i ≡ false
    → not (ltb_ℤ i field_layout_count) ≡ true
    → IsNotChosen h p i einval h
too_large h p i n e e' = record { status = rw n refl; reason = rw (n, e, e') refl; same = refl }

field_layout_set-Runs :
    (h : Handle) (p : HandlePointer) (i : ℤ)
    → Runs h (field_layout_set p i) (IsChosen h i) (IsNotChosen h p i)
unfolding field_layout_set
field_layout_set-Runs h p i = search (runs_rules, no_handle, negative, too_large, chosen) depth 20

-- When field_layout_set returns, either it reports success, the layout is in the table and chosen,
-- and every cached chunk size is zero, or it reports EFAULT for a null handle and EINVAL
-- otherwise, the layout is not in the table or the handle is null, and nothing has changed.
pub field_layout_set-Ends :
    (p : HandlePointer) (i : ℤ) (s : Machine)
    → Ends
        (IsChosen s.handle i)
        (IsNotChosen s.handle p i)
        (field_layout_set p i s).0
        (field_layout_set p i s).1.handle
field_layout_set-Ends p i s = (field_layout_set-Runs s.handle p i).at s refl
