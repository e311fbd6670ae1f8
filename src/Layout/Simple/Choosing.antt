-- ===== src/Layout/Simple/Choosing.antt =====
-- The strided memory selections of esio/x-plane.c and esio/x-layout0.c, put together run by run, when
-- HDF5 grants them.
use esio.Prelude.{
  true, false, ℤ, ℕ, zero, suc, ◌+◌, ◌≡◌, refl, sym, ap, ◌∙◌, List, [], ◌∷◌, ◌<◌, ◌≤◌, arith, Bool,
  false, ltb,
}
use esio.Io.{
  Event, Machine, select_or, sselect_none, sselect_hyperslab, Outcome, Proc, continue, ◌>>=◌, ◌>>◌,
  for_from, next, int_limit, in_int, when, undefined,
}
use esio.Layout.Simple.{select_run, reset_selection}
use esio.Layout.Pencils.Positions.{positions, unite, hyperslab, points}
use esio.Layout.Pencils.Positions.Union.{over}
use esio.Layout.Pencils.Trace.{Moved, selection_of, moved, eq_ℤ_refl, Grants, int_fits}
use esio.Layout.Pencils.Asked.{Succeeds, Gives}
use mathlib.Core.Path.{subst}

-- The positions of a strided run.
abbrev pub run : List ℕ → ℕ → ℕ → ℕ → List ℕ
run extents start stride count =
    positions (extents, hyperslab (start ∷ [], stride ∷ [], count ∷ []))

-- Statements that go on, that ask for no transfer, and that make `step` of the selected points.
abbrev pub Selects : Machine → ℤ → List ℕ → List ℕ → List Event → Outcome ℤ Unit × Machine → Type 0
Selects s mem extents ps calls r =
    (left : List Event) × (r ≡ (next tt, record s { calls = left }))
    × (moved left ≡ moved calls)
    × (selection_of mem left ≡ (extents, points ps))

pub record Chooses (s : Machine) (mem : ℤ) (extents : List ℕ) (step : List ℕ → List ℕ)
    (m : Proc ℤ Unit) : Type 0 where
  pub from :
      (calls : List Event) (ps : List ℕ)
      → selection_of mem calls ≡ (extents, points ps)
      → Selects s mem extents (step ps) calls (m (record s { calls = calls }))

module _ (s : Machine) (mem : ℤ) (extents : List ℕ) where
  Chooses-then :
      (f g : List ℕ → List ℕ) (m n : Proc ℤ Unit)
      → Chooses s mem extents f m
      → Chooses s mem extents g n
      → Chooses s mem extents (λ ps. g (f ps)) (m >> n)
  Chooses-then f g m n km kn = record {
    from = λ calls ps sel.
        let (left_m, ran_m, moved_m, sel_m) = km.from calls ps sel in
        let (left_n, ran_n, moved_n, sel_n) = kn.from left_m (f ps) sel_m in
        (left_n, ap (λ r. continue r.0 (λ _. n) r.1) ran_m ∙ ran_n, moved_n ∙ moved_m, sel_n);
  }

  pub Chooses-for_from :
      (step : ℕ → List ℕ → List ℕ) (body : ℕ → Proc ℤ Unit) (start count : ℕ)
      → ((i : ℕ) → i < start + count → Chooses s mem extents (step i) (body i))
      → Chooses s mem extents (over step start count) (for_from start count body)
  unfolding for_from
  Chooses-for_from step body start zero kb = record {
    from = λ calls ps sel. (calls, refl, refl, sel);
  }
  Chooses-for_from step body start (suc count) kb =
      Chooses-then (step start) (over step (start + 1) count) (body start)
        (for_from (start + 1) count body) (kb start (omega arith))
        (Chooses-for_from step body (start + 1) count λ i l. kb i (omega (arith, l)))

  -- A statement behind an int expression.
  pub Chooses-in_int :
      (f : List ℕ → List ℕ) (m : Proc ℤ Unit) (n : ℕ)
      → n ≤ int_limit
      → Chooses s mem extents f m
      → Chooses s mem extents f (in_int n >> m)
  Chooses-in_int f m n e km = passes (ltb int_limit n) (int_fits n e)
    where
      passes : (b : Bool) → b ≡ false → Chooses s mem extents f (when b undefined >> m)
      passes false e = record { from = km.from }
      passes true e = absurd (ground arith)

  module _ {dset_id type_id file : ℤ} {type_size : ℕ}
      (grants : Grants s.env dset_id type_id mem file type_size) where
    pub Chooses-select_run :
        (start stride count : ℕ)
        → 0 < stride
        → Chooses s mem extents
            (λ ps. unite ps (run extents start stride count))
            (select_run mem start stride count)
    unfolding select_run
    Chooses-select_run start stride count rising = record {
      from = λ calls ps sel.
          let asked = sselect_hyperslab mem select_or (start ∷ []) (stride ∷ []) (count ∷ []) in
          (
            record { call = asked; result = s.env.status calls asked } ∷ calls,
            rw
                (grants.selects calls mem select_or (start ∷ []) (stride ∷ []) (count ∷ [])
                  (rising, tt))
                refl,
            refl,
            rw (eq_ℤ_refl mem, sel) refl,
          );
    }

    -- The loop behind a selection that begins with nothing.
    pub Gives-reset_selection :
        (k : List Moved) (step : List ℕ → List ℕ) (m : Proc ℤ Unit) (f : Unit → Proc ℤ ℤ)
        (calls : List Event)
        → (selection_of mem calls).0 ≡ extents
        → Chooses s mem extents step m
        → ((left : List Event)
            → moved left ≡ moved calls
            → selection_of mem left ≡ (extents, points (step []))
            → Gives s left k (f tt))
        → Gives s calls k (reset_selection mem >> m >>= f)
    unfolding reset_selection
    Gives-reset_selection k step m f calls made chooses g =
        let asked = sselect_none mem in
        let begun = record { call = asked; result = s.env.status calls asked } ∷ calls in
        let (left, ran, none_moved, sel) = chooses.from begun [] (rw (eq_ℤ_refl mem, made) refl) in
        let end = λ (r : Outcome ℤ Unit × Machine). continue {R = ℤ} r.0 f r.1 in
        record {
          at =
              rw (grants.empties calls mem)
                (subst (λ r. Succeeds s k (end r)) (sym ran) (g left none_moved sel).at);
        }
