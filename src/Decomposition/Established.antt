-- ===== src/Decomposition/Established.antt =====
-- What establish stores is what established hands back.
use esio.Prelude.{ℤ, pos, is_neg, ltb_ℤ, ◌≡◌, refl, true, false, some, [], ◌∷◌}
use esio.Io.{Machine, live, next}
use esio.Error.{success, fail_if}
use esio.Decomposition.{
  line_establish, plane_establish, field_establish, line_established, plane_established,
  field_established,
}

-- With valid sizes, line_establish succeeds, and line_established then hands back those sizes.
line_established-establish :
    (s : Machine) (aglobal astart alocal : ℤ)
    → ltb_ℤ aglobal (pos 1) ≡ false
    → is_neg astart ≡ false
    → is_neg alocal ≡ false
    → ((line_establish live aglobal astart alocal s).0 ≡ next success)
      × ((line_established live true true true (line_establish live aglobal astart alocal s).1).0
          ≡ next (success, some aglobal ∷ some astart ∷ some alocal ∷ []))
unfolding line_establish line_established fail_if
line_established-establish s aglobal astart alocal e0 e1 e2 = rw (e0, e1, e2) (refl, refl)

-- With valid sizes, plane_establish succeeds, and plane_established then hands back those sizes.
plane_established-establish :
    (s : Machine) (bglobal bstart blocal aglobal astart alocal : ℤ)
    → ltb_ℤ bglobal (pos 1) ≡ false
    → is_neg bstart ≡ false
    → is_neg blocal ≡ false
    → ltb_ℤ aglobal (pos 1) ≡ false
    → is_neg astart ≡ false
    → is_neg alocal ≡ false
    → ((plane_establish live bglobal bstart blocal aglobal astart alocal s).0 ≡ next success)
      × ((plane_established live true true true true true true
            (plane_establish live bglobal bstart blocal aglobal astart alocal s).1).0
          ≡ next (
            success,
            some bglobal
                ∷ some bstart
                ∷ some blocal
                ∷ some aglobal
                ∷ some astart
                ∷ some alocal
                ∷ [],
          ))
unfolding plane_establish plane_established fail_if
plane_established-establish s bglobal bstart blocal aglobal astart alocal e0 e1 e2 e3 e4 e5 =
    rw (e0, e1, e2, e3, e4, e5) (refl, refl)

-- With valid sizes, field_establish succeeds, and field_established then hands back those sizes.
pub field_established-establish :
    (s : Machine) (cglobal cstart clocal bglobal bstart blocal aglobal astart alocal : ℤ)
    → ltb_ℤ cglobal (pos 1) ≡ false
    → is_neg cstart ≡ false
    → is_neg clocal ≡ false
    → ltb_ℤ bglobal (pos 1) ≡ false
    → is_neg bstart ≡ false
    → is_neg blocal ≡ false
    → ltb_ℤ aglobal (pos 1) ≡ false
    → is_neg astart ≡ false
    → is_neg alocal ≡ false
    → ((field_establish live cglobal cstart clocal bglobal bstart blocal aglobal astart alocal s).0
        ≡ next success)
      × ((field_established live true true true true true true true true true
            (field_establish live cglobal cstart clocal bglobal bstart blocal aglobal astart alocal
              s).1).0
          ≡ next (
            success,
            some cglobal
                ∷ some cstart
                ∷ some clocal
                ∷ some bglobal
                ∷ some bstart
                ∷ some blocal
                ∷ some aglobal
                ∷ some astart
                ∷ some alocal
                ∷ [],
          ))
unfolding field_establish field_established fail_if
field_established-establish s cglobal cstart clocal bglobal bstart blocal aglobal astart alocal e0
      e1 e2 e3 e4 e5 e6 e7 e8 =
    rw (e0, e1, e2, e3, e4, e5, e6, e7, e8) (refl, refl)

-- With valid sizes, establish succeeds for lines, planes and fields, and established then hands
-- back those sizes.
pub established-establish :
    (s : Machine) (cglobal cstart clocal bglobal bstart blocal aglobal astart alocal : ℤ)
    → ltb_ℤ cglobal (pos 1) ≡ false
    → is_neg cstart ≡ false
    → is_neg clocal ≡ false
    → ltb_ℤ bglobal (pos 1) ≡ false
    → is_neg bstart ≡ false
    → is_neg blocal ≡ false
    → ltb_ℤ aglobal (pos 1) ≡ false
    → is_neg astart ≡ false
    → is_neg alocal ≡ false
    → (let line = line_establish live aglobal astart alocal s in
        let plane = plane_establish live bglobal bstart blocal aglobal astart alocal s in
        let field =
          field_establish live cglobal cstart clocal bglobal bstart blocal aglobal astart alocal
            s in
        let of_line = some aglobal ∷ some astart ∷ some alocal ∷ [] in
        let of_plane = some bglobal ∷ some bstart ∷ some blocal ∷ of_line in
        let of_field = some cglobal ∷ some cstart ∷ some clocal ∷ of_plane in
        ((line.0 ≡ next success)
          × ((line_established live true true true line.1).0 ≡ next (success, of_line)))
        × ((plane.0 ≡ next success)
            × ((plane_established live true true true true true true plane.1).0
                ≡ next (success, of_plane)))
        × ((field.0 ≡ next success)
            × ((field_established live true true true true true true true true true field.1).0
                ≡ next (success, of_field))))
established-establish s cglobal cstart clocal bglobal bstart blocal aglobal astart alocal e0 e1 e2
      e3 e4 e5 e6 e7 e8 =
    (
      line_established-establish s aglobal astart alocal e6 e7 e8,
      plane_established-establish s bglobal bstart blocal aglobal astart alocal e3 e4 e5 e6 e7 e8,
      field_established-establish s cglobal cstart clocal bglobal bstart blocal aglobal astart
          alocal e0 e1 e2 e3 e4 e5 e6 e7 e8,
    )
