-- ===== src/Field/Apart.antt =====
-- No two elements of a field have one offset in memory, or one place in the file.
use esio.Prelude.{
  ℤ, pos, negsuc, ℕ, zero, suc, ◌+◌, ◌*◌, ◌/◌, ◌<◌, ◌≡◌, sym, ap, ◌∙◌, List, arith, get_or,
}
use native.Mathlib.Nat.{
  mul-add-div_right, div-eq_of_lt, eq_of_mul-eq-mul_left, eq_of_mul-eq-mul_right, add_left_cancel,
  add_assoc, add-zero,
}
use esio.Layout.Table.Moves.{IsSpread, place_in}

-- A number below `m` and a multiple of `m` are determined by their sum.
digits : (m i i' x x' : ℕ) → x < m → x' < m → i * m + x ≡ i' * m + x' → (i ≡ i') × (x ≡ x')
digits m i i' x x' l l' e =
    (same_row, add_left_cancel (i' * m) (ap (λ t. t * m + x) (sym same_row) ∙ e))
  where
    row : (i x : ℕ) → x < m → (i * m + x) / m ≡ i
    row i x l =
        mul-add-div_right {m = m} (omega (arith, l)) i x
        ∙ ap (λ t. i + t) (div-eq_of_lt l)
        ∙ add-zero i

    same_row : i ≡ i'
    same_row = sym (row i x l) ∙ ap (λ t. t / m) e ∙ row i' x' l'

-- The offsets of elements that differ are different.
pub offset-injective :
    (type_size blocal alocal cstride bstride astride : ℕ)
    → 0 < type_size
    → IsSpread blocal alocal cstride bstride astride
    → (i j k i' j' k' : ℕ) → j < blocal
    → k < alocal
    → j' < blocal
    → k' < alocal
    → type_size * (i * cstride + j * bstride + k * astride)
      ≡ type_size * (i' * cstride + j' * bstride + k' * astride)
    → (i ≡ i') × (j ≡ j') × (k ≡ k')
offset-injective type_size blocal alocal cstride bstride astride sized spread i j k i' j' k' jb ka
      jb' ka' e =
    let (same_i, rest) =
      digits cstride i i' (j * bstride + k * astride) (j' * bstride + k' * astride)
        (spread.planes_apart j k jb ka) (spread.planes_apart j' k' jb' ka')
        (sym (add_assoc (i * cstride) (j * bstride) (k * astride))
          ∙ eq_of_mul-eq-mul_left type_size sized _ _ e
          ∙ add_assoc (i' * cstride) (j' * bstride) (k' * astride)) in
    let (same_j, rest') =
      digits bstride j j' (k * astride) (k' * astride) (spread.rows_apart k ka)
        (spread.rows_apart k' ka') rest in
    (same_i, same_j, eq_of_mul-eq-mul_right astride spread.rising k k' rest')

-- The places of elements that differ are different. In layout 2 the second index has to be below the
-- extent of its direction.
pub place_in-injective :
    (layout_index : ℤ) (bglobal c b a c' b' a' : ℕ)
    → b < bglobal
    → b' < bglobal
    → place_in layout_index bglobal c b a ≡ place_in layout_index bglobal c' b' a'
    → (c ≡ c') × (b ≡ b') × (a ≡ a')
place_in-injective layout_index bglobal c b a c' b' a' l l' e = cases layout_index e
  where
    at : ℕ → List ℕ → ℕ
    at n xs = get_or xs n 0

    cases :
        (layout_index : ℤ)
        → place_in layout_index bglobal c b a ≡ place_in layout_index bglobal c' b' a'
        → (c ≡ c') × (b ≡ b') × (a ≡ a')
    cases (pos zero) e = (ap (at 0) e, ap (at 1) e, ap (at 2) e)
    cases (pos (suc zero)) e = (ap (at 0) e, ap (at 1) e, ap (at 2) e)
    cases (pos (suc (suc zero))) e =
        let (same_c, same_b) = digits bglobal c c' b b' l l' (omega (arith, ap (at 0) e)) in
        (same_c, same_b, ap (at 1) e)
    cases (pos (suc (suc (suc n)))) e = (ap (at 0) e, ap (at 1) e, ap (at 2) e)
    cases (negsuc n) e = (ap (at 0) e, ap (at 1) e, ap (at 2) e)
