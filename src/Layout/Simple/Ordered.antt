-- ===== src/Layout/Simple/Ordered.antt =====
-- Runs in memory that are selected in the order in which they lie there.
use esio.Prelude.{
  ℕ, zero, suc, ◌+◌, ◌*◌, ◌<◌, ◌≡◌, refl, sym, ap, ◌∙◌, List, [], ◌∷◌, ◌++◌, arith, All,
}
use mathlib.Core.List.{append-nil}
use native.Mathlib.Nat.{zero-add, zero-mul, add-mul, one-mul, suc-mul}
use esio.Layout.Pencils.Positions.{each, linear, unite}
use esio.Layout.Pencils.Positions.Union.{All-each, unite-run, over, over-rows}
use esio.Layout.Pencils.Elements.{each_cong, map-each, pairs}
use esio.Layout.Pencils.Indices.{grid, pairs-grid}
use esio.Layout.Simple.Choosing.{run}

run-each :
    (extent start stride n : ℕ)
    → run (extent ∷ []) start stride n ≡ each 0 n (λ k. (k * stride + start) ∷ [])
run-each extent start stride n =
    map-each (linear 0 (extent ∷ [])) 0 n (λ k. (k * stride + start) ∷ [])
    ∙ each_cong 0 n _ _ (λ k t. same k t ∷ [])
  where
    same : (k : ℕ) → 0 * extent + (k * stride + start) ≡ k * stride + start
    same k = rw (zero-mul extent) (zero-add (k * stride + start))

-- A run behind all that is selected.
pub unite-behind :
    (extent start stride n : ℕ) (ps : List ℕ)
    → 0 < stride
    → All (λ q. q < start) ps
    → unite ps (run (extent ∷ []) start stride n) ≡ ps ++ each 0 n (λ k. (k * stride + start) ∷ [])
unite-behind extent start stride n ps rising a =
    ap (unite ps) (run-each extent start stride n)
    ∙ unite-run (λ k. k * stride + start) 0 n ps next_rises (rw (zero-mul stride, zero-add start) a)
  where
    next_rises : (k : ℕ) → k * stride + start < (k + 1) * stride + start
    next_rises k = rw (add-mul k 1 stride, one-mul stride) (omega (arith, rising))

-- The rows of a plane, one behind the other and `bstride` apart.
module _ (extent bstride astride alocal : ℕ) (start : ℕ → ℕ) (rising : 0 < astride)
    (apart : (k : ℕ) → k < alocal → k * astride < bstride)
    (step : (j : ℕ) → start (j + 1) ≡ start j + bstride) where
  abbrev pub plane_row : ℕ → List ℕ
  plane_row j = each 0 alocal (λ k. (k * astride + start j) ∷ [])

  below : (j : ℕ) → All (λ q. q < start (j + 1)) (plane_row j)
  below j =
      All-each (λ q. q < start (j + 1)) (λ k. (k * astride + start j) ∷ []) 0 alocal
        λ k l. (omega (arith, step j, apart k (omega (arith, l))), tt)

  pub over-plane :
      (n : ℕ) (ps : List ℕ)
      → All (λ q. q < start 0) ps
      → over (λ j ps. unite ps (run (extent ∷ []) (start j) astride alocal)) 0 n ps
        ≡ ps ++ each 0 n plane_row
  over-plane n ps a =
      over-rows _ plane_row start 0 n ps
        (λ j ps. unite-behind extent (start j) astride alocal ps rising) below
        (λ j. omega (arith, step j)) a

pub each-nothing : {A : Type 0} (i n : ℕ) → each {A = A} i n (λ k. []) ≡ []
each-nothing i zero = refl
each-nothing i (suc n) = each-nothing (i + 1) n

-- Rows that are empty, or of which there are none.
pub each-empty :
    {A : Type 0} (m n : ℕ) (f : ℕ → ℕ → A)
    → m * n ≡ 0
    → each 0 m (λ j. each 0 n λ k. f j k ∷ []) ≡ []
each-empty zero n f e = refl
each-empty (suc m) n f e =
    ap (λ n. each 0 (suc m) λ j. each 0 n λ k. f j k ∷ []) no_columns ∙ each-nothing 0 (suc m)
  where
    no_columns : n ≡ 0
    no_columns = omega (arith, sym (suc-mul m n) ∙ e)

pub pairs-rows :
    {A B : Type 0} (m n : ℕ) (f : ℕ → ℕ → A) (g : ℕ → ℕ → B)
    → pairs (each 0 m λ j. each 0 n λ k. f j k ∷ []) (each 0 m λ j. each 0 n λ k. g j k ∷ [])
      ≡ each 0 m λ j. each 0 n λ k. (f j k, g j k) ∷ []
pairs-rows m n f g =
    ap (λ l. pairs l (each 0 m λ j. each 0 n λ k. g j k ∷ [])) (sym (append-nil _))
    ∙ ap (pairs (grid 1 m n (λ i. f))) (sym (append-nil _))
    ∙ pairs-grid 1 m n (λ i. f) (λ i. g)
    ∙ append-nil _

pub grid-empty : {A : Type 0} (l m n : ℕ) (f : ℕ → ℕ → ℕ → A) → l * m * n ≡ 0 → grid l m n f ≡ []
grid-empty zero m n f e = refl
grid-empty (suc l) m n f e =
    each_cong 0 (suc l) _ (λ i. []) (λ i. each-empty m n (f i) no_plane) ∙ each-nothing 0 (suc l)
  where
    no_plane : m * n ≡ 0
    no_plane = omega (arith, sym (add-mul (l * m) m n) ∙ ap (λ t. t * n) (sym (suc-mul l m)) ∙ e)
