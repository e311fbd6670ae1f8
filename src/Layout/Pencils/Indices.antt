-- ===== src/Layout/Pencils/Indices.antt =====
-- Lists over three indices, in row-major order.
use esio.Prelude.{ℕ, ◌+◌, ◌*◌, ◌≡◌, refl, sym, ap, ◌∙◌, List, [], ◌∷◌, map}
use native.Mathlib.Nat.{zero-mul}
use esio.Layout.Pencils.Positions.{each, coordinates}
use esio.Layout.Pencils.Elements.{each_cong, each_rows, map-each, pairs, each-map}

abbrev pub grid : {A : Type 0} → ℕ → ℕ → ℕ → (ℕ → ℕ → ℕ → A) → List A
grid l m n f = each 0 l λ i. each 0 m λ j. each 0 n λ k. f i j k ∷ []

pub grid_cong :
    {A : Type 0} (l m n : ℕ) (f g : ℕ → ℕ → ℕ → A)
    → ((i j k : ℕ) → f i j k ≡ g i j k)
    → grid l m n f ≡ grid l m n g
grid_cong l m n f g e =
    each_cong 0 l _ _ λ i. each_cong 0 m _ _ λ j. each_cong 0 n _ _ λ k. ap (λ x. x ∷ []) (e i j k)

pub map-grid :
    {A B : Type 0} (h : A → B) (l m n : ℕ) (f : ℕ → ℕ → ℕ → A)
    → map h (grid l m n f) ≡ grid l m n (λ i j k. h (f i j k))
map-grid h l m n f =
    each-map h 0 l (λ i. each 0 m λ j. each 0 n λ k. f i j k ∷ [])
    ∙ each_cong 0 l _ _ λ i.
      each-map h 0 m (λ j. each 0 n λ k. f i j k ∷ [])
      ∙ each_cong 0 m _ _ λ j. map-each h 0 n (f i j)

pairs-map :
    {A B C : Type 0} (f : C → A) (g : C → B) (l : List C)
    → pairs (map f l) (map g l) ≡ map (λ c. (f c, g c)) l
pairs-map f g [] = refl
pairs-map f g (c ∷ l) = ap (λ r. (f c, g c) ∷ r) (pairs-map f g l)

pub pairs-grid :
    {A B : Type 0} (l m n : ℕ) (f : ℕ → ℕ → ℕ → A) (g : ℕ → ℕ → ℕ → B)
    → pairs (grid l m n f) (grid l m n g) ≡ grid l m n (λ i j k. (f i j k, g i j k))
pairs-grid {A} {B} l m n f g =
    ap (λ r. pairs r (grid l m n g)) (sym (map-grid first l m n indices))
    ∙ ap (λ r. pairs (map first (grid l m n indices)) r) (sym (map-grid second l m n indices))
    ∙ pairs-map first second (grid l m n indices)
    ∙ map-grid (λ t. (first t, second t)) l m n indices
  where
    indices : ℕ → ℕ → ℕ → ℕ × ℕ × ℕ
    indices i j k = (i, j, k)

    first : ℕ × ℕ × ℕ → A
    first t = f t.0 t.1 t.2

    second : ℕ × ℕ × ℕ → B
    second t = g t.0 t.1 t.2

-- The coordinates in a block without strides.
pub coordinates-grid :
    (a b c l m n : ℕ)
    → coordinates (a ∷ b ∷ c ∷ []) [] (l ∷ m ∷ n ∷ [])
      ≡ grid l m n (λ i j k. (i + a) ∷ (j + b) ∷ (k + c) ∷ [])
coordinates-grid a b c l m n = each_cong 0 l _ _ λ i.
    ap (map (λ r. (i + a) ∷ r))
      (each_cong 0 m _ _ λ j. map-each (λ r. (j + b) ∷ r) 0 n (λ k. (k + c) ∷ []))
    ∙ each-map (λ r. (i + a) ∷ r) 0 m (λ j. each 0 n λ k. ((j + b) ∷ (k + c) ∷ []) ∷ [])
    ∙ each_cong 0 m _ _ λ j. map-each (λ r. (i + a) ∷ r) 0 n (λ k. (j + b) ∷ (k + c) ∷ [])

pub rows :
    {A : Type 0} (n m : ℕ) (f : ℕ → List A)
    → each 0 (n * m) f ≡ each 0 n (λ r. each 0 m (λ c. f (c + r * m)))
rows n m f = ap (λ t. each t (n * m) f) (sym (zero-mul m)) ∙ each_rows 0 n m f

-- The numbers below a product of three.
pub positions-grid :
    {A : Type 0} (l m n : ℕ) (f : ℕ → A)
    → each 0 (l * (m * n)) (λ p. f p ∷ []) ≡ grid l m n (λ i j k. f (k + j * n + i * (m * n)))
positions-grid l m n f =
    rows l (m * n) (λ p. f p ∷ []) ∙ each_cong 0 l _ _ λ i. rows m n (λ p. f (p + i * (m * n)) ∷ [])
