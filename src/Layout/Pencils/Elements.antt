-- ===== src/Layout/Pencils/Elements.antt =====
-- The elements that a hyperslab transfer of HDF5 moves: the n-th element that is selected in memory
-- goes with the n-th that is selected in the file, both in row-major order.
use esio.Prelude.{ℕ, zero, suc, ◌+◌, ◌*◌, ◌≡◌, refl, sym, ap, ◌∙◌, List, [], ◌∷◌, ◌++◌, map, arith}
use mathlib.Core.List.{append_assoc, append-nil, map-append}
use native.Mathlib.Nat.{zero-add, suc-add, zero-mul, suc-mul}
use esio.Layout.Pencils.Positions.{
  Selected, each, coordinates, linear, positions, everything, hyperslab, points,
}
use esio.Layout.Pencils.Trace.{Moved, rounds}

module _ {ℓ} {A : Type ℓ} where
  pub each_cong : (i n : ℕ) (f g : ℕ → List A) → ((k : ℕ) → f k ≡ g k) → each i n f ≡ each i n g
  each_cong i zero f g e = refl
  each_cong i (suc n) f g e = rw (e i, each_cong (i + 1) n f g e) refl

  pub each_add : (i m n : ℕ) (f : ℕ → List A) → each i (m + n) f ≡ each i m f ++ each (i + m) n f
  each_add i zero n f = ap (λ t. each i t f) (zero-add n) ∙ ap (λ t. each t n f) (omega arith)
  each_add i (suc m) n f =
      ap (λ t. each i t f) (suc-add m n)
      ∙ ap (λ l. f i ++ l) (each_add (i + 1) m n f)
      ∙ ap (λ t. f i ++ (each (i + 1) m f ++ each t n f)) (omega arith)
      ∙ sym (append_assoc (f i) (each (i + 1) m f) (each (i + suc m) n f))

  pub each_shift : (i d n : ℕ) (f : ℕ → List A) → each (i + d) n f ≡ each i n (λ k. f (k + d))
  each_shift i d zero f = refl
  each_shift i d (suc n) f =
      ap (λ t. f (i + d) ++ each t n f) (omega arith)
      ∙ ap (λ l. f (i + d) ++ l) (each_shift (i + 1) d n f)

  -- The numbers below a product, row by row.
  pub each_rows :
      (i n m : ℕ) (f : ℕ → List A)
      → each (i * m) (n * m) f ≡ each i n (λ r. each 0 m (λ c. f (c + r * m)))
  each_rows i zero m f = ap (λ t. each (i * m) t f) (zero-mul m)
  each_rows i (suc n) m f =
      ap (λ t. each (i * m) t f) (n_rows ∙ omega arith)
      ∙ each_add (i * m) m (n * m) f
      ∙ ap (λ t. each t m f ++ each (i * m + m) (n * m) f) (sym (zero-add (i * m)))
      ∙ ap (λ l. l ++ each (i * m + m) (n * m) f) (each_shift 0 (i * m) m f)
      ∙ ap (λ t. each 0 m (λ c. f (c + i * m)) ++ each t (n * m) f) next_row
      ∙ ap (λ l. each 0 m (λ c. f (c + i * m)) ++ l) (each_rows (i + 1) n m f)
    where
      n_rows : suc n * m ≡ n * m + m
      n_rows = suc-mul n m

      next_row : i * m + m ≡ (i + 1) * m
      next_row = sym (suc-mul i m) ∙ ap (λ t. t * m) (omega arith)

module _ {ℓ} {A B : Type ℓ} where
  pub map-each :
      (g : A → B) (i n : ℕ) (f : ℕ → A)
      → map g (each i n (λ k. f k ∷ [])) ≡ each i n (λ k. g (f k) ∷ [])
  map-each g i zero f = refl
  map-each g i (suc n) f = ap (λ l. g (f i) ∷ l) (map-each g (i + 1) n f)

-- The elements of two lists, one by one.
abbrev pub pairs : {A B : Type 0} → List A → List B → List (A × B)
pairs [] ys = []
pairs (x ∷ xs) [] = []
pairs (x ∷ xs) (y ∷ ys) = (x, y) ∷ pairs xs ys

-- What is selected in the file. The extents of the file are not read: no transfer selects all of it,
-- and points are of a line.
abbrev pub places : Selected → List (List ℕ)
places everything = []
places (hyperslab (start, stride, count)) = coordinates start stride count
places (points ps) = map (λ p. p ∷ []) ps

-- The offset in memory of each element that a transfer moves, with its coordinates in the file.
abbrev pub elements : ℕ → Moved → List (ℕ × List ℕ)
elements type_size (memory, file, offset) =
    pairs (map (λ p. offset + type_size * p) (positions memory)) (places file)

-- The elements of all transfers, those of the first transfer first.
abbrev pub all_elements : ℕ → List Moved → List (ℕ × List ℕ)
all_elements type_size [] = []
all_elements type_size (m ∷ ms) = all_elements type_size ms ++ elements type_size m

pub all_elements-append :
    (type_size : ℕ) (ms ns : List Moved)
    → all_elements type_size (ms ++ ns) ≡ all_elements type_size ns ++ all_elements type_size ms
all_elements-append type_size [] ns = sym (append-nil _)
all_elements-append type_size (m ∷ ms) ns =
    ap (λ l. l ++ elements type_size m) (all_elements-append type_size ms ns)
    ∙ append_assoc (all_elements type_size ns) (all_elements type_size ms) (elements type_size m)

pub all_elements-rounds :
    (type_size : ℕ) (k : ℕ → List Moved) (i n : ℕ)
    → all_elements type_size (rounds k i n) ≡ each i n (λ r. all_elements type_size (k r))
all_elements-rounds type_size k i zero = refl
all_elements-rounds type_size k i (suc n) =
    all_elements-append type_size (rounds k (i + 1) n) (k i)
    ∙ ap (λ l. all_elements type_size (k i) ++ l) (all_elements-rounds type_size k (i + 1) n)

pub pairs-each :
    {A B : Type 0} (i n : ℕ) (f : ℕ → A) (g : ℕ → B)
    → pairs (each i n (λ k. f k ∷ [])) (each i n (λ k. g k ∷ [])) ≡ each i n (λ k. (f k, g k) ∷ [])
pairs-each i zero f g = refl
pairs-each i (suc n) f g = ap (λ l. (f i, g i) ∷ l) (pairs-each (i + 1) n f g)

pub each-map :
    {A B : Type 0} (g : A → B) (i n : ℕ) (f : ℕ → List A)
    → map g (each i n f) ≡ each i n (λ k. map g (f k))
each-map g i zero f = refl
each-map g i (suc n) f =
    map-append g (f i) (each (i + 1) n f) ∙ ap (λ l. map g (f i) ++ l) (each-map g (i + 1) n f)

pub map-each_end :
    {A B : Type 0} (g : A → B) (i n : ℕ) (f : ℕ → A)
    → map g (each i n (λ k. f k ∷ [])) ++ [] ≡ each i n (λ k. g (f k) ∷ [])
map-each_end g i n f = append-nil _ ∙ map-each g i n f

-- The coordinates in a block of one pencil.
pub coordinates-pencil2 :
    (a b d e n : ℕ)
    → coordinates (a ∷ b ∷ []) (d ∷ e ∷ []) (1 ∷ n ∷ [])
      ≡ each 0 n λ k. ((0 * d + a) ∷ (k * e + b) ∷ []) ∷ []
coordinates-pencil2 a b d e n = map-each_end (λ c. (0 * d + a) ∷ c) 0 n (λ k. (k * e + b) ∷ [])

pub coordinates-pencil3 :
    (a b c d e f n : ℕ)
    → coordinates (a ∷ b ∷ c ∷ []) (d ∷ e ∷ f ∷ []) (1 ∷ 1 ∷ n ∷ [])
      ≡ each 0 n λ k. ((0 * d + a) ∷ (0 * e + b) ∷ (k * f + c) ∷ []) ∷ []
coordinates-pencil3 a b c d e f n =
    ap (λ l. map (λ c. (0 * d + a) ∷ c) l ++ []) (coordinates-pencil2 b c e f n)
    ∙ map-each_end (λ c. (0 * d + a) ∷ c) 0 n (λ k. (0 * e + b) ∷ (k * f + c) ∷ [])

-- The elements of a pencil: places in memory and in the file, one by one.
pub elements-pencil :
    (type_size offset n : ℕ) (extents start stride count start' stride' count' : List ℕ)
    (memory file : ℕ → List ℕ)
    → coordinates start stride count ≡ each 0 n (λ k. memory k ∷ [])
    → coordinates start' stride' count' ≡ each 0 n (λ k. file k ∷ [])
    → elements type_size
        ((extents, hyperslab (start, stride, count)), hyperslab (start', stride', count'), offset)
      ≡ each 0 n λ k. (offset + type_size * linear 0 extents (memory k), file k) ∷ []
elements-pencil type_size offset n extents start stride count start' stride' count' memory file e
      e' =
    ap (λ l. pairs (map place (map (linear 0 extents) l)) (coordinates start' stride' count')) e
    ∙ ap (λ l. pairs (map place (map (linear 0 extents) (each 0 n (λ k. memory k ∷ [])))) l) e'
    ∙ ap (λ l. pairs (map place l) (each 0 n (λ k. file k ∷ [])))
        (map-each (linear 0 extents) 0 n memory)
    ∙ ap (λ l. pairs l (each 0 n (λ k. file k ∷ [])))
        (map-each place 0 n (λ k. linear 0 extents (memory k)))
    ∙ pairs-each 0 n (λ k. place (linear 0 extents (memory k))) file
  where
    place : ℕ → ℕ
    place p = offset + type_size * p
