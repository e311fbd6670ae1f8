-- ===== src/Layout/Pencils/Positions.antt =====
-- Selections of HDF5, and the row-major order of what is selected.
pub mod Union
use esio.Prelude.{
  pos, ℕ, zero, suc, ◌+◌, ◌*◌, ap, List, [], ◌∷◌, ◌++◌, map, ltb, ◌==◌, if◌then◌else◌,
}

-- Start, stride and count of a hyperslab.
abbrev pub Block : Type 0
Block = List ℕ × List ℕ × List ℕ

-- What is selected in a dataspace. Of several hyperslabs the positions are kept.
pub data Selected : Type 0 where
  everything : Selected
  hyperslab : Block → Selected
  points : List ℕ → Selected

-- The extents that a dataspace was made with, and what is selected in it.
abbrev pub Selection : Type 0
Selection = List ℕ × Selected

module _ {ℓ} {A : Type ℓ} where
  -- A list for each number from the first one on.
  abbrev pub each : ℕ → ℕ → (ℕ → List A) → List A
  each i zero f = []
  each i (suc n) f = f i ++ each (i + 1) n f

-- The coordinates in a block, in row-major order. Without strides they are next to each other.
abbrev pub coordinates : List ℕ → List ℕ → List ℕ → List (List ℕ)
coordinates [] strides counts = [] ∷ []
coordinates (start ∷ starts) strides [] = [] ∷ []
coordinates (start ∷ starts) [] (count ∷ counts) =
    let rest = coordinates starts [] counts in each 0 count (λ k. map (λ c. (k + start) ∷ c) rest)
coordinates (start ∷ starts) (stride ∷ strides) (count ∷ counts) =
    let rest = coordinates starts strides counts in
    each 0 count (λ k. map (λ c. (k * stride + start) ∷ c) rest)

-- The position of coordinates in an array with these extents.
abbrev pub linear : ℕ → List ℕ → List ℕ → ℕ
linear row [] cs = row
linear row (extent ∷ extents) [] = row
linear row (extent ∷ extents) (c ∷ cs) = linear (row * extent + c) extents cs

abbrev pub product : List ℕ → ℕ
product [] = 1
product (extent ∷ extents) = extent * product extents

abbrev pub positions : Selection → List ℕ
positions (extents, everything) = each 0 (product extents) (λ p. p ∷ [])
positions (extents, hyperslab (start, stride, count)) =
    map (linear 0 extents) (coordinates start stride count)
positions (extents, points ps) = ps

-- A position is put at its place in row-major order, once.
abbrev pub insert : ℕ → List ℕ → List ℕ
insert p [] = p ∷ []
insert p (q ∷ ps) =
    let rest = insert p ps in if ltb p q then p ∷ q ∷ ps else if p == q then q ∷ ps else q ∷ rest

abbrev pub unite : List ℕ → List ℕ → List ℕ
unite ps [] = ps
unite ps (q ∷ qs) = unite (insert q ps) qs
